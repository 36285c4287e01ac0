-- ===== src/Window/Finish.antt =====
-- The ack of the last packet: the transmission ends, or begins again after a pause.
use cn_project.Base.{
  ℕ, ◌+◌, ◌%◌, ◌^◌, ◌<◌, ◌≡◌, ◌≤◌, ◌≢◌, refl, ap, ◌∙◌, Option, none, some, List, [], ◌∷◌, ◌++◌, map,
  length, arith, true, false, u64_max, ltb, ◌==◌, ==_iff, if◌then◌else◌,
}
use cn_project.Message.{Packet}
use cn_project.Tcp.{
  Env, TcpConnection, OutBufferElement, sleep, emit, max_packet_id, stop_timeout, mark_acked,
  expected_ack, on_expected_ack, on_later_ack, on_data_sent_completely, handle_ack, measure_rtt,
  last_index, send_message_again, reset_connection, close_connection, move_assign, new_connection,
  ◌>>=◌,
}
use cn_project.Window.{pointers, IsSending}
use cn_project.Window.Buffer.{length-buffer}
use cn_project.Window.Rtt.{measure_rtt_lem}
use cn_project.Window.Ready.{moved, mark_acked_lem}
use cn_project.Window.Start.{HasBegun, restarted, send_message_lem, send_message_again_lem}

-- A transmission is over: every packet is acknowledged, and no timer is left.
pub record IsOver (wire : List Packet) (c : TcpConnection) : Type 0 where
  pub buffered : pointers c.out_buffer ≡ none ∷ map some wire
  pub acked : c.sender_last_packet_acked ≡ length wire
  pub sent_le : c.last_packet_sent ≤ length wire
  pub stopped : c.is_timeout_allowed ≡ false
  pub no_timer : c.timeout_threads ≡ []

-- It is over from `c` to `c'`, and nothing was sent.
pub record IsComplete (wire : List Packet) (c c' : TcpConnection) : Type 0 where
  pub over : IsOver wire c'
  pub silent : c'.effects ≡ c.effects
  pub opened : c'.is_open ≡ c.is_open
  pub repeating : c'.repeat_delay ≡ c.repeat_delay

-- What `onDataSentCompletely` keeps of `c`, and the pause it makes, before the next transmission.
pub record IsPaused (c f : TcpConnection) : Type 0 where
  pub pause : f.effects ≡ c.effects ++ (sleep c.repeat_delay ∷ [])
  pub message : f.msg_buffer ≡ c.msg_buffer
  pub repeating : f.repeat_delay ≡ c.repeat_delay
  pub host : f.corresponding_host ≡ c.corresponding_host
  pub from : f.end_point ≡ c.end_point

module _ (env : Env) (wire : List Packet) (p : Packet) (c : TcpConnection) (s : IsSending wire c)
    (last : c.sender_last_packet_acked + 1 ≡ length wire) (opened : c.is_open ≡ true)
    (here : p.packet_id ≡ expected_ack c) where
  abbrev final : ℕ → List OutBufferElement → TcpConnection
  final r buffer = record (moved c) { estimated_rtt = r; out_buffer = buffer }

  last_in_window :
      (r : ℕ) (buffer : List OutBufferElement)
      → (p.packet_id == (final r buffer).last_packet_sent % max_packet_id) ≡ true
  unfolding expected_ack
  last_in_window r buffer = (==_iff _ _).1 (
      here
      ∙ ap (λ (t : ℕ). t % max_packet_id) {x = c.sender_last_packet_acked + 1}
          {y = c.last_packet_sent} (omega (arith, last, s.acked_lt, s.sent_le)))

  last_in_buffer :
      (r : ℕ) (buffer : List OutBufferElement)
      → pointers buffer ≡ none ∷ map some wire
      → ((final r buffer).sender_last_packet_acked == last_index (final r buffer)) ≡ true
  unfolding last_index
  last_in_buffer r buffer b = ground (arith, length-buffer buffer wire b, s.small, last)

  answer_last :
      (r : ℕ) (buffer : List OutBufferElement)
      → pointers buffer ≡ none ∷ map some wire
      → mark_acked (record c { estimated_rtt = r }) ≡ some (final r buffer)
      → on_expected_ack env p (record c { estimated_rtt = r })
        ≡ on_data_sent_completely env (stop_timeout (final r buffer))
  unfolding on_expected_ack
  answer_last r buffer b marked = rw (marked, last_in_window r buffer, last_in_buffer r buffer b)

  -- The ack leads to `onDataSentCompletely`.
  handle_ack_completes :
      (r : ℕ) × (buffer : List OutBufferElement) × (pointers buffer ≡ none ∷ map some wire)
      × (handle_ack env p c ≡ on_data_sent_completely env (stop_timeout (final r buffer)))
  unfolding handle_ack expected_ack
  handle_ack_completes =
      let (r, measured) = measure_rtt_lem env wire p c s in
      let (buffer, marked, b) =
        mark_acked_lem env wire (record c { estimated_rtt = r }) s.buffered (omega (arith, last)) in
      (
        r,
        buffer,
        b,
        ap (λ t. if t then (measure_rtt env p c >>= dispatch) else some c) opened
            ∙ ap (λ o. o >>= dispatch) measured
            ∙ ap
                (λ t.
                  if t
                  then on_expected_ack env p (record c { estimated_rtt = r })
                  else later (record c { estimated_rtt = r }))
                ((==_iff _ _).1 here)
            ∙ answer_last r buffer b marked,
      )
    where
      later : TcpConnection → Option TcpConnection
      later m = if ltb (expected_ack m) p.packet_id then on_later_ack env m else some m

      dispatch : TcpConnection → Option TcpConnection
      dispatch m = if p.packet_id == expected_ack m then on_expected_ack env p m else later m

  -- The ack that is expected and the last one missing, in a transmission on an open connection that
  -- is not to be repeated: `handleAck` succeeds, every packet is acknowledged, nothing is sent, and
  -- no timer is left or allowed.
  pub handle_ack_last :
      c.repeat_delay ≡ u64_max
      → (c' : TcpConnection) × (handle_ack env p c ≡ some c') × IsComplete wire c c'
  unfolding on_data_sent_completely stop_timeout
  handle_ack_last once =
      let (r, buffer, b, run) = handle_ack_completes in
      (
        stop_timeout (final r buffer),
        run
            ∙ ap
                (λ t.
                  if t
                  then some (stop_timeout (final r buffer))
                  else send_message_again env
                      (emit (sleep c.repeat_delay) (stop_timeout (final r buffer))))
                ((==_iff _ _).1 once),
        record {
          over = record {
            buffered = b;
            acked = last;
            sent_le = s.sent_le;
            stopped = refl;
            no_timer = refl;
          };
          silent = refl;
          opened = refl;
          repeating = refl;
        },
      )

  -- The ack that is expected and the last one missing, in a transmission on an open connection that
  -- is to be repeated, at a positive packet size and a stored message shorter than 2^61:
  -- `handleAck` pauses for the delay, and the transmission of the stored message begins again.
  pub handle_ack_repeat :
      c.repeat_delay ≢ u64_max
      → 0 < env.packet_size
      → length c.msg_buffer < 2 ^ 61
      → (f : TcpConnection) × (c' : TcpConnection) × (handle_ack env p c ≡ some c')
        × HasBegun env c.msg_buffer f c'
        × IsPaused c f
  unfolding on_data_sent_completely stop_timeout reset_connection close_connection move_assign
      new_connection emit
  handle_ack_repeat again pos small =
      let (r, buffer, b, run) = handle_ack_completes in
      let slept = emit (sleep c.repeat_delay) (stop_timeout (final r buffer)) in
      let (c', sent, begun) = send_message_lem env c.msg_buffer c.repeat_delay slept pos small in
      (
        restarted c.msg_buffer c.repeat_delay slept,
        c',
        run
            ∙ ap
                (λ t.
                  if t then some (stop_timeout (final r buffer)) else send_message_again env slept)
                differs
            ∙ send_message_again_lem env slept
            ∙ sent,
        begun,
        record { pause = refl; message = refl; repeating = refl; host = refl; from = refl },
      )
    where
      differs : (c.repeat_delay == u64_max) ≡ false
      differs = ground arith
