-- ===== src/Window/Start.antt =====
-- `sendMessage`: a transmission begins with the header alone, in a window of one.
use cn_project.Base.{
  ℕ, ◌+◌, ◌^◌, ◌<◌, ◌≤◌, ◌≡◌, refl, ap, ◌∙◌, none, some, List, [], ◌∷◌, ◌++◌, map, length, take,
  arith, true, false, Option, append-nil, sym, u64_max,
}
use cn_project.Message.{Packet}
use cn_project.Tcp.{
  Env, TcpConnection, send, packetize, dummy_element, element_of, first_packet, send_and_arm,
  send_message, send_message_again, reset_connection, close_connection, stop_timeout, move_assign,
  new_connection, ◌>>=◌,
}
use cn_project.Segments.Layout.{wire, rounds, packetize_lem}
use cn_project.Segments.Message.{length-data_packets}
use cn_project.Window.{pointers, IsSending}
use cn_project.Window.Round.{IsReady, send_and_arm_lem, send_and_arm-Keeps}

pointers-map : (ps : List Packet) → pointers (map element_of ps) ≡ map some ps
pointers-map [] = refl
pointers-map (p ∷ ps) = ap (◌∷◌ (some p)) (pointers-map ps)

-- What has happened when a transmission of `msg` has begun from `f`, a connection that was reset.
pub record HasBegun (env : Env) (msg : List ℕ) (f c' : TcpConnection) : Type 0 where
  pub sending : IsSending (wire env f msg) c'
  pub first : c'.effects ≡ f.effects ++ (send (first_packet env f (length msg)) ∷ [])
  pub acked : c'.sender_last_packet_acked ≡ 0
  pub last : c'.last_packet_sent ≡ 1
  pub window : c'.cwnd ≡ 1
  pub threshold : c'.ssthresh ≡ u64_max
  pub opened : c'.is_open ≡ true
  pub repeating : c'.repeat_delay ≡ f.repeat_delay
  pub message : c'.msg_buffer ≡ f.msg_buffer
  pub rest : c' ≡ record f {
    last_packet_sent = 1;
    out_buffer = c'.out_buffer;
    start_time = env.now;
    effects = c'.effects;
    is_timeout_allowed = true;
    timeout_threads = c'.timeout_threads;
  }

-- A connection whose members are reset, but for the two ends and the estimated round trip, with the
-- message and the delay of a new transmission.
abbrev pub restarted : List ℕ → ℕ → TcpConnection → TcpConnection
restarted msg repeat_delay c = record c {
  cwnd = 1;
  ssthresh = u64_max;
  msg_buffer = msg;
  out_buffer = [];
  sender_last_packet_acked = 0;
  last_packet_sent = 0;
  timeout_threads = [];
  is_timeout_allowed = false;
  repeat_delay = repeat_delay;
  start_time = 0;
  is_open = true;
  in_buffer = [];
  current_message_size = 0;
  bytes_received_so_far = 0;
  number_of_total_packets = 0;
  receiver_last_packet_acked = 0;
}

-- `resetConnection` does that, keeps the message and leaves the delay without a value.
reset_connection_lem :
    (env : Env) (c : TcpConnection)
    → reset_connection env c ≡ some (restarted c.msg_buffer env.indeterminate c)
unfolding reset_connection close_connection stop_timeout move_assign new_connection
reset_connection_lem env c =
    ap (λ es. some (record (restarted c.msg_buffer env.indeterminate c) { effects = es }))
      (append-nil c.effects)

module _ (env : Env) (msg : List ℕ) (repeat_delay : ℕ) (c : TcpConnection)
    (pos : 0 < env.packet_size) (small : length msg < 2 ^ 61) where
  abbrev f : TcpConnection
  f = restarted msg repeat_delay c

  abbrev packed : TcpConnection
  packed = record f {
    out_buffer = dummy_element ∷ map element_of (wire env f msg);
    start_time = env.now;
  }

  rounds_le : rounds env f msg ≤ length msg + 1
  rounds_le = ground (arith, pos)

  length-wire : length (wire env f msg) ≤ length msg + 2
  length-wire = omega (
    arith,
    length-data_packets env.packet_size f.corresponding_host f.end_point msg (rounds env f msg) 0,
    rounds_le,
  )

  packed-IsReady : IsReady (wire env f msg) packed
  packed-IsReady = record {
    buffered = ap (◌∷◌ none) (pointers-map (wire env f msg));
    acked_lt = omega arith;
    window_pos = omega arith;
    window_le = omega arith;
    threshold_pos = omega arith;
    small = omega (arith, length-wire);
  }

  begin_lem : (c' : TcpConnection) × (send_and_arm env packed ≡ some c') × HasBegun env msg f c'
  begin_lem =
      let (c', run, s) = send_and_arm_lem env (wire env f msg) packed packed-IsReady in
      (
        c',
        run,
        record {
          sending = s.sending;
          first =
              s.sent
              ∙ ap (λ (n : ℕ). f.effects ++ map send (take n (wire env f msg))) {y = 1}
                  (omega arith);
          acked = s.acked;
          last = s.last ∙ omega arith;
          window = s.cwnd;
          threshold = s.ssthresh;
          opened = s.opened;
          repeating = s.repeating;
          message = s.message;
          rest =
              send_and_arm-Keeps env (wire env f msg) packed c' packed-IsReady run
              ∙ ap
                  (λ (w : ℕ). record packed {
                    last_packet_sent = w;
                    out_buffer = c'.out_buffer;
                    effects = c'.effects;
                    is_timeout_allowed = true;
                    timeout_threads = c'.timeout_threads;
                  })
                  {y = 1} (omega arith);
        },
      )

  packetize_restarted : packetize env msg f ≡ some (record f { out_buffer = packed.out_buffer })
  packetize_restarted = packetize_lem env f msg pos refl

  -- At a positive packet size and a message shorter than 2^61, `sendMessage` succeeds from every
  -- state: it sets the window to 1 under the largest threshold, stores the message and the delay,
  -- forgets what was sent and received before and all timers, and keeps the two ends and the
  -- estimated round trip. The transmission of the message is under way, the header alone is sent,
  -- and a timer runs.
  pub send_message_lem :
      (c' : TcpConnection) × (send_message env msg repeat_delay c ≡ some c') × HasBegun env msg f c'
  unfolding send_message
  send_message_lem =
      let (c', run, begun) = begin_lem in
      (
        c',
        ap (λ o. o >>= λ fresh. to_wire (packetize env msg (with_message fresh)))
              (reset_connection_lem env c)
            ∙ ap to_wire packetize_restarted
            ∙ run,
        begun,
      )
    where
      to_wire : Option TcpConnection → Option TcpConnection
      to_wire o = o >>= λ p. send_and_arm env (record p { start_time = env.now })

      with_message : TcpConnection → TcpConnection
      with_message fresh = record fresh { repeat_delay = repeat_delay; msg_buffer = msg }

-- From every state the private overload does what the public one does with the stored message and
-- the stored delay.
pub send_message_again_lem :
    (env : Env) (c : TcpConnection)
    → send_message_again env c ≡ send_message env c.msg_buffer c.repeat_delay c
unfolding send_message_again send_message
send_message_again_lem env c =
    ap begin_again (reset_connection_lem env c) ∙ sym (ap begin (reset_connection_lem env c))
  where
    to_wire : Option TcpConnection → Option TcpConnection
    to_wire o = o >>= λ p. send_and_arm env (record p { start_time = env.now })

    begin_again : Option TcpConnection → Option TcpConnection
    begin_again o = o >>= λ fresh.
        to_wire (packetize env fresh.msg_buffer (record fresh { repeat_delay = c.repeat_delay }))

    begin : Option TcpConnection → Option TcpConnection
    begin o = o >>= λ fresh. to_wire (
        packetize env c.msg_buffer
          (record fresh { repeat_delay = c.repeat_delay; msg_buffer = c.msg_buffer }))
