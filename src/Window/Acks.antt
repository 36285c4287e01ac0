-- ===== src/Window/Acks.antt =====
-- `handleAck` in the course of a transmission.
use cn_project.Base.{
  ℕ, ◌+◌, ◌%◌, ◌<◌, ◌≡◌, ◌≢◌, refl, sym, ap, subst, ◌∙◌, Option, none, some, List, ◌∷◌, map, length,
  arith, true, false, Bool-cases, inl, inr, ltb, ltb→lt, ◌==◌, ==_iff, if◌then◌else◌,
}
use cn_project.Message.{Packet}
use cn_project.Tcp.{
  Env, TcpConnection, OutBufferElement, max_packet_id, send_and_arm, stop_timeout, start_slow_again,
  grow_window, mark_acked, measure_rtt, expected_ack, on_expected_ack, on_later_ack, handle_ack,
  last_index, ◌>>=◌,
}
use cn_project.Window.{pointers, IsSending}
use cn_project.Window.Buffer.{length-buffer}
use cn_project.Window.Round.{Sends, Sends-cong, send_and_arm_lem}
use cn_project.Window.Rtt.{measure_rtt_lem}
use cn_project.Window.Ready.{
  moved, grown, slowed, grow_window_lem, mark_acked_lem, stopped-IsReady, grown-IsReady,
  on_later_ack_lem,
}

module _ (env : Env) (wire : List Packet) where
  -- What an ack does while it is not the last one that is missing.
  pub record Answers (p : Packet) (c c' : TcpConnection) : Type 0 where
    pub window_done :
        p.packet_id ≡ expected_ack c
        → p.packet_id ≡ c.last_packet_sent % max_packet_id
        → Sends wire (grown (moved c)) c'
    pub in_window :
        p.packet_id ≡ expected_ack c
        → p.packet_id ≢ c.last_packet_sent % max_packet_id
        → IsSending wire c'
          × (c' ≡ record (moved c) { estimated_rtt = c'.estimated_rtt; out_buffer = c'.out_buffer })
    pub later : expected_ack c < p.packet_id → Sends wire (slowed c) c'
    pub earlier : p.packet_id < expected_ack c → c' ≡ record c { estimated_rtt = c'.estimated_rtt }

  in_window_sending :
      (c : TcpConnection) (r : ℕ) (buffer : List OutBufferElement)
      → IsSending wire c
      → pointers buffer ≡ none ∷ map some wire
      → c.sender_last_packet_acked + 1 ≢ c.last_packet_sent
      → IsSending wire (record (moved c) { estimated_rtt = r; out_buffer = buffer })
  in_window_sending c r buffer s b ne = record {
    buffered = b;
    acked_lt = omega (arith, s.acked_lt);
    sent_le = s.sent_le;
    window_pos = s.window_pos;
    window_le = omega (arith, s.window_le);
    threshold_pos = s.threshold_pos;
    small = s.small;
    allowed = s.allowed;
    timed = s.timed;
  }

  module _ (p : Packet) (c : TcpConnection) (s : IsSending wire c)
      (more : c.sender_last_packet_acked + 1 < length wire) where
    abbrev pub Answered : Option TcpConnection → Type 0
    Answered o = (c' : TcpConnection) × (o ≡ some c') × Answers p c c'

    module _ (r : ℕ) (buffer : List OutBufferElement) (b : pointers buffer ≡ none ∷ map some wire)
        (here : p.packet_id ≡ expected_ack c) where
      abbrev after : TcpConnection
      after = record (moved c) { estimated_rtt = r; out_buffer = buffer }

      whole_window :
          p.packet_id ≡ c.last_packet_sent % max_packet_id
          → Answered (send_and_arm env (stop_timeout (grow_window after)))
      unfolding stop_timeout grow_window
      whole_window full =
          let (c', run, sends) = send_and_arm_lem env wire (stop_timeout (grow_window after)) (
            stopped-IsReady env wire (grow_window after)
              (grown-IsReady env wire c r buffer s b more)) in
          (
            c',
            run,
            record {
              window_done = λ _ _.
                  Sends-cong env wire (stop_timeout (grow_window after)) (grown (moved c)) c' sends
                    refl (grow_window_lem env wire c s) refl refl refl refl refl;
              in_window = λ _ ne. absurd (ne full);
              later = λ lt. absurd (omega arith);
              earlier = λ lt. absurd (omega arith);
            },
          )

      part_window : p.packet_id ≢ c.last_packet_sent % max_packet_id → Answers p c after
      unfolding expected_ack
      part_window ne = record {
        window_done = λ _ full. absurd (ne full);
        in_window = λ _ _. (
          in_window_sending c r buffer s b (λ e. ne (here ∙ ap (λ (t : ℕ). t % max_packet_id) e)),
          refl,
        );
        later = λ lt. absurd (omega arith);
        earlier = λ lt. absurd (omega arith);
      }

      not_last : (after.sender_last_packet_acked == last_index after) ≡ false
      unfolding last_index
      not_last = ground (arith, length-buffer buffer wire b, s.small)

      answer_marked :
          mark_acked (record c { estimated_rtt = r }) ≡ some after
          → Answered (on_expected_ack env p (record c { estimated_rtt = r }))
      unfolding on_expected_ack
      answer_marked marked = elim (Bool-cases (p.packet_id == c.last_packet_sent % max_packet_id)) [
        | inl full ↦ rw (marked, full, not_last) (whole_window ((==_iff _ _).0 full))
        | inr part ↦ (after, rw (marked, part), part_window (differ part))
      ]
        where
          differ :
              (p.packet_id == c.last_packet_sent % max_packet_id) ≡ false
              → p.packet_id ≢ c.last_packet_sent % max_packet_id
          differ part = ground arith

    pub measured_sending : (r : ℕ) → IsSending wire (record c { estimated_rtt = r })
    measured_sending r = record {
      buffered = s.buffered;
      acked_lt = s.acked_lt;
      sent_le = s.sent_le;
      window_pos = s.window_pos;
      window_le = s.window_le;
      threshold_pos = s.threshold_pos;
      small = s.small;
      allowed = s.allowed;
      timed = s.timed;
    }

    answer_later :
        (r : ℕ)
        → expected_ack c < p.packet_id
        → Answered (on_later_ack env (record c { estimated_rtt = r }))
    unfolding stop_timeout start_slow_again
    answer_later r h =
        let m = record c { estimated_rtt = r } in
        let (c', run, sends) = on_later_ack_lem env wire m (measured_sending r) in
        (
          c',
          run,
          record {
            window_done = λ e _. absurd (omega arith);
            in_window = λ e _. absurd (omega arith);
            later = λ _.
                Sends-cong env wire (stop_timeout (start_slow_again m)) (slowed c) c' sends refl
                  refl refl refl refl refl refl;
            earlier = λ lt. absurd (omega arith);
          },
        )

    -- The answer once the round trip is measured.
    answer_measured :
        (r : ℕ)
        → Answered (
            let m = record c { estimated_rtt = r } in
            if p.packet_id == expected_ack c
            then on_expected_ack env p m
            else if ltb (expected_ack c) p.packet_id
            then on_later_ack env m
            else some m)
    answer_measured r = elim (Bool-cases (p.packet_id == expected_ack c)) [
      | inl here ↦
          let (buffer, marked, b) =
            mark_acked_lem env wire (record c { estimated_rtt = r }) s.buffered (omega arith) in
          rw here (answer_marked r buffer b ((==_iff _ _).0 here) marked)
      | inr other ↦ elim (Bool-cases (ltb (expected_ack c) p.packet_id)) [
        | inl late ↦ rw (other, late) (answer_later r (ltb→lt _ _ late))
        | inr early ↦
            rw (other, early)
              (
                record c { estimated_rtt = r },
                refl,
                record {
                  window_done = λ e _. absurd (ground arith);
                  in_window = λ e _. absurd (ground arith);
                  later = λ lt. absurd (ground arith);
                  earlier = λ _. refl;
                },
              )
      ]
    ]

    -- In a transmission on an open connection where more than one packet is not yet acknowledged,
    -- `handleAck` succeeds for every ack. The expected ack moves the window by one; if it is also the
    -- last of the window, the window doubles if it was below the threshold, up to the largest id, and
    -- else grows by one, and the next window is sent, exactly the packets of it in their order. A later
    -- ack sets the threshold to half the window, at least 1, and the window to 1, and exactly the first
    -- missing packet is sent; an earlier one changes the estimated round trip at most. In the first
    -- three cases the transmission is under way afterwards.
    pub handle_ack_lem : c.is_open ≡ true → Answered (handle_ack env p c)
    unfolding handle_ack expected_ack
    handle_ack_lem opened =
        let (r, measured) = measure_rtt_lem env wire p c s in
        subst Answered
          (sym (
            ap (λ t. if t then (measure_rtt env p c >>= dispatch) else some c) opened
            ∙ ap (λ o. o >>= dispatch) measured))
          (answer_measured r)
      where
        dispatch : TcpConnection → Option TcpConnection
        dispatch m =
            if p.packet_id == expected_ack m
            then on_expected_ack env p m
            else if ltb (expected_ack m) p.packet_id
            then on_later_ack env m
            else some m
