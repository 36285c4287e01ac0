-- ===== src/Window/Answer.antt =====
-- One step of a sender's session: an ack of a packet of the wire, or the end of a timer.
use cn_project.Base.{
  ℕ, ◌+◌, ◌%◌, ◌<◌, ◌≤◌, ◌≡◌, ◌≢◌, refl, sym, ap, subst, ◌∙◌, Option, none, some, List, ◌∷◌, map,
  length, arith, Bool, true, false, Bool-cases, inl, inr, ltb, ltb→lt, ◌==◌, if◌then◌else◌,
  get_elem?_within, ℕ_discrete,
}
use cn_project.Message.{Packet}
use cn_project.Tcp.{
  Env, TcpConnection, max_packet_id, expected_ack, on_expected_ack, on_later_ack, handle_ack,
  measure_rtt, timeout_body, grow_window, start_slow_again, ◌>>=◌,
}
use cn_project.Window.{pointers, IsSending}
use cn_project.Window.Rtt.{measure_rtt_total}
use cn_project.Window.Ready.{moved, grown, slowed}
use cn_project.Window.Acks.{Answers, handle_ack_lem}
use cn_project.Window.Timeout.{timeout_body_idle, timeout_body_lem}
use cn_project.Window.Finish.{IsOver, handle_ack_last}
use cn_project.Window.Session.{
  InSession, counted_next, counted_other, GoesOn, remeasured, sent_on, untouched,
}

module _ (env : Env) (wire : List Packet) (short : length wire + 1 < max_packet_id) where
  abbrev pub Continued : ℕ → TcpConnection → Option TcpConnection → Type 0
  Continued id c o = (c' : TcpConnection) × (o ≡ some c') × GoesOn wire id c c'

  -- An ack below the one that is expected changes the estimate at most.
  earlier_ack :
      (p : Packet) (c : TcpConnection)
      → c.is_open ≡ true
      → pointers c.out_buffer ≡ none ∷ map some wire
      → c.last_packet_sent ≤ length wire
      → 0 < length wire
      → p.packet_id < expected_ack c
      → (r : ℕ) × (handle_ack env p c ≡ some (record c { estimated_rtt = r }))
  unfolding handle_ack expected_ack
  earlier_ack p c opened b le pos lt =
      let (r, measured) = measure_rtt_total env wire p c b le pos in
      (
        r,
        ap (λ t. if t then (measure_rtt env p c >>= dispatch) else some c) opened
            ∙ ap (λ o. o >>= dispatch) measured
            ∙ ap
                (λ t.
                  if t
                  then on_expected_ack env p (record c { estimated_rtt = r })
                  else later (record c { estimated_rtt = r }))
                differs
            ∙ ap
                (λ t.
                  if t
                  then on_later_ack env (record c { estimated_rtt = r })
                  else some (record c { estimated_rtt = r }))
                below,
      )
    where
      later : TcpConnection → Option TcpConnection
      later m = if ltb (expected_ack m) p.packet_id then on_later_ack env m else some m

      dispatch : TcpConnection → Option TcpConnection
      dispatch m = if p.packet_id == expected_ack m then on_expected_ack env p m else later m

      differs : (p.packet_id == expected_ack c) ≡ false
      differs = ground arith

      below : ltb (expected_ack c) p.packet_id ≡ false
      below = ground arith

  module _ (p : Packet) (c : TcpConnection) (s : InSession wire c)
      (known : p.packet_id ≤ length wire) where
    answered :
        c.sender_last_packet_acked + 1 < length wire
        → (c' : TcpConnection) → handle_ack env p c ≡ some c'
        → Answers env wire p c c'
        → Continued p.packet_id c (handle_ack env p c)
    unfolding grow_window start_slow_again expected_ack
    answered more c' run a = elim (ℕ_discrete p.packet_id (expected_ack c)) [
      | yes here ↦ elim (ℕ_discrete p.packet_id (c.last_packet_sent % max_packet_id)) [
        | yes full ↦ (
          c',
          run,
          sent_on wire p.packet_id c (grown (moved c)) c' s (a.window_done here full) refl refl
              (omega arith) (λ _. omega arith)
              (counted_next p.packet_id c.sender_last_packet_acked
                (omega (arith, here, short, more))),
        )
        | no part ↦
            let (sending, same) = a.in_window here part in
            (
              c',
              run,
              record {
                session = record {
                  opened = ap (λ (x : TcpConnection). x.is_open) same ∙ s.opened;
                  once = ap (λ (x : TcpConnection). x.repeat_delay) same ∙ s.once;
                  phase = inl sending;
                };
                forward =
                    omega (arith, ap (λ (x : TcpConnection). x.sender_last_packet_acked) same);
                gain =
                    λ _. omega (arith, ap (λ (x : TcpConnection). x.sender_last_packet_acked) same);
                counts =
                    ap (λ (x : TcpConnection). x.sender_last_packet_acked) same
                    ∙ counted_next p.packet_id c.sender_last_packet_acked
                        (omega (arith, here, short, more));
              },
            )
      ]
      | no other ↦ elim (Bool-cases (ltb (expected_ack c) p.packet_id)) [
        | inl late ↦ (
          c',
          run,
          sent_on wire p.packet_id c (slowed c) c' s (a.later (ltb→lt _ _ late)) refl refl
              (omega arith) (λ e. absurd (omega (arith, short, more, ltb→lt _ _ late)))
              (counted_other p.packet_id c.sender_last_packet_acked
                (λ e. absurd (omega (arith, e, short, more, ltb→lt _ _ late)))),
        )
        | inr early ↦ (
          c',
          run,
          subst (GoesOn wire p.packet_id c) (sym (a.earlier (ground arith))) (
              remeasured wire p.packet_id c c'.estimated_rtt s
                (λ e. other (omega (arith, short, more)))),
        )
      ]
    ]

    last_ack :
        (sending : IsSending wire c)
        → c.sender_last_packet_acked + 1 ≡ length wire
        → p.packet_id ≡ expected_ack c
        → Continued p.packet_id c (handle_ack env p c)
    unfolding expected_ack
    last_ack sending last here =
        let (c', run, done) = handle_ack_last env wire p c sending last s.opened here s.once in
        (
          c',
          run,
          record {
            session = record {
              opened = done.opened ∙ s.opened;
              once = done.repeating ∙ s.once;
              phase = inr done.over;
            };
            forward = omega (arith, done.over.acked, last);
            gain = λ _. omega (arith, done.over.acked, last);
            counts =
                done.over.acked
                ∙ sym last
                ∙ counted_next p.packet_id c.sender_last_packet_acked
                    (omega (arith, here, last, short));
          },
        )

    in_session_earlier :
        pointers c.out_buffer ≡ none ∷ map some wire
        → c.last_packet_sent ≤ length wire
        → 0 < length wire
        → p.packet_id < expected_ack c
        → p.packet_id ≢ c.sender_last_packet_acked + 1
        → Continued p.packet_id c (handle_ack env p c)
    in_session_earlier b le pos lt ne =
        let (r, run) = earlier_ack p c s.opened b le pos lt in
        (record c { estimated_rtt = r }, run, remeasured wire p.packet_id c r s ne)

    while_sending : IsSending wire c → Continued p.packet_id c (handle_ack env p c)
    unfolding expected_ack
    while_sending x = elim (ℕ_discrete (c.sender_last_packet_acked + 1) (length wire)) [
      | yes last ↦ elim (ℕ_discrete p.packet_id (expected_ack c)) [
        | yes here ↦ last_ack x last here
        | no other ↦
            in_session_earlier x.buffered x.sent_le (omega (arith, last))
              (omega (arith, known, other, last, short)) (λ e. other (omega (arith, last, short)))
      ]
      | no more ↦
          let (c', run, a) =
            handle_ack_lem env wire p c x (omega (arith, x.acked_lt, x.sent_le, more)) s.opened in
          answered (omega (arith, x.acked_lt, x.sent_le, more)) c' run a
    ]

    while_over : 0 < length wire → IsOver wire c → Continued p.packet_id c (handle_ack env p c)
    unfolding expected_ack
    while_over pos x =
        in_session_earlier x.buffered x.sent_le pos (omega (arith, known, x.acked, short))
          (λ e. omega (arith, known, x.acked))

    pub on_ack : 0 < length wire → Continued p.packet_id c (handle_ack env p c)
    on_ack pos = elim s.phase [ inl x ↦ while_sending x | inr x ↦ while_over pos x ]

  pub on_timer :
      (dequeued : Bool) (c : TcpConnection)
      → InSession wire c
      → Continued 0 c (timeout_body env dequeued c)
  unfolding start_slow_again
  on_timer true c s = (c, timeout_body_idle env wire true c (inl refl), untouched wire c s)
  on_timer false c s = elim s.phase [
    | inl x ↦
        let (p, at) =
          get_elem?_within wire c.sender_last_packet_acked (omega (arith, x.acked_lt, x.sent_le)) in
        let (c', run, sends, _) = timeout_body_lem env wire c p x s.opened at in
        (
          c',
          run,
          sent_on wire 0 c (slowed c) c' s sends refl refl (omega arith) (λ e. absurd (omega arith))
              (counted_other 0 c.sender_last_packet_acked (λ e. absurd (omega (arith, e)))),
        )
    | inr x ↦ (c, timeout_body_idle env wire false c (inr (inl x.stopped)), untouched wire c s)
  ]
