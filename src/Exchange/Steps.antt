-- ===== src/Exchange/Steps.antt =====
-- What holds of an exchange after every event.
use cn_project.Base.{
  ℕ, ◌+◌, ◌<◌, ◌≤◌, ◌≡◌, ◌⊎◌, refl, sym, ap, subst, ◌∙◌, String, Bool, false, Option, none, some,
  List, [], ◌∷◌, length, get_elem?, arith, inl, inr, All,
}
use cn_project.Message.{Packet}
use cn_project.Tcp.{Env, take_packet, timeout_body, max_packet_id, ◌>>=◌}
use cn_project.Reception.{IsTransfer}
use cn_project.Window.{IsSending}
use cn_project.Window.Finish.{IsOver}
use cn_project.Window.Session.{counted_other}
use cn_project.Window.Answer.{on_timer}
use cn_project.Exchange.{
  Exchange, ExchangeEvent, packet_arrives, ack_arrives, ack_lost, timer_ends, remove_at, performed,
  received, at_time, exchange_step, exchange, count_acks,
}
use cn_project.Exchange.Arrivals.{
  IsAckOf, InExchange, Goes, performed-InSession, All-remove_at, packet_at, ack_at,
}
use cn_project.Exchange.Counting.{count_acks_le, count_acks-remove_at}

module _ (sender_env receiver_env : Env) (host source : String) (h : Packet) (ds : List Packet)
    (t : IsTransfer source h ds) (pos : 0 < receiver_env.packet_size)
    (data_only : All (λ (p : Packet). p.is_ack ≡ false) (h ∷ ds))
    (short : length (h ∷ ds) + 1 < max_packet_id) where
  abbrev In : Exchange → Type 0
  In = InExchange sender_env receiver_env host source h ds t pos data_only short

  abbrev GoesOn : Option Exchange → Type 0
  GoesOn = Goes sender_env receiver_env host source h ds t pos data_only short

  lost_at : (i : ℕ) (x : Exchange) → In x → In (record x { acks = remove_at i x.acks })
  lost_at i x g = record {
    taken = g.taken;
    session = g.session;
    progress = g.progress;
    idle = g.idle;
    known = All-remove_at (IsAckOf (h ∷ ds)) i x.acks g.known;
    right = g.right;
    caught = elim g.caught [
      | inl some_file ↦ inl some_file
      | inr le ↦
          inr (omega (arith, le, count_acks-remove_at i x.acks x.sender.sender_last_packet_acked))
    ];
  }

  timer_at :
      (now : ℕ) (dequeued : Bool) (x : Exchange)
      → In x
      → GoesOn (
          timeout_body (at_time now sender_env) dequeued x.sender >>= λ c.
          some (record x { sender = performed c }))
  timer_at now dequeued x g =
      let (c, ran, goes) =
        on_timer (at_time now sender_env) (h ∷ ds) short dequeued x.sender g.session in
      (
        record x { sender = performed c },
        ap (λ o. o >>= λ c. some (record x { sender = performed c })) ran,
        record {
          taken = g.taken;
          session = performed-InSession (h ∷ ds) c goes.session;
          progress = g.progress;
          idle = g.idle;
          known = g.known;
          right = g.right;
          caught = elim g.caught [
            | inl some_file ↦ inl some_file
            | inr le ↦ inr (
                subst (λ a. count_acks a x.acks ≤ g.taken)
                  (sym (
                    goes.counts
                    ∙ sym (
                        counted_other 0 x.sender.sender_last_packet_acked
                          (λ e. absurd (omega (arith, e))))))
                  le)
          ];
        },
      )

  pub exchange_step-InExchange :
      (e : ExchangeEvent) (x : Exchange)
      → In x
      → GoesOn (exchange_step sender_env receiver_env (h ∷ ds) e x)
  unfolding exchange_step
  exchange_step-InExchange (packet_arrives now j) x g = arrived (get_elem? (h ∷ ds) j) refl
    where
      arrived :
          (o : Option Packet)
          → get_elem? (h ∷ ds) j ≡ o
          → GoesOn (elim o as (λ _. Option Exchange) [
            | none ↦ some x
            | some p ↦
                take_packet (at_time now receiver_env) p x.receiver >>= λ r. some (received x r)
          ])
      arrived none at = (x, refl, g)
      arrived (some p) at =
          let (x', ran, g', _) =
            packet_at sender_env receiver_env host source h ds t pos data_only short now j p x at
              g in
          (x', ran, g')
  exchange_step-InExchange (ack_arrives now) x g = arrived x.acks refl
    where
      arrived :
          (ps : List Packet)
          → x.acks ≡ ps
          → GoesOn (elim ps as (λ _. Option Exchange) [
            | [] ↦ some x
            | p ∷ rest ↦ take_packet (at_time now sender_env) p x.sender >>= λ c.
                some (record x { sender = performed c; acks = rest })
          ])
      arrived [] first = (x, refl, g)
      arrived (p ∷ rest) first =
          let (x', ran, g', _) =
            ack_at sender_env receiver_env host source h ds t pos data_only short now p rest x first
              g in
          (x', ran, g')
  exchange_step-InExchange (ack_lost i) x g =
      (record x { acks = remove_at i x.acks }, refl, lost_at i x g)
  exchange_step-InExchange (timer_ends now dequeued) x g = timer_at now dequeued x g

  pub exchange-InExchange :
      (es : List ExchangeEvent) (x : Exchange)
      → In x
      → GoesOn (exchange sender_env receiver_env (h ∷ ds) es x)
  unfolding exchange
  exchange-InExchange [] x g = (x, refl, g)
  exchange-InExchange (e ∷ es) x g =
      let (y, ran, g') = exchange_step-InExchange e x g in
      let (z, ran', g₂) = exchange-InExchange es y g' in
      (z, ap (λ o. o >>= exchange sender_env receiver_env (h ∷ ds) es) ran ∙ ran', g₂)

  -- If the sender is done, the file is written.
  abbrev pub IsDone : Exchange → Type 0
  IsDone x = IsSending (h ∷ ds) x.sender ⊎ (IsOver (h ∷ ds) x.sender × (0 < length x.written))

  pub InExchange-IsDone : (x : Exchange) → In x → IsDone x
  InExchange-IsDone x g = elim g.session.phase [
    | inl going ↦ inl going
    | inr over ↦ inr (
      over,
      elim g.caught [
        | inl some_file ↦ some_file
        | inr le ↦ absurd (
            omega (
              arith,
              le,
              over.acked,
              g.progress.in_range,
              count_acks_le x.acks x.sender.sender_last_packet_acked,
            ))
      ],
    )
  ]
