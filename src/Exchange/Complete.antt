-- ===== src/Exchange/Complete.antt =====
-- How an exchange comes to its end.
use cn_project.Base.{
  ℕ, zero, suc, ◌+◌, ◌<◌, ◌≤◌, ◌≡◌, refl, ap, ◌∙◌, String, false, Option, none, some, List, [], ◌∷◌,
  ◌++◌, map, length, get_elem?, get_elem?_within, arith, inl, inr, All,
}
use cn_project.Message.{Packet}
use cn_project.Tcp.{Env, TcpConnection, take_packet, max_packet_id, ◌>>=◌}
use cn_project.Reception.{IsTransfer, ack_of}
use cn_project.Window.Finish.{IsOver}
use cn_project.Window.Session.{counted}
use cn_project.Exchange.Counting.{count_acks_le}
use cn_project.Exchange.{
  Exchange, ExchangeEvent, remove_at, packet_arrives, ack_arrives, ack_lost, performed, received,
  at_time, exchange_step, exchange,
}
use cn_project.Exchange.Arrivals.{InExchange, packet_at, ack_at}
use cn_project.Exchange.Steps.{InExchange-IsDone}

-- All acks on their way are lost.
abbrev pub lose_all : List Packet → List ExchangeEvent
lose_all ps = map (λ _. ack_lost 0) ps

-- So many packets, from the given one on, arrive in order, and after each of them an ack arrives.
abbrev pub in_order : ℕ → ℕ → ℕ → List ExchangeEvent
in_order now zero k = []
in_order now (suc m) k = packet_arrives now k ∷ ack_arrives now ∷ in_order now m (suc k)

module _ (sender_env receiver_env : Env) (host source : String) (h : Packet) (ds : List Packet)
    (t : IsTransfer source h ds) (pos : 0 < receiver_env.packet_size)
    (data_only : All (λ (p : Packet). p.is_ack ≡ false) (h ∷ ds))
    (short : length (h ∷ ds) + 1 < max_packet_id) where
  abbrev In : Exchange → Type 0
  In = InExchange sender_env receiver_env host source h ds t pos data_only short

  abbrev run : List ExchangeEvent → Exchange → Option Exchange
  run = exchange sender_env receiver_env (h ∷ ds)

  pub run-append :
      (es fs : List ExchangeEvent) (x : Exchange) → run (es ++ fs) x ≡ (run es x >>= run fs)
  unfolding exchange
  run-append [] fs x = refl
  run-append (e ∷ es) fs x =
      chained (exchange_step sender_env receiver_env (h ∷ ds) e x) (λ y. run-append es fs y)
    where
      chained :
          (o : Option Exchange)
          → ((y : Exchange) → run (es ++ fs) y ≡ (run es y >>= run fs))
          → (o >>= run (es ++ fs)) ≡ ((o >>= run es) >>= run fs)
      chained none same = refl
      chained (some y) same = same y

  lose_all_lem :
      (ps : List Packet) (x : Exchange)
      → x.acks ≡ ps
      → run (lose_all ps) x ≡ some (record x { acks = [] })
  unfolding exchange exchange_step
  lose_all_lem [] x e = ap (λ acks. some (record x { acks = acks })) e
  lose_all_lem (p ∷ ps) x e =
      lose_all_lem ps (record x { acks = remove_at 0 x.acks }) (ap (remove_at 0) e)

  arrive_step :
      (now j : ℕ) (p : Packet) (x : Exchange)
      → get_elem? (h ∷ ds) j ≡ some p
      → exchange_step sender_env receiver_env (h ∷ ds) (packet_arrives now j) x
        ≡ (take_packet (at_time now receiver_env) p x.receiver >>= λ r. some (received x r))
  unfolding exchange_step
  arrive_step now j p x at =
      ap
        (λ (o : Option Packet). elim o as (λ _. Option Exchange) [
          | none ↦ some x
          | some p ↦
              take_packet (at_time now receiver_env) p x.receiver >>= λ r. some (received x r)
        ])
        at

  ack_step :
      (now : ℕ) (p : Packet) (rest : List Packet) (x : Exchange)
      → x.acks ≡ p ∷ rest
      → exchange_step sender_env receiver_env (h ∷ ds) (ack_arrives now) x ≡ (
          take_packet (at_time now sender_env) p x.sender >>= λ c.
          some (record x { sender = performed c; acks = rest }))
  unfolding exchange_step
  ack_step now p rest x first =
      ap
        (λ (ps : List Packet). elim ps as (λ _. Option Exchange) [
          | [] ↦ some x
          | p ∷ rest ↦ take_packet (at_time now sender_env) p x.sender >>= λ c.
              some (record x { sender = performed c; acks = rest })
        ])
        first

  counted_up : (k id acked : ℕ) → id ≡ k + 1 → k ≤ acked → suc k ≤ counted id acked
  counted_up k id acked e le = ground (arith, e, le)

  -- A packet arrives when no ack is on its way, and so does its ack.
  round_lem :
      (now k : ℕ) (es : List ExchangeEvent) (x : Exchange)
      → In x
      → x.acks ≡ []
      → k < length (h ∷ ds)
      → k ≤ x.sender.sender_last_packet_acked
      → (y : Exchange) × (run (packet_arrives now k ∷ ack_arrives now ∷ es) x ≡ run es y)
        × In y
        × (y.acks ≡ [])
        × (suc k ≤ y.sender.sender_last_packet_acked)
  unfolding exchange
  round_lem now k es x g none_left lt le =
      let (p, at) = get_elem?_within (h ∷ ds) k lt in
      let (x₁, ran₁, g₁, (acks, same)) =
        packet_at sender_env receiver_env host source h ds t pos data_only short now k p x at g in
      let one : x₁.acks ≡ ack_of p ∷ [] = acks ∙ ap (λ ps. ps ++ (ack_of p ∷ [])) none_left in
      let (x₂, ran₂, g₂, (left, count)) =
        ack_at sender_env receiver_env host source h ds t pos data_only short now (ack_of p) [] x₁
          one g₁ in
      (
        x₂,
        ap (λ o. o >>= run (ack_arrives now ∷ es)) (arrive_step now k p x at ∙ ran₁)
            ∙ ap (λ o. o >>= run es) (ack_step now (ack_of p) [] x₁ one ∙ ran₂),
        g₂,
        left,
        omega (
          arith,
          count,
          counted_up k p.packet_id x₁.sender.sender_last_packet_acked (t.numbered k p at)
              (omega (arith, le, ap (λ (c : TcpConnection). c.sender_last_packet_acked) same)),
        ),
      )

  in_order_lem :
      (now m k : ℕ) (x : Exchange)
      → In x
      → x.acks ≡ []
      → k + m ≡ length (h ∷ ds)
      → k ≤ x.sender.sender_last_packet_acked
      → (y : Exchange) × (run (in_order now m k) x ≡ some y)
        × In y
        × (length (h ∷ ds) ≤ y.sender.sender_last_packet_acked)
  unfolding exchange
  in_order_lem now zero k x g none_left all le = (x, refl, g, omega (arith, all, le))
  in_order_lem now (suc m) k x g none_left all le =
      let (y, ran, g', none_then, le') =
        round_lem now k (in_order now m (suc k)) x g none_left (omega (arith, all)) le in
      let (z, later, g₂, done) =
        in_order_lem now m (suc k) y g' none_then (omega (arith, all)) le' in
      (z, ran ∙ later, g₂, done)

  lost_InExchange : (x : Exchange) → In x → In (record x { acks = [] })
  lost_InExchange x g = record {
    taken = g.taken;
    session = g.session;
    progress = g.progress;
    idle = g.idle;
    known = tt;
    right = g.right;
    caught = elim g.caught [
      | inl some_file ↦ inl some_file
      | inr le ↦ inr (omega (arith, le, count_acks_le x.acks x.sender.sender_last_packet_acked))
    ];
  }

  at_the_end :
      (y : Exchange)
      → In y
      → length (h ∷ ds) ≤ y.sender.sender_last_packet_acked
      → IsOver (h ∷ ds) y.sender × (0 < length y.written)
  at_the_end y g le =
      elim (InExchange-IsDone sender_env receiver_env host source h ds t pos data_only short y g) [
        | inl going ↦ absurd (omega (arith, going.acked_lt, going.sent_le, le))
        | inr over ↦ over
      ]

  -- Once all acks on their way are lost, and each packet and its ack arrive in order, all is done.
  pub complete_lem :
      (now : ℕ) (x : Exchange)
      → In x
      → (y : Exchange) × (run (lose_all x.acks ++ in_order now (length (h ∷ ds)) 0) x ≡ some y)
        × In y
        × IsOver (h ∷ ds) y.sender
        × (0 < length y.written)
  complete_lem now x g =
      let (y, ran, g', done) =
        in_order_lem now (length (h ∷ ds)) 0 (record x { acks = [] }) (lost_InExchange x g) refl
          (omega arith) (omega arith) in
      let (over, some_file) = at_the_end y g' done in
      (
        y,
        run-append (lose_all x.acks) (in_order now (length (h ∷ ds)) 0) x
            ∙ ap (λ o. o >>= run (in_order now (length (h ∷ ds)) 0)) (lose_all_lem x.acks x refl)
            ∙ ran,
        g',
        over,
        some_file,
      )
