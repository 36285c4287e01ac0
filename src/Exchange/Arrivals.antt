-- ===== src/Exchange/Arrivals.antt =====
-- An arrival at either end of an exchange.
use cn_project.Base.{
  ℕ, zero, suc, ◌+◌, ◌<◌, ◌≤◌, ◌≡◌, ◌⊎◌, refl, sym, ap, subst, ◌∙◌, String, true, false, Option,
  some, List, [], ◌∷◌, ◌++◌, length, length-append, get_elem?, get_elem?_bound, arith, Bool-cases,
  inl, inr, All, All-append, All-get_elem?, ◌==◌,
}
use cn_project.Message.{Packet}
use cn_project.Tcp.{
  Env, TcpConnection, Effect, write_file, take_packet, handle_data, handle_ack, bodies,
  max_packet_id, ◌>>=◌,
}
use cn_project.Reception.{IsTransfer, advance, reaction, ack_of}
use cn_project.Reception.Progress.{Progress}
use cn_project.Reception.Arrival.{arrive}
use cn_project.Reception.Files.{files, sent, reaction-files, reaction-sent}
use cn_project.Window.Session.{InSession, counted}
use cn_project.Window.Answer.{on_ack}
use cn_project.Exchange.{Exchange, remove_at, performed, received, at_time, count_acks}
use cn_project.Exchange.Counting.{counted_mono, count_acks-append}

pub All-remove_at :
    {A : Type 0} (P : A → Type 0) (i : ℕ) (xs : List A) → All P xs → All P (remove_at i xs)
All-remove_at P i [] all = tt
All-remove_at P zero (x ∷ xs) (first, all) = all
All-remove_at P (suc i) (x ∷ xs) (first, all) = (first, All-remove_at P i xs all)

module _ (wire : List Packet) where
  abbrev pub IsAckOf : Packet → Type 0
  IsAckOf p = (p.is_ack ≡ true) × (p.packet_id ≤ length wire)

  -- The effects of a connection do not matter to its session.
  pub performed-InSession : (c : TcpConnection) → InSession wire c → InSession wire (performed c)
  performed-InSession c s = record {
    opened = s.opened;
    once = s.once;
    phase = elim s.phase [
      | inl x ↦ inl (record {
        buffered = x.buffered;
        acked_lt = x.acked_lt;
        sent_le = x.sent_le;
        window_pos = x.window_pos;
        window_le = x.window_le;
        threshold_pos = x.threshold_pos;
        small = x.small;
        allowed = x.allowed;
        timed = x.timed;
      })
      | inr x ↦ inr (record {
        buffered = x.buffered;
        acked = x.acked;
        sent_le = x.sent_le;
        stopped = x.stopped;
        no_timer = x.no_timer;
      })
    ];
  }

module _ (sender_env receiver_env : Env) (host source : String) (h : Packet) (ds : List Packet)
    (t : IsTransfer source h ds) (pos : 0 < receiver_env.packet_size)
    (data_only : All (λ (p : Packet). p.is_ack ≡ false) (h ∷ ds))
    (short : length (h ∷ ds) + 1 < max_packet_id) where
  -- The sender is in a session with the packets, the receiver has taken so many of them in order,
  -- each file written is right, and no ack counts for a packet that the receiver has not taken
  -- unless it has written a file.
  pub record InExchange (x : Exchange) : Type 0 where
    pub taken : ℕ
    pub session : InSession (h ∷ ds) x.sender
    pub progress : Progress host source h ds taken x.receiver
    pub idle : x.receiver.effects ≡ []
    pub known : All (IsAckOf (h ∷ ds)) x.acks
    pub right : All (λ f. f ≡ bodies ds) x.written
    pub caught :
        (0 < length x.written) ⊎ (count_acks x.sender.sender_last_packet_acked x.acks ≤ taken)

  abbrev pub Goes : Option Exchange → Type 0
  Goes o = (x' : Exchange) × (o ≡ some x') × InExchange x'

  abbrev pub GoesBy : Option Exchange → (Exchange → Type 0) → Type 0
  GoesBy o And = (x' : Exchange) × (o ≡ some x') × InExchange x' × And x'

  n : ℕ
  n = suc (length ds)

  file : List Effect
  file = write_file host source (bodies ds) ∷ []

  -- A file is written, or the receiver has counted what its ack makes the sender count.
  written_or_counted :
      (k j : ℕ) (p : Packet)
      → (0 < length (files (reaction file n k j p))) ⊎ (counted (j + 1) k ≡ advance n k j)
  unfolding files file n
  written_or_counted k j p = elim (Bool-cases (j == k)) [
    | inl hit ↦ elim (Bool-cases (suc k == suc (length ds))) [
      | inl last ↦ inl (rw (hit, last) (omega arith))
      | inr more ↦ inr (rw (hit, more) (ground (arith, hit)))
    ]
    | inr miss ↦ inr (rw miss (ground (arith, miss)))
  ]

  -- The ack of a packet counts at most if the receiver has counted the packet.
  ack_joins :
      (k j acked : ℕ) (p : Packet) (acks : List Packet)
      → p.packet_id ≡ j + 1
      → count_acks acked acks ≤ k
      → counted (j + 1) k ≡ advance n k j
      → count_acks acked (acks ++ (ack_of p ∷ [])) ≤ advance n k j
  unfolding n
  ack_joins k j acked p acks id le same =
      rw (count_acks-append acks (ack_of p ∷ []) acked, id)
        (subst (λ m. counted (j + 1) (count_acks acked acks) ≤ m) same
          (counted_mono (j + 1) (count_acks acked acks) k le))

  taken_data :
      (now : ℕ) (p : Packet) (c : TcpConnection)
      → p.is_ack ≡ false
      → take_packet (at_time now receiver_env) p c ≡ handle_data (at_time now receiver_env) p c
  unfolding take_packet
  taken_data now p c plain = rw plain refl

  taken_ack :
      (now : ℕ) (p : Packet) (c : TcpConnection)
      → p.is_ack ≡ true
      → take_packet (at_time now sender_env) p c ≡ handle_ack (at_time now sender_env) p c
  unfolding take_packet
  taken_ack now p c ack = rw ack refl

  pub cleared-Progress :
      (k : ℕ) (c : TcpConnection)
      → Progress host source h ds k c
      → Progress host source h ds k (performed c)
  cleared-Progress k c a = record {
    in_range = a.in_range;
    in_host = a.in_host;
    taken = a.taken;
    counted = a.counted;
    acked = a.acked;
    announced = a.announced;
    sender = a.sender;
  }

  -- The packet at a position arrives.
  pub packet_at :
      (now j : ℕ) (p : Packet) (x : Exchange)
      → get_elem? (h ∷ ds) j ≡ some p
      → InExchange x
      → GoesBy
          (take_packet (at_time now receiver_env) p x.receiver >>= λ r. some (received x r))
          (λ x'. (x'.acks ≡ x.acks ++ (ack_of p ∷ [])) × (x'.sender ≡ x.sender))
  unfolding file n
  packet_at now j p x at g =
      let a =
        arrive (at_time now receiver_env) host source h ds t pos g.taken j p x.receiver g.progress
          at in
      let out : a.after.effects ≡ reaction file n g.taken j p =
        a.effects ∙ ap (λ es. es ++ reaction file n g.taken j p) g.idle in
      let acks : sent a.after.effects ≡ ack_of p ∷ [] =
        ap sent out ∙ reaction-sent host source (bodies ds) (h ∷ ds) g.taken j p in
      let plain = All-get_elem? (λ (p : Packet). p.is_ack ≡ false) (h ∷ ds) j p at data_only in
      let id = t.numbered j p at in
      (
        received x a.after,
        ap (λ o. o >>= λ r. some (received x r)) (taken_data now p x.receiver plain ∙ a.handled),
        record {
          taken = advance n g.taken j;
          session = g.session;
          progress = cleared-Progress (advance n g.taken j) a.after a.progress;
          idle = refl;
          known = All-append (IsAckOf (h ∷ ds)) x.acks (sent a.after.effects) g.known (
              subst (All (IsAckOf (h ∷ ds))) (sym acks)
                ((refl, omega (arith, id, get_elem?_bound (h ∷ ds) j p at)), tt));
          right =
              All-append (λ f. f ≡ bodies ds) x.written (files a.after.effects) g.right
                (subst (λ es. All (λ f. f ≡ bodies ds) (files es)) (sym out)
                  (reaction-files host source (bodies ds) (h ∷ ds) g.taken j p));
          caught = elim g.caught [
            | inl some_file ↦
                inl (omega (arith, some_file, length-append x.written (files a.after.effects)))
            | inr le ↦ elim (written_or_counted g.taken j p) [
              | inl now_written ↦ inl (
                  omega (
                    arith,
                    now_written,
                    ap (λ es. length (files es)) out,
                    length-append x.written (files a.after.effects),
                  ))
              | inr same ↦ inr (
                  subst
                    (λ news.
                      count_acks x.sender.sender_last_packet_acked (x.acks ++ news)
                      ≤ advance n g.taken j)
                    (sym acks)
                    (ack_joins g.taken j x.sender.sender_last_packet_acked p x.acks id le same))
            ]
          ];
        },
        (ap (λ news. x.acks ++ news) acks, refl),
      )

  -- The first ack arrives.
  pub ack_at :
      (now : ℕ) (p : Packet) (rest : List Packet) (x : Exchange)
      → x.acks ≡ p ∷ rest
      → InExchange x
      → GoesBy
          (take_packet (at_time now sender_env) p x.sender >>= λ c.
            some (record x { sender = performed c; acks = rest }))
          (λ x'.
            (x'.acks ≡ rest)
            × (x'.sender.sender_last_packet_acked
                ≡ counted p.packet_id x.sender.sender_last_packet_acked))
  ack_at now p rest x first g =
      let ((is_ack, known), others) : All (IsAckOf (h ∷ ds)) (p ∷ rest) =
        subst (All (IsAckOf (h ∷ ds))) first g.known in
      let (c, ran, goes) =
        on_ack (at_time now sender_env) (h ∷ ds) short p x.sender g.session known (omega arith) in
      (
        record x { sender = performed c; acks = rest },
        ap (λ o. o >>= λ c. some (record x { sender = performed c; acks = rest }))
            (taken_ack now p x.sender is_ack ∙ ran),
        record {
          taken = g.taken;
          session = performed-InSession (h ∷ ds) c goes.session;
          progress = g.progress;
          idle = g.idle;
          known = others;
          right = g.right;
          caught = elim g.caught [
            | inl some_file ↦ inl some_file
            | inr le ↦ inr (
                subst (λ a. count_acks a rest ≤ g.taken) (sym goes.counts)
                  (subst (λ ps. count_acks x.sender.sender_last_packet_acked ps ≤ g.taken) first
                    le))
          ];
        },
        (refl, goes.counts),
      )
