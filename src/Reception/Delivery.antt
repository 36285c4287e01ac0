-- ===== src/Reception/Delivery.antt =====
-- What a receiver does over a whole sequence of arrivals.
use cn_project.Base.{
  ℕ, suc, ◌<◌, ◌≡◌, refl, sym, ap, ◌∙◌, String, none, some, List, [], ◌∷◌, ◌++◌, append_assoc,
  append-nil, length, get_elem?, get_elem?_within, arith, Option-cases, inl, inr,
}
use cn_project.Message.{Packet}
use cn_project.Tcp.{Env, TcpConnection, Effect, write_file, bodies}
use cn_project.Reception.{IsTransfer, advance, arrivals, handle_all, reactions, reaction}
use cn_project.Reception.Progress.{Progress, Arrived}
use cn_project.Reception.Arrival.{arrive}

-- The number of packets taken in order after a sequence of arrivals.
abbrev pub advance_all : ℕ → ℕ → List ℕ → ℕ
advance_all n k [] = k
advance_all n k (j ∷ js) = advance_all n (advance n k j) js

-- The positions are those of packets.
abbrev pub AllBelow : ℕ → List ℕ → Type 0
AllBelow n [] = Unit {0}
AllBelow n (j ∷ js) = (j < n) × AllBelow n js

module _ (env : Env) (host source : String) (h : Packet) (ds : List Packet)
    (t : IsTransfer source h ds) (pos : 0 < env.packet_size) where
  abbrev file : List Effect
  file = write_file host source (bodies ds) ∷ []

  abbrev pub Delivered : ℕ → List ℕ → TcpConnection → Type 0
  Delivered k js c =
      (c' : TcpConnection) × (handle_all env (arrivals (h ∷ ds) js) c ≡ some c')
      × Progress host source h ds (advance_all (suc (length ds)) k js) c'
      × (c'.effects ≡ c.effects ++ reactions file (h ∷ ds) k js)

  -- A position behind the last packet is none that a receiver waits for.
  advance_out :
      (k j : ℕ)
      → k < suc (length ds)
      → get_elem? (h ∷ ds) j ≡ none
      → advance (suc (length ds)) k j ≡ k
  advance_out k j lt e = ground (arith, get_elem?_within (h ∷ ds) k lt)

  -- An arrival, followed by the rest.
  Delivered-cons :
      (k j : ℕ) (js : List ℕ) (p : Packet) (c : TcpConnection)
      → get_elem? (h ∷ ds) j ≡ some p
      → (s : Arrived env host source h ds t pos p
          (advance (suc (length ds)) k j)
          (reaction file (suc (length ds)) k j p)
          c)
      → Delivered (advance (suc (length ds)) k j) js s.after
      → Delivered k (j ∷ js) c
  unfolding arrivals handle_all reactions
  Delivered-cons k j js p c e s (c', run, progress, effects) = (
    c',
    rw (e, arrivals, s.handled, handle_all) run,
    progress,
    rw (e, reactions) (effects ∙ ap (λ es. es ++ later) s.effects ∙ append_assoc c.effects _ _),
  )
    where
      later : List Effect
      later = reactions file (h ∷ ds) (advance (suc (length ds)) k j) js

  -- However the packets of a transfer arrive, a receiver that has taken `k` of them in order
  -- acknowledges each arrival, takes those that come in line, and writes the file with the bodies of
  -- all data packets each time that the last one is taken; nothing else is ever written.
  pub deliver :
      (k : ℕ) (js : List ℕ) (c : TcpConnection) → Progress host source h ds k c → Delivered k js c
  unfolding arrivals handle_all reactions
  deliver k [] c a = (c, refl, a, sym (append-nil c.effects))
  deliver k (j ∷ js) c a = elim (Option-cases (get_elem? (h ∷ ds) j)) [
    | inl e ↦ rw (e, arrivals, reactions, advance_out k j a.in_range e) (deliver k js c a)
    | inr (p, e) ↦
        let s = arrive env host source h ds t pos k j p c a e in
        Delivered-cons k j js p c e s
          (deliver (advance (suc (length ds)) k j) js s.after s.progress)
  ]
