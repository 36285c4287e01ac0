-- ===== src/Reception/Files.antt =====
-- The files among the effects of a receiver: what they hold, how many there are, and when one is
-- sure to be written.
use cn_project.Base.{
  ℕ, zero, suc, ◌+◌, ◌<◌, ◌≡◌, refl, sym, ap, String, none, some, List, [], ◌∷◌, ◌++◌, length, map,
  subst, length-append, ℕ_discrete, ◌≢◌, get_elem?, get_elem?_within, arith, Option-cases, inl, inr,
  All, All-append,
}
use cn_project.Message.{Packet}
use cn_project.Tcp.{Effect, send, write_file, sleep}
use cn_project.Reception.{advance, reactions, reaction, ack_of, arrivals}

-- The contents of the files that are written.
unfoldable pub files : List Effect → List (List ℕ)
files [] = []
files (write_file host source bytes ∷ es) = bytes ∷ files es
files (send p ∷ es) = files es
files (sleep n ∷ es) = files es

-- The packets that are sent.
unfoldable pub sent : List Effect → List Packet
sent [] = []
sent (send p ∷ es) = p ∷ sent es
sent (write_file host source bytes ∷ es) = sent es
sent (sleep n ∷ es) = sent es

pub files-append : (xs ys : List Effect) → files (xs ++ ys) ≡ files xs ++ files ys
unfolding files
files-append [] ys = refl
files-append (write_file host source bytes ∷ xs) ys = ap (◌∷◌ bytes) (files-append xs ys)
files-append (send p ∷ xs) ys = files-append xs ys
files-append (sleep n ∷ xs) ys = files-append xs ys

pub sent-append : (xs ys : List Effect) → sent (xs ++ ys) ≡ sent xs ++ sent ys
unfolding sent
sent-append [] ys = refl
sent-append (write_file host source bytes ∷ xs) ys = sent-append xs ys
sent-append (send p ∷ xs) ys = ap (◌∷◌ p) (sent-append xs ys)
sent-append (sleep n ∷ xs) ys = sent-append xs ys

-- `js` holds the positions `xs` in this order, among others.
pub data Holds : List ℕ → List ℕ → Type 0 where
  done : (js : List ℕ) → Holds [] js
  skip : {xs js : List ℕ} (j : ℕ) → Holds xs js → Holds xs (j ∷ js)
  meet : {xs js : List ℕ} (j : ℕ) → Holds xs js → Holds (j ∷ xs) (j ∷ js)

Holds-tail : {x : ℕ} {xs js : List ℕ} → Holds (x ∷ xs) js → Holds xs js
Holds-tail (skip j r) = skip j (Holds-tail r)
Holds-tail (meet j r) = skip j r

-- `k`, `k + 1`, … , `m` numbers.
abbrev pub count_up : ℕ → ℕ → List ℕ
count_up zero k = []
count_up (suc m) k = k ∷ count_up m (suc k)

module _ (host source : String) (bytes : List ℕ) (wire : List Packet) where
  abbrev file : List Effect
  file = write_file host source bytes ∷ []

  abbrev n : ℕ
  n = length wire

  pub reaction-files : (k j : ℕ) (p : Packet) → All (λ f. f ≡ bytes) (files (reaction file n k j p))
  unfolding files
  reaction-files k j p = ground arith

  reactions-cons_none :
      (k j : ℕ) (js : List ℕ)
      → get_elem? wire j ≡ none
      → reactions file wire k (j ∷ js) ≡ reactions file wire k js
  unfolding reactions
  reactions-cons_none k j js e = rw (e, reactions)

  reactions-cons_some :
      (k j : ℕ) (js : List ℕ) (p : Packet)
      → get_elem? wire j ≡ some p
      → reactions file wire k (j ∷ js)
        ≡ reaction file n k j p ++ reactions file wire (advance n k j) js
  unfolding reactions
  reactions-cons_some k j js p e = rw (e, reactions)

  -- Every file that is written holds these bytes.
  pub files-reactions :
      (k : ℕ) (js : List ℕ) → All (λ f. f ≡ bytes) (files (reactions file wire k js))
  unfolding reactions files
  files-reactions k [] = tt
  files-reactions k (j ∷ js) = elim (Option-cases (get_elem? wire j)) [
    | inl e ↦ rw (reactions-cons_none k j js e) (files-reactions k js)
    | inr (p, e) ↦
        rw (reactions-cons_some k j js p e, files-append)
          (All-append (λ f. f ≡ bytes) _ _ (reaction-files k j p)
            (files-reactions (advance n k j) js))
  ]

  pub reaction-sent : (k j : ℕ) (p : Packet) → sent (reaction file n k j p) ≡ ack_of p ∷ []
  unfolding sent
  reaction-sent k j p = ground arith

  -- Every packet that arrives is acknowledged, in the order of the arrivals.
  pub sent-reactions :
      (k : ℕ) (js : List ℕ) → sent (reactions file wire k js) ≡ map ack_of (arrivals wire js)
  unfolding arrivals reactions sent
  sent-reactions k [] = refl
  sent-reactions k (j ∷ js) = elim (Option-cases (get_elem? wire j)) [
    | inl e ↦ rw (reactions-cons_none k j js e, e, arrivals) (sent-reactions k js)
    | inr (p, e) ↦
        rw (reactions-cons_some k j js p e, sent-append, reaction-sent k j p, e, arrivals)
          (ap (◌∷◌ (ack_of p)) (sent-reactions (advance n k j) js))
  ]

  Holds-drop : {x j : ℕ} {xs js : List ℕ} → Holds (x ∷ xs) (j ∷ js) → Holds xs js
  Holds-drop (skip j r) = Holds-tail r
  Holds-drop (meet j r) = r

  Holds-skip : {x j : ℕ} {xs js : List ℕ} → Holds (x ∷ xs) (j ∷ js) → j ≢ x → Holds (x ∷ xs) js
  Holds-skip (skip j r) ne = r
  Holds-skip (meet j r) ne = absurd (ne refl)

  -- The packet in line completes the file, or moves the counter on.
  complete_at :
      (k : ℕ) (js : List ℕ)
      → k < n
      → ((suc k < n) → 0 < length (files (reactions file wire (suc k) js)))
      → 0 < length (files (reactions file wire k (k ∷ js)))
  unfolding files
  complete_at k js lt rest =
      let (p, e) = get_elem?_within wire k lt in
      rw (reactions-cons_some k k js p e, files-append)
        (ground (
          arith,
          length-append (files (reaction file n k k p))
              (files (reactions file wire (advance n k k) js)),
        ))

  passed_at :
      (k j : ℕ) (js : List ℕ)
      → j ≢ k
      → 0 < length (files (reactions file wire k js))
      → 0 < length (files (reactions file wire k (j ∷ js)))
  passed_at k j js ne rest = elim (Option-cases (get_elem? wire j)) [
    | inl e ↦ rw (reactions-cons_none k j js e) rest
    | inr (p, e) ↦
        rw (reactions-cons_some k j js p e, files-append)
          (ground (
            arith,
            length-append (files (reaction file n k j p)) (files (reactions file wire k js)),
          ))
  ]

  -- A file is written if the packets that are missing arrive in order, whatever comes between.
  pub files_complete :
      (m k : ℕ) (js : List ℕ)
      → k + m ≡ n
      → 0 < m
      → Holds (count_up m k) js
      → 0 < length (files (reactions file wire k js))
  files_complete zero k js e pos r = elim pos [ ]
  files_complete (suc m) k [] e pos r = elim r [ ]
  files_complete (suc m) k (j ∷ js) e pos r = elim (ℕ_discrete j k) [
    | yes here ↦
        subst (λ i. 0 < length (files (reactions file wire k (i ∷ js)))) (sym here)
          (complete_at k js (omega arith)
            (λ lt. files_complete m (suc k) js (omega arith) (omega arith) (Holds-drop r)))
    | no other ↦ passed_at k j js other (files_complete (suc m) k js e pos (Holds-skip r other))
  ]
