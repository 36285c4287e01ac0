-- ===== src/Command/Loops.antt =====
-- The loops of main.cpp: they end, and what the dummy data is.
use cn_project.Base.{
  ℕ, zero, suc, ◌+◌, ◌%◌, ◌<◌, ◌≡◌, refl, ap, ◌∙◌, ◌⊎◌, inl, inr, String, true, some, List, [], ◌∷◌,
  arith, Bool-cases, length, get_elem?,
}
use cn_project.Network.Interface.{NetworkInterface}
use cn_project.Command.{CommandStream, CommandEnv, add_all, dummy_from}

-- A stream holds finitely many characters: after a word is read it is at its end or shorter.
pub record StreamLaws {S : Type 0} (stream : CommandStream S) : Type 0 where
  pub left : S → ℕ
  pub shorter :
      (old : String) (s : S)
      → (stream.at_end (stream.next_word old s).1 ≡ true)
        ⊎ (left (stream.next_word old s).1 < left s)

-- The words are added one after the other.
abbrev pub add_words {ℓ} : {N : Type ℓ} → (String → N → N) → List String → N → N
add_words add [] n = n
add_words add (w ∷ ws) n = add_words add ws (add w n)

module _ {S N : Type 0} (stream : CommandStream S) (laws : StreamLaws stream)
    (env : CommandEnv) where
  -- On a stream of which each word read leaves less, and with more fuel than the stream holds
  -- characters, the loop of `handleAdd` ends, having added at least one word.
  pub add_all_ends :
      (network : NetworkInterface N) (add : String → N → N) (fuel : ℕ) (addr : String) (s : S)
      (n : N)
      → laws.left s < fuel
      → (w : String) × (ws : List String) × (add_all stream network env add fuel addr s n
          ≡ some (add_words add (w ∷ ws) n))
  unfolding add_all
  add_all_ends network add zero addr s n h = absurd (omega arith)
  add_all_ends network add (suc fuel) addr s n h = elim (laws.shorter addr s) [
    | inl ended ↦ (word, [], rw ended refl)
    | inr less ↦ elim (Bool-cases (stream.at_end (stream.next_word addr s).1)) [
      | inl ended ↦ (word, [], rw ended refl)
      | inr going ↦
          let (v, vs, ran) =
            add_all_ends network add fuel word (stream.next_word addr s).1 (add word n)
              (omega arith) in
          (word, v ∷ vs, rw going ran)
    ]
  ]
    where
      word : String
      word = (stream.next_word addr s).0

-- The dummy data of `handleSend` has the size asked for, and its bytes are the digits 0 to 6 in turn.
pub dummy_from_lem :
    (size i j : ℕ)
    → (length (dummy_from size i) ≡ size)
      × (j < size → get_elem? (dummy_from size i) j ≡ some (48 + (i + j) % 7))
unfolding dummy_from
dummy_from_lem zero i j = (refl, λ h. absurd (omega arith))
dummy_from_lem (suc size) i zero = (
  ap suc (dummy_from_lem size (i + 1) zero).0,
  λ h. ap (λ (t : ℕ). some (48 + t % 7)) (omega arith),
)
dummy_from_lem (suc size) i (suc j) =
    let (same, at) = dummy_from_lem size (i + 1) j in
    (ap suc same, λ h. at (omega arith) ∙ ap (λ (t : ℕ). some (48 + t % 7)) (omega arith))
