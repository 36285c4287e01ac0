-- ===== src/Base/Slices.antt =====
-- `take` and `drop` against `++` and one another.
use Prim.Native.Nat.{ℕ, zero, suc, ◌+◌, ◌≤◌}
use mathlib.Core.Path.{◌≡◌, refl, ap, sym}
use mathlib.Core.List.{List, [], ◌∷◌, ◌++◌}
use mathlib.Core.Option.{some}
use native.Mathlib.Omega.{arith}
use cn_project.Base.Lists.{length, take, drop, get_elem?}

module _ {ℓ} {A : Type ℓ} where
  pub take_all : (n : ℕ) (xs : List A) → length xs ≤ n → take n xs ≡ xs
  take_all zero [] h = refl
  take_all zero (x ∷ xs) h = absurd (omega arith)
  take_all (suc n) [] h = refl
  take_all (suc n) (x ∷ xs) h = ap (◌∷◌ x) (take_all n xs (omega arith))

  pub drop_all : (n : ℕ) (xs : List A) → length xs ≤ n → drop n xs ≡ []
  drop_all zero [] h = refl
  drop_all zero (x ∷ xs) h = absurd (omega arith)
  drop_all (suc n) [] h = refl
  drop_all (suc n) (x ∷ xs) h = drop_all n xs (omega arith)

  pub drop-nil : (n : ℕ) → drop {A = A} n [] ≡ []
  drop-nil zero = refl
  drop-nil (suc n) = refl

  pub take-nil : (n : ℕ) → take {A = A} n [] ≡ []
  take-nil zero = refl
  take-nil (suc n) = refl

  -- A slice of `k = m + n` elements is one of `m` followed by one of `n`.
  pub take_split :
      (m n k : ℕ) (xs : List A) → k ≡ m + n → take k xs ≡ take m xs ++ take n (drop m xs)
  take_split zero n k xs e = ap (λ (t : ℕ). take t xs) (omega arith)
  take_split (suc m) n zero xs e = absurd (omega arith)
  take_split (suc m) n (suc k) [] e = sym (take-nil n)
  take_split (suc m) n (suc k) (x ∷ xs) e = ap (◌∷◌ x) (take_split m n k xs (omega arith))

  pub drop_split : (m n k : ℕ) (xs : List A) → k ≡ m + n → drop n (drop m xs) ≡ drop k xs
  drop_split zero n k xs e = ap (λ (t : ℕ). drop t xs) (omega arith)
  drop_split (suc m) n zero xs e = absurd (omega arith)
  drop_split (suc m) n (suc k) [] e = drop-nil n
  drop_split (suc m) n (suc k) (x ∷ xs) e = drop_split m n k xs (omega arith)

  -- One element more.
  pub take-suc :
      (k : ℕ) (xs : List A) (x : A)
      → get_elem? xs k ≡ some x
      → take (suc k) xs ≡ take k xs ++ (x ∷ [])
  take-suc k [] x e = cc
  take-suc zero (y ∷ ys) x e = cc
  take-suc (suc k) (y ∷ ys) x e = ap (◌∷◌ y) (take-suc k ys x e)
