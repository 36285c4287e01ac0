-- ===== src/Window/Buffer.antt =====
-- The out buffer by its packets: a write of the flags keeps them.
use cn_project.Base.{
  ℕ, zero, suc, ◌<◌, ◌≡◌, refl, ap, ◌∙◌, none, some, List, [], ◌∷◌, map, length, length-map, drop,
  set, get_elem?, get_elem?_within, arith,
}
use cn_project.Message.{Packet}
use cn_project.Tcp.{OutBufferElement}
use cn_project.Window.{pointers}

module _ {ℓ κ} {A : Type ℓ} {B : Type κ} (f : A → B) where
  -- What stands at a place of `map f xs` comes from that place of `xs`.
  pub get_elem?-map :
      (xs : List A) (i : ℕ) (b : B)
      → get_elem? (map f xs) i ≡ some b
      → (a : A) × (get_elem? xs i ≡ some a) × (f a ≡ b)
  get_elem?-map [] i b e = cc
  get_elem?-map (x ∷ xs) zero b e = (x, refl, cc)
  get_elem?-map (x ∷ xs) (suc i) b e = get_elem?-map xs i b e

  pub map-set :
      (xs : List A) (i : ℕ) (a v : A)
      → get_elem? xs i ≡ some a
      → f v ≡ f a
      → map f (set xs i v) ≡ map f xs
  map-set [] i a v e same = refl
  map-set (x ∷ xs) zero a v e same =
      ap (λ b. b ∷ map f xs) (same ∙ ap f (let back : a ≡ x = cc in back))
  map-set (x ∷ xs) (suc i) a v e same = ap (◌∷◌ (f x)) (map-set xs i a v e same)

pub drop-get_elem? {ℓ} :
    {A : Type ℓ} (xs : List A) (i : ℕ) (x : A)
    → get_elem? xs i ≡ some x
    → drop i xs ≡ x ∷ drop (suc i) xs
drop-get_elem? [] i x e = cc
drop-get_elem? (y ∷ ys) zero x e = ap (λ a. a ∷ ys) (let back : y ≡ x = cc in back)
drop-get_elem? (y ∷ ys) (suc i) x e = drop-get_elem? ys i x e

pub map-get_elem? {ℓ κ} :
    {A : Type ℓ} {B : Type κ} (f : A → B) (xs : List A) (i : ℕ) (x : A)
    → get_elem? xs i ≡ some x
    → get_elem? (map f xs) i ≡ some (f x)
map-get_elem? f [] i x e = cc
map-get_elem? f (y ∷ ys) zero x e = ap (λ a. some (f a)) (let back : y ≡ x = cc in back)
map-get_elem? f (y ∷ ys) (suc i) x e = map-get_elem? f ys i x e

module _ (buffer : List OutBufferElement) (wire : List Packet)
    (b : pointers buffer ≡ none ∷ map some wire) where
  pub length-buffer : length buffer ≡ suc (length wire)
  length-buffer = omega (
    arith,
    ap length b,
    length-map (λ (e : OutBufferElement). e.packet) buffer,
    length-map (λ (p : Packet). some p) wire,
  )

  -- The element for packet `k` of the wire stands at index `k + 1`.
  pub element_at :
      (k : ℕ)
      → k < length wire
      → (e : OutBufferElement) × (p : Packet) × (get_elem? buffer (suc k) ≡ some e)
        × (e.packet ≡ some p)
        × (get_elem? wire k ≡ some p)
  element_at k lt =
      let (p, at) = get_elem?_within wire k lt in
      let (e, found, same) =
        get_elem?-map (λ e. e.packet) buffer (suc k) (some p)
          (ap (λ ps. get_elem? ps (suc k)) b ∙ map-get_elem? some wire k p at) in
      (e, p, found, same, at)
