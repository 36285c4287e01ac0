-- ===== src/Base/Dict.antt =====
-- `std::unordered_map` with text keys, as an association list. The list's order stands for the
-- unspecified order of the map's iteration.
use Prim.Native.String.{String}
use text.Mathlib.Text.{◌==◌ as str_eq}
use text.Mathlib.TextEquality.{eq_iff}
use mathlib.Core.Path.{◌≡◌, refl, ap, sym, subst, ◌∙◌}
use mathlib.Core.Logic.{◌≢◌, ◌⊎◌, inl, inr}
use mathlib.Core.Bool.{Bool, true, false}
use mathlib.Core.List.{List, [], ◌∷◌}
use mathlib.Core.Option.{Option, none, some, some-injective, none-ne-some}
use native.Mathlib.Omega.{arith}
use cn_project.Base.Lists.{All}
use cn_project.Base.Tests.{Bool-cases, if◌then◌else◌}

abbrev pub Dict {ℓ} : Type ℓ → Type ℓ
Dict V = List (String × V)

pub keys_differ : (key other : String) → (key ≡ other) ⊎ (key ≢ other)
keys_differ key other = elim (Bool-cases (str_eq key other)) [
  | inl same ↦ inl ((eq_iff key other).0 same)
  | inr differ ↦ inr (λ e. false_true (sym ((eq_iff key other).1 e) ∙ differ))
]
  where
    false_true : true ≡ false → ⊥
    false_true e = ground arith

module _ {ℓ} {V : Type ℓ} where
  unfoldable pub lookup : String → Dict V → Option V
  lookup key [] = none
  lookup key (entry ∷ rest) = if str_eq entry.0 key then some entry.1 else lookup key rest

  -- `map.contains(key)`
  unfoldable pub contains : String → Dict V → Bool
  contains key map = elim (lookup key map) [ none ↦ false | some _ ↦ true ]

  -- `map[key] = value`
  unfoldable pub insert : String → V → Dict V → Dict V
  insert key value [] = (key, value) ∷ []
  insert key value (entry ∷ rest) =
      if str_eq entry.0 key then (key, value) ∷ rest else entry ∷ insert key value rest

  -- What stands under any key after a write.
  pub lookup-insert :
      (key other : String) (value : V) (map : Dict V)
      → lookup other (insert key value map)
        ≡ (if str_eq key other then some value else lookup other map)
  unfolding lookup insert
  lookup-insert key other value [] = refl
  lookup-insert key other value (entry ∷ rest) = ground (
    arith,
    lookup-insert key other value rest,
    eq_iff entry.0 key,
    eq_iff entry.0 other,
    eq_iff key other,
  )

  pub lookup-insert_self :
      (key : String) (value : V) (map : Dict V) → lookup key (insert key value map) ≡ some value
  lookup-insert_self key value map = ground (arith, lookup-insert key key value map, eq_iff key key)

  pub lookup-insert_ne :
      (key other : String) (value : V) (map : Dict V)
      → key ≢ other
      → lookup other (insert key value map) ≡ lookup other map
  lookup-insert_ne key other value map ne =
      ground (arith, lookup-insert key other value map, eq_iff key other)

  pub contains_found :
      (key : String) (map : Dict V) (value : V)
      → lookup key map ≡ some value
      → contains key map ≡ true
  unfolding contains
  contains_found key map value found = ap test found
    where
      test : Option V → Bool
      test o = elim o [ none ↦ false | some _ ↦ true ]

  pub contains_missing :
      (key : String) (map : Dict V) → lookup key map ≡ none → contains key map ≡ false
  unfolding contains
  contains_missing key map missing = ap test missing
    where
      test : Option V → Bool
      test o = elim o [ none ↦ false | some _ ↦ true ]

-- A property of each key with its value.
module _ {ℓ κ} {V : Type ℓ} (Good : String → V → Type κ) where
  abbrev pub AllEntries : Dict V → Type κ
  AllEntries = All (λ entry. Good entry.0 entry.1)

  pub AllEntries-insert :
      (key : String) (value : V) (map : Dict V)
      → Good key value
      → AllEntries map
      → AllEntries (insert key value map)
  unfolding insert
  AllEntries-insert key value [] good all = (good, tt)
  AllEntries-insert key value (entry ∷ rest) good (first, all) =
      elim (Bool-cases (str_eq entry.0 key)) [
        | inl same ↦ rw same (good, all)
        | inr differ ↦ rw differ (first, AllEntries-insert key value rest good all)
      ]

  pub AllEntries-lookup :
      (key : String) (value : V) (map : Dict V)
      → lookup key map ≡ some value
      → AllEntries map
      → Good key value
  unfolding lookup
  AllEntries-lookup key value [] h all = absurd (none-ne-some value h)
  AllEntries-lookup key value (entry ∷ rest) h (first, all) =
      elim (Bool-cases (str_eq entry.0 key)) [
        | inl same ↦
            subst (Good key)
              (some-injective _ _ (sym (ap (pick entry.1 (lookup key rest)) same) ∙ h))
              (subst (λ k. Good k entry.1) ((eq_iff entry.0 key).0 same) first)
        | inr differ ↦
            AllEntries-lookup key value rest (sym (ap (pick entry.1 (lookup key rest)) differ) ∙ h)
              all
      ]
    where
      pick : V → Option V → Bool → Option V
      pick v o b = if b then some v else o

abbrev pub map_values {ℓ κ} : {A : Type ℓ} {B : Type κ} → (A → B) → Dict A → Dict B
map_values f [] = []
map_values f (entry ∷ rest) = (entry.0, f entry.1) ∷ map_values f rest

pub AllEntries-map_values {ℓ κ μ ν} :
    {A : Type ℓ} {B : Type κ} (P : String → A → Type μ) (R : String → B → Type ν) (f : A → B)
    (map : Dict A)
    → ((key : String) (a : A) → P key a → R key (f a))
    → AllEntries P map
    → AllEntries R (map_values f map)
AllEntries-map_values P R f [] h all = tt
AllEntries-map_values P R f (entry ∷ rest) h (first, all) =
    (h entry.0 entry.1 first, AllEntries-map_values P R f rest h all)

pub lookup-map_values {ℓ κ} :
    {A : Type ℓ} {B : Type κ} (f : A → B) (map : Dict A) (key : String) (b : B)
    → lookup key (map_values f map) ≡ some b
    → (a : A) × (lookup key map ≡ some a) × (f a ≡ b)
unfolding lookup
lookup-map_values f [] key b found = absurd (none-ne-some b found)
lookup-map_values {A = A} {B = B} f (entry ∷ rest) key b found =
    elim (Bool-cases (str_eq entry.0 key)) [
      | inl here ↦ (
        entry.1,
        ap (λ t. if t then some entry.1 else lookup key rest) here,
        some-injective (f entry.1) b (
            sym (ap (λ t. if t then some (f entry.1) else lookup key (map_values f rest)) here)
            ∙ found),
      )
      | inr there ↦
          let (a, was, same) = lookup-map_values f rest key b (
            sym (ap (λ t. if t then some (f entry.1) else lookup key (map_values f rest)) there)
            ∙ found) in
          (a, ap (λ t. if t then some entry.1 else lookup key rest) there ∙ was, same)
    ]

pub found_in_mapped {ℓ κ} :
    {A : Type ℓ} {B : Type κ} (f : A → B) (map : Dict A) (key : String) (a : A)
    → lookup key map ≡ some a
    → lookup key (map_values f map) ≡ some (f a)
unfolding lookup
found_in_mapped f [] key a found = absurd (none-ne-some a found)
found_in_mapped {A = A} f (entry ∷ rest) key a found = elim (Bool-cases (str_eq entry.0 key)) [
  | inl same ↦
      ap (λ t. if t then some (f entry.1) else lookup key (map_values f rest)) same
      ∙ ap (λ x. some (f x)) (some-injective entry.1 a (sym (ap chosen same) ∙ found))
  | inr differ ↦
      ap (λ t. if t then some (f entry.1) else lookup key (map_values f rest)) differ
      ∙ found_in_mapped f rest key a (sym (ap chosen differ) ∙ found)
]
  where
    chosen : Bool → Option A
    chosen b = if b then some entry.1 else lookup key rest
