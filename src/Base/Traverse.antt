-- ===== src/Base/Traverse.antt =====
-- A change of every value of a map that may fail, in the order of the map.
use cn_project.Base.Tests.{Bool-cases, if◌then◌else◌}
use text.Mathlib.Text.{◌==◌ as str_eq}
use cn_project.Base.Lists.{length}
use native.Mathlib.Omega.{arith}
use cn_project.Base.Dict.{Dict, map_values, lookup, AllEntries}
use mathlib.Core.Path.{◌≡◌, refl, ap, ap₂, sym, subst, ◌∙◌}
use mathlib.Core.Logic.{inl, inr}
use mathlib.Core.List.{[], ◌∷◌}
use mathlib.Core.Option.{Option, none, some, some-injective, none-ne-some}
use Prim.Native.String.{String}

abbrev pub or_else : {A : Type 0} → A → Option A → A
or_else a none = a
or_else a (some b) = b

module _ {A : Type 0} where
  abbrev add_entry : String → Option A → Option (Dict A) → Option (Dict A)
  add_entry key none rest = none
  add_entry key (some a) none = none
  add_entry key (some a) (some rest) = some ((key, a) ∷ rest)

  abbrev pub try_values : (A → Option A) → Dict A → Option (Dict A)
  try_values f [] = some []
  try_values f (entry ∷ rest) = add_entry entry.0 (f entry.1) (try_values f rest)

  add_entry_parts :
      (key : String) (o : Option A) (p : Option (Dict A)) (d : Dict A)
      → add_entry key o p ≡ some d
      → (a : A) × (rest : Dict A) × (o ≡ some a) × (p ≡ some rest) × ((key, a) ∷ rest ≡ d)
  add_entry_parts key none p d e = absurd (none-ne-some d e)
  add_entry_parts key (some a) none d e = absurd (none-ne-some d e)
  add_entry_parts key (some a) (some rest) d e = (a, rest, refl, refl, some-injective _ d e)

  -- If no change fails, it is that of all values.
  pub try_values_lem :
      (f : A → Option A) (d d' : Dict A)
      → try_values f d ≡ some d'
      → map_values (λ a. or_else a (f a)) d ≡ d'
  try_values_lem f [] d' e = some-injective _ d' e
  try_values_lem f (entry ∷ rest) d' e =
      let (a, r, one, more, same) = add_entry_parts entry.0 (f entry.1) (try_values f rest) d' e in
      ap₂ (λ x (y : Dict A). (entry.0, x) ∷ y) (ap (or_else entry.1) one)
        (try_values_lem f rest r more)
      ∙ same

  pub try_values-none :
      (f : A → Option A) (entry : String × A) (rest : Dict A)
      → f entry.1 ≡ none
      → try_values f (entry ∷ rest) ≡ none
  try_values-none f entry rest e = ap (λ o. add_entry entry.0 o (try_values f rest)) e

  -- What holds of each value that the change gives holds of all values afterwards.
  pub try_values_all :
      (P : A → Type 0) (f : A → Option A)
      → ((a b : A) → f a ≡ some b → P b)
      → (d d' : Dict A) → try_values f d ≡ some d'
      → AllEntries (λ _ a. P a) d'
  try_values_all P f each [] d' e = subst (AllEntries (λ _ a. P a)) (some-injective [] d' e) tt
  try_values_all P f each (entry ∷ rest) d' e =
      let (a, r, one, more, same) = add_entry_parts entry.0 (f entry.1) (try_values f rest) d' e in
      subst (AllEntries (λ _ a. P a)) same (each entry.1 a one, try_values_all P f each rest r more)

  -- It succeeds if it does for each value, and fails if it does for one.
  pub try_values_succeeds :
      (f : A → Option A) (d : Dict A)
      → AllEntries (λ _ a. (b : A) × (f a ≡ some b)) d
      → (d' : Dict A) × (try_values f d ≡ some d')
  try_values_succeeds f [] all = ([], refl)
  try_values_succeeds f (entry ∷ rest) ((b, one), all) =
      let (d, more) = try_values_succeeds f rest all in
      ((entry.0, b) ∷ d, ap₂ (add_entry entry.0) one more)

  add_entry-none : (key : String) (o : Option A) → add_entry key o none ≡ none
  add_entry-none key none = refl
  add_entry-none key (some a) = refl

  pub try_values_fails :
      (f : A → Option A) (key : String) (a : A) (d : Dict A)
      → lookup key d ≡ some a
      → f a ≡ none
      → try_values f d ≡ none
  unfolding lookup
  try_values_fails f key a [] found fails = absurd (none-ne-some a found)
  try_values_fails f key a (entry ∷ rest) found fails = elim (Bool-cases (str_eq entry.0 key)) [
    | inl here ↦ try_values-none f entry rest (
        ap f (
          some-injective entry.1 a
            (sym (ap (λ t. if t then some entry.1 else lookup key rest) here) ∙ found))
        ∙ fails)
    | inr there ↦
        ap (add_entry entry.0 (f entry.1)) (
          try_values_fails f key a rest
            (sym (ap (λ t. if t then some entry.1 else lookup key rest) there) ∙ found) fails)
        ∙ add_entry-none entry.0 (f entry.1)
  ]

  pub length-try_values :
      (f : A → Option A) (d d' : Dict A) → try_values f d ≡ some d' → length d ≡ length d'
  length-try_values f [] d' e = ap length (some-injective [] d' e)
  length-try_values f (entry ∷ rest) d' e =
      let (a, r, one, more, same) = add_entry_parts entry.0 (f entry.1) (try_values f rest) d' e in
      omega (arith, length-try_values f rest r more, ap length same)
