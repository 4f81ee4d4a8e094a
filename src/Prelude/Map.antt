-- ===== src/Prelude/Map.antt =====
-- `HashMap` and `BTreeMap` as association lists, read through `lookup`.
use mathlib.Core.Path.{◌≡◌, refl}
use mathlib.Core.Bool.{Bool, true, false}
use mathlib.Core.List.{List, [], ◌∷◌}
use mathlib.Core.Option.{Option, none, some}
use native.Mathlib.Omega.{arith}
use splinter.Prelude.Tests.{if◌then◌else◌}
use splinter.Prelude.Equality.{Eq, ◌==◌}

module _ {ℓ κ} {K : Type ℓ} {V : Type κ} ⦃e : Eq K⦄ where
  unfoldable pub lookup : K → List (K × V) → Option V
  lookup key [] = none
  lookup key (entry ∷ rest) = if entry.0 == key then some entry.1 else lookup key rest

  -- also over an entry of the same key
  unfoldable pub insert : K → V → List (K × V) → List (K × V)
  insert key value [] = (key, value) ∷ []
  insert key value (entry ∷ rest) =
      if entry.0 == key then (key, value) ∷ rest else entry ∷ insert key value rest

  unfoldable pub remove : K → List (K × V) → List (K × V)
  remove key [] = []
  remove key (entry ∷ rest) =
      let others = remove key rest in if entry.0 == key then others else entry ∷ others

  unfoldable pub contains_key : K → List (K × V) → Bool
  unfolding lookup
  contains_key key entries = elim (lookup key entries) [ none ↦ false | some _ ↦ true ]

  pub lookup-insert :
      (key other : K) (value : V) (entries : List (K × V))
      → lookup other (insert key value entries)
        ≡ (if key == other then some value else lookup other entries)
  unfolding lookup insert
  lookup-insert key other value [] = refl
  lookup-insert key other value (entry ∷ rest) = ground (
    arith,
    lookup-insert key other value rest,
    e.eqb_iff entry.0 key,
    e.eqb_iff entry.0 other,
    e.eqb_iff key other,
  )

  pub lookup-remove :
      (key other : K) (entries : List (K × V))
      → lookup other (remove key entries) ≡ (if key == other then none else lookup other entries)
  unfolding lookup remove
  lookup-remove key other [] = ground arith
  lookup-remove key other (entry ∷ rest) = ground (
    arith,
    lookup-remove key other rest,
    e.eqb_iff entry.0 key,
    e.eqb_iff entry.0 other,
    e.eqb_iff key other,
  )
