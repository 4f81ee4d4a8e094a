-- ===== src/Prelude/Sets.antt =====
-- `HashSet` as a list without repetitions, read through `contains`.
use mathlib.Core.Path.{◌≡◌, refl}
use mathlib.Core.Logic.{◌↔◌}
use mathlib.Core.Bool.{Bool, true, false, ◌||◌, ◌&&◌}
use mathlib.Core.List.{List, [], ◌∷◌}
use native.Mathlib.Omega.{arith}
use splinter.Prelude.Tests.{if◌then◌else◌, and-true}
use splinter.Prelude.Equality.{Eq, ◌==◌, eq_self}
use splinter.Prelude.Lists.{all}

module _ {ℓ} {A : Type ℓ} ⦃e : Eq A⦄ where
  -- `contains`, of a set and of a vector
  unfoldable pub contains : List A → A → Bool
  contains [] a = false
  contains (x ∷ xs) a = a == x || contains xs a

  unfoldable pub insert : A → List A → List A
  unfolding contains
  insert a xs = if contains xs a then xs else a ∷ xs

  unfoldable pub remove : A → List A → List A
  remove a [] = []
  remove a (x ∷ xs) = let rest = remove a xs in if x == a then rest else x ∷ rest

  -- `HashSet::from_iter`
  unfoldable pub from_list : List A → List A
  unfolding insert
  from_list [] = []
  from_list (x ∷ xs) = insert x (from_list xs)

  unfoldable pub is_subset : List A → List A → Bool
  unfolding all contains
  is_subset xs ys = all (contains ys) xs

  -- `==` of sets
  unfoldable pub set_eq : List A → List A → Bool
  unfolding is_subset
  set_eq xs ys = is_subset xs ys && is_subset ys xs

  pub contains-insert :
      (a b : A) (xs : List A) → contains (insert a xs) b ≡ (b == a || contains xs b)
  unfolding insert
  contains-insert a b xs = ground (arith, e.eqb_iff b a)

  pub contains-remove :
      (a b : A) (xs : List A) → contains (remove a xs) b ≡ (if b == a then false else contains xs b)
  unfolding remove contains
  contains-remove a b [] = ground arith
  contains-remove a b (x ∷ xs) =
      ground (arith, contains-remove a b xs, e.eqb_iff x a, e.eqb_iff b a, e.eqb_iff b x)

  pub contains-from_list : (xs : List A) (b : A) → contains (from_list xs) b ≡ contains xs b
  unfolding from_list contains
  contains-from_list [] b = refl
  contains-from_list (x ∷ xs) b =
      ground (arith, contains-insert x b (from_list xs), contains-from_list xs b)

  all-contains :
      (xs ys : List A)
      → all (contains ys) xs ≡ true
      → (a : A) → contains xs a ≡ true
      → contains ys a ≡ true
  unfolding all contains
  all-contains [] ys h a m = cc
  all-contains (x ∷ xs) ys h a m =
      ground (arith, e.eqb_iff a x, all-contains xs ys (and-true (contains ys x) _ h).1 a)

  contains-all :
      (xs ys : List A)
      → ((a : A) → contains xs a ≡ true → contains ys a ≡ true)
      → all (contains ys) xs ≡ true
  unfolding all contains
  contains-all [] ys h = refl
  contains-all (x ∷ xs) ys h =
      ground (arith, h x, eq_self x, contains-all xs ys (λ a m. h a (ground arith)))

  pub is_subset_iff :
      (xs ys : List A)
      → (is_subset xs ys ≡ true) ↔ ((a : A) → contains xs a ≡ true → contains ys a ≡ true)
  unfolding is_subset
  is_subset_iff xs ys = (all-contains xs ys, contains-all xs ys)

  -- Two sets are equal exactly when they have the same elements.
  pub set_eq_iff :
      (xs ys : List A)
      → (set_eq xs ys ≡ true) ↔ (
          ((a : A) → contains xs a ≡ true → contains ys a ≡ true)
          × ((a : A) → contains ys a ≡ true → contains xs a ≡ true))
  unfolding set_eq
  set_eq_iff xs ys = (
    (λ h.
        let both = and-true (is_subset xs ys) (is_subset ys xs) h in
        ((is_subset_iff xs ys).0 both.0, (is_subset_iff ys xs).0 both.1)),
    (λ h. ground (arith, (is_subset_iff xs ys).1 h.0, (is_subset_iff ys xs).1 h.1)),
  )
