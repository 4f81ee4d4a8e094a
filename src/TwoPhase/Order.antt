-- ===== src/TwoPhase/Order.antt =====
-- The order of peer ids (`impl Ord for PeerId` of libsplinter/src/consensus/mod.rs compares the
-- bytes as slices do), and `iter().min()`.
use splinter.Prelude.{
  ◌≡◌, refl, inl, inr, Bool, true, false, ◌||◌, ◌&&◌, Option, none, some, List, [], ◌∷◌, arith, ltb,
  nat_beq, if◌then◌else◌, Bytes, bytes_eq, bytes_beq_iff, Option-cases,
}
use splinter.Prelude.Sets.{contains}

-- `a <= b` of byte slices: lexicographic, a prefix being smaller.
unfoldable pub le_bytes : Bytes → Bytes → Bool
le_bytes [] b = true
le_bytes (x ∷ xs) [] = false
le_bytes (x ∷ xs) (y ∷ ys) = ltb x y || (nat_beq x y && le_bytes xs ys)

pub le_bytes_refl : (a : Bytes) → le_bytes a a ≡ true
unfolding le_bytes
le_bytes_refl [] = refl
le_bytes_refl (x ∷ xs) = ground (arith, le_bytes_refl xs)

pub le_bytes_trans :
    (a b c : Bytes) → le_bytes a b ≡ true → le_bytes b c ≡ true → le_bytes a c ≡ true
unfolding le_bytes
le_bytes_trans [] b c h k = refl
le_bytes_trans (x ∷ xs) [] c h k = cc
le_bytes_trans (x ∷ xs) (y ∷ ys) [] h k = cc
le_bytes_trans (x ∷ xs) (y ∷ ys) (z ∷ zs) h k = ground (arith, le_bytes_trans xs ys zs)

pub le_bytes-total : (a b : Bytes) → le_bytes a b ≡ false → le_bytes b a ≡ true
unfolding le_bytes
le_bytes-total [] b h = cc
le_bytes-total (x ∷ xs) [] h = refl
le_bytes-total (x ∷ xs) (y ∷ ys) h = ground (arith, le_bytes-total xs ys)

-- `iter().min()`
unfoldable pub minimum : List Bytes → Option Bytes
minimum [] = none
minimum (x ∷ xs) = elim (minimum xs) [
  | none ↦ some x
  | some m ↦ if le_bytes x m then some x else some m
]

-- `m` is the least of the ids `xs`.
pub record IsLeast (m : Bytes) (xs : List Bytes) : Type 0 where
  pub member : contains xs m ≡ true
  pub least : (v : Bytes) → contains xs v ≡ true → le_bytes m v ≡ true

contains-minimum : (xs : List Bytes) (m : Bytes) → minimum xs ≡ some m → contains xs m ≡ true
unfolding minimum contains
contains-minimum [] m h = cc
contains-minimum (x ∷ xs) m h = elim (Option-cases (minimum xs)) [
  | inl e ↦ ground (arith, bytes_beq_iff m x)
  | inr (k, e) ↦ ground (arith, bytes_beq_iff m x, contains-minimum xs m)
]

contains_of_minimum-none : (xs : List Bytes) (v : Bytes) → minimum xs ≡ none → contains xs v ≡ false
unfolding minimum contains
contains_of_minimum-none [] v h = refl
contains_of_minimum-none (x ∷ xs) v h = ground arith

minimum-le :
    (xs : List Bytes) (m v : Bytes)
    → minimum xs ≡ some m
    → contains xs v ≡ true
    → le_bytes m v ≡ true
unfolding minimum contains
minimum-le [] m v h k = cc
minimum-le (x ∷ xs) m v h k = elim (Option-cases (minimum xs)) [
  | inl e ↦ ground (arith, bytes_beq_iff v x, le_bytes_refl x, contains_of_minimum-none xs v e)
  | inr (l, e) ↦ ground (
    arith,
    bytes_beq_iff v x,
    le_bytes_refl x,
    le_bytes-total x l,
    le_bytes_trans x l v,
    minimum-le xs l v e,
  )
]

pub minimum-IsLeast : (xs : List Bytes) (m : Bytes) → minimum xs ≡ some m → IsLeast m xs
minimum-IsLeast xs m h = record {
  member = contains-minimum xs m h;
  least = λ v. minimum-le xs m v h;
}
