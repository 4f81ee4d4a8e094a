-- ===== src/Storage/Recent.antt =====
-- What a bounded set of libsplinter/src/storage/sets/mem.rs keeps of the items that were added.
use mathlib.Core.Path.{subst}
use mathlib.Core.List.{append-nil, append_assoc}
use splinter.Prelude.{
  ℕ, suc, ◌<◌, ◌≤◌, ◌≡◌, refl, sym, ap, ◌∙◌, true, false, Option, none, some, List, [], ◌∷◌, ◌++◌,
  if◌then◌else◌, ltb, nat_beq, length, arith, Bool-cases, inl, inr, length-append,
}
use splinter.Storage.Sets.{DurableBTreeSet, insert, find_item, add, new_boxed_with_bound}
use splinter.Storage.Ascending.{Above, Below, IsAscending, insert_last, insert_present}
use splinter.Storage.Bounded.{with_items, add_free, add_full}

-- the last `n` of the elements
unfoldable pub last_of : {V : Type 0} → ℕ → List V → List V
last_of n [] = []
last_of n (x ∷ xs) = let rest = last_of n xs in if ltb n (suc (length xs)) then rest else x ∷ xs

pub length-last_of : {V : Type 0} (n : ℕ) (xs : List V) → length (last_of n xs) ≤ n
unfolding last_of
length-last_of n [] = omega arith
length-last_of n (x ∷ xs) = let rest = length-last_of n xs in ground arith

pub IsAscending-last_of :
    {V : Type 0} (key : V → ℕ) (n : ℕ) (xs : List V)
    → IsAscending key xs
    → IsAscending key (last_of n xs)
unfolding last_of
IsAscending-last_of key n [] a = a
IsAscending-last_of key n (x ∷ xs) (a, s) = elim (Bool-cases (ltb n (suc (length xs)))) [
  | inl e ↦ rw e (IsAscending-last_of key n xs s)
  | inr e ↦ rw e (a, s)
]

last_of_all : {V : Type 0} (n : ℕ) (xs : List V) → length xs ≤ n → last_of n xs ≡ xs
unfolding last_of
last_of_all n [] h = refl
last_of_all n (x ∷ xs) h =
    let less : ltb n (suc (length xs)) ≡ false = ground (arith, h) in rw less refl

last_of_drop :
    {V : Type 0} (n : ℕ) (x : V) (xs : List V) → n ≤ length xs → last_of n (x ∷ xs) ≡ last_of n xs
unfolding last_of
last_of_drop n x xs h =
    let more : ltb n (suc (length xs)) ≡ true = ground (arith, h) in rw more refl

module _ {V : Type 0} (key : V → ℕ) where
  abbrev pub add_next : List V → Option (DurableBTreeSet V) → Option (DurableBTreeSet V)
  add_next [] o = o
  add_next (x ∷ xs) none = none
  add_next (x ∷ xs) (some s) = add_next xs (add key x s)

  Below-of : (x : V) (ys xs : List V) → IsAscending key (ys ++ x ∷ xs) → Below key (key x) ys
  Below-of x [] xs a = tt
  Below-of x (y ∷ ys) xs (a, b) = (above_one (key y) ys a, Below-of x ys xs b)
    where
      above_one : (k : ℕ) (zs : List V) → Above key k (zs ++ x ∷ xs) → k < key x
      above_one k [] h = h.0
      above_one k (z ∷ zs) h = above_one k zs h.1

  IsAscending-front : (ys xs : List V) → IsAscending key (ys ++ xs) → IsAscending key ys
  IsAscending-front [] xs a = tt
  IsAscending-front (y ∷ ys) xs (a, b) = (above_front (key y) ys a, IsAscending-front ys xs b)
    where
      above_front : (k : ℕ) (zs : List V) → Above key k (zs ++ xs) → Above key k zs
      above_front k [] h = tt
      above_front k (z ∷ zs) h = (h.0, above_front k zs h.1)

  stored :
      (bound : ℕ) (x : V) (ys : List V)
      → Below key (key x) ys
      → some (with_items bound (insert key x ys)) ≡ some (with_items bound (ys ++ x ∷ []))
  stored bound x ys b = ap (λ (zs : List V). some (with_items bound zs)) (insert_last key x ys b)

  -- what was added last, moved to the items
  moved :
      (bound : ℕ) (ys xs : List V) (x : V)
      → (IsAscending key ((ys ++ x ∷ []) ++ xs)
          → add_next xs (some (with_items bound (ys ++ x ∷ [])))
            ≡ some (with_items bound (last_of bound ((ys ++ x ∷ []) ++ xs))))
      → IsAscending key (ys ++ x ∷ xs)
      → add_next xs (some (with_items bound (ys ++ x ∷ [])))
        ≡ some (with_items bound (last_of bound (ys ++ x ∷ xs)))
  moved bound ys xs x f a =
      let same = append_assoc ys (x ∷ []) xs in
      f (subst (IsAscending key) (sym same) a)
      ∙ ap (λ (zs : List V). some (with_items bound (last_of bound zs))) same

  add_next-append :
      (bound : ℕ) (ys xs : List V)
      → 0 < bound
      → length ys ≤ bound
      → IsAscending key (ys ++ xs)
      → add_next xs (some (with_items bound ys))
        ≡ some (with_items bound (last_of bound (ys ++ xs)))
  add_next-append bound ys [] p h a =
      ap (λ (zs : List V). some (with_items bound zs))
        (sym (ap (last_of bound) (append-nil ys) ∙ last_of_all bound ys h))
  add_next-append bound [] (x ∷ xs) p h a =
      ap (add_next xs) (add_free key bound x [] p ∙ stored bound x [] tt)
      ∙ moved bound [] xs x (add_next-append bound ([] ++ x ∷ []) xs p p) a
  add_next-append bound (y ∷ ys) (x ∷ xs) p h a =
      let below = Below-of x (y ∷ ys) xs a in
      elim (Bool-cases (nat_beq (suc (length ys)) bound)) [
        | inl e ↦
            (let full : suc (length ys) ≡ bound = ground (arith, e) in
              let added : add key x (with_items bound (y ∷ ys))
                  ≡ some (with_items bound (ys ++ x ∷ [])) =
                subst (λ n. add key x (with_items n (y ∷ ys)) ≡ some (with_items n (ys ++ x ∷ [])))
                  full
                  (add_full key x y ys (IsAscending-front (y ∷ ys) (x ∷ xs) a)
                    ∙ stored (suc (length ys)) x ys below.1) in
              ap (add_next xs) added
              ∙ moved bound ys xs x
                  (add_next-append bound (ys ++ x ∷ []) xs p
                    (omega (arith, full, length-append ys (x ∷ []))))
                  a.1
              ∙ ap (λ (zs : List V). some (with_items bound zs))
                  (sym (
                    last_of_drop bound y (ys ++ x ∷ xs)
                      (omega (arith, full, length-append ys (x ∷ xs))))))
        | inr e ↦
            (let less : suc (length ys) < bound = ground (arith, e, h) in
              ap (add_next xs) (add_free key bound x (y ∷ ys) less ∙ stored bound x (y ∷ ys) below)
              ∙ moved bound (y ∷ ys) xs x
                  (add_next-append bound ((y ∷ ys) ++ x ∷ []) xs p
                    (omega (arith, less, length-append ys (x ∷ []))))
                  a)
      ]

-- Adding items whose indices ascend to a new set with a bound that is not 0 leaves the last of them,
-- as many as the bound.
pub add_next-last_of :
    {V : Type 0} (key : V → ℕ) (bound : ℕ) (xs : List V)
    → 0 < bound
    → IsAscending key xs
    → add_next key xs (some (new_boxed_with_bound V bound))
      ≡ some (with_items bound (last_of bound xs))
add_next-last_of key bound xs p a = add_next-append key bound [] xs p (omega arith) a

-- Adding an item whose index another than the lowest item of a full set has does not store it, and
-- drops the lowest item all the same: the set shrinks.
pub add_present :
    {V : Type 0} (key : V → ℕ) (x y z : V) (ys : List V)
    → IsAscending key (y ∷ ys)
    → find_item key (key x) ys ≡ some z
    → add key x (with_items (suc (length ys)) (y ∷ ys)) ≡ some (with_items (suc (length ys)) ys)
add_present key x y z ys (a, s) e =
    add_full key x y ys (a, s)
    ∙ ap (λ zs. some (with_items (suc (length ys)) zs)) (insert_present key x z ys s e)
