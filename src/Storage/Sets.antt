-- ===== src/Storage/Sets.antt =====
-- `DurableBTreeSet` of libsplinter/src/storage/sets/mem.rs, with the ranges of mod.rs. The items
-- are ordered by an index, a native natural number; a `BTreeSet` is the list of its items in
-- ascending order. The lock is never poisoned.
use splinter.Prelude.{
  ℕ, zero, suc, Bool, true, false, ◌&&◌, Option, none, some, List, [], ◌∷◌, if◌then◌else◌, ltb, leb,
  nat_beq, length, keep,
}

pub data Bound : Type 0 where
  included excluded : ℕ → Bound
  unbounded : Bound

pub record DurableRange : Type 0 where
  pub start : Bound
  pub end : Bound

abbrev pub after_start : Bound → ℕ → Bool
after_start (included a) k = leb a k
after_start (excluded a) k = ltb a k
after_start unbounded k = true

abbrev pub before_end : Bound → ℕ → Bool
before_end (included b) k = leb k b
before_end (excluded b) k = ltb k b
before_end unbounded k = true

-- where `BTreeSet::range` panics
abbrev pub is_bad_range : DurableRange → Bool
is_bad_range r = elim r.start [
  | unbounded ↦ false
  | included a ↦ elim r.end [ included b ↦ ltb b a | excluded b ↦ ltb b a | unbounded ↦ false ]
  | excluded a ↦ elim r.end [ included b ↦ ltb b a | excluded b ↦ leb b a | unbounded ↦ false ]
]

-- `BTreeSet`, whose `insert` keeps an item that is there
module _ {V : Type 0} (key : V → ℕ) where
  unfoldable pub insert : V → List V → List V
  insert x [] = x ∷ []
  insert x (y ∷ ys) =
      let rest = insert x ys in
      if ltb (key x) (key y)
      then x ∷ y ∷ ys
      else if nat_beq (key x) (key y)
      then y ∷ ys
      else y ∷ rest

  unfoldable pub find_item : ℕ → List V → Option V
  find_item k [] = none
  find_item k (y ∷ ys) = let rest = find_item k ys in if nat_beq k (key y) then some y else rest

  unfoldable pub without : ℕ → List V → List V
  without k [] = []
  without k (y ∷ ys) = let rest = without k ys in if nat_beq k (key y) then rest else y ∷ rest

pub record DurableBTreeSet (V : Type 0) : Type 0 where
  pub items : List V
  pub bound : ℕ

abbrev pub new_boxed_with_bound : (V : Type 0) → ℕ → DurableBTreeSet V
new_boxed_with_bound V bound = record { items = []; bound = bound }

abbrev pub is_some : {A : Type 0} → Option A → Bool
is_some none = false
is_some (some a) = true

abbrev pub first_of : {A : Type 0} → List A → Option A
first_of [] = none
first_of (x ∷ xs) = some x

-- `take(n)` of an iterator
unfoldable pub take_up_to : {A : Type 0} → ℕ → List A → List A
take_up_to zero xs = []
take_up_to (suc n) [] = []
take_up_to (suc n) (x ∷ xs) = x ∷ take_up_to n xs

unfoldable pub last_item : {A : Type 0} → List A → Option A
last_item [] = none
last_item (x ∷ []) = some x
last_item (x ∷ y ∷ ys) = last_item (y ∷ ys)

module _ {V : Type 0} (key : V → ℕ) where
  -- `iter().next().cloned().unwrap()`, `none` where it panics, and the removal
  abbrev pub without_lowest : List V → Option (List V)
  without_lowest [] = none
  without_lowest (y ∷ ys) = some (without key (key y) (y ∷ ys))

  abbrev pub insert_into : V → ℕ → Option (List V) → Option (DurableBTreeSet V)
  insert_into x bound none = none
  insert_into x bound (some ys) = some (record { items = insert key x ys; bound = bound })

  unfoldable pub add : V → DurableBTreeSet V → Option (DurableBTreeSet V)
  add x s =
      insert_into x s.bound
        (if nat_beq (length s.items) s.bound then without_lowest s.items else some s.items)

  unfoldable pub remove : V → DurableBTreeSet V → Option V × DurableBTreeSet V
  remove x s = (find_item key (key x) s.items, record s { items = without key (key x) s.items })

  abbrev pub contains_item : V → DurableBTreeSet V → Bool
  contains_item x s = is_some (find_item key (key x) s.items)

  abbrev pub len : DurableBTreeSet V → ℕ
  len s = length s.items

  abbrev pub get_by_index : ℕ → DurableBTreeSet V → Option V
  get_by_index k s = find_item key k s.items

  abbrev pub contains_by_index : ℕ → DurableBTreeSet V → Bool
  contains_by_index k s = is_some (get_by_index k s)

  unfoldable pub in_range : DurableRange → List V → List V
  in_range r xs = keep (λ x. after_start r.start (key x) && before_end r.end (key x)) xs

  -- `none` where the range panics
  unfoldable pub range_iter : DurableRange → DurableBTreeSet V → Option (List V)
  range_iter r s = if is_bad_range r then none else some (in_range r s.items)

  abbrev pub first : DurableBTreeSet V → Option V
  first s = first_of s.items

  abbrev pub last : DurableBTreeSet V → Option V
  last s = last_item s.items
