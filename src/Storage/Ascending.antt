-- ===== src/Storage/Ascending.antt =====
-- Lists in ascending order of the index, and what the operations of libsplinter/src/storage/sets/mem.rs
-- make of them.
use splinter.Prelude.{
  ℕ, suc, ◌<◌, ◌≤◌, ◌≡◌, refl, none, some, List, [], ◌∷◌, ◌++◌, ltb, nat_beq, length, All, arith,
  Bool-cases, inl, inr,
}
use splinter.Storage.Sets.{insert, find_item, without}

module _ {V : Type 0} (key : V → ℕ) where
  -- the index is above `k`
  abbrev pub Above : ℕ → List V → Type 0
  Above k xs = All (λ x. k < key x) xs

  abbrev pub IsAscending : List V → Type 0
  IsAscending [] = Unit {0}
  IsAscending (x ∷ xs) = Above (key x) xs × IsAscending xs

  pub Above-insert :
      (k : ℕ) (x : V) (xs : List V) → k < key x → Above k xs → Above k (insert key x xs)
  unfolding insert
  Above-insert k x [] h a = (h, tt)
  Above-insert k x (y ∷ ys) h (a, b) = let rest = Above-insert k x ys h b in ground arith

  pub Above-without : (k j : ℕ) (xs : List V) → Above k xs → Above k (without key j xs)
  unfolding without
  Above-without k j [] a = a
  Above-without k j (y ∷ ys) (a, b) = let rest = Above-without k j ys b in ground arith

  Above-trans : (j k : ℕ) (xs : List V) → j < k → Above k xs → Above j xs
  Above-trans j k [] h a = tt
  Above-trans j k (x ∷ xs) h (a, b) = (omega (arith, h, a), Above-trans j k xs h b)

  pub IsAscending-insert : (x : V) (xs : List V) → IsAscending xs → IsAscending (insert key x xs)
  unfolding insert
  IsAscending-insert x [] s = (tt, tt)
  IsAscending-insert x (y ∷ ys) (a, s) =
      let rest = IsAscending-insert x ys s in
      elim (Bool-cases (ltb (key x) (key y))) [
        | inl e ↦ rw e ((ground arith, Above-trans (key x) (key y) ys (ground arith) a), (a, s))
        | inr e ↦ rw e (elim (Bool-cases (nat_beq (key x) (key y))) [
          | inl f ↦ rw f (a, s)
          | inr f ↦ rw f (Above-insert (key y) x ys (ground arith) a, rest)
        ])
      ]

  pub IsAscending-without : (k : ℕ) (xs : List V) → IsAscending xs → IsAscending (without key k xs)
  unfolding without
  IsAscending-without k [] s = s
  IsAscending-without k (y ∷ ys) (a, s) =
      let rest = IsAscending-without k ys s in
      elim (Bool-cases (nat_beq k (key y))) [
        | inl e ↦ rw e rest
        | inr e ↦ rw e (Above-without (key y) k ys a, rest)
      ]

  pub length-insert : (x : V) (xs : List V) → length (insert key x xs) ≤ suc (length xs)
  unfolding insert
  length-insert x [] = ground arith
  length-insert x (y ∷ ys) = let rest = length-insert x ys in ground arith

  pub length-without : (k : ℕ) (xs : List V) → length (without key k xs) ≤ length xs
  unfolding without
  length-without k [] = ground arith
  length-without k (y ∷ ys) = let rest = length-without k ys in ground arith

  without-Above : (k : ℕ) (xs : List V) → Above k xs → without key k xs ≡ xs
  unfolding without
  without-Above k [] a = refl
  without-Above k (y ∷ ys) (a, b) = let rest = without-Above k ys b in ground arith

  -- The lowest item is the first one.
  pub without_first :
      (y : V) (ys : List V) → IsAscending (y ∷ ys) → without key (key y) (y ∷ ys) ≡ ys
  unfolding without
  without_first y ys (a, s) = let rest = without-Above (key y) ys a in ground arith

  -- every index is below that of `x`
  abbrev pub Below : ℕ → List V → Type 0
  Below k xs = All (λ x. key x < k) xs

  pub insert_last : (x : V) (ys : List V) → Below (key x) ys → insert key x ys ≡ ys ++ (x ∷ [])
  unfolding insert
  insert_last x [] b = refl
  insert_last x (y ∷ ys) (a, b) = let rest = insert_last x ys b in ground arith

  find-Above : (j k : ℕ) (xs : List V) → j ≤ k → Above k xs → find_item key j xs ≡ none
  unfolding find_item
  find-Above j k [] h a = refl
  find-Above j k (y ∷ ys) h (a, b) = let rest = find-Above j k ys h b in ground arith

  -- An item that is there stays, and the new one is not stored.
  pub insert_present :
      (x z : V) (ys : List V)
      → IsAscending ys
      → find_item key (key x) ys ≡ some z
      → insert key x ys ≡ ys
  unfolding insert find_item
  insert_present x z [] s e = cc
  insert_present x z (y ∷ ys) (a, s) e = elim (Bool-cases (ltb (key x) (key y))) [
    | inl f ↦ (let rest = find-Above (key x) (key y) ys (ground arith) a in ground arith)
    | inr f ↦ (elim (Bool-cases (nat_beq (key x) (key y))) [
      | inl g ↦ rw (f, g) refl
      | inr g ↦ (let rest = insert_present x z ys s (ground (arith, g, e)) in ground arith)
    ])
  ]
