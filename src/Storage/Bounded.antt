-- ===== src/Storage/Bounded.antt =====
-- The bound of `DurableBTreeSet` of libsplinter/src/storage/sets/mem.rs.
use mathlib.Core.Path.{subst}
use splinter.Prelude.{
  ℕ, suc, ◌<◌, ◌≤◌, ◌≡◌, refl, ap, ◌∙◌, true, false, Option, none, some, List, [], ◌∷◌, nat_beq,
  length, arith, Bool-cases, inl, inr,
}
use splinter.Storage.Sets.{DurableBTreeSet, insert, add, remove}
use splinter.Storage.Ascending.{
  IsAscending, IsAscending-insert, IsAscending-without, length-insert, length-without,
  without_first,
}

-- the calls that change a set
pub data SetCall (V : Type 0) : Type 0 where
  adding removing : V → SetCall V

abbrev pub with_items : {V : Type 0} → ℕ → List V → DurableBTreeSet V
with_items bound xs = record { items = xs; bound = bound }

module _ {V : Type 0} (key : V → ℕ) where
  abbrev pub perform : SetCall V → DurableBTreeSet V → Option (DurableBTreeSet V)
  perform (adding x) s = add key x s
  perform (removing x) s = some (remove key x s).1

  abbrev pub perform_next :
      List (SetCall V) → Option (DurableBTreeSet V) → Option (DurableBTreeSet V)
  perform_next [] o = o
  perform_next (c ∷ cs) none = none
  perform_next (c ∷ cs) (some s) = perform_next cs (perform c s)

  pub record IsStored (bound : ℕ) (s : DurableBTreeSet V) : Type 0 where
    pub ascending : IsAscending key s.items
    pub bounded : length s.items ≤ bound
    pub same_bound : s.bound ≡ bound

  pub insert_into-IsStored :
      (bound : ℕ) (x : V) (ys : List V)
      → IsAscending key ys
      → length ys < bound
      → IsStored bound (with_items bound (insert key x ys))
  insert_into-IsStored bound x ys a h = record {
    ascending = IsAscending-insert key x ys a;
    bounded = omega (arith, h, length-insert key x ys);
    same_bound = refl;
  }

  -- what adding does, by whether the set is full
  pub add_free :
      (bound : ℕ) (x : V) (ys : List V)
      → length ys < bound
      → add key x (with_items bound ys) ≡ some (with_items bound (insert key x ys))
  unfolding add
  add_free bound x ys h =
      let other : nat_beq (length ys) bound ≡ false = ground (arith, h) in rw other refl

  pub add_full :
      (x y : V) (ys : List V)
      → IsAscending key (y ∷ ys)
      → add key x (with_items (suc (length ys)) (y ∷ ys))
        ≡ some (with_items (suc (length ys)) (insert key x ys))
  unfolding add
  add_full x y ys a =
      let same : nat_beq (suc (length ys)) (suc (length ys)) ≡ true = ground arith in
      rw (same, without_first key y ys a) refl

  pub add_to :
      (bound : ℕ) (x : V) (ys : List V)
      → 0 < bound
      → IsAscending key ys
      → length ys ≤ bound
      → (s : DurableBTreeSet V) × (add key x (with_items bound ys) ≡ some s) × IsStored bound s
  add_to bound x [] p a h = (
    _,
    add_free bound x [] (omega (arith, p)),
    insert_into-IsStored bound x [] a (omega (arith, p)),
  )
  add_to bound x (y ∷ ys) p (a, b) h = elim (Bool-cases (nat_beq (suc (length ys)) bound)) [
    | inl e ↦
        (let same : suc (length ys) ≡ bound = ground (arith, e) in
          subst
            (λ n.
              (s : DurableBTreeSet V) × (add key x (with_items n (y ∷ ys)) ≡ some s) × IsStored n s)
            same
            (
              _,
              add_full x y ys (a, b),
              insert_into-IsStored (suc (length ys)) x ys b (omega arith),
            ))
    | inr e ↦
        (let less : suc (length ys) < bound = ground (arith, e, h) in
          (_, add_free bound x (y ∷ ys) less, insert_into-IsStored bound x (y ∷ ys) (a, b) less))
  ]

  pub perform-IsStored :
      (bound : ℕ) (c : SetCall V) (s : DurableBTreeSet V)
      → 0 < bound
      → IsStored bound s
      → (s' : DurableBTreeSet V) × (perform c s ≡ some s') × IsStored bound s'
  unfolding remove
  perform-IsStored bound (adding x) s p h =
      let (s', e, q) = add_to bound x s.items p h.ascending h.bounded in
      (s', ap (λ n. add key x (with_items n s.items)) h.same_bound ∙ e, q)
  perform-IsStored bound (removing x) s p h = (
    (remove key x s).1,
    refl,
    record {
      ascending = IsAscending-without key (key x) s.items h.ascending;
      bounded = omega (arith, h.bounded, length-without key (key x) s.items);
      same_bound = h.same_bound;
    },
  )

-- With a bound that is not 0, adding never panics: after any calls the items are in ascending order of
-- different indices, and at most as many as the bound.
pub perform_next-IsStored :
    {V : Type 0} (key : V → ℕ) (bound : ℕ) (cs : List (SetCall V)) (s : DurableBTreeSet V)
    → 0 < bound
    → IsStored key bound s
    → (s' : DurableBTreeSet V) × (perform_next key cs (some s) ≡ some s') × IsStored key bound s'
perform_next-IsStored key bound [] s p h = (s, refl, h)
perform_next-IsStored key bound (c ∷ cs) s p h =
    let (s₁, e, q) = perform-IsStored key bound c s p h in
    let (s₂, f, r) = perform_next-IsStored key bound cs s₁ p q in
    (s₂, ap (perform_next key cs) e ∙ f, r)
