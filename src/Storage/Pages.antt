-- ===== src/Storage/Pages.antt =====
-- A range of an ordered set, read in pages of a size: the source of the iterator in
-- libsplinter/src/admin/service/mailbox.rs.
use mathlib.Core.Path.{subst}
use splinter.Prelude.{
  ℕ, zero, suc, ◌<◌, ◌≡◌, refl, sym, ap, ◌∙◌, Bool, true, false, ◌&&◌, some, List, [], ◌∷◌, ◌++◌,
  if◌then◌else◌, ltb, All, arith, Bool-cases, inl, inr, keep, and-true,
}
use splinter.Storage.Sets.{
  Bound, included, excluded, unbounded, after_start, before_end, in_range, take_up_to, last_item,
}
use splinter.Storage.Ascending.{Above, IsAscending}

-- what `take_up_to` leaves
unfoldable pub rest_after : {A : Type 0} → ℕ → List A → List A
rest_after zero xs = xs
rest_after (suc n) [] = []
rest_after (suc n) (x ∷ xs) = rest_after n xs

pub take-rest : {A : Type 0} (n : ℕ) (xs : List A) → take_up_to n xs ++ rest_after n xs ≡ xs
unfolding take_up_to rest_after
take-rest zero xs = refl
take-rest (suc n) [] = refl
take-rest (suc n) (x ∷ xs) = ap (λ ys. x ∷ ys) (take-rest n xs)

module _ {V : Type 0} (P : V → Type 0) where
  pub last_All : (xs : List V) (e : V) → All P xs → last_item xs ≡ some e → P e
  unfolding last_item
  last_All [] e a h = cc
  last_All (x ∷ []) e a h = let same : x ≡ e = ground (arith, h) in subst P same a.0
  last_All (x ∷ y ∷ ys) e a h = last_All (y ∷ ys) e a.1 h

  pub take_All : (n : ℕ) (xs : List V) → All P xs → All P (take_up_to n xs)
  unfolding take_up_to
  take_All zero xs a = tt
  take_All (suc n) [] a = tt
  take_All (suc n) (x ∷ xs) a = (a.0, take_All n xs a.1)

pub keep-All : {V : Type 0} (p : V → Bool) (xs : List V) → All (λ x. p x ≡ true) (keep p xs)
unfolding keep
keep-All p [] = tt
keep-All p (x ∷ xs) = elim (Bool-cases (p x)) [
  | inl e ↦ rw e (e, keep-All p xs)
  | inr e ↦ rw e (keep-All p xs)
]

module _ {V : Type 0} (key : V → ℕ) where
  Above-keep : (k : ℕ) (p : V → Bool) (xs : List V) → Above key k xs → Above key k (keep p xs)
  unfolding keep
  Above-keep k p [] a = a
  Above-keep k p (x ∷ xs) (a, b) = let rest = Above-keep k p xs b in ground arith

  pub IsAscending-keep :
      (p : V → Bool) (xs : List V) → IsAscending key xs → IsAscending key (keep p xs)
  unfolding keep
  IsAscending-keep p [] s = s
  IsAscending-keep p (x ∷ xs) (a, s) =
      let rest = IsAscending-keep p xs s in
      elim (Bool-cases (p x)) [ inl e ↦ rw e (Above-keep (key x) p xs a, rest) | inr e ↦ rw e rest ]

  abbrev pub later : ℕ → V → Bool
  later k x = ltb k (key x)

  keep-Above : (k : ℕ) (xs : List V) → Above key k xs → keep (later k) xs ≡ xs
  unfolding keep
  keep-Above k [] a = refl
  keep-Above k (x ∷ xs) (a, b) = let rest = keep-Above k xs b in ground arith

  -- The items of the range after the last item of its first page are the ones after the page.
  pub keep-rest_after :
      (n : ℕ) (xs : List V) (e : V)
      → IsAscending key xs
      → last_item (take_up_to n xs) ≡ some e
      → keep (later (key e)) xs ≡ rest_after n xs
  unfolding take_up_to last_item rest_after keep
  keep-rest_after zero xs e s h = cc
  keep-rest_after (suc n) [] e s h = cc
  keep-rest_after (suc zero) (x ∷ xs) e (a, s) h =
      let same : x ≡ e = ground (arith, h) in
      let rest = keep-Above (key x) xs a in
      subst (λ z. keep (later (key z)) (x ∷ xs) ≡ xs) same (ground (arith, rest))
  keep-rest_after (suc (suc n)) (x ∷ []) e (a, s) h =
      let same : x ≡ e = ground (arith, h) in
      subst (λ z. keep (later (key z)) (x ∷ []) ≡ []) same (ground arith)
  keep-rest_after (suc (suc n)) (x ∷ y ∷ ys) e (a, s) h =
      let rest = keep-rest_after (suc n) (y ∷ ys) e s h in
      let above : key x < key e =
        last_All (λ z. key x < key z) (take_up_to (suc n) (y ∷ ys)) e
          (take_All (λ z. key x < key z) (suc n) (y ∷ ys) a) h in
      let not_later : ltb (key e) (key x) ≡ false = ground (arith, above) in rw not_later rest

  keep_earlier :
      (k : ℕ) (x : V) (b : Bool) (xs : List V)
      → later k x ≡ false
      → keep (later k) (if b then x ∷ xs else xs) ≡ keep (later k) xs
  unfolding keep
  keep_earlier k x true xs e = rw e refl
  keep_earlier k x false xs e = refl

  keep_if_later :
      (k : ℕ) (x : V) (b : Bool) (xs : List V)
      → later k x ≡ true
      → keep (later k) (if b then x ∷ xs else xs)
        ≡ (if b then x ∷ keep (later k) xs else keep (later k) xs)
  unfolding keep
  keep_if_later k x true xs e = rw e refl
  keep_if_later k x false xs e = refl

  in_range_later :
      (start end : Bound) (k : ℕ) (xs : List V)
      → ((j : ℕ) → k < j → after_start start j ≡ true)
      → in_range key (record { start = excluded k; end = end }) xs
        ≡ keep (later k) (in_range key (record { start = start; end = end }) xs)
  unfolding in_range keep
  in_range_later start end k [] h = refl
  in_range_later start end k (x ∷ xs) h =
      let rest = in_range_later start end k xs h in
      elim (Bool-cases (ltb k (key x))) [
        | inr e ↦ rw e (
            rest ∙ sym (keep_earlier k x (after_start start (key x) && before_end end (key x)) _ e))
        | inl e ↦
            (let inside = h (key x) (ground (arith, e)) in
              let kept = keep_if_later k x (before_end end (key x)) _ e in
              rw (e, inside)
                (ap (λ zs. if before_end end (key x) then x ∷ zs else zs) rest ∙ sym kept))
      ]

  after_start_later :
      (start : Bound) (k j : ℕ) → after_start start k ≡ true → k < j → after_start start j ≡ true
  after_start_later (included a) k j h l = ground (arith, h, l)
  after_start_later (excluded a) k j h l = ground (arith, h, l)
  after_start_later unbounded k j h l = refl

  -- The range after the last item of the first page of a range is the rest of that range.
  pub in_range-rest_after :
      (n : ℕ) (start end : Bound) (xs : List V) (e : V)
      → IsAscending key xs
      → last_item (take_up_to n (in_range key (record { start = start; end = end }) xs)) ≡ some e
      → in_range key (record { start = excluded (key e); end = end }) xs
        ≡ rest_after n (in_range key (record { start = start; end = end }) xs)
  unfolding in_range
  in_range-rest_after n start end xs e s h =
      let inside : V → Bool = λ x. after_start start (key x) && before_end end (key x) in
      let e_inside : inside e ≡ true =
        last_All (λ x. inside x ≡ true) (take_up_to n (keep inside xs)) e
          (take_All (λ x. inside x ≡ true) n (keep inside xs) (keep-All inside xs)) h in
      let started = (and-true (after_start start (key e)) (before_end end (key e)) e_inside).0 in
      in_range_later start end (key e) xs (λ j l. after_start_later start (key e) j started l)
      ∙ keep-rest_after n (keep inside xs) e (IsAscending-keep inside xs s) h
