-- ===== src/Prelude/Results.antt =====
-- `?` on a pure result, and `return Err(...)` under a test.
use mathlib.Core.Path.{◌≡◌, refl}
use mathlib.Core.Bool.{Bool, true, false}
use mathlib.Core.List.{List, [], ◌∷◌, map}
use mathlib.Core.Logic.{◌⊎◌, inl, inr}
use native.Mathlib.Omega.{arith}
use splinter.Prelude.Exec.{Result, ok, err}

infixl 10 ◌>>=◌ ◌>>◌
abbrev pub ◌>>=◌ {ℓ κ} :
    {E : Type 0} {A : Type ℓ} {B : Type κ} → Result E A → (A → Result E B) → Result E B
ok a >>= f = f a
err x >>= f = err x

abbrev pub ◌>>◌ {κ} : {E : Type 0} {B : Type κ} → Result E (Unit {0}) → Result E B → Result E B
ok a >> r = r
err x >> r = err x

-- `if test { return Err(x) }`
abbrev pub reject_if : {E : Type 0} → Bool → E → Result E (Unit {0})
reject_if true x = err x
reject_if false x = ok tt

-- Inversion of a chain of checks that ends well.
pub ok_of_then :
    {E : Type 0} (r q : Result E (Unit {0})) → (r >> q) ≡ ok tt → (r ≡ ok tt) × (q ≡ ok tt)
ok_of_then (ok a) q h = (refl, h)
ok_of_then (err x) q h = cc

pub false_of_reject_if :
    {E : Type 0} (test : Bool) (x : E) → reject_if test x ≡ ok tt → test ≡ false
false_of_reject_if true x h = cc
false_of_reject_if false x h = refl

pub ok_of_bind :
    {E : Type 0} {A B : Type 0} (r : Result E A) (f : A → Result E B) {b : B}
    → (r >>= f) ≡ ok b
    → (a : A) × (r ≡ ok a) × (f a ≡ ok b)
ok_of_bind (ok a) f h = (a, refl, h)
ok_of_bind (err x) f h = cc

-- `into_iter().map(f).collect::<Result<Vec<_>, _>>()`: all the results, or the first error
unfoldable pub collect : {E A B : Type 0} → (A → Result E B) → List A → Result E (List B)
collect f [] = ok []
collect f (x ∷ xs) = do y ← f x; ys ← collect f xs; ok (y ∷ ys)

-- a conversion with its inverse, on lists
pub collect-map :
    {E A B : Type 0} (f : A → Result E B) (g : B → A)
    → ((y : B) → f (g y) ≡ ok y)
    → (ys : List B) → collect f (map g ys) ≡ ok ys
unfolding collect
collect-map f g h [] = refl
collect-map f g h (y ∷ ys) = rw (h y) (rw (collect-map f g h ys))

pub map-collect :
    {E A B : Type 0} (f : A → Result E B) (g : B → A)
    → ((x : A) (y : B) → f x ≡ ok y → g y ≡ x)
    → (xs : List A) (ys : List B) → collect f xs ≡ ok ys
    → map g ys ≡ xs
unfolding collect
map-collect f g h [] ys e = let e' : [] ≡ ys = ground (arith, e) in rw (← e') refl
map-collect f g h (x ∷ xs) ys e =
    let (y, e₁, e₂) = ok_of_bind (f x) _ e in
    let (zs, e₃, e₄) = ok_of_bind (collect f xs) (λ zs. ok (y ∷ zs)) e₂ in
    let e₅ : y ∷ zs ≡ ys = ground (arith, e₄) in
    rw (← e₅) (cc (h x y e₁, map-collect f g h xs zs e₃))

pub Result-cases {ℓ κ} :
    {E : Type κ} {A : Type ℓ} (r : Result E A) → ((a : A) × (r ≡ ok a)) ⊎ ((e : E) × (r ≡ err e))
Result-cases (ok a) = inl (a, refl)
Result-cases (err e) = inr (e, refl)
