-- ===== src/Prelude/Exec.antt =====
-- Methods that change a state and may fail: `?` returns early and keeps what was written before.
use mathlib.Core.Path.{◌≡◌, refl, ap}
use mathlib.Core.Bool.{Bool, true, false}
use splinter.Prelude.Tests.{if◌then◌else◌}

-- `Result<A, E>`
pub data Result {ℓ κ} (E : Type κ) (A : Type ℓ) : Type (ℓ ⊔ κ) where
  ok : A → Result E A
  err : E → Result E A

abbrev pub Exec : Type 0 → Type 0 → Type 0 → Type 0
Exec S E A = S → Result E A × S

module _ {S E A B : Type 0} where
  abbrev pub resume : Result E A → (A → Exec S E B) → Exec S E B
  resume (ok a) f s = f a s
  resume (err e) f s = (err e, s)

  infixl 10 ◌>>=◌ ◌>>◌
  abbrev pub ◌>>=◌ : Exec S E A → (A → Exec S E B) → Exec S E B
  ◌>>=◌ m f s = resume (m s).0 f (m s).1

  abbrev pub ◌>>◌ : Exec S E A → Exec S E B → Exec S E B
  m >> n = m >>= λ _. n

module _ {S E A : Type 0} where
  abbrev pub pure : A → Exec S E A
  pure a s = (ok a, s)

  abbrev pub raise : E → Exec S E A
  raise e s = (err e, s)

  -- The action `m` keeps `P`, whether it returns or fails.
  pub record Preserves (P : S → Type 0) (m : Exec S E A) : Type 0 where
    pub at : (s : S) → P s → P (m s).1

-- either outcome, whatever the test
pub kept_if :
    {S E A : Type 0} (Q : S → Type 0) (test : Bool) (x y : Result E A × S)
    → Q x.1
    → Q y.1
    → Q (if test then x else y).1
kept_if Q true x y p q = p
kept_if Q false x y p q = q

module _ {S E A : Type 0} {Q : S → Type 0} where
  -- either branch, each under its test
  pub Preserves-if :
      (test : Bool) (yes_part no_part : Exec S E A)
      → (test ≡ true → Preserves Q yes_part)
      → (test ≡ false → Preserves Q no_part)
      → Preserves Q (if test then yes_part else no_part)
  Preserves-if true yes_part no_part f g = f refl
  Preserves-if false yes_part no_part f g = g refl

  pub Preserves-raise : (x : E) → Preserves Q (raise {A = A} x)
  Preserves-raise x = record { at = λ s q. q }

  pub Preserves-pure : (a : A) → Preserves Q (pure {E = E} a)
  Preserves-pure a = record { at = λ s q. q }

module _ {S E A B : Type 0} {Q : S → Type 0} where
  Preserves-resume :
      (r : Result E A) (rest : A → Exec S E B)
      → ((a : A) → Preserves Q (rest a))
      → Preserves Q (resume r rest)
  Preserves-resume (ok a) rest h = h a
  Preserves-resume (err x) rest h = record { at = λ s q. q }

  -- a first action that is known to end well only at `s`
  pub bind_at :
      (m : Exec S E A) (rest : A → Exec S E B) (s : S)
      → Q (m s).1
      → ((a : A) → Preserves Q (rest a))
      → Q ((m >>= rest) s).1
  bind_at m rest s q h = (Preserves-resume (m s).0 rest h).at (m s).1 q

  pub Preserves-bind :
      (m : Exec S E A) (rest : A → Exec S E B)
      → Preserves Q m
      → ((a : A) → Preserves Q (rest a))
      → Preserves Q (m >>= rest)
  Preserves-bind m rest first h = record { at = λ s q. bind_at m rest s (first.at s q) h }

pub ruleset preserves_rules = (Preserves-pure, Preserves-raise, Preserves-if, Preserves-bind)

-- a bind whose first action is known to end well
module _ {S E A B : Type 0} where
  pub bind_ok :
      {a : A} {s' : S} (m : Exec S E A) (f : A → Exec S E B) (s : S)
      → m s ≡ (ok a, s')
      → (m >>= f) s ≡ f a s'
  bind_ok m f s e = ap (λ (r : Result E A × S). resume r.0 f r.1) e
