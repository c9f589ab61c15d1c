-- ===== src/Prelude/Results.antt =====
-- What a call of the program comes to: a value, an error that it returns, or a panic (an index out
-- of range, a failed assertion, an arithmetic overflow under overflow checks).
use mathlib.Core.Path.{◌≡◌, refl}
use mathlib.Core.Logic.{◌⊎◌, inl, inr}
use mathlib.Core.Bool.{Bool, true, false}
use mathlib.Core.Option.{Option, none, some}

pub data Outcome {ℓ κ} (E : Type ℓ) (A : Type κ) : Type (ℓ ⊔ κ) where
  ok : A → Outcome E A
  err : E → Outcome E A
  panic : Outcome E A

module _ {ℓ κ} {E : Type ℓ} {A : Type κ} where
  infixl 5 ◌>>=◌
  abbrev pub ◌>>=◌ {μ} : {B : Type μ} → Outcome E A → (A → Outcome E B) → Outcome E B
  ok a >>= f = f a
  err e >>= f = err e
  panic >>= f = panic

  -- `o.ok_or(e)?`
  abbrev pub ok_or : E → Option A → Outcome E A
  ok_or e none = err e
  ok_or e (some a) = ok a

  -- An index, an `unwrap` or an `expect` that panics where there is no value.
  abbrev pub or_panic : Option A → Outcome E A
  or_panic none = panic
  or_panic (some a) = ok a

  -- A split on a call that keeps the equation.
  pub Outcome-cases :
      (o : Outcome E A) → ((a : A) × (o ≡ ok a)) ⊎ (((e : E) × (o ≡ err e)) ⊎ (o ≡ panic))
  Outcome-cases (ok a) = inl (a, refl)
  Outcome-cases (err e) = inr (inl (e, refl))
  Outcome-cases panic = inr (inr refl)

  -- A call that goes on to a value went through a value.
  pub ok-bind {μ} :
      {C : Type μ} (first : Outcome E A) (next : A → Outcome E C) (c : C)
      → (first >>= next) ≡ ok c
      → (a : A) × (first ≡ ok a) × (next a ≡ ok c)
  ok-bind (ok a) next c through = (a, refl, through)
  ok-bind panic next c through = cc
  ok-bind (err e) next c through = cc

module _ {ℓ} {E : Type ℓ} where
  -- `if b { return Err(e) }`
  abbrev pub fail_if : Bool → E → Outcome E (Unit {0})
  fail_if true e = err e
  fail_if false e = ok tt

  infixl 5 ◌>>◌
  abbrev pub ◌>>◌ {κ} : {B : Type κ} → Outcome E (Unit {0}) → Outcome E B → Outcome E B
  m >> k = m >>= λ _. k

module _ {ℓ} {A : Type ℓ} where
  pub some_inj : {x y : A} (o : Option A) → o ≡ some x → o ≡ some y → x ≡ y
  some_inj o e f = cc

  pub some-none : {x : A} (o : Option A) → o ≡ some x → o ≡ none → ⊥
  some-none o e f = cc

  pub ok_inj {κ} : {E : Type κ} {x y : A} (o : Outcome E A) → o ≡ ok x → o ≡ ok y → x ≡ y
  ok_inj o e f = cc
