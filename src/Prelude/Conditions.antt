-- ===== src/Prelude/Conditions.antt =====
-- Postconditions of calls: what holds of the value, of the error, or of a panic that a call comes to.
use mathlib.Core.Path.{◌≡◌, refl}
use mathlib.Core.Bool.{Bool, true, false}
use Prim.Native.Nat.{ℕ, zero, suc}
use r9x.Prelude.Lists.{take, drop}
use mathlib.Core.List.{List, [], ◌∷◌, ◌++◌}
use r9x.Prelude.Results.{Outcome, ok, err, panic, ◌>>=◌, ◌>>◌, fail_if}

module _ {ℓ κ} {E : Type ℓ} {A : Type κ} where
  abbrev pub Holds : (A → Type 0) → (E → Type 0) → Type 0 → Outcome E A → Type 0
  Holds P Q X (ok a) = P a
  Holds P Q X (err e) = Q e
  Holds P Q X panic = X

  -- `X` is what is known of a panic: `⊥` where there is none.
  pub record Post (P : A → Type 0) (Q : E → Type 0) (X : Type 0) (o : Outcome E A) : Type 0 where
    pub holds : Holds P Q X o

module _ {ℓ κ} {E : Type ℓ} {A : Type κ} {Q : E → Type 0} {X : Type 0} where
  pub bind-Post {μ} :
      {B : Type μ} {R : A → Type 0} {P : B → Type 0} (o : Outcome E A) (next : A → Outcome E B)
      → Post R Q X o
      → ((a : A) → R a → Post P Q X (next a))
      → Post P Q X (o >>= next)
  bind-Post (ok a) next h k = k a h.holds
  bind-Post (err e) next h k = record { holds = h.holds }
  bind-Post panic next h k = record { holds = h.holds }

  pub fail_if-Post :
      {P : A → Type 0} (next : Outcome E A) (b : Bool) (e : E)
      → (b ≡ true → Q e)
      → (b ≡ false → Post P Q X next)
      → Post P Q X (fail_if b e >> next)
  fail_if-Post next true e q k = record { holds = q refl }
  fail_if-Post next false e q k = k refl

-- A predicate on every element.
abbrev pub All {ℓ} : {A : Type ℓ} → (A → Type 0) → List A → Type 0
All P [] = Unit {0}
All P (x ∷ xs) = P x × All P xs

module _ {ℓ} {A : Type ℓ} where
  pub All-append : (P : A → Type 0) (xs ys : List A) → All P xs → All P ys → All P (xs ++ ys)
  All-append P [] ys h k = k
  All-append P (x ∷ xs) ys h k = (h.0, All-append P xs ys h.1 k)

  pub All-take : (P : A → Type 0) (n : ℕ) (xs : List A) → All P xs → All P (take n xs)
  All-take P zero xs h = tt
  All-take P (suc n) [] h = tt
  All-take P (suc n) (x ∷ xs) h = (h.0, All-take P n xs h.1)

  pub All-drop : (P : A → Type 0) (n : ℕ) (xs : List A) → All P xs → All P (drop n xs)
  All-drop P zero xs h = h
  All-drop P (suc n) [] h = tt
  All-drop P (suc n) (x ∷ xs) h = All-drop P n xs h.1

module _ {E : Type 0} {A : Type 0} where
  -- What a call returns is known by the equation.
  pub self-Post : (o : Outcome E A) → Post (λ a. o ≡ ok a) (λ e. Unit {0}) (Unit {0}) o
  self-Post (ok a) = record { holds = refl }
  self-Post (err e) = record { holds = tt }
  self-Post panic = record { holds = tt }
