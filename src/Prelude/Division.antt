-- ===== src/Prelude/Division.antt =====
-- Division by a variable: the quotient and the remainder of a number that is given by them.
use native.Mathlib.Nat.{div-eq_of_lt-le, mod-eq-sub-div-mul, div-add-mod', mod-lt}
use mathlib.Core.Path.{◌≡◌, ap, ◌∙◌}
use Prim.Native.Nat.{ℕ, ◌+◌, ◌*◌, ◌/◌, ◌%◌, ◌≤◌, ◌<◌}
use native.Mathlib.Omega.{arith}

module _ (m x r : ℕ) (h : r < m) where
  pub quotient_of : (x * m + r) / m ≡ x
  quotient_of = div-eq_of_lt-le m (omega arith) (omega arith)

  pub remainder_of : (x * m + r) % m ≡ r
  remainder_of = omega (arith, mod-eq-sub-div-mul (x * m + r) m, ap (λ t. t * m) quotient_of)

-- Counting on by one stays in the row, or starts the next.
module _ (m n : ℕ) (h : 0 < m) where
  pub div-mod_split : n / m * m + n % m ≡ n
  div-mod_split = div-add-mod' n m

  pub same_row : n % m + 1 < m → ((n + 1) / m ≡ n / m) × ((n + 1) % m ≡ n % m + 1)
  same_row lt =
      let e : n + 1 ≡ n / m * m + (n % m + 1) = omega (arith, div-mod_split) in
      (
        ap (λ t. t / m) e ∙ quotient_of m (n / m) (n % m + 1) lt,
        ap (λ t. t % m) e ∙ remainder_of m (n / m) (n % m + 1) lt,
      )

  pub next_row : m ≤ n % m + 1 → ((n + 1) / m ≡ n / m + 1) × ((n + 1) % m ≡ 0)
  next_row ge =
      let e : n + 1 ≡ (n / m + 1) * m + 0 = omega (arith, div-mod_split, mod-lt n h) in
      (
        ap (λ t. t / m) e ∙ quotient_of m (n / m + 1) 0 h,
        ap (λ t. t % m) e ∙ remainder_of m (n / m + 1) 0 h,
      )
