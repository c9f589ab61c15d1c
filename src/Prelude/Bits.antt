-- ===== src/Prelude/Bits.antt =====
-- Words and their bits: overflow-checked arithmetic, and `&` with a mask of high bits, at every width.
use Prim.Native.Nat.{digits, bit_and, bit_and-bitwise}
use native.Mathlib.Nat.{
  pow-suc, one-le-pow, add-zero, add-suc, mul_comm, div-div-eq-div-mul, div-lt_iff_lt-mul,
}
use mathlib.Core.Path.{◌≡◌, refl, sym, ap, ◌∙◌}
use mathlib.Core.Bool.{Bool, true, false, ◌||◌}
use Prim.Native.Nat.{ℕ, zero, suc, ◌+◌, ◌-◌, ◌*◌, ◌/◌, ◌%◌, ◌^◌, ◌≤◌, ◌<◌, min}
use native.Mathlib.Omega.{arith}
use r9x.Prelude.Tests.{◌==◌, ltb, if◌then◌else◌}
use r9x.Prelude.Results.{Outcome, ok, panic}

-- Arithmetic on `u64` and on the 64-bit `usize`: both profiles of the build check for overflow.
module _ {ℓ} {E : Type ℓ} where
  abbrev pub add_u64 : ℕ → ℕ → Outcome E ℕ
  add_u64 a b = if ltb (a + b) (2 ^ 64) then ok (a + b) else panic

  abbrev pub sub_u64 : ℕ → ℕ → Outcome E ℕ
  sub_u64 a b = if ltb a b then panic else ok (a - b)

  abbrev pub mul_u64 : ℕ → ℕ → Outcome E ℕ
  mul_u64 a b = if ltb (a * b) (2 ^ 64) then ok (a * b) else panic

-- `!n` on a `u64`
abbrev pub not_u64 : ℕ → ℕ
not_u64 n = 2 ^ 64 - 1 - n

-- Whether `n` is `2 ^ k` for some `k` below `bits`.
unfoldable pub is_power_below : ℕ → ℕ → Bool
is_power_below zero n = false
is_power_below (suc k) n = n == 2 ^ k || is_power_below k n

pub is_power_below_pow : (bits k : ℕ) → k < bits → is_power_below bits (2 ^ k) ≡ true
unfolding is_power_below
is_power_below_pow zero k h = absurd (omega arith)
is_power_below_pow (suc b) k h = ground (arith, is_power_below_pow b k)

-- The digits of a number do not depend on the count that the recursion is given, if it suffices.
digits_count :
    (z : ℕ → ℕ) (f : ℕ → ℕ → ℕ) (n m a b : ℕ) → a ≤ n → a ≤ m → digits z f n a b ≡ digits z f m a b
digits_count z f zero zero a b p q = refl
digits_count z f zero (suc m) zero b p q = refl
digits_count z f zero (suc m) (suc a) b p q = absurd (omega arith)
digits_count z f (suc n) zero zero b p q = refl
digits_count z f (suc n) zero (suc a) b p q = absurd (omega arith)
digits_count z f (suc n) (suc m) zero b p q = refl
digits_count z f (suc n) (suc m) (suc a) b p q =
    ap (λ r. r * 2 + f (suc a % 2) (b % 2))
      (digits_count z f n m (suc a / 2) (b / 2) (omega arith) (omega arith))

-- The lowest digit apart.
and_split : (a b : ℕ) → bit_and a b ≡ bit_and (a / 2) (b / 2) * 2 + min (a % 2) (b % 2)
and_split zero b = omega (arith, bit_and-bitwise 0 b, bit_and-bitwise 0 (b / 2))
and_split (suc a) b = omega (
  arith,
  bit_and-bitwise (suc a) b,
  bit_and-bitwise (suc a / 2) (b / 2),
  digits_count (λ b. zero) min a (suc a / 2) (suc a / 2) (b / 2) (omega arith) (omega arith),
)

and_ones : (w a : ℕ) → a < 2 ^ w → bit_and a (2 ^ w - 1) ≡ a
and_ones zero zero h = refl
and_ones zero (suc a) h = absurd (omega arith)
and_ones (suc w) a h = omega (
  arith,
  and_split a (2 ^ suc w - 1),
  pow-suc 2 w,
  one-le-pow w 2,
  and_ones w (a / 2) (omega (arith, pow-suc 2 w)),
  ap (bit_and (a / 2)) (half w),
)
  where
    half : (w : ℕ) → (2 ^ suc w - 1) / 2 ≡ 2 ^ w - 1
    half w = omega (arith, pow-suc 2 w, one-le-pow w 2)

-- A mask shifted left is applied to the number shifted right.
and_shifted : (k a m : ℕ) → bit_and a (m * 2 ^ k) ≡ bit_and (a / 2 ^ k) m * 2 ^ k
and_shifted zero a m =
    let e : m * 2 ^ 0 ≡ m = omega arith in
    let d : a / 2 ^ 0 ≡ a = omega arith in omega (arith, ap (bit_and a) e, ap (λ t. bit_and t m) d)
and_shifted (suc k) a m = omega (
  arith,
  and_split a (m * 2 ^ suc k),
  twice,
  ap (bit_and (a / 2)) half,
  and_shifted k (a / 2) m,
  ap (λ t. bit_and t m * 2 ^ k)
      (div-div-eq-div-mul a 2 (2 ^ k) ∙ ap (◌/◌ a) (mul_comm 2 (2 ^ k) ∙ sym (pow-suc 2 k))),
  ap (λ t. bit_and (a / 2 ^ suc k) m * t) (pow-suc 2 k),
)
  where
    twice : m * 2 ^ suc k ≡ m * 2 ^ k * 2
    twice = omega (arith, ap (◌*◌ m) (pow-suc 2 k))

    half : m * 2 ^ suc k / 2 ≡ m * 2 ^ k
    half = omega (arith, twice)

pub pow-add : (w k : ℕ) → 2 ^ (w + k) ≡ 2 ^ w * 2 ^ k
pow-add w zero = omega (arith, ap (λ t. 2 ^ t) (add-zero w))
pow-add w (suc k) = omega (
  arith,
  ap (λ t. 2 ^ t) (add-suc w k),
  pow-suc 2 (w + k),
  pow-add w k,
  ap (◌*◌ (2 ^ w)) (pow-suc 2 k),
)

-- `n & !(2 ^ k - 1)` rounds down to a multiple of `2 ^ k`.
pub and_align :
    (k a : ℕ) → k ≤ 64 → a < 2 ^ 64 → bit_and a (not_u64 (2 ^ k - 1)) ≡ a / 2 ^ k * 2 ^ k
and_align k a hk ha =
    ap (bit_and a) mask
    ∙ and_shifted k a (2 ^ (64 - k) - 1)
    ∙ ap (λ t. t * 2 ^ k)
        (and_ones (64 - k) (a / 2 ^ k)
          ((div-lt_iff_lt-mul (one-le-pow k 2 (omega arith))).1 (omega (arith, whole))))
  where
    whole : 2 ^ (64 - k) * 2 ^ k ≡ 2 ^ 64
    whole = let e : 64 - k + k ≡ 64 = omega arith in sym (pow-add (64 - k) k) ∙ ap (λ t. 2 ^ t) e

    top : 2 ^ (64 - k) ≡ 2 ^ (64 - k) - 1 + 1
    top = omega (arith, one-le-pow (64 - k) 2)

    mask : not_u64 (2 ^ k - 1) ≡ (2 ^ (64 - k) - 1) * 2 ^ k
    mask = omega (arith, whole, one-le-pow k 2, ap (λ q. q * 2 ^ k) top)
