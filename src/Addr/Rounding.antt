-- ===== src/Addr/Rounding.antt =====
-- core/src/addr.rs: what rounding gives. `k` is the exponent of the step.
use native.Mathlib.Nat.{mul_comm, mul-mod_right, one-le-pow, div-mul-le_self, lt-div-mul-add}
use r9x.Prelude.{
  ℕ, ◌+◌, ◌-◌, ◌*◌, ◌/◌, ◌%◌, ◌^◌, ◌≤◌, ◌<◌, ◌≡◌, ap, ◌∙◌, ok, panic, arith, is_power_below_pow,
  and_align, lt→ltb,
}
use r9x.Addr.{round_up2_u64, round_down2_u64}

multiple : (x m : ℕ) → x * m % m ≡ 0
multiple x m = ap (λ t. t % m) (mul_comm x m) ∙ mul-mod_right m x

module _ {ℓ} {E : Type ℓ} where
  pub round_down2-pow :
      (k n : ℕ) → k < 64 → n < 2 ^ 64 → round_down2_u64 {E = E} n (2 ^ k) ≡ ok (n / 2 ^ k * 2 ^ k)
  unfolding round_down2_u64
  round_down2-pow k n hk hn = rw (is_power_below_pow 64 k hk, and_align k n (omega arith) hn)

  pub round_up2-pow :
      (k n : ℕ)
      → k < 64
      → n + 2 ^ k < 2 ^ 64
      → round_up2_u64 {E = E} n (2 ^ k) ≡ ok ((n + 2 ^ k - 1) / 2 ^ k * 2 ^ k)
  unfolding round_up2_u64
  round_up2-pow k n hk hn =
      rw (is_power_below_pow 64 k hk, lt→ltb _ _ hn)
        (ap ok (and_align k (n + 2 ^ k - 1) (omega arith) (omega arith)))

  -- The overflow check: near the top of the address space rounding up panics.
  pub round_up2-panic :
      (k n : ℕ) → k < 64 → 2 ^ 64 ≤ n + 2 ^ k → round_up2_u64 {E = E} n (2 ^ k) ≡ panic
  unfolding round_up2_u64
  round_up2-panic k n hk hn = rw (is_power_below_pow 64 k hk) (ground arith)

  -- For a step 2 ^ k with k < 64 and a 64-bit number, rounding down returns a multiple of the step
  -- that is at most the number and less than a step below it.
  pub round_down2-below :
      (k n : ℕ)
      → k < 64
      → n < 2 ^ 64
      → (m : ℕ) × (round_down2_u64 {E = E} n (2 ^ k) ≡ ok m)
        × (m % 2 ^ k ≡ 0)
        × (m ≤ n)
        × (n < m + 2 ^ k)
  round_down2-below k n hk hn = (
    n / 2 ^ k * 2 ^ k,
    round_down2-pow k n hk hn,
    multiple _ _,
    div-mul-le_self n (2 ^ k),
    omega (arith, lt-div-mul-add {a = n} (one-le-pow k 2 (omega arith))),
  )

  -- For a step 2 ^ k with k < 64 and a number whose sum with the step fits in 64 bits, rounding up
  -- returns a multiple of the step that is at least the number and less than a step above it.
  pub round_up2-above :
      (k n : ℕ)
      → k < 64
      → n + 2 ^ k < 2 ^ 64
      → (m : ℕ) × (round_up2_u64 {E = E} n (2 ^ k) ≡ ok m)
        × (m % 2 ^ k ≡ 0)
        × (n ≤ m)
        × (m < n + 2 ^ k)
  round_up2-above k n hk hn = (
    (n + 2 ^ k - 1) / 2 ^ k * 2 ^ k,
    round_up2-pow k n hk hn,
    multiple _ _,
    omega (
      arith,
      one-le-pow k 2 (omega arith),
      lt-div-mul-add {a = n + 2 ^ k - 1} (one-le-pow k 2 (omega arith)),
    ),
    omega (arith, one-le-pow k 2 (omega arith), div-mul-le_self (n + 2 ^ k - 1) (2 ^ k)),
  )
