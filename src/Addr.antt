-- ===== src/Addr.antt =====
-- core/src/addr.rs: rounding, `VirtRange`, `PhysAddr` and `PhysRange`. An address is the number that
-- a `u64` (or the 64-bit `usize`) holds, and arithmetic panics where it overflows.
pub mod Rounding
pub mod Virt
pub mod Phys
mod Witnesses
use Prim.Native.Nat.{bit_and}
use r9x.Prelude.{
  ℕ, zero, suc, ◌+◌, ◌-◌, ◌/◌, ◌^◌, min, max, Bool, ◌&&◌, Option, none, some, List, [], ◌∷◌,
  Outcome, ok, panic, ◌>>=◌, add_u64, sub_u64, not_u64, is_power_below, ltb, leb, ◌==◌,
  if◌then◌else◌,
}

abbrev pub page_size_4k : ℕ
page_size_4k = 4096

abbrev pub page_size_2m : ℕ
page_size_2m = 2097152

abbrev pub page_size_1g : ℕ
page_size_1g = 1073741824

-- `step.is_power_of_two()` of a `u64`
abbrev pub is_power_of_two : ℕ → Bool
is_power_of_two = is_power_below 64

module _ {ℓ} {E : Type ℓ} where
  -- `assert!(step.is_power_of_two()); (n + step - 1) & !(step - 1)`
  unfoldable pub round_up2_u64 : ℕ → ℕ → Outcome E ℕ
  round_up2_u64 n step =
      if is_power_of_two step
      then (add_u64 n step >>= λ sum. ok (bit_and (sum - 1) (not_u64 (step - 1))))
      else panic

  -- `assert!(step.is_power_of_two()); n & !(step - 1)`
  unfoldable pub round_down2_u64 : ℕ → ℕ → Outcome E ℕ
  round_down2_u64 n step =
      if is_power_of_two step then ok (bit_and n (not_u64 (step - 1))) else panic

pub record VirtRange : Type 0 where
  pub start : ℕ
  pub end : ℕ

pub record PhysRange : Type 0 where
  pub start : ℕ
  pub end : ℕ

-- `RegBlock` of core/src/fdt.rs
pub record RegBlock : Type 0 where
  pub addr : ℕ
  pub len : Option ℕ

abbrev pub len_or_zero : Option ℕ → ℕ
len_or_zero none = 0
len_or_zero (some n) = n
