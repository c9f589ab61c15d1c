-- ===== src/Addr/Witnesses.antt =====
-- core/src/addr.rs: the theorems at a page size.
use r9x.Prelude.{ℕ, ◌+◌, ◌%◌, ◌^◌, ◌≤◌, ◌<◌, ◌≡◌, ok, arith}
use r9x.Addr.{round_up2_u64, round_down2_u64}
use r9x.Addr.Rounding.{round_up2-above, round_down2-below}

round_up2-above_example :
    (m : ℕ) × (round_up2_u64 {E = Unit {0}} 5000 (2 ^ 12) ≡ ok m)
    × (m % 2 ^ 12 ≡ 0)
    × (5000 ≤ m)
    × (m < 5000 + 2 ^ 12)
round_up2-above_example = round_up2-above 12 5000 (omega arith) (omega arith)

round_down2-below_example :
    (m : ℕ) × (round_down2_u64 {E = Unit {0}} 5000 (2 ^ 12) ≡ ok m)
    × (m % 2 ^ 12 ≡ 0)
    × (m ≤ 5000)
    × (5000 < m + 2 ^ 12)
round_down2-below_example = round_down2-below 12 5000 (omega arith) (omega arith)
