-- ===== src/Irq.antt =====
-- port/src/irq.rs: the depth of interrupts of each core.
pub mod Cores
mod Tests
use r9x.Prelude.{
  ℕ, ◌+◌, ◌-◌, ◌%◌, ◌^◌, Bool, true, false, ◌&&◌, Outcome, ok, panic, ◌>>=◌, ◌==◌, ltb,
  if◌then◌else◌,
}

abbrev pub max_cpus : ℕ
max_cpus = 16

-- `INTERRUPT_DEPTH`: the depth by core.
abbrev pub Depths : Type 0
Depths = ℕ → ℕ

-- `core()`, which asserts that the number of the core is in the table.
abbrev pub in_table : ℕ → Depths → Outcome (Unit {0}) Depths
in_table core depths = if ltb core max_cpus then ok depths else panic

unfoldable pub with_depth : Depths → ℕ → ℕ → Depths
with_depth depths core depth other = if other == core then depth else depths other

-- `fetch_add` and `fetch_sub` wrap around.
unfoldable pub enter_on : ℕ → Depths → Depths
enter_on core depths = with_depth depths core ((depths core + 1) % 2 ^ 64)

unfoldable pub exit_on : ℕ → Depths → Depths
exit_on core depths = with_depth depths core ((depths core + (2 ^ 64 - 1)) % 2 ^ 64)

unfoldable pub in_interrupt_on : ℕ → Depths → Bool
in_interrupt_on core depths = ltb 0 (depths core)

abbrev pub enter_interrupt : ℕ → Depths → Outcome (Unit {0}) Depths
enter_interrupt core depths = in_table core depths >>= λ d. ok (enter_on core d)

abbrev pub exit_interrupt : ℕ → Depths → Outcome (Unit {0}) Depths
exit_interrupt core depths = in_table core depths >>= λ d. ok (exit_on core d)

abbrev pub in_interrupt : ℕ → Depths → Outcome (Unit {0}) Bool
in_interrupt core depths = in_table core depths >>= λ d. ok (in_interrupt_on core d)
