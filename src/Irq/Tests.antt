-- ===== src/Irq/Tests.antt =====
-- port/src/irq.rs: the test of the source.
use r9x.Prelude.{◌≡◌, refl, true, false, arith, ltb}
use r9x.Irq.{Depths, with_depth, enter_on, exit_on, in_interrupt_on}
use r9x.Irq.Cores.{History, booted, entered, entered_other, left_other, in_interrupt_on-History}

abbrev boot : Depths
boot = λ core. 0

depth_is_per_core :
    (in_interrupt_on 0 (enter_on 0 boot) ≡ true)
    × (in_interrupt_on 1 (enter_on 0 boot) ≡ false)
    × (in_interrupt_on 0 (exit_on 1 (enter_on 1 (enter_on 0 boot))) ≡ true)
    × (in_interrupt_on 1 (exit_on 1 (enter_on 1 (enter_on 0 boot))) ≡ false)
unfolding in_interrupt_on enter_on exit_on with_depth
depth_is_per_core = (refl, refl, refl, refl)

-- Core 0 is in an interrupt, and core 1 has been in one.
of_core_0 : History 0 (exit_on 1 (enter_on 1 (enter_on 0 boot))) 1
of_core_0 =
    left_other (enter_on 1 (enter_on 0 boot)) 1 1 (λ e. absurd (omega (arith, e)))
      (entered_other (enter_on 0 boot) 1 1 (λ e. absurd (omega (arith, e)))
        (entered boot 0 (omega arith) booted))

in_interrupt_on-History_example :
    (exit_on 1 (enter_on 1 (enter_on 0 boot)) 0 ≡ 1)
    × (in_interrupt_on 0 (exit_on 1 (enter_on 1 (enter_on 0 boot))) ≡ ltb 0 1)
in_interrupt_on-History_example = in_interrupt_on-History 0 of_core_0
