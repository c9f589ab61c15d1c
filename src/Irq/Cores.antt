-- ===== src/Irq/Cores.antt =====
-- port/src/irq.rs: interrupts of several cores, in any order.
use r9x.Prelude.{
  ℕ, suc, ◌+◌, ◌-◌, ◌%◌, ◌^◌, ◌<◌, ◌≡◌, ◌≢◌, refl, ap, ◌∙◌, true, false, ◌==◌, ltb, arith,
}
use r9x.Irq.{Depths, with_depth, enter_on, exit_on, in_interrupt_on}

-- A history of the depths: the start, and interrupts that a core enters, or leaves if it is in one. The
-- second number is how many the watched core is in.
pub data History (watched : ℕ) : Depths → ℕ → Type 0 where
  booted : History watched (λ core. 0) 0
  entered :
      (depths : Depths) (n : ℕ)
      → suc n < 2 ^ 64
      → History watched depths n
      → History watched (enter_on watched depths) (suc n)
  left :
      (depths : Depths) (n : ℕ)
      → History watched depths (suc n)
      → History watched (exit_on watched depths) n
  entered_other :
      (depths : Depths) (n core : ℕ)
      → core ≢ watched
      → History watched depths n
      → History watched (enter_on core depths) n
  left_other :
      (depths : Depths) (n core : ℕ)
      → core ≢ watched
      → History watched depths n
      → History watched (exit_on core depths) n

with_depth_self : (depths : Depths) (core n : ℕ) → with_depth depths core n core ≡ n
unfolding with_depth
with_depth_self depths core n = let e : (core == core) ≡ true = ground arith in rw e refl

with_depth_other :
    (depths : Depths) (core n c : ℕ) → core ≢ c → with_depth depths core n c ≡ depths c
unfolding with_depth
with_depth_other depths core n c ne = let e : (c == core) ≡ false = ground (arith, ne) in rw e refl

-- The depth, which stays a 64-bit number.
depth_counted :
    (watched : ℕ) {depths : Depths} {n : ℕ}
    → History watched depths n
    → (depths watched ≡ n) × (n < 2 ^ 64)
unfolding enter_on exit_on
depth_counted watched booted = (refl, omega arith)
depth_counted watched (entered depths n small h) =
    let (e, lt) = depth_counted watched h in
    (
      with_depth_self depths watched ((depths watched + 1) % 2 ^ 64) ∙ omega (arith, e, small),
      small,
    )
depth_counted watched (left depths n h) =
    let (e, lt) = depth_counted watched h in
    (
      with_depth_self depths watched ((depths watched + (2 ^ 64 - 1)) % 2 ^ 64)
          ∙ omega (arith, e, lt),
      omega (arith, lt),
    )
depth_counted watched (entered_other depths n core ne h) =
    let (e, lt) = depth_counted watched h in
    (with_depth_other depths core ((depths core + 1) % 2 ^ 64) watched ne ∙ e, lt)
depth_counted watched (left_other depths n core ne h) =
    let (e, lt) = depth_counted watched h in
    (with_depth_other depths core ((depths core + (2 ^ 64 - 1)) % 2 ^ 64) watched ne ∙ e, lt)

-- After any history of interrupts that the cores enter and leave, in which the watched core leaves
-- only those it is in and is in fewer than 2 ^ 64, the depth of the watched core is the number it
-- is in, and it is in an interrupt exactly if this is not 0, whatever the other cores do, even if
-- they leave more than they enter.
pub in_interrupt_on-History :
    (watched : ℕ) {depths : Depths} {n : ℕ}
    → History watched depths n
    → (depths watched ≡ n) × (in_interrupt_on watched depths ≡ ltb 0 n)
unfolding in_interrupt_on
in_interrupt_on-History watched h =
    ((depth_counted watched h).0, ap (ltb 0) (depth_counted watched h).0)
