-- ===== src/Timer/Tests.antt =====
-- aarch64/src/timer.rs: timers at concrete inputs.
use r9x.Prelude.{
  ℕ, ◌≡◌, refl, Bool, true, false, none, some, [], ◌∷◌, replicate, ok, panic, arith, Post,
}
use r9x.Timer
use r9x.Timer.{Timer, Timers, one_shot, periodic, start, register, earliest}
use r9x.Timer.Interrupt.{interrupt_handler}
use r9x.Timer.Interrupt.Quiet.{IsTimely}
use r9x.Timer.Interrupt.Settled.{IsSettled, interrupt_handler-IsSettled}
use r9x.Timer.Register.{Registers, register-Registers}
use r9x.Timer.Claims.{race_periodic, race_periodic-first}
use r9x.Timer.Intid.{timer_intid_from_dt, scan_cells, ReadsEntry, timer_intid_from_dt-ReadsEntry}

-- Every timer has a period of 100 ticks and is due at 1000.
abbrev ticking : Timer
ticking = record {
  duration = 100;
  repeat = true;
  deadline_ticks = 1000;
  period_ticks = 100;
  active = true;
}

abbrev one_ticking : Timers
one_ticking = record {
  timers = λ id. ticking;
  table = some 0 ∷ replicate 7 none;
  armed = some 1000;
}

-- A callback that goes on and leaves the timers alone.
abbrev goes_on : ℕ → Timers → Bool × Timers
goes_on id st = (true, st)

ticking-IsTimely : IsTimely 1250 ticking
ticking-IsTimely = record { ticks = λ e. omega arith; bounded = omega arith }

interrupt_handler-IsSettled_example :
    Post (IsSettled 1250) (λ e. ⊥) ⊥ (interrupt_handler goes_on 1250 one_ticking)
interrupt_handler-IsSettled_example =
    interrupt_handler-IsSettled goes_on 1250 one_ticking (λ id s. refl) (λ id. ticking-IsTimely)

register-Registers_example :
    Registers one_ticking.timers 5 one_ticking.table
      (register one_ticking.timers 5 one_ticking.table)
register-Registers_example = register-Registers one_ticking.timers 5 one_ticking.table

race_periodic-first_example :
    race_periodic 1000 (1300 ∷ 1300 ∷ 1400 ∷ []) ticking ≡ true ∷ false ∷ false ∷ []
race_periodic-first_example = race_periodic-first ticking 1300 (1300 ∷ 1400 ∷ []) (omega arith)

timer_intid_from_dt-ReadsEntry_example : ReadsEntry (some 1) (some 14) (
    timer_intid_from_dt
      (some (record { has_names = false; interrupts = some (1 ∷ 13 ∷ 4 ∷ 1 ∷ 14 ∷ 4 ∷ []) })))
timer_intid_from_dt-ReadsEntry_example =
    timer_intid_from_dt-ReadsEntry (1 ∷ 13 ∷ 4 ∷ 1 ∷ 14 ∷ 4 ∷ [])

-- The largest number of a local interrupt.
largest_intid :
    timer_intid_from_dt
      (some (record { has_names = false; interrupts = some (1 ∷ 13 ∷ 4 ∷ 1 ∷ 15 ∷ []) }))
    ≡ ok 31
unfolding timer_intid_from_dt scan_cells
largest_intid = refl

-- A periodic timer whose period is below a tick.
start_panics : start 1000 50 0 (record one_ticking { timers = λ id. periodic 1 }) ≡ panic
unfolding start Timer.duration_to_ticks
start_panics = refl
