-- ===== src/Timer/Interrupt.antt =====
-- aarch64/src/timer.rs: `interrupt_handler`. A callback is a function of what it sees of the timers:
-- whether a periodic timer goes on, and what the callback leaves of them.
pub mod Quiet
pub mod Settled
use r9x.Prelude.{
  ℕ, ◌+◌, ◌-◌, ◌*◌, ◌/◌, Bool, true, false, not, Option, none, some, List, [], ◌∷◌, Outcome, ok,
  panic, ◌>>=◌, add_u64, mul_u64, ◌==◌, ltb, if◌then◌else◌,
}
use r9x.Timer.{Timer, Timers, write, cancel, arm_hardware}

-- `active.swap(false)`: who finds the flag set has claimed the timer.
unfoldable pub claim_one_shot : Timer → Bool × Timer
claim_one_shot t = (t.active, record t { active = false })

-- `deadline_ticks.compare_exchange(deadline, next)`
unfoldable pub claim_periodic : ℕ → ℕ → Timer → Bool × Timer
claim_periodic deadline next t =
    if t.deadline_ticks == deadline then (true, record t { deadline_ticks = next }) else (false, t)

-- The first deadline behind `now` of a period that does not lose the phase.
unfoldable pub next_deadline : ℕ → ℕ → ℕ → Outcome (Unit {0}) ℕ
next_deadline now deadline period =
    if period == 0
    then panic
    else (add_u64 ((now - deadline) / period) 1 >>= λ n.
        mul_u64 n period >>= λ past. add_u64 deadline past)

module _ (fire : ℕ → Timers → Bool × Timers) where
  abbrev pub fire_claimed : ℕ → Timers → Bool → Timers
  fire_claimed id st false = st
  fire_claimed id st true = (fire id st).1

  -- A callback of a periodic timer that returns false ends it.
  abbrev pub keep : ℕ → Bool × Timers → Timers
  keep id (true, st) = st
  keep id (false, st) = cancel id st

  abbrev pub fire_periodic : ℕ → Timers → Bool → Timers
  fire_periodic id st false = st
  fire_periodic id st true = keep id (fire id st)

  unfoldable pub fire_repeating : ℕ → ℕ → Timers → Outcome (Unit {0}) Timers
  fire_repeating now id st =
      let t = st.timers id in
      next_deadline now t.deadline_ticks t.period_ticks >>= λ next.
      let claim = claim_periodic t.deadline_ticks next t in
      ok (fire_periodic id (write st id claim.1) claim.0)

  unfoldable pub fire_once : ℕ → Timers → Timers
  fire_once id st =
      let claim = claim_one_shot (st.timers id) in fire_claimed id (write st id claim.1) claim.0

  abbrev pub fire_due : ℕ → ℕ → Timers → Outcome (Unit {0}) Timers
  fire_due now id st =
      if (st.timers id).repeat then fire_repeating now id st else ok (fire_once id st)

  -- The round of the loop for one timer.
  unfoldable pub visit : ℕ → ℕ → Timers → Outcome (Unit {0}) Timers
  visit now id st =
      if not (st.timers id).active
      then ok st
      else (if ltb now (st.timers id).deadline_ticks then ok st else fire_due now id st)

  unfoldable pub visit_all : ℕ → List (Option ℕ) → Timers → Outcome (Unit {0}) Timers
  visit_all now [] st = ok st
  visit_all now (none ∷ slots) st = visit_all now slots st
  visit_all now (some id ∷ slots) st = visit now id st >>= visit_all now slots

  -- `interrupt_handler`: it goes through the table as it was at the start.
  unfoldable pub interrupt_handler : ℕ → Timers → Outcome (Unit {0}) Timers
  interrupt_handler now st = visit_all now st.table st >>= λ st₁. ok (arm_hardware st₁)
