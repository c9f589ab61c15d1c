-- ===== src/Timer.antt =====
-- aarch64/src/timer.rs: timers that fire from the interrupt of the processor's timer. A timer is
-- known by a number, for the reference to it; the table of timers and the timers themselves are
-- shared by the callers and by the interrupt.
pub mod Interrupt
pub mod Register
pub mod Earliest
pub mod Claims
pub mod Intid
mod Tests
use r9x.Prelude.{
  ℕ, zero, suc, ◌+◌, ◌-◌, ◌*◌, ◌/◌, ◌%◌, ◌^◌, min, Bool, true, false, not, ◌&&◌, ◌||◌, Option, none,
  some, List, [], ◌∷◌, replicate, get_elem?, Outcome, ok, err, panic, ◌>>=◌, ◌>>◌, fail_if, add_u64,
  mul_u64, ◌==◌, ltb, leb, if◌then◌else◌,
}

-- `duration` in nanoseconds.
pub record Timer : Type 0 where
  pub duration : ℕ
  pub repeat : Bool
  pub deadline_ticks : ℕ
  pub period_ticks : ℕ
  pub active : Bool

-- `Timer::new`
abbrev pub one_shot : ℕ → Timer
one_shot relative = record {
  duration = relative;
  repeat = false;
  deadline_ticks = 0;
  period_ticks = 0;
  active = false;
}

abbrev pub periodic : ℕ → Timer
periodic period = record (one_shot period) { repeat = true }

abbrev pub max_timers : ℕ
max_timers = 8

-- The timers, `TIMERS`, and the deadline for which the hardware is armed, if it is enabled.
pub record Timers : Type 0 where
  pub timers : ℕ → Timer
  pub table : List (Option ℕ)
  pub armed : Option ℕ

-- A store to the fields of one timer.
unfoldable pub with_timer : (ℕ → Timer) → ℕ → Timer → ℕ → Timer
with_timer timers id t other = if other == id then t else timers other

abbrev pub write : Timers → ℕ → Timer → Timers
write st id t = record st { timers = with_timer st.timers id t }

-- `cancel`
abbrev pub cancel : ℕ → Timers → Timers
cancel id st = write st id (record (st.timers id) { active = false })

abbrev pub holds_timer : ℕ → Option ℕ → Bool
holds_timer id none = false
holds_timer id (some other) = other == id

-- `timers.iter().flatten().any(|t| ptr::eq(*t, timer))`
unfoldable pub is_registered : ℕ → List (Option ℕ) → Bool
is_registered id [] = false
is_registered id (slot ∷ slots) = holds_timer id slot || is_registered id slots

abbrev pub is_reclaimable : (ℕ → Timer) → Option ℕ → Bool
is_reclaimable timers none = true
is_reclaimable timers (some id) = not (timers id).active

abbrev pub after_slot : Option ℕ → Option (List (Option ℕ)) → Option (List (Option ℕ))
after_slot slot none = none
after_slot slot (some slots) = some (slot ∷ slots)

-- The first slot with no active timer is taken.
unfoldable pub take_slot : (ℕ → Timer) → ℕ → List (Option ℕ) → Option (List (Option ℕ))
take_slot timers id [] = none
take_slot timers id (slot ∷ slots) =
    let rest = take_slot timers id slots in
    if is_reclaimable timers slot then some (some id ∷ slots) else after_slot slot rest

-- `register`: the table after it, or none if it is full.
unfoldable pub register : (ℕ → Timer) → ℕ → List (Option ℕ) → Option (List (Option ℕ))
register timers id table = if is_registered id table then some table else take_slot timers id table

-- The deadline of an active timer.
abbrev pub deadline_of : (ℕ → Timer) → Option ℕ → Option ℕ
deadline_of timers none = none
deadline_of timers (some id) = if (timers id).active then some (timers id).deadline_ticks else none

abbrev pub least : Option ℕ → Option ℕ → Option ℕ
least none o = o
least (some a) none = some a
least (some a) (some b) = some (min a b)

-- The minimum of the deadlines of the active timers.
unfoldable pub earliest : (ℕ → Timer) → List (Option ℕ) → Option ℕ
earliest timers [] = none
earliest timers (slot ∷ slots) = least (deadline_of timers slot) (earliest timers slots)

-- `arm_hardware`
unfoldable pub arm_hardware : Timers → Timers
arm_hardware st = record st { armed = earliest st.timers st.table }

-- `duration_to_ticks` at the frequency of the counter. The product fits in 128 bits for a frequency
-- of 32 bits, and the quotient is cut to 64 bits.
unfoldable pub duration_to_ticks : ℕ → ℕ → Outcome Timers ℕ
duration_to_ticks freq nanos =
    if freq == 0 then panic else ok (nanos * freq / 1_000_000_000 % 2 ^ 64)

-- The end of `start`: a timer that finds no slot is rolled back.
abbrev pub registered : Timers → ℕ → Option (List (Option ℕ)) → Outcome Timers Timers
registered st id none = err (cancel id st)
registered st id (some table) = ok (arm_hardware (record st { table = table }))

abbrev pub started : Timers → ℕ → ℕ → ℕ → Timers
started st id ticks deadline =
    write st id
      (record (st.timers id) { period_ticks = ticks; deadline_ticks = deadline; active = true })

-- `start` at the time `now`: an error comes with what it leaves.
unfoldable pub start : ℕ → ℕ → ℕ → Timers → Outcome Timers Timers
start freq now id st = duration_to_ticks freq (st.timers id).duration >>= λ ticks.
    (if (st.timers id).repeat && ticks == 0 then panic else add_u64 now ticks) >>= λ deadline.
    let st₁ = started st id ticks deadline in registered st₁ id (register st₁.timers id st₁.table)
