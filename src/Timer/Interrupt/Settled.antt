-- ===== src/Timer/Interrupt/Settled.antt =====
-- aarch64/src/timer.rs: after the handler no timer is due, and the hardware is not armed for a time
-- that has come.
use r9x.Prelude.{
  ℕ, zero, suc, ◌<◌, ◌≡◌, refl, sym, ap, subst, ◌∙◌, Bool, true, false, Option, none, some, List,
  [], ◌∷◌, get_elem?, some_inj, some-none, Outcome, ok, err, panic, Post, bind-Post, All,
  Bool-cases, inl, inr,
}
use r9x.Timer.{Timer, Timers, arm_hardware, deadline_of, earliest}
use r9x.Timer.Earliest.{IsEarliest, earliest-IsEarliest}
use r9x.Timer.Interrupt.Quiet.{IsAhead, IsTimely, Returns, Settles, visit-Settles}
use r9x.Timer.Interrupt.{visit, visit_all, interrupt_handler}

-- The timer of a slot.
abbrev pub IsSlotAhead : ℕ → (ℕ → Timer) → Option ℕ → Type 0
IsSlotAhead now timers none = Unit {0}
IsSlotAhead now timers (some id) = IsAhead now (timers id)

-- What the loop does over the slots that it goes through.
record Visits (now : ℕ) (slots : List (Option ℕ)) (st st₁ : Timers) : Type 0 where
  same_table : st₁.table ≡ st.table
  settled : All (IsSlotAhead now st₁.timers) slots
  stay_ahead : (j : ℕ) → IsAhead now (st.timers j) → IsAhead now (st₁.timers j)

module _ (fire : ℕ → Timers → Bool × Timers) (quiet : (id : ℕ) (st : Timers) → (fire id st).1 ≡ st)
    (now : ℕ) where
  visit_all-Visits :
      (slots : List (Option ℕ)) (st : Timers)
      → ((j : ℕ) → IsTimely now (st.timers j))
      → Returns (Visits now slots st) (visit_all fire now slots st)
  unfolding visit_all
  visit_all-Visits [] st v = record {
    holds = record { same_table = refl; settled = tt; stay_ahead = λ j h. h };
  }
  visit_all-Visits (none ∷ slots) st v = none_first (visit_all-Visits slots st v)
    where
      none_first :
          {o : Outcome (Unit {0}) Timers}
          → Returns (Visits now slots st) o
          → Returns (Visits now (none ∷ slots) st) o
      none_first {o = ok st₁} h = record {
        holds = record {
          same_table = h.holds.same_table;
          settled = (tt, h.holds.settled);
          stay_ahead = h.holds.stay_ahead;
        };
      }
      none_first {o = err e} h = record { holds = h.holds }
      none_first {o = panic} h = record { holds = h.holds }
  visit_all-Visits (some id ∷ slots) st v =
      bind-Post (visit fire now id st) (visit_all fire now slots)
        (visit-Settles fire quiet now id st (v id))
        (λ st₁ h. some_first st₁ h (visit_all-Visits slots st₁ (h.timely v)))
    where
      some_first :
          {o : Outcome (Unit {0}) Timers} (st₁ : Timers)
          → Settles now id st st₁
          → Returns (Visits now slots st₁) o
          → Returns (Visits now (some id ∷ slots) st) o
      some_first {o = ok st₂} st₁ h k = record {
        holds = record {
          same_table = k.holds.same_table ∙ h.same_table;
          settled = (k.holds.stay_ahead id h.ahead, k.holds.settled);
          stay_ahead = λ j a. k.holds.stay_ahead j (h.stay_ahead j a);
        };
      }
      some_first {o = err e} st₁ h k = record { holds = k.holds }
      some_first {o = panic} st₁ h k = record { holds = k.holds }

-- The hardware is armed for the least deadline of the active timers in the table, if there is one, and
-- this is ahead.
pub record IsSettled (now : ℕ) (st : Timers) : Type 0 where
  pub none_due : All (IsSlotAhead now st.timers) st.table
  pub earliest_armed : IsEarliest st.timers st.table st.armed
  pub later : (d : ℕ) → st.armed ≡ some d → now < d

slot_ahead :
    (now : ℕ) (timers : ℕ → Timer) (table : List (Option ℕ)) (i d : ℕ) (slot : Option ℕ)
    → All (IsSlotAhead now timers) table
    → get_elem? table i ≡ some slot
    → deadline_of timers slot ≡ some d
    → now < d
slot_ahead now timers [] i d slot all e f = absurd (cc)
slot_ahead now timers (x ∷ table) (suc i) d slot all e f =
    slot_ahead now timers table i d slot all.1 e f
slot_ahead now timers (x ∷ table) zero d slot all e f =
    first x all.0 (ap (deadline_of timers) (some_inj _ refl e) ∙ f)
  where
    first : (o : Option ℕ) → IsSlotAhead now timers o → deadline_of timers o ≡ some d → now < d
    first none a g = absurd (cc)
    first (some id) a g = elim (Bool-cases (timers id).active) [
      | inl h ↦ subst (λ t. now < t) (some_inj (deadline_of timers (some id)) (unfolded h) g) (a h)
      | inr h ↦ absurd (some-none (deadline_of timers (some id)) g (idle h))
    ]
      where
        unfolded :
            (timers id).active ≡ true
            → deadline_of timers (some id) ≡ some (timers id).deadline_ticks
        unfolded h = rw h refl

        idle : (timers id).active ≡ false → deadline_of timers (some id) ≡ none
        idle h = rw h refl

armed-IsSettled :
    (now : ℕ) (st : Timers)
    → All (IsSlotAhead now st.timers) st.table
    → IsSettled now (arm_hardware st)
unfolding arm_hardware
armed-IsSettled now st all = record {
  none_due = all;
  earliest_armed = earliest-IsEarliest st.timers st.table;
  later = λ d e. ahead d e (earliest-IsEarliest st.timers st.table);
}
  where
    ahead :
        (d : ℕ)
        → earliest st.timers st.table ≡ some d
        → IsEarliest st.timers st.table (earliest st.timers st.table)
        → now < d
    ahead d e (IsEarliest.disarmed f _) = absurd (some-none _ e f)
    ahead d e (IsEarliest.armed_for x i slot f at g _) =
        slot_ahead now st.timers st.table i d slot all at (g ∙ sym f ∙ e)

-- With callbacks that leave the timers alone, periods of at least a tick and sums of the time and a
-- period below 2 ^ 64, `interrupt_handler` at the time now returns; then no active timer in the
-- table has a deadline that has come, and the hardware is armed for the least of their deadlines,
-- which is after now, or for none if none is active.
pub interrupt_handler-IsSettled :
    (fire : ℕ → Timers → Bool × Timers) (now : ℕ) (st : Timers)
    → ((id : ℕ) (s : Timers) → (fire id s).1 ≡ s)
    → ((id : ℕ) → IsTimely now (st.timers id))
    → Post (IsSettled now) (λ e. ⊥) ⊥ (interrupt_handler fire now st)
unfolding interrupt_handler
interrupt_handler-IsSettled fire now st quiet timely =
    bind-Post (visit_all fire now st.table st) (λ st₁. ok (arm_hardware st₁))
      (visit_all-Visits fire quiet now st.table st timely)
      (λ st₁ h. record {
        holds =
            armed-IsSettled now st₁
              (subst (All (IsSlotAhead now st₁.timers)) (sym h.same_table) h.settled);
      })
