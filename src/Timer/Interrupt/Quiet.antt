-- ===== src/Timer/Interrupt/Quiet.antt =====
-- aarch64/src/timer.rs: the round of the handler for one timer, with callbacks that leave the timers
-- alone.
use native.Mathlib.Nat.{mod-lt, div-le_self}
use r9x.Prelude.{
  ℕ, ◌+◌, ◌-◌, ◌*◌, ◌/◌, ◌^◌, ◌<◌, ◌≤◌, ◌≡◌, ◌≢◌, refl, sym, subst, ◌∙◌, Bool, true, false, Outcome,
  ◌==◌, ltb, arith, Post, bind-Post, Bool-cases, inl, inr, ℕ_discrete,
}
use r9x.Prelude.Division.{div-mod_split}
use r9x.Timer.{Timer, Timers, with_timer, write, cancel}
use r9x.Timer.Interrupt.{
  claim_one_shot, claim_periodic, next_deadline, fire_claimed, keep, fire_repeating, fire_once,
  fire_due, visit,
}

-- A timer that is inactive or has its deadline ahead.
abbrev pub IsAhead : ℕ → Timer → Type 0
IsAhead now t = t.active ≡ true → now < t.deadline_ticks

-- A period is at least one tick, as `start` asserts, and the next deadline is a 64-bit number.
pub record IsTimely (now : ℕ) (t : Timer) : Type 0 where
  pub ticks : t.repeat ≡ true → 0 < t.period_ticks
  pub bounded : now + t.period_ticks < 2 ^ 64

abbrev pub Returns : {A : Type 0} → (A → Type 0) → Outcome (Unit {0}) A → Type 0
Returns P o = Post P (λ e. ⊥) ⊥ o

next_deadline-Returns :
    (now deadline period : ℕ)
    → deadline ≤ now
    → 0 < period
    → now + period < 2 ^ 64
    → Returns (λ next. now < next) (next_deadline now deadline period)
unfolding next_deadline
next_deadline-Returns now deadline period past pos fits =
    let q = (now - deadline) / period in
    let below : q * period ≤ now - deadline =
      omega (arith, div-mod_split period (now - deadline) pos) in
    let above : now - deadline < (q + 1) * period =
      omega (arith, div-mod_split period (now - deadline) pos, mod-lt (now - deadline) pos) in
    let top : (q + 1) * period ≡ q * period + period = omega arith in
    let some_ticks : (period == 0) ≡ false = ground (arith, pos) in
    let e₁ : ltb (q + 1) (2 ^ 64) ≡ true =
      ground (arith, div-le_self (now - deadline) period, fits, pos) in
    let e₂ : ltb ((q + 1) * period) (2 ^ 64) ≡ true = ground (arith, top, below, fits) in
    let e₃ : ltb (deadline + (q + 1) * period) (2 ^ 64) ≡ true =
      ground (arith, top, below, fits, past) in
    rw (next_deadline, some_ticks, e₁, e₂, e₃) (record { holds = omega (arith, above, past) })

module _ (timers : ℕ → Timer) (id : ℕ) (t : Timer) where
  with_timer_self : with_timer timers id t id ≡ t
  unfolding with_timer
  with_timer_self = let e : (id == id) ≡ true = ground arith in rw e refl

  with_timer_other : (other : ℕ) → other ≢ id → with_timer timers id t other ≡ timers other
  unfolding with_timer
  with_timer_other other ne = let e : (other == id) ≡ false = ground (arith, ne) in rw e refl

-- What a round of the loop does to the timers: its own is not due afterwards, and no other becomes due.
pub record Settles (now id : ℕ) (st st₁ : Timers) : Type 0 where
  pub same_table : st₁.table ≡ st.table
  pub ahead : IsAhead now (st₁.timers id)
  pub stay_ahead : (j : ℕ) → IsAhead now (st.timers j) → IsAhead now (st₁.timers j)
  pub timely : ((j : ℕ) → IsTimely now (st.timers j)) → (j : ℕ) → IsTimely now (st₁.timers j)

write-Settles :
    (now id : ℕ) (st : Timers) (t : Timer)
    → IsAhead now t
    → t.repeat ≡ (st.timers id).repeat
    → t.period_ticks ≡ (st.timers id).period_ticks
    → Settles now id st (write st id t)
write-Settles now id st t ahead r p = record {
  same_table = refl;
  ahead = here;
  stay_ahead = λ j h. elim (ℕ_discrete j id) [
    | yes e ↦ subst (λ k. IsAhead now ((write st id t).timers k)) (sym e) here
    | no ne ↦ subst (IsAhead now) (sym (with_timer_other st.timers id t j ne)) h
  ];
  timely = λ all j. elim (ℕ_discrete j id) [
    | yes e ↦
        subst (λ k. IsTimely now ((write st id t).timers k)) (sym e)
          (subst (IsTimely now) (sym (with_timer_self st.timers id t)) (kept (all id)))
    | no ne ↦ subst (IsTimely now) (sym (with_timer_other st.timers id t j ne)) (all j)
  ];
}
  where
    here : IsAhead now ((write st id t).timers id)
    here = subst (IsAhead now) (sym (with_timer_self st.timers id t)) ahead

    kept : IsTimely now (st.timers id) → IsTimely now t
    kept v = record {
      ticks = λ q. omega (arith, p, v.ticks (sym r ∙ q));
      bounded = omega (arith, p, v.bounded);
    }

Settles-twice :
    {now id : ℕ} {st st₁ st₂ : Timers}
    → Settles now id st st₁
    → Settles now id st₁ st₂
    → Settles now id st st₂
Settles-twice h k = record {
  same_table = k.same_table ∙ h.same_table;
  ahead = k.ahead;
  stay_ahead = λ j a. k.stay_ahead j (h.stay_ahead j a);
  timely = λ all. k.timely (h.timely all);
}

cancel-Settles : (now id : ℕ) (st : Timers) → Settles now id st (cancel id st)
cancel-Settles now id st =
    write-Settles now id st (record (st.timers id) { active = false }) (λ a. absurd (clash a)) refl
      refl
  where
    clash : false ≢ true
    clash a = cc

module _ (fire : ℕ → Timers → Bool × Timers) (quiet : (id : ℕ) (st : Timers) → (fire id st).1 ≡ st)
    (now id : ℕ) (st : Timers) where
  keep-Settles :
      (st₁ : Timers) (r : Bool × Timers)
      → r.1 ≡ st₁
      → Settles now id st st₁
      → Settles now id st (keep fire id r)
  keep-Settles st₁ (true, s) e h = subst (Settles now id st) (sym e) h
  keep-Settles st₁ (false, s) e h =
      Settles-twice (subst (Settles now id st) (sym e) h) (cancel-Settles now id s)

  fire_repeating-Settles :
      (st.timers id).deadline_ticks ≤ now
      → (st.timers id).repeat ≡ true
      → IsTimely now (st.timers id)
      → Returns (Settles now id st) (fire_repeating fire now id st)
  unfolding fire_repeating claim_periodic
  fire_repeating-Settles due e v =
      bind-Post (next_deadline now (st.timers id).deadline_ticks (st.timers id).period_ticks) _
        (next_deadline-Returns now (st.timers id).deadline_ticks (st.timers id).period_ticks due
          (v.ticks e) v.bounded)
        (λ next later.
          rw (claim_periodic, same)
            (record {
              holds =
                  keep-Settles _
                    (fire id (write st id (record (st.timers id) { deadline_ticks = next })))
                    (quiet id _)
                    (write-Settles now id st (record (st.timers id) { deadline_ticks = next })
                      (λ a. later) refl refl);
            }))
    where
      same : ((st.timers id).deadline_ticks == (st.timers id).deadline_ticks) ≡ true
      same = ground arith

  fire_once-Settles : Settles now id st (fire_once fire id st)
  unfolding fire_once claim_one_shot
  fire_once-Settles = swapped (st.timers id).active
    where
      swapped :
          (b : Bool)
          → Settles now id st
              (fire_claimed fire id (write st id (record (st.timers id) { active = false })) b)
      swapped true = subst (Settles now id st) (sym (quiet id _)) (cancel-Settles now id st)
      swapped false = cancel-Settles now id st

  fire_due-Settles :
      (st.timers id).deadline_ticks ≤ now
      → IsTimely now (st.timers id)
      → Returns (Settles now id st) (fire_due fire now id st)
  fire_due-Settles due v = elim (Bool-cases (st.timers id).repeat) [
    | inl e ↦ rw e (fire_repeating-Settles due e v)
    | inr e ↦ rw e (record { holds = fire_once-Settles })
  ]

  pub visit-Settles :
      IsTimely now (st.timers id) → Returns (Settles now id st) (visit fire now id st)
  unfolding visit
  visit-Settles v = elim (Bool-cases (st.timers id).active) [
    | inr e ↦ rw (visit, e) (record { holds = unchanged (λ a. absurd (clash _ a e)) })
    | inl e ↦ elim (Bool-cases (ltb now (st.timers id).deadline_ticks)) [
      | inl f ↦ rw (visit, e, f) (record { holds = unchanged (λ a. ground (arith, f)) })
      | inr f ↦ rw (visit, e, f) (fire_due-Settles (ground (arith, f)) v)
    ]
  ]
    where
      clash : (b : Bool) → b ≡ true → b ≡ false → ⊥
      clash b e f = cc

      unchanged : IsAhead now (st.timers id) → Settles now id st st
      unchanged a = record {
        same_table = refl;
        ahead = a;
        stay_ahead = λ j h. h;
        timely = λ all. all;
      }
