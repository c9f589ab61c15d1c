-- ===== src/Timer/Register.antt =====
-- aarch64/src/timer.rs: the slot that `register` gives to a timer.
use r9x.Prelude.{
  ℕ, zero, suc, ◌<◌, ◌≡◌, ◌≢◌, inl, inr, refl, subst, ap, Bool, true, false, ◌||◌, Option, none,
  some, List, [], ◌∷◌, get_elem?, arith, Bool-cases, some_inj,
}
use r9x.Timer.{Timer, holds_timer, is_registered, is_reclaimable, after_slot, take_slot, register}

-- A slot of the table has the timer.
abbrev pub IsIn : ℕ → List (Option ℕ) → Type 0
IsIn id table = (i : ℕ) × (get_elem? table i ≡ some (some id))

holds_self : (id : ℕ) (slot : Option ℕ) → holds_timer id slot ≡ true → slot ≡ some id
holds_self id none h = absurd (cc)
holds_self id (some other) h = ground (arith, h)

self_holds : (id : ℕ) (slot : Option ℕ) → slot ≡ some id → holds_timer id slot ≡ true
self_holds id none h = absurd (cc)
self_holds id (some other) h = ground (arith, h)

is_registered-IsIn :
    (id : ℕ) (table : List (Option ℕ)) → is_registered id table ≡ true → IsIn id table
unfolding is_registered
is_registered-IsIn id [] h = absurd (cc)
is_registered-IsIn id (slot ∷ slots) h = elim (Bool-cases (holds_timer id slot)) [
  | inl e ↦ (0, ap some (holds_self id slot e))
  | inr e ↦ let (i, at) = is_registered-IsIn id slots (ground (arith, h, e)) in (suc i, at)
]

not_registered :
    (id : ℕ) (table : List (Option ℕ)) → is_registered id table ≡ false → ¬ IsIn id table
unfolding is_registered
not_registered id [] h (i, at) = absurd (cc)
not_registered id (slot ∷ slots) h (zero, at) =
    let e = self_holds id slot (some_inj _ refl at) in ground (arith, h, e)
not_registered id (slot ∷ slots) h (suc i, at) =
    not_registered id slots (tail_absent (holds_timer id slot) h) (i, at)
  where
    tail_absent : {b : Bool} (a : Bool) → (a || b) ≡ false → b ≡ false
    tail_absent true h = absurd (cc)
    tail_absent false h = h

module _ (timers : ℕ → Timer) where
  -- A slot that is empty, or whose timer is not active.
  pub data IsFree (slot : Option ℕ) : Type 0 where
    vacant : slot ≡ none → IsFree slot
    idle : (other : ℕ) → slot ≡ some other → (timers other).active ≡ false → IsFree slot

  -- A slot with an active timer.
  abbrev pub IsBusy : Option ℕ → Type 0
  IsBusy slot = (other : ℕ) × (slot ≡ some other) × ((timers other).active ≡ true)

  reclaimable-IsFree : (slot : Option ℕ) → is_reclaimable timers slot ≡ true → IsFree slot
  reclaimable-IsFree none h = vacant refl
  reclaimable-IsFree (some other) h = idle other refl (ground (arith, h))

  kept-IsBusy : (slot : Option ℕ) → is_reclaimable timers slot ≡ false → IsBusy slot
  kept-IsBusy none h = absurd (cc)
  kept-IsBusy (some other) h = (other, refl, ground (arith, h))

-- The slots of the table with an index that is `In`, are busy.
abbrev pub AllBusy : (ℕ → Timer) → List (Option ℕ) → (ℕ → Type 0) → Type 0
AllBusy timers table In =
    (j : ℕ) (slot : Option ℕ) → In j → get_elem? table j ≡ some slot → IsBusy timers slot

module _ (timers : ℕ → Timer) where
  busy-cons :
      (slot : Option ℕ) (slots : List (Option ℕ)) (In : ℕ → Type 0)
      → IsBusy timers slot
      → AllBusy timers slots (λ j. In (suc j))
      → AllBusy timers (slot ∷ slots) In
  busy-cons slot slots In first rest zero other h at =
      subst (IsBusy timers) (some_inj _ refl at) first
  busy-cons slot slots In first rest (suc j) other h at = rest j other h at

-- What the search for a slot gives: the first that is free, in which the timer is put, or none.
pub data TakesSlot (timers : ℕ → Timer) (id : ℕ) (before : List (Option ℕ))
    (o : Option (List (Option ℕ))) : Type 0 where
  takes :
      (after : List (Option ℕ)) (i : ℕ) (slot : Option ℕ)
      → o ≡ some after
      → get_elem? before i ≡ some slot
      → IsFree timers slot
      → AllBusy timers before (λ j. j < i)
      → get_elem? after i ≡ some (some id)
      → ((j : ℕ) → i ≢ j → get_elem? after j ≡ get_elem? before j)
      → TakesSlot timers id before o
  finds_none : o ≡ none → AllBusy timers before (λ j. Unit {0}) → TakesSlot timers id before o

module _ (timers : ℕ → Timer) (id : ℕ) where
  take_here :
      (slot : Option ℕ) (slots : List (Option ℕ))
      → is_reclaimable timers slot ≡ true
      → TakesSlot timers id (slot ∷ slots) (some (some id ∷ slots))
  take_here slot slots e =
      takes (some id ∷ slots) 0 slot refl refl (reclaimable-IsFree timers slot e)
        (λ j other lt at. absurd (omega (arith, lt))) refl others
    where
      others : (j : ℕ) → 0 ≢ j → get_elem? (some id ∷ slots) j ≡ get_elem? (slot ∷ slots) j
      others zero ne = absurd (ne refl)
      others (suc j) ne = refl

  take_later :
      (slot : Option ℕ) (slots : List (Option ℕ)) (o : Option (List (Option ℕ)))
      → IsBusy timers slot
      → TakesSlot timers id slots o
      → TakesSlot timers id (slot ∷ slots) (after_slot slot o)
  take_later slot slots o busy (finds_none f all) =
      rw f (finds_none refl (busy-cons timers slot slots (λ j. Unit {0}) busy all))
  take_later slot slots o busy (takes after i old f at free before now rest) = rw f (
      takes (slot ∷ after) (suc i) old refl at free
        (busy-cons timers slot slots (λ j. j < suc i) busy
          (λ j other lt there. before j other (omega (arith, lt)) there))
        now others)
    where
      others : (j : ℕ) → suc i ≢ j → get_elem? (slot ∷ after) j ≡ get_elem? (slot ∷ slots) j
      others zero ne = refl
      others (suc j) ne = rest j (λ h. ne (ap suc h))

  take_slot-TakesSlot :
      (table : List (Option ℕ)) → TakesSlot timers id table (take_slot timers id table)
  unfolding take_slot
  take_slot-TakesSlot [] = finds_none refl (λ j slot h at. absurd (cc))
  take_slot-TakesSlot (slot ∷ slots) = elim (Bool-cases (is_reclaimable timers slot)) [
    | inl e ↦ rw (take_slot, e) (take_here slot slots e)
    | inr e ↦
        rw (take_slot, e)
          (take_later slot slots (take_slot timers id slots) (kept-IsBusy timers slot e)
            (take_slot-TakesSlot slots))
  ]

pub data Registers (timers : ℕ → Timer) (id : ℕ) (table : List (Option ℕ))
    (o : Option (List (Option ℕ))) : Type 0 where
  stays : IsIn id table → o ≡ some table → Registers timers id table o
  searches : ¬ IsIn id table → TakesSlot timers id table o → Registers timers id table o

-- `register` leaves the table as it is if a slot has the timer. Else it gives the timer the first
-- slot that is empty or has a timer that is not active, and keeps all other slots; with no such slot
-- it finds the table full.
pub register-Registers :
    (timers : ℕ → Timer) (id : ℕ) (table : List (Option ℕ))
    → Registers timers id table (register timers id table)
unfolding register
register-Registers timers id table = elim (Bool-cases (is_registered id table)) [
  | inl e ↦ rw (register, e) (stays (is_registered-IsIn id table e) refl)
  | inr e ↦
      rw (register, e) (searches (not_registered id table e) (take_slot-TakesSlot timers id table))
]
