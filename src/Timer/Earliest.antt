-- ===== src/Timer/Earliest.antt =====
-- aarch64/src/timer.rs: the deadline for which `arm_hardware` arms the hardware.
use r9x.Prelude.{
  ℕ, suc, ◌≤◌, ◌≡◌, refl, min, Option, none, some, List, [], ◌∷◌, get_elem?, arith, All,
  Option-cases, dec_le, inl, inr,
}
use r9x.Timer.{Timer, deadline_of, least, earliest}

-- A deadline that is not before `d`, if there is one.
pub data NotBefore (d : ℕ) (o : Option ℕ) : Type 0 where
  idle : o ≡ none → NotBefore d o
  due_at : (e : ℕ) → o ≡ some e → d ≤ e → NotBefore d o

-- What the hardware is armed for: the least deadline of the active timers in the table, and nothing
-- if there is none.
pub data IsEarliest (timers : ℕ → Timer) (table : List (Option ℕ)) (o : Option ℕ) : Type 0 where
  disarmed :
      o ≡ none → All (λ slot. deadline_of timers slot ≡ none) table → IsEarliest timers table o
  armed_for :
      (d i : ℕ) (slot : Option ℕ)
      → o ≡ some d
      → get_elem? table i ≡ some slot
      → deadline_of timers slot ≡ some d
      → All (λ slot. NotBefore d (deadline_of timers slot)) table
      → IsEarliest timers table o

module _ (timers : ℕ → Timer) where
  idle_later :
      (d : ℕ) (table : List (Option ℕ))
      → All (λ slot. deadline_of timers slot ≡ none) table
      → All (λ slot. NotBefore d (deadline_of timers slot)) table
  idle_later d [] all = tt
  idle_later d (slot ∷ table) all = (idle all.0, idle_later d table all.1)

  lower :
      (d e : ℕ) (table : List (Option ℕ))
      → d ≤ e
      → All (λ slot. NotBefore e (deadline_of timers slot)) table
      → All (λ slot. NotBefore d (deadline_of timers slot)) table
  lower d e [] le all = tt
  lower d e (slot ∷ table) le all = (earlier all.0, lower d e table le all.1)
    where
      earlier : {o : Option ℕ} → NotBefore e o → NotBefore d o
      earlier (idle n) = idle n
      earlier (due_at x n h) = due_at x n (omega (arith, le, h))

  cons-IsEarliest :
      (slot : Option ℕ) (table : List (Option ℕ)) (o : Option ℕ)
      → IsEarliest timers table o
      → IsEarliest timers (slot ∷ table) (least (deadline_of timers slot) o)
  cons-IsEarliest slot table o (disarmed e all) = elim (Option-cases (deadline_of timers slot)) [
    | inl f ↦ rw (e, f) (disarmed refl (f, all))
    | inr (d, f) ↦
        rw (e, f)
          (armed_for d 0 slot refl refl f (due_at d f (omega arith), idle_later d table all))
  ]
  cons-IsEarliest slot table o (armed_for d i at e here f all) =
      elim (Option-cases (deadline_of timers slot)) [
        | inl g ↦ rw (e, g) (armed_for d (suc i) at refl here f (idle g, all))
        | inr (x, g) ↦ elim (dec_le x d) [
          | yes le ↦
              let least_here : min x d ≡ x = omega (arith, le) in
              rw (e, g, least_here)
                (armed_for x 0 slot refl refl g (due_at x g (omega arith), lower x d table le all))
          | no gt ↦
              let least_later : min x d ≡ d = omega (arith, gt) in
              rw (e, g, least_later)
                (armed_for d (suc i) at refl here f (due_at x g (omega (arith, gt)), all))
        ]
      ]

  pub earliest-IsEarliest :
      (table : List (Option ℕ)) → IsEarliest timers table (earliest timers table)
  unfolding earliest
  earliest-IsEarliest [] = disarmed refl tt
  earliest-IsEarliest (slot ∷ table) =
      cons-IsEarliest slot table (earliest timers table) (earliest-IsEarliest table)
