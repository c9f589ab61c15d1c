-- ===== src/Proc/Pick/Choice.antt =====
-- aarch64/src/process.rs: the slot that `pick_next` chooses.
use r9x.Prelude.{
  ℕ, zero, suc, ◌+◌, ◌≤◌, ◌<◌, ◌≡◌, refl, sym, subst, Bool, true, false, ◌&&◌, Option, none, some,
  List, [], ◌∷◌, length, get_elem?, ==_iff, Option-cases, inl, inr, arith,
}
use r9x.Proc.{State}
use r9x.Proc.Pick.{ready, best_from, is_best, scan, picked, pick_next}
use r9x.Proc.Pick.Levels.{Best, nobody, level, best_from-Best}
use r9x.Proc.Pick.Rounds.{scan-test, scan_complete, reached}

-- What the scheduler is to choose.
pub data Picks (slots : List (State × ℕ)) (current : ℕ) : Option ℕ → Type 0 where
  chosen :
      (i : ℕ) (slot : State × ℕ)
      → get_elem? slots i ≡ some slot
      → ready current i slot ≡ true
      → ((j : ℕ) (other : State × ℕ)
          → get_elem? slots j ≡ some other
          → ready current j other ≡ true
          → slot.1 ≤ other.1)
      → Picks slots current (some i)
  none_ready :
      ((j : ℕ) (other : State × ℕ) → get_elem? slots j ≡ some other → ready current j other ≡ false)
      → Picks slots current none

module _ (slots : List (State × ℕ)) (current cursor : ℕ) where
  in_list : (k : ℕ) (slot : State × ℕ) → get_elem? slots k ≡ some slot → k < length slots
  in_list k slot h = inside slots k h
    where
      inside : (l : List (State × ℕ)) (k : ℕ) → get_elem? l k ≡ some slot → k < length l
      inside [] k h = absurd (cc)
      inside (x ∷ l) zero h = omega arith
      inside (x ∷ l) (suc k) h = omega (arith, inside l k h)

  test_of :
      (best k : ℕ) (slot : State × ℕ)
      → get_elem? slots k ≡ some slot
      → ready current k slot ≡ true
      → slot.1 ≡ best
      → is_best current best k (get_elem? slots k) ≡ true
  test_of best k slot g r e = rw (g, r, e) (ground arith)

  found_is :
      (best i : ℕ) (o : Option (State × ℕ))
      → is_best current best i o ≡ true
      → (slot : State × ℕ) × (o ≡ some slot) × (ready current i slot ≡ true) × (slot.1 ≡ best)
  found_is best i none h = absurd (cc)
  found_is best i (some slot) h = (slot, refl, (both _ _ h).0, (==_iff _ _).0 (both _ _ h).1)
    where
      both : (a b : Bool) → (a && b) ≡ true → (a ≡ true) × (b ≡ true)
      both true b h = (refl, h)
      both false b h = absurd (cc)

  from_zero : (P : ℕ → Type 0) (k : ℕ) → P (0 + k) → P k
  from_zero P k p = let e : 0 + k ≡ k = omega arith in subst P e p

  chosen_by_level :
      (o : Option ℕ) → Best current 0 slots o → Picks slots current (picked slots current cursor o)
  chosen_by_level none (nobody f) =
      none_ready (λ j other g. from_zero (λ k. ready current k other ≡ false) j (f j other g))
  chosen_by_level (some b) (level k slot g r l) =
      let r' : ready current k slot ≡ true = from_zero (λ j. ready current j slot ≡ true) k r in
      elim (Option-cases (scan slots current cursor slot.1 (length slots) 1)) [
        | inl e ↦
            let (o, after, before, at) = reached (length slots) cursor k (in_list k slot g) in
            absurd (
              scan_complete slots current cursor slot.1 (length slots) 1 o after before
                (subst (λ i. is_best current slot.1 i (get_elem? slots i) ≡ true) (sym at)
                  (test_of slot.1 k slot g r' refl))
                e)
        | inr (i, e) ↦
            let (s, got, fit, same) =
              found_is slot.1 i (get_elem? slots i)
                (scan-test slots current cursor slot.1 (length slots) 1 i e) in
            rw e (
              chosen i s got fit (λ j other g' r''.
                let at : j ≡ 0 + j = omega arith in
                subst (λ x. x ≤ other.1) (sym same)
                  (l j other g' (subst (λ x. ready current x other ≡ true) at r''))))
      ]

  -- For any table of states and levels, any current slot and any cursor, `pick_next` picks a slot
  -- that is runnable and not the current one, and of which no such slot is more urgent; it picks
  -- none only if there is no such slot.
  pub pick_next-Picks : Picks slots current (pick_next slots current cursor)
  unfolding pick_next
  pick_next-Picks = chosen_by_level (best_from current 0 slots) (best_from-Best current 0 slots)
