-- ===== src/Proc/Pick/Levels.antt =====
-- aarch64/src/process.rs: the least level that `pick_next` looks for.
use r9x.Prelude.{
  ℕ, zero, suc, ◌+◌, ◌≤◌, ◌≡◌, ◌≢◌, refl, ap, subst, Bool, true, false, Option, none, some, List,
  [], ◌∷◌, get_elem?, Bool-cases, inl, inr, arith, dec_lt,
}
use r9x.Proc.{State}
use r9x.Proc.Pick.{ready, least, best_from}

-- The least level of the slots that may be picked, from slot `i` on, or that there are none.
pub data Best (current i : ℕ) (slots : List (State × ℕ)) : Option ℕ → Type 0 where
  nobody :
      ((k : ℕ) (slot : State × ℕ)
        → get_elem? slots k ≡ some slot
        → ready current (i + k) slot ≡ false)
      → Best current i slots none
  level :
      (k : ℕ) (slot : State × ℕ)
      → get_elem? slots k ≡ some slot
      → ready current (i + k) slot ≡ true
      → ((j : ℕ) (other : State × ℕ)
          → get_elem? slots j ≡ some other
          → ready current (i + j) other ≡ true
          → slot.1 ≤ other.1)
      → Best current i slots (some slot.1)

module _ (current i : ℕ) (slot : State × ℕ) (slots : List (State × ℕ)) where
  -- What holds of the first slot and of the others holds of all.
  at_each :
      (P : ℕ → State × ℕ → Type 0)
      → P i slot
      → ((k : ℕ) (other : State × ℕ) → get_elem? slots k ≡ some other → P (i + 1 + k) other)
      → (k : ℕ) (other : State × ℕ) → get_elem? (slot ∷ slots) k ≡ some other
      → P (i + k) other
  at_each P first rest zero other h =
      let e : i ≡ i + 0 = omega arith in subst (P (i + 0)) (same h) (subst (λ j. P j slot) e first)
    where
      same : some slot ≡ some other → slot ≡ other
      same t = cc
  at_each P first rest (suc k) other h =
      let e : i + 1 + k ≡ i + suc k = omega arith in subst (λ j. P j other) e (rest k other h)

  abbrev AtLeast : ℕ → ℕ → State × ℕ → Type 0
  AtLeast b k other = ready current k other ≡ true → b ≤ other.1

  here : ready current i slot ≡ true → ready current (i + 0) slot ≡ true
  here r = let e : i ≡ i + 0 = omega arith in subst (λ j. ready current j slot ≡ true) e r

  later :
      (k : ℕ) (other : State × ℕ)
      → ready current (i + 1 + k) other ≡ true
      → ready current (i + suc k) other ≡ true
  later k other r =
      let e : i + 1 + k ≡ i + suc k = omega arith in subst (λ j. ready current j other ≡ true) e r

  Best-skip :
      (o : Option ℕ)
      → ready current i slot ≡ false
      → Best current (i + 1) slots o
      → Best current i (slot ∷ slots) o
  Best-skip none out (nobody f) = nobody (at_each (λ k other. ready current k other ≡ false) out f)
  Best-skip (some b) out (level k other g r l) =
      level (suc k) other g (later k other r)
        (at_each (AtLeast other.1) (λ r'. absurd (clash r' out)) l)
    where
      clash : {x : Bool} → x ≡ true → x ≢ false
      clash t f = cc

  Best-take :
      (o : Option ℕ)
      → ready current i slot ≡ true
      → Best current (i + 1) slots o
      → Best current i (slot ∷ slots) (least slot.1 o)
  Best-take none fit (nobody f) =
      level 0 slot refl (here fit) (
        at_each (AtLeast slot.1) (λ r. omega arith) (λ k other g r. absurd (clash r (f k other g))))
    where
      clash : {x : Bool} → x ≡ true → x ≢ false
      clash t f = cc
  Best-take (some b) fit (level k other g r l) = elim (dec_lt other.1 slot.1) [
    | yes lt ↦
        subst (Best current i (slot ∷ slots)) (ap some (omega arith)) (
          level (suc k) other g (later k other r) (at_each (AtLeast other.1) (λ r'. omega arith) l))
    | no ge ↦ subst (Best current i (slot ∷ slots)) (ap some (omega (arith, ge))) (
        level 0 slot refl (here fit) (
          at_each (AtLeast slot.1) (λ r'. omega arith)
            (λ j o' h r'. omega (arith, ge, l j o' h r'))))
  ]

pub best_from-Best :
    (current i : ℕ) (slots : List (State × ℕ)) → Best current i slots (best_from current i slots)
unfolding best_from
best_from-Best current i [] = nobody (λ k slot h. absurd (cc))
best_from-Best current i (slot ∷ slots) = elim (Bool-cases (ready current i slot)) [
  | inl fit ↦ rw fit (Best-take current i slot slots _ fit (best_from-Best current (i + 1) slots))
  | inr out ↦ rw out (Best-skip current i slot slots _ out (best_from-Best current (i + 1) slots))
]
