-- ===== src/Proc/Pick.antt =====
-- aarch64/src/process.rs: `pick_next`, over the states and the priorities of the slots.
pub mod Levels
pub mod Rounds
pub mod Choice
use r9x.Prelude.{
  ℕ, zero, suc, ◌+◌, ◌%◌, min, Bool, true, false, not, ◌&&◌, Option, none, some, List, [], ◌∷◌,
  length, get_elem?, ◌==◌, if◌then◌else◌,
}
use r9x.Proc.{State, is_runnable}

-- Whether slot `i` may be picked.
abbrev pub ready : ℕ → ℕ → State × ℕ → Bool
ready current i slot = not (i == current) && is_runnable slot.0

abbrev pub least : ℕ → Option ℕ → Option ℕ
least level none = some level
least level (some other) = some (min level other)

-- The least level among the slots that may be picked, from slot `i` on.
unfoldable pub best_from : ℕ → ℕ → List (State × ℕ) → Option ℕ
best_from current i [] = none
best_from current i (slot ∷ slots) =
    let rest = best_from current (i + 1) slots in
    if ready current i slot then least slot.1 rest else rest

abbrev pub is_best : ℕ → ℕ → ℕ → Option (State × ℕ) → Bool
is_best current best i none = false
is_best current best i (some slot) = ready current i slot && slot.1 == best

-- The loop over the offsets from the cursor.
unfoldable pub scan : List (State × ℕ) → ℕ → ℕ → ℕ → ℕ → ℕ → Option ℕ
scan slots current cursor best zero off = none
scan slots current cursor best (suc left) off =
    let i = (cursor + off) % length slots in
    let rest = scan slots current cursor best left (off + 1) in
    if is_best current best i (get_elem? slots i) then some i else rest

abbrev pub picked : List (State × ℕ) → ℕ → ℕ → Option ℕ → Option ℕ
picked slots current cursor none = none
picked slots current cursor (some best) = scan slots current cursor best (length slots) 1

unfoldable pub pick_next : List (State × ℕ) → ℕ → ℕ → Option ℕ
pick_next slots current cursor = picked slots current cursor (best_from current 0 slots)
