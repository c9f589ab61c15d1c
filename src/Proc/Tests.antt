-- ===== src/Proc/Tests.antt =====
-- The unit tests of aarch64/src/process.rs, run on the model, and the theorems at small tables.
use r9x.Prelude.{ℕ, ◌≡◌, refl, Option, none, some, List, [], ◌∷◌}
use r9x.Proc.{
  State, runnable, blocked, exited, Process, boosted, rebased, at_base, set_priority,
  effective_priority, check_deadlines, status, position, sys_wait, sys_kill, sys_setprio,
}
use r9x.Proc.Priority.{set_priority-effective}
use r9x.Proc.Heap.{brk_grow, heap_alloc_page}
use r9x.Proc.Pick.{best_from, scan, pick_next}
use r9x.Proc.Pick.Choice.{Picks, pick_next-Picks}

picking : Unit {0}
unfolding pick_next best_from scan
picking = tt

abbrev slots : List (State × ℕ)
slots = (runnable, 128) ∷ (runnable, 10) ∷ (blocked, 0) ∷ (runnable, 10) ∷ []

picks_most_urgent : pick_next slots 0 0 ≡ some 1
unfolding picking
picks_most_urgent = refl

picks_in_turn : pick_next slots 0 1 ≡ some 3
unfolding picking
picks_in_turn = refl

picks_no_other : pick_next ((runnable, 128) ∷ (exited, 0) ∷ []) 0 0 ≡ none
unfolding picking
picks_no_other = refl

pick_next-Picks_example : Picks slots 0 (pick_next slots 0 0)
pick_next-Picks_example = pick_next-Picks slots 0 0

-- A boost to a level less urgent than the base lowers the process.
boost_lowers : (boosted (at_base 100) 200).effective ≡ 200
unfolding boosted
boost_lowers = refl

abbrev process : Process
process = record {
  state = blocked;
  exit_status = 0;
  prio = at_base 128;
  heap_base = 0x10000;
  heap_brk = 0x10000;
  heap_hwm = 0x13000;
  deadline = some 50;
}

deadline_passes :
    check_deadlines 50 (some process ∷ none ∷ [])
    ≡ some (record process { state = runnable; deadline = none }) ∷ none ∷ []
unfolding check_deadlines
deadline_passes = refl

-- A less urgent priority sets the base only: the process is then taken for a boosted one.
setprio_ignored :
    (sys_setprio (some process ∷ []) none 0 200).1
    ≡ some (record process { prio = record { base = 200; effective = 128 } }) ∷ []
unfolding sys_setprio rebased
setprio_ignored = refl

-- The priority 511 is not refused, and sets the base to the level of the idle process.
setprio_wraps :
    (sys_setprio (some process ∷ []) none 0 511).1
    ≡ some (record process { prio = record { base = 255; effective = 128 } }) ∷ []
unfolding sys_setprio rebased
setprio_wraps = refl

set_priority-effective_example :
    effective_priority (set_priority (some process ∷ []) 0 200) 0 ≡ some 128
set_priority-effective_example = set_priority-effective (some process ∷ []) 0 200 128 level
  where
    level : effective_priority (some process ∷ []) 0 ≡ some 128
    level = unfold effective_priority in refl

kills :
    (sys_kill (some process ∷ []) 0).1
    ≡ some (record process { exit_status = 0x7f; state = exited }) ∷ []
unfolding sys_kill
kills = refl

reaps :
    sys_wait (none ∷ some (record process { exit_status = 3; state = exited }) ∷ []) 1
    ≡ ((1, 3), none ∷ none ∷ [])
unfolding sys_wait status position
reaps = refl

-- Mapped pages as a list of pairs of addresses; every page gets the next physical page.
abbrev map_next : List (ℕ × ℕ) → ℕ → Option (ℕ × List (ℕ × ℕ))
map_next s va = some (0x80000, (va, 0x80000) ∷ s)

-- After a shrink, the page that is mapped is not the one at the address that is returned, and the
-- mark of the mapped pages goes down.
allocates_other_page : heap_alloc_page (List (ℕ × ℕ)) map_next 0x1000000 process [] ≡ (
  some (0x10000, 0x80000),
  (record process { heap_brk = 0x11000; heap_hwm = 0x11000 }, (0x13000, 0x80000) ∷ []),
)
unfolding heap_alloc_page brk_grow
allocates_other_page = refl
