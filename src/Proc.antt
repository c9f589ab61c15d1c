-- ===== src/Proc.antt =====
-- aarch64/src/process.rs: the process table and the scheduler's choice. A priority is a level, a
-- lower one more urgent. A process is what the table reads and writes of it: its kernel stack, its
-- context and its symbols are memory that only the switch and the backtrace use.
pub mod Heap
pub mod Pick
pub mod Priority
mod Tests
use r9x.Prelude.{
  ℕ, zero, suc, ◌+◌, ◌-◌, ◌%◌, ◌^◌, min, Bool, true, false, not, ◌&&◌, ◌||◌, Option, none, some,
  List, [], ◌∷◌, map, Outcome, ok, panic, length, get_elem?, set, ltb, leb, ◌==◌, if◌then◌else◌,
}

abbrev pub nprocs : ℕ
nprocs = 8

abbrev pub default_priority : ℕ
default_priority = 128

abbrev pub idle : ℕ
idle = 255

abbrev pub kill_status : ℕ
kill_status = 0x7f

pub record PriorityState : Type 0 where
  pub base : ℕ
  pub effective : ℕ

abbrev pub at_base : ℕ → PriorityState
at_base base = record { base = base; effective = base }

abbrev pub is_boosted : PriorityState → Bool
is_boosted p = ltb p.effective p.base

unfoldable pub boosted : PriorityState → ℕ → PriorityState
boosted p to = if is_boosted p then p else record p { effective = to }

unfoldable pub unboosted : PriorityState → PriorityState
unboosted p = record p { effective = p.base }

-- The base is set first, and the test for a boost is against it.
unfoldable pub rebased : PriorityState → ℕ → PriorityState
rebased p prio =
    if ltb p.effective prio
    then record p { base = prio }
    else record { base = prio; effective = prio }

pub data State : Type 0 where
  running runnable blocked exited : State

abbrev pub is_exited : State → Bool
is_exited exited = true
is_exited _ = false

abbrev pub is_blocked : State → Bool
is_blocked blocked = true
is_blocked _ = false

abbrev pub is_runnable : State → Bool
is_runnable runnable = true
is_runnable _ = false

pub record Process : Type 0 where
  pub state : State
  pub exit_status : ℕ
  pub prio : PriorityState
  pub heap_base : ℕ
  pub heap_brk : ℕ
  pub heap_hwm : ℕ
  pub deadline : Option ℕ

abbrev pub Table : Type 0
Table = List (Option Process)

-- `table.get_mut(id)`, where the slot holds a process.
abbrev pub live : Option (Option Process) → Option Process
live none = none
live (some slot) = slot

abbrev pub update_slot : Table → ℕ → (Process → Process) → Option (Option Process) → Table
update_slot t id f none = t
update_slot t id f (some none) = t
update_slot t id f (some (some p)) = set t id (some (f p))

-- A change of the process in a slot, if there is one.
abbrev pub update : Table → ℕ → (Process → Process) → Table
update t id f = update_slot t id f (get_elem? t id)

abbrev status_of : Option Process → Option ℕ
status_of none = none
status_of (some p) = if is_exited p.state then some p.exit_status else none

unfoldable pub status : Table → ℕ → Option ℕ
status t id = status_of (live (get_elem? t id))

abbrev pub has_exited : Option Process → Bool
has_exited none = false
has_exited (some p) = is_exited p.state

unfoldable pub any_exited : Table → Bool
any_exited [] = false
any_exited (slot ∷ t) = has_exited slot || any_exited t

unfoldable pub set_priority : Table → ℕ → ℕ → Table
set_priority t id prio = update t id (λ p. record p { prio = rebased p.prio prio })

unfoldable pub boost : Table → ℕ → ℕ → Table
boost t id to = update t id (λ p. record p { prio = boosted p.prio to })

unfoldable pub unboost : Table → ℕ → Table
unboost t id = update t id (λ p. record p { prio = unboosted p.prio })

abbrev pub level_of : Option Process → Option ℕ
level_of none = none
level_of (some p) = some p.prio.effective

unfoldable pub effective_priority : Table → ℕ → Option ℕ
effective_priority t id = level_of (live (get_elem? t id))

abbrev pub woken : Process → Process
woken p = if is_blocked p.state then record p { state = runnable; deadline = none } else p

unfoldable pub wake : Table → ℕ → Table
wake t id = update t id woken

abbrev is_past : ℕ → Option ℕ → Bool
is_past now none = false
is_past now (some deadline) = leb deadline now

abbrev expire : ℕ → Option Process → Option Process
expire now none = none
expire now (some p) = some (
    if is_blocked p.state && is_past now p.deadline
    then record p { state = runnable; deadline = none }
    else p)

-- `check_deadlines`, with the counter's value.
unfoldable pub check_deadlines : ℕ → Table → Table
check_deadlines now = map (expire now)

abbrev pub is_free : Option Process → Bool
is_free none = true
is_free (some p) = is_exited p.state

-- `iter().position(...)`, counted from an index on.
unfoldable pub position : (Option Process → Bool) → ℕ → Table → Option ℕ
position test i [] = none
position test i (slot ∷ t) =
    let rest = position test (i + 1) t in if test slot then some i else rest

abbrev spawned : ℕ → ℕ → Process
spawned heap_base prio = record {
  state = runnable;
  exit_status = 0;
  prio = at_base prio;
  heap_base = heap_base;
  heap_brk = heap_base;
  heap_hwm = heap_base;
  deadline = none;
}

-- `try_install`, with the start of the kernel's half of the addresses: a free slot is claimed, and
-- the assertion on the heap panics.
unfoldable pub try_install : ℕ → Table → ℕ → ℕ → Outcome (Unit {0}) (Option (ℕ × Table))
try_install kzero t heap_base prio = elim (position is_free 0 t) [
  | none ↦ ok none
  | some id ↦
      if heap_base % 4096 == 0 && ltb heap_base kzero
      then ok (some (id, set t id (some (spawned heap_base prio))))
      else panic
]

abbrev pub wait_timeout : ℕ
wait_timeout = 0xffffffff

abbrev pub wait_bad_id : ℕ
wait_bad_id = 0xfffffffe

abbrev reap : Table → ℕ → Option Process → (ℕ × ℕ) × Table
reap t id none = ((wait_bad_id, 0), t)
reap t id (some p) = ((id, p.exit_status), set t id none)

abbrev wait_any : Table → Option ℕ → (ℕ × ℕ) × Table
wait_any t none = ((wait_timeout, 0), t)
wait_any t (some id) = reap t id (live (get_elem? t id))

abbrev wait_for : Table → ℕ → Option ℕ → (ℕ × ℕ) × Table
wait_for t id none = ((wait_bad_id, 0), t)
wait_for t id (some _) = reap t id (live (get_elem? t id))

-- `sys_wait`: 0 stands for any child.
unfoldable pub sys_wait : Table → ℕ → (ℕ × ℕ) × Table
sys_wait t child_id =
    if child_id == 0
    then wait_any t (position has_exited 0 t)
    else wait_for t child_id (status t child_id)

abbrev kill : Table → ℕ → Option Process → (ℕ × Bool) × Table
kill t id none = ((1, false), t)
kill t id (some p) =
    if is_exited p.state
    then ((1, false), t)
    else ((0, true), set t id (some (record p { exit_status = kill_status; state = exited })))

-- `sys_kill`: the code, whether the channels of the process are closed, and the table.
unfoldable pub sys_kill : Table → ℕ → (ℕ × Bool) × Table
sys_kill t id = if leb nprocs id then ((1, false), t) else kill t id (live (get_elem? t id))

-- The codes of `sys_setprio`.
pub data SetprioCode : Type 0 where
  set_ok bad_id bad_prio : SetprioCode

abbrev setprio_target : Option ℕ → ℕ → Option ℕ
setprio_target current target_id = if target_id == 2 ^ 64 - 1 then current else some target_id

abbrev reprioritise : Table → ℕ → ℕ → Option Process → SetprioCode × Table
reprioritise t id prio none = (bad_id, t)
reprioritise t id prio (some p) =
    (set_ok, set t id (some (record p { prio = rebased p.prio (prio % 256) })))

-- `sys_setprio`, with the slot of the process that runs: the largest id stands for that process, and
-- the priority is cut to a byte.
unfoldable pub sys_setprio : Table → Option ℕ → ℕ → ℕ → SetprioCode × Table
sys_setprio t current target_id prio =
    if prio == idle then (bad_prio, t) else elim (setprio_target current target_id) [
      | none ↦ (bad_id, t)
      | some id ↦
          if leb nprocs id then (bad_id, t) else reprioritise t id prio (live (get_elem? t id))
    ]
