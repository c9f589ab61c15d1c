-- ===== src/Ipc/BoundedQueue.antt =====
-- port/src/ipc.rs: `BoundedQueue`, a FIFO of messages in a fixed array of slots.
pub mod Window
pub mod Refine
pub mod Fifo
use r9x.Prelude.{
  ℕ, ◌+◌, ◌-◌, ◌%◌, Bool, true, false, Option, none, some, List, replicate, get_or, set, ◌==◌,
  if◌then◌else◌,
}
use r9x.Ipc.Message.{Message}

abbrev pub queue_cap : ℕ
queue_cap = 8

pub record BoundedQueue : Type 0 where
  pub slots : List (Option Message)
  pub head : ℕ
  pub len : ℕ

unfoldable pub new : BoundedQueue
new = record { slots = replicate queue_cap none; head = 0; len = 0 }

abbrev pub is_full : BoundedQueue → Bool
is_full q = q.len == queue_cap

-- The slots are indexed within the array: `Refine.Holds` keeps `head` below `queue_cap`.
unfoldable pub push : BoundedQueue → Message → Bool × BoundedQueue
push q msg = if is_full q then (false, q) else (
  true,
  record q { slots = set q.slots ((q.head + q.len) % queue_cap) (some msg); len = q.len + 1 },
)

-- `self.slots[self.head].take()?`, then the head and the length move.
unfoldable pub pop : BoundedQueue → Option Message × BoundedQueue
pop q = elim (get_or q.slots q.head none) [
  | none ↦ (none, q)
  | some msg ↦ (
    some msg,
    record q { slots = set q.slots q.head none; head = (q.head + 1) % queue_cap; len = q.len - 1 },
  )
]
