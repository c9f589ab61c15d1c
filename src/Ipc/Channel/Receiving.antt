-- ===== src/Ipc/Channel/Receiving.antt =====
-- port/src/ipc.rs: every way in which a turn of the three receives can go on a channel that is
-- well-formed.
use r9x.Prelude.{
  ℕ, ◌≡◌, inl, inr, refl, true, false, Option, none, some, List, [], ◌∷◌, replicate, ok, err, arith,
  Bool-cases, leb, if◌then◌else◌,
}
use r9x.Ipc.Message.{Message, closed, empty, zero_buf}
use r9x.Ipc.BoundedQueue.{BoundedQueue}
use r9x.Ipc.BoundedQueue.Refine.{Holds, pop_empty, pop_ok}
use r9x.Ipc.Channel.{
  Sched, Call, unboost, wake, ChannelInner, Turn, returns, block, block_at, receive, receive_at,
  try_receive, wake_all, timeout,
}
use r9x.Ipc.Channel.Inv.{Models}

-- The calls of a turn that takes the waiter `w` off.
pub data WakesWaiter (w : Option ℕ) (calls : List Call) : Type 0 where
  nobody : w ≡ none → calls ≡ [] → WakesWaiter w calls
  waiter : (p : ℕ) → w ≡ some p → calls ≡ wake p ∷ [] → WakesWaiter w calls

wake_all-WakesWaiter : (w : Option ℕ) → WakesWaiter w (wake_all w)
wake_all-WakesWaiter none = nobody refl refl
wake_all-WakesWaiter (some p) = waiter p refl refl

-- The turns of the three receives, which differ in what they do on an empty queue.
pub data Receives (c : ChannelInner) (ms : List Message) (on_empty t : Turn Message) : Type 0 where
  refused :
      c.is_closed ≡ true
      → t ≡ record { stop = returns (err closed); calls = []; chan = c }
      → Receives c ms on_empty t
  takes :
      (m : Message) (rest : List Message) (q : BoundedQueue) (calls : List Call)
      → c.is_closed ≡ false
      → c.recv_waiter ≡ none
      → ms ≡ m ∷ rest
      → Holds q rest
      → WakesWaiter c.send_waiter calls
      → t ≡ record {
        stop = returns (ok m);
        calls = calls;
        chan = record c { queue = q; send_waiter = none };
      }
      → Receives c ms on_empty t
  finds_none :
      c.is_closed ≡ false → c.send_waiter ≡ none → ms ≡ [] → t ≡ on_empty → Receives c ms on_empty t

-- `receive` and `receive_at` put the process to wait as the channel's receiver.
abbrev pub waits_on : ℕ → ChannelInner → Turn Message
waits_on me c = record {
  stop = block me;
  calls = unboost me ∷ [];
  chan = record c { recv_waiter = some me };
}

-- The message of a receive whose time is up.
abbrev pub expired : Message
expired = record { opcode = 0xffff; tag = 0; len = 0; buf = replicate 256 0 }

abbrev pub waits_until : Sched → ℕ → ℕ → ChannelInner → Turn Message
waits_until s me deadline c =
    if leb deadline s.now
    then record { stop = returns (ok expired); calls = []; chan = c }
    else record {
      stop = block_at me deadline;
      calls = unboost me ∷ [];
      chan = record c { recv_waiter = some me };
    }

abbrev pub finds_empty : ChannelInner → Turn Message
finds_empty c = record { stop = returns (err empty); calls = []; chan = c }

pub receive-Receives :
    (s : Sched) {me : ℕ} {c : ChannelInner} (ms : List Message)
    → s.current ≡ some me
    → Models c ms
    → Receives c ms (waits_on me c) (receive s c)
unfolding receive
receive-Receives s {me} {c} [] cur v = elim (Bool-cases c.is_closed) [
  | inl e ↦ refused e (ground arith)
  | inr e ↦ finds_none e (ground (arith, v.send_full)) refl (ground (arith, pop_empty v.queue))
]
receive-Receives s {me} {c} (m ∷ rest) cur v = elim (Bool-cases c.is_closed) [
  | inl e ↦ refused e (ground arith)
  | inr e ↦
      let (q, p, h) = pop_ok v.queue in
      takes m rest q (wake_all c.send_waiter) e (ground (arith, v.recv_empty)) refl h
        (wake_all-WakesWaiter c.send_waiter) (ground (arith, p))
]

-- A turn of `receive_at` by a process on a well-formed channel that holds ms does one of three
-- things: on a closed channel it returns closed and changes nothing; with messages waiting it hands
-- out the oldest, and wakes and takes off the waiting sender; with none, it returns the timeout
-- message if the deadline has come, and otherwise drops the boost of the process, records it as the
-- receiver and blocks it until the deadline.
pub receive_at-Receives :
    (s : Sched) {me : ℕ} {c : ChannelInner} (deadline : ℕ) (ms : List Message)
    → s.current ≡ some me
    → Models c ms
    → Receives c ms (waits_until s me deadline c) (receive_at s c deadline)
unfolding receive_at timeout zero_buf
receive_at-Receives s {me} {c} deadline [] cur v = elim (Bool-cases c.is_closed) [
  | inl e ↦ refused e (ground arith)
  | inr e ↦ finds_none e (ground (arith, v.send_full)) refl (ground (arith, pop_empty v.queue))
]
receive_at-Receives s {me} {c} deadline (m ∷ rest) cur v = elim (Bool-cases c.is_closed) [
  | inl e ↦ refused e (ground arith)
  | inr e ↦
      let (q, p, h) = pop_ok v.queue in
      takes m rest q (wake_all c.send_waiter) e (ground (arith, v.recv_empty)) refl h
        (wake_all-WakesWaiter c.send_waiter) (ground (arith, p))
]

pub try_receive-Receives :
    {c : ChannelInner} (ms : List Message)
    → Models c ms
    → Receives c ms (finds_empty c) (try_receive c)
unfolding try_receive
try_receive-Receives {c} [] v = elim (Bool-cases c.is_closed) [
  | inl e ↦ refused e (ground arith)
  | inr e ↦ finds_none e (ground (arith, v.send_full)) refl (ground (arith, pop_empty v.queue))
]
try_receive-Receives {c} (m ∷ rest) v = elim (Bool-cases c.is_closed) [
  | inl e ↦ refused e (ground arith)
  | inr e ↦
      let (q, p, h) = pop_ok v.queue in
      takes m rest q (wake_all c.send_waiter) e (ground (arith, v.recv_empty)) refl h
        (wake_all-WakesWaiter c.send_waiter) (ground (arith, p))
]
