-- ===== src/Ipc/Channel/Inv.antt =====
-- port/src/ipc.rs: what a channel holds, and every way in which a turn of `send` can go on a channel
-- that is well-formed.
use r9x.Prelude.{
  ℕ, ◌≡◌, ◌<◌, ◌⊎◌, inl, inr, refl, ◌∙◌, true, false, none, some, List, [], ◌∷◌, ◌++◌, length, ok,
  err, arith, Bool-cases, Option-cases, dec_lt, ◌≤◌,
}
use r9x.Ipc.Message.{Message, closed, full}
use r9x.Ipc.BoundedQueue.{BoundedQueue, queue_cap}
use r9x.Ipc.BoundedQueue.Refine.{Holds, new-Holds, push_full, push_ok}
use r9x.Ipc.Channel.{
  Sched, Call, boost, wake, ChannelInner, new, Turn, returns, block, send, try_send, inherit,
}

-- The queue holds `ms`; a receiver waits only on an empty queue, and a sender only on a full one.
pub record Models (c : ChannelInner) (ms : List Message) : Type 0 where
  pub queue : Holds c.queue ms
  pub recv_empty : (c.recv_waiter ≡ none) ⊎ (ms ≡ [])
  pub send_full : (c.send_waiter ≡ none) ⊎ (length ms ≡ queue_cap)

pub new-Models : Models new []
unfolding new
new-Models = record { queue = new-Holds; recv_empty = inl refl; send_full = inl refl }

-- The calls of a send by `me` to the waiting receiver `r`: a lower number is the more urgent level.
pub data HandsOver (s : Sched) (me r : ℕ) (calls : List Call) : Type 0 where
  outranks :
      s.priority me < s.priority r
      → calls ≡ boost r (s.priority me) ∷ wake r ∷ []
      → HandsOver s me r calls
  ranks_below : s.priority r ≤ s.priority me → calls ≡ wake r ∷ [] → HandsOver s me r calls

inherit-HandsOver :
    (s : Sched) (me r : ℕ) → s.current ≡ some me → HandsOver s me r (inherit s r ++ wake r ∷ [])
inherit-HandsOver s me r cur = elim (dec_lt (s.priority me) (s.priority r)) [
  | yes above ↦ outranks above (ground (arith, cur, above))
  | no below ↦ ranks_below (omega (arith, below)) (ground (arith, cur, below))
]

-- The turns of `send` that the process `me` can take on a channel that holds `ms`.
pub data Sends (s : Sched) (me : ℕ) (c : ChannelInner) (ms : List Message) (m : Message)
    (t : Turn (Unit {0})) : Type 0 where
  refused :
      c.is_closed ≡ true
      → t ≡ record { stop = returns (err closed); calls = []; chan = c }
      → Sends s me c ms m t
  handed :
      (r : ℕ) (q : BoundedQueue) (calls : List Call)
      → c.is_closed ≡ false
      → c.recv_waiter ≡ some r
      → ms ≡ []
      → Holds q (m ∷ [])
      → HandsOver s me r calls
      → t ≡ record {
        stop = returns (ok tt);
        calls = calls;
        chan = record c { queue = q; recv_waiter = none };
      }
      → Sends s me c ms m t
  queued :
      (q : BoundedQueue)
      → c.is_closed ≡ false
      → c.recv_waiter ≡ none
      → c.send_waiter ≡ none
      → length ms < queue_cap
      → Holds q (ms ++ m ∷ [])
      → t ≡ record { stop = returns (ok tt); calls = []; chan = record c { queue = q } }
      → Sends s me c ms m t
  waits :
      c.is_closed ≡ false
      → c.recv_waiter ≡ none
      → length ms ≡ queue_cap
      → t ≡ record { stop = block me; calls = []; chan = record c { send_waiter = some me } }
      → Sends s me c ms m t

-- A turn of `send` by a process on a well-formed channel that holds the messages ms does one of
-- four things: on a closed channel it returns closed and changes nothing; with a receiver waiting
-- it queues the message, boosts the receiver to the sender's priority if that is the lower number,
-- wakes it and takes it off; with room it queues the message behind ms; with the queue full it
-- records the sender and blocks it. It never panics.
pub send-Sends :
    {s : Sched} {me : ℕ} {c : ChannelInner} {ms : List Message} (m : Message)
    → s.current ≡ some me
    → Models c ms
    → Sends s me c ms m (send s c m)
unfolding send
send-Sends {s} {me} {c} {ms} m cur v = elim (Bool-cases c.is_closed) [
  | inl e ↦ refused e (ground arith)
  | inr e ↦ elim (Option-cases c.recv_waiter) [
    | inr (r, f) ↦
        let none_yet : ms ≡ [] = ground (arith, v.recv_empty) in
        let (q, p, h) = push_ok {ms = ms} m v.queue (ground (arith, none_yet)) in
        handed r q (inherit s r ++ wake r ∷ []) e f none_yet (ground (arith, none_yet, h))
          (inherit-HandsOver s me r cur) (ground (arith, p))
    | inl f ↦ elim (dec_lt (length ms) queue_cap) [
      | yes room ↦
          let (q, p, h) = push_ok m v.queue room in
          let free : c.send_waiter ≡ none = ground (arith, v.send_full) in
          queued q e f free room h (ground (arith, p))
      | no over ↦
          let all : length ms ≡ queue_cap = omega (arith, v.queue.fits) in
          waits e f all (ground (arith, push_full c.queue m (v.queue.count ∙ all)))
    ]
  ]
]

-- The turns of `try_send`: as `send`, but nobody is boosted, and a full queue is an error.
pub data TrySends (c : ChannelInner) (ms : List Message) (m : Message) (t : Turn (Unit {0}))
    : Type 0 where
  refused :
      c.is_closed ≡ true
      → t ≡ record { stop = returns (err closed); calls = []; chan = c }
      → TrySends c ms m t
  handed :
      (r : ℕ) (q : BoundedQueue)
      → c.is_closed ≡ false
      → c.recv_waiter ≡ some r
      → ms ≡ []
      → Holds q (m ∷ [])
      → t ≡ record {
        stop = returns (ok tt);
        calls = wake r ∷ [];
        chan = record c { queue = q; recv_waiter = none };
      }
      → TrySends c ms m t
  queued :
      (q : BoundedQueue)
      → c.is_closed ≡ false
      → c.recv_waiter ≡ none
      → length ms < queue_cap
      → Holds q (ms ++ m ∷ [])
      → t ≡ record { stop = returns (ok tt); calls = []; chan = record c { queue = q } }
      → TrySends c ms m t
  lost :
      c.is_closed ≡ false
      → length ms ≡ queue_cap
      → t ≡ record { stop = returns (err full); calls = []; chan = c }
      → TrySends c ms m t

pub try_send-TrySends :
    {c : ChannelInner} {ms : List Message} (m : Message)
    → Models c ms
    → TrySends c ms m (try_send c m)
unfolding try_send
try_send-TrySends {c} {ms} m v = elim (Bool-cases c.is_closed) [
  | inl e ↦ refused e (ground arith)
  | inr e ↦ elim (Option-cases c.recv_waiter) [
    | inr (r, f) ↦
        let none_yet : ms ≡ [] = ground (arith, v.recv_empty) in
        let (q, p, h) = push_ok {ms = ms} m v.queue (ground (arith, none_yet)) in
        handed r q e f none_yet (ground (arith, none_yet, h)) (ground (arith, p))
    | inl f ↦ elim (dec_lt (length ms) queue_cap) [
      | yes room ↦ let (q, p, h) = push_ok m v.queue room in queued q e f room h (ground (arith, p))
      | no over ↦
          let all : length ms ≡ queue_cap = omega (arith, v.queue.fits) in
          lost e all (ground (arith, push_full c.queue m (v.queue.count ∙ all)))
    ]
  ]
]
