-- ===== src/Ipc/Channel.antt =====
-- port/src/ipc.rs: `IpcScheduler`, `ChannelInner` and the operations on a channel. The kernel runs
-- with interrupts masked between the entry of a trap and its return, so another process runs only
-- where an operation blocks: a function here is what one process does from there to the next block
-- or to the return, with the scheduler calls that it makes on the way, in order.
pub mod Inv
pub mod Receiving
pub mod History
use r9x.Prelude.{
  ℕ, Bool, true, false, Option, none, some, List, [], ◌∷◌, ◌++◌, ◌||◌, Outcome, ok, err, panic, ltb,
  leb, ◌==◌, if◌then◌else◌,
}
use r9x.Ipc.Message.{Message, IpcErr, closed, full, bad_tag, empty, receive_timeout, zero_buf}
use r9x.Ipc.BoundedQueue
use r9x.Ipc.BoundedQueue.{BoundedQueue, push, pop}

-- What `IpcScheduler` lets an operation read: `current`, `priority` and `now`.
pub record Sched : Type 0 where
  pub current : Option ℕ
  pub priority : ℕ → ℕ
  pub now : ℕ

-- What it lets an operation do, save for blocking.
pub data Call : Type 0 where
  boost : ℕ → ℕ → Call
  unboost : ℕ → Call
  wake : ℕ → Call

pub record ChannelInner : Type 0 where
  pub queue : BoundedQueue
  pub recv_waiter : Option ℕ
  pub send_waiter : Option ℕ
  pub is_closed : Bool

unfoldable pub new : ChannelInner
new = record { queue = BoundedQueue.new; recv_waiter = none; send_waiter = none; is_closed = false }

-- Where an operation stops: it returns, or it blocks the process (until a time, in `block_at`) and
-- starts over when the process runs again.
pub data Stop {ℓ} (A : Type ℓ) : Type ℓ where
  returns : Outcome IpcErr A → Stop A
  block : ℕ → Stop A
  block_at : ℕ → ℕ → Stop A

-- Where an operation stops, the calls that it has made, and the channel that it leaves.
pub record Turn {ℓ} (A : Type ℓ) : Type ℓ where
  pub stop : Stop A
  pub calls : List Call
  pub chan : ChannelInner

-- `expect("... needs a process")`
abbrev pub blocking {ℓ} : {A : Type ℓ} → Option ℕ → List Call → ChannelInner → Turn A
blocking none calls c = record { stop = returns panic; calls = calls; chan = c }
blocking (some me) calls c = record { stop = block me; calls = calls; chan = c }

abbrev pub is_waiter : Option ℕ → ℕ → Bool
is_waiter none id = false
is_waiter (some w) id = w == id

-- `Channel::is_blocked_on`
unfoldable pub is_blocked_on : ChannelInner → ℕ → Bool
is_blocked_on c id = is_waiter c.recv_waiter id || is_waiter c.send_waiter id

abbrev pub wake_all : Option ℕ → List Call
wake_all none = []
wake_all (some w) = wake w ∷ []

-- `close`: both waiters are taken and woken, the receiver first.
unfoldable pub close : ChannelInner → List Call × ChannelInner
close c = (
  wake_all c.recv_waiter ++ wake_all c.send_waiter,
  record c { recv_waiter = none; send_waiter = none; is_closed = true },
)

-- The priority inheritance of `send`: the receiver is boosted to a sender that outranks it.
abbrev pub inherit : Sched → ℕ → List Call
inherit s receiver = elim s.current [
  | none ↦ []
  | some sender ↦
      if ltb (s.priority sender) (s.priority receiver)
      then boost receiver (s.priority sender) ∷ []
      else []
]

-- `debug_assert!(ok)` after the push of the fast path, with debug assertions on in every profile.
abbrev pub hand_over : ℕ → List Call → ChannelInner → Bool × BoundedQueue → Turn (Unit {0})
hand_over receiver calls c (true, q) = record {
  stop = returns (ok tt);
  calls = calls ++ wake receiver ∷ [];
  chan = record c { queue = q; recv_waiter = none };
}
hand_over receiver calls c (false, q) = record { stop = returns panic; calls = calls; chan = c }

-- The second look at the channel, after the lock was dropped: a send waiter means blocking.
abbrev settle : Option ℕ → Sched → ChannelInner → Turn (Unit {0})
settle none s c = record { stop = returns (ok tt); calls = []; chan = c }
settle (some _) s c = blocking s.current [] c

-- `send` with no receiver waiting: the message is enqueued, or the sender becomes the send waiter
-- of a full queue.
abbrev enqueue : Sched → ChannelInner → Bool × BoundedQueue → Turn (Unit {0})
enqueue s c (true, q) = settle c.send_waiter s (record c { queue = q })
enqueue s c (false, q) = elim s.current [
  | none ↦ record { stop = returns panic; calls = []; chan = c }
  | some me ↦ settle (some me) s (record c { send_waiter = some me })
]

abbrev send_open : Sched → ChannelInner → Message → Option ℕ → Turn (Unit {0})
send_open s c msg none = enqueue s c (push c.queue msg)
send_open s c msg (some receiver) = hand_over receiver (inherit s receiver) c (push c.queue msg)

-- `send`, one turn of its loop.
unfoldable pub send : Sched → ChannelInner → Message → Turn (Unit {0})
send s c msg =
    if c.is_closed
    then record { stop = returns (err closed); calls = []; chan = c }
    else send_open s c msg c.recv_waiter

abbrev try_enqueue : ChannelInner → Bool × BoundedQueue → Turn (Unit {0})
try_enqueue c (true, q) = record {
  stop = returns (ok tt);
  calls = [];
  chan = record c { queue = q };
}
try_enqueue c (false, q) = record { stop = returns (err full); calls = []; chan = c }

abbrev try_send_open : ChannelInner → Message → Option ℕ → Turn (Unit {0})
try_send_open c msg none = try_enqueue c (push c.queue msg)
try_send_open c msg (some receiver) = hand_over receiver [] c (push c.queue msg)

-- `try_send`: the variant for interrupt context, which never blocks and boosts nobody.
unfoldable pub try_send : ChannelInner → Message → Turn (Unit {0})
try_send c msg =
    if c.is_closed
    then record { stop = returns (err closed); calls = []; chan = c }
    else try_send_open c msg c.recv_waiter

-- A dequeued message: the slot that it frees wakes the send waiter, who is taken.
abbrev pub delivered : Message → ChannelInner → BoundedQueue → Turn Message
delivered m c q = record {
  stop = returns (ok m);
  calls = wake_all c.send_waiter;
  chan = record c { queue = q; send_waiter = none };
}

abbrev try_dequeue : ChannelInner → Option Message × BoundedQueue → Turn Message
try_dequeue c (none, q) = record { stop = returns (err empty); calls = []; chan = c }
try_dequeue c (some m, q) = delivered m c q

-- `try_receive`
unfoldable pub try_receive : ChannelInner → Turn Message
try_receive c =
    if c.is_closed
    then record { stop = returns (err closed); calls = []; chan = c }
    else try_dequeue c (pop c.queue)

abbrev dequeue : ℕ → ChannelInner → Option Message × BoundedQueue → Turn Message
dequeue me c (none, q) = record {
  stop = block me;
  calls = unboost me ∷ [];
  chan = record c { recv_waiter = some me };
}
dequeue me c (some m, q) = delivered m c q

abbrev receive_as : ChannelInner → Option ℕ → Turn Message
receive_as c none = record { stop = returns panic; calls = []; chan = c }
receive_as c (some me) =
    if c.is_closed
    then record { stop = returns (err closed); calls = []; chan = c }
    else dequeue me c (pop c.queue)

-- `receive`, one turn of its loop.
unfoldable pub receive : Sched → ChannelInner → Turn Message
receive s c = receive_as c s.current

unfoldable pub timeout : Message
timeout = record { opcode = receive_timeout; tag = 0; len = 0; buf = zero_buf }

abbrev dequeue_by : Sched → ℕ → ℕ → ChannelInner → Option Message × BoundedQueue → Turn Message
dequeue_by s deadline me c (none, q) =
    if leb deadline s.now
    then record { stop = returns (ok timeout); calls = []; chan = c }
    else record {
      stop = block_at me deadline;
      calls = unboost me ∷ [];
      chan = record c { recv_waiter = some me };
    }
dequeue_by s deadline me c (some m, q) = delivered m c q

abbrev receive_at_as : Sched → ChannelInner → ℕ → Option ℕ → Turn Message
receive_at_as s c deadline none = record { stop = returns panic; calls = []; chan = c }
receive_at_as s c deadline (some me) =
    if c.is_closed
    then record { stop = returns (err closed); calls = []; chan = c }
    else dequeue_by s deadline me c (pop c.queue)

-- `receive_at`, one turn of its loop.
unfoldable pub receive_at : Sched → ChannelInner → ℕ → Turn Message
receive_at s c deadline = receive_at_as s c deadline s.current

-- `reply`
unfoldable pub reply : Sched → ChannelInner → ℕ → Message → Turn (Unit {0})
reply s c tag msg =
    if msg.tag == tag
    then send s c msg
    else record { stop = returns (err bad_tag); calls = []; chan = c }
