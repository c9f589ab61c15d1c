-- ===== src/Ipc/Channel/History.antt =====
-- port/src/ipc.rs: any sequence of turns of the operations on one channel, by any processes and by
-- the kernel, and the messages that it accepts and hands out.
pub mod Fifo
use r9x.Prelude.{ℕ, ◌≢◌, none, some, List, [], ◌∷◌, ◌++◌, ok, if◌then◌else◌, ◌==◌}
use r9x.Ipc.Message.{Message, receive_timeout}
use r9x.Ipc.Channel.{
  Sched, ChannelInner, Turn, Stop, returns, send, try_send, receive, receive_at, try_receive, reply,
  close,
}

-- A turn of an operation. The scheduler is read as it stands, with the caller as the process that
-- runs; the kernel makes the `tries` with no process.
pub data Op : Type 0 where
  sends : Sched → ℕ → Message → Op
  replies : Sched → ℕ → ℕ → Message → Op
  tries_send : Message → Op
  receives : Sched → ℕ → Op
  receives_by : Sched → ℕ → ℕ → Op
  tries_receive : Op
  closes : Op

-- What a turn adds to the history: the messages accepted and those handed out.
pub record Effect : Type 0 where
  pub accepted : List Message
  pub taken : List Message
  pub chan : ChannelInner

-- A send that returns without an error has passed its message on.
abbrev accepts : Message → Stop (Unit {0}) → List Message
accepts m (returns (ok _)) = m ∷ []
accepts m _ = []

-- A receive that returns a message has taken it, unless its opcode says that the time is up.
abbrev takes_out : Stop Message → List Message
takes_out (returns (ok m)) = if m.opcode == receive_timeout then [] else m ∷ []
takes_out _ = []

abbrev pub sending : Message → Turn (Unit {0}) → Effect
sending m t = record { accepted = accepts m t.stop; taken = []; chan = t.chan }

abbrev pub receiving : Turn Message → Effect
receiving t = record { accepted = []; taken = takes_out t.stop; chan = t.chan }

abbrev pub running : Sched → ℕ → Sched
running s me = record s { current = some me }

pub step : ChannelInner → Op → Effect
step c (sends s me m) = sending m (send (running s me) c m)
step c (replies s me tag m) = sending m (reply (running s me) c tag m)
step c (tries_send m) = sending m (try_send c m)
step c (receives s me) = receiving (receive (running s me) c)
step c (receives_by s me deadline) = receiving (receive_at (running s me) c deadline)
step c tries_receive = receiving (try_receive c)
step c closes = record { accepted = []; taken = []; chan = (close c).1 }

pub run : ChannelInner → List Op → Effect
run c [] = record { accepted = []; taken = []; chan = c }
run c (op ∷ ops) =
    let first = step c op in
    let rest = run first.chan ops in
    record {
      accepted = first.accepted ++ rest.accepted;
      taken = first.taken ++ rest.taken;
      chan = rest.chan;
    }

-- The opcode that stands for a timeout is reserved: no message carries it.
abbrev pub Unreserved : List Message → Type 0
Unreserved [] = Unit {0}
Unreserved (m ∷ ms) = (m.opcode ≢ receive_timeout) × Unreserved ms

abbrev pub Proper : List Op → Type 0
Proper [] = Unit {0}
Proper (sends s me m ∷ ops) = (m.opcode ≢ receive_timeout) × Proper ops
Proper (replies s me tag m ∷ ops) = (m.opcode ≢ receive_timeout) × Proper ops
Proper (tries_send m ∷ ops) = (m.opcode ≢ receive_timeout) × Proper ops
Proper (_ ∷ ops) = Proper ops
