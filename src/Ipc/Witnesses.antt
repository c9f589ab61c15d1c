-- ===== src/Ipc/Witnesses.antt =====
-- port/src/ipc.rs: the theorems at short runs.
use r9x.Prelude.{◌+◌, ◌≡◌, refl, inl, inr, ◌++◌, some, List, [], ◌∷◌, replicate, arith}
use r9x.Ipc.Message.{Message}
use r9x.Ipc.BoundedQueue
use r9x.Ipc.BoundedQueue.Window.{window}
use r9x.Ipc.BoundedQueue.Fifo.{put, take, spec, run_refines}
use r9x.Ipc.Channel.{Sched, ChannelInner, new, send, receive_at}
use r9x.Ipc.Channel.Inv.{Models, new-Models, Sends, send-Sends}
use r9x.Ipc.Channel.Receiving.{Receives, waits_until, receive_at-Receives}
use r9x.Ipc.Channel.History.{Op, sends, tries_send, receives, receives_by, closes, run, Proper}
use r9x.Ipc.Channel.History.Fifo.{run-fifo}

abbrev hello : Message
hello = record { opcode = 1; tag = 7; len = 1; buf = 104 ∷ [] }

abbrev bye : Message
bye = record { opcode = 2; tag = 8; len = 1; buf = 98 ∷ [] }

abbrev calls : List BoundedQueue.Fifo.Op
calls = put hello ∷ put bye ∷ take ∷ take ∷ take ∷ put bye ∷ []

run_refines_example : BoundedQueue.Fifo.run BoundedQueue.new calls ≡ spec [] calls
run_refines_example = run_refines calls

abbrev idle : Sched
idle = record { current = some 1; priority = λ _. 128; now = 50 }

-- Two sends, a receive, a receive that waits, a hand-over from the kernel and a timeout.
abbrev turns : List Op
turns =
    sends idle 1 hello
    ∷ sends idle 1 bye
    ∷ receives idle 2
    ∷ receives idle 2
    ∷ receives idle 2
    ∷ tries_send hello
    ∷ receives idle 2
    ∷ receives_by idle 2 40
    ∷ closes
    ∷ []

turns-Proper : Proper turns
turns-Proper = (omega arith, (omega arith, (omega arith, tt)))

run-fifo_example :
    (ms : List Message) × Models (run new turns).chan ms
    × ((run new turns).accepted ≡ (run new turns).taken ++ ms)
run-fifo_example = run-fifo turns turns-Proper

-- Process 7 waits as the receiver, at a less urgent level than the sender 1.
abbrev awaited : ChannelInner
awaited = record new { recv_waiter = some 7 }

awaited-Models : Models awaited []
unfolding new
awaited-Models = record { queue = new-Models.queue; recv_empty = inr refl; send_full = inl refl }

abbrev ranked : Sched
ranked = record { current = some 1; priority = λ id. 100 + id; now = 50 }

send-Sends_example : Sends ranked 1 awaited [] hello (send ranked awaited hello)
send-Sends_example = send-Sends hello refl awaited-Models

-- The queue is full, and process 9 waits to send.
abbrev crowded : ChannelInner
crowded = record new {
  queue = record { slots = replicate 8 (some hello); head = 0; len = 8 };
  send_waiter = some 9;
}

crowded-Models : Models crowded (replicate 8 hello)
unfolding window new
crowded-Models = record {
  queue = record {
    size = refl;
    head_in = omega arith;
    count = refl;
    fits = omega arith;
    filled = refl;
  };
  recv_empty = inl refl;
  send_full = inr refl;
}

receive_at-Receives_example :
    Receives crowded
      (replicate 8 hello)
      (waits_until idle 1 60 crowded)
      (receive_at idle crowded 60)
receive_at-Receives_example = receive_at-Receives idle 60 (replicate 8 hello) refl crowded-Models
