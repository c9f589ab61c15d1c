-- ===== src/Ipc/Channel/History/Fifo.antt =====
-- port/src/ipc.rs: a channel is first-in first-out over any sequence of turns.
use mathlib.Core.List.{append_assoc, append-nil}
use r9x.Prelude.{
  ℕ, ◌≡◌, ◌≢◌, inl, inr, refl, sym, ap, subst, ◌∙◌, some, List, [], ◌∷◌, ◌++◌, arith, Bool-cases,
  leb, ◌==◌,
}
use r9x.Ipc.Message.{Message, receive_timeout}
use r9x.Ipc.Channel.{Sched, ChannelInner, new, Turn, reply, close}
use r9x.Ipc.Channel.Inv.{Models, new-Models, Sends, send-Sends, TrySends, try_send-TrySends}
use r9x.Ipc.Channel.Receiving.{
  Receives, receive-Receives, receive_at-Receives, try_receive-Receives, waits_until,
}
use r9x.Ipc.Channel.History.{
  Op, sends, replies, tries_send, receives, receives_by, tries_receive, closes, Effect, sending,
  receiving, running, step, run, Unreserved, Proper,
}

Unreserved-append :
    (ms : List Message) (m : Message)
    → Unreserved ms
    → m.opcode ≢ receive_timeout
    → Unreserved (ms ++ m ∷ [])
Unreserved-append [] m u h = (h, tt)
Unreserved-append (x ∷ ms) m u h = (u.0, Unreserved-append ms m u.1 h)

-- What the turn accepts goes behind what the channel held, and what it hands out comes from there.
record Moves (ms : List Message) (e : Effect) (ms' : List Message) : Type 0 where
  models : Models e.chan ms'
  unreserved : Unreserved ms'
  balance : ms ++ e.accepted ≡ e.taken ++ ms'

sent-Moves :
    {s : Sched} {me : ℕ} {c : ChannelInner} {ms : List Message} {m : Message} {t : Turn (Unit {0})}
    → Models c ms
    → Unreserved ms
    → m.opcode ≢ receive_timeout
    → Sends s me c ms m t
    → (ms' : List Message) × Moves ms (sending m t) ms'
sent-Moves {ms = ms} v u h (Sends.refused e p) =
    (ms, rw p (record { models = v; unreserved = u; balance = append-nil ms }))
sent-Moves {m = m} v u h (Sends.handed r q calls e f g hq hc p) = (
  m ∷ [],
  rw (p, g)
      (record {
        models = record {
          queue = hq;
          recv_empty = inl refl;
          send_full = inl (ground (arith, v.send_full, g));
        };
        unreserved = (h, tt);
        balance = refl;
      }),
)
sent-Moves {ms = ms} {m = m} v u h (Sends.queued q e f g room hq p) = (
  ms ++ m ∷ [],
  rw p (record {
    models = record { queue = hq; recv_empty = inl f; send_full = inl g };
    unreserved = Unreserved-append ms m u h;
    balance = refl;
  }),
)
sent-Moves {ms = ms} v u h (Sends.waits e f all p) = (
  ms,
  rw p (record {
    models = record { queue = v.queue; recv_empty = inl f; send_full = inr all };
    unreserved = u;
    balance = append-nil ms;
  }),
)

try_sent-Moves :
    {c : ChannelInner} {ms : List Message} {m : Message} {t : Turn (Unit {0})}
    → Models c ms
    → Unreserved ms
    → m.opcode ≢ receive_timeout
    → TrySends c ms m t
    → (ms' : List Message) × Moves ms (sending m t) ms'
try_sent-Moves {ms = ms} v u h (TrySends.refused e p) =
    (ms, rw p (record { models = v; unreserved = u; balance = append-nil ms }))
try_sent-Moves {m = m} v u h (TrySends.handed r q e f g hq p) = (
  m ∷ [],
  rw (p, g)
      (record {
        models = record {
          queue = hq;
          recv_empty = inl refl;
          send_full = inl (ground (arith, v.send_full, g));
        };
        unreserved = (h, tt);
        balance = refl;
      }),
)
try_sent-Moves {ms = ms} {m = m} v u h (TrySends.queued q e f room hq p) = (
  ms ++ m ∷ [],
  rw p (record {
    models = record {
      queue = hq;
      recv_empty = inl f;
      send_full = inl (ground (arith, v.send_full));
    };
    unreserved = Unreserved-append ms m u h;
    balance = refl;
  }),
)
try_sent-Moves {ms = ms} v u h (TrySends.lost e all p) =
    (ms, rw p (record { models = v; unreserved = u; balance = append-nil ms }))

-- On an empty queue the turn must leave the queue, the send waiter and the history alone.
received-Moves :
    {c : ChannelInner} {ms : List Message} {on_empty t : Turn Message}
    → Models c ms
    → Unreserved ms
    → (ms ≡ [] → Moves [] (receiving on_empty) [])
    → Receives c ms on_empty t
    → (ms' : List Message) × Moves ms (receiving t) ms'
received-Moves {ms = ms} v u none_yet (Receives.refused e p) =
    (ms, rw p (record { models = v; unreserved = u; balance = append-nil ms }))
received-Moves {ms = ms} v u none_yet (Receives.takes m rest q calls e f g hq hc p) = (
  rest,
  rw (p, g)
      (record {
        models = record { queue = hq; recv_empty = inl f; send_full = inl refl };
        unreserved = (subst Unreserved g u).1;
        balance = ground (arith, append-nil rest, (subst Unreserved g u).0);
      }),
)
received-Moves {ms = ms} v u none_yet (Receives.finds_none e f g p) = ([], rw (p, g) (none_yet g))

idle-Moves :
    {c : ChannelInner} {ms : List Message}
    → Models c ms
    → Unreserved ms
    → Moves ms (record { accepted = []; taken = []; chan = c }) ms
idle-Moves {ms = ms} v u = record { models = v; unreserved = u; balance = append-nil ms }

waiting-Models :
    {c : ChannelInner} (me : ℕ) → Models c [] → Models (record c { recv_waiter = some me }) []
waiting-Models me v = record { queue = v.queue; recv_empty = inr refl; send_full = v.send_full }

by_deadline-Moves :
    {c : ChannelInner} (s : Sched) (me deadline : ℕ)
    → Models c []
    → Moves [] (receiving (waits_until s me deadline c)) []
by_deadline-Moves {c} s me deadline v = elim (Bool-cases (leb deadline s.now)) [
  | inl e ↦ rw e (idle-Moves v tt)
  | inr e ↦ rw e (idle-Moves (waiting-Models me v) tt)
]

close-Models : {c : ChannelInner} {ms : List Message} → Models c ms → Models (close c).1 ms
unfolding close
close-Models v = record { queue = v.queue; recv_empty = inl refl; send_full = inl refl }

reply-Moves :
    {c : ChannelInner} {ms : List Message} (m : Message) (s : Sched) (me tag : ℕ)
    → m.opcode ≢ receive_timeout
    → Models c ms
    → Unreserved ms
    → (ms' : List Message) × Moves ms (sending m (reply (running s me) c tag m)) ms'
unfolding reply
reply-Moves {c} {ms} m s me tag h v u = elim (Bool-cases (m.tag == tag)) [
  | inl e ↦ rw e (sent-Moves v u h (send-Sends {s = running s me} m refl v))
  | inr e ↦ rw e (ms, idle-Moves v u)
]

-- Whatever the turn, the channel stays well-formed and the messages balance.
step-Moves :
    {c : ChannelInner} {ms : List Message} (op : Op)
    → Proper (op ∷ [])
    → Models c ms
    → Unreserved ms
    → (ms' : List Message) × Moves ms (step c op) ms'
unfolding step
step-Moves (sends s me m) h v u = sent-Moves v u h.0 (send-Sends {s = running s me} m refl v)
step-Moves (replies s me tag m) h v u = reply-Moves m s me tag h.0 v u
step-Moves (tries_send m) h v u = try_sent-Moves v u h.0 (try_send-TrySends m v)
step-Moves {c} {ms} (receives s me) h v u =
    received-Moves v u (λ e. idle-Moves (waiting-Models me (subst (Models c) e v)) tt)
      (receive-Receives (running s me) ms refl v)
step-Moves {c} {ms} (receives_by s me deadline) h v u =
    received-Moves v u (λ e. by_deadline-Moves (running s me) me deadline (subst (Models c) e v))
      (receive_at-Receives (running s me) deadline ms refl v)
step-Moves {c} {ms} tries_receive h v u =
    received-Moves v u (λ e. idle-Moves (subst (Models c) e v) tt) (try_receive-Receives ms v)
step-Moves {ms = ms} closes h v u = (ms, idle-Moves (close-Models v) u)

Proper-head : (op : Op) (ops : List Op) → Proper (op ∷ ops) → Proper (op ∷ []) × Proper ops
Proper-head (sends s me m) ops h = ((h.0, tt), h.1)
Proper-head (replies s me tag m) ops h = ((h.0, tt), h.1)
Proper-head (tries_send m) ops h = ((h.0, tt), h.1)
Proper-head (receives s me) ops h = (tt, h)
Proper-head (receives_by s me deadline) ops h = (tt, h)
Proper-head tries_receive ops h = (tt, h)
Proper-head closes ops h = (tt, h)

balance_trans :
    (ms a b t u ms' ms'' : List Message)
    → ms ++ a ≡ t ++ ms'
    → ms' ++ b ≡ u ++ ms''
    → ms ++ (a ++ b) ≡ (t ++ u) ++ ms''
balance_trans ms a b t u ms' ms'' p q =
    sym (append_assoc ms a b)
    ∙ ap (λ l. l ++ b) p
    ∙ append_assoc t ms' b
    ∙ ap (◌++◌ t) q
    ∙ sym (append_assoc t u ms'')

run-Moves :
    (ops : List Op) {c : ChannelInner} {ms : List Message}
    → Proper ops
    → Models c ms
    → Unreserved ms
    → (ms' : List Message) × Moves ms (run c ops) ms'
unfolding run
run-Moves [] {ms = ms} h v u = (ms, idle-Moves v u)
run-Moves (op ∷ ops) {c} {ms} h v u =
    let (h₁, h₂) = Proper-head op ops h in
    let (ms', first) = step-Moves op h₁ v u in
    let (ms'', rest) = run-Moves ops h₂ first.models first.unreserved in
    (
      ms'',
      unfold run in
          record {
            models = rest.models;
            unreserved = rest.unreserved;
            balance = balance_trans ms _ _ _ _ ms' ms'' first.balance rest.balance;
          },
    )

-- After any sequence of turns of send, reply, try_send, receive, receive_at, try_receive and close
-- on a new channel, by any processes, in which no message sent carries the opcode reserved for
-- timeouts, the messages accepted are those handed out followed by those that still wait, in the
-- same order; and the channel is well-formed: its queue holds the waiting messages, a receiver is
-- recorded only while none waits, and a sender only while the queue is full.
pub run-fifo :
    (ops : List Op)
    → Proper ops
    → (ms : List Message) × Models (run new ops).chan ms
      × ((run new ops).accepted ≡ (run new ops).taken ++ ms)
run-fifo ops h = let (ms, r) = run-Moves ops h new-Models tt in (ms, r.models, r.balance)
