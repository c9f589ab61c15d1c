-- ===== src/ChanTable/Trip/Delivery.antt =====
-- aarch64/src/ipc.rs: `sys_send` on a channel with no message and no receiver waiting, and then
-- `sys_receive`.
use r9x.Prelude.{
  some-none, ℕ, ◌+◌, ◌%◌, ◌^◌, ◌<◌, ◌≤◌, ◌≡◌, refl, sym, ap, subst, ◌∙◌, inl, Bool, true, false,
  none, some, List, [], ◌∷◌, length, get_or, ok, arith,
}
use r9x.Ipc.Message.{Message, msg_max}
use r9x.Ipc.BoundedQueue.{BoundedQueue}
use r9x.Ipc.Channel.{Sched, ChannelInner, Call, Turn, returns, send, receive}
use r9x.Ipc.Channel.Inv.{Models, Sends, send-Sends}
use r9x.Ipc.Channel.Receiving.{Receives, receive-Receives, waits_on}
use r9x.ChanTable.{ChanTable, channel}
use r9x.ChanTable.Syscalls.{
  UserMemory, bytes_at, put_back, envelope, sent, sys_send, SysTurn, Received, hand_out, received,
  sys_receive,
}
use r9x.ChanTable.Trip.{
  length-bytes_at, get_or-bytes_at, read_user-bytes_at, hand_out-envelope, write_user-byte_at,
  channel-put_back,
}

-- A channel that is open, with no message and nobody waiting to receive.
pub record IsIdle (c : ChannelInner) : Type 0 where
  pub models : Models c []
  pub no_receiver : c.recv_waiter ≡ none
  pub opened : c.is_closed ≡ false

true-false : (b : Bool) → b ≡ true → b ≡ false → ⊥
true-false b e f = cc

first_inj :
    {m n : Message} {rest : List Message} (l : List Message) → l ≡ m ∷ [] → l ≡ n ∷ rest → m ≡ n
first_inj l e f = cc

-- The turn of `send` that is taken on an idle channel.
send_idle :
    (s : Sched) {me : ℕ} {c : ChannelInner} (msg : Message)
    → s.current ≡ some me
    → IsIdle c
    → (q : BoundedQueue) × (send s c msg
        ≡ record { stop = returns (ok tt); calls = []; chan = record c { queue = q } })
      × Models (record c { queue = q }) (msg ∷ [])
send_idle s {me} {c} msg cur idle = go (send-Sends {me = me} msg cur idle.models)
  where
    go :
        Sends s me c [] msg (send s c msg)
        → (q : BoundedQueue) × (send s c msg
            ≡ record { stop = returns (ok tt); calls = []; chan = record c { queue = q } })
          × Models (record c { queue = q }) (msg ∷ [])
    go (Sends.refused e f) = absurd (true-false _ e idle.opened)
    go (Sends.handed r q calls e f g h hc k) = absurd (some-none _ f idle.no_receiver)
    go (Sends.queued q e f g room h k) =
        (q, k, record { queue = h; recv_empty = inl f; send_full = inl g })
    go (Sends.waits e f all k) = absurd (omega (arith, all))

abbrev taking : Message → ChannelInner → BoundedQueue → List Call → Turn Message
taking m c q calls = record {
  stop = returns (ok m);
  calls = calls;
  chan = record c { queue = q; send_waiter = none };
}

-- The turn of `receive` that is taken on an open channel with one message.
receive_one :
    (r : Sched) {you : ℕ} {c : ChannelInner} (msg : Message)
    → r.current ≡ some you
    → c.is_closed ≡ false
    → Models c (msg ∷ [])
    → (q : BoundedQueue) × (calls : List Call) × (receive r c ≡ taking msg c q calls)
receive_one r {you} {c} msg cur opened v = go (receive-Receives r {me = you} (msg ∷ []) cur v)
  where
    empty_cons : {l : Message} (ms : List Message) → ms ≡ l ∷ [] → ms ≡ [] → ⊥
    empty_cons ms e f = cc

    go :
        Receives c (msg ∷ []) (waits_on you c) (receive r c)
        → (q : BoundedQueue) × (calls : List Call) × (receive r c ≡ taking msg c q calls)
    go (Receives.refused e f) = absurd (true-false _ e opened)
    go (Receives.takes m rest q calls e f g h w k) =
        (q, calls, subst (λ x. receive r c ≡ taking x c q calls) (sym (first_inj _ refl g)) k)
    go (Receives.finds_none e f g k) = absurd (empty_cons _ refl g)

module _ (s : Sched) (m : UserMemory) (t : ChanTable) (handle : ℕ) where
  sys_send-sent :
      {c : ChannelInner} {turn : Turn (Unit {0})} (buf len opcode tag : ℕ)
      → channel t handle ≡ some c
      → len ≤ msg_max
      → m.range_ok buf len false ≡ true
      → send s c (envelope opcode tag (bytes_at m buf len)) ≡ turn
      → sys_send s m t handle buf len opcode tag ≡ sent t m handle turn
  unfolding sys_send
  sys_send-sent buf len opcode tag found le mapped e =
      rw (sys_send, found, read_user-bytes_at m buf len le mapped, e) refl

  sys_receive-received :
      {c : ChannelInner} {turn : Turn Message} (buf cap : ℕ)
      → channel t handle ≡ some c
      → receive s c ≡ turn
      → sys_receive s m t handle buf cap ≡ received (hand_out m buf cap) t m handle turn
  unfolding sys_receive
  sys_receive-received buf cap found e = rw (sys_receive, found, e) refl

-- What the two calls leave of a message of `len` bytes at `buf` for `dst`.
pub record Arrives (m : UserMemory) (buf len opcode tag dst : ℕ) (sending : SysTurn ℕ)
    (receiving : SysTurn Received) : Type 0 where
  pub accepted : sending.stop ≡ returns (ok 0)
  pub answered :
      receiving.stop ≡ returns (ok (record { x0 = opcode % 2 ^ 16; x3 = len; x4 = tag % 2 ^ 32 }))
  pub copied : (i : ℕ) → i < len → receiving.memory.byte_at (dst + i) ≡ m.byte_at (buf + i)

-- On an open channel with no message and nobody waiting, `sys_send` of a payload of at most 256
-- bytes, in a range that may be read, returns 0; and `sys_receive` of the table that it leaves, by
-- a process with a buffer that holds the payload and may be written, returns the opcode cut to 16
-- bits, the length and the tag cut to 32 bits, with the payload in the buffer.
pub send-receive :
    (s r : Sched) (m₁ m₂ : UserMemory) (t : ChanTable) (handle buf len opcode tag dst cap : ℕ)
    {me you : ℕ} {c : ChannelInner}
    → s.current ≡ some me
    → r.current ≡ some you
    → channel t handle ≡ some c
    → IsIdle c
    → len ≤ msg_max
    → len ≤ cap
    → m₁.range_ok buf len false ≡ true
    → m₂.range_ok dst len true ≡ true
    → Arrives m₁ buf len opcode tag dst
        (sys_send s m₁ t handle buf len opcode tag)
        (sys_receive r m₂ (sys_send s m₁ t handle buf len opcode tag).table handle dst cap)
send-receive s r m₁ m₂ t handle buf len opcode tag dst cap {c} here there found idle le room from
      to =
    let payload = bytes_at m₁ buf len in
    let msg = envelope opcode tag payload in
    let (q, e, v) = send_idle s msg here idle in
    let (q₁, calls, f) = receive_one r msg there idle.opened v in
    let sending = sys_send-sent s m₁ t handle buf len opcode tag found le from e in
    let t₁ = put_back t handle (record c { queue = q }) in
    let receiving =
      sys_receive-received r m₂ t₁ handle dst cap
        (channel-put_back t handle (record c { queue = q }) found) f in
    rw (sending, receiving)
      (record {
        accepted = refl;
        answered = ap (λ x. returns (ok x)) (answer payload (length-bytes_at m₁ buf len));
        copied = λ i lt.
            content payload (length-bytes_at m₁ buf len) i lt ∙ get_or-bytes_at m₁ buf len i lt;
      })
  where
    answer :
        (payload : List ℕ)
        → length payload ≡ len
        → (hand_out m₂ dst cap (envelope opcode tag payload)).0
          ≡ record { x0 = opcode % 2 ^ 16; x3 = len; x4 = tag % 2 ^ 32 }
    answer payload e =
        hand_out-envelope opcode tag payload (omega (arith, e, le)) m₂ dst cap
          (omega (arith, e, room)) (ap (λ n. m₂.range_ok dst n true) e ∙ to)
        ∙ ap (λ n. record { x0 = opcode % 2 ^ 16; x3 = n; x4 = tag % 2 ^ 32 }) e

    content :
        (payload : List ℕ)
        → length payload ≡ len
        → (i : ℕ) → i < len
        → (hand_out m₂ dst cap (envelope opcode tag payload)).1.byte_at (dst + i)
          ≡ get_or payload i 0
    content payload e i lt =
        write_user-byte_at opcode tag payload (omega (arith, e, le)) m₂ dst cap
          (omega (arith, e, room)) (ap (λ n. m₂.range_ok dst n true) e ∙ to) i
          (omega (arith, e, lt))
