-- ===== src/ChanTable/Trip.antt =====
-- aarch64/src/ipc.rs: a message from one process to another, through `sys_send` and `sys_receive`.
pub mod Delivery
use r9x.Prelude.{
  take_all, take-append, ℕ, zero, suc, ◌+◌, ◌-◌, ◌%◌, ◌^◌, ◌<◌, ◌≤◌, ◌≡◌, refl, sym, ap, ap₂, subst,
  ◌∙◌, inl, inr, min, Bool, true, false, ◌&&◌, ◌||◌, Option, none, some, List, [], ◌∷◌, ◌++◌,
  length, length-append, length-take, length-drop, length-replicate, take, drop, set, get_elem?,
  get_elem?-set_self, get_or, Outcome, ok, err, panic, ◌==◌, ltb, leb, if◌then◌else◌, arith,
  Bool-cases,
}
use r9x.Ipc.Message.{Message, msg_max, zero_buf}
use r9x.Ipc.Message
use r9x.Ipc.BoundedQueue.{BoundedQueue, queue_cap}
use r9x.Ipc.BoundedQueue.Refine.{Holds}
use r9x.Ipc.Channel.{Sched, ChannelInner, Turn, returns, send, receive}
use r9x.Ipc.Channel.Inv.{Models, Sends, send-Sends}
use r9x.Ipc.Channel.Receiving.{Receives, receive-Receives, waits_on}
use r9x.ChanTable.{ChanTable, nchannels, channel}
use r9x.ChanTable.Syscalls.{
  UserMemory, bytes_at, with_bytes, read_user, write_user, put_back, envelope, sent, sys_send,
  Received, hand_out, received, sys_receive,
}

length-bytes_at : (m : UserMemory) (src n : ℕ) → length (bytes_at m src n) ≡ n
length-bytes_at m src zero = refl
length-bytes_at m src (suc n) = ap suc (length-bytes_at m (src + 1) n)

get_or-bytes_at :
    (m : UserMemory) (src n i : ℕ) → i < n → get_or (bytes_at m src n) i 0 ≡ m.byte_at (src + i)
get_or-bytes_at m src zero i lt = absurd (omega (arith, lt))
get_or-bytes_at m src (suc n) zero lt = ap m.byte_at (omega arith)
get_or-bytes_at m src (suc n) (suc i) lt =
    get_or-bytes_at m (src + 1) n i (omega (arith, lt)) ∙ ap m.byte_at (omega arith)

-- A read within the buffer copies the bytes of the range.
read_user-bytes_at :
    (m : UserMemory) (src n : ℕ)
    → n ≤ msg_max
    → m.range_ok src n false ≡ true
    → read_user m msg_max src (min n msg_max) ≡ some (bytes_at m src n)
unfolding read_user
read_user-bytes_at m src n le mapped = elim (Bool-cases (n == 0)) [
  | inl e ↦
      let z : 0 ≡ n = ground (arith, e) in
      rw (read_user, whole, e) (ap (λ k. some (bytes_at m src k)) z)
  | inr e ↦ rw (read_user, whole, e, mapped) refl
]
  where
    whole : min (min n msg_max) msg_max ≡ n
    whole = omega (arith, le)

module _ (opcode tag : ℕ) (payload : List ℕ) (le : length payload ≤ msg_max) where
  envelope-len : (envelope opcode tag payload).len ≡ length payload
  unfolding Message.new
  envelope-len = omega (arith, le)

  fits : min (length payload) msg_max ≡ length payload
  fits = omega (arith, le)

  envelope-buf : (envelope opcode tag payload).buf ≡ payload ++ drop (length payload) zero_buf
  unfolding Message.new
  envelope-buf = rw fits (ap (λ l. l ++ drop (length payload) zero_buf) (take_all payload))

  envelope-opcode : (envelope opcode tag payload).opcode ≡ opcode % 2 ^ 16
  unfolding Message.new
  envelope-opcode = refl

  envelope-tag : (envelope opcode tag payload).tag ≡ tag % 2 ^ 32
  unfolding Message.new
  envelope-tag = refl

  -- The payload reaches the memory of a process with room for it.
  module _ (m : UserMemory) (dst cap : ℕ) (room : length payload ≤ cap)
      (mapped : m.range_ok dst (length payload) true ≡ true) where
    count :
        min (min (envelope opcode tag payload).len cap) (length (envelope opcode tag payload).buf)
        ≡ length payload
    count = omega (
      arith,
      room,
      envelope-len,
      ap length envelope-buf,
      length-append payload (drop (length payload) zero_buf),
    )

    write_user-count :
        (write_user m dst
          (envelope opcode tag payload).buf
          (min (envelope opcode tag payload).len cap)).0
        ≡ some (length payload)
    unfolding write_user
    write_user-count = elim (Bool-cases (length payload == 0)) [
      | inl e ↦ rw (write_user, count, e) (ap some (ground (arith, e)))
      | inr e ↦ rw (write_user, count, e, mapped) refl
    ]

    write_user-byte_at :
        (i : ℕ)
        → i < length payload
        → (write_user m dst
              (envelope opcode tag payload).buf
              (min (envelope opcode tag payload).len cap)).1.byte_at
            (dst + i)
          ≡ get_or payload i 0
    unfolding write_user
    write_user-byte_at i lt = elim (Bool-cases (length payload == 0)) [
      | inl e ↦ absurd (ground (arith, e, lt))
      | inr e ↦
          let inside : (leb dst (dst + i) && ltb (dst + i) (dst + length payload)) ≡ true =
            ground (arith, lt) in
          let back : dst + i - dst ≡ i = omega arith in
          rw
            (
              write_user,
              count,
              e,
              mapped,
              envelope-buf,
              take-append payload (drop (length payload) zero_buf),
              inside,
              back,
            )
            refl
    ]

    hand_out-envelope :
        (hand_out m dst cap (envelope opcode tag payload)).0
        ≡ record { x0 = opcode % 2 ^ 16; x3 = length payload; x4 = tag % 2 ^ 32 }
    hand_out-envelope =
        rw (write_user-count)
          (ap₂ (λ o t. record { x0 = o; x3 = length payload; x4 = t }) envelope-opcode envelope-tag)

channel-put_back :
    (t : ChanTable) (handle : ℕ) {c : ChannelInner} (d : ChannelInner)
    → channel t handle ≡ some c
    → channel (put_back t handle d) handle ≡ some d
unfolding channel
channel-put_back t handle {c} d e = elim (Bool-cases (leb nchannels handle || leb t.nused handle)) [
  | inl f ↦ absurd (clash _ (rw f refl) e)
  | inr f ↦
      rw f (get_elem?-set_self t.channels handle d (inside t.channels handle (sym (rw f refl) ∙ e)))
]
  where
    clash : (o : Option ChannelInner) → o ≡ none → o ≡ some c → ⊥
    clash o a b = cc

    inside : (cs : List ChannelInner) (i : ℕ) → get_elem? cs i ≡ some c → i < length cs
    inside [] i h = absurd (clash none refl h)
    inside (x ∷ cs) zero h = omega arith
    inside (x ∷ cs) (suc i) h = omega (arith, inside cs i h)
