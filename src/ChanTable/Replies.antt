-- ===== src/ChanTable/Replies.antt =====
-- aarch64/src/ipc.rs: `sys_reply` against `sys_send`.
use r9x.Prelude.{ℕ, ◌%◌, ◌^◌, ◌≡◌, refl, true, List, ◌==◌, arith, min, Option-cases, inl, inr}
use r9x.Ipc.Message.{msg_max}
use r9x.Ipc.Message
use r9x.Ipc.Channel.{Sched, ChannelInner, send, reply}
use r9x.ChanTable.{ChanTable, channel}
use r9x.ChanTable.Syscalls.{UserMemory, read_user, envelope, sys_send, sys_reply}

reply-send :
    (s : Sched) (c : ChannelInner) (opcode tag : ℕ) (payload : List ℕ)
    → reply s c (tag % 2 ^ 32) (envelope opcode tag payload)
      ≡ send s c (envelope opcode tag payload)
unfolding reply Message.new
reply-send s c opcode tag payload = rw same refl
  where
    same : (tag % 2 ^ 32 == tag % 2 ^ 32) ≡ true
    same = ground arith

-- `sys_reply` does what `sys_send` does, for any arguments: the tag that it compares with is the
-- one it has just put into the message.
pub sys_reply-sys_send :
    (s : Sched) (m : UserMemory) (t : ChanTable) (handle buf len opcode tag : ℕ)
    → sys_reply s m t handle buf len opcode tag ≡ sys_send s m t handle buf len opcode tag
unfolding sys_reply sys_send
sys_reply-sys_send s m t handle buf len opcode tag = elim (Option-cases (channel t handle)) [
  | inl e ↦ rw (sys_reply, sys_send, e) refl
  | inr (c, e) ↦ elim (Option-cases (read_user m msg_max buf (min len msg_max))) [
    | inl f ↦ rw (sys_reply, sys_send, e, f) refl
    | inr (payload, f) ↦ rw (sys_reply, sys_send, e, f, reply-send s c opcode tag payload) refl
  ]
]
