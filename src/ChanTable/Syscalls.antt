-- ===== src/ChanTable/Syscalls.antt =====
-- aarch64/src/ipc.rs: the system calls on channels. A call goes as far as the next block, as the
-- operation on the channel that it makes; a call that blocked goes on with a turn of that operation.
use r9x.Prelude.{
  ℕ, zero, suc, ◌+◌, ◌-◌, ◌/◌, ◌%◌, ◌^◌, min, Bool, true, false, ◌&&◌, not, Option, none, some,
  List, [], ◌∷◌, length, take, set, get_or, Outcome, ok, err, panic, add_u64, ◌>>=◌, ◌==◌, ltb, leb,
  if◌then◌else◌,
}
use r9x.Addr.{page_size_4k, PhysRange}
use r9x.Addr.Phys.{with_len}
use r9x.Ipc.Message.{Message, IpcErr, msg_max, receive_timeout}
use r9x.Ipc.Message
use r9x.Ipc.Channel.{
  Sched, Call, ChannelInner, Stop, returns, block, block_at, Turn, send, receive, receive_at, reply,
}
use r9x.ChanTable.{ChanTable, channel, err_code, try_create}

-- The memory of the process that makes the call: what `vm::user_range_ok` says of the ranges from an
-- address on, of a length, to be written or only read, and the byte at each address.
pub record UserMemory : Type 0 where
  pub range_ok : ℕ → ℕ → Bool → Bool
  pub byte_at : ℕ → ℕ

-- What is in memory from an address on.
abbrev pub bytes_at : UserMemory → ℕ → ℕ → List ℕ
bytes_at m src zero = []
bytes_at m src (suc n) = m.byte_at src ∷ bytes_at m (src + 1) n

abbrev pub with_bytes : UserMemory → ℕ → List ℕ → UserMemory
with_bytes m dst bs = record m {
  byte_at =
      λ a. if leb dst a && ltb a (dst + length bs) then get_or bs (a - dst) 0 else m.byte_at a;
}

-- `read_user` into a buffer of `size` bytes: the bytes copied.
unfoldable pub read_user : UserMemory → ℕ → ℕ → ℕ → Option (List ℕ)
read_user m size src len =
    let n = min len size in
    if n == 0 then some [] else (if m.range_ok src n false then some (bytes_at m src n) else none)

-- `write_user`: the count of the bytes written.
unfoldable pub write_user : UserMemory → ℕ → List ℕ → ℕ → Option ℕ × UserMemory
write_user m dst src len =
    let n = min len (length src) in
    if n == 0
    then (some 0, m)
    else (if m.range_ok dst n true then (some n, with_bytes m dst (take n src)) else (none, m))

-- How far a call went: where it stopped, the scheduler calls it made, and what it left.
pub record SysTurn {ℓ} (A : Type ℓ) : Type ℓ where
  pub stop : Stop A
  pub calls : List Call
  pub table : ChanTable
  pub memory : UserMemory

abbrev pub err_bad_handle : ℕ
err_bad_handle = 1

abbrev pub err_no_slot : ℕ
err_no_slot = 8

abbrev pub err_bad_kind : ℕ
err_bad_kind = 9

abbrev pub err_bad_va : ℕ
err_bad_va = 10

-- A call that answers at once.
abbrev pub at_once {ℓ} : {A : Type ℓ} → ChanTable → UserMemory → A → SysTurn A
at_once t m a = record { stop = returns (ok a); calls = []; table = t; memory = m }

abbrev pub put_back : ChanTable → ℕ → ChannelInner → ChanTable
put_back t handle c = record t { channels = set t.channels handle c }

abbrev pub send_code : Stop (Unit {0}) → Stop ℕ
send_code (returns (ok u)) = returns (ok 0)
send_code (returns (err e)) = returns (ok (err_code e))
send_code (returns panic) = returns panic
send_code (block me) = block me
send_code (block_at me deadline) = block_at me deadline

abbrev pub sent : ChanTable → UserMemory → ℕ → Turn (Unit {0}) → SysTurn ℕ
sent t m handle turn = record {
  stop = send_code turn.stop;
  calls = turn.calls;
  table = put_back t handle turn.chan;
  memory = m;
}

-- A message from the registers and the payload.
abbrev pub envelope : ℕ → ℕ → List ℕ → Message
envelope opcode tag payload = Message.new (opcode % 2 ^ 16) (tag % 2 ^ 32) payload

abbrev send_read :
    Sched → UserMemory → ChanTable → ℕ → ChannelInner → ℕ → ℕ → Option (List ℕ) → SysTurn ℕ
send_read s m t handle c opcode tag none = at_once t m err_bad_va
send_read s m t handle c opcode tag (some payload) =
    sent t m handle (send s c (envelope opcode tag payload))

unfoldable pub sys_send : Sched → UserMemory → ChanTable → ℕ → ℕ → ℕ → ℕ → ℕ → SysTurn ℕ
sys_send s m t handle buf len opcode tag = elim (channel t handle) [
  | none ↦ at_once t m err_bad_handle
  | some c ↦ send_read s m t handle c opcode tag (read_user m msg_max buf (min len msg_max))
]

abbrev reply_read :
    Sched → UserMemory → ChanTable → ℕ → ChannelInner → ℕ → ℕ → Option (List ℕ) → SysTurn ℕ
reply_read s m t handle c opcode tag none = at_once t m err_bad_va
reply_read s m t handle c opcode tag (some payload) =
    sent t m handle (reply s c (tag % 2 ^ 32) (envelope opcode tag payload))

unfoldable pub sys_reply : Sched → UserMemory → ChanTable → ℕ → ℕ → ℕ → ℕ → ℕ → SysTurn ℕ
sys_reply s m t handle buf len opcode tag = elim (channel t handle) [
  | none ↦ at_once t m err_bad_handle
  | some c ↦ reply_read s m t handle c opcode tag (read_user m msg_max buf (min len msg_max))
]

-- `x0`, `x3` and `x4` of a receive.
pub record Received : Type 0 where
  pub x0 : ℕ
  pub x3 : ℕ
  pub x4 : ℕ

abbrev pub failed : ℕ → Received
failed code = record { x0 = code; x3 = 0; x4 = 0 }

abbrev copied : Message → Option ℕ → Received
copied msg none = failed err_bad_va
copied msg (some n) = record { x0 = msg.opcode; x3 = n; x4 = msg.tag }

-- A message that is handed to the process: as much of its payload as fits.
abbrev pub hand_out : UserMemory → ℕ → ℕ → Message → Received × UserMemory
hand_out m buf cap msg =
    let written = write_user m buf msg.buf (min msg.len cap) in (copied msg written.0, written.1)

abbrev pub receive_code :
    (Message → Received × UserMemory) → UserMemory → Stop Message → Stop Received × UserMemory
receive_code take m (returns (ok msg)) = (returns (ok (take msg).0), (take msg).1)
receive_code take m (returns (err e)) = (returns (ok (failed (err_code e))), m)
receive_code take m (returns panic) = (returns panic, m)
receive_code take m (block me) = (block me, m)
receive_code take m (block_at me deadline) = (block_at me deadline, m)

abbrev pub received :
    (Message → Received × UserMemory) → ChanTable → UserMemory → ℕ → Turn Message → SysTurn Received
received take t m handle turn =
    let code = receive_code take m turn.stop in
    record {
      stop = code.0;
      calls = turn.calls;
      table = put_back t handle turn.chan;
      memory = code.1;
    }

unfoldable pub sys_receive : Sched → UserMemory → ChanTable → ℕ → ℕ → ℕ → SysTurn Received
sys_receive s m t handle buf cap = elim (channel t handle) [
  | none ↦ at_once t m (failed err_bad_handle)
  | some c ↦ received (hand_out m buf cap) t m handle (receive s c)
]

-- A message with the opcode of a timeout is taken for one.
abbrev pub hand_out_timed : UserMemory → ℕ → ℕ → Message → Received × UserMemory
hand_out_timed m buf cap msg =
    if msg.opcode == receive_timeout then (failed receive_timeout, m) else hand_out m buf cap msg

unfoldable pub sys_receive_at : Sched → UserMemory → ChanTable → ℕ → ℕ → ℕ → ℕ → SysTurn Received
sys_receive_at s m t handle buf cap deadline = elim (channel t handle) [
  | none ↦ at_once t m (failed err_bad_handle)
  | some c ↦ received (hand_out_timed m buf cap) t m handle (receive_at s c deadline)
]

abbrev handle_code : Option ℕ → ℕ
handle_code none = err_no_slot
handle_code (some h) = h

unfoldable pub sys_createchan : ChanTable → ℕ × ChanTable
sys_createchan t = (handle_code (try_create t).0, (try_create t).1)

-- `counter` is the value of the counter of the architecture.
abbrev pub sys_clock : ℕ → ℕ → ℕ
sys_clock counter kind = if kind == 0 then counter else err_bad_kind

abbrev pub print_max : ℕ
print_max = 256

abbrev printed : Option (List ℕ) → ℕ × List ℕ
printed none = (err_bad_va, [])
printed (some bytes) = (0, bytes)

-- `sys_print`: the code, and the bytes that go to the console.
unfoldable pub sys_print : UserMemory → ℕ → ℕ → ℕ × List ℕ
sys_print m va len =
    if ltb 0 len then printed (read_user m (min len print_max) va (min len print_max)) else (0, [])

-- `Aspace::map_mmio` maps a page into the address space; the address space that it leaves comes with
-- an error too, since the tables on the way to the page may have been made.
module _ {A : Type 0} (map_mmio : A → PhysRange → ℕ → Outcome A A) where
  -- The loop of `sys_map_mmio` over the pages of the range, from `offset` on.
  unfoldable pub map_from : ℕ → ℕ → ℕ → ℕ → ℕ → A → Outcome (Unit {0}) (ℕ × A)
  map_from zero pa va size offset a = ok (0, a)
  map_from (suc fuel) pa va size offset a =
      if leb size offset
      then ok (0, a)
      else (add_u64 pa offset >>= λ page_pa. add_u64 va offset >>= λ page_va.
          with_len page_pa page_size_4k >>= λ range. elim (map_mmio a range page_va) [
            | err a₁ ↦ ok (1, a₁)
            | panic ↦ panic
            | ok a₁ ↦ add_u64 offset page_size_4k >>= λ next. map_from fuel pa va size next a₁
          ])

  -- `sys_map_mmio`, of the address space that the process has, if it has one.
  unfoldable pub sys_map_mmio : ℕ → ℕ → ℕ → Option A → Outcome (Unit {0}) (ℕ × Option A)
  sys_map_mmio pa va size none = ok (1, none)
  sys_map_mmio pa va size (some a) =
      if not (pa % page_size_4k == 0)
      then ok (1, some a)
      else (if size == 0
          then ok (1, some a)
          else (map_from (size / page_size_4k + 1) pa va size 0 a >>= λ r. ok (r.0, some r.1)))
