-- ===== src/ChanTable.antt =====
-- aarch64/src/ipc.rs: the table of channels behind the handles of processes. A function that can
-- reschedule lists the scheduler calls that it makes, in order.
pub mod Closing
pub mod Routes
pub mod Syscalls
pub mod Trip
pub mod Replies
pub mod Mapping
mod Tests
use r9x.Prelude.{
  ℕ, zero, suc, ◌+◌, ◌-◌, min, Bool, true, false, ◌||◌, Option, none, some, List, [], ◌∷◌, ◌++◌,
  length, take, drop, replicate, get_elem?, Outcome, or_panic, ◌==◌, ltb, leb, if◌then◌else◌,
}
use r9x.Ipc.Message.{IpcErr, closed, full, bad_tag, empty}
use r9x.Ipc.Channel.{Call, ChannelInner, is_blocked_on, close}
use r9x.Ipc.Channel

abbrev pub nchannels : ℕ
nchannels = 16

-- `CHANNELS` and `NUSED`.
pub record ChanTable : Type 0 where
  pub channels : List ChannelInner
  pub nused : ℕ

unfoldable pub new : ChanTable
new = record { channels = replicate nchannels Channel.new; nused = 0 }

-- The count of channels is 64 bits wide and at most one above their number.
unfoldable pub try_create : ChanTable → Option ℕ × ChanTable
try_create t =
    let h = t.nused in
    let added = record t { nused = h + 1 } in
    if ltb h nchannels then (some h, added) else (none, record added { nused = added.nused - 1 })

-- `create`, for the start of the system.
abbrev pub create : ChanTable → Outcome IpcErr ℕ × ChanTable
create t = (or_panic (try_create t).0, (try_create t).1)

unfoldable pub channel : ChanTable → ℕ → Option ChannelInner
channel t handle =
    if leb nchannels handle || leb t.nused handle then none else get_elem? t.channels handle

-- The channels, with those closed that the process is blocked on.
unfoldable pub close_blocked : ℕ → List ChannelInner → List Call × List ChannelInner
close_blocked id [] = ([], [])
close_blocked id (c ∷ cs) =
    let rest = close_blocked id cs in
    if is_blocked_on c id
    then ((close c).0 ++ rest.0, (close c).1 ∷ rest.1)
    else (rest.0, c ∷ rest.1)

-- `close_all_for`
unfoldable pub close_all_for : ℕ → ChanTable → List Call × ChanTable
close_all_for id t =
    let n = min t.nused nchannels in
    let after = close_blocked id (take n t.channels) in
    (after.0, record t { channels = after.1 ++ drop n t.channels })

abbrev pub err_code : IpcErr → ℕ
err_code closed = 2
err_code full = 3
err_code empty = 4
err_code bad_tag = 5
