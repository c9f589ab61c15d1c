-- ===== src/ChanTable/Tests.antt =====
-- aarch64/src/ipc.rs: the table of channels and the system calls at concrete inputs.
use r9x.Prelude.{
  ℕ, ◌%◌, ◌≡◌, refl, inl, inr, true, false, none, some, List, [], ◌∷◌, Outcome, ok, err, panic,
  ◌>>=◌, arith, length, replicate, ltb, ◌==◌, ◌≢◌, Bool, Option, is_power_below, if◌then◌else◌,
}
use r9x.Addr.{PhysRange}
use r9x.Ipc.Channel.{Sched, ChannelInner, returns}
use r9x.Ipc.Channel
use r9x.Ipc.Channel.Inv.{new-Models}
use r9x.Ipc.BoundedQueue
use r9x.ChanTable
use r9x.ChanTable.{ChanTable, try_create, channel, close_all_for}
use r9x.ChanTable.Closing.{IsSound, Closes, close_all_for-Closes}
use r9x.ChanTable.Routes.{no_routes, sys_irq_claim}
use r9x.ChanTable.Routes.Laws.{IsRoutes, Claims, sys_irq_claim-Claims}
use r9x.ChanTable.Syscalls.{UserMemory, sys_send, sys_receive, sys_reply, sys_map_mmio}
use r9x.ChanTable.Mapping.{map_each, sys_map_mmio-map_each}
use r9x.ChanTable.Mapping.Device.{MapsPage, sys_map_mmio-MapsPage}
use r9x.Vm.{level0, va_index, user_range_ok}
use r9x.Vm.Map.{Paging, empty_entry, recursive_slot, map_to}
use r9x.Vm.Map.Typed.{Levels, IsTyped, IsFresh}
use r9x.Vm.Mmio.{map_mmio}
use r9x.ChanTable.Replies.{sys_reply-sys_send}
use r9x.ChanTable.Trip.Delivery.{IsIdle, Arrives, send-receive}

-- The second handle is 1.
createchan : (try_create (try_create ChanTable.new).1).0 ≡ some 1
unfolding try_create ChanTable.new
createchan = refl

abbrev full_table : ChanTable
full_table = record { channels = replicate 16 Channel.new; nused = 16 }

createchan_full : try_create full_table ≡ (none, full_table)
unfolding try_create
createchan_full = refl

abbrev one_table : ChanTable
one_table = record { channels = replicate 16 Channel.new; nused = 1 }

one_channel : channel one_table 0 ≡ some Channel.new
unfolding channel
one_channel = refl

abbrev waiting : ChannelInner
waiting = record {
  queue = BoundedQueue.new;
  recv_waiter = some 7;
  send_waiter = none;
  is_closed = false;
}

waiting-IsSound : IsSound waiting
unfolding Channel.new
waiting-IsSound =
    ([], record { queue = new-Models.queue; recv_empty = inr refl; send_full = inl refl })

new-IsSound : IsSound Channel.new
new-IsSound = ([], new-Models)

abbrev waiting_table : ChanTable
waiting_table = record { channels = waiting ∷ Channel.new ∷ []; nused = 2 }

close_all_for-Closes_example : Closes 7 waiting_table (close_all_for 7 waiting_table)
close_all_for-Closes_example =
    close_all_for-Closes 7 waiting_table (waiting-IsSound, (new-IsSound, tt))

no_routes-IsRoutes : IsRoutes no_routes
unfolding no_routes
no_routes-IsRoutes = record { sized = refl; counted = omega arith }

sys_irq_claim-Claims_example :
    Claims one_table no_routes 33 0 (sys_irq_claim (some 3) one_table no_routes 33 0)
sys_irq_claim-Claims_example = sys_irq_claim-Claims (some 3) one_table 33 0 no_routes-IsRoutes

abbrev memory : UserMemory
memory = record { range_ok = λ a n w. true; byte_at = λ a. a % 256 }

abbrev as_process : ℕ → Sched
as_process me = record { current = some me; priority = λ id. 0; now = 0 }

new-IsIdle : IsIdle Channel.new
unfolding Channel.new
new-IsIdle = record { models = new-Models; no_receiver = refl; opened = refl }

send-receive_example :
    Arrives memory 100 4 5 9 200 (sys_send (as_process 1) memory one_table 0 100 4 5 9) (
      sys_receive
        (as_process 2)
        memory
        (sys_send (as_process 1) memory one_table 0 100 4 5 9).table
        0
        200
        8)
send-receive_example =
    send-receive (as_process 1) (as_process 2) memory memory one_table 0 100 4 5 9 200 8 refl refl
      one_channel new-IsIdle (omega arith) (omega arith) refl refl

sys_reply-sys_send_example :
    sys_reply (as_process 1) memory one_table 0 100 4 5 9
    ≡ sys_send (as_process 1) memory one_table 0 100 4 5 9
sys_reply-sys_send_example = sys_reply-sys_send (as_process 1) memory one_table 0 100 4 5 9

-- An address space that lists the pages mapped into it, and has no tables for more than two.
abbrev list_pages : List (ℕ × ℕ) → PhysRange → ℕ → Outcome (List (ℕ × ℕ)) (List (ℕ × ℕ))
list_pages pages range va =
    if ltb (length pages) 2 then ok ((range.start, va) ∷ pages) else err pages

sys_map_mmio-map_each_example :
    sys_map_mmio list_pages 0x3f000000 0x10000 12000 (some [])
    ≡ (map_each list_pages 0x3f000000 0x10000 3 0 [] >>= λ r. ok (r.0, some r.1))
sys_map_mmio-map_each_example =
    sys_map_mmio-map_each list_pages 0x3f000000 0x10000 12000 [] refl (omega arith) (omega arith)
      (omega arith)

-- The third page cannot be mapped, and the first two stay mapped.
map_mmio_fails :
    sys_map_mmio list_pages 0x3f000000 0x10000 12000 (some [])
    ≡ ok (1, some ((0x3f001000, 0x11000) ∷ (0x3f000000, 0x10000) ∷ []))
unfolding sys_map_mmio r9x.ChanTable.Syscalls.map_from r9x.Addr.Phys.with_len
map_mmio_fails = refl

-- A range that runs past the last physical address, and the last page alone.
map_mmio_overflows : sys_map_mmio list_pages 0xfffffffffffff000 0x10000 0x2000 (some []) ≡ panic
unfolding sys_map_mmio r9x.ChanTable.Syscalls.map_from r9x.Addr.Phys.with_len
map_mmio_overflows = refl

last_page_overflows : sys_map_mmio list_pages 0xfffffffffffff000 0x10000 1 (some []) ≡ panic
unfolding sys_map_mmio r9x.ChanTable.Syscalls.map_from r9x.Addr.Phys.with_len
last_page_overflows = refl

-- A root at 0x1000 with nothing mapped, and three pages for tables.
abbrev blank : Paging
blank = record { tables = λ table index. empty_entry; supply = 0x2000 ∷ 0x3000 ∷ 0x4000 ∷ [] }

abbrev root_only : Levels
root_only = λ table. if table == 0x1000 then some level0 else none

blank-IsTyped : IsTyped root_only blank.tables
blank-IsTyped table index level e used v w = absurd (never v)
  where
    never : false ≢ true
    never h = cc

blank-IsFresh : IsFresh root_only blank.supply
blank-IsFresh = (
  refl,
  refl,
  omega arith,
  ((λ e. absurd (omega (arith, e))), ((λ e. absurd (omega (arith, e))), tt)),
  (
    refl,
    refl,
    omega arith,
    ((λ e. absurd (omega (arith, e))), tt),
    (refl, refl, omega arith, tt, tt),
  ),
)

user_slot : va_index 0x400000 level0 ≢ recursive_slot
unfolding va_index
user_slot e = omega (arith, e)

sys_map_mmio-MapsPage_example :
    MapsPage 0x1000 0x3f201000 0x400000 blank
      (sys_map_mmio (map_mmio 0x1000) 0x3f201000 0x400000 0x1000 (some blank))
sys_map_mmio-MapsPage_example =
    sys_map_mmio-MapsPage root_only 0x1000 0x3f201000 0x400000 0x1000 blank blank-IsTyped
      blank-IsFresh refl refl (omega arith) refl (omega arith) user_slot (omega arith) (omega arith)

-- What is left of a call at that root: its code, and whether the page may be written.
abbrev code_and_check : Outcome (Unit {0}) (ℕ × Option Paging) → ℕ × Bool
code_and_check (ok (code, some q)) = (code, user_range_ok q.tables 0x1000 0x400010 0xff0 true)
code_and_check _ = (9, false)

map_mmio_run :
    code_and_check (sys_map_mmio (map_mmio 0x1000) 0x3f201000 0x400000 0x1000 (some blank))
    ≡ (0, true)
unfolding sys_map_mmio r9x.ChanTable.Syscalls.map_from r9x.Addr.Phys.with_len map_mmio
    r9x.Vm.Mmio.map_phys_range r9x.Vm.Mmio.map_pages r9x.Addr.Phys.step_by_rounded
    r9x.Addr.Phys.round r9x.Addr.Phys.stepping r9x.Addr.round_down2_u64 r9x.Addr.round_up2_u64
    is_power_below map_to r9x.Vm.Map.next_mut r9x.Vm.Map.write_entry r9x.Vm.Map.clear_page va_index
    user_range_ok r9x.Vm.pages_ok r9x.Vm.user_leaf_entry r9x.Vm.walk
map_mmio_run = refl

-- With two pages for tables the page cannot be mapped.
map_mmio_short :
    code_and_check (
      sys_map_mmio
        (map_mmio 0x1000)
        0x3f201000
        0x400000
        0x1000
        (some (record blank { supply = 0x2000 ∷ 0x3000 ∷ [] })))
    ≡ (1, false)
unfolding sys_map_mmio r9x.ChanTable.Syscalls.map_from r9x.Addr.Phys.with_len map_mmio
    r9x.Vm.Mmio.map_phys_range r9x.Vm.Mmio.map_pages r9x.Addr.Phys.step_by_rounded
    r9x.Addr.Phys.round r9x.Addr.Phys.stepping r9x.Addr.round_down2_u64 r9x.Addr.round_up2_u64
    is_power_below map_to r9x.Vm.Map.next_mut r9x.Vm.Map.write_entry r9x.Vm.Map.clear_page va_index
    user_range_ok r9x.Vm.pages_ok r9x.Vm.user_leaf_entry r9x.Vm.walk
map_mmio_short = refl

-- A message with the opcode 2 reads as the error of a closed channel.
opcode_as_error :
    (sys_receive
      (as_process 2)
      memory
      (sys_send (as_process 1) memory one_table 0 100 0 2 0).table
      0
      200
      0).stop
    ≡ returns (ok (record { x0 = 2; x3 = 0; x4 = 0 }))
opcode_as_error =
    (send-receive (as_process 1) (as_process 2) memory memory one_table 0 100 0 2 0 200 0 refl refl
      one_channel new-IsIdle (omega arith) (omega arith) refl refl).answered
