-- ===== src/Lib.antt =====
-- The kernel r9: message passing, the table of channels and its system calls, the process table,
-- timers and interrupts, physical pages and page tables, the allocator of the heap, the readers of
-- programs, devicetrees and symbol names, and the name table of the nameserver.
--
-- The program is a small kernel in Rust, with a portable part and a part for each processor, and
-- the user programs that it runs. The processes of Proc call the channels of Ipc, which wake, block
-- and boost them; Elf gives the segments that a process is made of, and PageAlloc its pages.
--   * Ipc, port/src/ipc.rs. A channel carries messages one way, through a queue of eight slots.
--     `BoundedQueue` is the queue (`push`, `pop`), `Channel` the record `ChannelInner` and the
--     operations `send`, `try_send`, `receive`, `receive_at`, `try_receive`, `reply` and `close`.
--     An operation is a turn: what the process does from its start, or from waking, up to where it
--     returns or blocks; a blocked operation starts over when the process runs again, as the loop
--     of the source does. The kernel masks interrupts in between, so that a sequence of turns is
--     what a channel sees. The scheduler is what the turn reads of it (`Sched`: the process that
--     runs, the priorities, the time) and the list of the calls that the turn makes (`Call`).
--     `Channel.History` runs sequences of turns by any processes.
--   * Addr, core/src/addr.rs. Rounding to a power of two, `VirtRange` and `PhysRange`.
--   * PageAlloc, port/src/bitmapalloc.rs and port/src/pagealloc.rs. One bit a page. `Bitmap` is the
--     bit access, `Scan` the iterator over the bytes with `allocate` and `usage_bytes`, and the
--     file itself has the marking of ranges and `deallocate`. It uses `PhysRange` of Addr.
--   * Elf, port/src/elf.rs. `parse` in two files: the headers and the segments in Elf, the symbol
--     table and `parse` itself in `Elf.Symbols`. A file is the list of its bytes.
--   * BindTable, cmd/nameserver/src/bind_table.rs. The names that servers are bound to.
--   * Proc, aarch64/src/process.rs. The process table: priorities, `pick_next` (in `Proc.Pick`),
--     waking and deadlines, spawning, waiting and killing; `Proc.Heap` is the heap break, over page
--     tables that are a parameter: mapping a page may fail, and else gives a physical page.
--   * ChanTable, aarch64/src/ipc.rs. The table of channels behind the handles, and what a process
--     that ends leaves of it; `Routes` are the routes from interrupts to channels, and `Syscalls`
--     the system calls, each a turn of the operation of Ipc that it makes. The memory of a process
--     is a parameter, `UserMemory`: the ranges that may be read or written, and its bytes. So is
--     the mapping of one page, which may fail and leaves an address space; `Mapping.Device` gives
--     `map_mmio` of Vm for it.
--   * Demangle, aarch64/src/demangle.rs. The demangler: the reading of a name, the loop over the
--     symbol in `Scan`, and what is written to the buffer, with `demangle` itself, in `Format`.
--   * Timer, aarch64/src/timer.rs. Timers, their table, and what the hardware is armed for;
--     `Timer.Interrupt` is the handler, with the callbacks as a parameter, `Timer.Claims` the race
--     of several cores for one timer, and `Timer.Intid` the interrupt's number.
--   * Vm, aarch64/src/vm.rs. Page-table entries, in tables that are a function of the address and
--     the index, and `user_range_ok`, which ChanTable asks about the memory of a process. `Vm.Map`
--     has `next_mut` and `map_to`; its allocator is the list of the pages that it gives. `Vm.Mmio`
--     has `map_phys_range`, and `map_mmio` of aarch64/src/aspace.rs.
--   * Irq, port/src/irq.rs. The depth of interrupts of each core.
--   * Allocator, port/src/allocator.rs. The quick-fit allocator of the heap, on a memory that is read
--     and written by headers: the lists, the bump allocator for the tail and `unlink`; `Calls` has
--     `malloc`, `free`, `realloc` and the global allocator. A walk along a list of headers is given
--     the number of nodes that it may visit, since a list that the code has broken may be a cycle.
--   * Fdt, core/src/fdt.rs. The reader of devicetrees: the tokens and the search for a node, its
--     children and, in `Values`, its properties and their cells; `Header` is the header and the
--     areas that it names. An iterator is the list of what it gives.
--   * Prelude has what they share: Boolean tests on numbers, lists with indices, the bits and the
--     checked arithmetic of 64-bit words, and `Outcome`: a value, an error or a panic.
--
-- Numbers are natural numbers. Both profiles of the build check for overflow and keep the debug
-- assertions, so that a sum above 64 bits and a failed assertion are a panic; where a sum cannot
-- overflow, because a table of the source's is small, the file says so.
--
-- The loop of `demangle` has the length of the symbol as fuel, since a round moves on by a byte or
-- more, and that of `sys_map_mmio` and of `user_range_ok` the number of the pages. The other loop
-- with no structural bound is the search for a free byte (`PageAlloc.Scan.find_free`).
-- Its fuel, `scan_fuel`, is one more than the number of bytes in the bitmaps: every byte is met
-- once from the start round to it again, and one more call of the iterator ends the loop. A walk
-- along the misc list of the allocator takes its fuel as an argument; for the quick sizes it is not
-- used, and a prefix is freed in fewer rounds than it has bytes. The loops of Fdt have one round
-- more than the tree has bytes, of which each token takes four.
--
-- Not modelled: the other device drivers, boot code, context switches and the locks, which are
-- accesses of the hardware; the registers of the processor and the recursive addresses of page
-- tables; names in devicetrees and what is found by them; output; the user programs.
pub mod Prelude
pub mod Ipc
pub mod Addr
pub mod PageAlloc
pub mod BindTable
pub mod Elf
pub mod Proc
pub mod Allocator
pub mod ChanTable
pub mod Demangle
pub mod Fdt
pub mod Irq
pub mod Timer
pub mod Vm
