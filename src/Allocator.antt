-- ===== src/Allocator.antt =====
-- port/src/allocator.rs: the quick-fit allocator of the kernel's heap, down to the lists of free
-- blocks and the tail that is not allocated yet. Addresses are numbers, 0 is null. The headers are
-- read and written at addresses; all of these are multiples of the size of a header, so that two
-- headers at different addresses do not overlap, and blocks in use are left to their users.
pub mod Calls
pub mod Sizes
pub mod Wellformed
pub mod Lists
pub mod Added
pub mod Prefix
pub mod Quick
pub mod Served
pub mod Freed
pub mod Irregular
pub mod FirstFree
pub mod Swapped
pub mod History
mod Tests
use Prim.Native.Nat.{bit_xor}
use r9x.Prelude.{
  ℕ, zero, suc, ◌+◌, ◌-◌, ◌*◌, ◌/◌, ◌%◌, ◌^◌, max, Bool, true, not, Option, none, some, List,
  Outcome, ok, err, panic, ◌>>=◌, add_u64, is_power_below, get_elem?, set, replicate, ltb, leb,
  ◌==◌, if◌then◌else◌, ◌&&◌, or_panic,
}

-- `usize::MAX + 1`
abbrev pub word : ℕ
word = 2 ^ 64

abbrev pub Ptr : Type 0
Ptr = ℕ

pub record Block : Type 0 where
  pub ptr : Ptr
  pub len : ℕ

abbrev pub block : Ptr → ℕ → Block
block ptr len = record { ptr = ptr; len = len }

unfoldable pub split_at_mut : Block → ℕ → Option (Block × Block)
split_at_mut b offset =
    if ltb b.len offset
    then none
    else some (block b.ptr offset, block ((b.ptr + offset) % word) (b.len - offset))

pub record BumpAlloc : Type 0 where
  pub arena : Block
  pub cursor : ℕ

-- A walk along a list of headers is given a number of nodes that it may visit.
pub data Hang : Type 0 where
  out_of_fuel : Hang

-- `<*mut u8>::align_offset` panics unless the alignment is a power of two.
unfoldable pub align_offset : Ptr → ℕ → Outcome Hang ℕ
align_offset p align = if is_power_below 64 align then ok ((align - p % align) % align) else panic

-- The prefix and the block, and the cursor behind them.
unfoldable pub try_alloc : BumpAlloc → ℕ → ℕ → Outcome Hang (Option (Block × Block) × BumpAlloc)
try_alloc b align size = do
  let first = (b.arena.ptr + b.cursor) % word
  adjust ← align_offset first align
  offset ← add_u64 b.cursor adjust
  next ← add_u64 offset size
  ok (
      if leb next b.arena.len
      then (
        some (block first adjust, block ((first + adjust) % word) size),
        record b { cursor = next },
      )
      else (none, b))

abbrev pub alloc_unit_shift : ℕ
alloc_unit_shift = 6

abbrev pub min_alloc_size : ℕ
min_alloc_size = 2 ^ alloc_unit_shift

abbrev pub max_quick_size : ℕ
max_quick_size = 2 ^ 14

abbrev pub num_qlists : ℕ
num_qlists = 14 - alloc_unit_shift + 1

abbrev pub num_hash_buckets : ℕ
num_hash_buckets = 31

pub record Header : Type 0 where
  pub next : Option Ptr
  pub addr : Ptr
  pub size : ℕ
  pub align : ℕ

-- What a read of a header at an address gives.
abbrev pub Memory : Type 0
Memory = Ptr → Header

unfoldable pub write : Memory → Ptr → Header → Memory
write m p h a = if a == p then h else m a

pub record QuickFit : Type 0 where
  pub tail : BumpAlloc
  pub qlists : List (Option Ptr)
  pub misc : Option Ptr
  pub allocated_misc : List (Option Ptr)
  pub memory : Memory

unfoldable pub new : BumpAlloc → Memory → QuickFit
new tail memory = record {
  tail = tail;
  qlists = replicate num_qlists none;
  misc = none;
  allocated_misc = replicate num_hash_buckets none;
  memory = memory;
}

pub record Layout : Type 0 where
  pub size : ℕ
  pub align : ℕ

abbrev pub layout : ℕ → ℕ → Layout
layout size align = record { size = size; align = align }

-- The first of `p`, `2 * p`, ... that is `n` or more.
unfoldable pub power_from : ℕ → ℕ → ℕ → ℕ
power_from zero p n = p
power_from (suc k) p n = elim (leb n p) [ true ↦ p | _ ↦ power_from k (2 * p) n ]

-- `usize::next_power_of_two`, for numbers up to `max_quick_size`
abbrev pub next_power_of_two : ℕ → ℕ
next_power_of_two n = power_from 14 1 n

unfoldable pub adjust : Layout → ℕ × ℕ
adjust l =
    if ltb max_quick_size l.size
    then (l.size, l.align)
    else let size = max min_alloc_size (next_power_of_two l.size) in (size, max l.align size)

-- `usize::ilog2`
unfoldable pub ilog2_from : ℕ → ℕ → ℕ
ilog2_from zero n = 0
ilog2_from (suc k) n = elim (ltb n 2) [ true ↦ 0 | _ ↦ suc (ilog2_from k (n / 2)) ]

-- The test for the quick lists, and the list that a size has.
abbrev pub is_quick : ℕ → ℕ → Bool
is_quick size align = leb size max_quick_size && align == size

unfoldable pub list_of : ℕ → ℕ
list_of size = ilog2_from 64 size - alloc_unit_shift

abbrev pub Unlinked : Type 0
Unlinked = Option Ptr × Option Ptr × Memory

-- The first node that matches, taken out of the list behind `prev`; the list that the loop is at.
unfoldable pub unlink_from :
    ℕ → Memory → (prev list : Option Ptr) → (Header → Bool) → Outcome Hang Unlinked
unlink_from fuel m prev none predicate = ok (none, none, m)
unlink_from zero m prev (some node) predicate = err out_of_fuel
unlink_from (suc fuel) m prev (some node) predicate =
    let rest = unlink_from fuel m (some node) (m node).next predicate in
    let next = (m node).next in
    let m' = write m node (record (m node) { next = none }) in
    if predicate (m node)
    then ok (elim prev [
      | none ↦ (some node, next, m')
      | some p ↦ (some node, some node, write m' p (record (m' p) { next = next }))
    ])
    else rest

abbrev pub unlink : ℕ → Memory → Option Ptr → (Header → Bool) → Outcome Hang Unlinked
unlink fuel m list predicate = unlink_from fuel m none list predicate

-- The first element and the rest: one node is visited.
abbrev pub head : Memory → Option Ptr → Outcome Hang Unlinked
head m list = unlink 1 m list (λ _. true)

-- The bit mixing of Murmur3.
abbrev pub mixed : ℕ → ℕ
mixed k = bit_xor k (k / 2 ^ 33)

unfoldable pub hash : Ptr → ℕ
hash p =
    let k = mixed p * 0xff51afd7ed558ccd % word in
    let k' = mixed k * 0xc4ceb9fe1a85ec53 % word in k' / 2 ^ 33 % num_hash_buckets

abbrev pub address : Memory → Option Ptr → Option Ptr
address m none = none
address m (some node) = some (m node).addr

-- The block of the first node of a quick list.
unfoldable pub pop_quick : QuickFit → ℕ → Outcome Hang (Option Ptr × QuickFit)
pop_quick q k = do
  list ← or_panic (get_elem? q.qlists k)
  (node, rest, m) ← head q.memory list
  ok (address m node, record q { qlists = set q.qlists k rest; memory = m })
