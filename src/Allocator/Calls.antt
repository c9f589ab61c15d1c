-- ===== src/Allocator/Calls.antt =====
-- port/src/allocator.rs: `malloc`, `free`, `realloc` and the wrapper that is the global allocator.
-- The first argument of a call is the number of nodes that a walk along a list may visit.
use r9x.Prelude.{
  ℕ, zero, suc, ◌+◌, ◌-◌, ◌^◌, ◌%◌, min, Bool, true, false, Option, none, some, Outcome, ok, err,
  panic, ◌>>=◌, sub_u64, is_power_below, get_elem?, set, leb, ◌==◌, if◌then◌else◌, ◌&&◌, or_panic,
}
use r9x.Allocator.{
  word, Ptr, Block, block, split_at_mut, Hang, out_of_fuel, BumpAlloc, align_offset, try_alloc,
  alloc_unit_shift, min_alloc_size, num_qlists, Header, write, QuickFit, Layout, layout, adjust,
  is_quick, list_of, unlink, hash, pop_quick,
}

-- A block of a quick size becomes the first of its list.
unfoldable pub push_quick : QuickFit → Ptr → ℕ → ℕ → Outcome Hang QuickFit
push_quick q b size align = do
  let k = list_of size
  next ← or_panic (get_elem? q.qlists k)
  offset ← align_offset b min_alloc_size
  let header : Header = record { next = next; addr = b; size = size; align = align }
  if offset == 0
      then ok (record q { memory = write q.memory b header; qlists = set q.qlists k (some b) })
      else panic

-- `free`, by what it does to a block of no quick size.
unfoldable pub free_by :
    (QuickFit → Ptr → ℕ → ℕ → Outcome Hang QuickFit)
    → QuickFit
    → Ptr
    → Layout
    → Outcome Hang QuickFit
free_by misc q b l =
    let size = (adjust l).0 in
    let align = (adjust l).1 in
    if b == 0
    then ok q
    else if is_quick size align
    then push_quick q b size align
    else misc q b size align

-- What is freed of a prefix has a quick size.
abbrev pub no_misc : QuickFit → Ptr → ℕ → ℕ → Outcome Hang QuickFit
no_misc q b size align = err out_of_fuel

unfoldable pub align_prefix : Block → Outcome Hang Block
align_prefix b = do
  offset ← align_offset b.ptr min_alloc_size
  if leb offset b.len then ok (block ((b.ptr + offset) % word) (b.len - offset)) else panic

-- `from_size_align(size, size).unwrap()` is given powers of two below 2 ^ 15.
unfoldable pub free_piece : QuickFit → Block → ℕ → Outcome Hang (Option Block × QuickFit)
free_piece q prefix size = elim (split_at_mut prefix size) [
  | none ↦ ok (none, q)
  | some (a, rest) ↦ free_by no_misc q prefix.ptr (layout size size) >>= λ q'.
      ok (if leb min_alloc_size rest.len then some rest else none, q')
]

-- The sizes of the lists below `k`, the largest first.
unfoldable pub try_free_below : ℕ → QuickFit → Block → Outcome Hang (Option Block × QuickFit)
try_free_below zero q prefix = ok (none, q)
try_free_below (suc k) q prefix =
    let size = 2 ^ (k + alloc_unit_shift) in
    let smaller = try_free_below k q prefix in
    align_offset prefix.ptr size >>= λ offset.
    if leb size prefix.len && offset == 0 then free_piece q prefix size else smaller

abbrev pub try_free_prefix : QuickFit → Block → Outcome Hang (Option Block × QuickFit)
try_free_prefix = try_free_below num_qlists

-- Every round frees a byte or more, so that the length of the prefix is fuel enough.
unfoldable pub free_rounds : ℕ → QuickFit → Block → Outcome Hang QuickFit
free_rounds zero q prefix = err out_of_fuel
free_rounds (suc fuel) q prefix = try_free_prefix q prefix >>= λ (rest, q'). elim rest [
  | none ↦ ok q'
  | some r ↦ free_rounds fuel q' r
]

unfoldable pub free_prefix : QuickFit → Block → Outcome Hang QuickFit
free_prefix q prefix = align_prefix prefix >>= λ b. free_rounds (b.len + 1) q b

-- The source calls `self.tail.try_alloc(size, align)`, whose parameters are the alignment and the size.
unfoldable pub alloc_tail : QuickFit → ℕ → ℕ → Outcome Hang (Option Ptr × QuickFit)
alloc_tail q size align = try_alloc q.tail size align >>= λ (blocks, tail). elim blocks [
  | none ↦ ok (none, q)
  | some (prefix, b) ↦ free_prefix (record q { tail = tail }) prefix >>= λ q'. ok (some b.ptr, q')
]

-- The node goes to the chain of its address.
unfoldable pub chain_up : QuickFit → Ptr → Outcome Hang QuickFit
chain_up q node = do
  let k = hash (q.memory node).addr
  chain ← or_panic (get_elem? q.allocated_misc k)
  let header = record (q.memory node) { next = chain }
  ok (record q {
    memory = write q.memory node header;
    allocated_misc = set q.allocated_misc k (some node);
  })

unfoldable pub alloc_misc : ℕ → QuickFit → ℕ → ℕ → Outcome Hang (Option Ptr × QuickFit)
alloc_misc fuel q size align = do
  (node, list, m) ← unlink fuel q.memory q.misc (λ h. leb size h.size && leb align h.align)
  let q' = record q { misc = list; memory = m }
  elim node [ none ↦ ok (none, q') | some n ↦ chain_up q' n >>= λ q''. ok (some (m n).addr, q'') ]

unfoldable pub alloc_quick : ℕ → QuickFit → ℕ → ℕ → Outcome Hang (Option Ptr × QuickFit)
alloc_quick fuel q size align =
    if is_quick size align then pop_quick q (list_of size) else alloc_misc fuel q size align

abbrev pub ptr_or_null : Option Ptr → Ptr
ptr_or_null none = 0
ptr_or_null (some p) = p

unfoldable pub malloc : ℕ → QuickFit → Layout → Outcome Hang (Ptr × QuickFit)
malloc fuel q l = do
  let size = (adjust l).0
  let align = (adjust l).1
  (p, q') ← alloc_quick fuel q size align
  (p', q'') ← elim p [ none ↦ alloc_tail q' size align | some b ↦ ok (some b, q') ]
  ok (ptr_or_null p', q'')

unfoldable pub unlink_allocated_misc : ℕ → QuickFit → Ptr → Outcome Hang (Option Ptr × QuickFit)
unlink_allocated_misc fuel q b = do
  let k = hash b
  list ← or_panic (get_elem? q.allocated_misc k)
  (node, rest, m) ← unlink fuel q.memory list (λ h. h.addr == b)
  ok (node, record q { allocated_misc = set q.allocated_misc k rest; memory = m })

-- A header for a block that has none, cut from the front of the block where `malloc` gives null. A
-- header that `malloc` gives fails `.is_null().then(..).expect("allocated header block")`.
unfoldable pub new_header : ℕ → QuickFit → Ptr → ℕ → ℕ → Outcome Hang (Ptr × QuickFit)
new_header fuel q b size align = do
  (h, q') ← malloc fuel q (layout min_alloc_size min_alloc_size)
  let cut = do
    offset ← align_offset b min_alloc_size
    let node = (b + offset) % word
    left ← sub_u64 size (offset + min_alloc_size)
    let next = (node + min_alloc_size) % word
    let small : Header = record { next = none; addr = next; size = left; align = min_alloc_size }
    ok (node, record q' { memory = write q'.memory node small })
  if h == 0 then cut else panic

unfoldable pub free_misc : ℕ → QuickFit → Ptr → ℕ → ℕ → Outcome Hang QuickFit
free_misc fuel q b size align = do
  (node, q') ← unlink_allocated_misc fuel q b
  (n, q'') ← elim node [ none ↦ new_header fuel q' b size align | some n ↦ ok (n, q') ]
  let header = record (q''.memory n) { next = q''.misc }
  ok (record q'' { memory = write q''.memory n header; misc = some n })

unfoldable pub free : ℕ → QuickFit → Ptr → Layout → Outcome Hang QuickFit
free fuel = free_by (free_misc fuel)

-- The bytes that are copied: from, to and how many.
abbrev pub Copy : Type 0
Copy = Option (Ptr × Ptr × ℕ)

-- `Layout::from_size_align` refuses a size that rounds up to more than `isize::MAX`.
unfoldable pub from_size_align : ℕ → ℕ → Outcome Hang Layout
from_size_align size align =
    if is_power_below 64 align && leb (size + align) (2 ^ 63) then ok (layout size align) else panic

unfoldable pub realloc : ℕ → QuickFit → Ptr → Layout → ℕ → Outcome Hang (Ptr × Copy × QuickFit)
realloc fuel q b l new_size =
    let anew = do
      new_layout ← from_size_align new_size l.align
      let moved = do
        (np, q') ← malloc fuel q new_layout
        if np == 0
            then ok (np, none, q')
            else free fuel q' b l >>= λ q''. ok (np, some (b, np, min l.size new_size), q'')
      if (adjust new_layout).0 == l.size && (adjust new_layout).1 == l.align
          then ok (b, none, q)
          else moved
    in if b == 0 then (malloc fuel q l >>= λ (p, q'). ok (p, none, q')) else anew

-- The global allocator holds a pointer to the QuickFit; an interrupt must not allocate.
unfoldable pub with_allocator {ℓ} :
    {R : Type ℓ}
    → Bool
    → Option QuickFit
    → (QuickFit → Outcome Hang (R × QuickFit))
    → Outcome Hang (R × Option QuickFit)
with_allocator true a thunk = panic
with_allocator false none thunk = panic
with_allocator false (some q) thunk = thunk q >>= λ (r, q'). ok (r, some q')

-- `GlobalAlloc`, at an allocator behind the pointer, in or out of an interrupt.
unfoldable pub global_alloc :
    ℕ → Bool → Option QuickFit → Layout → Outcome Hang (Ptr × Option QuickFit)
global_alloc fuel irq a l = with_allocator irq a (λ q. malloc fuel q l)

unfoldable pub global_dealloc :
    ℕ → Bool → Option QuickFit → Ptr → Layout → Outcome Hang (Unit {0} × Option QuickFit)
global_dealloc fuel irq a p l = with_allocator irq a (λ q. free fuel q p l >>= λ q'. ok (tt, q'))

unfoldable pub global_realloc :
    ℕ → Bool → Option QuickFit → Ptr → Layout → ℕ → Outcome Hang ((Ptr × Copy) × Option QuickFit)
global_realloc fuel irq a p l n =
    with_allocator irq a (λ q. realloc fuel q p l n >>= λ (np, copy, q'). ok ((np, copy), q'))

-- `BumpAlloc` as an allocator of its own; it frees nothing.
unfoldable pub bump_allocate : BumpAlloc → Layout → Outcome Hang (Option Block × BumpAlloc)
bump_allocate b l = try_alloc b l.size l.align >>= λ (blocks, b'). elim blocks [
  | none ↦ ok (none, b')
  | some (prefix, given) ↦ ok (some given, b')
]

unfoldable pub bump_deallocate : BumpAlloc → Ptr → Layout → Outcome Hang BumpAlloc
bump_deallocate b p l = panic
