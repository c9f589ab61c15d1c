-- ===== src/Allocator/FirstFree.antt =====
-- port/src/allocator.rs: `free` of a block that has no quick size and that has no header yet.
use r9x.Prelude.{ℕ, ◌≡◌, ◌≢◌, refl, ap, false, none, some, ok, panic, arith, get_elem?, set, ◌==◌}
use r9x.Allocator.{
  Ptr, Header, write, QuickFit, Layout, layout, min_alloc_size, adjust, power_from, list_of,
  ilog2_from, is_quick, pop_quick, unlink_from, hash,
}
use r9x.Allocator.Wellformed.{write_self}
use r9x.Allocator.Calls.{
  alloc_quick, malloc, unlink_allocated_misc, new_header, free_misc, free_by, free,
}

module _ (q : QuickFit) (x : Ptr) where
  abbrev emptied : Header
  emptied = record (q.memory x) { next = none }

  -- The heap without the block `x` at the head of its first quick list.
  abbrev popped : QuickFit
  popped = record q { qlists = set q.qlists 0 (q.memory x).next; memory = write q.memory x emptied }

  malloc-popped :
      (fuel : ℕ)
      → get_elem? q.qlists 0 ≡ some (some x)
      → malloc fuel q (layout min_alloc_size min_alloc_size) ≡ ok ((q.memory x).addr, popped)
  unfolding malloc alloc_quick pop_quick unlink_from adjust power_from list_of ilog2_from
  malloc-popped fuel first =
      rw (malloc, alloc_quick, pop_quick, first)
        (ap (λ (h : Header). ok (h.addr, popped)) (write_self q.memory x emptied))

-- The chain of the block is looked at and stays empty.
abbrev looked_up : QuickFit → Ptr → QuickFit
looked_up q b = record q { allocated_misc = set q.allocated_misc (hash b) none }

no_header_yet :
    (fuel : ℕ) (q : QuickFit) (b : Ptr)
    → get_elem? q.allocated_misc (hash b) ≡ some none
    → unlink_allocated_misc fuel q b ≡ ok (none, looked_up q b)
unfolding unlink_allocated_misc unlink_from
no_header_yet fuel q b empty = rw (unlink_allocated_misc, empty) refl

-- For a block of a layout that has no quick list, with no header in the chain of its address, and
-- with a free block of 64 bytes, not at null, at the head of the first quick list, so that `malloc`
-- gives a block for the header: `free` panics, whatever else is in the heap.
pub free-panics :
    (fuel : ℕ) (q : QuickFit) (b : Ptr) (l : Layout) {x : Ptr}
    → b ≢ 0
    → is_quick (adjust l).0 (adjust l).1 ≡ false
    → get_elem? q.allocated_misc (hash b) ≡ some none
    → get_elem? q.qlists 0 ≡ some (some x)
    → (q.memory x).addr ≢ 0
    → free fuel q b l ≡ panic
unfolding free free_by free_misc new_header
free-panics fuel q b l {x} there irregular empty first usable =
    let real : (b == 0) ≡ false = ground (arith, there) in
    let given : ((q.memory x).addr == 0) ≡ false = ground (arith, usable) in
    rw
      (
        free,
        free_by,
        real,
        irregular,
        free_misc,
        no_header_yet fuel q b empty,
        new_header,
        malloc-popped (looked_up q b) x fuel first,
        given,
      )
      refl
