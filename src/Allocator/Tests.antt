-- ===== src/Allocator/Tests.antt =====
-- port/src/allocator.rs: runs of the allocator, and its theorems at concrete heaps.
use native.Mathlib.Nat.{pow-le-pow_right}
use r9x.Prelude.{
  ℕ, ◌+◌, ◌^◌, ◌≡◌, ◌≢◌, ◌↔◌, refl, none, some, Outcome, ok, panic, ◌>>=◌, arith, is_power_below,
  ◌==◌, dec_le, if◌then◌else◌, List, [], ◌∷◌,
}
use r9x.Allocator
use r9x.Allocator.{
  Ptr, Block, block, BumpAlloc, Hang, Header, Memory, QuickFit, Layout, layout, new, adjust,
  is_quick,
}
use r9x.Allocator.Calls
use r9x.Allocator.Calls.{malloc, free, realloc}
use r9x.Allocator.Wellformed.{Blocks, InUse, WellFormed}
use r9x.Allocator.Added.{added, added-IsHeap}
use r9x.Allocator.Quick.{retailed}
use r9x.Allocator.Served.{malloc-Mallocs, Mallocs}
use r9x.Allocator.Freed.{free-Frees, free-malloc, no_blocks, new-WellFormed}
use r9x.Allocator.History.{Held, IsQuick, History, start, mallocs, AllApart, History-apart}
use r9x.Allocator.Irregular.{malloc-panics, malloc-twice, SecondFits}
use r9x.Allocator.FirstFree.{free-panics}
use r9x.Allocator.Swapped.{malloc-swaps}

abbrev no_header : Header
no_header = record { next = none; addr = 0; size = 0; align = 0 }

abbrev arena : Block
arena = block (2 ^ 20) (2 ^ 22)

abbrev heap : QuickFit
heap = new (record { arena = arena; cursor = 0 }) (λ a. no_header)

heap-WellFormed : WellFormed no_blocks heap
heap-WellFormed = new-WellFormed arena (λ a. no_header) (omega arith) (omega arith) (omega arith)

-- Two blocks; the first is freed and given out again.
abbrev reuse : Outcome Hang (Ptr × Ptr × Ptr)
reuse = do
  (a, q) ← malloc 0 heap (layout 100 8)
  (b, q) ← malloc 0 q (layout 200 8)
  q ← free 0 q a (layout 100 8)
  (c, q) ← malloc 0 q (layout 128 8)
  ok (a, b, c)

reuse_run : reuse ≡ ok (2 ^ 20, 2 ^ 20 + 256, 2 ^ 20)
unfolding malloc free Calls.alloc_quick Calls.alloc_tail Calls.free_by Calls.push_quick
    Calls.free_prefix Calls.free_rounds Calls.try_free_below Calls.free_piece Calls.align_prefix
    Allocator.try_alloc Allocator.align_offset Allocator.split_at_mut Allocator.adjust
    Allocator.power_from Allocator.list_of Allocator.ilog2_from Allocator.pop_quick
    Allocator.unlink_from Allocator.write new is_power_below
reuse_run = refl

malloc-Mallocs_example :
    (p : Ptr) × (q' : QuickFit) × (malloc 0 heap (layout 100 8) ≡ ok (p, q'))
    × Mallocs no_blocks heap (layout 100 8) p q'
unfolding Allocator.adjust Allocator.power_from
malloc-Mallocs_example =
    malloc-Mallocs 0 (layout 100 8) 3 heap-WellFormed (omega arith) refl (omega arith)

no_power : (j : ℕ) → 20000 ≢ 2 ^ j
no_power j e = elim (dec_le j 14) [
  | yes le ↦ omega (arith, e, pow-le-pow_right {n = 2} (omega arith) {i = j} {j = 14} le)
  | no gt ↦
      omega (arith, e, pow-le-pow_right {n = 2} (omega arith) {i = 15} {j = j} (omega (arith, gt)))
]

malloc-panics_example : malloc 0 heap (layout 20000 8) ≡ panic
unfolding new
malloc-panics_example = malloc-panics 0 heap (layout 20000 8) (omega arith) no_power refl

-- A block of 128 bytes in use at the start of the arena.
abbrev one_block : Blocks
one_block = added no_blocks (2 ^ 20) 1

abbrev heap_of_one : QuickFit
heap_of_one = record heap { tail = record { arena = arena; cursor = 128 } }

heap_of_one-WellFormed : WellFormed one_block heap_of_one
unfolding new
heap_of_one-WellFormed = record {
  top = 2 ^ 20 + 128;
  heap =
      added-IsHeap (retailed 128 heap-WellFormed.heap) (2 ^ 20) 1 (omega arith)
        (omega (arith, heap-WellFormed.tail.below)) (omega arith) (omega arith);
  tail = record {
    start = omega arith;
    fits = omega arith;
    inside = omega arith;
    below = omega arith;
    arena_aligned = omega arith;
    cursor_aligned = omega arith;
  };
}

free-Frees_example :
    (q' : QuickFit) × (g' : Blocks) × (free 0 heap_of_one (2 ^ 20) (layout 100 8) ≡ ok q')
    × WellFormed g' q'
    × ((b j : ℕ) → InUse g' b j ↔ (InUse one_block b j × b ≢ 2 ^ 20))
unfolding Allocator.adjust Allocator.power_from
free-Frees_example =
    free-Frees 0 (2 ^ 20) (layout 100 8) {k = 1} heap_of_one-WellFormed (refl, refl) refl

free-malloc_example :
    (q' q'' : QuickFit) × (free 0 heap_of_one (2 ^ 20) (layout 100 8) ≡ ok q')
    × (malloc 0 q' (layout 100 8) ≡ ok (2 ^ 20, q''))
    × (q''.qlists ≡ heap_of_one.qlists)
    × (q''.tail ≡ heap_of_one.tail)
unfolding Allocator.adjust Allocator.power_from
free-malloc_example =
    free-malloc 0 (2 ^ 20) (layout 100 8) {k = 1} heap_of_one-WellFormed (refl, refl) refl

-- Two blocks were freed, and the second is asked for again.
abbrev small_block : Header
small_block = record { next = some (2 ^ 21); addr = 2 ^ 21; size = 2 ^ 15; align = 64 }

abbrev large_block : Header
large_block = record { next = none; addr = 2 ^ 22; size = 2 ^ 16; align = 64 }

abbrev two_free : QuickFit
two_free = record heap {
  misc = some (2 ^ 20);
  memory = λ a. if a == 2 ^ 20 then small_block else large_block;
}

malloc-twice_example :
    (q' q'' : QuickFit) × (malloc 2 two_free (layout (2 ^ 16) 64) ≡ ok (2 ^ 22, q'))
    × (malloc 2 q' (layout (2 ^ 16) 64) ≡ ok (2 ^ 22, q''))
unfolding Allocator.adjust new
malloc-twice_example =
    malloc-twice 0 (layout (2 ^ 16) 64) {x = 2 ^ 20} {y = 2 ^ 21} refl two_free-SecondFits
  where
    two_free-SecondFits : SecondFits two_free (2 ^ 16) 64 (2 ^ 20) (2 ^ 21)
    two_free-SecondFits = record {
      first = refl;
      second = refl;
      other = λ e. omega (arith, e);
      too_small = refl;
      large_enough = refl;
      buckets = refl;
    }

-- A block of 64 bytes is free, and a block of 32 KiB is freed for the first time.
abbrev one_free : QuickFit
one_free = record heap {
  qlists = some (2 ^ 20) ∷ [];
  memory = λ a. record { next = none; addr = 2 ^ 20; size = 64; align = 64 };
}

free-panics_example : free 0 one_free (2 ^ 21) (layout (2 ^ 15) 64) ≡ panic
unfolding Allocator.adjust Allocator.hash new
free-panics_example =
    free-panics 0 one_free (2 ^ 21) (layout (2 ^ 15) 64) {x = 2 ^ 20} (λ e. omega (arith, e)) refl
      refl refl (λ e. omega (arith, e))

-- A block of 32 KiB and one of 64 bytes; the small one is freed, and then the large one.
abbrev first_free : Outcome Hang QuickFit
first_free = do
  (a, q) ← malloc 0 heap (layout (2 ^ 15) 64)
  (b, q) ← malloc 0 q (layout 64 64)
  q ← free 0 q b (layout 64 64)
  free 0 q a (layout (2 ^ 15) 64)

first_free_run : first_free ≡ panic
unfolding malloc free Calls.alloc_quick Calls.alloc_misc Calls.alloc_tail Calls.free_by
    Calls.push_quick Calls.free_misc Calls.new_header Calls.unlink_allocated_misc Calls.free_prefix
    Calls.free_rounds Calls.try_free_below Calls.free_piece Calls.align_prefix Allocator.try_alloc
    Allocator.align_offset Allocator.split_at_mut Allocator.adjust Allocator.power_from
    Allocator.list_of Allocator.ilog2_from Allocator.pop_quick Allocator.unlink_from Allocator.write
    Allocator.hash new is_power_below
first_free_run = refl

-- A block of 32 KiB is given 64 bytes of the tail.
malloc-swaps_example :
    (q' : QuickFit) × (malloc 0 heap_of_one (layout (2 ^ 15) 64) ≡ ok (2 ^ 20 + 2 ^ 15, q'))
    × (q'.tail.cursor ≡ 2 ^ 15 + 64)
unfolding Allocator.adjust new
malloc-swaps_example =
    malloc-swaps 0 (layout (2 ^ 15) 64) 15 heap_of_one-WellFormed refl refl refl (omega arith)
      (omega arith)

-- Two blocks are held.
abbrev heap_of_two : QuickFit
heap_of_two = record heap { tail = record { arena = arena; cursor = 192 } }

abbrev two_held : List Held
two_held = (2 ^ 20 + 128, layout 60 8) ∷ (2 ^ 20, layout 100 8) ∷ []

two_held-History : History arena heap_of_two two_held
unfolding malloc Calls.alloc_quick Calls.alloc_tail Calls.free_prefix Calls.free_rounds
    Calls.try_free_below Calls.align_prefix Allocator.try_alloc Allocator.align_offset
    Allocator.adjust Allocator.power_from Allocator.list_of Allocator.ilog2_from Allocator.pop_quick
    Allocator.unlink_from new is_power_below
two_held-History =
    mallocs {q = heap_of_one} 0 (layout 60 8)
      (mallocs {q = heap} 0 (layout 100 8) (start (λ a. no_header)) quick_100 refl
        (λ e. omega (arith, e)))
      quick_60 refl (λ e. omega (arith, e))
  where
    quick_100 : IsQuick (layout 100 8)
    quick_100 = record { small = omega arith; power = 3; is_power = refl; fine = omega arith }

    quick_60 : IsQuick (layout 60 8)
    quick_60 = record { small = omega arith; power = 3; is_power = refl; fine = omega arith }

History-apart_example :
    AllApart two_held
    × ((fuel : ℕ) (l : Layout)
        → IsQuick l
        → (p : Ptr) × (q' : QuickFit) × (malloc fuel heap_of_two l ≡ ok (p, q')))
History-apart_example =
    History-apart {arena = arena} (omega arith) (omega arith) (omega arith) two_held-History
