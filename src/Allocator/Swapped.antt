-- ===== src/Allocator/Swapped.antt =====
-- port/src/allocator.rs: what the tail gives where the size and the alignment differ.
use native.Mathlib.Nat.{mod-eq_of_lt}
use r9x.Prelude.{
  ℕ, ◌+◌, ◌-◌, ◌%◌, ◌^◌, ◌≤◌, ◌<◌, ◌≡◌, refl, sym, ap, true, false, none, some, arith, leb, ltb, ok,
}
use r9x.Allocator.{
  word, block, BumpAlloc, QuickFit, Layout, adjust, is_quick, try_alloc, unlink_from,
}
use r9x.Allocator.Calls.{free_prefix, free_rounds, alloc_tail, alloc_misc, alloc_quick, malloc}
use r9x.Allocator.Sizes.{align_offset_pow}
use r9x.Allocator.Wellformed.{Blocks, WellFormed}
use r9x.Allocator.Prefix.{free_rounds-Frees, Frees}
use r9x.Allocator.Quick.{retailed, align_prefix_aligned}

-- From the cursor to the next multiple.
abbrev pub distance : QuickFit → ℕ → ℕ
distance q size = (size - (q.tail.arena.ptr + q.tail.cursor) % size) % size

module _ {g : Blocks} {q : QuickFit} (wf : WellFormed g q) (i align : ℕ) (lt : i < 64)
    (room : q.tail.cursor + distance q (2 ^ i) + align ≤ q.tail.arena.len) where
  abbrev first : ℕ
  first = q.tail.arena.ptr + q.tail.cursor

  abbrev gap : ℕ
  gap = distance q (2 ^ i)

  abbrev moved : QuickFit
  moved = record q { tail = record q.tail { cursor = q.tail.cursor + gap + align } }

  in_word : first % word ≡ first
  in_word = mod-eq_of_lt (omega (arith, wf.tail.fits, wf.tail.inside))

  block_in_word : (first + gap) % word ≡ first + gap
  block_in_word = mod-eq_of_lt (omega (arith, wf.tail.fits, room))

  by_64 : first % 64 ≡ 0
  by_64 = omega (arith, wf.tail.arena_aligned, wf.tail.cursor_aligned)

  freed :
      (q' : QuickFit) × (top' : ℕ) × (free_rounds (gap + 1) moved (block first gap) ≡ ok q')
      × (top' ≤ first + gap)
      × Frees g moved q' top'
  freed =
      free_rounds-Frees (gap + 1) (retailed (q.tail.cursor + gap + align) wf.heap) (block first gap)
        (omega arith) (omega (arith, wf.tail.start)) (omega arith) (omega (arith, wf.tail.below))
        (omega (arith, wf.tail.fits, room)) by_64

  try_alloc-moves :
      try_alloc q.tail (2 ^ i) align
      ≡ ok (
        some (block first gap, block (first + gap) align),
        record q.tail { cursor = q.tail.cursor + gap + align },
      )
  unfolding try_alloc
  try_alloc-moves =
      rw (try_alloc, in_word, align_offset_pow first i lt, sum₁, sum₂, fits, block_in_word) refl
    where
      sum₁ : ltb (q.tail.cursor + gap) (2 ^ 64) ≡ true
      sum₁ = ground (arith, room, wf.tail.fits)

      sum₂ : ltb (q.tail.cursor + gap + align) (2 ^ 64) ≡ true
      sum₂ = ground (arith, room, wf.tail.fits)

      fits : leb (q.tail.cursor + gap + align) q.tail.arena.len ≡ true
      fits = ground (arith, room)

  alloc_tail-takes : alloc_tail q (2 ^ i) align ≡ ok (some (first + gap), freed.0)
  unfolding alloc_tail free_prefix
  alloc_tail-takes =
      rw
        (
          alloc_tail,
          try_alloc-moves,
          free_prefix,
          align_prefix_aligned first gap by_64 (omega (arith, wf.tail.fits, room)),
          freed.2,
        )
        refl

-- On a well-formed heap with no misc block, for a layout that has no quick list and whose adjusted
-- size is a power of two below 2 ^ 64, and with room behind the cursor up to the next multiple of
-- the size and for as many bytes as the alignment, `malloc` gives the next multiple of the size,
-- and the cursor ends as many bytes behind it as the alignment says, not the size.
pub malloc-swaps :
    {g : Blocks} {q : QuickFit} (fuel : ℕ) (l : Layout) (i : ℕ)
    → WellFormed g q
    → q.misc ≡ none
    → is_quick (adjust l).0 (adjust l).1 ≡ false
    → (adjust l).0 ≡ 2 ^ i
    → i < 64
    → q.tail.cursor + distance q (2 ^ i) + (adjust l).1 ≤ q.tail.arena.len
    → (q' : QuickFit) × (malloc fuel q l
        ≡ ok (q.tail.arena.ptr + q.tail.cursor + distance q (2 ^ i), q'))
      × (q'.tail.cursor ≡ q.tail.cursor + distance q (2 ^ i) + (adjust l).1)
unfolding malloc alloc_quick alloc_misc unlink_from
malloc-swaps {g} {q} fuel l i wf no_misc irregular power lt room = (
  (freed wf i (adjust l).1 lt room).0,
  rw (malloc, alloc_quick, irregular, alloc_misc, no_misc, unlink_from, power)
      (rw same_q (rw (alloc_tail-takes wf i (adjust l).1 lt room) refl)),
  ap (λ (t : BumpAlloc). t.cursor) (freed wf i (adjust l).1 lt room).4.tail,
)
  where
    same_q : record q { misc = none } ≡ q
    same_q = ap (λ m. record q { misc = m }) (sym no_misc)
