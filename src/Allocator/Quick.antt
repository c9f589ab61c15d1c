-- ===== src/Allocator/Quick.antt =====
-- port/src/allocator.rs: allocation and freeing of blocks of the quick sizes.
use native.Mathlib.Nat.{mod-eq_of_lt, mul-mod_left, mul_assoc, div-add-mod', mod-lt}
use r9x.Prelude.{
  ℕ, ◌+◌, ◌-◌, ◌*◌, ◌/◌, ◌%◌, ◌^◌, ◌≤◌, ◌<◌, ◌≡◌, refl, sym, ap, ◌∙◌, true, false, Option, none,
  some, arith, leb, ltb, if◌then◌else◌, ok, dec_le,
}
use r9x.Allocator.{word, Ptr, Block, block, BumpAlloc, QuickFit, num_qlists, try_alloc}
use r9x.Allocator.Calls.{align_prefix, free_prefix, free_rounds, alloc_tail}
use r9x.Allocator.Sizes.{
  size_of, size_of-ge, size_of-le, size_of_split, align_offset_pow, offset_leads,
}
use r9x.Allocator.Wellformed.{Blocks, IsHeap, IsTail, WellFormed, Gains, SameUse}
use r9x.Allocator.Added.{added, added-IsHeap, added-Gains}
use r9x.Allocator.Prefix.{free_rounds-Frees, Frees}

-- A multiple of the size of a list is one of 64.
pub by_64 : (x k : ℕ) → x % size_of k ≡ 0 → x % 64 ≡ 0
by_64 x k h =
    ap (λ t. t % 64)
      (omega (arith, div-add-mod' x (size_of k), h, ap (◌*◌ (x / size_of k)) (size_of_split k))
        ∙ sym (mul_assoc (x / size_of k) (2 ^ k) 64))
    ∙ mul-mod_left (x / size_of k * 2 ^ k) 64

-- Freeing a prefix and then taking the block behind it gains that block.
Gains-after : {g g₁ g₂ : Blocks} {a k : ℕ} → SameUse g g₁ → Gains g₁ g₂ a k → Gains g g₂ a k
Gains-after same gains = record {
  given = gains.given;
  fresh = λ j u. gains.fresh j ((same _ j).0 u);
  others = λ b j ne. (
    λ u. (gains.others b j ne).0 ((same b j).0 u),
    λ u. (same b j).1 ((gains.others b j ne).1 u),
  );
}

pub retailed :
    {g : Blocks} {q : QuickFit} {top : ℕ} (n : ℕ)
    → IsHeap g q top
    → IsHeap g (record q { tail = record q.tail { cursor = n } }) top
retailed n h = record {
  count = h.count;
  chained = h.chained;
  waiting = h.waiting;
  distinct = h.distinct;
  placed = h.placed;
  apart = h.apart;
}

-- What an allocation comes to.
pub data Allocated (g : Blocks) (q : QuickFit) (k : ℕ) (o : Option Ptr) (q' : QuickFit)
    : Type 0 where
  exhausted : o ≡ none → q' ≡ q → Allocated g q k o q'
  block_at :
      {g' : Blocks} {a : Ptr}
      → o ≡ some a
      → WellFormed g' q'
      → Gains g g' a k
      → q'.tail.arena ≡ q.tail.arena
      → Allocated g q k o q'

-- A prefix at a multiple of 64 is kept whole.
pub align_prefix_aligned :
    (p n : ℕ) → p % 64 ≡ 0 → p + n < word → align_prefix (block p n) ≡ ok (block p n)
unfolding align_prefix
align_prefix_aligned p n aligned lt =
    rw
      (
        align_prefix,
        align_offset_pow p 6 (omega arith),
        aligned,
        some_bytes,
        plus_none,
        in_word,
        minus_none,
      )
      refl
  where
    some_bytes : leb ((2 ^ 6 - 0) % 2 ^ 6) n ≡ true
    some_bytes = ground arith

    plus_none : p + (2 ^ 6 - 0) % 2 ^ 6 ≡ p
    plus_none = omega arith

    in_word : p % word ≡ p
    in_word = mod-eq_of_lt (omega (arith, lt))

    minus_none : n - (2 ^ 6 - 0) % 2 ^ 6 ≡ n
    minus_none = omega arith

module _ {g : Blocks} {q : QuickFit} (wf : WellFormed g q) (k : ℕ) (lt : k < num_qlists) where
  -- Where the cursor stands, how far it is from a multiple of the size, and where it goes.
  abbrev first : ℕ
  first = q.tail.arena.ptr + q.tail.cursor

  abbrev gap : ℕ
  gap = (size_of k - first % size_of k) % size_of k

  abbrev next : ℕ
  next = q.tail.cursor + gap + size_of k

  gap-lt : gap < size_of k
  gap-lt = mod-lt (size_of k - first % size_of k) (omega (arith, size_of-ge k))

  in_word : first % word ≡ first
  in_word = mod-eq_of_lt (omega (arith, wf.tail.fits, wf.tail.inside))

  try_alloc-steps :
      try_alloc q.tail (size_of k) (size_of k)
      ≡ ok (
          if leb next q.tail.arena.len
          then (
            some (block first gap, block ((first + gap) % word) (size_of k)),
            record q.tail { cursor = next },
          )
          else (none, q.tail))
  unfolding try_alloc
  try_alloc-steps =
      rw (try_alloc, in_word, align_offset_pow first (k + 6) (omega (arith, lt)), sum₁, sum₂) refl
    where
      sum₁ : ltb (q.tail.cursor + gap) (2 ^ 64) ≡ true
      sum₁ = ground (arith, gap-lt, size_of-le k lt, wf.tail.fits, wf.tail.inside, wf.tail.start)

      sum₂ : ltb (q.tail.cursor + gap + size_of k) (2 ^ 64) ≡ true
      sum₂ = ground (arith, gap-lt, size_of-le k lt, wf.tail.fits, wf.tail.inside, wf.tail.start)

  first_by_64 : first % 64 ≡ 0
  first_by_64 = omega (arith, wf.tail.arena_aligned, wf.tail.cursor_aligned)

  -- The state once the cursor has moved on, and once the prefix is freed.
  abbrev moved : QuickFit
  moved = record q { tail = record q.tail { cursor = next } }

  prefix_freed :
      next ≤ q.tail.arena.len
      → (q' : QuickFit) × (top' : ℕ) × (free_prefix moved (block first gap) ≡ ok q')
        × (top' ≤ first + gap)
        × Frees g moved q' top'
  unfolding free_prefix
  prefix_freed le = (
    r.0,
    r.1,
    rw (free_prefix, align_prefix_aligned first gap first_by_64 (omega (arith, wf.tail.fits, le)))
        r.2,
    r.3,
    r.4,
  )
    where
      r :
          (q' : QuickFit) × (top' : ℕ) × (free_rounds (gap + 1) moved (block first gap) ≡ ok q')
          × (top' ≤ first + gap)
          × Frees g moved q' top'
      r =
          free_rounds-Frees (gap + 1) (retailed next wf.heap) (block first gap) (omega arith)
            (omega (arith, wf.tail.start)) (omega arith) (omega (arith, wf.tail.below))
            (omega (arith, wf.tail.fits, le)) first_by_64

  tail_full :
      leb next q.tail.arena.len ≡ false → alloc_tail q (size_of k) (size_of k) ≡ ok (none, q)
  unfolding alloc_tail
  tail_full e = rw (alloc_tail, try_alloc-steps, e) refl

  module _ (le : next ≤ q.tail.arena.len) where
    in_word_too : (first + gap) % word ≡ first + gap
    in_word_too = mod-eq_of_lt (omega (arith, wf.tail.fits, le))

    abbrev after : QuickFit
    after = (prefix_freed le).0

    tail_takes : alloc_tail q (size_of k) (size_of k) ≡ ok (some (first + gap), after)
    unfolding alloc_tail
    tail_takes =
        let e : leb next q.tail.arena.len ≡ true = ground (arith, le) in
        rw (alloc_tail, try_alloc-steps, e, (prefix_freed le).2, in_word_too) refl

    at_multiple : (first + gap) % size_of k ≡ 0
    at_multiple = offset_leads (size_of k) first (omega (arith, size_of-ge k))

    same_tail : after.tail ≡ record q.tail { cursor = next }
    same_tail = (prefix_freed le).4.tail

    arena_kept : after.tail.arena ≡ q.tail.arena
    arena_kept = ap (λ (t : BumpAlloc). t.arena) same_tail

    cursor_moved : after.tail.cursor ≡ next
    cursor_moved = ap (λ (t : BumpAlloc). t.cursor) same_tail

    after-IsTail : IsTail after (first + gap + size_of k)
    after-IsTail = record {
      start = omega (arith, wf.tail.start, start_kept);
      fits = omega (arith, wf.tail.fits, start_kept, len_kept);
      inside = omega (arith, le, cursor_moved, len_kept);
      below = omega (arith, cursor_moved, start_kept);
      arena_aligned = omega (arith, start_kept, wf.tail.arena_aligned);
      cursor_aligned = omega (
        arith,
        cursor_moved,
        by_64 (first + gap) k at_multiple,
        wf.tail.arena_aligned,
        size_of_split k,
      );
    }
      where
        start_kept : after.tail.arena.ptr ≡ q.tail.arena.ptr
        start_kept = ap (λ (b : Block). b.ptr) arena_kept

        len_kept : after.tail.arena.len ≡ q.tail.arena.len
        len_kept = ap (λ (b : Block). b.len) arena_kept

    taken_behind : Allocated g q k (some (first + gap)) after
    taken_behind =
        block_at {g' = added freed.blocks (first + gap) k} refl
          (record {
            top = first + gap + size_of k;
            heap =
                added-IsHeap freed.heap (first + gap) k lt (prefix_freed le).3
                  (omega (arith, ap (λ (b : Block). b.ptr) arena_kept)) at_multiple;
            tail = after-IsTail;
          })
          (Gains-after freed.same (added-Gains freed.heap (first + gap) k lt (prefix_freed le).3))
          arena_kept
      where
        freed : Frees g moved after (prefix_freed le).1
        freed = (prefix_freed le).4

  pub alloc_tail-Allocated :
      (o : Option Ptr) × (q' : QuickFit) × (alloc_tail q (size_of k) (size_of k) ≡ ok (o, q'))
      × Allocated g q k o q'
  alloc_tail-Allocated = elim (dec_le next q.tail.arena.len) [
    | yes le ↦ (some (first + gap), after le, tail_takes le, taken_behind le)
    | no gt ↦ (none, q, tail_full (ground (arith, gt)), exhausted refl refl)
  ]
