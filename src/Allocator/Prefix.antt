-- ===== src/Allocator/Prefix.antt =====
-- port/src/allocator.rs: a prefix that the tail leaves is cut into blocks for the quick lists.
use native.Mathlib.Nat.{mod-eq_of_lt}
use r9x.Prelude.{
  ℕ, zero, suc, ◌+◌, ◌-◌, ◌%◌, ◌≤◌, ◌<◌, ◌≡◌, refl, ap, ◌∙◌, inl, inr, Bool, false, Option, none,
  some, ◌∷◌, arith, ◌==◌, leb, ltb, ◌&&◌, if◌then◌else◌, ok, Bool-cases, dec_lt,
}
use r9x.Allocator.{word, Block, block, split_at_mut, BumpAlloc, QuickFit, num_qlists, align_offset}
use r9x.Allocator.Calls.{free_by, free_piece, try_free_below, free_rounds, push_quick}
use r9x.Allocator.Sizes.{
  size_of, size_of-ge, size_of_split, adjust_size, is_quick-size, align_offset_pow,
  aligned_of_offset, offset_of_aligned,
}
use r9x.Allocator.Wellformed.{Blocks, IsHeap, Gains, SameUse}
use r9x.Allocator.Lists.{reused, relinked, freed_header, push_quick-pushes, push_quick-IsHeap}
use r9x.Allocator.Added.{added, added-IsHeap, added-Gains, freed_again}

-- What freeing a part of a prefix, or all of it, comes to: the blocks end at `top'` or before.
pub record Frees (g : Blocks) (q q' : QuickFit) (top' : ℕ) : Type 0 where
  pub blocks : Blocks
  pub heap : IsHeap blocks q' top'
  pub tail : q'.tail ≡ q.tail
  pub same : SameUse g blocks

abbrev left_of : Block → ℕ → Option Block
left_of prefix size =
    if leb 64 (prefix.len - size)
    then some (block (prefix.ptr + size) (prefix.len - size))
    else none

module _ {g : Blocks} {q : QuickFit} {top : ℕ} (heap : IsHeap g q top) (prefix : Block)
    (start : 0 < q.tail.arena.ptr) (base : q.tail.arena.ptr ≤ prefix.ptr) (above : top ≤ prefix.ptr)
    (limit : prefix.ptr + prefix.len < word) where
  free_piece-Frees :
      (k : ℕ)
      → k < num_qlists
      → size_of k ≤ prefix.len
      → prefix.ptr % size_of k ≡ 0
      → prefix.ptr % 64 ≡ 0
      → (q' : QuickFit) × (free_piece q prefix (size_of k) ≡ ok (left_of prefix (size_of k), q'))
        × Frees g q q' (prefix.ptr + size_of k)
  unfolding free_piece split_at_mut free_by
  free_piece-Frees k lt enough aligned by_64 = (
    relinked q k (some prefix.ptr) prefix.ptr (freed_header heap k lt prefix.ptr),
    rw
        (
          free_piece,
          split_at_mut,
          fits,
          free_by,
          adjust_size k lt,
          not_null,
          is_quick-size k lt,
          pushed,
          in_word,
        )
        refl,
    record {
      blocks = reused made k (prefix.ptr ∷ made.chains k) prefix.ptr false;
      heap = push_quick-IsHeap heap' k lt prefix.ptr gained.given by_64;
      tail = refl;
      same = freed_again heap prefix.ptr k lt above (prefix.ptr ∷ made.chains k);
    },
  )
    where
      made : Blocks
      made = added g prefix.ptr k

      heap' : IsHeap made q (prefix.ptr + size_of k)
      heap' = added-IsHeap heap prefix.ptr k lt above base aligned

      gained : Gains g made prefix.ptr k
      gained = added-Gains heap prefix.ptr k lt above

      fits : ltb prefix.len (size_of k) ≡ false
      fits = ground (arith, enough)

      not_null : (prefix.ptr == 0) ≡ false
      not_null = ground (arith, start, base)

      in_word : (prefix.ptr + size_of k) % word ≡ prefix.ptr + size_of k
      in_word = mod-eq_of_lt (omega (arith, limit, enough))

      pushed :
          push_quick q prefix.ptr (size_of k) (size_of k)
          ≡ ok (relinked q k (some prefix.ptr) prefix.ptr (freed_header heap k lt prefix.ptr))
      pushed = push_quick-pushes heap' k lt prefix.ptr gained.given by_64

-- The largest piece that fits: one of 64 bytes always does.
try_free_below-finds :
    (q : QuickFit) (prefix : Block) (n : ℕ)
    → 0 < n
    → n ≤ num_qlists
    → 64 ≤ prefix.len
    → prefix.ptr % 64 ≡ 0
    → (k : ℕ) × (k < num_qlists)
      × (size_of k ≤ prefix.len)
      × (prefix.ptr % size_of k ≡ 0)
      × (try_free_below n q prefix ≡ free_piece q prefix (size_of k))
unfolding try_free_below
try_free_below-finds q prefix zero some_list le enough by_64 = absurd (omega arith)
try_free_below-finds q prefix (suc n) some_list le enough by_64 = elim (Bool-cases test) [
  | inl e ↦ (
    n,
    omega (arith, le),
    ground (arith, e),
    aligned_of_offset (size_of n) prefix.ptr (omega (arith, size_of-ge n)) (ground (arith, e)),
    rw (try_free_below, offset, e) refl,
  )
  | inr e ↦
      let r = try_free_below-finds q prefix n (positive n e) (omega (arith, le)) enough by_64 in
      (r.0, r.1, r.2, r.3, rw (try_free_below, offset, e) r.4)
]
  where
    offset :
        align_offset prefix.ptr (size_of n) ≡ ok ((size_of n - prefix.ptr % size_of n) % size_of n)
    offset = align_offset_pow prefix.ptr (n + 6) (omega (arith, le))

    test : Bool
    test = leb (size_of n) prefix.len && (size_of n - prefix.ptr % size_of n) % size_of n == 0

    positive :
        (m : ℕ)
        → (leb (size_of m) prefix.len && (size_of m - prefix.ptr % size_of m) % size_of m == 0)
          ≡ false
        → 0 < m
    positive zero e = ground (arith, e, enough, offset_of_aligned 64 prefix.ptr (omega arith) by_64)
    positive (suc m) e = omega arith

-- A prefix of less than 64 bytes has no piece.
try_free_below-none :
    (q : QuickFit) (prefix : Block) (n : ℕ)
    → n ≤ num_qlists
    → prefix.len < 64
    → try_free_below n q prefix ≡ ok (none, q)
unfolding try_free_below
try_free_below-none q prefix zero le few = refl
try_free_below-none q prefix (suc n) le few =
    rw (try_free_below, align_offset_pow prefix.ptr (n + 6) (omega (arith, le)), short)
      (try_free_below-none q prefix n (omega (arith, le)) few)
  where
    short : leb (size_of n) prefix.len ≡ false
    short = ground (arith, few, size_of-ge n)

Frees-then :
    {g : Blocks} {q q₁ q₂ : QuickFit} {t₁ t₂ : ℕ} (first : Frees g q q₁ t₁)
    → Frees first.blocks q₁ q₂ t₂
    → Frees g q q₂ t₂
Frees-then first next = record {
  blocks = next.blocks;
  heap = next.heap;
  tail = next.tail ∙ first.tail;
  same = λ b j. (
    λ u. (next.same b j).0 ((first.same b j).0 u),
    λ u. (first.same b j).1 ((next.same b j).1 u),
  );
}

pub free_rounds-Frees :
    (fuel : ℕ) {g : Blocks} {q : QuickFit} {top : ℕ} (heap : IsHeap g q top) (prefix : Block)
    → prefix.len < fuel
    → 0 < q.tail.arena.ptr
    → q.tail.arena.ptr ≤ prefix.ptr
    → top ≤ prefix.ptr
    → prefix.ptr + prefix.len < word
    → prefix.ptr % 64 ≡ 0
    → (q' : QuickFit) × (top' : ℕ) × (free_rounds fuel q prefix ≡ ok q')
      × (top' ≤ prefix.ptr + prefix.len)
      × Frees g q q' top'
unfolding free_rounds
free_rounds-Frees zero heap prefix short start base above limit by_64 = absurd (omega arith)
free_rounds-Frees (suc fuel) {g} {q} {top} heap prefix short start base above limit by_64 =
    elim (dec_lt prefix.len 64) [
      | yes few ↦ (
        q,
        top,
        rw (free_rounds, try_free_below-none q prefix num_qlists (omega arith) few) refl,
        omega (arith, above),
        record { blocks = g; heap = heap; tail = refl; same = λ b j. (λ u. u, λ u. u) },
      )
      | no many ↦
          let piece =
            try_free_below-finds q prefix num_qlists (omega arith) (omega arith)
              (omega (arith, many)) by_64 in
          let k = piece.0 in
          let freed =
            free_piece-Frees heap prefix start base above limit k piece.1 piece.2 piece.3 by_64 in
          let q₁ = freed.0 in
          let same_start : q₁.tail.arena.ptr ≡ q.tail.arena.ptr =
            ap (λ (t : BumpAlloc). t.arena.ptr) freed.2.tail in
          elim (Bool-cases (leb 64 (prefix.len - size_of k))) [
            | inr e ↦ (
              q₁,
              prefix.ptr + size_of k,
              rw (free_rounds, piece.4, freed.1, e) refl,
              omega (arith, piece.2),
              freed.2,
            )
            | inl e ↦
                let rest = block (prefix.ptr + size_of k) (prefix.len - size_of k) in
                let later =
                  free_rounds-Frees fuel freed.2.heap rest
                    (omega (arith, short, piece.2, size_of-ge k)) (omega (arith, start, same_start))
                    (omega (arith, base, same_start)) (omega arith) (omega (arith, limit, piece.2))
                    (omega (arith, by_64, size_of_split k)) in
                (
                  later.0,
                  later.1,
                  rw (free_rounds, piece.4, freed.1, e) later.2,
                  omega (arith, later.3, piece.2),
                  Frees-then freed.2 later.4,
                )
          ]
    ]
