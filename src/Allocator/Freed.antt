-- ===== src/Allocator/Freed.antt =====
-- port/src/allocator.rs: `free` of a block of a quick size, `malloc` after it, and the new heap.
use r9x.Prelude.{
  ℕ, zero, suc, ◌+◌, ◌%◌, ◌^◌, ◌≤◌, ◌<◌, ◌≡◌, ◌≢◌, refl, sym, ap, ◌∙◌, ◌↔◌, Bool, true, false,
  Option, none, some, ◌∷◌, arith, ◌==◌, ok, ℕ_discrete, get_elem?, get_elem?-set_self, set, get_or,
  replicate, [],
}
use r9x.Allocator.{
  Ptr, Block, QuickFit, Layout, num_qlists, adjust, pop_quick, Memory, new, Header, write,
  unlink_from,
}
use r9x.Allocator.Calls.{alloc_quick, malloc, free, free_by}
use r9x.Allocator.Sizes.{size_of, is_quick-size, list_of_size}
use r9x.Allocator.Wellformed.{Blocks, update, InUse, WellFormed, update_self, update_ne, write_self}
use r9x.Allocator.Lists.{
  reused, relinked, freed_header, push_quick-pushes, push_quick-IsHeap, set-set_back,
}
use r9x.Allocator.Quick.{by_64}
use r9x.Allocator.Served.{tail-IsTail}

module _ {g : Blocks} {q : QuickFit} (wf : WellFormed g q) (l : Layout) (p : Ptr) {k : ℕ}
    (held : InUse g p k) (adjusted : adjust l ≡ (size_of k, size_of k)) where
  abbrev place :
      (k < num_qlists) × (q.tail.arena.ptr ≤ p) × (p + size_of k ≤ wf.top) × (p % size_of k ≡ 0)
  place = wf.heap.placed p k held.0

  abbrev freed : QuickFit
  freed = relinked q k (some p) p (freed_header wf.heap k place.0 p)

  abbrev freed_blocks : Blocks
  freed_blocks = reused g k (p ∷ g.chains k) p false

  free-steps : (fuel : ℕ) → free fuel q p l ≡ ok freed
  unfolding free free_by
  free-steps fuel =
      rw
        (
          free,
          free_by,
          not_null,
          adjusted,
          is_quick-size k place.0,
          push_quick-pushes wf.heap k place.0 p held (by_64 p k place.3),
        )
        refl
    where
      not_null : (p == 0) ≡ false
      not_null = ground (arith, place.1, wf.tail.start)

  freed-WellFormed : WellFormed freed_blocks freed
  freed-WellFormed = record {
    top = wf.top;
    heap = push_quick-IsHeap wf.heap k place.0 p held (by_64 p k place.3);
    tail = tail-IsTail refl wf.tail;
  }

-- On a well-formed heap, for a block in use and a layout that `adjust` rounds to the size of the
-- block in size and alignment, `free` returns; the heap stays well-formed, and the blocks in use
-- are those before without this one.
pub free-Frees :
    {g : Blocks} {q : QuickFit} (fuel : ℕ) (p : Ptr) (l : Layout) {k : ℕ}
    → WellFormed g q
    → InUse g p k
    → adjust l ≡ (size_of k, size_of k)
    → (q' : QuickFit) × (g' : Blocks) × (free fuel q p l ≡ ok q')
      × WellFormed g' q'
      × ((b j : ℕ) → InUse g' b j ↔ (InUse g b j × b ≢ p))
free-Frees {g} fuel p l {k} wf held adjusted = (
  freed wf l p held adjusted,
  freed_blocks wf l p held adjusted,
  free-steps wf l p held adjusted fuel,
  freed-WellFormed wf l p held adjusted,
  λ b j. elim (ℕ_discrete b p) [
    | yes e ↦ (
      λ u. absurd (clash _ u.1 (ap (update g.used p false) e ∙ update_self g.used p false)),
      λ u. absurd (u.1 e),
    )
    | no ne ↦ (
      λ u. ((u.0, sym (update_ne g.used false ne) ∙ u.1), ne),
      λ u. (u.0.0, update_ne g.used false ne ∙ u.0.1),
    )
  ],
)
  where
    clash : (c : Bool) → c ≡ true → c ≡ false → ⊥
    clash c e f = cc

-- On a well-formed heap, for a block in use and a layout that `adjust` rounds to the size of the
-- block in size and alignment, `free` returns, `malloc` of the same layout then gives the same
-- block, and the quick lists and the tail are as before.
pub free-malloc :
    {g : Blocks} {q : QuickFit} (fuel : ℕ) (p : Ptr) (l : Layout) {k : ℕ}
    → WellFormed g q
    → InUse g p k
    → adjust l ≡ (size_of k, size_of k)
    → (q' q'' : QuickFit) × (free fuel q p l ≡ ok q')
      × (malloc fuel q' l ≡ ok (p, q''))
      × (q''.qlists ≡ q.qlists)
      × (q''.tail ≡ q.tail)
unfolding malloc alloc_quick pop_quick unlink_from
free-malloc {g} {q} fuel p l {k} wf held adjusted = (
  q',
  q'',
  free-steps wf l p held adjusted fuel,
  rw (malloc, adjusted, alloc_quick, is_quick-size k lt, list_of_size k lt, on_list)
      (ap (λ (a : Ptr). ok (a, after))
        (ap (λ (r : Header). r.addr) (write_self q'.memory p emptied)
          ∙ ap (λ (r : Header). r.addr) header_at)),
  ap (λ (r : Header). set q'.qlists k r.next) header_at ∙ set-set_back q.qlists k (some p) none,
  refl,
)
  where
    lt : k < num_qlists
    lt = (wf.heap.placed p k held.0).0

    q' : QuickFit
    q' = freed wf l p held adjusted

    h : Header
    h = freed_header wf.heap k lt p

    header_at : q'.memory p ≡ h
    header_at = write_self q.memory p h

    emptied : Header
    emptied = record (q'.memory p) { next = none }

    after : QuickFit
    after = record q' {
      qlists = set q'.qlists k (q'.memory p).next;
      memory = write q'.memory p emptied;
    }

    q'' : QuickFit
    q'' = after

    on_list : get_elem? q'.qlists k ≡ some (some p)
    on_list = get_elem?-set_self q.qlists k (some p) (omega (arith, wf.heap.count, lt))

-- No blocks yet.
abbrev pub no_blocks : Blocks
no_blocks = record { sized = λ a. none; used = λ a. false; chains = λ k. [] }

-- A new heap over an arena at a multiple of 64.
pub new-WellFormed :
    (arena : Block) (memory : Memory)
    → 2 ^ 15 ≤ arena.ptr
    → arena.ptr + arena.len < 2 ^ 64
    → arena.ptr % 64 ≡ 0
    → WellFormed no_blocks (new (record { arena = arena; cursor = 0 }) memory)
unfolding new
new-WellFormed arena memory start fits aligned = record {
  top = arena.ptr;
  heap = record {
    count = refl;
    chained = λ k lt. all_none num_qlists k;
    waiting = λ k x lt i. absurd i;
    distinct = λ k lt. tt;
    placed = λ a k e. absurd (none_ne e);
    apart = λ a b i j e. absurd (none_ne e);
  };
  tail = record {
    start = start;
    fits = fits;
    inside = omega arith;
    below = omega arith;
    arena_aligned = aligned;
    cursor_aligned = omega arith;
  };
}
  where
    all_none : (n k : ℕ) → ◌≡◌ {A = Option Ptr} (get_or (replicate n none) k none) none
    all_none zero k = refl
    all_none (suc n) zero = refl
    all_none (suc n) (suc k) = all_none n k

    none_ne : {k : ℕ} → none ≡ some k → ⊥
    none_ne e = cc
