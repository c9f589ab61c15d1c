-- ===== src/Allocator/Irregular.antt =====
-- port/src/allocator.rs: allocation of blocks that have no quick size.
use r9x.Prelude.{
  ℕ, zero, suc, ◌^◌, ◌<◌, ◌≡◌, ◌≢◌, refl, sym, ap, ◌∙◌, subst, true, false, none, some, arith,
  length, get_or, set, length-set, leb, ltb, ◌&&◌, ok, panic, is_power_below,
}
use r9x.Allocator.{
  Ptr, Header, Memory, write, QuickFit, Layout, max_quick_size, num_hash_buckets, adjust, is_quick,
  align_offset, try_alloc, unlink_from, unlink, hash,
}
use r9x.Allocator.Calls.{alloc_tail, alloc_misc, alloc_quick, malloc, chain_up}
use r9x.Allocator.Lists.{get_elem?-get_or}
use r9x.Allocator.Wellformed.{write_self, write_ne}

no_power : (bits n : ℕ) → ((j : ℕ) → n ≢ 2 ^ j) → is_power_below bits n ≡ false
unfolding is_power_below
no_power zero n h = refl
no_power (suc b) n h = ground (arith, h b, no_power b n h)

pub adjust-large : (l : Layout) → max_quick_size < l.size → adjust l ≡ (l.size, l.align)
unfolding adjust
adjust-large l large =
    let big : ltb max_quick_size l.size ≡ true = ground (arith, large) in rw (adjust, big) refl

pub is_quick-large : (size align : ℕ) → max_quick_size < size → is_quick size align ≡ false
is_quick-large size align large = ground (arith, large)

-- For a size above 16 KiB that is no power of two, and with no misc block, `malloc` panics,
-- whatever the alignment and the heap.
pub malloc-panics :
    (fuel : ℕ) (q : QuickFit) (l : Layout)
    → max_quick_size < l.size
    → ((j : ℕ) → l.size ≢ 2 ^ j)
    → q.misc ≡ none
    → malloc fuel q l ≡ panic
unfolding malloc alloc_quick alloc_misc unlink_from alloc_tail try_alloc align_offset
malloc-panics fuel q l large odd no_misc =
    rw
      (
        malloc,
        adjust-large l large,
        alloc_quick,
        is_quick-large l.size l.align large,
        alloc_misc,
        no_misc,
        unlink_from,
      )
      (rw (alloc_tail, try_alloc, align_offset, adjust-large l large, no_power 64 l.size odd) refl)

-- A misc list of which the first node is too small and the second is not.
pub record SecondFits (q : QuickFit) (size align : ℕ) (x y : Ptr) : Type 0 where
  pub first : q.misc ≡ some x
  pub second : (q.memory x).next ≡ some y
  pub other : x ≢ y
  pub too_small : (leb size (q.memory x).size && leb align (q.memory x).align) ≡ false
  pub large_enough : (leb size (q.memory y).size && leb align (q.memory y).align) ≡ true
  pub buckets : length q.allocated_misc ≡ num_hash_buckets

module _ {q : QuickFit} {size align : ℕ} {x y : Ptr} (s : SecondFits q size align x y)
    (fuel : ℕ) where
  -- The second node is unlinked, and is what the list is left at.
  abbrev unlinked : Memory
  unlinked = write q.memory y (record (q.memory y) { next = none })

  abbrev relinked : Memory
  relinked = write unlinked x (record (unlinked x) { next = (q.memory y).next })

  unlink-second :
      unlink (suc (suc fuel)) q.memory q.misc (λ h. leb size h.size && leb align h.align)
      ≡ ok (some y, some y, relinked)
  unfolding unlink_from
  unlink-second = rw (s.first, s.second, s.too_small, unlink_from, s.large_enough) refl

-- With room for it in the table, the header of a node goes to the front of the chain of its address.
abbrev pub chained : QuickFit → Ptr → QuickFit
chained q n =
    let k = hash (q.memory n).addr in
    record q {
      memory = write q.memory n (record (q.memory n) { next = get_or q.allocated_misc k none });
      allocated_misc = set q.allocated_misc k (some n);
    }

hash-lt : (p : Ptr) → hash p < num_hash_buckets
unfolding hash
hash-lt p = omega arith

chain_up-chains :
    (q : QuickFit) (n : Ptr)
    → length q.allocated_misc ≡ num_hash_buckets
    → chain_up q n ≡ ok (chained q n)
unfolding chain_up
chain_up-chains q n buckets =
    rw
      (
        chain_up,
        get_elem?-get_or q.allocated_misc (hash (q.memory n).addr) none
            (omega (arith, buckets, hash-lt (q.memory n).addr)),
      )
      refl

-- A first node that fits is given out.
alloc_misc-head :
    (fuel : ℕ) (q : QuickFit) (size align : ℕ) (n : Ptr)
    → q.misc ≡ some n
    → (leb size (q.memory n).size && leb align (q.memory n).align) ≡ true
    → length q.allocated_misc ≡ num_hash_buckets
    → (q' : QuickFit) × (alloc_misc (suc fuel) q size align ≡ ok (some (q.memory n).addr, q'))
unfolding alloc_misc unlink_from
alloc_misc-head fuel q size align n e fits buckets = (
  chained q₁ n,
  rw (alloc_misc, e, unlink_from, fits, chain_up-chains q₁ n buckets)
      (ap (λ (h : Header). ok (some h.addr, chained q₁ n)) (write_self q.memory n emptied)),
)
  where
    emptied : Header
    emptied = record (q.memory n) { next = none }

    q₁ : QuickFit
    q₁ = record q { misc = (q.memory n).next; memory = write q.memory n emptied }

module _ {q : QuickFit} {size align : ℕ} {x y : Ptr} (s : SecondFits q size align x y)
    (fuel : ℕ) where
  abbrev second_out : QuickFit
  second_out = record q { misc = some y; memory = relinked s fuel }

  node_kept : relinked s fuel y ≡ record (q.memory y) { next = none }
  node_kept =
      write_ne (unlinked s fuel) (record (unlinked s fuel x) { next = (q.memory y).next })
        (λ e. s.other (sym e))
      ∙ write_self q.memory y (record (q.memory y) { next = none })

  alloc_misc-second :
      alloc_misc (suc (suc fuel)) q size align ≡ ok (some (q.memory y).addr, chained second_out y)
  unfolding alloc_misc
  alloc_misc-second =
      rw (alloc_misc, unlink-second s fuel, chain_up-chains second_out y s.buckets)
        (ap (λ (h : Header). ok (some h.addr, chained second_out y)) node_kept)

  abbrev chained_node : Header
  chained_node = record (relinked s fuel y) {
    next = get_or q.allocated_misc (hash (relinked s fuel y).addr) none;
  }

  node_there : (chained second_out y).memory y ≡ chained_node
  node_there = write_self (relinked s fuel) y chained_node

  alloc_misc-again :
      (q' : QuickFit) × (alloc_misc (suc (suc fuel)) (chained second_out y) size align
        ≡ ok (some (q.memory y).addr, q'))
  alloc_misc-again =
      let fits : Header → Type 0 = λ h. (leb size h.size && leb align h.align) ≡ true in
      let r =
        alloc_misc-head (suc fuel) (chained second_out y) size align y refl
          (subst fits (sym node_there) (subst fits₂ (sym node_kept) s.large_enough))
          (length-set q.allocated_misc (hash (relinked s fuel y).addr) (some y) ∙ s.buckets) in
      (
        r.0,
        r.1
            ∙ ap (λ (h : Header). ok (some h.addr, r.0)) node_there
            ∙ ap (λ (h : Header). ok (some h.addr, r.0)) node_kept,
      )
    where
      fits₂ : Header → Type 0
      fits₂ h = (leb size h.size && leb align h.align) ≡ true

-- For a layout that has no quick list, and a misc list of which the first node is too small and the
-- second, another one, is not, `malloc`, with walks of two nodes or more, gives the block of the
-- second node, and when it is called again with the same layout gives the same block again.
pub malloc-twice :
    {q : QuickFit} (fuel : ℕ) (l : Layout) {x y : Ptr}
    → is_quick (adjust l).0 (adjust l).1 ≡ false
    → SecondFits q (adjust l).0 (adjust l).1 x y
    → (q' q'' : QuickFit) × (malloc (suc (suc fuel)) q l ≡ ok ((q.memory y).addr, q'))
      × (malloc (suc (suc fuel)) q' l ≡ ok ((q.memory y).addr, q''))
unfolding malloc alloc_quick
malloc-twice {q} fuel l {x} {y} irregular s =
    let again = alloc_misc-again s fuel in
    (
      chained (second_out s fuel) y,
      again.0,
      rw (malloc, alloc_quick, irregular, alloc_misc-second s fuel) refl,
      rw (malloc, alloc_quick, irregular, again.1) refl,
    )
