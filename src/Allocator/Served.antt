-- ===== src/Allocator/Served.antt =====
-- port/src/allocator.rs: `malloc` for layouts of a quick size, down to what its users rely on.
use native.Mathlib.Nat.{pow-le-pow_right, pow-suc, div-add-mod', mul_assoc, mul-mod_left}
use r9x.Prelude.{
  ℕ, suc, ◌+◌, ◌-◌, ◌*◌, ◌/◌, ◌%◌, ◌^◌, ◌≤◌, ◌<◌, ◌≡◌, ◌≢◌, refl, sym, ap, ◌∙◌, subst, Option, some,
  arith, ok, dec_le, pow-add,
}
use r9x.Allocator.{
  Ptr, Block, BumpAlloc, QuickFit, Layout, num_qlists, max_quick_size, adjust, pop_quick,
}
use r9x.Allocator.Calls.{alloc_quick, malloc, ptr_or_null}
use r9x.Allocator.Sizes.{size_of, size_of-ge, adjust_small, is_quick-size, list_of_size}
use r9x.Allocator.Wellformed.{Blocks, InUse, Apart, IsTail, WellFormed, Gains}
use r9x.Allocator.Lists.{pop_quick-Popped, none_left, taken}
use r9x.Allocator.Quick.{Allocated, exhausted, block_at, alloc_tail-Allocated}

-- What `malloc` gives for a layout: null and no change, or a block.
pub record Given (g : Blocks) (q : QuickFit) (l : Layout) (p : Ptr) (q' : QuickFit) : Type 0 where
  pub blocks : Blocks
  pub list : ℕ
  pub wellformed : WellFormed blocks q'
  pub gains : Gains g blocks p list
  pub large_enough : l.size ≤ size_of list
  pub adjusted : adjust l ≡ (size_of list, size_of list)
  pub aligned : p % l.align ≡ 0
  pub inside : (q.tail.arena.ptr ≤ p) × (p + size_of list ≤ q.tail.arena.ptr + q.tail.arena.len)
  pub apart : (b j : ℕ) → InUse g b j → Apart b j p list

pub data Mallocs (g : Blocks) (q : QuickFit) (l : Layout) (p : Ptr) (q' : QuickFit) : Type 0 where
  null : p ≡ 0 → q' ≡ q → Mallocs g q l p q'
  given : p ≢ 0 → Given g q l p q' → Mallocs g q l p q'

pub tail-IsTail : {q q' : QuickFit} {top : ℕ} → q'.tail ≡ q.tail → IsTail q top → IsTail q' top
tail-IsTail {q} {q'} {top} e t = record {
  start = subst (λ (b : BumpAlloc). 2 ^ 15 ≤ b.arena.ptr) (sym e) t.start;
  fits = subst (λ (b : BumpAlloc). b.arena.ptr + b.arena.len < 2 ^ 64) (sym e) t.fits;
  inside = subst (λ (b : BumpAlloc). b.cursor ≤ b.arena.len) (sym e) t.inside;
  below = subst (λ (b : BumpAlloc). top ≤ b.arena.ptr + b.cursor) (sym e) t.below;
  arena_aligned = subst (λ (b : BumpAlloc). b.arena.ptr % 64 ≡ 0) (sym e) t.arena_aligned;
  cursor_aligned = subst (λ (b : BumpAlloc). b.cursor % 64 ≡ 0) (sym e) t.cursor_aligned;
}

-- A multiple of a power of two is one of every smaller power of two.
by_smaller : (x k j : ℕ) → 2 ^ j ≤ size_of k → x % size_of k ≡ 0 → x % 2 ^ j ≡ 0
by_smaller x k j le h = elim (dec_le j (k + 6)) [
  | no gt ↦ absurd (
      omega (
        arith,
        le,
        pow-suc 2 (k + 6),
        size_of-ge k,
        pow-le-pow_right {n = 2} (omega arith) {i = suc (k + 6)} {j = j} (omega (arith, gt)),
      ))
  | yes less ↦
      let split : size_of k ≡ 2 ^ (k + 6 - j) * 2 ^ j =
        let e : k + 6 ≡ k + 6 - j + j = omega (arith, less) in
        ap (λ t. 2 ^ t) e ∙ pow-add (k + 6 - j) j in
      ap (λ t. t % 2 ^ j)
        (omega (arith, div-add-mod' x (size_of k), h, ap (◌*◌ (x / size_of k)) split)
          ∙ sym (mul_assoc (x / size_of k) (2 ^ (k + 6 - j)) (2 ^ j)))
      ∙ mul-mod_left (x / size_of k * 2 ^ (k + 6 - j)) (2 ^ j)
]

-- What is known of the layout: the list of its size.
pub record Fits (l : Layout) (k : ℕ) : Type 0 where
  pub is_list : k < num_qlists
  pub room : l.size ≤ size_of k
  pub fine : l.align ≤ size_of k
  pub adjusted : adjust l ≡ (size_of k, size_of k)

pub small-Fits :
    (l : Layout) → l.size ≤ max_quick_size → l.align ≤ (adjust l).0 → (k : ℕ) × Fits l k
small-Fits l small le =
    let r = adjust_small l small in
    let same : l.align ≤ size_of r.0 = subst (λ (p : ℕ × ℕ). l.align ≤ p.0) r.3 le in
    (
      r.0,
      record {
        is_list = r.1;
        room = r.2;
        fine = same;
        adjusted = r.3 ∙ ap (λ a. (size_of r.0, a)) (omega (arith, same));
      },
    )

module _ {g : Blocks} {q : QuickFit} (wf : WellFormed g q) (l : Layout) {k : ℕ} (fits : Fits l k)
    (fuel : ℕ) where
  quick_first : alloc_quick fuel q (size_of k) (size_of k) ≡ pop_quick q k
  unfolding alloc_quick
  quick_first = rw (alloc_quick, is_quick-size k fits.is_list, list_of_size k fits.is_list) refl

  pub malloc-Allocated :
      (p : Ptr) × (q' : QuickFit) × (o : Option Ptr) × (malloc fuel q l ≡ ok (p, q'))
      × (p ≡ ptr_or_null o)
      × Allocated g q k o q'
  unfolding malloc
  malloc-Allocated =
      let r = pop_quick-Popped wf.heap k fits.is_list in
      elim r.3 [
        | taken {g' = g'} {x = x} e t h gains ↦ (
          x,
          r.1,
          some x,
          rw (malloc, fits.adjusted, quick_first, r.2, e) refl,
          refl,
          block_at refl (record { top = wf.top; heap = h; tail = tail-IsTail t wf.tail }) gains
              (ap (λ (b : BumpAlloc). b.arena) t),
        )
        | none_left e same ↦
            let t = alloc_tail-Allocated wf k fits.is_list in
            (
              ptr_or_null t.0,
              t.1,
              t.0,
              rw (malloc, fits.adjusted, quick_first, r.2, e, same, fits.adjusted, t.2) refl,
              refl,
              t.3,
            )
      ]

-- The block that an allocation gives, as its user sees it.
Allocated-Given :
    {g : Blocks} {q q' : QuickFit} (wf : WellFormed g q) (l : Layout) {k : ℕ} (fits : Fits l k)
    (j : ℕ) {g' : Blocks} {a : Ptr}
    → l.align ≡ 2 ^ j
    → q'.tail.arena ≡ q.tail.arena
    → WellFormed g' q'
    → Gains g g' a k
    → (a ≢ 0) × Given g q l a q'
Allocated-Given {g} {q} {q'} wf l {k} fits j {g'} {a} power arena wf' gains = (
  λ e. omega (arith, e, placed.1, start, wf.tail.start),
  record {
    blocks = g';
    list = k;
    wellformed = wf';
    gains = gains;
    large_enough = fits.room;
    adjusted = fits.adjusted;
    aligned =
        subst (λ n. a % n ≡ 0) (sym power)
          (by_smaller a k j (subst (λ n. n ≤ size_of k) power align_le) placed.3);
    inside = (
      omega (arith, placed.1, start),
      omega (arith, placed.2, wf'.tail.below, wf'.tail.inside, start, size),
    );
    apart = λ b i u.
        wf'.heap.apart b a i k ((gains.others b i (other b i u)).0 u).0 gains.given.0 (other b i u);
  },
)
  where
    placed :
        (k < num_qlists) × (q'.tail.arena.ptr ≤ a) × (a + size_of k ≤ wf'.top) × (a % size_of k ≡ 0)
    placed = wf'.heap.placed a k gains.given.0

    start : q'.tail.arena.ptr ≡ q.tail.arena.ptr
    start = ap (λ (b : Block). b.ptr) arena

    size : q'.tail.arena.len ≡ q.tail.arena.len
    size = ap (λ (b : Block). b.len) arena

    other : (b i : ℕ) → InUse g b i → b ≢ a
    other b i u e = gains.fresh i (subst (λ c. InUse g c i) e u)

    align_le : l.align ≤ size_of k
    align_le = fits.fine

-- On a well-formed heap, for a layout of at most 16 KiB whose alignment is a power of two and not
-- above the size that `adjust` rounds to, `malloc` returns, and does not panic: either null, and
-- nothing changes; or a block of at least the size that was asked for, at a multiple of the
-- alignment and inside the arena, which was not in use and lies apart from all blocks in use, with
-- the heap well-formed and all other blocks in use or not as before.
pub malloc-Mallocs :
    {g : Blocks} {q : QuickFit} (fuel : ℕ) (l : Layout) (j : ℕ)
    → WellFormed g q
    → l.size ≤ max_quick_size
    → l.align ≡ 2 ^ j
    → l.align ≤ (adjust l).0
    → (p : Ptr) × (q' : QuickFit) × (malloc fuel q l ≡ ok (p, q')) × Mallocs g q l p q'
malloc-Mallocs {g} {q} fuel l j wf small power le =
    let fits = small-Fits l small le in
    let r = malloc-Allocated wf l fits.1 fuel in
    (
      r.0,
      r.1,
      r.3,
      elim r.5 [
        | exhausted e same ↦ null (r.4 ∙ ap ptr_or_null e) same
        | block_at {g' = g'} {a = a} e wf' gains arena ↦
            let given_at = Allocated-Given wf l fits.1 j power arena wf' gains in
            let at : a ≡ r.0 = sym (r.4 ∙ ap ptr_or_null e) in
            given (subst (λ p. p ≢ 0) at given_at.0) (subst (λ p. Given g q l p r.1) at given_at.1)
      ],
    )
