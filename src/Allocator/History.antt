-- ===== src/Allocator/History.antt =====
-- port/src/allocator.rs: sequences of `malloc` and `free`, for layouts of the quick sizes.
use r9x.Prelude.{
  ℕ, ◌+◌, ◌%◌, ◌^◌, ◌≤◌, ◌<◌, ◌≡◌, ◌≢◌, sym, ap, ◌∙◌, subst, ◌⊎◌, inl, inr, List, [], ◌∷◌, ◌++◌, ok,
  arith, All, ok_inj,
}
use r9x.Allocator.{Ptr, Block, Memory, QuickFit, Layout, new, adjust, max_quick_size}
use r9x.Allocator.Calls.{malloc, free}
use r9x.Allocator.Sizes.{size_of}
use r9x.Allocator.Wellformed.{Blocks, InUse, WellFormed}
use r9x.Allocator.Served.{malloc-Mallocs, null, given, Given}
use r9x.Allocator.Freed.{free-Frees, no_blocks, new-WellFormed}

-- A block that was given out, with its layout.
abbrev pub Held : Type 0
Held = Ptr × Layout

-- A layout of a quick size.
pub record IsQuick (l : Layout) : Type 0 where
  pub small : l.size ≤ max_quick_size
  pub power : ℕ
  pub is_power : l.align ≡ 2 ^ power
  pub fine : l.align ≤ (adjust l).0

-- The states of a heap with the blocks that are held, from a new heap over an arena on.
pub data History (arena : Block) : QuickFit → List Held → Type 0 where
  start : (memory : Memory) → History arena (new (record { arena = arena; cursor = 0 }) memory) []
  mallocs :
      {q q' : QuickFit} {held : List Held} {p : Ptr} (fuel : ℕ) (l : Layout)
      → History arena q held
      → IsQuick l
      → malloc fuel q l ≡ ok (p, q')
      → p ≢ 0
      → History arena q' ((p, l) ∷ held)
  refused :
      {q q' : QuickFit} {held : List Held} {p : Ptr} (fuel : ℕ) (l : Layout)
      → History arena q held
      → IsQuick l
      → malloc fuel q l ≡ ok (p, q')
      → p ≡ 0
      → History arena q' held
  frees :
      {q q' : QuickFit} {held : List Held} (fuel : ℕ) (p : Ptr) (l : Layout)
      (before after : List Held)
      → History arena q held
      → held ≡ before ++ ((p, l) ∷ after)
      → free fuel q p l ≡ ok q'
      → History arena q' (before ++ after)

-- The bytes of two blocks do not overlap.
abbrev pub Disjoint : Held → Held → Type 0
Disjoint h h' = (h.0 + h.1.size ≤ h'.0) ⊎ (h'.0 + h'.1.size ≤ h.0)

abbrev pub AllApart : List Held → Type 0
AllApart [] = Unit {0}
AllApart (h ∷ hs) = All (Disjoint h) hs × AllApart hs

-- What is known of a block that is held, and of all of them.
record IsHeld (g : Blocks) (h : Held) : Type 0 where
  list : ℕ
  in_use : InUse g h.0 list
  adjusted : adjust h.1 ≡ (size_of list, size_of list)
  room : h.1.size ≤ size_of list

abbrev Others : List Held → Type 0
Others [] = Unit {0}
Others (h ∷ hs) = All (λ h'. h.0 ≢ h'.0) hs × Others hs

All-map : {P Q : Held → Type 0} (hs : List Held) → ((h : Held) → P h → Q h) → All P hs → All Q hs
All-map [] f a = tt
All-map (h ∷ hs) f a = (f h a.0, All-map hs f a.1)

All-both :
    {P Q R : Held → Type 0} (hs : List Held)
    → ((h : Held) → P h → Q h → R h)
    → All P hs
    → All Q hs
    → All R hs
All-both [] f a b = tt
All-both (h ∷ hs) f a b = (f h a.0 b.0, All-both hs f a.1 b.1)

-- Without one of the blocks.
All-without :
    (P : Held → Type 0) (before : List Held) (h : Held) (after : List Held)
    → All P (before ++ (h ∷ after))
    → P h × All P (before ++ after)
All-without P [] h after a = a
All-without P (x ∷ before) h after a = let r = All-without P before h after a.1 in (r.0, (a.0, r.1))

Others-without :
    (before : List Held) (h : Held) (after : List Held)
    → Others (before ++ (h ∷ after))
    → All (λ x. x.0 ≢ h.0) (before ++ after) × Others (before ++ after)
Others-without [] h after o = (All-map after (λ x ne e. ne (sym e)) o.0, o.1)
Others-without (x ∷ before) h after o =
    let first = All-without (λ y. x.0 ≢ y.0) before h after o.0 in
    let rest = Others-without before h after o.1 in ((first.0, rest.0), (first.1, rest.1))

record Keeps (q : QuickFit) (held : List Held) : Type 0 where
  blocks : Blocks
  wellformed : WellFormed blocks q
  each : All (IsHeld blocks) held
  others : Others held

moved_to : {q q' : QuickFit} {held : List Held} → q ≡ q' → Keeps q held → Keeps q' held
moved_to {held = held} e k = subst (λ q. Keeps q held) e k

-- A block that is given out joins those held.
joins :
    {q q' : QuickFit} {held : List Held} (k : Keeps q held) (l : Layout) (p : Ptr)
    → Given k.blocks q l p q'
    → Keeps q' ((p, l) ∷ held)
joins {held = held} k l p g = record {
  blocks = g.blocks;
  wellformed = g.wellformed;
  each = (
    record { list = g.list; in_use = g.gains.given; adjusted = g.adjusted; room = g.large_enough },
    All-map held
        (λ h i. record {
          list = i.list;
          in_use = (g.gains.others h.0 i.list (other h i)).0 i.in_use;
          adjusted = i.adjusted;
          room = i.room;
        })
        k.each,
  );
  others = (All-map held (λ h i e. other h i (sym e)) k.each, k.others);
}
  where
    other : (h : Held) → IsHeld k.blocks h → h.0 ≢ p
    other h i e = g.gains.fresh i.list (subst (λ a. InUse k.blocks a i.list) e i.in_use)

-- A block that is freed leaves them.
leaves :
    {q q' : QuickFit} (fuel : ℕ) (p : Ptr) (l : Layout) (before after : List Held)
    → Keeps q (before ++ ((p, l) ∷ after))
    → free fuel q p l ≡ ok q'
    → Keeps q' (before ++ after)
leaves {q} fuel p l before after k e =
    let each = All-without (IsHeld k.blocks) before (p, l) after k.each in
    let others = Others-without before (p, l) after k.others in
    let r = free-Frees fuel p l k.wellformed each.0.in_use each.0.adjusted in
    moved_to (ok_inj (free fuel q p l) r.2 e) (record {
      blocks = r.1;
      wellformed = r.3;
      each =
          All-both (before ++ after)
            (λ h i ne. record {
              list = i.list;
              in_use = (r.4 h.0 i.list).1 (i.in_use, ne);
              adjusted = i.adjusted;
              room = i.room;
            })
            each.1 others.0;
      others = others.1;
    })

AllApart-held :
    {q : QuickFit} {g : Blocks}
    → WellFormed g q
    → (held : List Held) → All (IsHeld g) held
    → Others held
    → AllApart held
AllApart-held wf [] each others = tt
AllApart-held {g = g} wf (h ∷ hs) each others =
    (All-both hs (λ h' i ne. apart h' i ne) each.1 others.0, AllApart-held wf hs each.1 others.1)
  where
    apart : (h' : Held) → IsHeld g h' → h.0 ≢ h'.0 → Disjoint h h'
    apart h' i ne = elim (wf.heap.apart h.0 h'.0 each.0.list i.list each.0.in_use.0 i.in_use.0 ne) [
      | inl before ↦ inl (omega (arith, before, each.0.room))
      | inr after ↦ inr (omega (arith, after, i.room))
    ]

module _ {arena : Block} (beyond : 2 ^ 15 ≤ arena.ptr) (fits : arena.ptr + arena.len < 2 ^ 64)
    (aligned : arena.ptr % 64 ≡ 0) where
  History-Keeps : {q : QuickFit} {held : List Held} → History arena q held → Keeps q held
  History-Keeps (start memory) = record {
    blocks = no_blocks;
    wellformed = new-WellFormed arena memory beyond fits aligned;
    each = tt;
    others = tt;
  }
  History-Keeps (mallocs {q = q} {held = held} fuel l h quick e some_block) =
      let k = History-Keeps h in
      let r =
        malloc-Mallocs fuel l quick.power k.wellformed quick.small quick.is_power quick.fine in
      let same = ok_inj (malloc fuel q l) r.2 e in
      elim r.3 [
        | null zero unchanged ↦
            absurd (some_block (sym (ap (λ (x : Ptr × QuickFit). x.0) same) ∙ zero))
        | given ne g ↦
            subst (λ (x : Ptr × QuickFit). Keeps x.1 ((x.0, l) ∷ held)) same (joins k l r.0 g)
      ]
  History-Keeps (refused {q = q} {held = held} fuel l h quick e no_block) =
      let k = History-Keeps h in
      let r =
        malloc-Mallocs fuel l quick.power k.wellformed quick.small quick.is_power quick.fine in
      let same = ok_inj (malloc fuel q l) r.2 e in
      elim r.3 [
        | null zero unchanged ↦ moved_to (sym unchanged ∙ ap (λ (x : Ptr × QuickFit). x.1) same) k
        | given ne g ↦ absurd (ne (ap (λ (x : Ptr × QuickFit). x.0) same ∙ no_block))
      ]
  History-Keeps (frees {q = q} fuel p l before after h at e) =
      leaves fuel p l before after (subst (Keeps q) at (History-Keeps h)) e

-- After any sequence of calls on a new heap, over an arena at a multiple of 64 that does not start
-- in the first 32 KiB and ends within 64 bits, in which `malloc` is called for layouts of at most
-- 16 KiB with a power of two as alignment that is not above the size that `adjust` rounds to, and
-- `free` for blocks that were given out and not freed since, with their layouts: the blocks that
-- are held do not overlap, and a further `malloc` of such a layout returns and does not panic.
pub History-apart :
    {arena : Block} {q : QuickFit} {held : List Held}
    → 2 ^ 15 ≤ arena.ptr
    → arena.ptr + arena.len < 2 ^ 64
    → arena.ptr % 64 ≡ 0
    → History arena q held
    → AllApart held
      × ((fuel : ℕ) (l : Layout)
          → IsQuick l
          → (p : Ptr) × (q' : QuickFit) × (malloc fuel q l ≡ ok (p, q')))
History-apart {held = held} beyond fits aligned h =
    let k = History-Keeps beyond fits aligned h in
    (
      AllApart-held k.wellformed held k.each k.others,
      λ fuel l quick.
          let r =
            malloc-Mallocs fuel l quick.power k.wellformed quick.small quick.is_power quick.fine in
          (r.0, r.1, r.2),
    )
