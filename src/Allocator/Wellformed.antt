-- ===== src/Allocator/Wellformed.antt =====
-- port/src/allocator.rs: what is true of a heap from which quick sizes are taken. Beside the state
-- of the allocator stand the blocks that it has made, and which of them are free.
use r9x.Prelude.{
  ℕ, ◌+◌, ◌%◌, ◌^◌, ◌≤◌, ◌<◌, ◌≡◌, ◌≢◌, refl, sym, ap, ◌∙◌, subst, ◌⊎◌, ◌↔◌, inl, inr, Bool, true,
  false, Option, none, some, List, [], ◌∷◌, arith, length, get_or, ◌==◌, if◌then◌else◌,
}
use r9x.Allocator.{Ptr, Header, Memory, write, QuickFit, num_qlists}
use r9x.Allocator.Sizes.{size_of}

-- For an address, the list of the block that starts there; for a list, its free blocks.
pub record Blocks : Type 0 where
  pub sized : Ptr → Option ℕ
  pub used : Ptr → Bool
  pub chains : ℕ → List Ptr

abbrev pub update {ℓ} : {A : Type ℓ} → (ℕ → A) → ℕ → A → ℕ → A
update f a v b = if b == a then v else f b

abbrev pub In : Ptr → List Ptr → Type 0
In x [] = ⊥
In x (y ∷ ys) = (x ≡ y) ⊎ In x ys

abbrev pub Distinct : List Ptr → Type 0
Distinct [] = Unit {0}
Distinct (x ∷ xs) = (¬ In x xs) × Distinct xs

-- The list of headers from a pointer on visits these addresses.
abbrev pub Chain : Memory → Option Ptr → List Ptr → Type 0
Chain m list [] = list ≡ none
Chain m list (x ∷ xs) = (list ≡ some x) × ((m x).addr ≡ x) × Chain m (m x).next xs

-- A block of a list between two addresses, at a multiple of its size.
abbrev pub Placed : ℕ → ℕ → Ptr → ℕ → Type 0
Placed base top a k = (k < num_qlists) × (base ≤ a) × (a + size_of k ≤ top) × (a % size_of k ≡ 0)

abbrev pub Apart : Ptr → ℕ → Ptr → ℕ → Type 0
Apart a i b j = (a + size_of i ≤ b) ⊎ (b + size_of j ≤ a)

-- A block in use, of a list.
abbrev pub InUse : Blocks → Ptr → ℕ → Type 0
InUse g a k = (g.sized a ≡ some k) × (g.used a ≡ true)

-- The blocks lie between the start of the arena and `top`.
pub record IsHeap (g : Blocks) (q : QuickFit) (top : ℕ) : Type 0 where
  pub count : length q.qlists ≡ num_qlists
  pub chained : (k : ℕ) → k < num_qlists → Chain q.memory (get_or q.qlists k none) (g.chains k)
  pub waiting :
      (k x : ℕ) → k < num_qlists → In x (g.chains k) → (g.sized x ≡ some k) × (g.used x ≡ false)
  pub distinct : (k : ℕ) → k < num_qlists → Distinct (g.chains k)
  pub placed : (a k : ℕ) → g.sized a ≡ some k → Placed q.tail.arena.ptr top a k
  pub apart : (a b i j : ℕ) → g.sized a ≡ some i → g.sized b ≡ some j → a ≢ b → Apart a i b j

-- The tail: an arena at a multiple of 64 and not in the first 32 KiB, of which the cursor has taken
-- a multiple of 64 bytes.
pub record IsTail (q : QuickFit) (top : ℕ) : Type 0 where
  pub start : 2 ^ 15 ≤ q.tail.arena.ptr
  pub fits : q.tail.arena.ptr + q.tail.arena.len < 2 ^ 64
  pub inside : q.tail.cursor ≤ q.tail.arena.len
  pub below : top ≤ q.tail.arena.ptr + q.tail.cursor
  pub arena_aligned : q.tail.arena.ptr % 64 ≡ 0
  pub cursor_aligned : q.tail.cursor % 64 ≡ 0

pub ne_of_test : {a b : ℕ} → a ≢ b → (a == b) ≡ false
ne_of_test ne = ground arith

pub update_self {ℓ} : {A : Type ℓ} (f : ℕ → A) (a : ℕ) (v : A) → update f a v a ≡ v
update_self f a v = let e : (a == a) ≡ true = ground arith in rw e refl

pub update_ne {ℓ} : {A : Type ℓ} (f : ℕ → A) {a b : ℕ} (v : A) → b ≢ a → update f a v b ≡ f b
update_ne f v ne = rw (ne_of_test ne) refl

pub write_self : (m : Memory) (a : Ptr) (h : Header) → write m a h a ≡ h
unfolding write
write_self m a h = update_self m a h

pub write_ne : (m : Memory) {a b : Ptr} (h : Header) → b ≢ a → write m a h b ≡ m b
unfolding write
write_ne m h ne = update_ne m h ne

-- A write of a header beside a chain leaves the chain.
pub Chain-write :
    (m : Memory) (a : Ptr) (h : Header) (list : Option Ptr) (xs : List Ptr)
    → ¬ In a xs
    → Chain m list xs
    → Chain (write m a h) list xs
Chain-write m a h list [] out c = c
Chain-write m a h list (x ∷ xs) out c =
    let e : write m a h x ≡ m x = write_ne m h (λ e. out (inl (sym e))) in
    (
      c.0,
      ap (λ (r : Header). r.addr) e ∙ c.1,
      subst (λ (r : Header). Chain (write m a h) r.next xs) (sym e)
          (Chain-write m a h (m x).next xs (λ i. out (inr i)) c.2),
    )

-- The block joins those in use, and the others stay as they are.
pub record Gains (g g' : Blocks) (a k : ℕ) : Type 0 where
  pub given : InUse g' a k
  pub fresh : (j : ℕ) → ¬ InUse g a j
  pub others : (b j : ℕ) → b ≢ a → InUse g b j ↔ InUse g' b j

-- The same blocks are in use.
abbrev pub SameUse : Blocks → Blocks → Type 0
SameUse g g' = (b j : ℕ) → InUse g b j ↔ InUse g' b j

pub record WellFormed (g : Blocks) (q : QuickFit) : Type 0 where
  pub top : ℕ
  pub heap : IsHeap g q top
  pub tail : IsTail q top
