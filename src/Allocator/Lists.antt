-- ===== src/Allocator/Lists.antt =====
-- port/src/allocator.rs: the quick lists. A block is taken off its list, and put back on it.
use r9x.Prelude.{
  ℕ, zero, suc, ◌%◌, ◌<◌, ◌≡◌, ◌≢◌, refl, sym, ap, ◌∙◌, subst, inl, inr, Bool, true, false, Option,
  none, some, List, [], ◌∷◌, arith, length, get_or, get_elem?, set, length-set, get_or-set_self,
  get_or-set_ne, ok, ℕ_discrete, some_inj,
}
use r9x.Allocator.{Ptr, Header, write, QuickFit, num_qlists, pop_quick, unlink_from}
use r9x.Allocator.Calls.{push_quick}
use r9x.Allocator.Sizes.{size_of, list_of_size, align_offset_pow}
use r9x.Allocator.Wellformed.{
  Blocks, update, In, Distinct, Chain, InUse, IsHeap, Gains, update_self, update_ne, write_self,
  Chain-write,
}

module _ {ℓ} {A : Type ℓ} where
  pub get_elem?-get_or :
      (xs : List A) (i : ℕ) (d : A) → i < length xs → get_elem? xs i ≡ some (get_or xs i d)
  get_elem?-get_or [] i d h = absurd (omega arith)
  get_elem?-get_or (x ∷ xs) zero d h = refl
  get_elem?-get_or (x ∷ xs) (suc i) d h = get_elem?-get_or xs i d (omega arith)

  pub set-get_or : (xs : List A) (i : ℕ) (d : A) → set xs i (get_or xs i d) ≡ xs
  set-get_or [] i d = refl
  set-get_or (x ∷ xs) zero d = refl
  set-get_or (x ∷ xs) (suc i) d = ap (◌∷◌ x) (set-get_or xs i d)

module _ {ℓ} {A : Type ℓ} where
  -- Writing back what stood there undoes a write.
  pub set-set_back : (xs : List A) (i : ℕ) (v d : A) → set (set xs i v) i (get_or xs i d) ≡ xs
  set-set_back [] i v d = refl
  set-set_back (x ∷ xs) zero v d = refl
  set-set_back (x ∷ xs) (suc i) v d = ap (◌∷◌ x) (set-set_back xs i v d)

-- One header is written, one list changed, and one block taken into use or out of it.
abbrev pub relinked : QuickFit → ℕ → Option Ptr → Ptr → Header → QuickFit
relinked q k v x h = record q { qlists = set q.qlists k v; memory = write q.memory x h }

abbrev pub reused : Blocks → ℕ → List Ptr → Ptr → Bool → Blocks
reused g k ys x b = record g { used = update g.used x b; chains = update g.chains k ys }

module _ {g : Blocks} {q : QuickFit} {top : ℕ} (heap : IsHeap g q top) (k : ℕ)
    (lt : k < num_qlists) where
  pub list_at : get_elem? q.qlists k ≡ some (get_or q.qlists k none)
  list_at = get_elem?-get_or q.qlists k none (omega (arith, heap.count, lt))

  module _ (v : Option Ptr) (ys : List Ptr) (x : Ptr) (h : Header) (b : Bool)
      (elsewhere : (j : ℕ) → j < num_qlists → j ≢ k → ¬ In x (g.chains j))
      (chain : Chain (write q.memory x h) v ys)
      (free : (y : ℕ) → In y ys → (g.sized y ≡ some k) × (update g.used x b y ≡ false))
      (distinct : Distinct ys) where
    relinked-IsHeap : IsHeap (reused g k ys x b) (relinked q k v x h) top
    relinked-IsHeap = record {
      count = length-set q.qlists k v ∙ heap.count;
      chained = λ j ltj. elim (ℕ_discrete j k) [
        | yes e ↦
            subst
              (λ i.
                Chain (write q.memory x h) (get_or (set q.qlists k v) i none)
                  (update g.chains k ys i))
              (sym e)
              (subst (λ l. Chain (write q.memory x h) l (update g.chains k ys k))
                (sym (get_or-set_self q.qlists k v none (omega (arith, heap.count, lt))))
                (subst (Chain (write q.memory x h) v) (sym (update_self g.chains k ys)) chain))
        | no ne ↦
            subst (λ l. Chain (write q.memory x h) l (update g.chains k ys j))
              (sym (get_or-set_ne q.qlists v none (λ e. ne (sym e))))
              (subst (Chain (write q.memory x h) (get_or q.qlists j none))
                (sym (update_ne g.chains ys ne))
                (Chain-write q.memory x h (get_or q.qlists j none) (g.chains j) (elsewhere j ltj ne)
                  (heap.chained j ltj)))
      ];
      waiting = λ j y ltj i. elim (ℕ_discrete j k) [
        | yes e ↦
            let r =
              free y (subst (In y) (ap (update g.chains k ys) e ∙ update_self g.chains k ys) i) in
            (r.0 ∙ ap some (sym e), r.1)
        | no ne ↦
            let i' = subst (In y) (update_ne g.chains ys ne) i in
            let r = heap.waiting j y ltj i' in
            (
              r.0,
              update_ne g.used b (λ e. elsewhere j ltj ne (subst (λ t. In t (g.chains j)) e i'))
                  ∙ r.1,
            )
      ];
      distinct = λ j ltj. elim (ℕ_discrete j k) [
        | yes e ↦
            subst Distinct (sym (ap (update g.chains k ys) e ∙ update_self g.chains k ys)) distinct
        | no ne ↦ subst Distinct (sym (update_ne g.chains ys ne)) (heap.distinct j ltj)
      ];
      placed = heap.placed;
      apart = heap.apart;
    }

  -- What taking a block off the list comes to, for a list with the given free blocks.
  pub data Popped (o : Option Ptr) (q' : QuickFit) : Type 0 where
    none_left : o ≡ none → q' ≡ q → Popped o q'
    taken :
        {g' : Blocks} {x : Ptr}
        → o ≡ some x
        → q'.tail ≡ q.tail
        → IsHeap g' q' top
        → Gains g g' x k
        → Popped o q'

  pop_chain :
      (xs : List Ptr)
      → g.chains k ≡ xs
      → Chain q.memory (get_or q.qlists k none) xs
      → (o : Option Ptr) × (q' : QuickFit) × (pop_quick q k ≡ ok (o, q')) × Popped o q'
  unfolding pop_quick unlink_from
  pop_chain [] e c = (
    none,
    q,
    rw (list_at, c)
        (ap (λ l. ok (none, record q { qlists = l }))
          (ap (set q.qlists k) (sym c) ∙ set-get_or q.qlists k none)),
    none_left refl refl,
  )
  pop_chain (x ∷ xs) e c =
      let h : Header = record (q.memory x) { next = none } in
      let in_use = heap.waiting k x lt (subst (In x) (sym e) (inl refl)) in
      let alone : Distinct (x ∷ xs) = subst Distinct e (heap.distinct k lt) in
      (
        some x,
        relinked q k (q.memory x).next x h,
        rw (list_at, c.0)
            (ap (λ a. ok (some a, relinked q k (q.memory x).next x h))
              (ap (λ (r : Header). r.addr) (write_self q.memory x h) ∙ c.1)),
        taken {g' = reused g k xs x true} {x = x} refl refl
            (relinked-IsHeap (q.memory x).next xs x h true
              (λ j ltj ne i. ne (some_inj (g.sized x) (heap.waiting j x ltj i).0 in_use.0))
              (Chain-write q.memory x h (q.memory x).next xs alone.0 c.2)
              (λ y i.
                let r = heap.waiting k y lt (subst (In y) (sym e) (inr i)) in
                (r.0, update_ne g.used true (λ s. alone.0 (subst (λ t. In t xs) s i)) ∙ r.1))
              alone.1)
            (record {
              given = (in_use.0, update_self g.used x true);
              fresh = λ j u. clash (g.used x) u.1 in_use.1;
              others = λ b j ne. (
                λ u. (u.0, update_ne g.used true ne ∙ u.1),
                λ u. (u.0, sym (update_ne g.used true ne) ∙ u.1),
              );
            }),
      )
    where
      clash : (b : Bool) → b ≡ true → b ≡ false → ⊥
      clash b p r = cc

  pub pop_quick-Popped :
      (o : Option Ptr) × (q' : QuickFit) × (pop_quick q k ≡ ok (o, q')) × Popped o q'
  pop_quick-Popped = pop_chain (g.chains k) refl (heap.chained k lt)

  abbrev pub freed_header : Ptr → Header
  freed_header b = record {
    next = get_or q.qlists k none;
    addr = b;
    size = size_of k;
    align = size_of k;
  }

  -- A block in use goes to the front of its list, and is free.
  module _ (b : Ptr) (held : InUse g b k) (aligned : b % 64 ≡ 0) where
    pub push_quick-pushes :
        push_quick q b (size_of k) (size_of k) ≡ ok (relinked q k (some b) b (freed_header b))
    unfolding push_quick
    push_quick-pushes =
        rw (list_of_size k lt, list_at, align_offset_pow b 6 (omega arith), aligned) refl

    pub push_quick-IsHeap :
        IsHeap (reused g k (b ∷ g.chains k) b false) (relinked q k (some b) b (freed_header b)) top
    push_quick-IsHeap =
        relinked-IsHeap (some b) (b ∷ g.chains k) b (freed_header b) false
          (λ j ltj ne. outside j ltj)
          (
            refl,
            ap (λ (r : Header). r.addr) (write_self q.memory b (freed_header b)),
            subst (λ (r : Header). Chain (write q.memory b (freed_header b)) r.next (g.chains k))
                (sym (write_self q.memory b (freed_header b)))
                (Chain-write q.memory b (freed_header b) (get_or q.qlists k none) (g.chains k)
                  (outside k lt) (heap.chained k lt)),
          )
          (λ y i. elim i [
            | inl e ↦
                (ap g.sized e ∙ held.0, ap (update g.used b false) e ∙ update_self g.used b false)
            | inr later ↦
                let r = heap.waiting k y lt later in
                (
                  r.0,
                  update_ne g.used false
                        (λ e. outside k lt (subst (λ t. In t (g.chains k)) e later))
                      ∙ r.1,
                )
          ])
          (outside k lt, heap.distinct k lt)
      where
        outside : (j : ℕ) → j < num_qlists → ¬ In b (g.chains j)
        outside j ltj i = clash (g.used b) held.1 (heap.waiting j b ltj i).1
          where
            clash : (c : Bool) → c ≡ true → c ≡ false → ⊥
            clash c p r = cc
