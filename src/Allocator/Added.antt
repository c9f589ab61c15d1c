-- ===== src/Allocator/Added.antt =====
-- port/src/allocator.rs: a block that is made behind all others.
use r9x.Prelude.{
  ℕ, ◌+◌, ◌%◌, ◌≤◌, ◌<◌, ◌≡◌, ◌≢◌, sym, ap, ◌∙◌, subst, inl, inr, Bool, true, false, some, List,
  arith, ℕ_discrete,
}
use r9x.Allocator.{Ptr, QuickFit, num_qlists}
use r9x.Allocator.Sizes.{size_of, size_of-ge}
use r9x.Allocator.Wellformed.{
  Blocks, update, IsHeap, Gains, SameUse, Apart, Placed, update_self, update_ne,
}
use r9x.Allocator.Lists.{reused}

abbrev pub added : Blocks → Ptr → ℕ → Blocks
added g a k = record g { sized = update g.sized a (some k); used = update g.used a true }

clash : (c : Bool) → c ≡ true → c ≡ false → ⊥
clash c p r = cc

module _ {g : Blocks} {q : QuickFit} {top : ℕ} (heap : IsHeap g q top) (a k : ℕ)
    (lt : k < num_qlists) (above : top ≤ a) where
  -- No block starts above the top.
  new_place : (j : ℕ) → g.sized a ≢ some j
  new_place j e = absurd (omega (arith, (heap.placed a j e).2, size_of-ge j, above))

  added-Apart :
      (b c i j : ℕ)
      → update g.sized a (some k) b ≡ some i
      → update g.sized a (some k) c ≡ some j
      → b ≢ c
      → Apart b i c j
  added-Apart b c i j eb ec ne = elim (ℕ_discrete b a) [
    | yes p ↦ elim (ℕ_discrete c a) [
      | yes r ↦ absurd (ne (p ∙ sym r))
      | no r ↦
          let placed = heap.placed c j (sym (update_ne g.sized (some k) r) ∙ ec) in
          inr (omega (arith, placed.2, above, p))
    ]
    | no p ↦
        let eb' = sym (update_ne g.sized (some k) p) ∙ eb in
        elim (ℕ_discrete c a) [
          | yes r ↦ inl (omega (arith, (heap.placed b i eb').2, above, r))
          | no r ↦ heap.apart b c i j eb' (sym (update_ne g.sized (some k) r) ∙ ec) ne
        ]
  ]

  pub added-IsHeap :
      q.tail.arena.ptr ≤ a → a % size_of k ≡ 0 → IsHeap (added g a k) q (a + size_of k)
  added-IsHeap base aligned = record {
    count = heap.count;
    chained = heap.chained;
    waiting = λ j x ltj i.
        let r = heap.waiting j x ltj i in
        let ne : x ≢ a = λ e. new_place j (ap g.sized (sym e) ∙ r.0) in
        (update_ne g.sized (some k) ne ∙ r.0, update_ne g.used true ne ∙ r.1);
    distinct = heap.distinct;
    placed = λ b j e. elim (ℕ_discrete b a) [
      | yes p ↦
          at_new b j p
            (some_k j (sym (ap (update g.sized a (some k)) p ∙ update_self g.sized a (some k)) ∙ e))
      | no ne ↦
          let r = heap.placed b j (sym (update_ne g.sized (some k) ne) ∙ e) in
          (r.0, r.1, omega (arith, r.2, above), r.3)
    ];
    apart = added-Apart;
  }
    where
      some_k : (j : ℕ) → some k ≡ some j → k ≡ j
      some_k j e = cc

      at_new : (b j : ℕ) → b ≡ a → k ≡ j → Placed q.tail.arena.ptr (a + size_of k) b j
      at_new b j p e =
          subst (λ i. Placed q.tail.arena.ptr (a + size_of k) b i) e
            (subst (λ c. Placed q.tail.arena.ptr (a + size_of k) c k) (sym p)
              (lt, base, omega arith, aligned))

  pub added-Gains : Gains g (added g a k) a k
  added-Gains = record {
    given = (update_self g.sized a (some k), update_self g.used a true);
    fresh = λ j u. new_place j u.0;
    others = λ b j ne. (
      λ u. (update_ne g.sized (some k) ne ∙ u.0, update_ne g.used true ne ∙ u.1),
      λ u. (sym (update_ne g.sized (some k) ne) ∙ u.0, sym (update_ne g.used true ne) ∙ u.1),
    );
  }

  -- A block that is added and freed at once leaves those in use.
  pub freed_again : (ys : List Ptr) → SameUse g (reused (added g a k) k ys a false)
  freed_again ys b j = elim (ℕ_discrete b a) [
    | yes e ↦ (
      λ u. absurd (new_place j (ap g.sized (sym e) ∙ u.0)),
      λ u. absurd (
          clash _ u.1 (
            ap (update (update g.used a true) a false) e
            ∙ update_self (update g.used a true) a false)),
    )
    | no ne ↦ (
      λ u. (
        update_ne g.sized (some k) ne ∙ u.0,
        update_ne (update g.used a true) false ne ∙ update_ne g.used true ne ∙ u.1,
      ),
      λ u. (
        sym (update_ne g.sized (some k) ne) ∙ u.0,
        sym (update_ne (update g.used a true) false ne ∙ update_ne g.used true ne) ∙ u.1,
      ),
    )
  ]
