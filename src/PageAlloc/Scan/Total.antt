-- ===== src/PageAlloc/Scan/Total.antt =====
-- port/src/bitmapalloc.rs: the search of `allocate`, from a start round to it again.
use native.Mathlib.Nat.{div-lt_iff_lt-mul, le-div_iff_mul-le, mul-le-mul_right}
use r9x.Prelude.{
  ℕ, zero, suc, ◌+◌, ◌-◌, ◌*◌, ◌/◌, ◌%◌, ◌≤◌, ◌<◌, ◌≡◌, refl, sym, ap, subst, ◌∙◌, ◌⊎◌, inl, inr,
  true, false, none, arith, length, dec_lt, ℕ_discrete,
}
use r9x.Prelude.Division.{quotient_of, remainder_of}
use r9x.PageAlloc.{BitmapPageAlloc}
use r9x.PageAlloc.Valid.{IsValid}
use r9x.PageAlloc.Scan.{Cursor, cycle, advance, next, find_free}
use r9x.PageAlloc.Scan.Round.{
  place, size, At, advance-At, advance-passed, cycle_stay, next_done, next_first, next_on, Ends,
  exhausts, Ends-weaken, Ends-step, find_none, find_cong,
}

module _ (a : BitmapPageAlloc) (v : IsValid a) where
  module _ (m : ℕ) (inside : m < size a) (below : m * (8 * a.alloc_page_size) < a.end) where
    stays : (c : Cursor) (n : ℕ) → n ≤ m → At a v c n → cycle a c ≡ c
    stays c n le h =
        cycle_stay a v c
          (subst (λ t. t < length a.bitmaps) (sym h.bitmap)
            ((div-lt_iff_lt-mul v.width).1 (omega arith)))
          (omega (arith, h.behind, mul-le-mul_right (8 * a.alloc_page_size) le))

    -- From byte `n` at or before the start, up to it.
    to_start :
        (k n : ℕ) (c : Cursor) (fuel : ℕ)
        → n + k ≡ m
        → k < fuel
        → At a v c n
        → c.passed_first ≡ true
        → Ends a v (λ i. (n ≤ i) × (i < m)) (find_free fuel a (place a m) c)
    to_start k n c zero e lt h p = absurd (omega arith)
    to_start zero n c (suc fuel) e lt h p =
        exhausts
          (find_none a (place a m) c fuel (
            subst (λ i. next a (place a i) c ≡ none) (omega arith)
              (next_done a v c n h (stays c n (omega arith) h) p)))
          (λ i g. absurd (omega arith))
    to_start (suc k) n c (suc fuel) e lt h p =
        Ends-step a v c m n fuel (omega arith)
          (next_on a v c m n h (stays c n (omega arith) h) (λ q. absurd (omega arith)))
          (λ i g. elim (ℕ_discrete i n) [ yes q ↦ inl q | no q ↦ inr (omega arith, g.1) ])
          (to_start k (n + 1) (advance a c) fuel (omega arith) (omega arith) (advance-At a v n h)
            (advance-passed a v c))

    origin : Cursor
    origin = record { bitmap_idx = 0; byte_idx = 0; passed_first = true; currpa = 0 }

    origin-At : At a v origin 0
    unfolding origin
    origin-At = record {
      bitmap =
          sym (
            ap (λ t. t / a.bitmap_size_bytes) zero_is
            ∙ quotient_of a.bitmap_size_bytes 0 0 v.width);
      byte = sym (
          ap (λ t. t % a.bitmap_size_bytes) zero_is ∙ remainder_of a.bitmap_size_bytes 0 0 v.width);
      behind = omega arith;
    }
      where
        zero_is : 0 ≡ 0 * a.bitmap_size_bytes + 0
        zero_is = omega arith

    -- Behind the last bitmap, or at the end of the pages, the cursor goes back.
    cycle_over :
        (c : Cursor)
        → c.passed_first ≡ true
        → (length a.bitmaps ≤ c.bitmap_idx) ⊎ (a.end ≤ c.currpa)
        → cycle a c ≡ origin
    unfolding cycle origin
    cycle_over c p h = ground (arith, h)

    -- Where the cursor goes back to the start, the search goes on from there.
    wraps :
        (c : Cursor) (fuel : ℕ)
        → cycle a c ≡ origin
        → m < fuel
        → Ends a v (λ i. i < m) (find_free fuel a (place a m) c)
    unfolding origin
    wraps c fuel e lt =
        subst (Ends a v (λ i. i < m))
          (find_cong a (place a m) origin c fuel (stays origin 0 (omega arith) origin-At ∙ sym e))
          (Ends-weaken a v (λ i g. (omega arith, g))
            (to_start m 0 origin fuel (omega arith) lt origin-At refl))

    -- From a byte behind the start, over the end and up to the start.
    abbrev Unmet : ℕ → ℕ → Type 0
    Unmet n i = (i < m) ⊎ ((n ≤ i) × (i < size a) × (i * (8 * a.alloc_page_size) < a.end))

    round_trip :
        (k n : ℕ) (c : Cursor) (fuel : ℕ)
        → n + k ≡ size a
        → m < n
        → k + m < fuel
        → At a v c n
        → c.passed_first ≡ true
        → Ends a v (Unmet n) (find_free fuel a (place a m) c)
    round_trip k n c zero e lt fe h p = absurd (omega arith)
    round_trip zero n c (suc fuel) e lt fe h p =
        Ends-weaken a v (λ i g. elim g [ inl q ↦ q | inr q ↦ absurd (omega (arith, q.0, q.1)) ])
          (wraps c (suc fuel)
            (cycle_over c p (
              inl (
                subst (λ t. length a.bitmaps ≤ t) (sym h.bitmap)
                  ((le-div_iff_mul-le v.width).1 (omega arith)))))
            (omega arith))
    round_trip (suc k) n c (suc fuel) e lt fe h p = elim (dec_lt c.currpa a.end) [
      | no out ↦
          Ends-weaken a v
            (λ i g. elim g [
              | inl q ↦ q
              | inr q ↦
                  absurd
                    (omega (arith, h.behind, mul-le-mul_right (8 * a.alloc_page_size) q.0, q.2))
            ])
            (wraps c (suc fuel) (cycle_over c p (inr (omega arith))) (omega arith))
      | yes in_range ↦
          Ends-step a v c m n fuel (omega arith)
            (next_on a v c m n h
              (cycle_stay a v c
                (subst (λ t. t < length a.bitmaps) (sym h.bitmap)
                  ((div-lt_iff_lt-mul v.width).1 (omega arith)))
                in_range)
              (λ q. absurd (omega arith)))
            (λ i g. elim g [
              | inl q ↦ inr (inl q)
              | inr q ↦ elim (ℕ_discrete i n) [
                | yes r ↦ inl r
                | no r ↦ inr (inr (omega (arith, q.0), q.1, q.2))
              ]
            ])
            (round_trip k (n + 1) (advance a c) fuel (omega arith) (omega arith) (omega arith)
              (advance-At a v n h) (advance-passed a v c))
    ]

    -- A whole search, from the start round to it again.
    pub search-Ends :
        (c : Cursor) (fuel : ℕ)
        → size a < fuel
        → At a v c m
        → c.passed_first ≡ false
        → Ends a v
            (λ i. (i < size a) × (i * (8 * a.alloc_page_size) < a.end))
            (find_free fuel a (place a m) c)
    search-Ends c zero lt h p = absurd (omega arith)
    search-Ends c (suc fuel) lt h p =
        Ends-step a v c m m fuel inside (next_first a v c m h (stays c m (omega arith) h) p)
          (λ i g. elim (ℕ_discrete i m) [
            | yes r ↦ inl r
            | no r ↦ inr (elim (dec_lt i m) [ yes q ↦ inl q | no q ↦ inr (omega arith, g.0, g.1) ])
          ])
          (round_trip (size a - (m + 1)) (m + 1) (advance a c) fuel (omega arith) (omega arith)
            (omega arith) (advance-At a v m h) (advance-passed a v c))
