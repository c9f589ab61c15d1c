-- ===== src/PageAlloc/Free.antt =====
-- port/src/bitmapalloc.rs: what `deallocate` does to the pages. The bit that it tests is the bit of
-- the page, and the bit that it clears is the one at the same place of the bitmap's first byte.
use r9x.Prelude.{
  ℕ, ◌+◌, ◌*◌, ◌/◌, ◌%◌, ◌≤◌, ◌<◌, ◌≡◌, ap, sym, subst, ◌∙◌, Bool, true, false, ◌&&◌, [], ok, err,
  length, get_or, set, arith, ltb, ◌==◌, if◌then◌else◌, refl, get_elem?, some,
}
use r9x.PageAlloc.{
  BitmapPageAlloc, PageAllocError, out_of_bounds, not_allocated, indices_as_physaddr, with_bitmap,
  deallocate,
}
use r9x.PageAlloc.Indices.{indices-physaddr}
use r9x.PageAlloc.Bitmap
use r9x.PageAlloc.Bitmap.{bit_set, put_bit, is_set}
use r9x.PageAlloc.Valid.{IsValid, byte_at, page_bit, get_elem?-eq-get_or}
use r9x.PageAlloc.Write.{written, page_bit-written}

pub deallocate-out_of_bounds :
    (a : BitmapPageAlloc) (pa : ℕ) → a.end < pa → deallocate pa a ≡ (err out_of_bounds, a)
unfolding deallocate
deallocate-out_of_bounds a pa h = ground arith

module _ (a : BitmapPageAlloc) (v : IsValid a) (b y t : ℕ) (hb : b < length a.bitmaps)
    (hy : y < a.bitmap_size_bytes) (ht : t < 8) where
  get_byte : get_elem? (get_or a.bitmaps b []) ((8 * y + t) / 8) ≡ some (byte_at a b y)
  get_byte =
      ap (get_elem? (get_or a.bitmaps b [])) (omega arith)
      ∙ get_elem?-eq-get_or (get_or a.bitmaps b []) y 0 (subst (λ n. y < n) (sym (v.rows b hb)) hy)

  pub is_set-page :
      is_set {E = PageAllocError} (get_or a.bitmaps b []) (8 * y + t) ≡ ok (page_bit a b y t)
  unfolding is_set
  is_set-page = let e : (8 * y + t) % 8 ≡ t = omega arith in rw (is_set, get_byte, e) refl

  get_first : get_elem? (get_or a.bitmaps b []) (t / 8) ≡ some (byte_at a b 0)
  get_first =
      ap (get_elem? (get_or a.bitmaps b [])) (omega arith)
      ∙ get_elem?-eq-get_or (get_or a.bitmaps b []) 0 0
          (subst (λ n. 0 < n) (sym (v.rows b hb)) v.width)

  set_first :
      Bitmap.set {E = PageAllocError} (get_or a.bitmaps b []) t false
      ≡ ok (set (get_or a.bitmaps b []) 0 (put_bit (byte_at a b 0) t false))
  unfolding Bitmap.set
  set_first =
      let d : t / 8 ≡ 0 = omega arith in
      let e : t % 8 ≡ t = omega arith in rw (Bitmap.set, get_first, d, e) refl

  abbrev freed : BitmapPageAlloc
  freed = written a b 0 (put_bit (byte_at a b 0) t false)

  with_bitmap-freed : with_bitmap a b (λ row. Bitmap.set row t false) ≡ ok freed
  unfolding with_bitmap
  with_bitmap-freed = rw (with_bitmap, get_elem?-eq-get_or a.bitmaps b [] hb, set_first) refl

  -- The page is free already.
  pub deallocate-not_allocated :
      indices_as_physaddr a b y t ≤ a.end
      → page_bit a b y t ≡ false
      → deallocate (indices_as_physaddr a b y t) a ≡ (err not_allocated, a)
  unfolding deallocate
  deallocate-not_allocated h clear =
      let i : ltb a.end (indices_as_physaddr a b y t) ≡ false = ground (arith, h) in
      rw
        (
          deallocate,
          i,
          indices-physaddr a b y t v.pages hy ht,
          get_elem?-eq-get_or a.bitmaps b [] hb,
          is_set-page,
          clear,
        )
        refl

  deallocate-eq :
      indices_as_physaddr a b y t ≤ a.end
      → page_bit a b y t ≡ true
      → deallocate (indices_as_physaddr a b y t) a
        ≡ (ok tt, record freed { next_pa_to_scan = indices_as_physaddr a b y t })
  unfolding deallocate
  deallocate-eq h taken =
      let i : ltb a.end (indices_as_physaddr a b y t) ≡ false = ground (arith, h) in
      rw
        (
          deallocate,
          i,
          indices-physaddr a b y t v.pages hy ht,
          get_elem?-eq-get_or a.bitmaps b [] hb,
          is_set-page,
          taken,
          with_bitmap-freed,
        )
        refl

  -- On a well-formed allocator, freeing an allocated page at an address not above the end succeeds,
  -- and the one bit that it clears is the one at the place of the page's bit in the first byte of
  -- its bitmap: every other bit is kept.
  pub deallocate-bits :
      (j k i : ℕ)
      → i < 8
      → indices_as_physaddr a b y t ≤ a.end
      → page_bit a b y t ≡ true
      → ((deallocate (indices_as_physaddr a b y t) a).0 ≡ ok tt)
        × (page_bit (deallocate (indices_as_physaddr a b y t) a).1 j k i
            ≡ (if b == j && (0 == k && t == i) then false else page_bit a j k i))
  deallocate-bits j k i hi h taken =
      let e = deallocate-eq h taken in
      (
        ap (λ r. r.0) e,
        ap (λ r. page_bit r.1 j k i) e ∙ page_bit-written a v b 0 hb v.width t false j k i ht hi,
      )

  -- On a well-formed allocator, freeing an allocated page, at an address not above the end, whose
  -- bit is not in the first byte of its bitmap succeeds, leaves that page allocated, and marks free
  -- the page at its place in the first byte.
  pub deallocate-wrong_page :
      indices_as_physaddr a b y t ≤ a.end
      → page_bit a b y t ≡ true
      → 0 < y
      → ((deallocate (indices_as_physaddr a b y t) a).0 ≡ ok tt)
        × (page_bit (deallocate (indices_as_physaddr a b y t) a).1 b y t ≡ true)
        × (page_bit (deallocate (indices_as_physaddr a b y t) a).1 b 0 t ≡ false)
  deallocate-wrong_page h taken far =
      let (r, kept_bit) = deallocate-bits b y t ht h taken in
      let (_, cleared_bit) = deallocate-bits b 0 t ht h taken in
      (r, kept_bit ∙ kept taken, cleared_bit ∙ cleared)
    where
      kept : {x : Bool} → x ≡ true → (if b == b && (0 == y && t == t) then false else x) ≡ true
      kept e = ground (arith, e, far)

      cleared : (if b == b && (0 == 0 && t == t) then false else page_bit a b 0 t) ≡ false
      cleared = ground arith
