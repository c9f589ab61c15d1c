-- ===== src/PageAlloc/Scan/Ready.antt =====
-- port/src/bitmapalloc.rs: an allocator that is set up, and where a search on it starts and ends.
use native.Mathlib.Nat.{div-add-mod', mod-lt, div-lt_iff_lt-mul, mul-le-mul_right}
use r9x.Prelude.{
  ℕ, ◌+◌, ◌*◌, ◌/◌, ◌%◌, ◌≤◌, ◌<◌, ◌≡◌, refl, sym, ap, subst, true, ok, arith, [], length, dec_lt,
  set,
}
use r9x.PageAlloc.{
  BitmapPageAlloc, physaddr_as_indices, indices_as_physaddr, max_bytes, with_bitmap,
}
use r9x.PageAlloc.Indices.{indices-physaddr}
use r9x.PageAlloc.Bitmap.{put_bit, trailing_ones}
use r9x.PageAlloc.Valid.{IsValid, page_bit, get_elem?-eq-get_or}
use r9x.PageAlloc.Write.{written}
use r9x.PageAlloc.Scan.{indices_from, find_free, scan_fuel, claim}
use r9x.PageAlloc.Scan.Round.{place, byte_no, size, At, Ends, byte_of-place}
use r9x.PageAlloc.Scan.Total.{search-Ends}

-- An allocator between two calls: the pages from `end` on are allocated, and the next search starts
-- at a page below `end`.
pub record IsReady (a : BitmapPageAlloc) : Type 0 where
  pub valid : IsValid a
  pub fits : a.end ≤ max_bytes a
  pub aligned : a.next_pa_to_scan % a.alloc_page_size ≡ 0
  pub scan_below : a.next_pa_to_scan < a.end
  pub reserved :
      (b y t : ℕ)
      → b < length a.bitmaps
      → y < a.bitmap_size_bytes
      → t < 8
      → a.end ≤ indices_as_physaddr a b y t
      → page_bit a b y t ≡ true

with_bitmap-eq :
    (a : BitmapPageAlloc) (v : IsValid a) (n byte : ℕ)
    → n < size a
    → with_bitmap a (place a n).bitmap (λ row. ok (set row (place a n).byte byte))
      ≡ ok (written a (place a n).bitmap (place a n).byte byte)
unfolding with_bitmap
with_bitmap-eq a v n byte lt =
    rw
      (
        with_bitmap,
        get_elem?-eq-get_or a.bitmaps (n / a.bitmap_size_bytes) []
            ((div-lt_iff_lt-mul v.width).1 lt),
      )
      refl

pub claim-eq :
    (a : BitmapPageAlloc) (v : IsValid a) (n : ℕ)
    → n < size a
    → claim a (place a n) ≡ (
      ok (indices_as_physaddr a (place a n).bitmap (place a n).byte (trailing_ones (byte_no a n))),
      record (written a
          (place a n).bitmap
          (place a n).byte
          (put_bit (byte_no a n) (trailing_ones (byte_no a n)) true)) {
            next_pa_to_scan =
                indices_as_physaddr a
                  (place a n).bitmap
                  (place a n).byte
                  (trailing_ones (byte_no a n));
          },
    )
unfolding claim
claim-eq a v n lt =
    rw
      (
        claim,
        byte_of-place a v n lt,
        with_bitmap-eq a v n (put_bit (byte_no a n) (trailing_ones (byte_no a n)) true) lt,
      )
      refl

-- Where the search starts.
module _ (a : BitmapPageAlloc) (r : IsReady a) where
  open a use {alloc_page_size as p, bitmap_size_bytes as s, next_pa_to_scan as pa}

  pub start_no : ℕ
  start_no = a.next_pa_to_scan / a.alloc_page_size / 8

  start_address :
      a.next_pa_to_scan
      ≡ indices_as_physaddr a
          (place a start_no).bitmap
          (place a start_no).byte
          (a.next_pa_to_scan / a.alloc_page_size % 8)
  unfolding indices_as_physaddr
  start_address = omega (
    arith,
    div-add-mod' pa p,
    r.aligned,
    ap (λ x. (x * 8 + pa / p % 8) * p) (div-add-mod' start_no s),
    ap (λ x. x * p) whole,
  )
    where
      whole : start_no * 8 + pa / p % 8 ≡ pa / p
      whole = unfold start_no in omega arith

  start_below : start_no * (8 * a.alloc_page_size) < a.end
  unfolding start_no
  start_below =
      omega (arith, r.scan_below, div-add-mod' pa p, mul-le-mul_right p (below_page (pa / p)))
    where
      below_page : (q : ℕ) → q / 8 * 8 ≤ q
      below_page q = omega arith

  start_inside : start_no < size a
  start_inside = elim (dec_lt start_no (size a)) [
    | yes h ↦ h
    | no h ↦
        let over : size a ≤ start_no = omega (arith, h) in
        absurd (omega (arith, start_below, r.fits, mul-le-mul_right (8 * p) over))
  ]

  pub start_indices :
      physaddr_as_indices a a.next_pa_to_scan
      ≡ ok (
        (place a start_no).bitmap,
        (place a start_no).byte,
        a.next_pa_to_scan / a.alloc_page_size % 8,
      )
  start_indices =
      subst
        (λ x.
          physaddr_as_indices a x
          ≡ ok ((place a start_no).bitmap, (place a start_no).byte, pa / p % 8))
        (sym start_address)
        (indices-physaddr a _ _ (pa / p % 8) r.valid.pages (mod-lt start_no r.valid.width)
          (omega arith))

  start-At :
      At a r.valid (indices_from a (place a start_no).bitmap (place a start_no).byte) start_no
  unfolding indices_from indices_as_physaddr
  start-At = record {
    bitmap = refl;
    byte = refl;
    behind = omega (arith, ap (λ x. x * (8 * p)) (div-add-mod' start_no s));
  }

  pub search :
      Ends a r.valid
        (λ i. (i < size a) × (i * (8 * a.alloc_page_size) < a.end))
        (find_free
          (scan_fuel a)
          a
          (place a start_no)
          (indices_from a (place a start_no).bitmap (place a start_no).byte))
  unfolding indices_from
  search =
      search-Ends a r.valid start_no start_inside start_below _ (scan_fuel a) (omega arith) start-At
        refl
