-- ===== src/PageAlloc/Scan/Allocate.antt =====
-- port/src/bitmapalloc.rs: `allocate`, on an allocator that is set up.
use native.Mathlib.Nat.{mod-lt, div-lt_iff_lt-mul, mul-le-mul_right}
use r9x.Prelude.{
  ℕ, ◌+◌, ◌*◌, ◌≤◌, ◌<◌, ◌≡◌, ◌≢◌, refl, sym, ap₂, subst, ◌∙◌, Bool, true, false, ok, err, arith,
  length, ◌==◌, ◌&&◌, if◌then◌else◌, dec_lt, length-set,
}
use r9x.Prelude.Division.{quotient_of, remainder_of}
use r9x.PageAlloc.{BitmapPageAlloc, Step, out_of_space, indices_as_physaddr}
use r9x.PageAlloc.Indices.{aligned}
use r9x.PageAlloc.Bitmap.{put_bit, bit_set, trailing_ones}
use r9x.PageAlloc.Bitmap.Laws.{trailing_ones-IsLowestClear, put_bit-lt, bit_set-full}
use r9x.PageAlloc.Valid.{byte_at, page_bit}
use r9x.PageAlloc.Write.{written, written-IsValid, page_bit-written}
use r9x.PageAlloc.Scan.{found, none_left, indices_from, find_free, scan_fuel, claim, allocate}
use r9x.PageAlloc.Scan.Round.{place, byte_no, size, finds, exhausts}
use r9x.PageAlloc.Scan.Ready.{IsReady, claim-eq, start_no, start_indices, search}

-- The two ways in which `allocate` ends.
pub data Allocates (a : BitmapPageAlloc) (r : Step ℕ) : Type 0 where
  takes :
      (b y t : ℕ)
      → b < length a.bitmaps
      → y < a.bitmap_size_bytes
      → t < 8
      → page_bit a b y t ≡ false
      → indices_as_physaddr a b y t < a.end
      → r.0 ≡ ok (indices_as_physaddr a b y t)
      → IsReady r.1
      → ((j k i : ℕ)
          → i < 8
          → page_bit r.1 j k i ≡ (if b == j && (y == k && t == i) then true else page_bit a j k i))
      → Allocates a r
  refuses :
      ((b y t : ℕ)
        → b < length a.bitmaps
        → y < a.bitmap_size_bytes
        → t < 8
        → indices_as_physaddr a b y t < a.end
        → page_bit a b y t ≡ true)
      → r ≡ (err out_of_space, a)
      → Allocates a r

-- A free page of a ready allocator is below its end, and the allocator that has taken it is ready.
module _ (a : BitmapPageAlloc) (r : IsReady a) (b y t : ℕ) (hb : b < length a.bitmaps)
    (hy : y < a.bitmap_size_bytes) (ht : t < 8) (free : page_bit a b y t ≡ false) where
  free_below : indices_as_physaddr a b y t < a.end
  free_below = elim (dec_lt (indices_as_physaddr a b y t) a.end) [
    | yes h ↦ h
    | no h ↦ absurd (ground (arith, r.reserved b y t hb hy ht (omega (arith, h)), free))
  ]

  abbrev taking : BitmapPageAlloc
  taking = record (written a b y (put_bit (byte_at a b y) t true)) {
    next_pa_to_scan = indices_as_physaddr a b y t;
  }

  taking-bits :
      (j k i : ℕ)
      → i < 8
      → page_bit taking j k i ≡ (if b == j && (y == k && t == i) then true else page_bit a j k i)
  taking-bits j k i hi = page_bit-written a r.valid b y hb hy t true j k i ht hi

  either : (c : Bool) {x : Bool} → x ≡ true → (if c then true else x) ≡ true
  either true h = refl
  either false h = h

  taking-IsReady : IsReady taking
  unfolding indices_as_physaddr
  taking-IsReady =
      let w = written-IsValid a r.valid b y hb hy _ (put_bit-lt _ t true (r.valid.bytes b y) ht) in
      record {
        valid = record { pages = w.pages; width = w.width; rows = w.rows; bytes = w.bytes };
        fits =
            subst (λ n. a.end ≤ n * (a.bitmap_size_bytes * (8 * a.alloc_page_size)))
              (sym (length-set a.bitmaps b _)) r.fits;
        aligned = aligned _ _ b y t r.valid.pages hy ht;
        scan_below = free_below;
        reserved = λ j k i hj hk hi out.
            taking-bits j k i hi
            ∙ either _
                (r.reserved j k i (subst (λ n. j < n) (length-set a.bitmaps b _) hj) hk hi out);
      }

module _ (a : BitmapPageAlloc) (r : IsReady a) where
  allocate_found :
      (n : ℕ)
      → find_free
          (scan_fuel a)
          a
          (place a (start_no a r))
          (indices_from a (place a (start_no a r)).bitmap (place a (start_no a r)).byte)
        ≡ found (place a n)
      → allocate a ≡ claim a (place a n)
  unfolding allocate
  allocate_found n e = rw (allocate, start_indices a r, e) refl

  allocate_none :
      find_free
          (scan_fuel a)
          a
          (place a (start_no a r))
          (indices_from a (place a (start_no a r)).bitmap (place a (start_no a r)).byte)
        ≡ none_left
      → allocate a ≡ (err out_of_space, a)
  unfolding allocate
  allocate_none e = rw (allocate, start_indices a r, e) refl

  -- The page that `claim` takes.
  claim-Allocates : (n : ℕ) → n < size a → byte_no a n ≢ 255 → Allocates a (claim a (place a n))
  claim-Allocates n lt ne =
      let low = trailing_ones-IsLowestClear (byte_no a n) (r.valid.bytes _ _) ne in
      let hb : (place a n).bitmap < length a.bitmaps = (div-lt_iff_lt-mul r.valid.width).1 lt in
      let hy : (place a n).byte < a.bitmap_size_bytes = mod-lt n r.valid.width in
      subst (Allocates a) (sym (claim-eq a r.valid n lt)) (
        takes _ _ (trailing_ones (byte_no a n)) hb hy low.in_byte low.clear
          (free_below a r _ _ _ hb hy low.in_byte low.clear) refl
          (taking-IsReady a r _ _ _ hb hy low.in_byte low.clear)
          (taking-bits a r _ _ _ hb hy low.in_byte low.clear))

  all_taken :
      ((n : ℕ) → (n < size a) × (n * (8 * a.alloc_page_size) < a.end) → byte_no a n ≡ 255)
      → (b y t : ℕ) → b < length a.bitmaps
      → y < a.bitmap_size_bytes
      → t < 8
      → indices_as_physaddr a b y t < a.end
      → page_bit a b y t ≡ true
  unfolding indices_as_physaddr
  all_taken full b y t hb hy ht below =
      let at : byte_at a b y ≡ 255 =
        ap₂ (byte_at a) (sym (quotient_of a.bitmap_size_bytes b y hy))
          (sym (remainder_of a.bitmap_size_bytes b y hy))
        ∙ full (b * a.bitmap_size_bytes + y)
            (omega (arith, mul-le-mul_right a.bitmap_size_bytes hb), omega (arith, below)) in
      subst (λ x. bit_set x t ≡ true) (sym at) (bit_set-full t ht)

  -- On an allocator that is ready (well-formed, its end inside the bitmaps, the pages from the end
  -- on marked allocated, the next search starting at a page below the end), `allocate` returns
  -- without a panic and within the search's fuel: either it takes a free page below the end, whose
  -- bit is the only one that changes, and leaves the allocator ready; or all the pages below the
  -- end are allocated, and it reports out_of_space and changes nothing.
  pub allocate-Allocates : Allocates a (allocate a)
  allocate-Allocates = elim (search a r) [
    | finds n lt ne e ↦ subst (Allocates a) (sym (allocate_found n e)) (claim-Allocates n lt ne)
    | exhausts e full ↦ refuses (all_taken full) (allocate_none e)
  ]
