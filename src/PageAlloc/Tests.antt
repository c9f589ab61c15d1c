-- ===== src/PageAlloc/Tests.antt =====
-- The unit tests of port/src/bitmapalloc.rs, run on the model, and one for each fault.
use r9x.Prelude.{◌≡◌, refl, [], ◌∷◌, ok, err, is_power_below}
use r9x.Addr.Phys.{stepping, step_by_rounded}
use r9x.PageAlloc.{
  BitmapPageAlloc, out_of_space, not_allocated, new_all_allocated, physaddr_as_indices, with_bitmap,
  indices_as_physaddr, mark_page, mark_pages, mark_range, mark_free, mark_allocated, deallocate,
}
use r9x.PageAlloc.Bitmap
use r9x.PageAlloc.Scan.{
  allocate, usage_bytes, free_bytes, find_free, next, cycle, advance, claim, indices_from, byte_of,
}

-- Two bitmaps of two bytes, pages of four bytes.
abbrev all_free : BitmapPageAlloc
all_free = record {
  bitmap_size_bytes = 2;
  bitmaps = (0 ∷ 0 ∷ []) ∷ (0 ∷ 0 ∷ []) ∷ [];
  alloc_page_size = 4;
  end = 128;
  next_pa_to_scan = 0;
}

abbrev marked : BitmapPageAlloc
marked = record all_free { bitmaps = (0xfe ∷ 0x07 ∷ []) ∷ (0 ∷ 0 ∷ []) ∷ [] }

abbrev all_taken : BitmapPageAlloc
all_taken = record all_free { bitmaps = (0xff ∷ 0xff ∷ []) ∷ (0xff ∷ 0xff ∷ []) ∷ [] }

-- What a run of the model computes with.
marking : Unit {0}
unfolding new_all_allocated mark_free mark_allocated mark_range mark_pages mark_page with_bitmap
    Bitmap.set step_by_rounded stepping is_power_below physaddr_as_indices
marking = tt

scanning : Unit {0}
unfolding allocate find_free next cycle advance claim indices_from byte_of physaddr_as_indices
    indices_as_physaddr with_bitmap Bitmap.trailing_ones
scanning = tt

marks_free :
    mark_free (record { start = 0; end = 128 }) (new_all_allocated 2 2 4) ≡ (ok tt, all_free)
unfolding marking
marks_free = refl

marks_allocated : mark_allocated (record { start = 4; end = 44 }) all_free ≡ (ok tt, marked)
unfolding marking
marks_allocated = refl

allocates_in_gap : (allocate marked).0 ≡ ok 0
unfolding scanning
allocates_in_gap = refl

allocates_past_gap : (allocate (allocate marked).1).0 ≡ ok 44
unfolding scanning
allocates_past_gap = refl

out_of_pages : allocate all_taken ≡ (err out_of_space, all_taken)
unfolding scanning
out_of_pages = refl

usage : usage_bytes marked ≡ ok (40, 128)
unfolding usage_bytes free_bytes Bitmap.count_zeros scanning
usage = refl

deallocates_first_byte : deallocate 4 all_taken ≡ (
  ok tt,
  record all_taken { bitmaps = (0xfd ∷ 0xff ∷ []) ∷ (0xff ∷ 0xff ∷ []) ∷ []; next_pa_to_scan = 4 },
)
unfolding deallocate marking Bitmap.is_set
deallocates_first_byte = refl

twice : (deallocate 4 (deallocate 4 all_taken).1).0 ≡ err not_allocated
unfolding deallocate marking Bitmap.is_set
twice = refl

-- The page at 40 is bit 2 of the second byte: the bit that is cleared is bit 2 of the first.
deallocates_wrong_page : deallocate 40 all_taken ≡ (
  ok tt,
  record all_taken { bitmaps = (0xfb ∷ 0xff ∷ []) ∷ (0xff ∷ 0xff ∷ []) ∷ []; next_pa_to_scan = 40 },
)
unfolding deallocate marking Bitmap.is_set
deallocates_wrong_page = refl
