-- ===== src/PageAlloc/Witnesses.antt =====
-- port/src/bitmapalloc.rs: the theorems at a small allocator.
use r9x.Prelude.{ℕ, zero, suc, ◌≡◌, ◌<◌, refl, true, false, [], ◌∷◌, ok, arith, length, get_or}
use r9x.PageAlloc.{BitmapPageAlloc, physaddr_as_indices, indices_as_physaddr, deallocate}
use r9x.PageAlloc.Indices.{indices-physaddr}
use r9x.PageAlloc.Valid.{IsValid, byte_at, page_bit}
use r9x.PageAlloc.Free.{deallocate-bits, deallocate-wrong_page}
use r9x.PageAlloc.Scan.{allocate}
use r9x.PageAlloc.Scan.Ready.{IsReady}
use r9x.PageAlloc.Scan.Allocate.{Allocates, allocate-Allocates}

-- One bitmap of two bytes, pages of four bytes; page 0 and the pages from 11 on are free.
abbrev pages : BitmapPageAlloc
pages = record {
  bitmap_size_bytes = 2;
  bitmaps = (0xfe ∷ 0x07 ∷ []) ∷ [];
  alloc_page_size = 4;
  end = 64;
  next_pa_to_scan = 40;
}

pages-bytes : (b y : ℕ) → byte_at pages b y < 256
pages-bytes zero zero = omega arith
pages-bytes zero (suc zero) = omega arith
pages-bytes zero (suc (suc y)) = omega arith
pages-bytes (suc b) zero = omega arith
pages-bytes (suc b) (suc y) = omega arith

pages-rows : (b : ℕ) → b < length pages.bitmaps → length (get_or pages.bitmaps b []) ≡ 2
pages-rows zero h = refl
pages-rows (suc b) h = absurd (omega arith)

pages-IsValid : IsValid pages
pages-IsValid = record {
  pages = omega arith;
  width = omega arith;
  rows = pages-rows;
  bytes = pages-bytes;
}

pages-IsReady : IsReady pages
unfolding indices_as_physaddr
pages-IsReady = record {
  valid = pages-IsValid;
  fits = omega arith;
  aligned = refl;
  scan_below = omega arith;
  reserved = λ b y t hb hy ht h. absurd (omega arith);
}

allocate-Allocates_example : Allocates pages (allocate pages)
allocate-Allocates_example = allocate-Allocates pages pages-IsReady

indices-physaddr_example :
    physaddr_as_indices pages (indices_as_physaddr pages 0 1 2) ≡ ok (0, 1, 2)
indices-physaddr_example = indices-physaddr pages 0 1 2 (omega arith) (omega arith) (omega arith)

deallocate-bits_example :
    ((deallocate (indices_as_physaddr pages 0 0 3) pages).0 ≡ ok tt)
    × (page_bit (deallocate (indices_as_physaddr pages 0 0 3) pages).1 0 0 3 ≡ false)
unfolding indices_as_physaddr
deallocate-bits_example =
    deallocate-bits pages pages-IsValid 0 0 3 (omega arith) (omega arith) (omega arith) 0 0 3
      (omega arith) (omega arith) refl

deallocate-wrong_page_example :
    ((deallocate (indices_as_physaddr pages 0 1 2) pages).0 ≡ ok tt)
    × (page_bit (deallocate (indices_as_physaddr pages 0 1 2) pages).1 0 1 2 ≡ true)
    × (page_bit (deallocate (indices_as_physaddr pages 0 1 2) pages).1 0 0 2 ≡ false)
unfolding indices_as_physaddr
deallocate-wrong_page_example =
    deallocate-wrong_page pages pages-IsValid 0 1 2 (omega arith) (omega arith) (omega arith)
      (omega arith) refl (omega arith)
