-- ===== src/PageAlloc.antt =====
-- port/src/bitmapalloc.rs and port/src/pagealloc.rs: the page allocator, one bit a page, set while
-- the page is allocated. `Bitmap` is `Bitmap`; this file has the record and the operations. The
-- products of the sizes are at most `max_bytes`, which the constructor computes with a check, so
-- they do not overflow.
pub mod Bitmap
pub mod Indices
pub mod Valid
pub mod Write
pub mod Free
pub mod Scan
mod Tests
mod Witnesses
use r9x.Prelude.{
  ℕ, zero, suc, ◌+◌, ◌-◌, ◌*◌, ◌/◌, ◌%◌, ◌^◌, Bool, true, false, ◌&&◌, Option, none, some, List, [],
  ◌∷◌, Outcome, ok, err, panic, ◌>>=◌, ◌>>◌, or_panic, fail_if, length, get_elem?, set, replicate,
  ltb, leb, ◌==◌, if◌then◌else◌,
}
use r9x.Addr.{PhysRange}
use r9x.Addr.Phys.{step_by_rounded}
use Bitmap.{is_set}

pub data PageAllocError : Type 0 where
  out_of_bounds misaligned_addr out_of_space not_allocated unable_to_map : PageAllocError

-- The second const parameter of the type is the field `bitmap_size_bytes`; the first is the number
-- of the bitmaps.
pub record BitmapPageAlloc : Type 0 where
  pub bitmap_size_bytes : ℕ
  pub bitmaps : List (List ℕ)
  pub alloc_page_size : ℕ
  pub end : ℕ
  pub next_pa_to_scan : ℕ

unfoldable pub new_all_allocated : ℕ → ℕ → ℕ → BitmapPageAlloc
new_all_allocated num_bitmaps bitmap_size_bytes alloc_page_size = record {
  bitmap_size_bytes = bitmap_size_bytes;
  bitmaps = replicate num_bitmaps (replicate bitmap_size_bytes 0xff);
  alloc_page_size = alloc_page_size;
  end = num_bitmaps * bitmap_size_bytes * 8 * alloc_page_size;
  next_pa_to_scan = 0;
}

abbrev pub bytes_per_bitmap_byte : BitmapPageAlloc → ℕ
bytes_per_bitmap_byte a = 8 * a.alloc_page_size

abbrev pub bytes_per_bitmap : BitmapPageAlloc → ℕ
bytes_per_bitmap a = a.bitmap_size_bytes * bytes_per_bitmap_byte a

abbrev pub max_bytes : BitmapPageAlloc → ℕ
max_bytes a = length a.bitmaps * bytes_per_bitmap a

-- A call returns its outcome and the allocator that it leaves, on an error too.
abbrev pub Step {ℓ} : Type ℓ → Type ℓ
Step A = Outcome PageAllocError A × BitmapPageAlloc

-- The bitmap, the byte in it and the bit in that. The assertion and the divisions panic.
unfoldable pub physaddr_as_indices : BitmapPageAlloc → ℕ → Outcome PageAllocError (ℕ × ℕ × ℕ)
physaddr_as_indices a pa =
    let offset = pa % bytes_per_bitmap a in
    let byte_idx = offset / bytes_per_bitmap_byte a in
    if bytes_per_bitmap a == 0
    then panic
    else if pa % a.alloc_page_size == 0
    then ok (
      pa / bytes_per_bitmap a,
      byte_idx,
      (offset - byte_idx * bytes_per_bitmap_byte a) / a.alloc_page_size,
    )
    else panic

unfoldable pub indices_as_physaddr : BitmapPageAlloc → ℕ → ℕ → ℕ → ℕ
indices_as_physaddr a bitmap_idx byte_idx bit_idx =
    bitmap_idx * bytes_per_bitmap a
    + byte_idx * bytes_per_bitmap_byte a
    + bit_idx * a.alloc_page_size

-- `self.bitmaps[bitmap_idx]` as a place that is written.
unfoldable pub with_bitmap :
    BitmapPageAlloc
    → ℕ
    → (List ℕ → Outcome PageAllocError (List ℕ))
    → Outcome PageAllocError BitmapPageAlloc
with_bitmap a bitmap_idx write = do
  bitmap ← or_panic (get_elem? a.bitmaps bitmap_idx)
  written ← write bitmap
  ok (record a { bitmaps = set a.bitmaps bitmap_idx written })

-- One round of the loop of `mark_range`.
unfoldable pub mark_page : Bool → BitmapPageAlloc → ℕ → Outcome PageAllocError BitmapPageAlloc
mark_page allocated a pa = physaddr_as_indices a pa >>= λ i.
    fail_if (leb (length a.bitmaps) i.0) out_of_bounds
    >> with_bitmap a i.0 (λ bitmap. Bitmap.set bitmap (8 * i.1 + i.2) allocated)

unfoldable pub mark_pages : Bool → List ℕ → BitmapPageAlloc → Step (Unit {0})
mark_pages allocated [] a = (ok tt, a)
mark_pages allocated (pa ∷ pas) a = elim (mark_page allocated a pa) [
  | ok a' ↦ mark_pages allocated pas a'
  | err e ↦ (err e, a)
  | panic ↦ (panic, a)
]

-- Runs `f` on the value, in the state that is left, unless the call failed.
abbrev pub and_then {ℓ κ} :
    {A : Type ℓ} {B : Type κ} → Step A → (A → BitmapPageAlloc → Step B) → Step B
and_then (ok x, a) f = f x a
and_then (err e, a) f = (err e, a)
and_then (panic, a) f = (panic, a)

unfoldable pub mark_range : PhysRange → Bool → Bool → BitmapPageAlloc → Step (Unit {0})
mark_range range allocated check_end a =
    if check_end && ltb a.end range.end
    then (err out_of_bounds, a)
    else and_then (step_by_rounded range a.alloc_page_size, a) (mark_pages allocated)

unfoldable pub mark_allocated : PhysRange → BitmapPageAlloc → Step (Unit {0})
mark_allocated range = mark_range range true true

unfoldable pub mark_free : PhysRange → BitmapPageAlloc → Step (Unit {0})
mark_free range = mark_range range false true

-- The loop of `free_unused_ranges`, which gives the end of the last used range.
unfoldable pub free_gaps : ℕ → List PhysRange → BitmapPageAlloc → Step ℕ
free_gaps next_start [] a = (ok next_start, a)
free_gaps next_start (range ∷ ranges) a =
    let gap : PhysRange = record { start = next_start; end = range.start } in
    let freed = if ltb next_start range.start then mark_free gap a else (ok tt, a) in
    let next = if ltb next_start range.end then range.end else next_start in
    let rest = free_gaps next ranges in and_then freed λ _. rest

unfoldable pub free_unused_ranges : PhysRange → List PhysRange → BitmapPageAlloc → Step (Unit {0})
free_unused_ranges available used a = and_then (free_gaps available.start used a) λ next a₁.
    and_then
      (if ltb next available.end
        then mark_free (record { start = next; end = available.end }) a₁
        else (ok tt, a₁))
      λ _ a₂.
        let a₃ = record a₂ { end = available.end } in
        and_then (mark_range (record { start = a₃.end; end = max_bytes a₃ }) true false a₃)
          λ _ a₄. (ok tt, record a₄ { next_pa_to_scan = 0 })

-- `deallocate`: note the index at which the bit is cleared.
unfoldable pub deallocate : ℕ → BitmapPageAlloc → Step (Unit {0})
deallocate pa a =
    let freed = physaddr_as_indices a pa >>= λ i. or_panic (get_elem? a.bitmaps i.0) >>= λ bitmap.
    is_set bitmap (8 * i.1 + i.2) >>= λ allocated.
    if allocated then with_bitmap a i.0 (λ b. Bitmap.set b i.2 false) else err not_allocated in
    if ltb a.end pa then (err out_of_bounds, a) else elim freed [
      | ok a' ↦ (ok tt, record a' { next_pa_to_scan = pa })
      | err e ↦ (err e, a)
      | panic ↦ (panic, a)
    ]
