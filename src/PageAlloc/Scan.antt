-- ===== src/PageAlloc/Scan.antt =====
-- port/src/bitmapalloc.rs: the iterator over the bytes of the bitmaps, `allocate` and `usage_bytes`.
-- A search takes fuel, `scan_fuel` rounds in `allocate` and `usage_bytes`.
pub mod Round
pub mod Total
pub mod Ready
pub mod Allocate
use Prim.Native.Nat.{bit_or}
use r9x.Prelude.{
  ℕ, zero, suc, ◌+◌, ◌*◌, ◌^◌, Bool, true, false, ◌||◌, ◌&&◌, Option, none, some, Outcome, ok, err,
  panic, ◌>>=◌, or_panic, length, get_elem?, set, leb, ◌==◌, if◌then◌else◌, sub_u64,
}
use r9x.PageAlloc.{
  BitmapPageAlloc, PageAllocError, out_of_space, Step, physaddr_as_indices, indices_as_physaddr,
  with_bitmap,
}
use r9x.PageAlloc.Bitmap.{trailing_ones, count_zeros}

-- `ByteIndices`
pub record ByteIndices : Type 0 where
  pub bitmap : ℕ
  pub byte : ℕ

-- What the closure of `indices_from` captures and changes.
pub record Cursor : Type 0 where
  pub bitmap_idx : ℕ
  pub byte_idx : ℕ
  pub passed_first : Bool
  pub currpa : ℕ

unfoldable pub indices_from : BitmapPageAlloc → ℕ → ℕ → Cursor
indices_from a bitmap_idx byte_idx = record {
  bitmap_idx = bitmap_idx;
  byte_idx = byte_idx;
  passed_first = false;
  currpa = indices_as_physaddr a bitmap_idx byte_idx 0;
}

-- At the end of the last bitmap the iterator goes back to the start.
unfoldable pub cycle : BitmapPageAlloc → Cursor → Cursor
cycle a c =
    if leb (length a.bitmaps) c.bitmap_idx || leb a.end c.currpa
    then record { bitmap_idx = 0; byte_idx = 0; passed_first = c.passed_first; currpa = 0 }
    else c

unfoldable pub advance : BitmapPageAlloc → Cursor → Cursor
advance a c =
    if leb a.bitmap_size_bytes (c.byte_idx + 1)
    then record {
      bitmap_idx = c.bitmap_idx + 1;
      byte_idx = 0;
      passed_first = true;
      currpa = c.currpa + a.alloc_page_size;
    }
    else record c { byte_idx = c.byte_idx + 1; passed_first = true }

-- One call of the iterator, from `start`.
unfoldable pub next : BitmapPageAlloc → ByteIndices → Cursor → Option (ByteIndices × Cursor)
next a start c =
    let c' = cycle a c in
    if c'.passed_first && (c'.bitmap_idx == start.bitmap && c'.byte_idx == start.byte)
    then none
    else some (record { bitmap = c'.bitmap_idx; byte = c'.byte_idx }, advance a c')

-- `byte`, an index that may panic.
unfoldable pub byte_of : BitmapPageAlloc → ByteIndices → Outcome PageAllocError ℕ
byte_of a i =
    or_panic (get_elem? a.bitmaps i.bitmap) >>= λ bitmap. or_panic (get_elem? bitmap i.byte)

-- How a search ends: at a byte that is not full, with none left, at a panic, or with no fuel.
pub data Search : Type 0 where
  found : ByteIndices → Search
  none_left : Search
  faulted : Search
  out_of_fuel : Search

-- `.find(|indices| self.byte(indices) != 0xff)`
unfoldable pub find_free : ℕ → BitmapPageAlloc → ByteIndices → Cursor → Search
find_free zero a start c = out_of_fuel
find_free (suc fuel) a start c = elim (next a start c) [
  | none ↦ none_left
  | some (i, c') ↦ elim (byte_of a i) [
    | ok byte ↦ elim (byte == 0xff) [ true ↦ find_free fuel a start c' | false ↦ found i ]
    | err e ↦ faulted
    | panic ↦ faulted
  ]
]

abbrev pub scan_fuel : BitmapPageAlloc → ℕ
scan_fuel a = length a.bitmaps * a.bitmap_size_bytes + 1

-- Takes the lowest clear bit of a byte, and returns the address of its page.
unfoldable pub claim : BitmapPageAlloc → ByteIndices → Step ℕ
claim a i =
    let taken : Outcome PageAllocError (ℕ × BitmapPageAlloc) = byte_of a i >>= λ byte.
    let bit = trailing_ones byte in
    with_bitmap a i.bitmap (λ b. ok (set b i.byte (bit_or byte (2 ^ bit)))) >>= λ a'.
    ok (indices_as_physaddr a i.bitmap i.byte bit, a') in
    elim taken [
      | ok (pa, a') ↦ (ok pa, record a' { next_pa_to_scan = pa })
      | err e ↦ (err e, a)
      | panic ↦ (panic, a)
    ]

unfoldable pub allocate : BitmapPageAlloc → Step ℕ
allocate a = elim (physaddr_as_indices a a.next_pa_to_scan) [
  | ok (bitmap_idx, byte_idx, _) ↦
      let start : ByteIndices = record { bitmap = bitmap_idx; byte = byte_idx } in
      elim (find_free (scan_fuel a) a start (indices_from a bitmap_idx byte_idx)) [
        | found i ↦ claim a i
        | none_left ↦ (err out_of_space, a)
        | faulted ↦ (panic, a)
        | out_of_fuel ↦ (panic, a)
      ]
  | err e ↦ (err e, a)
  | panic ↦ (panic, a)
]

-- The loop of `usage_bytes` over `indices()`.
unfoldable pub free_bytes : ℕ → BitmapPageAlloc → Cursor → Outcome PageAllocError ℕ
free_bytes zero a c = panic
free_bytes (suc fuel) a c = elim (next a (record { bitmap = 0; byte = 0 }) c) [
  | none ↦ ok 0
  | some (i, c') ↦ byte_of a i >>= λ byte.
      free_bytes fuel a c' >>= λ rest. ok (count_zeros byte * a.alloc_page_size + rest)
]

unfoldable pub usage_bytes : BitmapPageAlloc → Outcome PageAllocError (ℕ × ℕ)
usage_bytes a = free_bytes (scan_fuel a) a (indices_from a 0 0) >>= λ free.
    sub_u64 a.end free >>= λ used. ok (used, a.end)
