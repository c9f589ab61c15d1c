-- ===== src/PageAlloc/Indices.antt =====
-- port/src/bitmapalloc.rs: an address and the indices of its bit are each other's inverse.
use native.Mathlib.Nat.{
  mul-le-mul_right, mul-div_cancel, mul-lt-mul_of_pos_right, add-sub_cancel_left,
}
use r9x.Prelude.{ℕ, ◌+◌, ◌-◌, ◌*◌, ◌/◌, ◌%◌, ◌<◌, ◌≡◌, ap, ◌∙◌, ok, arith}
use r9x.Prelude.Division.{quotient_of, remainder_of}
use r9x.PageAlloc.{BitmapPageAlloc, physaddr_as_indices, indices_as_physaddr}

-- The arithmetic, for pages of `p` bytes and bitmaps of `s` bytes.
module _ (p s b y t : ℕ) (pages : 0 < p) (hy : y < s) (ht : t < 8) where
  in_byte : t * p < 8 * p
  in_byte = mul-lt-mul_of_pos_right ht pages

  in_bitmap : y * (8 * p) + t * p < s * (8 * p)
  in_bitmap = omega (arith, in_byte, mul-le-mul_right (8 * p) hy)

  pub bitmap_nonempty : 0 < s * (8 * p)
  bitmap_nonempty = omega (arith, in_bitmap)

  regroup : b * (s * (8 * p)) + y * (8 * p) + t * p ≡ b * (s * (8 * p)) + (y * (8 * p) + t * p)
  regroup = omega arith

  pub bitmap_of : (b * (s * (8 * p)) + y * (8 * p) + t * p) / (s * (8 * p)) ≡ b
  bitmap_of =
      ap (λ n. n / (s * (8 * p))) regroup
      ∙ quotient_of (s * (8 * p)) b (y * (8 * p) + t * p) in_bitmap

  pub offset_of : (b * (s * (8 * p)) + y * (8 * p) + t * p) % (s * (8 * p)) ≡ y * (8 * p) + t * p
  offset_of =
      ap (λ n. n % (s * (8 * p))) regroup
      ∙ remainder_of (s * (8 * p)) b (y * (8 * p) + t * p) in_bitmap

  pub byte_of_offset : (y * (8 * p) + t * p) / (8 * p) ≡ y
  byte_of_offset = quotient_of (8 * p) y (t * p) in_byte

  pub bit_of_offset : (y * (8 * p) + t * p - y * (8 * p)) / p ≡ t
  bit_of_offset =
      ap (λ n. n / p) (add-sub_cancel_left (y * (8 * p)) (t * p)) ∙ mul-div_cancel t pages

  pub aligned : (b * (s * (8 * p)) + y * (8 * p) + t * p) % p ≡ 0
  aligned =
      let e : b * (s * (8 * p)) + y * (8 * p) + t * p ≡ (b * s * 8 + y * 8 + t) * p + 0 =
        omega arith in
      ap (λ n. n % p) e ∙ remainder_of p (b * s * 8 + y * 8 + t) 0 pages

-- For pages of at least one byte, a byte index within the bitmap and a bit index below 8, the
-- indices computed from the address of a bit are that bit's indices.
pub indices-physaddr :
    (a : BitmapPageAlloc) (b y t : ℕ)
    → 0 < a.alloc_page_size
    → y < a.bitmap_size_bytes
    → t < 8
    → physaddr_as_indices a (indices_as_physaddr a b y t) ≡ ok (b, y, t)
unfolding physaddr_as_indices indices_as_physaddr
indices-physaddr a b y t hp hy ht = ground (
  arith,
  bitmap_nonempty p s b y t hp hy ht,
  aligned p s b y t hp hy ht,
  bitmap_of p s b y t hp hy ht,
  offset_of p s b y t hp hy ht,
  byte_of_offset p s b y t hp hy ht,
  bit_of_offset p s b y t hp hy ht,
)
  where
    open a use {alloc_page_size as p, bitmap_size_bytes as s}
