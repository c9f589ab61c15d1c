-- ===== src/PageAlloc/Bitmap.antt =====
-- port/src/bitmapalloc.rs: `Bitmap`, a list of bytes below 256, and the bit counts of a byte that
-- the allocator asks the machine for. An index out of range panics.
pub mod Laws
use Prim.Native.Nat.{bit_and, bit_or}
use r9x.Prelude.{
  ℕ, zero, suc, ◌+◌, ◌-◌, ◌/◌, ◌%◌, ◌^◌, Bool, List, Outcome, ok, ◌>>=◌, or_panic, get_elem?, ltb,
  ◌==◌, if◌then◌else◌,
}
use r9x.Prelude

-- `byte & (1 << i) > 0`
abbrev pub bit_set : ℕ → ℕ → Bool
bit_set byte i = ltb 0 (bit_and byte (2 ^ i))

-- `byte | (1 << i)` and `byte & !(1 << i)`
abbrev pub put_bit : ℕ → ℕ → Bool → ℕ
put_bit byte i b = if b then bit_or byte (2 ^ i) else bit_and byte (255 - 2 ^ i)

module _ {ℓ} {E : Type ℓ} where
  unfoldable pub is_set : List ℕ → ℕ → Outcome E Bool
  is_set bytes i = or_panic (get_elem? bytes (i / 8)) >>= λ byte. ok (bit_set byte (i % 8))

  unfoldable pub set : List ℕ → ℕ → Bool → Outcome E (List ℕ)
  set bytes i b = or_panic (get_elem? bytes (i / 8)) >>= λ byte.
      ok (Prelude.set bytes (i / 8) (put_bit byte (i % 8) b))

-- `u8::trailing_ones` and `u8::count_zeros`, over the bits from `i` on.
trailing_ones_from : ℕ → ℕ → ℕ → ℕ
trailing_ones_from zero i byte = i
trailing_ones_from (suc n) i byte =
    let more = trailing_ones_from n (i + 1) byte in if bit_set byte i then more else i

unfoldable pub trailing_ones : ℕ → ℕ
unfolding trailing_ones_from
trailing_ones byte = trailing_ones_from 8 0 byte

count_zeros_from : ℕ → ℕ → ℕ → ℕ
count_zeros_from zero i byte = 0
count_zeros_from (suc n) i byte =
    (if bit_set byte i then 0 else 1) + count_zeros_from n (i + 1) byte

unfoldable pub count_zeros : ℕ → ℕ
unfolding count_zeros_from
count_zeros byte = count_zeros_from 8 0 byte
