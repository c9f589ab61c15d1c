-- ===== src/PageAlloc/Valid.antt =====
-- port/src/bitmapalloc.rs: the well-formed allocators, and the bytes and bits that they hold.
use r9x.Prelude.{
  ℕ, zero, suc, ◌≡◌, ◌<◌, Bool, List, [], ◌∷◌, some, length, get_elem?, get_or, arith, refl,
}
use r9x.PageAlloc.{BitmapPageAlloc}
use r9x.PageAlloc.Bitmap.{bit_set}

abbrev pub byte_at : BitmapPageAlloc → ℕ → ℕ → ℕ
byte_at a b y = get_or (get_or a.bitmaps b []) y 0

-- Whether the page of a bit is allocated.
abbrev pub page_bit : BitmapPageAlloc → ℕ → ℕ → ℕ → Bool
page_bit a b y t = bit_set (byte_at a b y) t

pub record IsValid (a : BitmapPageAlloc) : Type 0 where
  pub pages : 0 < a.alloc_page_size
  pub width : 0 < a.bitmap_size_bytes
  pub rows : (b : ℕ) → b < length a.bitmaps → length (get_or a.bitmaps b []) ≡ a.bitmap_size_bytes
  pub bytes : (b y : ℕ) → byte_at a b y < 256

pub get_elem?-eq-get_or {ℓ} :
    {A : Type ℓ} (xs : List A) (i : ℕ) (d : A)
    → i < length xs
    → get_elem? xs i ≡ some (get_or xs i d)
get_elem?-eq-get_or [] i d h = absurd (omega arith)
get_elem?-eq-get_or (x ∷ xs) zero d h = refl
get_elem?-eq-get_or (x ∷ xs) (suc i) d h = get_elem?-eq-get_or xs i d (omega arith)
