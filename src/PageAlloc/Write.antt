-- ===== src/PageAlloc/Write.antt =====
-- port/src/bitmapalloc.rs: the allocator with one byte of its bitmaps written.
use r9x.Prelude.{
  get_or-set_self, get_or-set_ne, ℕ, ◌≡◌, ◌≢◌, ◌<◌, ap, ap₂, subst, sym, ◌∙◌, Bool, ◌&&◌, [],
  length, get_or, set, length-set, arith, ◌==◌, if◌then◌else◌, ℕ_discrete, ◌⊎◌, inl, inr,
}
use r9x.PageAlloc.{BitmapPageAlloc}
use r9x.PageAlloc.Bitmap.{bit_set, put_bit}
use r9x.PageAlloc.Bitmap.Laws.{bit-put}
use r9x.PageAlloc.Valid.{byte_at, page_bit, IsValid}

abbrev pub written : BitmapPageAlloc → ℕ → ℕ → ℕ → BitmapPageAlloc
written a b y byte = record a { bitmaps = set a.bitmaps b (set (get_or a.bitmaps b []) y byte) }

module _ (a : BitmapPageAlloc) (v : IsValid a) (b y : ℕ) (hb : b < length a.bitmaps)
    (hy : y < a.bitmap_size_bytes) where
  pub same_row :
      (byte : ℕ) → get_or (written a b y byte).bitmaps b [] ≡ set (get_or a.bitmaps b []) y byte
  same_row byte = get_or-set_self a.bitmaps b _ [] hb

  pub other_row :
      (byte j : ℕ) → b ≢ j → get_or (written a b y byte).bitmaps j [] ≡ get_or a.bitmaps j []
  other_row byte j ne = get_or-set_ne a.bitmaps _ [] ne

  in_row : y < length (get_or a.bitmaps b [])
  in_row = subst (λ n. y < n) (sym (v.rows b hb)) hy

  byte_self : (byte : ℕ) → byte_at (written a b y byte) b y ≡ byte
  byte_self byte =
      ap (λ r. get_or r y 0) (same_row byte)
      ∙ get_or-set_self (get_or a.bitmaps b []) y byte 0 in_row

  byte_same_row : (byte k : ℕ) → y ≢ k → byte_at (written a b y byte) b k ≡ byte_at a b k
  byte_same_row byte k ne =
      ap (λ r. get_or r k 0) (same_row byte) ∙ get_or-set_ne (get_or a.bitmaps b []) byte 0 ne

  byte_other_row : (byte j k : ℕ) → b ≢ j → byte_at (written a b y byte) j k ≡ byte_at a j k
  byte_other_row byte j k ne = ap (λ r. get_or r k 0) (other_row byte j ne)

  -- Whether a byte is the one written, and what it holds.
  data Reads (byte j k : ℕ) : Type 0 where
    here : b ≡ j → y ≡ k → byte_at (written a b y byte) j k ≡ byte → Reads byte j k
    elsewhere :
        (b ≢ j) ⊎ (y ≢ k) → byte_at (written a b y byte) j k ≡ byte_at a j k → Reads byte j k

  reads : (byte j k : ℕ) → Reads byte j k
  reads byte j k = elim (ℕ_discrete b j) [
    | no ne ↦ elsewhere (inl ne) (byte_other_row byte j k ne)
    | yes e ↦ elim (ℕ_discrete y k) [
      | no ne ↦ elsewhere (inr ne) (
          subst (λ i. byte_at (written a b y byte) i k ≡ byte_at a i k) e (byte_same_row byte k ne))
      | yes f ↦ here e f (cc (byte_self byte, e, f))
    ]
  ]

  pub written-IsValid : (byte : ℕ) → byte < 256 → IsValid (written a b y byte)
  written-IsValid byte h = record {
    pages = v.pages;
    width = v.width;
    rows = λ j lt. rows j (subst (λ n. j < n) (length-set a.bitmaps b _) lt);
    bytes = λ j k. elim (reads byte j k) [
      | here e f g ↦ subst (λ n. n < 256) (sym g) h
      | elsewhere e g ↦ subst (λ n. n < 256) (sym g) (v.bytes j k)
    ];
  }
    where
      rows :
          (j : ℕ)
          → j < length a.bitmaps
          → length (get_or (written a b y byte).bitmaps j []) ≡ a.bitmap_size_bytes
      rows j lt = elim (ℕ_discrete b j) [
        | no ne ↦ ap length (other_row byte j ne) ∙ v.rows j lt
        | yes e ↦
            subst (λ i. length (get_or (written a b y byte).bitmaps i []) ≡ a.bitmap_size_bytes) e
              (ap length (same_row byte) ∙ length-set (get_or a.bitmaps b []) y byte ∙ v.rows b hb)
      ]

  chosen :
      (j k t i : ℕ) (on : Bool) (x x' : Bool)
      → x ≡ x'
      → b ≡ j
      → y ≡ k
      → (if t == i then on else x) ≡ (if b == j && (y == k && t == i) then on else x')
  chosen j k t i on x x' p e f = ground (arith, p, e, f)

  -- A bit of the byte written: that page changes, and no other.
  pub page_bit-written :
      (t : ℕ) (on : Bool) (j k i : ℕ)
      → t < 8
      → i < 8
      → page_bit (written a b y (put_bit (byte_at a b y) t on)) j k i
        ≡ (if b == j && (y == k && t == i) then on else page_bit a j k i)
  page_bit-written t on j k i ht hi = elim (reads (put_bit (byte_at a b y) t on) j k) [
    | here e f g ↦
        ap (λ n. bit_set n i) g
        ∙ (bit-put (byte_at a b y) t i on (v.bytes b y) ht hi
            ∙ chosen j k t i on (bit_set (byte_at a b y) i) (page_bit a j k i)
                (ap₂ (λ m n. page_bit a m n i) e f) e f)
    | elsewhere e g ↦ ap (λ n. bit_set n i) g ∙ ground (arith, e)
  ]
