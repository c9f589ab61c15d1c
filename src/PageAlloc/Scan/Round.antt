-- ===== src/PageAlloc/Scan/Round.antt =====
-- port/src/bitmapalloc.rs: one step of the search over the bytes.
-- Byte `n` is byte `n % s` of bitmap `n / s`, for bitmaps of `s` bytes; its first page is at
-- address `n * (8 * p)`, for pages of `p` bytes.
use native.Mathlib.Nat.{div-add-mod', mod-lt, div-lt_iff_lt-mul}
use r9x.Prelude.{
  ℕ, zero, suc, ◌+◌, ◌*◌, ◌/◌, ◌%◌, ◌≤◌, ◌<◌, ◌≡◌, ◌≢◌, refl, sym, ap, ◌∙◌, ◌⊎◌, inl, inr, true,
  false, none, some, ok, arith, length, leb, ◌==◌, ℕ_discrete, get_or, [], Bool-cases,
}
use r9x.Prelude.Division.{same_row, next_row}
use r9x.PageAlloc.{BitmapPageAlloc}
use r9x.PageAlloc.Valid.{IsValid, byte_at, get_elem?-eq-get_or}
use r9x.PageAlloc.Scan.{
  ByteIndices, Cursor, Search, found, none_left, cycle, advance, next, byte_of, find_free,
}

pub find_none :
    (a : BitmapPageAlloc) (st : ByteIndices) (c : Cursor) (fuel : ℕ)
    → next a st c ≡ none
    → find_free (suc fuel) a st c ≡ none_left
unfolding find_free
find_none a st c fuel e = rw (find_free, e) refl

find_hit :
    (a : BitmapPageAlloc) (st i : ByteIndices) (c c' : Cursor) (byte fuel : ℕ)
    → next a st c ≡ some (i, c')
    → byte_of a i ≡ ok byte
    → (byte == 0xff) ≡ false
    → find_free (suc fuel) a st c ≡ found i
unfolding find_free
find_hit a st i c c' byte fuel e f g = rw (find_free, e, f, g) refl

find_on :
    (a : BitmapPageAlloc) (st i : ByteIndices) (c c' : Cursor) (byte fuel : ℕ)
    → next a st c ≡ some (i, c')
    → byte_of a i ≡ ok byte
    → (byte == 0xff) ≡ true
    → find_free (suc fuel) a st c ≡ find_free fuel a st c'
unfolding find_free
find_on a st i c c' byte fuel e f g = rw (find_free, e, f, g) refl

-- A call of the iterator depends on the cursor only through where it stands after `cycle`.
next_cong :
    (a : BitmapPageAlloc) (st : ByteIndices) (c c' : Cursor)
    → cycle a c ≡ cycle a c'
    → next a st c ≡ next a st c'
unfolding next
next_cong a st c c' e = rw e refl

pub find_cong :
    (a : BitmapPageAlloc) (st : ByteIndices) (c c' : Cursor) (fuel : ℕ)
    → cycle a c ≡ cycle a c'
    → find_free fuel a st c ≡ find_free fuel a st c'
unfolding find_free
find_cong a st c c' zero e = refl
find_cong a st c c' (suc fuel) e = rw (find_free, next_cong a st c c' e) refl

module _ (a : BitmapPageAlloc) where
  abbrev pub place : ℕ → ByteIndices
  place n = record { bitmap = n / a.bitmap_size_bytes; byte = n % a.bitmap_size_bytes }

  abbrev pub byte_no : ℕ → ℕ
  byte_no n = byte_at a (n / a.bitmap_size_bytes) (n % a.bitmap_size_bytes)

  abbrev pub size : ℕ
  size = length a.bitmaps * a.bitmap_size_bytes

module _ (a : BitmapPageAlloc) (v : IsValid a) where
  -- The cursor is about to give byte `n`; its address lags behind, but not ahead.
  pub record At (c : Cursor) (n : ℕ) : Type 0 where
    pub bitmap : c.bitmap_idx ≡ n / a.bitmap_size_bytes
    pub byte : c.byte_idx ≡ n % a.bitmap_size_bytes
    pub behind : c.currpa ≤ n * (8 * a.alloc_page_size)

  pub advance-At : {c : Cursor} (n : ℕ) → At c n → At (advance a c) (n + 1)
  unfolding advance
  advance-At {c} n h = elim (Bool-cases (leb a.bitmap_size_bytes (c.byte_idx + 1))) [
    | inl e ↦
        let r = next_row a.bitmap_size_bytes n v.width (ground (arith, h.byte)) in
        rw e (record {
          bitmap = ground (arith, r.0, h.bitmap);
          byte = sym r.1;
          behind = omega (arith, h.behind);
        })
    | inr e ↦
        let r = same_row a.bitmap_size_bytes n v.width (ground (arith, h.byte)) in
        rw e (record {
          bitmap = ground (arith, r.0, h.bitmap);
          byte = ground (arith, r.1, h.byte);
          behind = omega (arith, h.behind);
        })
  ]

  pub advance-passed : (c : Cursor) → (advance a c).passed_first ≡ true
  unfolding advance
  advance-passed c = ground arith

  pub cycle_stay : (c : Cursor) → c.bitmap_idx < length a.bitmaps → c.currpa < a.end → cycle a c ≡ c
  unfolding cycle
  cycle_stay c h k = ground arith

  pub byte_of-place : (n : ℕ) → n < size a → byte_of a (place a n) ≡ ok (byte_no a n)
  unfolding byte_of
  byte_of-place n h =
      let b : n / a.bitmap_size_bytes < length a.bitmaps = (div-lt_iff_lt-mul v.width).1 h in
      let y : n % a.bitmap_size_bytes < length (get_or a.bitmaps (n / a.bitmap_size_bytes) []) =
        omega (arith, v.rows _ b, mod-lt n v.width) in
      rw (get_elem?-eq-get_or a.bitmaps (n / a.bitmap_size_bytes) [] b)
        (rw (get_elem?-eq-get_or (get_or a.bitmaps (n / a.bitmap_size_bytes) []) _ 0 y))

  pub place_inj :
      (m n : ℕ)
      → m / a.bitmap_size_bytes ≡ n / a.bitmap_size_bytes
      → m % a.bitmap_size_bytes ≡ n % a.bitmap_size_bytes
      → m ≡ n
  place_inj m n e f = omega (
    arith,
    div-add-mod' m a.bitmap_size_bytes,
    div-add-mod' n a.bitmap_size_bytes,
    ap (λ t. t * a.bitmap_size_bytes) e,
  )

  pub next_done :
      (c : Cursor) (n : ℕ)
      → At c n
      → cycle a c ≡ c
      → c.passed_first ≡ true
      → next a (place a n) c ≡ none
  unfolding next
  next_done c n h e p = rw (e, p, h.bitmap, h.byte) (ground arith)

  pub next_first :
      (c : Cursor) (n : ℕ)
      → At c n
      → cycle a c ≡ c
      → c.passed_first ≡ false
      → next a (place a n) c ≡ some (place a n, advance a c)
  unfolding next
  next_first c n h e p = rw (e, p, h.bitmap, h.byte) refl

  pub next_on :
      (c : Cursor) (m n : ℕ)
      → At c n
      → cycle a c ≡ c
      → n ≢ m
      → next a (place a m) c ≡ some (place a n, advance a c)
  unfolding next
  next_on c m n h e ne = rw (e, h.bitmap, h.byte) (ground (arith, place_inj n m))

  -- The bytes that a search from `place a m` has not met yet, all of them full.
  pub data Ends (rest : ℕ → Type 0) (r : Search) : Type 0 where
    finds : (n : ℕ) → n < size a → byte_no a n ≢ 255 → r ≡ found (place a n) → Ends rest r
    exhausts : r ≡ none_left → ((n : ℕ) → rest n → byte_no a n ≡ 255) → Ends rest r

  pub Ends-weaken :
      {rest rest' : ℕ → Type 0} {r : Search}
      → ((i : ℕ) → rest' i → rest i)
      → Ends rest r
      → Ends rest' r
  Ends-weaken w (finds n h ne f) = finds n h ne f
  Ends-weaken w (exhausts f full) = exhausts f (λ i g. full i (w i g))

  -- One step of a search.
  pub Ends-step :
      (c : Cursor) (m n fuel : ℕ) {rest rest' : ℕ → Type 0}
      → n < size a
      → next a (place a m) c ≡ some (place a n, advance a c)
      → ((i : ℕ) → rest' i → (i ≡ n) ⊎ rest i)
      → Ends rest (find_free fuel a (place a m) (advance a c))
      → Ends rest' (find_free (suc fuel) a (place a m) c)
  Ends-step c m n fuel lt e split e' = elim (ℕ_discrete (byte_no a n) 255) [
    | no ne ↦ finds n lt ne (
        find_hit a (place a m) (place a n) c (advance a c) (byte_no a n) fuel e (byte_of-place n lt)
          (ground (arith, ne)))
    | yes eq ↦
        let on =
          find_on a (place a m) (place a n) c (advance a c) (byte_no a n) fuel e
            (byte_of-place n lt) (ground (arith, eq)) in
        elim e' [
          | finds i h ne f ↦ finds i h ne (on ∙ f)
          | exhausts f full ↦
              exhausts (on ∙ f)
                (λ i h. elim (split i h) [ inl g ↦ ap (byte_no a) g ∙ eq | inr g ↦ full i g ])
        ]
  ]
