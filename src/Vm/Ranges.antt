-- ===== src/Vm/Ranges.antt =====
-- aarch64/src/vm.rs: what `user_range_ok` lets through.
use r9x.Prelude.{
  ℕ, zero, suc, ◌+◌, ◌-◌, ◌*◌, ◌/◌, ◌%◌, ◌^◌, ◌<◌, ◌≤◌, ◌≡◌, ◌≢◌, refl, sym, ap, ◌∙◌, ◌↔◌, Bool,
  true, false, List, [], ◌∷◌, ◌==◌, ltb, leb, and_align, arith, Bool-cases, dec_lt, dec_le, inl,
  inr,
}
use r9x.Addr.{page_size_4k}
use r9x.Vm.{
  kzero, Level, level0, level1, level2, level3, Tables, va_index, walk, user_leaf_entry, page_ok,
  pages_ok, pages_fuel, user_range_ok,
}

-- All addresses of a page have the same indices.
va_index-page :
    (a page : ℕ) (level : Level)
    → page ≤ a
    → a < page + page_size_4k
    → page % page_size_4k ≡ 0
    → va_index a level ≡ va_index page level
unfolding va_index
va_index-page a page level0 le lt aligned = omega arith
va_index-page a page level1 le lt aligned = omega arith
va_index-page a page level2 le lt aligned = omega arith
va_index-page a page level3 le lt aligned = omega arith

module _ (tables : Tables) (a page : ℕ) (le : page ≤ a) (lt : a < page + page_size_4k)
    (aligned : page % page_size_4k ≡ 0) where
  walk-page :
      (levels : List Level) (table : ℕ) → walk tables levels table a ≡ walk tables levels table page
  unfolding walk
  walk-page [] table = rw (va_index-page a page level3 le lt aligned) refl
  walk-page (level ∷ levels) table =
      rw (va_index-page a page level le lt aligned, walk-page levels _) refl

  pub user_leaf_entry-page :
      (root : ℕ) → user_leaf_entry tables root a ≡ user_leaf_entry tables root page
  unfolding user_leaf_entry
  user_leaf_entry-page root = walk-page (level0 ∷ level1 ∷ level2 ∷ []) root

-- An access to the address is permitted.
abbrev pub MayAccess : Tables → ℕ → Bool → ℕ → Type 0
MayAccess tables root for_write a = page_ok for_write (user_leaf_entry tables root a) ≡ true

module _ (tables : Tables) (root : ℕ) (for_write : Bool) where
  same_page :
      {page : ℕ} (a b : ℕ)
      → page % page_size_4k ≡ 0
      → page ≤ a
      → a < page + page_size_4k
      → page ≤ b
      → b < page + page_size_4k
      → MayAccess tables root for_write a
      → MayAccess tables root for_write b
  same_page {page} a b aligned a₁ a₂ b₁ b₂ h =
      ap (page_ok for_write) (
        user_leaf_entry-page tables b page b₁ b₂ aligned root
        ∙ sym (user_leaf_entry-page tables a page a₁ a₂ aligned root))
      ∙ h

  pages_ok_sound :
      (fuel end page : ℕ)
      → page % page_size_4k ≡ 0
      → end ≤ kzero
      → pages_ok tables root for_write fuel end page ≡ true
      → (a : ℕ) → page ≤ a
      → a < end
      → MayAccess tables root for_write a
  unfolding pages_ok
  pages_ok_sound zero end page aligned below h a le lt = absurd (cc)
  pages_ok_sound (suc fuel) end page aligned below h a le lt =
      let more : leb end page ≡ false = ground (arith, le, lt) in
      elim (Bool-cases (page_ok for_write (user_leaf_entry tables root page))) [
        | inr e ↦ absurd (refused more e)
        | inl e ↦ elim (dec_lt a (page + page_size_4k)) [
          | yes here ↦ same_page page a aligned (omega arith) (omega arith) le here e
          | no later ↦
              let next : (page + page_size_4k) % 2 ^ 64 ≡ page + page_size_4k =
                omega (arith, le, lt, below, later) in
              pages_ok_sound fuel end (page + page_size_4k) (omega (arith, aligned)) below
                (ap (pages_ok tables root for_write fuel end) (sym next) ∙ rest more e) a
                (omega (arith, later)) lt
        ]
      ]
    where
      refused :
          leb end page ≡ false → page_ok for_write (user_leaf_entry tables root page) ≡ false → ⊥
      refused more e = clash _ (rw (pages_ok, more, e) refl) h
        where
          clash : (b : Bool) → b ≡ false → b ≡ true → ⊥
          clash b f g = cc

      rest :
          leb end page ≡ false
          → page_ok for_write (user_leaf_entry tables root page) ≡ true
          → pages_ok tables root for_write fuel end ((page + page_size_4k) % 2 ^ 64) ≡ true
      rest more e = sym (rw (pages_ok, more, e) refl) ∙ h

  pages_ok_complete :
      (fuel end page : ℕ)
      → page % page_size_4k ≡ 0
      → end ≤ kzero
      → 0 < fuel
      → end ≤ page + (fuel - 1) * page_size_4k
      → ((a : ℕ) → page ≤ a → a < end → MayAccess tables root for_write a)
      → pages_ok tables root for_write fuel end page ≡ true
  unfolding pages_ok
  pages_ok_complete zero end page aligned below some_fuel enough all =
      absurd (omega (arith, some_fuel))
  pages_ok_complete (suc fuel) end page aligned below some_fuel enough all =
      elim (Bool-cases (leb end page)) [
        | inl e ↦ rw (pages_ok, e) refl
        | inr e ↦
            let lt : page < end = ground (arith, e) in
            let next : (page + page_size_4k) % 2 ^ 64 ≡ page + page_size_4k =
              omega (arith, lt, below) in
            rw (pages_ok, e, all page (omega arith) lt, next)
              (pages_ok_complete fuel end (page + page_size_4k) (omega (arith, aligned)) below
                (omega (arith, enough, lt)) (omega (arith, enough, lt))
                (λ a le. all a (omega (arith, le))))
      ]

module _ (tables : Tables) (root va len : ℕ) (for_write : Bool) (small : va < 2 ^ 64)
    (pos : 0 < len) where
  user_range_ok-pages_ok :
      va + len ≤ kzero
      → user_range_ok tables root va len for_write
        ≡ pages_ok tables root for_write (pages_fuel len) (va + len) (va / 2 ^ 12 * 2 ^ 12)
  unfolding user_range_ok
  user_range_ok-pages_ok user_half =
      let no_wrap : leb (2 ^ 64) (va + len) ≡ false = ground (arith, user_half) in
      let below : ltb kzero (va + len) ≡ false = ground (arith, user_half) in
      let some_bytes : (len == 0) ≡ false = ground (arith, pos) in
      rw (user_range_ok, no_wrap, below, some_bytes)
        (ap (pages_ok tables root for_write (pages_fuel len) (va + len))
          (and_align 12 va (omega arith) small))

  user_range_ok-user_half : user_range_ok tables root va len for_write ≡ true → va + len ≤ kzero
  unfolding user_range_ok
  user_range_ok-user_half h = elim (dec_le (va + len) kzero) [
    | yes le ↦ le
    | no gt ↦ absurd (refused (ground (arith, gt)) h)
  ]
    where
      clash : (b : Bool) → b ≡ false → b ≡ true → ⊥
      clash b f g = cc

      refused : ltb kzero (va + len) ≡ true → user_range_ok tables root va len for_write ≢ true
      refused e = elim (Bool-cases (leb (2 ^ 64) (va + len))) [
        | inl f ↦ clash _ (rw (user_range_ok, f) refl)
        | inr f ↦ clash _ (rw (user_range_ok, f, e) refl)
      ]

-- For a 64-bit address and a length of at least one byte, `user_range_ok` says yes exactly if the
-- range ends in the user's half of the addresses and the entry found for every address in it, not
-- only for the first of each page, is there and permits the access.
pub user_range_ok_iff :
    (tables : Tables) (root va len : ℕ) (for_write : Bool)
    → va < 2 ^ 64
    → 0 < len
    → (user_range_ok tables root va len for_write ≡ true)
      ↔ ((va + len ≤ kzero) × ((a : ℕ) → va ≤ a → a < va + len → MayAccess tables root for_write a))
user_range_ok_iff tables root va len for_write small pos = (
  λ h.
      let half = user_range_ok-user_half tables root va len for_write small pos h in
      (
        half,
        λ a le lt.
            pages_ok_sound tables root for_write (pages_fuel len) (va + len) (va / 2 ^ 12 * 2 ^ 12)
              (omega arith) half
              (sym (user_range_ok-pages_ok tables root va len for_write small pos half) ∙ h) a
              (omega (arith, le)) lt,
      ),
  λ k.
      user_range_ok-pages_ok tables root va len for_write small pos k.0
      ∙ pages_ok_complete tables root for_write (pages_fuel len) (va + len) (va / 2 ^ 12 * 2 ^ 12)
          (omega arith) k.0 (omega arith) (omega arith)
          (λ a le lt. elim (dec_lt a va) [
            | no ge ↦ k.1 a (omega (arith, ge)) lt
            | yes before ↦
                same_page tables root for_write va a (omega arith) (omega arith) (omega arith) le
                  (omega (arith, before)) (k.1 va (omega arith) (omega (arith, pos)))
          ]),
)
