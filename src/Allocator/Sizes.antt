-- ===== src/Allocator/Sizes.antt =====
-- port/src/allocator.rs: the sizes of the quick lists, and what `adjust` and `align_offset` make of
-- them.
use native.Mathlib.Nat.{
  pow-suc, pow-le-pow_right, mod-lt, mod-eq_of_lt, mod_self, add-mod-mod, div-add-mod',
  mul-mod_left,
}
use native.Mathlib.Numerals.{towards_suc}
use r9x.Prelude.{
  ℕ, zero, suc, ◌+◌, ◌-◌, ◌*◌, ◌/◌, ◌%◌, ◌^◌, ◌≤◌, ◌<◌, max, ◌≡◌, refl, ap, ◌∙◌, inl, inr, Bool,
  true, false, ◌&&◌, ok, arith, ltb, leb, ◌==◌, Bool-cases, is_power_below_pow, dec_le, ℕ_discrete,
}
use r9x.Allocator.{
  Layout, layout, adjust, is_quick, list_of, ilog2_from, power_from, align_offset, max_quick_size,
  min_alloc_size, num_qlists,
}

-- The size of the blocks of a list.
abbrev pub size_of : ℕ → ℕ
size_of k = 2 ^ (k + 6)

-- A test of each list, from the last one down.
for_lists : (ℕ → Bool) → ℕ → Bool
for_lists test zero = true
for_lists test (suc k) = for_lists test k && test k

of_list : (test : ℕ → Bool) (n k : ℕ) → k < n → for_lists test n ≡ true → test k ≡ true
unfolding for_lists
of_list test zero k inside holds = absurd (omega (arith, inside))
of_list test (suc n) k inside holds = ground (arith, of_list test n k)

lists_found : for_lists (λ k. list_of (size_of k) == k) num_qlists ≡ true
unfolding for_lists list_of ilog2_from
lists_found = refl

equal : (a b : ℕ) → (a == b) ≡ true → a ≡ b
equal a b h = ground arith

pub list_of_size : (k : ℕ) → k < num_qlists → list_of (size_of k) ≡ k
list_of_size k lt =
    equal (list_of (size_of k)) k
      (of_list (λ k. list_of (size_of k) == k) num_qlists k lt lists_found)

pub size_of-le : (k : ℕ) → k < num_qlists → size_of k ≤ max_quick_size
size_of-le k lt = pow-le-pow_right {n = 2} (omega arith) {i = k + 6} {j = 14} (omega arith)

pub size_of_split : (k : ℕ) → size_of k ≡ 2 ^ k * 64
size_of_split k = simp towards_suc (omega arith)

pub size_of-ge : (k : ℕ) → min_alloc_size ≤ size_of k
size_of-ge k = pow-le-pow_right {n = 2} (omega arith) {i = 6} {j = k + 6} (omega arith)

-- A size with itself as the alignment is quick.
pub is_quick-size : (k : ℕ) → k < num_qlists → is_quick (size_of k) (size_of k) ≡ true
is_quick-size k lt = ground (arith, size_of-le k lt)

-- A power of two from 2 ^ j on that is large enough.
power_from_power :
    (fuel j n : ℕ)
    → n ≤ 2 ^ (j + fuel)
    → (i : ℕ) × (power_from fuel (2 ^ j) n ≡ 2 ^ i) × (i ≤ j + fuel) × (n ≤ 2 ^ i)
unfolding power_from
power_from_power zero j n le = (j, refl, omega arith, bound)
  where
    bound : n ≤ 2 ^ j
    bound = omega (arith, le, ap (λ t. 2 ^ t) (plus_none j))
      where
        plus_none : (j : ℕ) → j + 0 ≡ j
        plus_none j = omega arith
power_from_power (suc f) j n le = elim (Bool-cases (leb n (2 ^ j))) [
  | inl e ↦ (j, rw (power_from, e) refl, omega arith, ground (arith, e))
  | inr e ↦
      let r = power_from_power f (suc j) n (omega (arith, le, ap (λ t. 2 ^ t) (shift j f))) in
      (
        r.0,
        rw (power_from, e) (ap (λ t. power_from f t n) (twice j) ∙ r.1),
        omega (arith, r.2),
        r.3,
      )
]
  where
    shift : (j f : ℕ) → j + suc f ≡ suc j + f
    shift j f = omega arith

    twice : (j : ℕ) → 2 * 2 ^ j ≡ 2 ^ suc j
    twice j = omega (arith, pow-suc 2 j)

-- `adjust` gives a small layout the size of a list.
pub adjust_small :
    (l : Layout)
    → l.size ≤ max_quick_size
    → (k : ℕ) × (k < num_qlists)
      × (l.size ≤ size_of k)
      × (adjust l ≡ (size_of k, max l.align (size_of k)))
unfolding adjust
adjust_small l le = elim (dec_le r.0 6) [
  | yes few ↦ (
    0,
    omega arith,
    omega (arith, r.3, pow-le-pow_right {n = 2} (omega arith) {i = r.0} {j = 6} few),
    rw (small, r.1, low few) refl,
  )
  | no many ↦ (
    r.0 - 6,
    omega (arith, r.2, many),
    omega (arith, r.3, ap (λ t. 2 ^ t) (back many)),
    rw (small, r.1, high many) refl,
  )
]
  where
    r : (i : ℕ) × (power_from 14 1 l.size ≡ 2 ^ i) × (i ≤ 14) × (l.size ≤ 2 ^ i)
    r = power_from_power 14 0 l.size le

    small : ltb max_quick_size l.size ≡ false
    small = ground (arith, le)

    low : r.0 ≤ 6 → max 64 (2 ^ r.0) ≡ size_of 0
    low few = omega (arith, pow-le-pow_right {n = 2} (omega arith) {i = r.0} {j = 6} few)

    back : ¬ (r.0 ≤ 6) → r.0 ≡ r.0 - 6 + 6
    back many = omega (arith, many)

    high : ¬ (r.0 ≤ 6) → max 64 (2 ^ r.0) ≡ size_of (r.0 - 6)
    high many = omega (
      arith,
      ap (λ t. 2 ^ t) (back many),
      pow-le-pow_right {n = 2} (omega arith) {i = 6} {j = r.0} (omega (arith, many)),
    )

-- `align_offset` for a power of two: the distance to the next multiple.
pub align_offset_pow :
    (p j : ℕ) → j < 64 → align_offset p (2 ^ j) ≡ ok ((2 ^ j - p % 2 ^ j) % 2 ^ j)
unfolding align_offset
align_offset_pow p j lt = rw (is_power_below_pow 64 j lt) refl

-- A power of two that is a size of a list is its own size.
abbrev is_kept : ℕ → Bool
is_kept k =
    (adjust (layout (size_of k) (size_of k))).0 == size_of k
    && (adjust (layout (size_of k) (size_of k))).1 == size_of k

sizes_kept : for_lists is_kept num_qlists ≡ true
unfolding for_lists adjust power_from
sizes_kept = refl

pub adjust_size :
    (k : ℕ) → k < num_qlists → adjust (layout (size_of k) (size_of k)) ≡ (size_of k, size_of k)
adjust_size k lt =
    pair (adjust (layout (size_of k) (size_of k))) (of_list is_kept num_qlists k lt sizes_kept)
  where
    pair : (p : ℕ × ℕ) → (p.0 == size_of k && p.1 == size_of k) ≡ true → p ≡ (size_of k, size_of k)
    pair p h = ground arith

-- No distance to the next multiple: a multiple.
pub aligned_of_offset : (s p : ℕ) → 0 < s → (s - p % s) % s ≡ 0 → p % s ≡ 0
aligned_of_offset s p pos h = elim (ℕ_discrete (p % s) 0) [
  | yes e ↦ e
  | no ne ↦ absurd (
      omega (
        arith,
        h,
        ne,
        pos,
        mod-lt p pos,
        mod-eq_of_lt {n = s - p % s} {m = s} (omega (arith, ne, pos, mod-lt p pos)),
      ))
]

pub offset_of_aligned : (s p : ℕ) → 0 < s → p % s ≡ 0 → (s - p % s) % s ≡ 0
offset_of_aligned s p pos h =
    let e : s - p % s ≡ s = omega (arith, h) in ap (λ t. t % s) e ∙ mod_self s

-- The distance leads to a multiple.
pub offset_leads : (s p : ℕ) → 0 < s → (p + (s - p % s) % s) % s ≡ 0
offset_leads s p pos =
    add-mod-mod p (s - p % s) s
    ∙ ap (λ t. t % s) (omega (arith, div-add-mod' p s, mod-lt p pos))
    ∙ mul-mod_left (p / s + 1) s
