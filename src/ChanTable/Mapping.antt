-- ===== src/ChanTable/Mapping.antt =====
-- aarch64/src/ipc.rs: the pages that `sys_map_mmio` maps.
pub mod Device
use r9x.Prelude.{
  ℕ, zero, suc, ◌+◌, ◌-◌, ◌*◌, ◌/◌, ◌%◌, ◌^◌, ◌<◌, ◌≤◌, ◌≡◌, refl, true, false, some, Outcome, ok,
  err, panic, ◌>>=◌, ◌==◌, ltb, leb, arith, Outcome-cases, inl, inr,
}
use r9x.Addr.{PhysRange, page_size_4k}
use r9x.Addr.Phys.{with_len, page_at}
use r9x.ChanTable.Syscalls.{map_from, sys_map_mmio}

module _ {A : Type 0} (map_mmio : A → PhysRange → ℕ → Outcome A A) (pa va : ℕ) where
  -- `left` pages from page `i` of the range on, up to one that cannot be mapped; what that one
  -- leaves of the address space is kept.
  unfoldable pub map_each : ℕ → ℕ → A → Outcome (Unit {0}) (ℕ × A)
  map_each zero i a = ok (0, a)
  map_each (suc left) i a =
      elim (map_mmio a (page_at (pa + page_size_4k * i)) (va + page_size_4k * i)) [
        | err a₁ ↦ ok (1, a₁)
        | panic ↦ panic
        | ok a₁ ↦ map_each left (i + 1) a₁
      ]

  map_from-map_each :
      (size fuel left i : ℕ) (a : A)
      → left ≤ fuel
      → size ≤ page_size_4k * (i + left)
      → page_size_4k * (i + left) < size + page_size_4k
      → pa + size + page_size_4k ≤ 2 ^ 64
      → va + size + page_size_4k ≤ 2 ^ 64
      → map_from map_mmio fuel pa va size (page_size_4k * i) a ≡ map_each left i a
  unfolding map_from map_each with_len
  map_from-map_each size zero zero i a le above below p v = refl
  map_from-map_each size zero (suc left) i a le above below p v = absurd (omega (arith, le))
  map_from-map_each size (suc fuel) zero i a le above below p v =
      let end : leb size (page_size_4k * i) ≡ true = ground (arith, above) in
      rw (map_from, end) refl
  map_from-map_each size (suc fuel) (suc left) i a le above below p v =
      let more : leb size (page_size_4k * i) ≡ false = ground (arith, below) in
      let pa_fits : ltb (pa + page_size_4k * i) (2 ^ 64) ≡ true = ground (arith, below, p) in
      let va_fits : ltb (va + page_size_4k * i) (2 ^ 64) ≡ true = ground (arith, below, v) in
      let end_fits : ltb (pa + page_size_4k * i + page_size_4k) (2 ^ 64) ≡ true =
        ground (arith, below, p) in
      let next_fits : ltb (page_size_4k * i + page_size_4k) (2 ^ 64) ≡ true =
        ground (arith, below, p) in
      let next : page_size_4k * i + page_size_4k ≡ page_size_4k * (i + 1) = omega arith in
      let page = map_mmio a (page_at (pa + page_size_4k * i)) (va + page_size_4k * i) in
      elim (Outcome-cases page) [
        | inr (inl (a₁, e)) ↦ rw (map_from, map_each, more, pa_fits, va_fits, end_fits, e) refl
        | inr (inr e) ↦ rw (map_from, map_each, more, pa_fits, va_fits, end_fits, e) refl
        | inl (a₁, e) ↦
            rw (map_from, map_each, more, pa_fits, va_fits, end_fits, e, next_fits, next)
              (map_from-map_each size fuel left (i + 1) a₁ (omega (arith, le))
                (omega (arith, above)) (omega (arith, below)) p v)
      ]

-- For a page-aligned physical address and a size of at least one byte, where both ranges and one
-- page more end within 64 bits, `sys_map_mmio` maps the pages from the first one on, as many as
-- cover the size, up to one that cannot be mapped, and returns 0 if there is no such page and 1 if
-- there is, with what the mapping of each page, the failed one too, leaves of the address space; it
-- panics only if the mapping of a page does.
pub sys_map_mmio-map_each :
    {A : Type 0} (map_mmio : A → PhysRange → ℕ → Outcome A A) (pa va size : ℕ) (a : A)
    → pa % page_size_4k ≡ 0
    → 0 < size
    → pa + size + page_size_4k ≤ 2 ^ 64
    → va + size + page_size_4k ≤ 2 ^ 64
    → sys_map_mmio map_mmio pa va size (some a) ≡ (
        map_each map_mmio pa va ((size + page_size_4k - 1) / page_size_4k) 0 a >>= λ r.
        ok (r.0, some r.1))
unfolding sys_map_mmio
sys_map_mmio-map_each map_mmio pa va size a aligned pos p v =
    let even : (pa % page_size_4k == 0) ≡ true = ground (arith, aligned) in
    let some_pages : (size == 0) ≡ false = ground (arith, pos) in
    let pages = (size + page_size_4k - 1) / page_size_4k in
    rw
      (
        sys_map_mmio,
        even,
        some_pages,
        map_from-map_each map_mmio pa va size (size / page_size_4k + 1) pages 0 a (omega arith)
            (omega arith) (omega (arith, pos)) p v,
      )
      refl
