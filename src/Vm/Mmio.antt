-- ===== src/Vm/Mmio.antt =====
-- aarch64/src/vm.rs and aarch64/src/aspace.rs: `map_phys_range`, and `map_mmio` over it.
use r9x.Prelude.{
  ℕ, ◌+◌, ◌-◌, ◌*◌, ◌/◌, ◌%◌, ◌^◌, ◌<◌, ◌≡◌, refl, true, false, not, ◌||◌, Option, none, some, List,
  [], ◌∷◌, Outcome, ok, err, panic, ◌>>=◌, add_u64, ◌==◌, ltb, if◌then◌else◌, arith,
}
use r9x.Addr.{VirtRange, PhysRange, page_size_4k, page_size_2m, page_size_1g}
use r9x.Addr.Phys.{round, stepping, step_by_rounded, page_at}
use r9x.Addr.Rounding.{round_down2-pow, round_up2-pow}
use r9x.Vm.{Entry, all_rw, with_phys_addr}
use r9x.Vm.Map.{
  PageSize, page_4k, page_2m, page_1g, Paging, PageTableError, phys_range_is_zero,
  phys_range_is_not_on_page_boundary, Mapped, map_to,
}

-- `PageSize::size`
abbrev pub page_bytes : PageSize → ℕ
page_bytes page_4k = page_size_4k
page_bytes page_2m = page_size_2m
page_bytes page_1g = page_size_1g

pub data VaMapping : Type 0 where
  addr : ℕ → VaMapping
  offset : ℕ → VaMapping

-- `VaMapping::map`
abbrev pub map_va : VaMapping → ℕ → ℕ
map_va (addr va) pa = va
map_va (offset o) pa = (pa + o) % 2 ^ 64

-- `Entry::rw_user_mmio`
abbrev pub rw_user_mmio : Entry
rw_user_mmio = record { valid = true; page_or_table = false; access_permission = all_rw; addr = 0 }

-- Where the loop of `map_phys_range` is: `startva` and `currva`, and `endva`.
pub record Progress : Type 0 where
  pub startva : Option ℕ
  pub currva : ℕ
  pub endva : ℕ

-- The virtual address of the next page, and that of the first one.
abbrev next_va : VaMapping → ℕ → Progress → ℕ → Mapped (ℕ × ℕ)
next_va mapping size at pa = elim at.startva [
  | none ↦ ok (map_va mapping pa, map_va mapping pa)
  | some start ↦ add_u64 at.currva size >>= λ currva. ok (start, currva)
]

abbrev finished_range : Progress → Paging → Mapped (VirtRange × Paging)
finished_range at p = elim at.startva [
  | none ↦ err (phys_range_is_zero, p)
  | some start ↦ ok (record { start = start; end = at.endva }, p)
]

module _ (live root : ℕ) (mapping : VaMapping) (e : Entry) (page_size : PageSize) where
  -- The loop over the physical pages.
  unfoldable pub map_pages : List ℕ → Progress → Paging → Mapped (VirtRange × Paging)
  map_pages [] at p = finished_range at p
  map_pages (pa ∷ pas) at p = next_va mapping (page_bytes page_size) at pa >>= λ va.
      add_u64 va.1 (page_bytes page_size) >>= λ endva.
      map_to live root (with_phys_addr e pa) va.1 page_size p >>= λ q.
      map_pages pas (record { startva = some va.0; currva = va.1; endva = endva }) q

  -- `map_phys_range`, with the tables of `live` as the processor's.
  unfoldable pub map_phys_range : PhysRange → Paging → Mapped (VirtRange × Paging)
  map_phys_range range p =
      if not (range.start % page_bytes page_size == 0)
        || not (range.end % page_bytes page_size == 0)
      then err (phys_range_is_not_on_page_boundary, p)
      else (step_by_rounded range (page_bytes page_size) >>= λ pas.
          map_pages pas (record { startva = none; currva = 0; endva = 0 }) p)

-- `map_err(|_| PageAllocError::UnableToMap)`, with what the mapping leaves.
abbrev pub unable_to_map : Mapped (VirtRange × Paging) → Outcome Paging Paging
unable_to_map (ok (r, p)) = ok p
unable_to_map (err (e, p)) = err p
unable_to_map panic = panic

-- `Aspace::map_mmio` in the address space of `root`, which is the one of the process that runs.
unfoldable pub map_mmio : ℕ → Paging → PhysRange → ℕ → Outcome Paging Paging
map_mmio root p range va =
    unable_to_map (map_phys_range root root (addr va) rw_user_mmio page_4k range p)

step_by_rounded-page :
    (pa : ℕ)
    → pa % page_size_4k ≡ 0
    → pa < 2 ^ 48
    → step_by_rounded {E = PageTableError × Paging} (page_at pa) page_size_4k ≡ ok (pa ∷ [])
unfolding step_by_rounded round stepping
step_by_rounded-page pa aligned small =
    let first : pa / 4096 * 4096 ≡ pa = omega (arith, aligned) in
    let last : (pa + 4096 + 4096 - 1) / 4096 * 4096 ≡ pa + 4096 = omega (arith, aligned) in
    let one : (pa + 4096 - pa + 4096 - 1) / 4096 ≡ 1 = omega arith in
    rw
      (
        step_by_rounded,
        round,
        round_down2-pow 12 pa (omega arith) (omega (arith, small)),
        round_up2-pow 12 (pa + 4096) (omega arith) (omega (arith, small)),
        first,
        last,
        one,
      )
      refl

-- What the mapping of a page comes to.
abbrev pub page_mapped : Mapped Paging → Outcome Paging Paging
page_mapped (ok q) = ok q
page_mapped (err (e, q)) = err q
page_mapped panic = panic

pub map_mmio-map_to :
    (root pa va : ℕ) (p : Paging)
    → pa % page_size_4k ≡ 0
    → pa < 2 ^ 48
    → va + page_size_4k < 2 ^ 64
    → map_mmio root p (page_at pa) va
      ≡ page_mapped (map_to root root (with_phys_addr rw_user_mmio pa) va page_4k p)
unfolding map_mmio map_phys_range map_pages
map_mmio-map_to root pa va p aligned small fits =
    let first : (pa % page_size_4k == 0) ≡ true = ground (arith, aligned) in
    let last : ((pa + page_size_4k) % page_size_4k == 0) ≡ true = ground (arith, aligned) in
    let in_range : ltb (va + page_size_4k) (2 ^ 64) ≡ true = ground (arith, fits) in
    rw
      (
        map_mmio,
        map_phys_range,
        first,
        last,
        step_by_rounded-page pa aligned small,
        map_pages,
        in_range,
      )
      (same (map_to root root (with_phys_addr rw_user_mmio pa) va page_4k p))
  where
    same :
        (o : Mapped Paging)
        → unable_to_map (o >>= λ q. ok (record { start = va; end = va + page_size_4k }, q))
          ≡ page_mapped o
    same (ok q) = refl
    same (err (e, q)) = refl
    same panic = refl
