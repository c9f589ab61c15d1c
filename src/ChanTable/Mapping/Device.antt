-- ===== src/ChanTable/Mapping/Device.antt =====
-- aarch64/src/ipc.rs: `sys_map_mmio` of one page, down to the page tables of the process, and what
-- the check of the ranges that the process passes to the kernel says of the page.
use r9x.Prelude.{
  ℕ, ◌+◌, ◌-◌, ◌*◌, ◌/◌, ◌%◌, ◌^◌, ◌<◌, ◌≤◌, ◌≡◌, ◌≢◌, refl, ap, ◌∙◌, sym, subst, Bool, true,
  Option, some, Outcome, ok, err, panic, ◌>>=◌, arith, Post,
}
use r9x.Addr.{page_size_4k}
use r9x.Addr.Phys.{page_at}
use r9x.Vm.{
  kzero, level0, Entry, with_phys_addr, phys_addr, va_index, user_leaf_entry, page_ok,
  user_range_ok,
}
use r9x.Vm.Map.{Paging, PageTableError, page_4k, recursive_slot, map_to}
use r9x.Vm.Map.Typed.{Levels, IsTyped, IsFresh}
use r9x.Vm.Map.Lookup.{Finds, IsRestored, map_to-Finds}
use r9x.Vm.Mmio.{rw_user_mmio, map_mmio, page_mapped, map_mmio-map_to}
use r9x.Vm.Ranges.{user_leaf_entry-page, user_range_ok_iff}
use r9x.ChanTable.Syscalls.{sys_map_mmio}
use r9x.ChanTable.Mapping.{map_each, sys_map_mmio-map_each}

-- The process finds the physical page at `va`, and every range inside the page passes the check.
pub record Grants (root pa va : ℕ) (p q : Paging) : Type 0 where
  pub leads : (e : Entry) × (user_leaf_entry q.tables root va ≡ some e) × (phys_addr e ≡ pa)
  pub permits :
      (a len : ℕ) (for_write : Bool)
      → va ≤ a
      → 0 < len
      → a + len ≤ va + page_size_4k
      → user_range_ok q.tables root a len for_write ≡ true
  pub restored : q.tables root recursive_slot ≡ p.tables root recursive_slot

-- The result is 0 or 1, with the page tables that are left.
pub data MapsPage (root pa va : ℕ) (p : Paging) (o : Outcome (Unit {0}) (ℕ × Option Paging))
    : Type 0 where
  grants : (q : Paging) → o ≡ ok (0, some q) → Grants root pa va p q → MapsPage root pa va p o
  fails :
      (q : Paging)
      → o ≡ ok (1, some q)
      → q.tables root recursive_slot ≡ p.tables root recursive_slot
      → MapsPage root pa va p o

-- The result of the call, from that of the mapping.
abbrev page_result : Outcome Paging Paging → Outcome (Unit {0}) (ℕ × Option Paging)
page_result (ok q) = ok (0, some q)
page_result (err q) = ok (1, some q)
page_result panic = panic

module _ (root pa va : ℕ) (p : Paging) (aligned : pa % page_size_4k ≡ 0) (small : pa < 2 ^ 48)
    (va_aligned : va % page_size_4k ≡ 0) (user_half : va + page_size_4k ≤ kzero) where
  abbrev leaf : Entry
  leaf = record (with_phys_addr rw_user_mmio pa) { page_or_table = true }

  Finds-Grants :
      (q : Paging) → Finds root root va (with_phys_addr rw_user_mmio pa) p q → Grants root pa va p q
  Finds-Grants q f = record {
    leads = (leaf, f.0, omega (arith, aligned, small));
    permits = λ a len for_write le pos inside.
        (user_range_ok_iff q.tables root a len for_write (omega (arith, user_half, inside)) pos).1 (
          omega (arith, user_half, inside),
          λ b above below. ap (page_ok for_write) (
              user_leaf_entry-page q.tables b va (omega (arith, le, above))
                (omega (arith, below, inside)) va_aligned root
              ∙ f.0),
        );
    restored = f.1;
  }

  one_page :
      (size : ℕ) → 0 < size → size ≤ page_size_4k → (size + page_size_4k - 1) / page_size_4k ≡ 1
  one_page size pos le = omega arith

  sys_map_mmio-page :
      (size : ℕ)
      → 0 < size
      → size ≤ page_size_4k
      → sys_map_mmio (map_mmio root) pa va size (some p)
        ≡ (map_each (map_mmio root) pa va 1 0 p >>= λ r. ok (r.0, some r.1))
  sys_map_mmio-page size pos le =
      sys_map_mmio-map_each (map_mmio root) pa va size p aligned pos (omega (arith, small, le))
        (omega (arith, user_half, le))
      ∙ ap (λ n. map_each (map_mmio root) pa va n 0 p >>= λ r. ok (r.0, some r.1))
          (one_page size pos le)

  map_each-one :
      (map_each (map_mmio root) pa va 1 0 p >>= λ r. ok (r.0, some r.1))
      ≡ page_result (map_mmio root p (page_at pa) va)
  unfolding map_each
  map_each-one =
      let at_pa : pa + page_size_4k * 0 ≡ pa = omega arith in
      let at_va : va + page_size_4k * 0 ≡ va = omega arith in
      rw (map_each, at_pa, at_va) (same (map_mmio root p (page_at pa) va))
    where
      same :
          (o : Outcome Paging Paging)
          → (elim o as (λ _. Outcome (Unit {0}) (ℕ × Paging)) [
            | err a₁ ↦ ok (1, a₁)
            | panic ↦ panic
            | ok a₁ ↦ ok (0, a₁)
          ]
              >>= λ r. ok (r.0, some r.1))
            ≡ page_result o
      same (ok q) = refl
      same (err q) = refl
      same panic = refl

  Post-MapsPage :
      (o : Outcome (PageTableError × Paging) Paging)
      → Post (Finds root root va (with_phys_addr rw_user_mmio pa) p) (IsRestored root p) ⊥ o
      → MapsPage root pa va p (page_result (page_mapped o))
  Post-MapsPage (ok q) h = grants q refl (Finds-Grants q h.holds)
  Post-MapsPage (err (e, q)) h = fails q refl h.holds
  Post-MapsPage panic h = absurd h.holds

-- In tables with a level for each, in which table entries lead to the next level, with an allocator
-- whose pages are distinct, of 48 bits and no tables, and with a root of level 0: `sys_map_mmio` of
-- 1 to 4096 bytes of a page-aligned physical address of 48 bits, at a page-aligned virtual address
-- whose page ends in the user's half and is not behind the recursive slot, never panics. It returns 0,
-- and then the walk from the root leads from the virtual to the physical page, and `user_range_ok`
-- lets every range of at least one byte inside the page through, to be read and to be written; or it
-- returns 1. Both leave the recursive entry of the root as it was.
pub sys_map_mmio-MapsPage :
    (level_of : Levels) (root pa va size : ℕ) (p : Paging)
    → IsTyped level_of p.tables
    → IsFresh level_of p.supply
    → level_of root ≡ some level0
    → pa % page_size_4k ≡ 0
    → pa < 2 ^ 48
    → va % page_size_4k ≡ 0
    → va + page_size_4k ≤ kzero
    → va_index va level0 ≢ recursive_slot
    → 0 < size
    → size ≤ page_size_4k
    → MapsPage root pa va p (sys_map_mmio (map_mmio root) pa va size (some p))
sys_map_mmio-MapsPage level_of root pa va size p typed fresh at_root aligned small va_aligned
      user_half used pos le =
    subst (MapsPage root pa va p)
      (sym (
        sys_map_mmio-page root pa va p aligned small va_aligned user_half size pos le
        ∙ map_each-one root pa va p aligned small va_aligned user_half
        ∙ ap page_result (map_mmio-map_to root pa va p aligned small (omega (arith, user_half)))))
      (Post-MapsPage root pa va p aligned small va_aligned user_half
        (map_to root root (with_phys_addr rw_user_mmio pa) va page_4k p)
        (map_to-Finds level_of root root va (with_phys_addr rw_user_mmio pa) p typed fresh at_root
          at_root used refl))
