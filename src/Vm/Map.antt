-- ===== src/Vm/Map.antt =====
-- aarch64/src/vm.rs: `next_mut` and `map_to`. The allocator of pages is the list of the pages that it
-- gives, in order, and fails behind them.
pub mod Typed
pub mod Create
pub mod Step
pub mod Way
pub mod Lookup
use r9x.Prelude.{
  ℕ, Bool, true, false, not, ◌&&◌, Option, none, some, List, [], ◌∷◌, Outcome, ok, err, panic,
  ◌>>=◌, ◌==◌, if◌then◌else◌,
}
use r9x.Vm.{
  Level, level0, level1, level2, level3, Entry, Tables, priv_rw, va_index, phys_addr,
  with_phys_addr, is_table,
}

pub data PageSize : Type 0 where
  page_4k page_2m page_1g : PageSize

pub data PageTableError : Type 0 where
  allocation_failed entry_is_not_table phys_range_is_zero phys_range_is_not_on_page_boundary
        mapping_recursive_index :
      PageTableError

pub record Paging : Type 0 where
  pub tables : Tables
  pub supply : List ℕ

-- `RECURSIVE_SLOT`
abbrev pub recursive_slot : ℕ
recursive_slot = 511

abbrev pub empty_entry : Entry
empty_entry = record { valid = false; page_or_table = false; access_permission = priv_rw; addr = 0 }

-- `Entry::rw_kernel_data().with_phys_addr(pa).with_page_or_table(true)`
abbrev pub table_entry : ℕ → Entry
table_entry pa =
    with_phys_addr
      (record { valid = true; page_or_table = true; access_permission = priv_rw; addr = 0 }) pa

unfoldable pub write_entry : Tables → ℕ → ℕ → Entry → Tables
write_entry tables table index e t i = if t == table && i == index then e else tables t i

-- `PhysPage4K::clear`
unfoldable pub clear_page : Tables → ℕ → Tables
clear_page tables page t i = if t == page then empty_entry else tables t i

abbrev pub is_root : Level → Bool
is_root level0 = true
is_root _ = false

-- An error comes with what the walk leaves.
abbrev pub Mapped : Type 0 → Type 0
Mapped A = Outcome (PageTableError × Paging) A

-- A new table for the entry, cleared.
abbrev pub create_table : ℕ → ℕ → Tables → List ℕ → Mapped (ℕ × Paging)
create_table table index tables [] =
    err (allocation_failed, record { tables = tables; supply = [] })
create_table table index tables (page ∷ supply) =
    let below = phys_addr (table_entry page) in
    ok (
      below,
      record {
        tables = clear_page (write_entry tables table index (table_entry page)) below;
        supply = supply;
      },
    )

-- `next_mut`: the table below `table`.
unfoldable pub next_mut : Level → ℕ → ℕ → Paging → Mapped (ℕ × Paging)
next_mut level va table p =
    let index = va_index va level in
    let e = p.tables table index in
    if is_root level && index == recursive_slot
    then err (mapping_recursive_index, p)
    else (if e.valid && not (is_table e level)
        then err (entry_is_not_table, p)
        else (if e.valid then ok (phys_addr e, p) else create_table table index p.tables p.supply))

abbrev pub descend : List Level → ℕ → ℕ → Paging → Mapped (ℕ × Paging)
descend [] va table p = ok (table, p)
descend (level ∷ levels) va table p = next_mut level va table p >>= λ r. descend levels va r.0 r.1

abbrev pub levels_of : PageSize → List Level
levels_of page_4k = level0 ∷ level1 ∷ level2 ∷ []
levels_of page_2m = level0 ∷ level1 ∷ []
levels_of page_1g = level0 ∷ []

abbrev pub leaf_level : PageSize → Level
leaf_level page_4k = level3
leaf_level page_2m = level2
leaf_level page_1g = level1

-- An entry at level 3 has the page flag set.
abbrev pub leaf_of : PageSize → Entry → Entry
leaf_of page_4k e = record e { page_or_table = true }
leaf_of page_2m e = e
leaf_of page_1g e = e

abbrev pub restored : ℕ → Entry → Paging → Paging
restored live old p = record p { tables = write_entry p.tables live recursive_slot old }

-- The write of the entry, which is read back, and of the recursive entry, on either outcome.
abbrev pub finished : ℕ → Entry → ℕ → Entry → Mapped (ℕ × Paging) → Mapped Paging
finished live old index leaf (err (e, p)) = err (e, restored live old p)
finished live old index leaf (ok (table, p)) =
    if leaf.valid
    then ok (restored live old (record p { tables = write_entry p.tables table index leaf }))
    else panic
finished live old index leaf panic = panic

-- `map_to` in the tables of `root`, while those of `live` are the processor's: its recursive entry
-- stands for `root` on the way.
unfoldable pub map_to : ℕ → ℕ → Entry → ℕ → PageSize → Paging → Mapped Paging
map_to live root e va page_size p =
    let old = p.tables live recursive_slot in
    let leaf = leaf_of page_size e in
    let index = va_index va (leaf_level page_size) in
    let swapped = record p {
      tables = write_entry p.tables live recursive_slot (table_entry root);
    } in
    finished live old index leaf (descend (levels_of page_size) va root swapped)
