-- ===== src/Vm.antt =====
-- aarch64/src/vm.rs: page-table entries, and the check of the ranges that a process passes to the
-- kernel.
pub mod Ranges
pub mod Map
pub mod Mmio
mod Tests
use Prim.Native.Nat.{bit_and}
use r9x.Prelude.{
  ℕ, zero, suc, ◌+◌, ◌-◌, ◌*◌, ◌/◌, ◌%◌, ◌^◌, Bool, true, false, not, ◌&&◌, Option, none, some,
  List, [], ◌∷◌, ◌==◌, ltb, leb, not_u64, if◌then◌else◌,
}
use r9x.Addr.{page_size_4k}

-- `param::KZERO`, where the kernel's half of the addresses starts.
abbrev pub kzero : ℕ
kzero = 0xffff800000000000

pub data AccessPermission : Type 0 where
  priv_rw all_rw priv_ro all_ro : AccessPermission

pub data Level : Type 0 where
  level0 level1 level2 level3 : Level

-- The fields of an entry that the walk reads: `addr` is the number of a page of 4 KiB.
pub record Entry : Type 0 where
  pub valid : Bool
  pub page_or_table : Bool
  pub access_permission : AccessPermission
  pub addr : ℕ

abbrev pub next : Level → Option Level
next level0 = some level1
next level1 = some level2
next level2 = some level3
next level3 = none

abbrev pub depth : Level → ℕ
depth level0 = 0
depth level1 = 1
depth level2 = 2
depth level3 = 3

-- `with_phys_addr`: the field has 36 bits.
abbrev pub with_phys_addr : Entry → ℕ → Entry
with_phys_addr e pa = record e { addr = pa / 2 ^ 12 % 2 ^ 36 }

abbrev pub phys_addr : Entry → ℕ
phys_addr e = e.addr * 2 ^ 12

abbrev pub is_last : Level → Bool
is_last level3 = true
is_last _ = false

abbrev pub is_table : Entry → Level → Bool
is_table e level = e.page_or_table && not (is_last level)

abbrev pub shift_of : Level → ℕ
shift_of level0 = 39
shift_of level1 = 30
shift_of level2 = 21
shift_of level3 = 12

-- `(va >> shift) & 0x1ff`
unfoldable pub va_index : ℕ → Level → ℕ
va_index va level = va / 2 ^ shift_of level % 512

-- The page tables in physical memory, by address and index. The recursive entry of the root makes the
-- addresses of `recursive_table_addr` read the tables that the entries on the way stand for.
abbrev pub Tables : Type 0
Tables = ℕ → ℕ → Entry

abbrev valid_entry : Entry → Option Entry
valid_entry e = if e.valid then some e else none

-- The loop over the levels that can have tables, and then the last.
unfoldable pub walk : Tables → List Level → ℕ → ℕ → Option Entry
walk tables [] table va = valid_entry (tables table (va_index va level3))
walk tables (level ∷ levels) table va =
    let e = tables table (va_index va level) in
    let below = walk tables levels (phys_addr e) va in
    if not e.valid then none else (if not (is_table e level) then some e else below)

-- `user_leaf_entry` in the tables of the root `root`.
unfoldable pub user_leaf_entry : Tables → ℕ → ℕ → Option Entry
user_leaf_entry tables root va = walk tables (level0 ∷ level1 ∷ level2 ∷ []) root va

abbrev pub permits : AccessPermission → Bool → Bool
permits all_rw for_write = true
permits all_ro for_write = not for_write
permits priv_rw for_write = false
permits priv_ro for_write = false

abbrev pub entry_user_ok : Entry → Bool → Bool
entry_user_ok e for_write = permits e.access_permission for_write

abbrev pub page_ok : Bool → Option Entry → Bool
page_ok for_write none = false
page_ok for_write (some e) = entry_user_ok e for_write

-- The loop over the pages from `page` on, with fuel. The address wraps around at 64 bits.
unfoldable pub pages_ok : Tables → ℕ → Bool → ℕ → ℕ → ℕ → Bool
pages_ok tables root for_write zero end page = false
pages_ok tables root for_write (suc fuel) end page =
    let rest = pages_ok tables root for_write fuel end ((page + page_size_4k) % 2 ^ 64) in
    if leb end page
    then true
    else (if page_ok for_write (user_leaf_entry tables root page) then rest else false)

-- The range touches at most so many pages and the loop ends behind them.
abbrev pub pages_fuel : ℕ → ℕ
pages_fuel len = len / page_size_4k + 3

-- `user_range_ok`
unfoldable pub user_range_ok : Tables → ℕ → ℕ → ℕ → Bool → Bool
user_range_ok tables root va len for_write =
    if leb (2 ^ 64) (va + len)
    then false
    else (if ltb kzero (va + len)
        then false
        else (if len == 0
            then true
            else pages_ok tables root for_write (pages_fuel len) (va + len)
                (bit_and va (not_u64 (page_size_4k - 1)))))
