-- ===== src/Vm/Tests.antt =====
-- aarch64/src/vm.rs: tables at concrete addresses.
use r9x.Prelude.{
  none, some, Post, ◌≢◌, [], ◌∷◌, ℕ, ◌+◌, ◌<◌, ◌≤◌, ◌≡◌, ◌↔◌, refl, true, false, ◌==◌, ◌/◌,
  if◌then◌else◌, arith,
}
use r9x.Vm
use r9x.Vm.{
  kzero, all_rw, all_ro, level0, level1, level2, level3, Entry, Tables, va_index, user_leaf_entry,
  user_range_ok,
}
use r9x.Vm.Map.{Paging, page_4k, recursive_slot, map_to}
use r9x.Vm.Map.Typed.{Levels, IsTyped, IsFresh}
use r9x.Vm.Map.Lookup.{Finds, IsRestored, map_to-Finds}
use r9x.Vm.Ranges.{MayAccess, user_range_ok_iff}

-- `can_break_down_va`
can_break_down_va :
    (va_index 0xffff8000049fd000 level0 ≡ 256)
    × (va_index 0xffff8000049fd000 level1 ≡ 0)
    × (va_index 0xffff8000049fd000 level2 ≡ 36)
    × (va_index 0xffff8000049fd000 level3 ≡ 509)
unfolding va_index
can_break_down_va = (refl, refl, refl, refl)

abbrev table_at : ℕ → Entry
table_at page = record {
  valid = true;
  page_or_table = true;
  access_permission = all_ro;
  addr = page;
}

abbrev unmapped : Entry
unmapped = record { valid = false; page_or_table = false; access_permission = all_ro; addr = 0 }

-- A root at 0x1000 with tables at 0x2000, 0x3000 and 0x4000, and one page, 0x5000, that may be read.
abbrev one_page : Tables
one_page = λ table index. if index == 0 then table_at (table / 0x1000 + 1) else unmapped

reads_first_page : user_range_ok one_page 0x1000 0x10 0xff0 false ≡ true
unfolding user_range_ok Vm.pages_ok user_leaf_entry Vm.walk va_index
reads_first_page = refl

not_the_second : user_range_ok one_page 0x1000 0x10 0xff1 false ≡ false
unfolding user_range_ok Vm.pages_ok user_leaf_entry Vm.walk va_index
not_the_second = refl

not_to_write : user_range_ok one_page 0x1000 0x10 0xff0 true ≡ false
unfolding user_range_ok Vm.pages_ok user_leaf_entry Vm.walk va_index
not_to_write = refl

user_range_ok_iff_example :
    (user_range_ok one_page 0x1000 0x10 0xff0 false ≡ true)
    ↔ ((0x1000 ≤ kzero) × ((a : ℕ) → 0x10 ≤ a → a < 0x1000 → MayAccess one_page 0x1000 false a))
user_range_ok_iff_example =
    user_range_ok_iff one_page 0x1000 0x10 0xff0 false (omega arith) (omega arith)

-- A root at 0x1000 with nothing mapped, and three pages for tables.
abbrev blank : Paging
blank = record { tables = λ table index. unmapped; supply = 0x2000 ∷ 0x3000 ∷ 0x4000 ∷ [] }

abbrev root_only : Levels
root_only = λ table. if table == 0x1000 then some level0 else none

blank-IsTyped : IsTyped root_only blank.tables
blank-IsTyped table index level e used v w = absurd (never v)
  where
    never : false ≢ true
    never h = cc

blank-IsFresh : IsFresh root_only blank.supply
blank-IsFresh = (
  refl,
  refl,
  omega arith,
  ((λ e. absurd (omega (arith, e))), ((λ e. absurd (omega (arith, e))), tt)),
  (
    refl,
    refl,
    omega arith,
    ((λ e. absurd (omega (arith, e))), tt),
    (refl, refl, omega arith, tt, tt),
  ),
)

abbrev user_data : Entry
user_data = record { valid = true; page_or_table = false; access_permission = all_rw; addr = 5 }

user_slot : va_index 0x400000 level0 ≢ recursive_slot
unfolding va_index
user_slot e = omega (arith, e)

map_to-Finds_example :
    Post
      (Finds 0x1000 0x1000 0x400000 user_data blank)
      (IsRestored 0x1000 blank)
      ⊥
      (map_to 0x1000 0x1000 user_data 0x400000 page_4k blank)
map_to-Finds_example =
    map_to-Finds root_only 0x1000 0x1000 0x400000 user_data blank blank-IsTyped blank-IsFresh refl
      refl user_slot refl
