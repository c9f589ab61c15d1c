-- ===== src/Vm/Map/Typed.antt =====
-- aarch64/src/vm.rs: the tables as a tree with a level for each table, and the writes to them.
use r9x.Prelude.{
  ℕ, ◌%◌, ◌^◌, ◌<◌, ◌≡◌, ◌≢◌, ◌⊎◌, refl, true, false, ◌&&◌, Option, none, some, List, [], ◌∷◌, ◌==◌,
  arith, All,
}
use r9x.Vm.{Level, level0, Entry, Tables, next, phys_addr, is_table}
use r9x.Vm.Map.{recursive_slot, empty_entry, table_entry, write_entry, clear_page}

-- The level of each page that is a table.
abbrev pub Levels : Type 0
Levels = ℕ → Option Level

-- A slot that the walk uses: not the recursive one of a root.
abbrev pub IsUsed : Level → ℕ → Type 0
IsUsed level0 index = index ≢ recursive_slot
IsUsed _ index = Unit {0}

-- A table entry of a table stands for a table of the next level.
abbrev pub IsTyped : Levels → Tables → Type 0
IsTyped level_of tables =
    (table index : ℕ) (level : Level)
    → level_of table ≡ some level
    → IsUsed level index
    → (tables table index).valid ≡ true
    → is_table (tables table index) level ≡ true
    → level_of (phys_addr (tables table index)) ≡ next level

-- The pages that the allocator gives are pages of the 48-bit addresses, no tables yet, and distinct.
abbrev pub IsFresh : Levels → List ℕ → Type 0
IsFresh level_of [] = Unit {0}
IsFresh level_of (page ∷ supply) =
    (level_of page ≡ none)
    × (page % 2 ^ 12 ≡ 0)
    × (page < 2 ^ 48)
    × All (λ other. page ≢ other) supply
    × IsFresh level_of supply

pub table_entry-page :
    (page : ℕ) → page % 2 ^ 12 ≡ 0 → page < 2 ^ 48 → phys_addr (table_entry page) ≡ page
table_entry-page page aligned below = omega (arith, aligned, below)

pub write_entry_self :
    (tables : Tables) (table index : ℕ) (e : Entry)
    → write_entry tables table index e table index ≡ e
unfolding write_entry
write_entry_self tables table index e =
    let here : (table == table && index == index) ≡ true = ground arith in
    rw (write_entry, here) refl

pub write_entry_other :
    (tables : Tables) (table index : ℕ) (e : Entry) (t i : ℕ)
    → (t ≢ table) ⊎ (i ≢ index)
    → write_entry tables table index e t i ≡ tables t i
unfolding write_entry
write_entry_other tables table index e t i ne =
    let other : (t == table && i == index) ≡ false = ground (arith, ne) in
    rw (write_entry, other) refl

pub clear_page_other :
    (tables : Tables) (page t i : ℕ) → t ≢ page → clear_page tables page t i ≡ tables t i
unfolding clear_page
clear_page_other tables page t i ne =
    let other : (t == page) ≡ false = ground (arith, ne) in rw (clear_page, other) refl

pub clear_page_self : (tables : Tables) (page i : ℕ) → clear_page tables page page i ≡ empty_entry
unfolding clear_page
clear_page_self tables page i =
    let here : (page == page) ≡ true = ground arith in rw (clear_page, here) refl
