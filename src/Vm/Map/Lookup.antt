-- ===== src/Vm/Map/Lookup.antt =====
-- aarch64/src/vm.rs: a page that `map_to` has mapped is what the walk finds.
use r9x.Prelude.{
  ℕ, ◌≡◌, ◌≢◌, refl, ap, ◌∙◌, Bool, true, false, some, [], ◌∷◌, Outcome, ok, err, panic,
  if◌then◌else◌, arith, Post, bind-Post, inl,
}
use r9x.Vm.{level0, level1, level2, level3, Entry, va_index, phys_addr, is_table, user_leaf_entry}
use r9x.Vm.Map.{
  Paging, PageTableError, recursive_slot, table_entry, write_entry, next_mut, descend, page_4k,
  leaf_of, restored, finished, map_to,
}
use r9x.Vm.Map.Typed.{Levels, IsTyped, IsFresh, write_entry_self}
use r9x.Vm.Map.Step.{next_mut-Steps}
use r9x.Vm.Map.Create.{Steps}
use r9x.Vm.Map.Way.{differ, apart, swap-IsTyped, Reaches, Reaches-leaf}

descend-Reaches :
    (level_of : Levels) (live root va : ℕ) (p : Paging)
    → IsTyped level_of p.tables
    → IsFresh level_of p.supply
    → level_of root ≡ some level0
    → level_of live ≡ some level0
    → Post
        (λ r. Reaches live root va r.1.tables r.0)
        (λ e. Unit {0})
        ⊥
        (descend (level0 ∷ level1 ∷ level2 ∷ []) va root p)
descend-Reaches level_of live root va p typed fresh at_root at_live =
    bind-Post (next_mut level0 va root p) _
      (next_mut-Steps level_of level0 level1 va root p typed fresh at_root refl)
      (λ r s₁.
        bind-Post (next_mut level1 va r.0 r.1) _
          (next_mut-Steps s₁.later level1 level2 va r.0 r.1 s₁.typed s₁.fresh s₁.reached refl)
          (λ u s₂.
            bind-Post (next_mut level2 va u.0 u.1) _
              (next_mut-Steps s₂.later level2 level3 va u.0 u.1 s₂.typed s₂.fresh s₂.reached refl)
              (λ w s₃. record { holds = together r u w s₁ s₂ s₃ })))
  where
    together :
        (r u w : ℕ × Paging) (s₁ : Steps level_of level0 level1 root (va_index va level0) p r.0 r.1)
        (s₂ : Steps s₁.later level1 level2 r.0 (va_index va level1) r.1 u.0 u.1)
        → Steps s₂.later level2 level3 u.0 (va_index va level2) u.1 w.0 w.1
        → Reaches live root va w.1.tables w.0
    together r u w s₁ s₂ s₃ =
        let root₁ = s₁.grows root level0 at_root in
        let root₂ = s₂.grows root level0 root₁ in
        let root₃ = s₃.grows root level0 root₂ in
        let live₁ = s₁.grows live level0 at_live in
        let live₂ = s₂.grows live level0 live₁ in
        let live₃ = s₃.grows live level0 live₂ in
        let first₂ = s₂.grows r.0 level1 s₁.reached in
        let first₃ = s₃.grows r.0 level1 first₂ in
        let second₃ = s₃.grows u.0 level2 s₂.reached in
        let kept₀ : w.1.tables root (va_index va level0) ≡ r.1.tables root (va_index va level0) =
          s₃.keeps root (va_index va level0) level0 root₂ (
            inl (
              apart s₂.later root u.0 level0 level2 root₂ s₂.reached
                (differ level0 level2 (λ q. ground arith))))
          ∙ s₂.keeps root (va_index va level0) level0 root₁ (
              inl (
                apart s₁.later root r.0 level0 level1 root₁ s₁.reached
                  (differ level0 level1 (λ q. ground arith)))) in
        let kept₁ : w.1.tables r.0 (va_index va level1) ≡ u.1.tables r.0 (va_index va level1) =
          s₃.keeps r.0 (va_index va level1) level1 first₂ (
            inl (
              apart s₂.later r.0 u.0 level1 level2 first₂ s₂.reached
                (differ level1 level2 (λ q. ground arith)))) in
        record {
          first = r.0;
          second = u.0;
          valid₀ = ap Entry.valid kept₀ ∙ s₁.is_valid;
          way₀ = ap (λ t. is_table t level0) kept₀ ∙ s₁.is_way;
          leads₀ = ap phys_addr kept₀ ∙ s₁.leads;
          valid₁ = ap Entry.valid kept₁ ∙ s₂.is_valid;
          way₁ = ap (λ t. is_table t level1) kept₁ ∙ s₂.is_way;
          leads₁ = ap phys_addr kept₁ ∙ s₂.leads;
          valid₂ = s₃.is_valid;
          way₂ = s₃.is_way;
          leads₂ = s₃.leads;
          root_last =
              apart s₃.later root w.0 level0 level3 root₃ s₃.reached
                (differ level0 level3 (λ q. ground arith));
          first_last =
              apart s₃.later r.0 w.0 level1 level3 first₃ s₃.reached
                (differ level1 level3 (λ q. ground arith));
          second_last =
              apart s₃.later u.0 w.0 level2 level3 second₃ s₃.reached
                (differ level2 level3 (λ q. ground arith));
          first_live =
              apart s₃.later r.0 live level1 level0 first₃ live₃
                (differ level1 level0 (λ q. ground arith));
          second_live =
              apart s₃.later u.0 live level2 level0 second₃ live₃
                (differ level2 level0 (λ q. ground arith));
          last_live =
              apart s₃.later w.0 live level3 level0 s₃.reached live₃
                (differ level3 level0 (λ q. ground arith));
        }

-- The walk finds the entry, and the recursive entry is the one from before.
abbrev pub Finds : ℕ → ℕ → ℕ → Entry → Paging → Paging → Type 0
Finds live root va e p q =
    (user_leaf_entry q.tables root va ≡ some (record e { page_or_table = true }))
    × (q.tables live recursive_slot ≡ p.tables live recursive_slot)

abbrev pub IsRestored : ℕ → Paging → PageTableError × Paging → Type 0
IsRestored live p r = r.1.tables live recursive_slot ≡ p.tables live recursive_slot

-- In tables with a level for each, in which table entries lead to the next level, with an allocator
-- whose pages are distinct, of 48 bits and no tables, with two roots of level 0, and for a valid
-- entry and an address that is not behind the recursive slot: mapping a page of 4 KiB in one root
-- never panics; if it succeeds, the walk from that root finds the entry with the page flag at the
-- address; and on success and on error the recursive entry of the live root is what it was.
pub map_to-Finds :
    (level_of : Levels) (live root va : ℕ) (e : Entry) (p : Paging)
    → IsTyped level_of p.tables
    → IsFresh level_of p.supply
    → level_of root ≡ some level0
    → level_of live ≡ some level0
    → va_index va level0 ≢ recursive_slot
    → e.valid ≡ true
    → Post (Finds live root va e p) (IsRestored live p) ⊥ (map_to live root e va page_4k p)
unfolding map_to
map_to-Finds level_of live root va e p typed fresh at_root at_live used v =
    ends (descend (level0 ∷ level1 ∷ level2 ∷ []) va root swapped) (
      descend-Reaches level_of live root va swapped
        (swap-IsTyped level_of p.tables live (table_entry root) at_live typed) fresh at_root
        at_live)
  where
    swapped : Paging
    swapped = record p { tables = write_entry p.tables live recursive_slot (table_entry root) }

    read_back :
        (b : Bool)
        → b ≡ true
        → (q : Paging) → Finds live root va e p q
        → Post (Finds live root va e p) (IsRestored live p) ⊥ (if b then ok q else panic)
    read_back true f q h = record { holds = h }
    read_back false f q h = absurd (cc)

    ends :
        (o : Outcome (PageTableError × Paging) (ℕ × Paging))
        → Post (λ r. Reaches live root va r.1.tables r.0) (λ x. Unit {0}) ⊥ o
        → Post (Finds live root va e p) (IsRestored live p) ⊥ (
            finished live (p.tables live recursive_slot) (va_index va level3) (leaf_of page_4k e) o)
    ends (ok (last, q)) h =
        read_back e.valid v
          (restored live (p.tables live recursive_slot) (record q {
            tables = write_entry q.tables last (va_index va level3) (leaf_of page_4k e);
          }))
          (
            Reaches-leaf live root va q.tables last (leaf_of page_4k e)
                (p.tables live recursive_slot) used v h.holds,
            write_entry_self (write_entry q.tables last (va_index va level3) (leaf_of page_4k e))
                live recursive_slot (p.tables live recursive_slot),
          )
    ends (err (x, q)) h = record {
      holds = write_entry_self q.tables live recursive_slot (p.tables live recursive_slot);
    }
    ends panic h = absurd h.holds
