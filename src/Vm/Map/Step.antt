-- ===== src/Vm/Map/Step.antt =====
-- aarch64/src/vm.rs: a step of the walk by `next_mut`.
use r9x.Prelude.{
  ℕ, ◌≡◌, refl, sym, subst, ◌∙◌, Bool, true, false, not, ◌&&◌, some, List, [], ◌∷◌, ◌==◌, arith,
  Post, Bool-cases, inl, inr,
}
use r9x.Vm.{Level, level0, level1, level2, level3, Tables, next, va_index, phys_addr, is_table}
use r9x.Vm.Map.{
  Paging, recursive_slot, table_entry, write_entry, clear_page, create_table, next_mut, is_root,
}
use r9x.Vm.Map.Typed.{Levels, IsUsed, IsTyped, IsFresh, table_entry-page}
use r9x.Vm.Map.Create.{Steps, created-Steps}

module _ (level_of : Levels) (level below : Level) (va table : ℕ) where
  create_table-Steps :
      (index : ℕ) (tables : Tables) (supply : List ℕ)
      → IsTyped level_of tables
      → IsFresh level_of supply
      → level_of table ≡ some level
      → next level ≡ some below
      → Post
          (λ r.
            Steps level_of level below table index
              (record { tables = tables; supply = supply })
              r.0
              r.1)
          (λ e. Unit {0})
          ⊥
          (create_table table index tables supply)
  create_table-Steps index tables [] typed fresh here goes = record { holds = tt }
  create_table-Steps index tables (page ∷ supply) typed fresh here goes = record {
    holds =
        subst
          (λ b.
            Steps level_of level below table index
              (record { tables = tables; supply = page ∷ supply }) b
              (record {
                tables = clear_page (write_entry tables table index (table_entry page)) b;
                supply = supply;
              }))
          (sym (table_entry-page page fresh.1 fresh.2))
          (created-Steps level_of page below tables table index level fresh.0 fresh.1 fresh.2 typed
            here goes fresh.3 fresh.4);
  }

  abbrev Stepped : Paging → ℕ × Paging → Type 0
  Stepped p r = Steps level_of level below table (va_index va level) p r.0 r.1

  pub next_mut-Steps :
      (p : Paging)
      → IsTyped level_of p.tables
      → IsFresh level_of p.supply
      → level_of table ≡ some level
      → next level ≡ some below
      → Post (Stepped p) (λ e. Unit {0}) ⊥ (next_mut level va table p)
  unfolding next_mut
  next_mut-Steps p typed fresh here goes =
      elim (Bool-cases (is_root level && va_index va level == recursive_slot)) [
        | inl e ↦ rw (next_mut, e) (record { holds = tt })
        | inr e ↦
            elim (Bool-cases (
              (p.tables table (va_index va level)).valid
              && not (is_table (p.tables table (va_index va level)) level))) [
                | inl f ↦ rw (next_mut, e, f) (record { holds = tt })
                | inr f ↦ elim (Bool-cases (p.tables table (va_index va level)).valid) [
                  | inl g ↦ rw (next_mut, e, f, g) (record { holds = stays e f g })
                  | inr g ↦
                      rw (next_mut, e, f, g)
                        (create_table-Steps (va_index va level) p.tables p.supply typed fresh here
                          goes)
                ]
              ]
      ]
    where
      way : (a b : Bool) → (a && not b) ≡ false → a ≡ true → b ≡ true
      way true true h k = refl
      way true false h k = absurd (cc)
      way false b h k = absurd (cc)

      used :
          (l : Level)
          → (is_root l && va_index va level == recursive_slot) ≡ false
          → IsUsed l (va_index va level)
      used level0 e = ground (arith, e)
      used level1 e = tt
      used level2 e = tt
      used level3 e = tt

      stays :
          (is_root level && va_index va level == recursive_slot) ≡ false
          → ((p.tables table (va_index va level)).valid
              && not (is_table (p.tables table (va_index va level)) level))
            ≡ false
          → (p.tables table (va_index va level)).valid ≡ true
          → Steps level_of level below table
              (va_index va level)
              p
              (phys_addr (p.tables table (va_index va level)))
              p
      stays e f g = record {
        later = level_of;
        typed = typed;
        fresh = fresh;
        grows = λ x k h. h;
        reached = typed table (va_index va level) level here (used level e) g (way _ _ f g) ∙ goes;
        keeps = λ x i k h ne. refl;
        is_valid = g;
        is_way = way _ _ f g;
        leads = refl;
      }
