-- ===== src/Vm/Map/Way.antt =====
-- aarch64/src/vm.rs: the tables on the way to a leaf, and what the walk finds there.
use r9x.Prelude.{
  ℕ, ◌≡◌, ◌≢◌, ◌⊎◌, refl, sym, ap, ◌∙◌, true, some, List, [], ◌∷◌, arith, inl, inr, some_inj,
  ℕ_discrete,
}
use r9x.Vm.{
  Level, level0, level1, level2, level3, Entry, Tables, va_index, phys_addr, is_table, walk,
  user_leaf_entry,
}
use r9x.Vm.Map.{recursive_slot, write_entry}
use r9x.Vm.Map.Typed.{Levels, IsUsed, IsTyped, write_entry_self, write_entry_other}

walk_down :
    (tables : Tables) (level : Level) (levels : List Level) (table below va : ℕ)
    → (tables table (va_index va level)).valid ≡ true
    → is_table (tables table (va_index va level)) level ≡ true
    → phys_addr (tables table (va_index va level)) ≡ below
    → walk tables (level ∷ levels) table va ≡ walk tables levels below va
unfolding walk
walk_down tables level levels table below va v w e =
    rw (walk, v, w) (ap (λ t. walk tables levels t va) e)

pub apart :
    (level_of : Levels) (x y : ℕ) (k l : Level)
    → level_of x ≡ some k
    → level_of y ≡ some l
    → k ≢ l
    → x ≢ y
apart level_of x y k l s t ne e = ne (some_inj (level_of x) s (ap level_of e ∙ t))

abbrev number : Level → ℕ
number level0 = 0
number level1 = 1
number level2 = 2
number level3 = 3

pub differ : (k l : Level) → number k ≢ number l → k ≢ l
differ k l ne e = ne (ap number e)

-- The recursive entry of a root is none that the walk uses.
pub swap-IsTyped :
    (level_of : Levels) (tables : Tables) (live : ℕ) (e : Entry)
    → level_of live ≡ some level0
    → IsTyped level_of tables
    → IsTyped level_of (write_entry tables live recursive_slot e)
swap-IsTyped level_of tables live e root typed x i k s used v w =
    ap (λ t. level_of (phys_addr t)) same
    ∙ typed x i k s used (ap Entry.valid (sym same) ∙ v) (ap (λ t. is_table t k) (sym same) ∙ w)
  where
    unused : (l : Level) → l ≡ level0 → IsUsed l i → i ≢ recursive_slot
    unused level0 h u = u
    unused level1 h u = absurd (differ level1 level0 (λ q. ground arith) h)
    unused level2 h u = absurd (differ level2 level0 (λ q. ground arith) h)
    unused level3 h u = absurd (differ level3 level0 (λ q. ground arith) h)

    elsewhere : (x ≢ live) ⊎ (i ≢ recursive_slot)
    elsewhere = elim (ℕ_discrete x live) [
      | no ne ↦ inl ne
      | yes here ↦ inr (unused k (some_inj (level_of x) s (ap level_of here ∙ root)) used)
    ]

    same : write_entry tables live recursive_slot e x i ≡ tables x i
    same = write_entry_other tables live recursive_slot e x i elsewhere

-- The three tables on the way from the root to the table of the last level, none of which is that one.
pub record Reaches (live root va : ℕ) (tables : Tables) (last : ℕ) : Type 0 where
  pub first : ℕ
  pub second : ℕ
  pub valid₀ : (tables root (va_index va level0)).valid ≡ true
  pub way₀ : is_table (tables root (va_index va level0)) level0 ≡ true
  pub leads₀ : phys_addr (tables root (va_index va level0)) ≡ first
  pub valid₁ : (tables first (va_index va level1)).valid ≡ true
  pub way₁ : is_table (tables first (va_index va level1)) level1 ≡ true
  pub leads₁ : phys_addr (tables first (va_index va level1)) ≡ second
  pub valid₂ : (tables second (va_index va level2)).valid ≡ true
  pub way₂ : is_table (tables second (va_index va level2)) level2 ≡ true
  pub leads₂ : phys_addr (tables second (va_index va level2)) ≡ last
  pub root_last : root ≢ last
  pub first_last : first ≢ last
  pub second_last : second ≢ last
  pub first_live : first ≢ live
  pub second_live : second ≢ live
  pub last_live : last ≢ live

-- The leaf is written in the last table, and the recursive entry in the live root.
pub Reaches-leaf :
    (live root va : ℕ) (tables : Tables) (last : ℕ) (leaf old : Entry)
    → va_index va level0 ≢ recursive_slot
    → leaf.valid ≡ true
    → Reaches live root va tables last
    → user_leaf_entry
        (write_entry (write_entry tables last (va_index va level3) leaf) live recursive_slot old)
        root
        va
      ≡ some leaf
unfolding user_leaf_entry walk
Reaches-leaf live root va tables last leaf old used v h =
    step level0 (level1 ∷ level2 ∷ []) root h.first (inr used) h.root_last h.valid₀ h.way₀ h.leads₀
    ∙ step level1 (level2 ∷ []) h.first h.second (inl h.first_live) h.first_last h.valid₁ h.way₁
        h.leads₁
    ∙ step level2 [] h.second last (inl h.second_live) h.second_last h.valid₂ h.way₂ h.leads₂
    ∙ at_last
  where
    after : Tables
    after = write_entry (write_entry tables last (va_index va level3) leaf) live recursive_slot old

    step :
        (level : Level) (levels : List Level) (table below : ℕ)
        → (table ≢ live) ⊎ (va_index va level ≢ recursive_slot)
        → table ≢ last
        → (tables table (va_index va level)).valid ≡ true
        → is_table (tables table (va_index va level)) level ≡ true
        → phys_addr (tables table (va_index va level)) ≡ below
        → walk after (level ∷ levels) table va ≡ walk after levels below va
    step level levels table below elsewhere ne v₁ w e =
        let same : after table (va_index va level) ≡ tables table (va_index va level) =
          write_entry_other (write_entry tables last (va_index va level3) leaf) live recursive_slot
            old table (va_index va level) elsewhere
          ∙ write_entry_other tables last (va_index va level3) leaf table (va_index va level)
              (inl ne) in
        walk_down after level levels table below va (ap Entry.valid same ∙ v₁)
          (ap (λ t. is_table t level) same ∙ w) (ap phys_addr same ∙ e)

    at_last : walk after [] last va ≡ some leaf
    at_last =
        let found : after last (va_index va level3) ≡ leaf =
          write_entry_other (write_entry tables last (va_index va level3) leaf) live recursive_slot
            old last (va_index va level3) (inl h.last_live)
          ∙ write_entry_self tables last (va_index va level3) leaf in
        rw (walk, found, v) refl
