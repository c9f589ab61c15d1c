-- ===== src/Vm/Map/Create.antt =====
-- aarch64/src/vm.rs: a step of the walk, and one that creates a table.
use r9x.Prelude.{
  ℕ, ◌%◌, ◌^◌, ◌<◌, ◌≡◌, ◌≢◌, ◌⊎◌, refl, sym, ap, ap₂, ◌∙◌, Bool, true, false, ◌&&◌, none, some,
  List, [], ◌∷◌, ◌==◌, if◌then◌else◌, arith, All, inl, inr, some_inj, some-none, ℕ_discrete,
}
use r9x.Vm.{Level, level0, level1, level2, level3, Entry, Tables, next, phys_addr, is_table}
use r9x.Vm.Map.{Paging, table_entry, write_entry, clear_page}
use r9x.Vm.Map.Typed.{
  Levels, IsUsed, IsTyped, IsFresh, table_entry-page, write_entry_self, write_entry_other,
  clear_page_other, clear_page_self,
}

-- A step from a table of one level to a table of the next: what is written is the entry at `index` of
-- the table, and a page that was no table.
pub record Steps (level_of : Levels) (level below : Level) (table index : ℕ) (p : Paging) (t₁ : ℕ)
    (p₁ : Paging) : Type 0 where
  pub later : Levels
  pub typed : IsTyped later p₁.tables
  pub fresh : IsFresh later p₁.supply
  pub grows : (x : ℕ) (k : Level) → level_of x ≡ some k → later x ≡ some k
  pub reached : later t₁ ≡ some below
  pub keeps :
      (x i : ℕ) (k : Level)
      → level_of x ≡ some k
      → (x ≢ table) ⊎ (i ≢ index)
      → p₁.tables x i ≡ p.tables x i
  pub is_valid : (p₁.tables table index).valid ≡ true
  pub is_way : is_table (p₁.tables table index) level ≡ true
  pub leads : phys_addr (p₁.tables table index) ≡ t₁

has_next :
    (level : Level) (below : Level) (e : Entry)
    → next level ≡ some below
    → e.page_or_table ≡ true
    → is_table e level ≡ true
has_next level0 below e n f = rw f refl
has_next level1 below e n f = rw f refl
has_next level2 below e n f = rw f refl
has_next level3 below e n f = absurd (some-none none n refl)

next_of_table : (level : Level) (e : Entry) → is_table e level ≡ true → next level ≢ none
next_of_table level0 e h n = absurd (some-none (next level0) refl n)
next_of_table level1 e h n = absurd (some-none (next level1) refl n)
next_of_table level2 e h n = absurd (some-none (next level2) refl n)
next_of_table level3 e h n = absurd (never e.page_or_table h)
  where
    never : (b : Bool) → (b && false) ≡ true → ⊥
    never true h = cc
    never false h = cc

module _ (level_of : Levels) (page : ℕ) (below : Level) where
  abbrev with_level : Levels
  with_level x = if x == page then some below else level_of x

  with_level_self : with_level page ≡ some below
  with_level_self = let e : (page == page) ≡ true = ground arith in rw e refl

  with_level_other : (x : ℕ) → x ≢ page → with_level x ≡ level_of x
  with_level_other x ne = let e : (x == page) ≡ false = ground (arith, ne) in rw e refl

  unlike : (x : ℕ) (k : Level) → level_of page ≡ none → level_of x ≡ some k → x ≢ page
  unlike x k n s e = some-none (level_of x) s (ap level_of e ∙ n)

  still-IsFresh :
      (supply : List ℕ)
      → All (λ other. page ≢ other) supply
      → IsFresh level_of supply
      → IsFresh with_level supply
  still-IsFresh [] apart f = tt
  still-IsFresh (q ∷ supply) apart f = (
    with_level_other q (λ e. apart.0 (sym e)) ∙ f.0,
    f.1,
    f.2,
    f.3,
    still-IsFresh supply apart.1 f.4,
  )

  module _ (tables : Tables) (table index : ℕ) (level : Level) (no_table : level_of page ≡ none)
      (aligned : page % 2 ^ 12 ≡ 0) (small : page < 2 ^ 48) (typed : IsTyped level_of tables)
      (here : level_of table ≡ some level) (goes : next level ≡ some below) where
    abbrev after : Tables
    after = clear_page (write_entry tables table index (table_entry page)) page

    after_old :
        (x i : ℕ) (k : Level)
        → level_of x ≡ some k
        → (x ≢ table) ⊎ (i ≢ index)
        → after x i ≡ tables x i
    after_old x i k s ne =
        clear_page_other (write_entry tables table index (table_entry page)) page x i
          (unlike x k no_table s)
        ∙ write_entry_other tables table index (table_entry page) x i ne

    after_new : after table index ≡ table_entry page
    after_new =
        clear_page_other (write_entry tables table index (table_entry page)) page table index
          (unlike table level no_table here)
        ∙ write_entry_self tables table index (table_entry page)

    after_kept :
        (x i : ℕ) (k : Level)
        → with_level x ≡ some k
        → x ≢ page
        → after x i ≡ tables x i
        → IsUsed k i
        → (after x i).valid ≡ true
        → is_table (after x i) k ≡ true
        → with_level (phys_addr (after x i)) ≡ next k
    after_kept x i k s ne e used v w = with_level_other (phys_addr (after x i)) apart ∙ there
      where
        there : level_of (phys_addr (after x i)) ≡ next k
        there =
            ap (λ t. level_of (phys_addr t)) e
            ∙ typed x i k (sym (with_level_other x ne) ∙ s) used (ap Entry.valid (sym e) ∙ v)
                (ap (λ t. is_table t k) (sym e) ∙ w)

        apart : phys_addr (after x i) ≢ page
        apart q = next_of_table k (after x i) w (sym there ∙ ap level_of q ∙ no_table)

    after-IsTyped : IsTyped with_level after
    after-IsTyped x i k s used v w = elim (ℕ_discrete x page) [
      | yes e ↦ absurd (cleared e)
      | no ne ↦ elim (ℕ_discrete x table) [
        | no other ↦
            after_kept x i k s ne
              (clear_page_other (write_entry tables table index (table_entry page)) page x i ne
                ∙ write_entry_other tables table index (table_entry page) x i (inl other))
              used v w
        | yes same ↦ elim (ℕ_discrete i index) [
          | no other ↦
              after_kept x i k s ne
                (clear_page_other (write_entry tables table index (table_entry page)) page x i ne
                  ∙ write_entry_other tables table index (table_entry page) x i (inr other))
                used v w
          | yes at ↦ written same at ne
        ]
      ]
    ]
      where
        clash : (b : Bool) → b ≡ false → b ≡ true → ⊥
        clash b f g = cc

        cleared : x ≡ page → ⊥
        cleared e =
            clash (after x i).valid
              (ap (λ y. (after y i).valid) e
                ∙ ap Entry.valid
                    (clear_page_self (write_entry tables table index (table_entry page)) page i))
              v

        written : x ≡ table → i ≡ index → x ≢ page → with_level (phys_addr (after x i)) ≡ next k
        written same at ne =
            ap (λ t. with_level (phys_addr t)) (ap₂ after same at ∙ after_new)
            ∙ ap with_level (table_entry-page page aligned small)
            ∙ with_level_self
            ∙ sym goes
            ∙ ap next
                (some_inj (level_of x) (ap level_of same ∙ here) (sym (with_level_other x ne) ∙ s))

    pub created-Steps :
        {supply : List ℕ}
        → All (λ other. page ≢ other) supply
        → IsFresh level_of supply
        → Steps level_of level below table index
            (record { tables = tables; supply = page ∷ supply })
            page
            (record { tables = after; supply = supply })
    created-Steps {supply} apart f = record {
      later = with_level;
      typed = after-IsTyped;
      fresh = still-IsFresh supply apart f;
      grows = λ x k e. with_level_other x (unlike x k no_table e) ∙ e;
      reached = with_level_self;
      keeps = λ x i k e ne. after_old x i k e ne;
      is_valid = ap Entry.valid after_new;
      is_way = has_next level below (after table index) goes (ap Entry.page_or_table after_new);
      leads = ap phys_addr after_new ∙ table_entry-page page aligned small;
    }
