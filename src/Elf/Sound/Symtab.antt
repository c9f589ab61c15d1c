-- ===== src/Elf/Sound/Symtab.antt =====
-- port/src/elf.rs: what the search of the section headers has checked of the symbol table.
use r9x.Prelude.{
  ok_inj, ℕ, zero, suc, ◌+◌, ◌*◌, ◌≤◌, ◌≡◌, refl, ap, subst, ◌∙◌, inl, inr, Bool-cases, Option,
  none, some, List, length, ok, err, panic, ok-bind, arith, ltb, leb, ◌==◌, if◌then◌else◌, Outcome,
  add_u64, ◌&&◌, Bool, not, true, false, ◌||◌, mul_u64,
}
use r9x.Elf.{SymTable, ElfError, read, entry_base, field, shdr_size, truncated, checked_add}
use r9x.Elf.Symbols.{
  syment_size, sht_symtab, symtab_at, section_at, find_symtab, read_symtab, breaks, goes_on, Round,
  SectionHeader, read_section, table_of, linked,
}

-- The symbols that a symbol table counts are in the file, and its strings start there.
pub record IsSymTableInFile (len : ℕ) (t : SymTable) : Type 0 where
  pub symbols : t.offset + syment_size * t.nsyms ≤ len
  pub strings : t.strtab_offset ≤ len

abbrev pub SymbolsInFile : ℕ → Option SymTable → Type 0
SymbolsInFile len none = Unit {0}
SymbolsInFile len (some t) = IsSymTableInFile len t

breaks_inj :
    {a b : Option SymTable} (o : Outcome ElfError Round)
    → o ≡ ok (breaks a)
    → o ≡ ok (breaks b)
    → a ≡ b
breaks_inj o e f = cc

table_of-SymbolsInFile :
    (len t e : ℕ) (h : SectionHeader)
    → add_u64 {E = ElfError} h.sh_offset h.sh_size ≡ ok e
    → SymbolsInFile len (table_of len h t e)
table_of-SymbolsInFile len t e h sum = elim (Bool-cases (leb e len && leb t len)) [
  | inl p ↦ rw p (record { symbols = omega (arith, total, ends p); strings = ground (arith, p) })
  | inr p ↦ rw p tt
]
  where
    total : h.sh_offset + h.sh_size ≡ e
    total = ground (arith, sum)

    ends : (leb e len && leb t len) ≡ true → e ≤ len
    ends p = ground (arith, p)

linked-SymbolsInFile :
    (elf : List ℕ) (shoff : ℕ) (h : SectionHeader) (found : Option SymTable)
    → linked elf shoff h ≡ ok (breaks found)
    → SymbolsInFile (length elf) found
unfolding linked
linked-SymbolsInFile elf shoff h found r =
    let (base, _, r₁) = ok-bind (entry_base shoff h.sh_link shdr_size) _ _ r in
    let (t, _, r₂) = ok-bind (field 8 elf base 24) _ _ r₁ in
    let (e, sum, r₃) = ok-bind (add_u64 h.sh_offset h.sh_size) _ _ r₂ in
    subst (SymbolsInFile (length elf)) (breaks_inj _ refl r₃)
      (table_of-SymbolsInFile (length elf) t e h sum)

symtab_at-SymbolsInFile :
    (elf : List ℕ) (shoff shnum base : ℕ) (found : Option SymTable)
    → symtab_at elf shoff shnum base ≡ ok (breaks found)
    → SymbolsInFile (length elf) found
unfolding symtab_at
symtab_at-SymbolsInFile elf shoff shnum base found r =
    let (h, _, r₁) = ok-bind (read_section elf base) _ _ r in
    unless (not (h.sh_entsize == syment_size) || leb shnum h.sh_link) (linked elf shoff h) r₁
      (linked-SymbolsInFile elf shoff h found)
  where
    unless :
        (b : Bool) (o : Outcome ElfError Round)
        → (if b then ok goes_on else o) ≡ ok (breaks found)
        → (o ≡ ok (breaks found) → SymbolsInFile (length elf) found)
        → SymbolsInFile (length elf) found
    unless true o e k = absurd (cc)
    unless false o e k = k e

section_at-SymbolsInFile :
    (elf : List ℕ) (shoff shnum i : ℕ) (found : Option SymTable)
    → section_at elf shoff shnum i ≡ ok (breaks found)
    → SymbolsInFile (length elf) found
unfolding section_at
section_at-SymbolsInFile elf shoff shnum i found r =
    let (base, _, r₁) = ok-bind (entry_base shoff i shdr_size) _ _ r in
    let (sh_type, _, r₂) = ok-bind (field 4 elf base 4) _ _ r₁ in
    when (sh_type == sht_symtab) (symtab_at elf shoff shnum base) r₂
      (symtab_at-SymbolsInFile elf shoff shnum base found)
  where
    when :
        (b : Bool) (o : Outcome ElfError Round)
        → (if b then o else ok goes_on) ≡ ok (breaks found)
        → (o ≡ ok (breaks found) → SymbolsInFile (length elf) found)
        → SymbolsInFile (length elf) found
    when false o e k = absurd (cc)
    when true o e k = k e

find_symtab-SymbolsInFile :
    (elf : List ℕ) (shoff shnum left i : ℕ) (found : Option SymTable)
    → find_symtab elf shoff shnum left i ≡ ok found
    → SymbolsInFile (length elf) found
unfolding find_symtab
find_symtab-SymbolsInFile elf shoff shnum zero i found r =
    subst (SymbolsInFile (length elf)) (ok_inj _ refl r) tt
find_symtab-SymbolsInFile elf shoff shnum (suc left) i found r =
    round (section_at elf shoff shnum i) refl
      (find_symtab-SymbolsInFile elf shoff shnum left (i + 1) found) r
  where
    round :
        (o : Outcome ElfError Round)
        → section_at elf shoff shnum i ≡ o
        → (find_symtab elf shoff shnum left (i + 1) ≡ ok found → SymbolsInFile (length elf) found)
        → (elim o [
          | ok (breaks f) ↦ ok f
          | ok goes_on ↦ find_symtab elf shoff shnum left (i + 1)
          | err e ↦ err e
          | panic ↦ panic
        ])
          ≡ ok found
        → SymbolsInFile (length elf) found
    round (ok (breaks f)) e later r' =
        section_at-SymbolsInFile elf shoff shnum i found
          (e ∙ ap (λ x. ok (breaks x)) (ok_inj _ refl r'))
    round (ok goes_on) e later r' = later r'
    round (err x) e later r' = absurd (cc)
    round panic e later r' = absurd (cc)

-- A branch that is not taken leaves no symbols.
if-SymbolsInFile :
    (len : ℕ) (b : Bool) (o : Outcome ElfError (Option SymTable)) (found : Option SymTable)
    → (o ≡ ok found → SymbolsInFile len found)
    → (if b then o else ok none) ≡ ok found
    → SymbolsInFile len found
if-SymbolsInFile len true o found k e = k e
if-SymbolsInFile len false o found k e = subst (SymbolsInFile len) (ok_inj _ refl e) tt

pub read_symtab-SymbolsInFile :
    (elf : List ℕ) (found : Option SymTable)
    → read_symtab elf ≡ ok found
    → SymbolsInFile (length elf) found
unfolding read_symtab
read_symtab-SymbolsInFile elf found r =
    let (shoff, _, r₁) = ok-bind (read 8 elf 40) _ _ r in
    let (shentsize, _, r₂) = ok-bind (read 2 elf 58) _ _ r₁ in
    let (shnum, _, r₃) = ok-bind (read 2 elf 60) _ _ r₂ in
    if-SymbolsInFile (length elf) (ltb 0 shnum && (ltb 0 shoff && shentsize == shdr_size)) _ found
      (λ e.
        let (bytes, _, e₁) = ok-bind (mul_u64 shnum shdr_size) _ _ e in
        let (end, _, e₂) = ok-bind (checked_add truncated shoff bytes) _ _ e₁ in
        if-SymbolsInFile (length elf) (leb end (length elf)) _ found
          (find_symtab-SymbolsInFile elf shoff shnum shnum 0 found) e₂)
      r₃
