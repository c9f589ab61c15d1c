-- ===== src/Elf/Sound.antt =====
-- port/src/elf.rs: what a file that `parse` accepts is known to have.
pub mod Segments
pub mod Symtab
use r9x.Prelude.{
  ok_inj, ℕ, zero, suc, ◌+◌, ◌*◌, ◌≤◌, ◌<◌, ◌≡◌, refl, ap, sym, subst, ◌∙◌, inl, inr, Bool-cases,
  Option, none, some, List, [], ◌∷◌, ◌++◌, length, length-append, ok, err, panic, ok-bind, arith,
  ltb, leb, ◌==◌, if◌then◌else◌, fail_if, Outcome, ◌>>=◌, add_u64, ◌&&◌, Bool, not, true, false,
  ◌||◌, mul_u64,
}
use r9x.Elf.{
  Segment, SymTable, Elf, ElfError, max_segments, phdr_size, read, entry_base, read_segment,
  add_segment, load_one, load_from, pt_load, field, shdr_size, truncated, checked_add, check_ident,
  check_table, not_exec, et_exec, no_load_segment,
}
use r9x.Elf.Symbols.{
  syment_size, sht_symtab, symtab_at, section_at, find_symtab, read_symtab, parse, breaks, goes_on,
  Round, SectionHeader, read_section, table_of, linked,
}
use r9x.Elf.Sound.Segments.{AreSound, load_from-AreSound}
use r9x.Elf.Sound.Symtab.{SymbolsInFile, read_symtab-SymbolsInFile}

-- What the loader and the backtrace rely on.
pub record IsLoadable (len : ℕ) (e : Elf) : Type 0 where
  pub some_segment : 0 < length e.segments
  pub segments : AreSound len e.segments
  pub symtab : SymbolsInFile len e.symtab

-- If `parse` accepts a file, there are 1 to 16 segments, each with its file part inside the file
-- and not larger than its size in memory; and if the file has a symbol table, the symbols that it
-- counts are in the file and the offset of its strings is not behind the end.
pub parse-IsLoadable : (elf : List ℕ) (e : Elf) → parse elf ≡ ok e → IsLoadable (length elf) e
unfolding parse
parse-IsLoadable elf e r =
    let (_, _, r₁) = ok-bind (check_ident elf) _ _ r in
    let (e_type, _, r₂) = ok-bind (read 2 elf 16) _ _ r₁ in
    let (_, _, r₃) = ok-bind (fail_if (not (e_type == et_exec)) not_exec) _ _ r₂ in
    let (entry, _, r₄) = ok-bind (read 8 elf 24) _ _ r₃ in
    let (phoff, _, r₅) = ok-bind (read 8 elf 32) _ _ r₄ in
    let (phentsize, _, r₆) = ok-bind (read 2 elf 54) _ _ r₅ in
    let (phnum, _, r₇) = ok-bind (read 2 elf 56) _ _ r₆ in
    let (_, _, r₈) = ok-bind (check_table elf phoff phentsize phnum) _ _ r₇ in
    let (segments, loaded, r₉) = ok-bind (load_from elf phoff phnum 0 []) _ _ r₈ in
    let (_, some_segment, r₁₀) = ok-bind (fail_if (length segments == 0) no_load_segment) _ _ r₉ in
    let (symtab, symbols, r₁₁) = ok-bind (read_symtab elf) _ _ r₁₀ in
    subst (IsLoadable (length elf)) (ok_inj _ refl r₁₁) (record {
      some_segment = ground (arith, some_segment);
      segments =
          load_from-AreSound elf phoff phnum 0 [] segments loaded
            (record { bounded = omega arith; in_file = tt });
      symtab = read_symtab-SymbolsInFile elf symtab symbols;
    })
