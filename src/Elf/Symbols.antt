-- ===== src/Elf/Symbols.antt =====
-- port/src/elf.rs: the search of `parse` for the symbol table, and `parse`.
use r9x.Prelude.{
  ℕ, zero, suc, ◌+◌, ◌/◌, not, ◌&&◌, ◌||◌, Option, none, some, List, [], Outcome, ok, err, panic,
  ◌>>=◌, ◌>>◌, fail_if, add_u64, mul_u64, length, ltb, leb, ◌==◌, if◌then◌else◌,
}
use r9x.Elf.{
  SymTable, Elf, ElfError, truncated, not_exec, no_load_segment, shdr_size, et_exec, read, field,
  checked_add, entry_base, check_ident, check_table, load_from,
}

abbrev pub sht_symtab : ℕ
sht_symtab = 2

abbrev pub syment_size : ℕ
syment_size = 24

-- A round of the loop over the section headers goes on, or breaks with what it has found.
pub data Round : Type 0 where
  goes_on : Round
  breaks : Option SymTable → Round

-- The fields of a section header that the search reads, in that order.
pub record SectionHeader : Type 0 where
  pub sh_offset : ℕ
  pub sh_size : ℕ
  pub sh_link : ℕ
  pub sh_entsize : ℕ

unfoldable pub read_section : List ℕ → ℕ → Outcome ElfError SectionHeader
read_section elf base = do
  offset ← field 8 elf base 24
  bytes ← field 8 elf base 32
  link ← field 4 elf base 40
  entsize ← field 8 elf base 56
  ok (record { sh_offset = offset; sh_size = bytes; sh_link = link; sh_entsize = entsize })

-- The symbol table, unless it or its strings are outside the file.
abbrev pub table_of : ℕ → SectionHeader → ℕ → ℕ → Option SymTable
table_of len h strtab_offset end =
    if leb end len && leb strtab_offset len
    then some (record {
      offset = h.sh_offset;
      nsyms = h.sh_size / syment_size;
      strtab_offset = strtab_offset;
    })
    else none

-- The sum of the offset and the size is not checked for overflow.
unfoldable pub linked : List ℕ → ℕ → SectionHeader → Outcome ElfError Round
linked elf shoff h = entry_base shoff h.sh_link shdr_size >>= λ strtab_base.
    field 8 elf strtab_base 24 >>= λ strtab_offset.
    add_u64 h.sh_offset h.sh_size >>= λ end. ok (breaks (table_of (length elf) h strtab_offset end))

-- The round at the header of a symbol table.
unfoldable pub symtab_at : List ℕ → ℕ → ℕ → ℕ → Outcome ElfError Round
symtab_at elf shoff shnum base = read_section elf base >>= λ h.
    if not (h.sh_entsize == syment_size) || leb shnum h.sh_link
    then ok goes_on
    else linked elf shoff h

unfoldable pub section_at : List ℕ → ℕ → ℕ → ℕ → Outcome ElfError Round
section_at elf shoff shnum i = entry_base shoff i shdr_size >>= λ base.
    field 4 elf base 4 >>= λ sh_type.
    if sh_type == sht_symtab then symtab_at elf shoff shnum base else ok goes_on

unfoldable pub find_symtab : List ℕ → ℕ → ℕ → ℕ → ℕ → Outcome ElfError (Option SymTable)
find_symtab elf shoff shnum zero i = ok none
find_symtab elf shoff shnum (suc left) i = elim (section_at elf shoff shnum i) [
  | ok (breaks found) ↦ ok found
  | ok goes_on ↦ find_symtab elf shoff shnum left (i + 1)
  | err e ↦ err e
  | panic ↦ panic
]

-- The symbols are looked for in a section-header table that lies in the file.
unfoldable pub read_symtab : List ℕ → Outcome ElfError (Option SymTable)
read_symtab elf = read 8 elf 40 >>= λ shoff. read 2 elf 58 >>= λ shentsize.
    read 2 elf 60 >>= λ shnum.
    let searched : Outcome ElfError (Option SymTable) = mul_u64 shnum shdr_size >>= λ bytes.
    checked_add truncated shoff bytes >>= λ end.
    if leb end (length elf) then find_symtab elf shoff shnum shnum 0 else ok none in
    if ltb 0 shnum && (ltb 0 shoff && shentsize == shdr_size) then searched else ok none

unfoldable pub parse : List ℕ → Outcome ElfError Elf
parse elf =
    check_ident elf
    >> (read 2 elf 16 >>= λ e_type.
        fail_if (not (e_type == et_exec)) not_exec
        >> (read 8 elf 24 >>= λ entry. read 8 elf 32 >>= λ phoff. read 2 elf 54 >>= λ phentsize.
            read 2 elf 56 >>= λ phnum.
            check_table elf phoff phentsize phnum
            >> (load_from elf phoff phnum 0 [] >>= λ segments.
                fail_if (length segments == 0) no_load_segment
                >> (read_symtab elf >>= λ symtab.
                    ok (record { entry = entry; segments = segments; symtab = symtab })))))
