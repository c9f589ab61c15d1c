-- ===== src/Elf/Tests.antt =====
-- The unit tests of port/src/elf.rs, run on the model.
use r9x.Prelude.{
  ℕ, zero, suc, ◌+◌, ◌-◌, ◌/◌, ◌%◌, ◌^◌, ◌≡◌, refl, true, false, none, List, [], ◌∷◌, ◌++◌, take,
  drop, replicate, ok, err, panic,
}
use r9x.Elf.{
  Elf, from_le_bytes, read, check_ident, check_table, add_segment, read_segment, load_one,
  load_from, not_elf, truncated, not_exec, bad_segment, no_load_segment,
}
use r9x.Elf.Symbols.{read_section, linked, symtab_at, section_at, find_symtab, read_symtab, parse}

abbrev to_le_bytes : ℕ → ℕ → List ℕ
to_le_bytes zero v = []
to_le_bytes (suc n) v = v % 256 ∷ to_le_bytes n (v / 256)

-- `put16`, `put32` and `put64`
abbrev pub put : ℕ → ℕ → ℕ → List ℕ → List ℕ
put n off v buf = take off buf ++ (to_le_bytes n v ++ drop (off + n) buf)

abbrev header : ℕ → ℕ → List ℕ
header phnum bytes = put 4 0 0x464c457f (
    put 1 4 2 (
      put 1 5 1 (
        put 1 6 1 (
          put 2 16 2 (
            put 2 18 183 (
              put 4 20 1 (
                put 8 24 0x1000 (
                  put 8 32 64
                    (put 2 52 64 (put 2 54 56 (put 2 56 phnum (replicate bytes 0))))))))))))

abbrev program_header : ℕ → ℕ → ℕ → ℕ → ℕ → ℕ → List ℕ → List ℕ
program_header base flags offset vaddr filesz memsz buf = put 4 base 1 (
    put 4 (base + 4) flags (
      put 8 (base + 8) offset
        (put 8 (base + 16) vaddr (put 8 (base + 32) filesz (put 8 (base + 40) memsz buf)))))

-- `valid_elf`: text of 0x100 bytes, and data with a tail that is not in the file.
abbrev pub valid_elf : List ℕ
valid_elf =
    program_header 64 5 176 0x1000 0x100 0x100
      (program_header 120 6 272 0x2000 0x10 0x100 (header 2 512))

abbrev pub valid : Elf
valid = record {
  entry = 0x1000;
  segments =
      record { vaddr = 0x1000; offset = 176; filesz = 0x100; memsz = 0x100; exec = true }
      ∷ record { vaddr = 0x2000; offset = 272; filesz = 0x10; memsz = 0x100; exec = false }
      ∷ [];
  symtab = none;
}

-- A section header at 120, of a symbol table that is its own string table.
abbrev with_symbols : ℕ → ℕ → List ℕ
with_symbols offset bytes = put 8 40 120 (
    put 2 58 64 (
      put 2 60 1 (
        put 4 124 2 (
          put 8 144 offset (
            put 8 152 bytes
              (put 8 176 24 (program_header 64 5 0 0x1000 0x10 0x10 (header 1 184))))))))

reading : Unit {0}
unfolding parse check_ident check_table load_from load_one read_segment add_segment read_symtab
    find_symtab section_at symtab_at read_section linked read from_le_bytes
reading = tt

pub parses_valid : parse valid_elf ≡ ok valid
unfolding reading
parses_valid = refl

empty_file : parse [] ≡ err truncated
unfolding reading
empty_file = refl

wrong_magic : parse (put 1 0 0 valid_elf) ≡ err not_elf
unfolding reading
wrong_magic = refl

shared_object : parse (put 2 16 3 valid_elf) ≡ err not_exec
unfolding reading
shared_object = refl

table_past_end : parse (put 8 32 500 valid_elf) ≡ err truncated
unfolding reading
table_past_end = refl

segment_past_end : parse (put 8 72 500 valid_elf) ≡ err bad_segment
unfolding reading
segment_past_end = refl

nothing_to_load : parse (put 2 56 0 valid_elf) ≡ err no_load_segment
unfolding reading
nothing_to_load = refl

-- The end of the symbols overflows: the reader of the file panics.
symbols_overflow : parse (with_symbols (2 ^ 64 - 1) 24) ≡ panic
unfolding reading
symbols_overflow = refl
