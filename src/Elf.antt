-- ===== src/Elf.antt =====
-- port/src/elf.rs: the reader of ELF64 files. A file is the list of its bytes; a number that is read
-- is at most 64 bits wide by the width of the read.
pub mod Symbols
pub mod Sound
mod Tests
mod Witnesses
use Prim.Native.Nat.{bit_and}
use r9x.Prelude.{
  ℕ, zero, suc, ◌+◌, ◌*◌, ◌^◌, Bool, not, Option, List, [], ◌∷◌, ◌++◌, Outcome, ok, err, ◌>>=◌,
  ◌>>◌, fail_if, add_u64, mul_u64, length, get_or, take, drop, ltb, leb, ◌==◌, if◌then◌else◌, ◌&&◌,
}

pub record Segment : Type 0 where
  pub vaddr : ℕ
  pub offset : ℕ
  pub filesz : ℕ
  pub memsz : ℕ
  pub exec : Bool

pub record SymTable : Type 0 where
  pub offset : ℕ
  pub nsyms : ℕ
  pub strtab_offset : ℕ

-- `segments` is what the method of that name gives: the first `nsegments` of the array.
pub record Elf : Type 0 where
  pub entry : ℕ
  pub segments : List Segment
  pub symtab : Option SymTable

pub data ElfError : Type 0 where
  not_elf not_64 wrong_endian not_exec no_load_segment truncated bad_segment too_many_segments :
      ElfError

abbrev pub max_segments : ℕ
max_segments = 16

abbrev pub ehdr_size : ℕ
ehdr_size = 64

abbrev pub phdr_size : ℕ
phdr_size = 56

abbrev pub shdr_size : ℕ
shdr_size = 64

abbrev pub et_exec : ℕ
et_exec = 2

abbrev pub pt_load : ℕ
pt_load = 1

abbrev pub pf_x : ℕ
pf_x = 1

-- `from_le_bytes`
unfoldable pub from_le_bytes : List ℕ → ℕ
from_le_bytes [] = 0
from_le_bytes (b ∷ bs) = b + 256 * from_le_bytes bs

-- `read_u16`, `read_u32` and `read_u64`, for 2, 4 and 8 bytes: `elf.get(off..off + n)`.
unfoldable pub read : ℕ → List ℕ → ℕ → Outcome ElfError ℕ
read n elf off = do
  end ← add_u64 off n
  fail_if (ltb (length elf) end) truncated
  ok (from_le_bytes (take n (drop off elf)))

-- A field at a distance from the start of its header.
abbrev pub field : ℕ → List ℕ → ℕ → ℕ → Outcome ElfError ℕ
field n elf base delta = add_u64 base delta >>= read n elf

-- `checked_add(...).ok_or(e)`
abbrev pub checked_add : ElfError → ℕ → ℕ → Outcome ElfError ℕ
checked_add e a b = if ltb (a + b) (2 ^ 64) then ok (a + b) else err e

-- The start of entry `i` of a table.
abbrev pub entry_base : ℕ → ℕ → ℕ → Outcome ElfError ℕ
entry_base table i size = mul_u64 i size >>= add_u64 table

abbrev byte_is_not : List ℕ → ℕ → ℕ → Bool
byte_is_not elf i b = not (get_or elf i 0 == b)

abbrev bad_magic : List ℕ → Bool
bad_magic elf = not (
    get_or elf 0 0 == 0x7f
    && get_or elf 1 0 == 0x45
    && get_or elf 2 0 == 0x4c
    && get_or elf 3 0 == 0x46)

-- The checks on the first 64 bytes.
unfoldable pub check_ident : List ℕ → Outcome ElfError (Unit {0})
check_ident elf =
    fail_if (ltb (length elf) 16) truncated
    >> fail_if (bad_magic elf) not_elf
    >> fail_if (byte_is_not elf 4 2) not_64
    >> fail_if (byte_is_not elf 5 1) wrong_endian
    >> fail_if (ltb (length elf) ehdr_size) truncated

-- The program-header table has entries of the right size and lies in the file.
unfoldable pub check_table : List ℕ → ℕ → ℕ → ℕ → Outcome ElfError (Unit {0})
check_table elf phoff phentsize phnum =
    let checked = do
      fail_if (not (phentsize == phdr_size)) truncated
      bytes ← mul_u64 phnum phdr_size
      end ← checked_add truncated phoff bytes
      fail_if (ltb (length elf) end) truncated
    in if ltb 0 phnum then checked else ok tt

-- A segment that passes the checks on its sizes goes behind the ones before.
unfoldable pub add_segment : ℕ → List Segment → Segment → Outcome ElfError (List Segment)
add_segment len segments s = do
  fail_if (ltb s.memsz s.filesz) bad_segment
  end ← checked_add bad_segment s.offset s.filesz
  fail_if (ltb len end) bad_segment
  fail_if (length segments == max_segments) too_many_segments
  ok (segments ++ s ∷ [])

-- The fields of a program header, in the order in which they are read.
unfoldable pub read_segment : List ℕ → ℕ → Outcome ElfError Segment
read_segment elf base = do
  p_flags ← field 4 elf base 4
  offset ← field 8 elf base 8
  vaddr ← field 8 elf base 16
  filesz ← field 8 elf base 32
  memsz ← field 8 elf base 40
  ok (record {
    vaddr = vaddr;
    offset = offset;
    filesz = filesz;
    memsz = memsz;
    exec = ltb 0 (bit_and p_flags pf_x);
  })

-- One round of the loop over the program headers.
unfoldable pub load_one : List ℕ → ℕ → ℕ → List Segment → Outcome ElfError (List Segment)
load_one elf phoff i segments = entry_base phoff i phdr_size >>= λ base.
    read 4 elf base >>= λ p_type.
    if p_type == pt_load
    then read_segment elf base >>= add_segment (length elf) segments
    else ok segments

unfoldable pub load_from : List ℕ → ℕ → ℕ → ℕ → List Segment → Outcome ElfError (List Segment)
load_from elf phoff zero i segments = ok segments
load_from elf phoff (suc left) i segments =
    load_one elf phoff i segments >>= load_from elf phoff left (i + 1)
