-- ===== src/Fdt/Header.antt =====
-- core/src/fdt.rs: the header of a devicetree, and the areas that it names.
use r9x.Prelude.{
  ℕ, ◌+◌, ◌%◌, ◌^◌, Bool, not, List, Outcome, ok, ◌>>=◌, ◌>>◌, fail_if, ok_or, length, ◌==◌, ◌||◌,
  or_panic,
}
use r9x.Fdt.{bytes_to_u32_offset}
use r9x.Fdt.Values.{slice}

pub data ParseError : Type 0 where
  invalid_header invalid_magic buffer_too_small invalid_token : ParseError

pub record FdtHeader : Type 0 where
  pub magic : ℕ
  pub totalsize : ℕ
  pub off_dt_struct : ℕ
  pub off_dt_strings : ℕ
  pub off_mem_rsvmap : ℕ
  pub version : ℕ
  pub last_comp_version : ℕ
  pub boot_cpuid_phys : ℕ
  pub size_dt_strings : ℕ
  pub size_dt_struct : ℕ

abbrev pub word_at : List ℕ → ℕ → Outcome ParseError ℕ
word_at bytes offset = ok_or invalid_header (bytes_to_u32_offset bytes offset)

unfoldable pub new_header : List ℕ → Outcome ParseError FdtHeader
new_header bytes = do
  magic ← word_at bytes 0
  totalsize ← word_at bytes 4
  off_dt_struct ← word_at bytes 8
  off_dt_strings ← word_at bytes 12
  off_mem_rsvmap ← word_at bytes 16
  version ← word_at bytes 20
  last_comp_version ← word_at bytes 24
  boot_cpuid_phys ← word_at bytes 28
  size_dt_strings ← word_at bytes 32
  size_dt_struct ← word_at bytes 36
  ok (record {
    magic = magic;
    totalsize = totalsize;
    off_dt_struct = off_dt_struct;
    off_dt_strings = off_dt_strings;
    off_mem_rsvmap = off_mem_rsvmap;
    version = version;
    last_comp_version = last_comp_version;
    boot_cpuid_phys = boot_cpuid_phys;
    size_dt_strings = size_dt_strings;
    size_dt_struct = size_dt_struct;
  })

-- `data.len() as u32` is cut to 32 bits.
unfoldable pub header_of : List ℕ → Bool → Outcome ParseError FdtHeader
header_of bytes ignore_size = do
  h ← new_header bytes
  fail_if (not (h.magic == 0xd00dfeed)) invalid_magic
  fail_if (not (length bytes % 2 ^ 32 == h.totalsize || ignore_size)) buffer_too_small
  ok h

pub record DeviceTree : Type 0 where
  pub bytes : List ℕ
  pub header : FdtHeader

unfoldable pub device_tree : List ℕ → Outcome ParseError DeviceTree
device_tree bytes = header_of bytes (Bool.false) >>= λ h. ok (record { bytes = bytes; header = h })

-- `memory n` is the first `n` bytes behind the pointer; a header has 40.
unfoldable pub from_usize : (ℕ → List ℕ) → Outcome ParseError DeviceTree
from_usize memory = do h ← header_of (memory 40) (Bool.true); device_tree (memory h.totalsize)

-- `&self.data[start..(start + size)]`
unfoldable pub structs : DeviceTree → Outcome ParseError (List ℕ)
structs dt =
    or_panic
      (slice dt.bytes dt.header.off_dt_struct (dt.header.off_dt_struct + dt.header.size_dt_struct))

unfoldable pub strings : DeviceTree → Outcome ParseError (List ℕ)
strings dt =
    or_panic (
      slice dt.bytes dt.header.off_dt_strings
        (dt.header.off_dt_strings + dt.header.size_dt_strings))
