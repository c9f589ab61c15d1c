-- ===== src/Elf/Witnesses.antt =====
-- port/src/elf.rs: the theorem at the file of the unit tests.
use r9x.Prelude.{length}
use r9x.Elf.Sound.{IsLoadable, parse-IsLoadable}
use r9x.Elf.Tests.{valid_elf, valid, parses_valid}

parse-IsLoadable_example : IsLoadable (length valid_elf) valid
parse-IsLoadable_example = parse-IsLoadable valid_elf valid parses_valid
