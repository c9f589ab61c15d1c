-- ===== src/Demangle/Format.antt =====
-- aarch64/src/demangle.rs: `copy_name`, what `demangle` writes, and `demangle`.
pub mod Fits
pub mod Total
use r9x.Prelude.{
  ℕ, zero, suc, ◌+◌, ◌-◌, ◌≤◌, min, Bool, true, false, not, ◌&&◌, ◌||◌, Option, none, some, List,
  [], ◌∷◌, ◌++◌, length, take, drop, set, get_elem?, get_or, Outcome, ok, err, panic, ◌>>=◌, ◌==◌,
  ltb, leb, if◌then◌else◌,
}
use r9x.Demangle.{Name, Missing}
use r9x.Demangle.Scan.{Progress, Scan, scanned, panics, out_of_fuel, read_names, start}

-- The output buffer and `out_pos`.
pub record Out : Type 0 where
  pub buf : List ℕ
  pub out_pos : ℕ

-- `buf[i] = b`
unfoldable pub put : List ℕ → ℕ → ℕ → Outcome Missing (List ℕ)
put buf i b = if ltb i (length buf) then ok (set buf i b) else panic

-- `buf[out_pos] = b; out_pos += 1`
abbrev pub push_byte : Out → ℕ → Outcome Missing Out
push_byte o b = put o.buf o.out_pos b >>= λ buf. ok (record { buf = buf; out_pos = o.out_pos + 1 })

-- `copy_name` into `&mut buf[out_pos..]`, which panics behind the end. The bytes of the name are read
-- without a check, from the symbol.
unfoldable pub copy_name : List ℕ → Name → Out → Outcome Missing Out
copy_name bytes n o =
    if ltb (length o.buf) o.out_pos
    then panic
    else let count = min n.len (length o.buf - o.out_pos) in
      ok (record {
        buf =
            take o.out_pos o.buf ++ take count (drop n.at bytes) ++ drop (o.out_pos + count) o.buf;
        out_pos = o.out_pos + count;
      })

-- `::` before a name: written, left out of a buffer with no room, where the loop breaks, or not
-- wanted.
pub data Separated : Type 0 where
  separated : Out → Separated
  no_room : Separated

unfoldable pub separate : Out → Outcome Missing Separated
separate o =
    if ltb (length o.buf) (o.out_pos + 2)
    then ok no_room
    else (push_byte o b':' >>= λ o₁. push_byte o₁ b':' >>= λ o₂. ok (separated o₂))

-- The loop over the names before the generics.
unfoldable pub write_path : List ℕ → List Name → Out → Outcome Missing Out
write_path bytes [] o = ok o
write_path bytes (n ∷ names) o = (if ltb 0 o.out_pos then separate o else ok (separated o)) >>= λ r.
    elim r [
      | no_room ↦ ok o
      | separated o₁ ↦ copy_name bytes n o₁ >>= λ o₂. write_path bytes names o₂
    ]

-- `buf[out_pos - 1] != b'<'`, which panics on a read behind the end.
unfoldable pub is_after_angle : Out → Outcome Missing Bool
is_after_angle o = elim (get_elem? o.buf (o.out_pos - 1)) [ none ↦ panic | some b ↦ ok (b == b'<') ]

unfoldable pub separate_generic : Out → Outcome Missing Separated
separate_generic o =
    if ltb 0 o.out_pos
    then (is_after_angle o >>= λ after. if after then ok (separated o) else separate o)
    else ok (separated o)

-- The loop over the names in the generics.
unfoldable pub write_generics : List ℕ → List Name → Out → Outcome Missing Out
write_generics bytes [] o = ok o
write_generics bytes (n ∷ names) o = separate_generic o >>= λ r. elim r [
  | no_room ↦ ok o
  | separated o₁ ↦ copy_name bytes n o₁ >>= λ o₂. write_generics bytes names o₂
]

-- `::<` where it fits with a byte to spare.
unfoldable pub open_generics : Out → Outcome Missing Out
open_generics o =
    if ltb (o.out_pos + 3) (length o.buf)
    then (push_byte o b':' >>= λ o₁. push_byte o₁ b':' >>= λ o₂. push_byte o₂ b'<')
    else ok o

unfoldable pub close_generics : Out → Outcome Missing Out
close_generics o = if ltb o.out_pos (length o.buf) then push_byte o b'>' else ok o

abbrev pub with_generics : List ℕ → List Name → Out → Outcome Missing Out
with_generics bytes [] o = ok o
with_generics bytes (n ∷ names) o =
    open_generics o >>= λ o₁. write_generics bytes (n ∷ names) o₁ >>= λ o₂. close_generics o₂

-- The buffer with a NUL behind the text, where there is room.
unfoldable pub terminate : Out → Outcome Missing (List ℕ)
terminate o = if ltb o.out_pos (length o.buf) then put o.buf o.out_pos 0 else ok o.buf

abbrev pub main_count : Progress → ℕ
main_count s = elim s.gen_start [ none ↦ length s.names | some g ↦ g ]

-- What is written for the names read.
unfoldable pub format : List ℕ → List Name → ℕ → List ℕ → Outcome Missing (List ℕ)
format bytes names main buf =
    write_path bytes (take main names) (record { buf = buf; out_pos = 0 }) >>= λ o₁.
    with_generics bytes (drop main names) o₁ >>= λ o₂. terminate o₂

-- The symbol is recognised if a name was read.
abbrev pub finish : List ℕ → List ℕ → Scan → Outcome Missing (Bool × List ℕ)
finish bytes buf out_of_fuel = panic
finish bytes buf panics = panic
finish bytes buf (scanned s) =
    if length s.names == 0
    then ok (false, buf)
    else (format bytes s.names (main_count s) buf >>= λ b. ok (true, b))

abbrev pub is_v0 : List ℕ → Bool
is_v0 bytes = leb 3 (length bytes) && (get_or bytes 0 0 == b'_' && get_or bytes 1 0 == b'R')

-- `demangle`: whether the symbol is recognised, and the buffer. A round of the loop moves on by at
-- least a byte, so the length of the symbol is fuel enough.
unfoldable pub demangle : List ℕ → List ℕ → Outcome Missing (Bool × List ℕ)
demangle bytes buf =
    if is_v0 bytes
    then finish bytes buf (read_names (length bytes) bytes start)
    else ok (false, buf)
