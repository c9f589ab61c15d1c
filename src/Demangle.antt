-- ===== src/Demangle.antt =====
-- aarch64/src/demangle.rs: the demangler of Rust v0 symbols that backtraces print with, and here
-- what it reads names by. A text is the list of its bytes, and a name the place and the length of
-- its bytes in the symbol, as the raw pointer and the length of the source.
pub mod Reads
pub mod Scan
pub mod Format
mod Tests
use r9x.Prelude.{
  ℕ, zero, suc, ◌+◌, ◌-◌, Bool, true, false, not, ◌&&◌, ◌||◌, none, some, List, [], ◌∷◌, length,
  take, drop, get_elem?, get_or, Outcome, ok, err, panic, ◌>>=◌, ◌>>◌, fail_if, add_u64, mul_u64,
  ◌==◌, ltb, leb, if◌then◌else◌,
}

-- A name of the symbol: the position of its first byte, and the count of its bytes.
pub record Name : Type 0 where
  pub at : ℕ
  pub len : ℕ

-- The `false` of a read.
pub data Missing : Type 0 where
  missing : Missing

abbrev pub is_ascii_digit : ℕ → Bool
is_ascii_digit b = leb b'0' b && leb b b'9'

abbrev pub is_ascii_alphanumeric : ℕ → Bool
is_ascii_alphanumeric b = is_ascii_digit b || (leb b'A' b && leb b b'Z' || leb b'a' b && leb b b'z')

unfoldable pub is_name_byte : ℕ → Bool
is_name_byte b = is_ascii_alphanumeric b || b == b'_'

unfoldable pub is_disamb_byte : ℕ → Bool
is_disamb_byte b = is_ascii_alphanumeric b || b == b'_'

-- `iter().all(f)`
abbrev pub all : (ℕ → Bool) → List ℕ → Bool
all f [] = true
all f (b ∷ bs) = f b && all f bs

-- The count of digits that a text starts with.
unfoldable pub count_digits : List ℕ → ℕ
count_digits [] = 0
count_digits (b ∷ bs) = let n = count_digits bs in if is_ascii_digit b then suc n else 0

-- The fold over the digits. The sum and the product are checked.
unfoldable pub decimal : ℕ → List ℕ → Outcome Missing ℕ
decimal acc [] = ok acc
decimal acc (b ∷ bs) = mul_u64 acc 10 >>= λ t. add_u64 t (b - b'0') >>= λ a. decimal a bs

-- `peek_name`: where the name starts that the digits at `pos` announce.
unfoldable pub peek_name : List ℕ → ℕ → Outcome Missing ℕ
peek_name bytes pos =
    let n = count_digits (drop pos bytes) in
    fail_if (n == 0) missing
    >> (decimal 0 (take n (drop pos bytes)) >>= λ len.
        fail_if (len == 0 || (ltb 255 len || ltb (length bytes) (pos + n + len))) missing
        >> (fail_if (not (all is_name_byte (take len (drop (pos + n) bytes)))) missing
            >> ok (pos + n)))

-- `read_name`: the name, and the position behind it.
unfoldable pub read_name : List ℕ → ℕ → Outcome Missing (Name × ℕ)
read_name bytes pos = peek_name bytes pos >>= λ p.
    decimal 0 (take (p - pos) (drop pos bytes)) >>= λ len.
    ok (record { at = p; len = len }, p + len)

-- Whether the disambiguator at `start` can have `dlen` bytes: then it ends before a name.
unfoldable pub split : List ℕ → ℕ → ℕ → Outcome Missing ℕ
split bytes start dlen =
    fail_if (leb (length bytes) (start + dlen)) missing
    >> (fail_if (not (all is_disamb_byte (take dlen (drop start bytes)))) missing
        >> (fail_if (not (is_ascii_digit (get_or bytes (start + dlen) 0))) missing
            >> (peek_name bytes (start + dlen) >>= λ _. ok (start + dlen))))

abbrev pub or_else {ℓ} : {A : Type ℓ} → Outcome Missing A → Outcome Missing A → Outcome Missing A
or_else (ok a) next = ok a
or_else (err e) next = next
or_else panic next = panic

abbrev pub min_disambig : ℕ
min_disambig = 2

abbrev pub max_disambig : ℕ
max_disambig = 13

-- The loop over the lengths from `min_disambig + left - 1` down to `min_disambig`.
unfoldable pub longest_split : List ℕ → ℕ → ℕ → Outcome Missing ℕ
longest_split bytes start zero = err missing
longest_split bytes start (suc left) =
    or_else (split bytes start (min_disambig + left)) (longest_split bytes start left)

-- `read_crate_disamb`: the position behind the disambiguator.
unfoldable pub read_crate_disamb : List ℕ → ℕ → Outcome Missing ℕ
read_crate_disamb bytes pos = elim (get_elem? bytes pos) [
  | none ↦ err missing
  | some b ↦
      if b == b'v' then ok (pos + 1) else longest_split bytes pos (max_disambig + 1 - min_disambig)
]
