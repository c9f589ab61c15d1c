-- ===== src/Demangle/Scan.antt =====
-- aarch64/src/demangle.rs: the loop of `demangle` that reads the names.
pub mod Bounds
pub mod Total
use r9x.Prelude.{
  ℕ, zero, suc, ◌+◌, ◌≤◌, Bool, true, false, not, ◌&&◌, ◌||◌, Option, none, some, List, [], ◌∷◌,
  ◌++◌, length, take, drop, get_elem?, Outcome, ok, err, panic, ◌==◌, ltb, leb, if◌then◌else◌,
}
use r9x.Demangle.{Name, Missing, is_ascii_digit, read_name, read_crate_disamb}

-- The local variables of `demangle`, with the names read so far for `names`, `lens` and `nnames`.
pub record Progress : Type 0 where
  pub pos : ℕ
  pub names : List Name
  pub gen_start : Option ℕ
  pub past_crate : Bool

abbrev pub max_names : ℕ
max_names = 16

abbrev pub is_in : ℕ → List ℕ → Bool
is_in c [] = false
is_in c (x ∷ xs) = c == x || is_in c xs

-- The namespace markers, `t` to `q`.
abbrev pub namespaces : List ℕ
namespaces = b't' ∷ b'v' ∷ b'm' ∷ b'b' ∷ b'l' ∷ b'o' ∷ b'p' ∷ b'y' ∷ b'q' ∷ []

abbrev pub segments : List ℕ
segments = b'N' ∷ b'S' ∷ b'I' ∷ b'M' ∷ []

abbrev pub structural : List ℕ
structural = segments ++ b'C' ∷ b'E' ∷ b'B' ∷ []

-- `pos < bytes.len() && matches!(bytes[pos], ...)`
unfoldable pub byte_in : List ℕ → ℕ → List ℕ → Bool
byte_in bytes pos set = elim (get_elem? bytes pos) [ none ↦ false | some b ↦ is_in b set ]

-- `if !read(...) { break; }`: the loop stops with what it has, which is the error here.
abbrev pub or_break {ℓ} :
    {A : Type ℓ}
    → Progress
    → Outcome Missing A
    → (A → Outcome Progress Progress)
    → Outcome Progress Progress
or_break s (ok a) next = next a
or_break s (err e) next = err s
or_break s panic next = panic

abbrev pub add_name : Progress → Name × ℕ → Outcome Progress Progress
add_name s (n, pos) = ok (record s { pos = pos; names = s.names ++ n ∷ [] })

-- `read_name` into the next free entry.
unfoldable pub name_at : List ℕ → Progress → ℕ → Outcome Progress Progress
name_at bytes s pos = or_break s (read_name bytes pos) (add_name s)

-- The round at a crate root.
unfoldable pub crate_root : List ℕ → Progress → Outcome Progress Progress
crate_root bytes s =
    or_break s (read_crate_disamb bytes (s.pos + 1))
      (λ pos. or_break s (read_name bytes pos) (add_name (record s { past_crate = true })))

-- A nested name after the crate marks the start of the generics.
abbrev pub marked : Progress → Option ℕ → Progress
marked s (some g) = s
marked s none =
    if s.past_crate && ltb 0 (length s.names)
    then record s { gen_start = some (length s.names) }
    else s

-- The position behind a segment's marker and its namespace.
abbrev pub behind_namespace : List ℕ → ℕ → ℕ
behind_namespace bytes pos = if byte_in bytes pos namespaces then pos + 1 else pos

-- The round at a path segment. The test for `C` before the name comes after the one that leaves `C`
-- to the next round.
unfoldable pub segment : List ℕ → Progress → ℕ → Outcome Progress Progress
segment bytes s pos =
    if byte_in bytes pos structural
    then ok (record s { pos = pos })
    else (if byte_in bytes pos (b'C' ∷ [])
        then or_break s (read_crate_disamb bytes (pos + 1)) (name_at bytes s)
        else (if byte_in bytes pos (b'v' ∷ [])
            then name_at bytes s (pos + 1)
            else name_at bytes s pos))

abbrev pub or_stay : Progress → ℕ → Outcome Missing ℕ → Outcome Progress Progress
or_stay s pos (ok p) = ok (record s { pos = p })
or_stay s pos (err e) = ok (record s { pos = pos })
or_stay s pos panic = panic

-- The round at an opaque type.
unfoldable pub opaque : List ℕ → Progress → Outcome Progress Progress
opaque bytes s =
    if byte_in bytes (s.pos + 1) (b'C' ∷ [])
    then or_stay s (s.pos + 1) (read_crate_disamb bytes (s.pos + 1))
    else ok (record s { pos = s.pos + 1 })

-- The round at the byte `c`: the next state, or the break.
unfoldable pub dispatch : List ℕ → Progress → ℕ → Outcome Progress Progress
dispatch bytes s c =
    if c == b'C'
    then crate_root bytes s
    else (if is_in c segments
        then segment bytes (marked s s.gen_start) (behind_namespace bytes (s.pos + 1))
        else (if c == b'B'
            then opaque bytes s
            else (if is_in c (b'E' ∷ namespaces)
                then ok (record s { pos = s.pos + 1 })
                else (if is_ascii_digit c then name_at bytes s s.pos else err s))))

-- A round of the loop: it breaks at the end of the symbol and with all the entries taken.
unfoldable pub round : List ℕ → Progress → Outcome Progress Progress
round bytes s = elim (get_elem? bytes s.pos) [
  | none ↦ err s
  | some c ↦ if length s.names == max_names then err s else dispatch bytes s c
]

pub data Scan : Type 0 where
  scanned : Progress → Scan
  panics : Scan
  out_of_fuel : Scan

unfoldable pub read_names : ℕ → List ℕ → Progress → Scan
read_names zero bytes s = out_of_fuel
read_names (suc fuel) bytes s = elim (round bytes s) [
  | ok s₁ ↦ read_names fuel bytes s₁
  | err s₁ ↦ scanned s₁
  | panic ↦ panics
]

abbrev pub start : Progress
start = record { pos = 2; names = []; gen_start = none; past_crate = false }
