-- ===== src/Fdt.antt =====
-- core/src/fdt.rs: the reader of flattened devicetrees. A tree is the list of its bytes; indices in
-- it are sums of a few numbers of 32 bits, so that they do not overflow. A number that is read is at
-- most 64 bits wide by the width of the read.
pub mod Values
pub mod Extent
pub mod Header
pub mod Words
pub mod Nesting
mod Tests
use r9x.Prelude.{
  ℕ, zero, suc, ◌+◌, ◌-◌, ◌*◌, ◌%◌, ◌^◌, Bool, true, false, Option, none, some, List, [], ◌∷◌,
  Outcome, ok, err, panic, ◌>>=◌, sub_u64, length, take, drop, ltb, leb, ◌==◌, if◌then◌else◌, ◌&&◌,
}

-- `from_be_bytes`, for as many bytes as the list has.
unfoldable pub from_be_bytes : ℕ → List ℕ → ℕ
from_be_bytes acc [] = acc
from_be_bytes acc (b ∷ bs) = from_be_bytes (acc * 256 + b) bs

-- The first `n` bytes, if there are as many.
unfoldable pub bytes_to : ℕ → List ℕ → Option ℕ
bytes_to n bytes = if ltb (length bytes) n then none else some (from_be_bytes 0 (take n bytes))

abbrev pub bytes_to_u32 : List ℕ → Option ℕ
bytes_to_u32 = bytes_to 4

abbrev pub bytes_to_u64 : List ℕ → Option ℕ
bytes_to_u64 = bytes_to 8

abbrev pub bytes_to_u32_offset : List ℕ → ℕ → Option ℕ
bytes_to_u32_offset bytes offset = bytes_to_u32 (drop offset bytes)

-- `n + (0usize.wrapping_sub(n) & 3)`
abbrev pub align4 : ℕ → ℕ
align4 n = n + (2 ^ 64 - n % 2 ^ 64) % 4

pub record FdtTokenContext : Type 0 where
  pub start : ℕ
  pub total_len : ℕ

pub record FdtBeginNodeContext : Type 0 where
  pub start : ℕ
  pub total_len : ℕ
  pub name_start : ℕ

pub record FdtPropContext : Type 0 where
  pub start : ℕ
  pub total_len : ℕ
  pub name_start : ℕ
  pub value_start : ℕ
  pub value_len : ℕ

pub data FdtToken : Type 0 where
  begin_node : FdtBeginNodeContext → FdtToken
  end_node : FdtTokenContext → FdtToken
  prop : FdtPropContext → FdtToken
  nop : FdtTokenContext → FdtToken
  end : FdtTokenContext → FdtToken

-- `bytes.iter().position(|&b| b == 0)`
unfoldable pub position_nul : ℕ → List ℕ → Option ℕ
position_nul i [] = none
position_nul i (b ∷ bs) = if b == 0 then some i else position_nul (i + 1) bs

unfoldable pub str_size : Option ℕ → ℕ
str_size none = 0
str_size (some sz) = align4 (sz + 1)

abbrev pub or_zero : Option ℕ → ℕ
or_zero none = 0
or_zero (some n) = n

abbrev pub token : ℕ → FdtTokenContext
token i = record { start = i; total_len = 4 }

unfoldable pub token_of : List ℕ → ℕ → ℕ → Option FdtToken
token_of structs i t =
    if t == 1
    then some (
        begin_node (record {
          start = i;
          name_start = i + 4;
          total_len = 4 + str_size (position_nul 0 (drop (i + 4) structs));
        }))
    else if t == 2
    then some (end_node (token i))
    else if t == 3
    then (let len = or_zero (bytes_to_u32 (drop (i + 4) structs)) in
        some (
          prop (record {
            start = i;
            name_start = or_zero (bytes_to_u32 (drop (i + 8) structs));
            value_start = i + 12;
            value_len = len;
            total_len = 12 + align4 len;
          })))
    else if t == 4
    then some (nop (token i))
    else if t == 9
    then some (end (token i))
    else none

unfoldable pub parse_token : List ℕ → ℕ → Option FdtToken
parse_token structs i = elim (bytes_to_u32 (drop i structs)) [
  | none ↦ none
  | some t ↦ token_of structs i t
]

pub record Node : Type 0 where
  pub start : ℕ
  pub name_start : ℕ
  pub next_token_start : ℕ
  pub total_len : ℕ
  pub depth : ℕ

unfoldable pub encloses : Node → Node → Bool
encloses n child =
    leb n.start child.start && leb (child.start + child.total_len) (n.start + n.total_len)

abbrev pub is_root : Node → Bool
is_root n = n.depth == 0

-- The loops are given a number of rounds.
pub data Hang : Type 0 where
  out_of_fuel : Hang

-- The node between a token of its start and the token of its end.
unfoldable pub node_between :
    Option FdtBeginNodeContext
    → FdtTokenContext
    → (next_token_start node_depth : ℕ) → Outcome Hang (Option Node)
node_between none ctx next_token_start node_depth = ok none
node_between (some c) ctx next_token_start node_depth =
    sub_u64 (ctx.start + ctx.total_len) c.start >>= λ total_len. ok (
      some (record {
        start = c.start;
        name_start = c.name_start;
        next_token_start = next_token_start;
        total_len = total_len;
        depth = node_depth;
      }))

unfoldable pub node_from :
    ℕ
    → List ℕ
    → (node_depth i : ℕ) → Option FdtBeginNodeContext
    → (next_token_start depth : ℕ) → Outcome Hang (Option Node)
node_from zero structs node_depth i ctx next depth = err out_of_fuel
node_from (suc fuel) structs node_depth i b next depth =
    let round : Outcome Hang (Option Node) = elim (parse_token structs i) [
      | some (begin_node ctx) ↦
          let here = depth == node_depth in
          node_from fuel structs node_depth (i + ctx.total_len) (if here then some ctx else b)
            (if here then i + ctx.total_len else next) (depth + 1)
      | some (end_node ctx) ↦ sub_u64 depth 1 >>= λ depth'. elim (depth' == node_depth) [
        | true ↦ node_between b ctx next node_depth
        | false ↦ node_from fuel structs node_depth (i + ctx.total_len) b next depth'
      ]
      | some (prop ctx) ↦ node_from fuel structs node_depth (i + ctx.total_len) b next depth
      | some (nop ctx) ↦ node_from fuel structs node_depth (i + ctx.total_len) b next depth
      | some (end ctx) ↦ node_from fuel structs node_depth (i + ctx.total_len) b next depth
      | none ↦ ok none
    ] in
    if ltb i (length structs) then round else ok none

-- Every token has four bytes or more.
unfoldable pub node_from_index : List ℕ → (start node_depth : ℕ) → Outcome Hang (Option Node)
node_from_index structs start node_depth =
    node_from (length structs + 1) structs node_depth start none 0 node_depth

unfoldable pub root : List ℕ → Outcome Hang (Option Node)
root structs = node_from_index structs 0 0

-- What the iterator over the children gives, for as many rounds.
unfoldable pub children_from : ℕ → List ℕ → Node → ℕ → Outcome Hang (List Node)
children_from zero structs parent i = err out_of_fuel
children_from (suc fuel) structs parent i =
    node_from_index structs i (parent.depth + 1) >>= λ found. elim found [
      | none ↦ ok []
      | some child ↦ elim (encloses parent child) [
        | true ↦ children_from fuel structs parent (child.start + child.total_len) >>= λ rest.
            ok (child ∷ rest)
        | false ↦ ok []
      ]
    ]

unfoldable pub children : List ℕ → Node → Outcome Hang (List Node)
children structs parent = children_from (length structs + 1) structs parent parent.next_token_start
