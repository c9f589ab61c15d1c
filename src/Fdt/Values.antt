-- ===== src/Fdt/Values.antt =====
-- core/src/fdt.rs: properties and the numbers in their values.
use r9x.Prelude.{
  ℕ, zero, suc, ◌+◌, ◌-◌, ◌*◌, Option, none, some, List, [], ◌∷◌, Outcome, ok, err, ◌>>=◌, add_u64,
  sub_u64, length, take, drop, ltb, leb, ◌==◌, if◌then◌else◌, ◌&&◌, ◌||◌,
}
use r9x.Fdt.{
  bytes_to_u32, bytes_to_u64, FdtPropContext, prop, nop, parse_token, Node, Hang, out_of_fuel,
}
use r9x.Addr.{RegBlock}

pub record Property : Type 0 where
  pub start : ℕ
  pub name_start : ℕ
  pub value_start : ℕ
  pub value_len : ℕ
  pub total_len : ℕ

unfoldable pub property_of : FdtPropContext → Property
property_of ctx = record {
  start = ctx.start;
  name_start = ctx.name_start;
  value_start = ctx.value_start;
  value_len = ctx.value_len;
  total_len = ctx.total_len;
}

-- The properties of a node come before its children.
unfoldable pub properties_from : ℕ → List ℕ → (end_i i : ℕ) → Outcome Hang (List Property)
properties_from zero structs end_i i = err out_of_fuel
properties_from (suc fuel) structs end_i i =
    let round : Outcome Hang (List Property) = elim (parse_token structs i) [
      | some (prop ctx) ↦ properties_from fuel structs end_i (i + ctx.total_len) >>= λ rest.
          ok (property_of ctx ∷ rest)
      | some (nop ctx) ↦ properties_from fuel structs end_i (i + ctx.total_len)
      | _ ↦ ok []
    ] in
    if ltb i end_i then round else ok []

unfoldable pub properties : List ℕ → Node → Outcome Hang (List Property)
properties structs node =
    properties_from (length structs + 1) structs (node.start + node.total_len) node.next_token_start

-- `structs.get(start..end)`
unfoldable pub slice : List ℕ → ℕ → ℕ → Option (List ℕ)
slice structs start stop =
    if ltb stop start || ltb (length structs) stop
    then none
    else some (take (stop - start) (drop start structs))

unfoldable pub property_value_bytes : List ℕ → Property → Option (List ℕ)
property_value_bytes structs p = slice structs p.value_start (p.value_start + p.value_len)

abbrev pub and_then {ℓ κ} : {A : Type ℓ} {B : Type κ} → Option A → (A → Option B) → Option B
and_then none f = none
and_then (some a) f = f a

unfoldable pub property_value_as_u32 : List ℕ → Property → Option ℕ
property_value_as_u32 structs p =
    and_then (slice structs p.value_start (p.value_start + p.value_len)) bytes_to_u32

-- The items up to the first that is none, and in as many rounds.
unfoldable pub u32s_from : ℕ → List ℕ → (value_end value_i : ℕ) → Outcome Hang (List ℕ)
u32s_from zero structs value_end value_i = err out_of_fuel
u32s_from (suc fuel) structs value_end value_i =
    let rest = u32s_from fuel structs value_end (value_i + 4) in
    sub_u64 value_end value_i >>= λ remaining.
    if ltb remaining 4
    then ok []
    else elim (and_then (slice structs value_i (value_i + 4)) bytes_to_u32) [
      | none ↦ ok []
      | some n ↦ rest >>= λ ns. ok (n ∷ ns)
    ]

unfoldable pub property_value_as_u32_iter : List ℕ → Property → Outcome Hang (List ℕ)
property_value_as_u32_iter structs p =
    u32s_from (p.value_len + 1) structs (p.value_start + p.value_len) p.value_start

unfoldable pub consume_cells : List ℕ → (value_i num_cells : ℕ) → Option ℕ
consume_cells structs value_i num_cells =
    and_then (slice structs value_i (value_i + num_cells * 4))
      (if num_cells == 1 then bytes_to_u32 else bytes_to_u64)

-- The blocks of a `reg`, by the cells of an address and of a size; a size of no cells is no length.
unfoldable pub regs_from :
    ℕ → List ℕ → (address_cells size_cells value_end value_i : ℕ) → Outcome Hang (List RegBlock)
regs_from zero structs address_cells size_cells value_end value_i = err out_of_fuel
regs_from (suc fuel) structs address_cells size_cells value_end value_i =
    let address_size = address_cells * 4 in
    let len_size = size_cells * 4 in
    let rest =
      regs_from fuel structs address_cells size_cells value_end
        (value_i + address_size + len_size) in
    let len =
      if ltb 0 size_cells
      then consume_cells structs (value_i + address_size) size_cells
      else none in
    let round = sub_u64 value_end value_i >>= λ remaining.
    if ltb remaining (address_size + len_size)
    then ok []
    else elim (consume_cells structs value_i address_cells) [
      | none ↦ ok []
      | some addr ↦ rest >>= λ rs. ok (record { addr = addr; len = len } ∷ rs)
    ] in
    if address_cells == 0 || (ltb 2 address_cells || ltb 2 size_cells) then ok [] else round

pub record RangeMapping : Type 0 where
  pub child_bus_addr : ℕ
  pub parent_bus_addr : ℕ
  pub len : ℕ

pub data Range : Type 0 where
  identity : Range
  translated : RangeMapping → Range

unfoldable pub translate : Range → RegBlock → Outcome Hang (Option RegBlock)
translate identity r = ok (some r)
translate (translated map) r = do
  stop ← (if leb map.child_bus_addr r.addr then add_u64 map.child_bus_addr map.len else ok 0)
  addr ←
      (if leb map.child_bus_addr r.addr && ltb r.addr stop
        then add_u64 (r.addr - map.child_bus_addr) map.parent_bus_addr
        else ok 0)
  ok (
      if leb map.child_bus_addr r.addr && ltb r.addr stop
      then some (record r { addr = addr })
      else none)
