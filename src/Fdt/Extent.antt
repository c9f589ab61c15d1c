-- ===== src/Fdt/Extent.antt =====
-- core/src/fdt.rs: the extent of a node that `node_from_index` finds.
use r9x.Prelude.{
  ℕ, zero, suc, ◌+◌, ◌-◌, ◌≤◌, ◌<◌, ◌≡◌, refl, sym, ◌∙◌, true, false, Option, none, some, List,
  Outcome, ok, panic, length, length-drop, drop, take, ltb, ◌==◌, arith, Bool-cases, Option-cases,
  inl, inr,
}
use r9x.Fdt.{
  bytes_to, from_be_bytes, FdtTokenContext, FdtBeginNodeContext, FdtToken, begin_node, end_node,
  prop, nop, end, token_of, parse_token, Node, Hang, node_between, node_from, node_from_index,
}

-- What is known of a token that is read at an index.
abbrev pub At : ℕ → FdtToken → Type 0
At i (begin_node c) = (c.start ≡ i) × (c.name_start ≡ i + 4) × (4 ≤ c.total_len)
At i (end_node c) = (c.start ≡ i) × (c.total_len ≡ 4)
At i (prop c) = (c.start ≡ i) × (4 ≤ c.total_len)
At i (nop c) = (c.start ≡ i) × (c.total_len ≡ 4)
At i (end c) = (c.start ≡ i) × (c.total_len ≡ 4)

token_of-At :
    (structs : List ℕ) (i t : ℕ) (tok : FdtToken) → token_of structs i t ≡ some tok → At i tok
unfolding token_of
token_of-At structs i t (begin_node c) e = ground arith
token_of-At structs i t (end_node c) e = ground arith
token_of-At structs i t (prop c) e = ground arith
token_of-At structs i t (nop c) e = ground arith
token_of-At structs i t (end c) e = ground arith

-- A token has its first four bytes.
pub parse_token-At :
    (structs : List ℕ) (i : ℕ) {tok : FdtToken}
    → parse_token structs i ≡ some tok
    → At i tok × (i + 4 ≤ length structs)
unfolding parse_token bytes_to
parse_token-At structs i {tok} e = elim (Bool-cases (ltb (length (drop i structs)) 4)) [
  | inl few ↦ absurd (nothing few)
  | inr enough ↦ (
    token_of-At structs i (from_be_bytes 0 (take 4 (drop i structs))) tok
        (sym (rw (parse_token, bytes_to, enough) refl) ∙ e),
    room enough,
  )
]
  where
    nothing : ltb (length (drop i structs)) 4 ≡ true → ⊥
    nothing few = clash (parse_token structs i) e (rw (parse_token, bytes_to, few) refl)
      where
        clash : (o : Option FdtToken) → o ≡ some tok → o ≡ none → ⊥
        clash o p r = cc

    room : ltb (length (drop i structs)) 4 ≡ false → i + 4 ≤ length structs
    room enough = ground (arith, enough, length-drop i structs)

-- A node in the structure block, of a depth and not before an index.
pub record IsWithin (structs : List ℕ) (start depth : ℕ) (n : Node) : Type 0 where
  pub starts : start ≤ n.start
  pub named : n.name_start ≡ n.start + 4
  pub opened : n.name_start ≤ n.next_token_start
  pub closed : n.next_token_start + 4 ≤ n.start + n.total_len
  pub inside : n.start + n.total_len ≤ length structs
  pub level : n.depth ≡ depth

-- What a search for a node comes to.
pub data Finds (P : Node → Type 0) (o : Outcome Hang (Option Node)) : Type 0 where
  panics : o ≡ panic → Finds P o
  nothing : o ≡ ok none → Finds P o
  found : (n : Node) → o ≡ ok (some n) → P n → Finds P o

-- What is known of the start of the node, once it is read.
abbrev Begun : ℕ → Option FdtBeginNodeContext → (next i : ℕ) → Type 0
Begun start none next i = Unit {0}
Begun start (some c) next i =
    (start ≤ c.start) × (c.name_start ≡ c.start + 4) × (c.name_start ≤ next) × (next ≤ i)

Begun-later :
    (start : ℕ) (b : Option FdtBeginNodeContext) (next i j : ℕ)
    → i ≤ j
    → Begun start b next i
    → Begun start b next j
Begun-later start none next i j le h = tt
Begun-later start (some c) next i j le h = (h.0, h.1, h.2, omega (arith, h.3, le))

module _ (structs : List ℕ) (start node_depth : ℕ) where
  node_between-Finds :
      (b : Option FdtBeginNodeContext) (ctx : FdtTokenContext) (next i : ℕ)
      → Begun start b next i
      → At i (end_node ctx)
      → i + 4 ≤ length structs
      → Finds (IsWithin structs start node_depth) (node_between b ctx next node_depth)
  unfolding node_between
  node_between-Finds none ctx next i begun at room = nothing refl
  node_between-Finds (some c) ctx next i begun at room =
      let above : ltb (ctx.start + ctx.total_len) c.start ≡ false = ground (arith, begun, at) in
      found
        (record {
          start = c.start;
          name_start = c.name_start;
          next_token_start = next;
          total_len = ctx.start + ctx.total_len - c.start;
          depth = node_depth;
        })
        (rw above refl)
        (record {
          starts = begun.0;
          named = begun.1;
          opened = begun.2;
          closed = omega (arith, begun, at);
          inside = omega (arith, begun, at, room);
          level = refl;
        })

  -- A round, given what the rounds after it come to.
  round-Finds :
      (fuel i : ℕ) (b : Option FdtBeginNodeContext) (next depth : ℕ) (t : FdtToken)
      → ltb i (length structs) ≡ true
      → start ≤ i
      → Begun start b next i
      → parse_token structs i ≡ some t
      → ((j : ℕ) (b' : Option FdtBeginNodeContext) (next' depth' : ℕ)
          → i + 4 ≤ j
          → Begun start b' next' j
          → Finds
              (IsWithin structs start node_depth)
              (node_from fuel structs node_depth j b' next' depth'))
      → Finds
          (IsWithin structs start node_depth)
          (node_from (suc fuel) structs node_depth i b next depth)
  unfolding node_from
  round-Finds fuel i b next depth (begin_node c) inside from begun e again =
      let at = (parse_token-At structs i e).0 in
      rw (node_from, inside, e)
        (elim (Bool-cases (depth == node_depth)) [
          | inl here ↦ rw here (
              again (i + c.total_len) (some c) (i + c.total_len) (depth + 1) (omega (arith, at))
                (omega (arith, from, at), omega (arith, at), omega (arith, at), omega arith))
          | inr deeper ↦ rw deeper (
              again (i + c.total_len) b next (depth + 1) (omega (arith, at))
                (Begun-later start b next i (i + c.total_len) (omega arith) begun))
        ])
  round-Finds fuel i b next depth (end_node c) inside from begun e again =
      let at = parse_token-At structs i e in
      elim (Bool-cases (ltb depth 1)) [
        | inl none_open ↦ panics (rw (node_from, inside, e, none_open) refl)
        | inr some_open ↦
            let closing : Finds (IsWithin structs start node_depth)
                (elim (depth - 1 == node_depth) [
                  | true ↦ node_between b c next node_depth
                  | false ↦ node_from fuel structs node_depth (i + c.total_len) b next (depth - 1)
                ]) =
              elim (Bool-cases (depth - 1 == node_depth)) [
                | inl here ↦ rw here (node_between-Finds b c next i begun at.0 at.1)
                | inr deeper ↦ rw deeper (
                    again (i + c.total_len) b next (depth - 1) (omega (arith, at))
                      (Begun-later start b next i (i + c.total_len) (omega arith) begun))
              ] in
            rw (node_from, inside, e, some_open) closing
      ]
  round-Finds fuel i b next depth (prop c) inside from begun e again =
      rw (node_from, inside, e)
        (again (i + c.total_len) b next depth (omega (arith, (parse_token-At structs i e).0))
          (Begun-later start b next i (i + c.total_len) (omega arith) begun))
  round-Finds fuel i b next depth (nop c) inside from begun e again =
      rw (node_from, inside, e)
        (again (i + c.total_len) b next depth (omega (arith, (parse_token-At structs i e).0))
          (Begun-later start b next i (i + c.total_len) (omega arith) begun))
  round-Finds fuel i b next depth (end c) inside from begun e again =
      rw (node_from, inside, e)
        (again (i + c.total_len) b next depth (omega (arith, (parse_token-At structs i e).0))
          (Begun-later start b next i (i + c.total_len) (omega arith) begun))

  node_from-Finds :
      (fuel i : ℕ) (b : Option FdtBeginNodeContext) (next depth : ℕ)
      → length structs - i < fuel
      → start ≤ i
      → Begun start b next i
      → Finds (IsWithin structs start node_depth) (node_from fuel structs node_depth i b next depth)
  unfolding node_from
  node_from-Finds zero i b next depth enough from begun = absurd (omega (arith, enough))
  node_from-Finds (suc fuel) i b next depth enough from begun =
      elim (Bool-cases (ltb i (length structs))) [
        | inr over ↦ nothing (rw (node_from, over) refl)
        | inl inside ↦ elim (Option-cases (parse_token structs i)) [
          | inl none_read ↦ nothing (rw (node_from, inside, none_read) refl)
          | inr read ↦
              round-Finds fuel i b next depth read.0 inside from begun read.1
                (λ j b' next' depth' le begun'.
                  node_from-Finds fuel j b' next' depth'
                    (omega (arith, enough, le, (parse_token-At structs i read.1).1))
                    (omega (arith, from, le)) begun')
        ]
      ]

-- For any bytes, any index and any depth, `node_from_index` does not run out of fuel: it panics,
-- finds nothing, or finds a node of that depth that starts at the index or later, with its name
-- four bytes on, the token behind its first one at or behind the name, and a token of its end
-- behind that one, and that ends inside the bytes.
pub node_from_index-Finds :
    (structs : List ℕ) (start node_depth : ℕ)
    → Finds (IsWithin structs start node_depth) (node_from_index structs start node_depth)
unfolding node_from_index
node_from_index-Finds structs start node_depth =
    node_from-Finds structs start node_depth (length structs + 1) start none 0 node_depth
      (omega arith) (omega arith) tt
