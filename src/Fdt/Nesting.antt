-- ===== src/Fdt/Nesting.antt =====
-- core/src/fdt.rs: a node whose tokens are well nested is found from its first token to its last.
use r9x.Prelude.{
  ℕ, zero, suc, ◌+◌, ◌-◌, ◌*◌, ◌≤◌, ◌<◌, ◌≡◌, refl, sym, ap, ◌∙◌, true, false, Option, none, some,
  List, Outcome, ok, length, ltb, ◌==◌, arith,
}
use r9x.Fdt.{
  FdtTokenContext, FdtBeginNodeContext, FdtPropContext, FdtToken, begin_node, end_node, prop, nop,
  parse_token, Node, Hang, node_between, node_from, node_from_index,
}
use r9x.Fdt.Extent.{parse_token-At}

-- The tokens of a node from an index to another, and those between its first and its last, with
-- their number.
mutual
  pub data Nested (structs : List ℕ) : (i j n : ℕ) → Type 0 where
    node :
        {i j k m n : ℕ} {e : FdtTokenContext} (c : FdtBeginNodeContext)
        → parse_token structs i ≡ some (begin_node c)
        → Body structs (i + c.total_len) k m
        → parse_token structs k ≡ some (end_node e)
        → j ≡ k + 4
        → n ≡ m + 2
        → Nested structs i j n

  pub data Body (structs : List ℕ) : (i j n : ℕ) → Type 0 where
    done : {i j n : ℕ} → i ≡ j → n ≡ 0 → Body structs i j n
    property :
        {i j m n : ℕ} {c : FdtPropContext}
        → parse_token structs i ≡ some (prop c)
        → Body structs (i + c.total_len) j m
        → n ≡ m + 1
        → Body structs i j n
    ignored :
        {i j m n : ℕ} {c : FdtTokenContext}
        → parse_token structs i ≡ some (nop c)
        → Body structs (i + c.total_len) j m
        → n ≡ m + 1
        → Body structs i j n
    child :
        {i j k m m' n : ℕ}
        → Nested structs i k m
        → Body structs k j m'
        → n ≡ m + m'
        → Body structs i j n

-- Every token has four bytes or more, in the structure block.
mutual
  Nested-room :
      {structs : List ℕ} {i j n : ℕ} → Nested structs i j n → (i + 4 * n ≤ j) × (j ≤ length structs)
  Nested-room {structs} {i} (node {k = k} c b body e j n) =
      let first = parse_token-At structs i b in
      let last = parse_token-At structs k e in
      (omega (arith, first, Body-room body, j, n), omega (arith, last, j))

  Body-room : {structs : List ℕ} {i j n : ℕ} → Body structs i j n → i + 4 * n ≤ j
  Body-room (done e n) = omega (arith, e, n)
  Body-room {structs} {i} (property p rest n) =
      omega (arith, parse_token-At structs i p, Body-room rest, n)
  Body-room {structs} {i} (ignored p rest n) =
      omega (arith, parse_token-At structs i p, Body-room rest, n)
  Body-room (child first rest n) = omega (arith, Nested-room first, Body-room rest, n)

module _ (structs : List ℕ) (node_depth : ℕ) where
  inside : (i : ℕ) → i + 4 ≤ length structs → ltb i (length structs) ≡ true
  inside i h = ground arith

  module _ (b : Option FdtBeginNodeContext) (next : ℕ) where
    abbrev at_index : ℕ → ℕ → ℕ → Outcome Hang (Option Node)
    at_index fuel i depth = node_from fuel structs node_depth i b next depth

    opens :
        (f i depth : ℕ) (c : FdtBeginNodeContext)
        → parse_token structs i ≡ some (begin_node c)
        → node_depth < depth
        → at_index (suc f) i depth ≡ at_index f (i + c.total_len) (depth + 1)
    unfolding node_from
    opens f i depth c e deep =
        let other : (depth == node_depth) ≡ false = ground (arith, deep) in
        rw (node_from, inside i (parse_token-At structs i e).1, e, other) refl

    closes :
        (f i depth : ℕ) (c : FdtTokenContext)
        → parse_token structs i ≡ some (end_node c)
        → node_depth + 1 < depth
        → at_index (suc f) i depth ≡ at_index f (i + 4) (depth - 1)
    unfolding node_from
    closes f i depth c e deep =
        let some_open : ltb depth 1 ≡ false = ground (arith, deep) in
        let other : (depth - 1 == node_depth) ≡ false = ground (arith, deep) in
        let back : (elim (depth - 1 == node_depth) [
          | true ↦ node_between b c next node_depth
          | false ↦ at_index f (i + c.total_len) (depth - 1)
        ])
            ≡ at_index f (i + c.total_len) (depth - 1) =
          rw other refl in
        rw (node_from, inside i (parse_token-At structs i e).1, e, some_open) back
        ∙ ap (λ n. at_index f (i + n) (depth - 1)) (parse_token-At structs i e).0.1

    passes_prop :
        (f i depth : ℕ) (c : FdtPropContext)
        → parse_token structs i ≡ some (prop c)
        → at_index (suc f) i depth ≡ at_index f (i + c.total_len) depth
    unfolding node_from
    passes_prop f i depth c e = rw (node_from, inside i (parse_token-At structs i e).1, e) refl

    passes_nop :
        (f i depth : ℕ) (c : FdtTokenContext)
        → parse_token structs i ≡ some (nop c)
        → at_index (suc f) i depth ≡ at_index f (i + c.total_len) depth
    unfolding node_from
    passes_nop f i depth c e = rw (node_from, inside i (parse_token-At structs i e).1, e) refl

    -- A nested node, and what stands in one, are passed over at the depth that they are met at.
    mutual
      skip-Nested :
          {i j n : ℕ} (t : Nested structs i j n) (f g depth : ℕ)
          → f ≡ n + g
          → node_depth < depth
          → at_index f i depth ≡ at_index g j depth
      skip-Nested (node {m = m} c b body e j n) zero g depth fuel deep =
          absurd (omega (arith, fuel, n))
      skip-Nested {i} (node {k = k} {m = m} c b body e j n) (suc f) g depth fuel deep =
          opens f i depth c b deep
          ∙ skip-Body body f (suc g) (depth + 1) (omega (arith, fuel, n)) (omega (arith, deep))
          ∙ closes g k (depth + 1) _ e (omega (arith, deep))
          ∙ ap (λ d. at_index g (k + 4) d) (omega arith)
          ∙ ap (λ x. at_index g x depth) (sym j)

      skip-Body :
          {i j n : ℕ} (t : Body structs i j n) (f g depth : ℕ)
          → f ≡ n + g
          → node_depth < depth
          → at_index f i depth ≡ at_index g j depth
      skip-Body {i} (done e n) f g depth fuel deep =
          ap (λ x. at_index x i depth) (omega (arith, fuel, n)) ∙ ap (λ x. at_index g x depth) e
      skip-Body (property p rest n) zero g depth fuel deep = absurd (omega (arith, fuel, n))
      skip-Body {i} (property p rest n) (suc f) g depth fuel deep =
          passes_prop f i depth _ p ∙ skip-Body rest f g depth (omega (arith, fuel, n)) deep
      skip-Body (ignored p rest n) zero g depth fuel deep = absurd (omega (arith, fuel, n))
      skip-Body {i} (ignored p rest n) (suc f) g depth fuel deep =
          passes_nop f i depth _ p ∙ skip-Body rest f g depth (omega (arith, fuel, n)) deep
      skip-Body (child {m = m} {m' = m'} first rest n) f g depth fuel deep =
          skip-Nested first f (m' + g) depth (omega (arith, fuel, n)) deep
          ∙ skip-Body rest (m' + g) g depth refl deep

  -- The first token of the node, and the last.
  begins :
      (f i : ℕ) (c : FdtBeginNodeContext)
      → parse_token structs i ≡ some (begin_node c)
      → node_from (suc f) structs node_depth i none 0 node_depth
        ≡ node_from f structs node_depth
            (i + c.total_len)
            (some c)
            (i + c.total_len)
            (node_depth + 1)
  unfolding node_from
  begins f i c e =
      let here : (node_depth == node_depth) ≡ true = ground arith in
      rw (node_from, inside i (parse_token-At structs i e).1, e) (rw here refl)

  ends :
      (f k next : ℕ) (c : FdtBeginNodeContext) (e : FdtTokenContext)
      → parse_token structs k ≡ some (end_node e)
      → node_from (suc f) structs node_depth k (some c) next (node_depth + 1)
        ≡ node_between (some c) e next node_depth
  unfolding node_from
  ends f k next c e last =
      let some_open : ltb (node_depth + 1) 1 ≡ false = ground arith in
      let here : (node_depth + 1 - 1 == node_depth) ≡ true = ground arith in
      let back : (elim (node_depth + 1 - 1 == node_depth) [
        | true ↦ node_between (some c) e next node_depth
        | false ↦
            node_from f structs node_depth (k + e.total_len) (some c) next (node_depth + 1 - 1)
      ])
          ≡ node_between (some c) e next node_depth =
        rw here refl in
      rw (node_from, inside k (parse_token-At structs k last).1, last, some_open) back

  spans :
      (c : FdtBeginNodeContext) (e : FdtTokenContext) (next : ℕ)
      → c.start ≤ e.start
      → node_between (some c) e next node_depth
        ≡ ok (
            some (record {
              start = c.start;
              name_start = c.name_start;
              next_token_start = next;
              total_len = e.start + e.total_len - c.start;
              depth = node_depth;
            }))
  unfolding node_between
  spans c e next le =
      let above : ltb (e.start + e.total_len) c.start ≡ false = ground (arith, le) in
      rw (node_between, above) refl

-- What a node is, by its numbers.
abbrev pub node_at : (start next stop depth : ℕ) → Node
node_at start next stop depth = record {
  start = start;
  name_start = start + 4;
  next_token_start = next;
  total_len = stop - start;
  depth = depth;
}

same_node :
    (c : FdtBeginNodeContext) (e : FdtTokenContext) (i j next next' depth : ℕ)
    → c.start ≡ i
    → c.name_start ≡ i + 4
    → e.start + e.total_len ≡ j
    → next ≡ next'
    → (let n : Node = record {
      start = c.start;
      name_start = c.name_start;
      next_token_start = next;
      total_len = e.start + e.total_len - c.start;
      depth = depth;
    } in
        n)
      ≡ node_at i next' j depth
same_node c e i j next next' depth s m l n = ground arith

-- If the tokens from an index to another are those of a node, well nested, that is a token of the
-- start of a node, properties, tokens to ignore and nested nodes, and a token of the end, then
-- `node_from_index` finds, at any depth, the node that starts at the first index, has its name four
-- bytes on, goes on behind its first token, ends at the second index and has that depth.
pub node_from_index-Nested :
    (structs : List ℕ) (depth : ℕ) {i j n : ℕ} (c : FdtBeginNodeContext)
    → parse_token structs i ≡ some (begin_node c)
    → Nested structs i j n
    → node_from_index structs i depth ≡ ok (some (node_at i (i + c.total_len) j depth))
unfolding node_from_index
node_from_index-Nested structs depth {i} {j} {n} c first
      (node {k = k} {m = m} {e = e} c' b body last at_end tokens) =
    let opened = (parse_token-At structs i b).0 in
    let closed = (parse_token-At structs k last).0 in
    let room = Nested-room (node c' b body last at_end tokens) in
    let g = length structs - m - 1 in
    ap (λ f. node_from f structs depth i none 0 depth) (omega arith)
    ∙ begins structs depth (length structs) i c' b
    ∙ skip-Body structs depth (some c') (i + c'.total_len) body (length structs) (suc g) (depth + 1)
        (omega (arith, room, tokens)) (omega arith)
    ∙ ends structs depth g k (i + c'.total_len) c' e last
    ∙ spans structs depth c' e (i + c'.total_len) (omega (arith, opened, closed, Body-room body))
    ∙ ap (λ x. ok (some x))
        (same_node c' e i j (i + c'.total_len) (i + c.total_len) depth opened.0 opened.1
          (omega (arith, closed, at_end))
          (ap (λ (x : FdtBeginNodeContext). i + x.total_len) same_token))
  where
    same_token : c' ≡ c
    same_token = begin_node_inj (parse_token structs i) b first
      where
        begin_node_inj :
            (o : Option FdtToken) → o ≡ some (begin_node c') → o ≡ some (begin_node c) → c' ≡ c
        begin_node_inj o p r = cc
