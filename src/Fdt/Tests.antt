-- ===== src/Fdt/Tests.antt =====
-- core/src/fdt.rs: a small tree, and the theorems at it.
use r9x.Prelude.{ℕ, ◌≡◌, refl, some, List, [], ◌∷◌, ok, take, drop, arith}
use r9x.Fdt
use r9x.Fdt.{Node, Hang, FdtBeginNodeContext, FdtToken, node_from_index, children, root}
use r9x.Fdt.Values
use r9x.Fdt.Values.{Property, properties, property_value_as_u32_iter}
use r9x.Fdt.Extent.{Finds, IsWithin, node_from_index-Finds}
use r9x.Fdt.Nesting.{Nested, node, done, property, child, node_at, node_from_index-Nested}
use r9x.Fdt.Words.{words, u32_iter-words}

-- A root with a property of two cells and a child "ab".
abbrev blob : List ℕ
blob =
    0 ∷ 0 ∷ 0 ∷ 1 ∷ 0 ∷ 0 ∷ 0 ∷ 0 ∷ 0 ∷ 0 ∷ 0 ∷ 3 ∷ 0 ∷ 0 ∷ 0 ∷ 8 ∷ 0 ∷ 0 ∷ 0 ∷ 5 ∷ 0 ∷ 0 ∷ 1 ∷ 0
    ∷ 0 ∷ 0 ∷ 0 ∷ 7 ∷ 0 ∷ 0 ∷ 0 ∷ 1 ∷ 97 ∷ 98 ∷ 0 ∷ 0 ∷ 0 ∷ 0 ∷ 0 ∷ 2 ∷ 0 ∷ 0 ∷ 0 ∷ 2 ∷ 0 ∷ 0 ∷ 0
    ∷ 9 ∷ []

abbrev top : Node
top = record { start = 0; name_start = 4; next_token_start = 8; total_len = 44; depth = 0 }

abbrev kid : Node
kid = record { start = 28; name_start = 32; next_token_start = 36; total_len = 12; depth = 1 }

abbrev cells : Property
cells = record { start = 8; name_start = 5; value_start = 20; value_len = 8; total_len = 20 }

root_found : root blob ≡ ok (some top)
unfolding root node_from_index Fdt.node_from Fdt.node_between Fdt.parse_token Fdt.token_of
    Fdt.bytes_to Fdt.from_be_bytes Fdt.str_size Fdt.position_nul
root_found = refl

child_found : children blob top ≡ ok (kid ∷ [])
unfolding children Fdt.children_from Fdt.encloses node_from_index Fdt.node_from Fdt.node_between
    Fdt.parse_token Fdt.token_of Fdt.bytes_to Fdt.from_be_bytes Fdt.str_size Fdt.position_nul
child_found = refl

property_found : properties blob top ≡ ok (cells ∷ [])
unfolding properties Values.properties_from Values.property_of Fdt.parse_token Fdt.token_of
    Fdt.bytes_to Fdt.from_be_bytes Fdt.str_size Fdt.position_nul
property_found = refl

node_from_index-Finds_example : Finds (IsWithin blob 8 1) (node_from_index blob 8 1)
node_from_index-Finds_example = node_from_index-Finds blob 8 1

u32_iter-words_example : property_value_as_u32_iter blob cells ≡ ok (words (take 8 (drop 20 blob)))
u32_iter-words_example = u32_iter-words blob cells (omega arith)

abbrev root_token : FdtBeginNodeContext
root_token = record { start = 0; name_start = 4; total_len = 8 }

blob-Nested : Nested blob 0 44 5
unfolding Fdt.parse_token Fdt.token_of Fdt.bytes_to Fdt.from_be_bytes Fdt.str_size Fdt.position_nul
blob-Nested =
    node root_token refl
      (property refl
        (child
          (node (record { start = 28; name_start = 32; total_len = 8 }) refl
            (done {n = 0} refl refl) refl refl refl)
          (done {n = 0} refl refl) refl)
        refl)
      refl refl refl

node_from_index-Nested_example : node_from_index blob 0 0 ≡ ok (some (node_at 0 8 44 0))
unfolding Fdt.parse_token Fdt.token_of Fdt.bytes_to Fdt.from_be_bytes Fdt.str_size Fdt.position_nul
node_from_index-Nested_example = node_from_index-Nested blob 0 root_token refl blob-Nested
