-- ===== src/BindTable.antt =====
-- cmd/nameserver/src/bind_table.rs: the nameserver's table of names and channel pairs. A name is the
-- list of its bytes.
pub mod Matching
pub mod Laws
mod Tests
use r9x.Prelude.{
  ℕ, zero, suc, ◌%◌, min, Bool, true, false, ◌&&◌, Option, none, some, List, [], ◌∷◌, ◌++◌, length,
  take, drop, replicate, ◌==◌, if◌then◌else◌,
}

pub record Pair : Type 0 where
  pub in_h : ℕ
  pub out_h : ℕ

-- The result codes `R_OK`, `R_ENOENT` and `R_EFULL`.
pub data Code : Type 0 where
  r_ok r_enoent r_efull : Code

abbrev pub name_max : ℕ
name_max = 32

abbrev pub nent : ℕ
nent = 8

pub record Entry : Type 0 where
  pub name : List ℕ
  pub namelen : ℕ
  pub pair : Pair
  pub used : Bool

abbrev pub empty_entry : Entry
empty_entry = record {
  name = replicate name_max 0;
  namelen = 0;
  pair = record { in_h = 0; out_h = 0 };
  used = false;
}

-- Equality of slices of bytes.
unfoldable pub same_bytes : List ℕ → List ℕ → Bool
same_bytes [] [] = true
same_bytes [] (y ∷ ys) = false
same_bytes (x ∷ xs) [] = false
same_bytes (x ∷ xs) (y ∷ ys) = x == y && same_bytes xs ys

-- `Entry::matches`
unfoldable pub matches : Entry → List ℕ → Bool
matches e name = e.used && (e.namelen == length name && same_bytes (take (length name) e.name) name)

pub record BindTable : Type 0 where
  pub entries : List Entry

unfoldable pub new : BindTable
new = record { entries = replicate nent empty_entry }

-- The test of `bind` for an entry of the name, cut to `namelen` bytes.
unfoldable pub is_bound : Entry → ℕ → List ℕ → Bool
is_bound e namelen name =
    e.used && (e.namelen == namelen && same_bytes (take namelen e.name) (take namelen name))

abbrev pub behind : Entry → Option (List Entry) → Option (List Entry)
behind e none = none
behind e (some es) = some (e ∷ es)

-- The first loop of `bind`: the entries with the pair replaced, if one is bound to the name.
unfoldable pub replace : ℕ → List ℕ → Pair → List Entry → Option (List Entry)
replace namelen name pair [] = none
replace namelen name pair (e ∷ es) =
    let rest = replace namelen name pair es in
    if is_bound e namelen name then some (record e { pair = pair } ∷ es) else behind e rest

-- The bytes of the old name behind the new one stay.
abbrev pub taking : ℕ → List ℕ → Pair → Entry → Entry
taking namelen name pair e = record {
  name = take namelen name ++ drop namelen e.name;
  namelen = namelen % 256;
  pair = pair;
  used = true;
}

-- The second loop of `bind`: the entries with the first free one taken, if there is one.
unfoldable pub take_free : ℕ → List ℕ → Pair → List Entry → Option (List Entry)
take_free namelen name pair [] = none
take_free namelen name pair (e ∷ es) =
    let rest = take_free namelen name pair es in
    if e.used then behind e rest else some (taking namelen name pair e ∷ es)

abbrev bind_free : BindTable → Option (List Entry) → Code × BindTable
bind_free t none = (r_efull, t)
bind_free t (some es) = (r_ok, record { entries = es })

abbrev bind_entries : BindTable → Option (List Entry) → Option (List Entry) → Code × BindTable
bind_entries t none free = bind_free t free
bind_entries t (some es) free = (r_ok, record { entries = es })

unfoldable pub bind : BindTable → List ℕ → Pair → Code × BindTable
bind t name pair =
    let namelen = min (length name) name_max in
    bind_entries t (replace namelen name pair t.entries) (take_free namelen name pair t.entries)

-- `iter().find(...).map(|e| e.pair)`
unfoldable pub find_pair : List ℕ → List Entry → Option Pair
find_pair name [] = none
find_pair name (e ∷ es) =
    let rest = find_pair name es in if matches e name then some e.pair else rest

abbrev pub resolve : BindTable → List ℕ → Option Pair
resolve t name = find_pair name t.entries

unfoldable pub clear : List ℕ → List Entry → Option (List Entry)
clear name [] = none
clear name (e ∷ es) =
    let rest = clear name es in
    if matches e name then some (record e { used = false } ∷ es) else behind e rest

abbrev unbind_entries : BindTable → Option (List Entry) → Code × BindTable
unbind_entries t none = (r_enoent, t)
unbind_entries t (some es) = (r_ok, record { entries = es })

unfoldable pub unbind : BindTable → List ℕ → Code × BindTable
unbind t name = unbind_entries t (clear name t.entries)
