-- ===== src/Demangle/Scan/Total.antt =====
-- aarch64/src/demangle.rs: the loop that reads the names ends.
use r9x.Prelude.{
  ℕ, zero, suc, ◌-◌, ◌<◌, ◌≡◌, refl, Option, none, some, List, [], ◌∷◌, length, get_elem?, Outcome,
  ok, err, panic, ◌==◌, arith, Post, Bool-cases, Option-cases, inl, inr,
}
use r9x.Demangle.Scan.{
  Progress, Scan, scanned, panics, out_of_fuel, max_names, dispatch, round, read_names, start,
}
use r9x.Demangle.Scan.Bounds.{InBounds, Moves, dispatch-Moves}

-- The loop ends with names that lie in the symbol, or in a panic.
abbrev pub Ends : List ℕ → Scan → Type 0
Ends bytes (scanned s) = InBounds bytes s
Ends bytes panics = Unit {0}
Ends bytes out_of_fuel = ⊥

get_elem?-inside : {c : ℕ} (bytes : List ℕ) (i : ℕ) → get_elem? bytes i ≡ some c → i < length bytes
get_elem?-inside [] i e = absurd (cc)
get_elem?-inside (x ∷ xs) zero e = omega arith
get_elem?-inside (x ∷ xs) (suc i) e = omega (arith, get_elem?-inside xs i e)

-- A round moves on inside the symbol, breaks or panics.
round-Moves :
    (bytes : List ℕ) (s : Progress)
    → InBounds bytes s
    → Post
        (λ t. (s.pos < t.pos) × (s.pos < length bytes) × InBounds bytes t)
        (InBounds bytes)
        (Unit {0})
        (round bytes s)
unfolding round
round-Moves bytes s v = elim (Option-cases (get_elem? bytes s.pos)) [
  | inl e ↦ rw (round, e) (record { holds = v })
  | inr (c, e) ↦ elim (Bool-cases (length s.names == max_names)) [
    | inl f ↦ rw (round, e, f) (record { holds = v })
    | inr f ↦
        rw (round, e, f)
          (inside (dispatch bytes s c) (get_elem?-inside bytes s.pos e)
            (dispatch-Moves bytes s.pos s c refl v (ground (arith, v.few))))
  ]
]
  where
    inside :
        (o : Outcome Progress Progress)
        → s.pos < length bytes
        → Moves bytes s.pos o
        → Post
            (λ t. (s.pos < t.pos) × (s.pos < length bytes) × InBounds bytes t)
            (InBounds bytes)
            (Unit {0})
            o
    inside (ok t) lt h = record { holds = (h.holds.0, lt, h.holds.1) }
    inside (err t) lt h = record { holds = h.holds }
    inside panic lt h = record { holds = tt }

-- The loop by what its first round comes to.
names_by :
    (fuel : ℕ) (bytes : List ℕ) (s : Progress) (o : Outcome Progress Progress)
    → round bytes s ≡ o
    → Post
        (λ t. (s.pos < t.pos) × (s.pos < length bytes) × InBounds bytes t)
        (InBounds bytes)
        (Unit {0})
        o
    → ((t : Progress)
        → s.pos < t.pos
        → s.pos < length bytes
        → InBounds bytes t
        → Ends bytes (read_names fuel bytes t))
    → Ends bytes (read_names (suc fuel) bytes s)
unfolding read_names
names_by fuel bytes s (ok t) e p again = rw (read_names, e) (again t p.holds.0 p.holds.1 p.holds.2)
names_by fuel bytes s (err t) e p again = rw (read_names, e) p.holds
names_by fuel bytes s panic e p again = rw (read_names, e) tt

-- From a state in bounds, with fuel for more rounds than bytes are left, the loop that reads the
-- names does not run out of fuel; unless it panics, it ends in a state in bounds: with at most 16
-- names, each of 1 to 255 letters, digits and underscores that lie in the symbol, and with the
-- generics starting at one of them or behind the last.
pub read_names-Ends :
    (fuel : ℕ) (bytes : List ℕ) (s : Progress)
    → InBounds bytes s
    → length bytes - s.pos < fuel
    → Ends bytes (read_names fuel bytes s)
read_names-Ends zero bytes s v h = absurd (omega arith)
read_names-Ends (suc fuel) bytes s v h =
    names_by fuel bytes s (round bytes s) refl (round-Moves bytes s v)
      (λ t on inside w. read_names-Ends fuel bytes t w (omega arith))

pub start-InBounds : (bytes : List ℕ) → InBounds bytes start
start-InBounds bytes = record {
  inside = tt;
  few = omega arith;
  generics = λ g e. absurd (clash none refl e);
}
  where
    clash : {g : ℕ} (o : Option ℕ) → o ≡ none → o ≡ some g → ⊥
    clash o a b = cc
