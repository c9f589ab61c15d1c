-- ===== src/Demangle/Scan/Bounds.antt =====
-- aarch64/src/demangle.rs: the names that the loop reads lie in the symbol, and it ends.
use r9x.Prelude.{
  some_inj, ℕ, ◌+◌, ◌<◌, ◌≤◌, ◌≡◌, refl, ap, Bool, true, false, ◌&&◌, Option, none, some, List, [],
  ◌∷◌, length, length-append, Outcome, ok, err, panic, ◌==◌, ltb, if◌then◌else◌, arith, Post, All,
  All-append, Bool-cases, inl, inr,
}
use r9x.Demangle.{Missing, is_ascii_digit, read_name, read_crate_disamb}
use r9x.Demangle.Reads.{IsName, Anyhow, read_name-IsName, read_crate_disamb-moves}
use r9x.Demangle.Scan.{
  Progress, max_names, is_in, segments, namespaces, structural, or_break, add_name, name_at,
  crate_root, marked, behind_namespace, byte_in, segment, or_stay, opaque, dispatch,
}

-- At most 16 names, each in the symbol, and the generics start at one of them or behind the last.
pub record InBounds (bytes : List ℕ) (s : Progress) : Type 0 where
  pub inside : All (IsName bytes) s.names
  pub few : length s.names ≤ max_names
  pub generics : (g : ℕ) → s.gen_start ≡ some g → g ≤ length s.names

-- What a round comes to from the position `pos`: it moves on, or breaks.
abbrev pub Moves : List ℕ → ℕ → Outcome Progress Progress → Type 0
Moves bytes pos o = Post (λ s. (pos < s.pos) × InBounds bytes s) (InBounds bytes) (Unit {0}) o

module _ (bytes : List ℕ) (pos : ℕ) where
  or_break-Moves {ℓ} :
      {A : Type ℓ} {P : A → Type 0} (s : Progress) (o : Outcome Missing A)
      (next : A → Outcome Progress Progress)
      → InBounds bytes s
      → Anyhow P o
      → ((a : A) → P a → Moves bytes pos (next a))
      → Moves bytes pos (or_break s o next)
  or_break-Moves s (ok a) next v h k = k a h.holds
  or_break-Moves s (err e) next v h k = record { holds = v }
  or_break-Moves s panic next v h k = record { holds = tt }

  -- A name is added where there is room.
  added :
      (s t : Progress) (p : ℕ)
      → InBounds bytes s
      → InBounds bytes t
      → length t.names < max_names
      → pos ≤ p
      → Moves bytes pos (or_break s (read_name bytes p) (add_name t))
  added s t p v w room le =
      or_break-Moves s (read_name bytes p) (add_name t) v (read_name-IsName bytes p) (λ r h.
        record {
          holds = (
            omega (arith, h.1, h.2),
            record {
              inside = All-append (IsName bytes) t.names (r.0 ∷ []) w.inside (h.0, tt);
              few = omega (arith, length-append t.names (r.0 ∷ []));
              generics = λ g e. omega (arith, length-append t.names (r.0 ∷ []), w.generics g e);
            },
          );
        })

  name_at-Moves :
      (s : Progress) (p : ℕ)
      → InBounds bytes s
      → length s.names < max_names
      → pos ≤ p
      → Moves bytes pos (name_at bytes s p)
  unfolding name_at
  name_at-Moves s p v room le = added s s p v v room le

  crate_root-Moves :
      (s : Progress)
      → s.pos ≡ pos
      → InBounds bytes s
      → length s.names < max_names
      → Moves bytes pos (crate_root bytes s)
  unfolding crate_root
  crate_root-Moves s here v room =
      or_break-Moves s (read_crate_disamb bytes (s.pos + 1)) _ v
        (read_crate_disamb-moves bytes (s.pos + 1))
        (λ p h.
          added s (record s { past_crate = true }) p v
            (record { inside = v.inside; few = v.few; generics = v.generics }) room
            (omega (arith, h, here)))

  segment-Moves :
      (s : Progress) (p : ℕ)
      → InBounds bytes s
      → length s.names < max_names
      → pos < p
      → Moves bytes pos (segment bytes s p)
  unfolding segment
  segment-Moves s p v room lt = elim (Bool-cases (byte_in bytes p structural)) [
    | inl e ↦
        rw (segment, e)
          (record {
            holds = (lt, record { inside = v.inside; few = v.few; generics = v.generics });
          })
    | inr e ↦ elim (Bool-cases (byte_in bytes p (b'C' ∷ []))) [
      | inl f ↦
          rw (segment, e, f)
            (or_break-Moves s (read_crate_disamb bytes (p + 1)) _ v
              (read_crate_disamb-moves bytes (p + 1))
              (λ q h. name_at-Moves s q v room (omega (arith, h, lt))))
      | inr f ↦ elim (Bool-cases (byte_in bytes p (b'v' ∷ []))) [
        | inl g ↦ rw (segment, e, f, g) (name_at-Moves s (p + 1) v room (omega (arith, lt)))
        | inr g ↦ rw (segment, e, f, g) (name_at-Moves s p v room (omega (arith, lt)))
      ]
    ]
  ]

  marked-InBounds : (s : Progress) → InBounds bytes s → InBounds bytes (marked s s.gen_start)
  marked-InBounds s v = go s.gen_start
    where
      go : (g : Option ℕ) → InBounds bytes (marked s g)
      go (some g) = v
      go none = elim (Bool-cases (s.past_crate && ltb 0 (length s.names))) [
        | inl e ↦ rw e (record {
          inside = v.inside;
          few = v.few;
          generics = λ g h. ground (arith, some_inj _ refl h);
        })
        | inr e ↦ rw e v
      ]

  or_stay-Moves :
      (s : Progress) (p : ℕ) (o : Outcome Missing ℕ)
      → InBounds bytes s
      → pos < p
      → Anyhow (λ q. p < q) o
      → Moves bytes pos (or_stay s p o)
  or_stay-Moves s p (ok q) v lt h = record {
    holds = (
      omega (arith, lt, h.holds),
      record { inside = v.inside; few = v.few; generics = v.generics },
    );
  }
  or_stay-Moves s p (err e) v lt h = record {
    holds = (lt, record { inside = v.inside; few = v.few; generics = v.generics });
  }
  or_stay-Moves s p panic v lt h = record { holds = tt }

  moved :
      (s : Progress) (p : ℕ)
      → InBounds bytes s
      → pos < p
      → Moves bytes pos (ok (record s { pos = p }))
  moved s p v lt = record {
    holds = (lt, record { inside = v.inside; few = v.few; generics = v.generics });
  }

  opaque-Moves : (s : Progress) → s.pos ≡ pos → InBounds bytes s → Moves bytes pos (opaque bytes s)
  unfolding opaque
  opaque-Moves s here v = elim (Bool-cases (byte_in bytes (s.pos + 1) (b'C' ∷ []))) [
    | inl e ↦
        rw (opaque, e)
          (or_stay-Moves s (s.pos + 1) (read_crate_disamb bytes (s.pos + 1)) v (omega (arith, here))
            (read_crate_disamb-moves bytes (s.pos + 1)))
    | inr e ↦ rw (opaque, e) (moved s (s.pos + 1) v (omega (arith, here)))
  ]

  marked_same : (s : Progress) (g : Option ℕ) → (marked s g).names ≡ s.names
  marked_same s (some g) = refl
  marked_same s none = elim (Bool-cases (s.past_crate && ltb 0 (length s.names))) [
    | inl e ↦ rw e refl
    | inr e ↦ rw e refl
  ]

  pub dispatch-Moves :
      (s : Progress) (c : ℕ)
      → s.pos ≡ pos
      → InBounds bytes s
      → length s.names < max_names
      → Moves bytes pos (dispatch bytes s c)
  unfolding dispatch
  dispatch-Moves s c here v room = elim (Bool-cases (c == b'C')) [
    | inl e ↦ rw (dispatch, e) (crate_root-Moves s here v room)
    | inr e ↦ elim (Bool-cases (is_in c segments)) [
      | inl f ↦
          rw (dispatch, e, f)
            (segment-Moves (marked s s.gen_start) (behind_namespace bytes (s.pos + 1))
              (marked-InBounds s v) (omega (arith, ap length (marked_same s s.gen_start)))
              (past (byte_in bytes (s.pos + 1) namespaces)))
      | inr f ↦ elim (Bool-cases (c == b'B')) [
        | inl g ↦ rw (dispatch, e, f, g) (opaque-Moves s here v)
        | inr g ↦ elim (Bool-cases (is_in c (b'E' ∷ namespaces))) [
          | inl h ↦ rw (dispatch, e, f, g, h) (moved s (s.pos + 1) v (omega (arith, here)))
          | inr h ↦ elim (Bool-cases (is_ascii_digit c)) [
            | inl k ↦
                rw (dispatch, e, f, g, h, k) (name_at-Moves s s.pos v room (omega (arith, here)))
            | inr k ↦ rw (dispatch, e, f, g, h, k) (record { holds = v })
          ]
        ]
      ]
    ]
  ]
    where
      past : (b : Bool) → pos < (if b then s.pos + 1 + 1 else s.pos + 1)
      past true = omega (arith, here)
      past false = omega (arith, here)
