-- ===== src/BindTable/Matching.antt =====
-- cmd/nameserver/src/bind_table.rs: when an entry matches a name.
use r9x.Prelude.{
  take_all, take-append, ℕ, ◌%◌, ◌≤◌, ◌≡◌, ◌≢◌, refl, sym, ap, ap₂, subst, ◌∙◌, Bool, true, false,
  ◌&&◌, List, [], ◌∷◌, ◌++◌, length, take, drop, arith, ◌==◌, ==_iff, Bool-cases, ℕ_discrete, inl,
  inr,
}
use r9x.BindTable.{Pair, Entry, name_max, same_bytes, matches, is_bound, taking}

both : (a b : Bool) → (a && b) ≡ true → (a ≡ true) × (b ≡ true)
both true b h = (refl, h)
both false b h = absurd (cc)

pub same_bytes-eq : (xs ys : List ℕ) → same_bytes xs ys ≡ true → xs ≡ ys
unfolding same_bytes
same_bytes-eq [] [] h = refl
same_bytes-eq [] (y ∷ ys) h = absurd (cc)
same_bytes-eq (x ∷ xs) [] h = absurd (cc)
same_bytes-eq (x ∷ xs) (y ∷ ys) h =
    let (same_head, same_tail) = both _ _ h in
    ap₂ ◌∷◌ ((==_iff x y).0 same_head) (same_bytes-eq xs ys same_tail)

pub same_bytes_refl : (xs : List ℕ) → same_bytes xs xs ≡ true
unfolding same_bytes
same_bytes_refl [] = refl
same_bytes_refl (x ∷ xs) = ground (arith, same_bytes_refl xs)

record Stores (e : Entry) (name : List ℕ) : Type 0 where
  len : e.namelen ≡ length name
  bytes : take (length name) e.name ≡ name

stores : (e : Entry) (name : List ℕ) → matches e name ≡ true → Stores e name
unfolding matches
stores e name h =
    let (_, k) = both _ _ h in
    let (same_len, same) = both _ _ k in
    record { len = (==_iff _ _).0 same_len; bytes = same_bytes-eq _ _ same }

-- An entry has one name.
pub matches-eq : (e : Entry) (xs ys : List ℕ) → matches e xs ≡ true → matches e ys ≡ true → xs ≡ ys
matches-eq e xs ys h k =
    let a = stores e xs h in
    let b = stores e ys k in sym a.bytes ∙ ap (λ n. take n e.name) (sym a.len ∙ b.len) ∙ b.bytes

-- For a name that fits, the test of `bind` is that of `resolve`.
pub is_bound-eq : (e : Entry) (name : List ℕ) → is_bound e (length name) name ≡ matches e name
unfolding is_bound matches
is_bound-eq e name = rw (take_all name) refl

pub taking-matches :
    (name q : List ℕ) (pair : Pair) (e : Entry)
    → length name ≤ name_max
    → matches (taking (length name) name pair e) q ≡ same_bytes name q
unfolding matches
taking-matches name q pair e h = elim (ℕ_discrete (length name) (length q)) [
  | yes e' ↦ rw (stored e', short) (ground (arith, e'))
  | no ne ↦
      let unlike : (length name == length q) ≡ false = ground (arith, ne) in
      rw (short, unlike, sym (differ ne)) refl
]
  where
    differ : length name ≢ length q → false ≡ same_bytes name q
    differ ne = elim (Bool-cases (same_bytes name q)) [
      | inl t ↦ absurd (ne (ap length (same_bytes-eq name q t)))
      | inr f ↦ sym f
    ]

    short : length name % 256 ≡ length name
    short = omega (arith, h)

    stored :
        length name ≡ length q
        → take (length q) (take (length name) name ++ drop (length name) e.name) ≡ name
    stored p =
        subst (λ n. take n (take (length name) name ++ drop (length name) e.name) ≡ name) p
          (ap (λ l. take (length name) (l ++ drop (length name) e.name)) (take_all name)
            ∙ take-append name _)

-- Two names, one that an entry has and one that it may have.
pub same_bytes-matches :
    (e : Entry) (k q : List ℕ) → matches e k ≡ true → same_bytes k q ≡ matches e q
same_bytes-matches e k q h = elim (Bool-cases (matches e q)) [
  | inl m ↦ subst (λ r. same_bytes k r ≡ true) (matches-eq e k q h m) (same_bytes_refl k) ∙ sym m
  | inr n ↦ elim (Bool-cases (same_bytes k q)) [
    | inl t ↦ absurd (contradiction (subst (λ r. matches e r ≡ true) (same_bytes-eq k q t) h) n)
    | inr f ↦ f ∙ sym n
  ]
]
  where
    contradiction : {b : Bool} → b ≡ true → b ≢ false
    contradiction t f = absurd (cc)

pub same_bytes-unlike :
    (e : Entry) (k q : List ℕ) → matches e k ≡ false → matches e q ≡ true → same_bytes k q ≡ false
same_bytes-unlike e k q h m = elim (Bool-cases (same_bytes k q)) [
  | inl t ↦ absurd (contradiction m (subst (λ r. matches e r ≡ false) (same_bytes-eq k q t) h))
  | inr f ↦ f
]
  where
    contradiction : {b : Bool} → b ≡ true → b ≢ false
    contradiction t f = absurd (cc)
