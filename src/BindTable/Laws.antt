-- ===== src/BindTable/Laws.antt =====
-- cmd/nameserver/src/bind_table.rs: the table as a map from names to pairs.
use r9x.Prelude.{
  some_inj, ℕ, ◌≤◌, ◌≡◌, ◌≢◌, refl, sym, subst, ◌∙◌, Bool, true, false, Option, none, some, List,
  [], ◌∷◌, length, arith, min, if◌then◌else◌, Bool-cases, Option-cases, inl, inr,
}
use r9x.BindTable.{
  Pair, Entry, BindTable, Code, r_ok, r_efull, name_max, same_bytes, matches, taking, behind,
  replace, take_free, bind, find_pair, resolve,
}
use r9x.BindTable.Matching.{is_bound-eq, taking-matches, same_bytes-matches, same_bytes-unlike}

-- The search over a list with a first entry.
find_cons :
    (q : List ℕ) (e : Entry) (es : List Entry)
    → find_pair q (e ∷ es) ≡ (if matches e q then some e.pair else find_pair q es)
unfolding find_pair
find_cons q e es = refl

-- `behind` gives a list only from a list.
behind-some :
    (e : Entry) (o : Option (List Entry)) (es' : List Entry)
    → behind e o ≡ some es'
    → (es : List Entry) × (o ≡ some es) × (es' ≡ e ∷ es)
behind-some e none es' h = absurd (cc)
behind-some e (some es) es' h = (es, refl, some_inj _ h refl)

abbrev updated : List ℕ → Pair → List Entry → List ℕ → Option Pair
updated k p es q = if same_bytes k q then some p else find_pair q es

replace_here :
    (k : List ℕ) (p : Pair) (e : Entry) (es : List Entry)
    → matches e k ≡ true
    → replace (length k) k p (e ∷ es) ≡ some (record e { pair = p } ∷ es)
unfolding replace
replace_here k p e es m = rw (replace, is_bound-eq e k, m) refl

replace_on :
    (k : List ℕ) (p : Pair) (e : Entry) (es : List Entry)
    → matches e k ≡ false
    → replace (length k) k p (e ∷ es) ≡ behind e (replace (length k) k p es)
unfolding replace
replace_on k p e es m = rw (is_bound-eq e k, m) refl

repaired :
    (q : List ℕ) (p : Pair) (e : Entry) (es : List Entry)
    → find_pair q (record e { pair = p } ∷ es) ≡ (if matches e q then some p else find_pair q es)
unfolding find_pair matches
repaired q p e es = refl

-- The entry in front does not have the name that is bound: the rest is what counts.
updated-cons :
    (k : List ℕ) (p : Pair) (e : Entry) (es es₁ : List Entry) (q : List ℕ)
    → matches e k ≡ false
    → find_pair q es₁ ≡ updated k p es q
    → find_pair q (e ∷ es₁) ≡ updated k p (e ∷ es) q
updated-cons k p e es es₁ q n ih = elim (Bool-cases (matches e q)) [
  | inl m ↦ rw (find_cons q e es₁, find_cons q e es, m, same_bytes-unlike e k q n m) refl
  | inr o ↦ rw (find_cons q e es₁, find_cons q e es, o) ih
]

replace-find :
    (k : List ℕ) (p : Pair) (es es' : List Entry) (q : List ℕ)
    → replace (length k) k p es ≡ some es'
    → find_pair q es' ≡ updated k p es q
replace-find k p [] es' q h = absurd (unfold replace in cc)
replace-find k p (e ∷ es) es' q h = elim (Bool-cases (matches e k)) [
  | inl m ↦
      subst (λ l. find_pair q l ≡ updated k p (e ∷ es) q) (some_inj _ (replace_here k p e es m) h)
        (repaired q p e es ∙ same_twice (sym (same_bytes-matches e k q m)))
  | inr n ↦
      let (es₁, rest, e') = behind-some e _ es' (sym (replace_on k p e es n) ∙ h) in
      subst (λ l. find_pair q l ≡ updated k p (e ∷ es) q) (sym e')
        (updated-cons k p e es es₁ q n (replace-find k p es es₁ q rest))
]
  where
    same_twice :
        matches e q ≡ same_bytes k q
        → (if matches e q then some p else find_pair q es) ≡ updated k p (e ∷ es) q
    same_twice t = rw (find_cons q e es, t) (twice (same_bytes k q))
      where
        twice :
            (b : Bool)
            → (if b then some p else find_pair q es)
              ≡ (if b then some p else (if b then some e.pair else find_pair q es))
        twice true = refl
        twice false = refl

clash : {x : List Entry} (o : Option (List Entry)) → o ≡ some x → o ≢ none
clash o a b = absurd (cc)

behind_none : (e : Entry) (o : Option (List Entry)) → behind e o ≡ none → o ≡ none
behind_none e none a = refl
behind_none e (some l) a = absurd (cc)

-- Where no entry has the name, a free one is taken.
replace-none :
    (k : List ℕ) (p : Pair) (e : Entry) (es : List Entry)
    → replace (length k) k p (e ∷ es) ≡ none
    → (matches e k ≡ false) × (replace (length k) k p es ≡ none)
replace-none k p e es h = elim (Bool-cases (matches e k)) [
  | inl m ↦ absurd (clash _ (replace_here k p e es m) h)
  | inr n ↦ (n, behind_none e _ (sym (replace_on k p e es n) ∙ h))
]

take_free_used :
    (k : List ℕ) (p : Pair) (e : Entry) (es : List Entry)
    → e.used ≡ true
    → take_free (length k) k p (e ∷ es) ≡ behind e (take_free (length k) k p es)
unfolding take_free
take_free_used k p e es u = rw u refl

take_free_here :
    (k : List ℕ) (p : Pair) (e : Entry) (es : List Entry)
    → e.used ≡ false
    → take_free (length k) k p (e ∷ es) ≡ some (taking (length k) k p e ∷ es)
unfolding take_free
take_free_here k p e es u = rw u refl

unused-matches : (e : Entry) (q : List ℕ) → e.used ≡ false → matches e q ≡ false
unfolding matches
unused-matches e q u = rw u refl

take_free-find :
    (k : List ℕ) (p : Pair) (es es' : List Entry) (q : List ℕ)
    → length k ≤ name_max
    → replace (length k) k p es ≡ none
    → take_free (length k) k p es ≡ some es'
    → find_pair q es' ≡ updated k p es q
take_free-find k p [] es' q le none_yet h = absurd (unfold take_free in cc)
take_free-find k p (e ∷ es) es' q le none_yet h =
    let (n, none_later) = replace-none k p e es none_yet in
    elim (Bool-cases e.used) [
      | inl u ↦
          let (es₁, rest, e') = behind-some e _ es' (sym (take_free_used k p e es u) ∙ h) in
          subst (λ l. find_pair q l ≡ updated k p (e ∷ es) q) (sym e')
            (updated-cons k p e es es₁ q n (take_free-find k p es es₁ q le none_later rest))
      | inr u ↦
          subst (λ l. find_pair q l ≡ updated k p (e ∷ es) q)
            (some_inj _ (take_free_here k p e es u) h)
            (rw
              (
                find_cons q (taking (length k) k p e) es,
                taking-matches k q p e le,
                find_cons q e es,
                unused-matches e q u,
              )
              refl)
    ]

abbrev pub AllUsed : List Entry → Type 0
AllUsed [] = Unit {0}
AllUsed (e ∷ es) = (e.used ≡ true) × AllUsed es

replace-unbound :
    (k : List ℕ) (p : Pair) (es : List Entry)
    → replace (length k) k p es ≡ none
    → find_pair k es ≡ none
replace-unbound k p [] h = unfold find_pair in refl
replace-unbound k p (e ∷ es) h =
    let (n, later) = replace-none k p e es h in
    rw (find_cons k e es, n) (replace-unbound k p es later)

take_free-AllUsed :
    (k : List ℕ) (p : Pair) (es : List Entry) → take_free (length k) k p es ≡ none → AllUsed es
take_free-AllUsed k p [] h = tt
take_free-AllUsed k p (e ∷ es) h = elim (Bool-cases e.used) [
  | inl u ↦ (u, take_free-AllUsed k p es (behind_none e _ (sym (take_free_used k p e es u) ∙ h)))
  | inr u ↦ absurd (clash _ (take_free_here k p e es u) h)
]

-- The two ways in which `bind` ends.
pub data Binds (t : BindTable) (name : List ℕ) (pair : Pair) (r : Code × BindTable) : Type 0 where
  binds :
      r.0 ≡ r_ok
      → ((q : List ℕ) → resolve r.1 q ≡ (if same_bytes name q then some pair else resolve t q))
      → Binds t name pair r
  finds_no_room : resolve t name ≡ none → AllUsed t.entries → r ≡ (r_efull, t) → Binds t name pair r

fits : (name : List ℕ) → length name ≤ name_max → min (length name) name_max ≡ length name
fits name h = omega (arith, h)

-- For a name of at most 32 bytes, `bind` either returns r_ok, and then that name resolves to the
-- pair and every other name to what it resolved to before; or it returns r_efull and changes
-- nothing, and then the name was not bound and all entries were in use.
pub bind-Binds :
    (t : BindTable) (name : List ℕ) (pair : Pair)
    → length name ≤ name_max
    → Binds t name pair (bind t name pair)
unfolding bind
bind-Binds t name pair le = elim (Option-cases (replace (length name) name pair t.entries)) [
  | inr (es, e) ↦ rw (fits name le, e) (binds refl (λ q. replace-find name pair t.entries es q e))
  | inl e ↦ elim (Option-cases (take_free (length name) name pair t.entries)) [
    | inr (es, f) ↦
        rw (fits name le, e, f) (binds refl (λ q. take_free-find name pair t.entries es q le e f))
    | inl f ↦
        rw (fits name le, e, f)
          (finds_no_room (replace-unbound name pair t.entries e)
            (take_free-AllUsed name pair t.entries f) refl)
  ]
]
