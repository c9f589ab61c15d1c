-- ===== src/Demangle/Reads.antt =====
-- aarch64/src/demangle.rs: what `read_name` and `read_crate_disamb` return lies in the symbol.
use r9x.Prelude.{
  ok_inj, ℕ, zero, suc, ◌+◌, ◌-◌, ◌<◌, ◌≤◌, ◌≡◌, refl, ap, subst, ◌∙◌, Bool, true, false, not, ◌||◌,
  List, length, take, drop, get_elem?, get_or, Outcome, ok, err, panic, ◌==◌, ltb, leb,
  if◌then◌else◌, arith, Post, bind-Post, fail_if-Post, self-Post, Option-cases, inl, inr,
}
use r9x.Demangle.{
  Name, Missing, missing, all, is_disamb_byte, is_ascii_digit, is_name_byte, count_digits, decimal,
  peek_name, read_name, split, or_else, longest_split, min_disambig, read_crate_disamb,
}

-- A name of 1 to 255 bytes that lie in the symbol and are letters, digits and underscores.
pub record IsName (bytes : List ℕ) (n : Name) : Type 0 where
  pub inside : n.at + n.len ≤ length bytes
  pub positive : 0 < n.len
  pub short : n.len ≤ 255
  pub plain : all is_name_byte (take n.len (drop n.at bytes)) ≡ true

-- Where `peek_name` goes on, digits announce a name.
record Peeks (bytes : List ℕ) (pos p : ℕ) : Type 0 where
  len : ℕ
  digits : decimal 0 (take (p - pos) (drop pos bytes)) ≡ ok len
  moves : pos < p
  is_name : IsName bytes (record { at = p; len = len })

abbrev pub Anyhow {ℓ κ} : {E : Type ℓ} {A : Type κ} → (A → Type 0) → Outcome E A → Type 0
Anyhow P o = Post P (λ e. Unit {0}) (Unit {0}) o

not-false : (b : Bool) → not b ≡ false → b ≡ true
not-false true h = refl
not-false false h = cc

peeked :
    (bytes : List ℕ) (pos n len : ℕ)
    → decimal 0 (take n (drop pos bytes)) ≡ ok len
    → (n == 0) ≡ false
    → (len == 0 || (ltb 255 len || ltb (length bytes) (pos + n + len))) ≡ false
    → not (all is_name_byte (take len (drop (pos + n) bytes))) ≡ false
    → Peeks bytes pos (pos + n)
peeked bytes pos n len d some_digits fits plain = record {
  len = len;
  digits = ap (λ t. decimal 0 (take t (drop pos bytes))) count ∙ d;
  moves = ground arith;
  is_name = record {
    inside = ground arith;
    positive = ground arith;
    short = ground arith;
    plain = not-false _ plain;
  };
}
  where
    count : pos + n - pos ≡ n
    count = omega arith

peek_name-Peeks : (bytes : List ℕ) (pos : ℕ) → Anyhow (Peeks bytes pos) (peek_name bytes pos)
unfolding peek_name
peek_name-Peeks bytes pos =
    let n = count_digits (drop pos bytes) in
    fail_if-Post _ (n == 0) _ (λ _. tt)
      (λ digits. bind-Post (decimal 0 (take n (drop pos bytes))) _ (self-Post _) (λ len d.
        fail_if-Post _ _ missing (λ _. tt)
          (λ fits.
            fail_if-Post (ok (pos + n)) _ missing (λ _. tt)
              (λ plain. record { holds = peeked bytes pos n len d digits fits plain }))))

pub read_name-IsName :
    (bytes : List ℕ) (pos : ℕ)
    → Anyhow
        (λ r. IsName bytes r.0 × (pos < r.0.at) × (r.1 ≡ r.0.at + r.0.len))
        (read_name bytes pos)
unfolding read_name
read_name-IsName bytes pos = bind-Post (peek_name bytes pos) _ (peek_name-Peeks bytes pos) (λ p h.
    bind-Post (decimal 0 (take (p - pos) (drop pos bytes))) _ (self-Post _)
      (λ len d. record { holds = (same len h (ok_inj _ h.digits d), h.moves, refl) }))
  where
    same :
        {p : ℕ} (len : ℕ) (h : Peeks bytes pos p)
        → h.len ≡ len
        → IsName bytes (record { at = p; len = len })
    same {p} len h e = subst (λ l. IsName bytes (record { at = p; len = l })) e h.is_name

split-moves :
    (bytes : List ℕ) (start dlen : ℕ) → Anyhow (λ p. p ≡ start + dlen) (split bytes start dlen)
unfolding split
split-moves bytes start dlen =
    fail_if-Post _ (leb (length bytes) (start + dlen)) missing (λ _. tt)
      (λ short.
        fail_if-Post _ (not (all is_disamb_byte (take dlen (drop start bytes)))) _ (λ _. tt)
          (λ plain.
            fail_if-Post _ (not (is_ascii_digit (get_or bytes (start + dlen) 0))) _ (λ _. tt)
              (λ digit.
                bind-Post (peek_name bytes (start + dlen)) (λ _. ok (start + dlen)) (self-Post _)
                  (λ p d. record { holds = refl }))))

or_else-Post :
    {P : ℕ → Type 0} (o next : Outcome Missing ℕ)
    → Anyhow P o
    → Anyhow P next
    → Anyhow P (or_else o next)
or_else-Post (ok a) next h k = h
or_else-Post (err e) next h k = k
or_else-Post panic next h k = h

longest_split-moves :
    (bytes : List ℕ) (start left : ℕ) → Anyhow (λ p. start < p) (longest_split bytes start left)
unfolding longest_split
longest_split-moves bytes start zero = record { holds = tt }
longest_split-moves bytes start (suc left) =
    or_else-Post (split bytes start (min_disambig + left)) _ (weaken (split-moves bytes start _))
      (longest_split-moves bytes start left)
  where
    weaken :
        {o : Outcome Missing ℕ}
        → Anyhow (λ p. p ≡ start + (min_disambig + left)) o
        → Anyhow (λ p. start < p) o
    weaken {o = ok p} h = record { holds = omega (arith, h.holds) }
    weaken {o = err e} h = record { holds = tt }
    weaken {o = panic} h = record { holds = tt }

pub read_crate_disamb-moves :
    (bytes : List ℕ) (pos : ℕ) → Anyhow (λ p. pos < p) (read_crate_disamb bytes pos)
unfolding read_crate_disamb
read_crate_disamb-moves bytes pos = elim (Option-cases (get_elem? bytes pos)) [
  | inl e ↦ rw (read_crate_disamb, e) (record { holds = tt })
  | inr (b, e) ↦ rw (read_crate_disamb, e) (chosen (b == b'v'))
]
  where
    chosen :
        (v : Bool) → Anyhow (λ p. pos < p) (if v then ok (pos + 1) else longest_split bytes pos 12)
    chosen true = record { holds = omega arith }
    chosen false = longest_split-moves bytes pos 12
