-- ===== src/Demangle/Format/Fits.antt =====
-- aarch64/src/demangle.rs: nothing is written or read outside the output buffer.
use r9x.Prelude.{
  ℕ, zero, suc, ◌+◌, ◌-◌, ◌<◌, ◌≤◌, ◌≡◌, ◌≢◌, refl, ◌∙◌, min, Bool, true, false, Option, none, some,
  List, [], ◌∷◌, ◌++◌, length, length-append, length-take, length-drop, length-set, take, drop,
  get_elem?, Outcome, ok, err, panic, ◌>>=◌, ltb, if◌then◌else◌, arith, Post, bind-Post, All,
  All-take, All-drop, Bool-cases, Option-cases, inl, inr,
}
use r9x.Demangle.{Name, Missing}
use r9x.Demangle.Reads.{IsName}
use r9x.Demangle.Format.{
  Out, put, push_byte, copy_name, Separated, separated, no_room, separate, write_path,
  is_after_angle, separate_generic, write_generics, open_generics, close_generics, with_generics,
  terminate, format,
}

three : (xs ys zs : List ℕ) → length (xs ++ ys ++ zs) ≡ length xs + length ys + length zs
three [] ys zs = omega (arith, length-append ys zs)
three (x ∷ xs) ys zs = omega (arith, three xs ys zs)

get_elem?-none : (l : List ℕ) (i : ℕ) → i < length l → get_elem? l i ≢ none
get_elem?-none [] i lt e = absurd (omega (arith, lt))
get_elem?-none (x ∷ l) zero lt e = absurd (clash (some x) refl e)
  where
    clash : {a : ℕ} (o : Option ℕ) → o ≡ some a → o ≡ none → ⊥
    clash o a b = cc
get_elem?-none (x ∷ l) (suc i) lt e = get_elem?-none l i (omega (arith, lt)) e

-- A call that returns, with what holds of the value.
abbrev pub Returns : {A : Type 0} → (A → Type 0) → Outcome Missing A → Type 0
Returns P o = Post P (λ e. ⊥) ⊥ o

-- The output of a buffer of `size` bytes.
pub record Fits (size : ℕ) (o : Out) : Type 0 where
  pub sized : length o.buf ≡ size
  pub within : o.out_pos ≤ size

abbrev FitsIf : ℕ → Separated → Type 0
FitsIf size (separated o) = Fits size o
FitsIf size no_room = Unit {0}

module _ {size : ℕ} (o : Out) (h : Fits size o) where
  put-Returns : (b : ℕ) → o.out_pos < size → Returns (λ l. length l ≡ size) (put o.buf o.out_pos b)
  unfolding put
  put-Returns b lt = elim (Bool-cases (ltb o.out_pos (length o.buf))) [
    | inl e ↦ rw (put, e) (record { holds = length-set o.buf o.out_pos b ∙ h.sized })
    | inr e ↦ absurd (ground (arith, h.sized))
  ]

  push_byte-Fits :
      (b : ℕ)
      → o.out_pos < size
      → Returns (λ o₁. Fits size o₁ × (o₁.out_pos ≡ o.out_pos + 1)) (push_byte o b)
  push_byte-Fits b lt =
      bind-Post (put o.buf o.out_pos b) _ (put-Returns b lt)
        (λ buf e. record { holds = (record { sized = e; within = omega (arith, lt) }, refl) })

  copy_name-Fits :
      (bytes : List ℕ) (n : Name)
      → n.at + n.len ≤ length bytes
      → Returns (Fits size) (copy_name bytes n o)
  unfolding copy_name
  copy_name-Fits bytes n le = elim (Bool-cases (ltb (length o.buf) o.out_pos)) [
    | inl e ↦ absurd (ground (arith, h.sized, h.within))
    | inr e ↦
        let c = min n.len (length o.buf - o.out_pos) in
        rw (copy_name, e)
          (record {
            holds = record {
              sized = omega (
                arith,
                three (take o.out_pos o.buf) (take c (drop n.at bytes))
                    (drop (o.out_pos + c) o.buf),
                length-take o.out_pos o.buf,
                length-take c (drop n.at bytes),
                length-drop n.at bytes,
                length-drop (o.out_pos + c) o.buf,
                h.sized,
                h.within,
              );
              within = omega (arith, h.sized, h.within);
            };
          })
  ]

module _ {size : ℕ} where
  fits :
      {p : ℕ} {o : Outcome Missing Out}
      → Returns (λ o₁. Fits size o₁ × (o₁.out_pos ≡ p)) o
      → Returns (Fits size) o
  fits {o = ok o₁} h = record { holds = h.holds.0 }
  fits {o = err e} h = record { holds = h.holds }
  fits {o = panic} h = record { holds = h.holds }

  separate-Fits : (o : Out) → Fits size o → Returns (FitsIf size) (separate o)
  unfolding separate
  separate-Fits o h = elim (Bool-cases (ltb (length o.buf) (o.out_pos + 2))) [
    | inl e ↦ rw (separate, e) (record { holds = tt })
    | inr e ↦
        let room : o.out_pos + 2 ≤ size = ground (arith, h.sized) in
        rw (separate, e)
          (bind-Post (push_byte o b':') _ (push_byte-Fits o h b':' (omega (arith, room))) (λ o₁ h₁.
            bind-Post (push_byte o₁ b':') _
              (push_byte-Fits o₁ h₁.0 b':' (omega (arith, room, h₁.1)))
              (λ o₂ h₂. record { holds = h₂.0 })))
  ]

  -- What a loop over names does with one of them.
  copied :
      {next : Out → Outcome Missing Out} (bytes : List ℕ) (n : Name) (o : Out) (r : Separated)
      → Fits size o
      → n.at + n.len ≤ length bytes
      → FitsIf size r
      → ((o₂ : Out) → Fits size o₂ → Returns (Fits size) (next o₂))
      → Returns
          (Fits size)
          (elim r [ no_room ↦ ok o | separated o₁ ↦ copy_name bytes n o₁ >>= next ])
  copied bytes n o no_room h le k again = record { holds = h }
  copied {next} bytes n o (separated o₁) h le k again =
      bind-Post (copy_name bytes n o₁) next (copy_name-Fits o₁ k bytes n le) again

  write_path-Fits :
      (bytes : List ℕ) (names : List Name) (o : Out)
      → All (IsName bytes) names
      → Fits size o
      → Returns (Fits size) (write_path bytes names o)
  unfolding write_path
  write_path-Fits bytes [] o all h = record { holds = h }
  write_path-Fits bytes (n ∷ names) o all h =
      bind-Post (if ltb 0 o.out_pos then separate o else ok (separated o)) _
        (first (ltb 0 o.out_pos))
        (λ r k.
          copied bytes n o r h all.0.inside k (λ o₂ h₂. write_path-Fits bytes names o₂ all.1 h₂))
    where
      first : (b : Bool) → Returns (FitsIf size) (if b then separate o else ok (separated o))
      first true = separate-Fits o h
      first false = record { holds = h }

  is_after_angle-Returns :
      (o : Out) → Fits size o → 0 < o.out_pos → Returns (λ b. Unit {0}) (is_after_angle o)
  unfolding is_after_angle
  is_after_angle-Returns o h pos = elim (Option-cases (get_elem? o.buf (o.out_pos - 1))) [
    | inl e ↦ absurd (get_elem?-none o.buf (o.out_pos - 1) (omega (arith, h.sized, h.within)) e)
    | inr (b, e) ↦ rw (is_after_angle, e) (record { holds = tt })
  ]

  separate_generic-Fits : (o : Out) → Fits size o → Returns (FitsIf size) (separate_generic o)
  unfolding separate_generic
  separate_generic-Fits o h = elim (Bool-cases (ltb 0 o.out_pos)) [
    | inl e ↦
        rw (separate_generic, e)
          (bind-Post (is_after_angle o) _ (is_after_angle-Returns o h (ground (arith, e)))
            (λ b u. chosen b))
    | inr e ↦ rw (separate_generic, e) (record { holds = h })
  ]
    where
      chosen : (b : Bool) → Returns (FitsIf size) (if b then ok (separated o) else separate o)
      chosen true = record { holds = h }
      chosen false = separate-Fits o h

  write_generics-Fits :
      (bytes : List ℕ) (names : List Name) (o : Out)
      → All (IsName bytes) names
      → Fits size o
      → Returns (Fits size) (write_generics bytes names o)
  unfolding write_generics
  write_generics-Fits bytes [] o all h = record { holds = h }
  write_generics-Fits bytes (n ∷ names) o all h =
      bind-Post (separate_generic o) _ (separate_generic-Fits o h) (λ r k.
        copied bytes n o r h all.0.inside k (λ o₂ h₂. write_generics-Fits bytes names o₂ all.1 h₂))

  open_generics-Fits : (o : Out) → Fits size o → Returns (Fits size) (open_generics o)
  unfolding open_generics
  open_generics-Fits o h = elim (Bool-cases (ltb (o.out_pos + 3) (length o.buf))) [
    | inl e ↦
        let room : o.out_pos + 3 < size = ground (arith, h.sized) in
        rw (open_generics, e)
          (bind-Post (push_byte o b':') _ (push_byte-Fits o h b':' (omega (arith, room))) (λ o₁ h₁.
            bind-Post (push_byte o₁ b':') _
              (push_byte-Fits o₁ h₁.0 b':' (omega (arith, room, h₁.1)))
              (λ o₂ h₂. fits (push_byte-Fits o₂ h₂.0 b'<' (omega (arith, room, h₁.1, h₂.1))))))
    | inr e ↦ rw (open_generics, e) (record { holds = h })
  ]

  close_generics-Fits : (o : Out) → Fits size o → Returns (Fits size) (close_generics o)
  unfolding close_generics
  close_generics-Fits o h = elim (Bool-cases (ltb o.out_pos (length o.buf))) [
    | inl e ↦ rw (close_generics, e) (fits (push_byte-Fits o h b'>' (ground (arith, h.sized))))
    | inr e ↦ rw (close_generics, e) (record { holds = h })
  ]

  with_generics-Fits :
      (bytes : List ℕ) (names : List Name) (o : Out)
      → All (IsName bytes) names
      → Fits size o
      → Returns (Fits size) (with_generics bytes names o)
  with_generics-Fits bytes [] o all h = record { holds = h }
  with_generics-Fits bytes (n ∷ names) o all h =
      bind-Post (open_generics o) _ (open_generics-Fits o h) (λ o₁ h₁.
        bind-Post (write_generics bytes (n ∷ names) o₁) close_generics
          (write_generics-Fits bytes (n ∷ names) o₁ all h₁) (λ o₂ h₂. close_generics-Fits o₂ h₂))

  terminate-Returns : (o : Out) → Fits size o → Returns (λ l. length l ≡ size) (terminate o)
  unfolding terminate
  terminate-Returns o h = elim (Bool-cases (ltb o.out_pos (length o.buf))) [
    | inl e ↦ rw (terminate, e) (put-Returns o h 0 (ground (arith, h.sized)))
    | inr e ↦ rw (terminate, e) (record { holds = h.sized })
  ]

pub format-Returns :
    (bytes : List ℕ) (names : List Name) (main : ℕ) (buf : List ℕ)
    → All (IsName bytes) names
    → Returns (λ l. length l ≡ length buf) (format bytes names main buf)
unfolding format
format-Returns bytes names main buf all =
    bind-Post (write_path bytes (take main names) first) _
      (write_path-Fits bytes (take main names) first (All-take (IsName bytes) main names all)
        none_yet)
      (λ o₁ h₁.
        bind-Post (with_generics bytes (drop main names) o₁) terminate
          (with_generics-Fits bytes (drop main names) o₁ (All-drop (IsName bytes) main names all)
            h₁)
          (λ o₂ h₂. terminate-Returns o₂ h₂))
  where
    first : Out
    first = record { buf = buf; out_pos = 0 }

    none_yet : Fits (length buf) first
    none_yet = record { sized = refl; within = omega arith }
