-- ===== src/Fdt/Words.antt =====
-- core/src/fdt.rs: the 32-bit cells of a property's value.
use r9x.Prelude.{
  ℕ, zero, suc, ◌+◌, ◌-◌, ◌*◌, ◌≤◌, ◌<◌, ◌≡◌, refl, sym, ap, ap₂, ◌∙◌, true, false, some, List, [],
  ◌∷◌, ok, length, length-drop, take, drop, ltb, arith, dec_lt,
}
use r9x.Fdt.{bytes_to, bytes_to_u32, from_be_bytes}
use r9x.Fdt.Values.{Property, slice, u32s_from, property_value_as_u32_iter}

-- Groups of four bytes, the most significant byte first; what is left over is dropped.
unfoldable pub words : List ℕ → List ℕ
words (a ∷ b ∷ c ∷ d ∷ rest) = (((a * 256 + b) * 256 + c) * 256 + d) ∷ words rest
words _ = []

drop-drop : (i n : ℕ) (xs : List ℕ) → drop n (drop i xs) ≡ drop (i + n) xs
drop-drop zero n xs = ap (λ k. drop k xs) (omega arith)
drop-drop (suc i) n [] = nothing n ∙ ap (λ k. drop k nil) plus
  where
    nil : List ℕ
    nil = []

    plus : suc (i + n) ≡ suc i + n
    plus = omega arith

    nothing : (n : ℕ) → ◌≡◌ {A = List ℕ} (drop n []) (drop (suc (i + n)) [])
    nothing zero = refl
    nothing (suc n) = refl
drop-drop (suc i) n (x ∷ xs) = drop-drop i n xs ∙ ap (λ k. drop k (x ∷ xs)) plus
  where
    plus : suc (i + n) ≡ suc i + n
    plus = omega arith

-- The first group of a value of four bytes or more.
first_word :
    (r : ℕ) (ys : List ℕ)
    → 4 ≤ r
    → r ≤ length ys
    → (bytes_to_u32 (take 4 ys) ≡ some (from_be_bytes 0 (take 4 ys)))
      × (words (take r ys) ≡ from_be_bytes 0 (take 4 ys) ∷ words (take (r - 4) (drop 4 ys)))
unfolding words bytes_to from_be_bytes
first_word r [] four enough = absurd (omega (arith, four, enough))
first_word r (a ∷ []) four enough = absurd (omega (arith, four, enough))
first_word r (a ∷ b ∷ []) four enough = absurd (omega (arith, four, enough))
first_word r (a ∷ b ∷ c ∷ []) four enough = absurd (omega (arith, four, enough))
first_word zero (a ∷ b ∷ c ∷ d ∷ ys) four enough = absurd (omega (arith, four))
first_word (suc zero) (a ∷ b ∷ c ∷ d ∷ ys) four enough = absurd (omega (arith, four))
first_word (suc (suc zero)) (a ∷ b ∷ c ∷ d ∷ ys) four enough = absurd (omega (arith, four))
first_word (suc (suc (suc zero))) (a ∷ b ∷ c ∷ d ∷ ys) four enough = absurd (omega (arith, four))
first_word (suc (suc (suc (suc r)))) (a ∷ b ∷ c ∷ d ∷ ys) four enough = (refl, tail)
  where
    first : ((a * 256 + b) * 256 + c) * 256 + d ≡ (((0 * 256 + a) * 256 + b) * 256 + c) * 256 + d
    first = omega arith

    rest : r ≡ suc (suc (suc (suc r))) - 4
    rest = omega arith

    tail :
        (((a * 256 + b) * 256 + c) * 256 + d) ∷ words (take r ys)
        ≡ ((((0 * 256 + a) * 256 + b) * 256 + c) * 256 + d)
          ∷ words (take (suc (suc (suc (suc r))) - 4) ys)
    tail = ap₂ (λ n k. n ∷ words (take k ys)) first rest

no_word : (r : ℕ) (ys : List ℕ) → r < 4 → words (take r ys) ≡ []
unfolding words
no_word zero ys few = refl
no_word (suc zero) [] few = refl
no_word (suc zero) (a ∷ ys) few = refl
no_word (suc (suc zero)) [] few = refl
no_word (suc (suc zero)) (a ∷ []) few = refl
no_word (suc (suc zero)) (a ∷ b ∷ ys) few = refl
no_word (suc (suc (suc zero))) [] few = refl
no_word (suc (suc (suc zero))) (a ∷ []) few = refl
no_word (suc (suc (suc zero))) (a ∷ b ∷ []) few = refl
no_word (suc (suc (suc zero))) (a ∷ b ∷ c ∷ ys) few = refl
no_word (suc (suc (suc (suc r)))) ys few = absurd (omega (arith, few))

module _ (structs : List ℕ) (stop : ℕ) (inside : stop ≤ length structs) where
  u32s_from-words :
      (fuel i : ℕ)
      → stop - i < fuel
      → i ≤ stop
      → u32s_from fuel structs stop i ≡ ok (words (take (stop - i) (drop i structs)))
  unfolding u32s_from slice
  u32s_from-words zero i enough le = absurd (omega (arith, enough))
  u32s_from-words (suc fuel) i enough le = elim (dec_lt (stop - i) 4) [
    | yes few ↦
        let short : ltb (stop - i) 4 ≡ true = ground (arith, few) in
        rw (u32s_from, ahead, short) (ap ok (sym (no_word (stop - i) (drop i structs) few)))
    | no many ↦
        let short : ltb (stop - i) 4 ≡ false = ground (arith, many) in
        let word =
          first_word (stop - i) (drop i structs) (omega (arith, many))
            (omega (arith, length-drop i structs, inside)) in
        rw
          (
            u32s_from,
            ahead,
            short,
            slice,
            forwards,
            room many,
            width,
            word.0,
            u32s_from-words fuel (i + 4) (omega (arith, enough, many)) (omega (arith, many)),
          )
          (ap ok (
            sym (
              word.1
              ∙ ap₂ (λ k ys. from_be_bytes 0 (take 4 (drop i structs)) ∷ words (take k ys))
                  (omega arith) (drop-drop i 4 structs))))
  ]
    where
      ahead : ltb stop i ≡ false
      ahead = ground (arith, le)

      forwards : ltb (i + 4) i ≡ false
      forwards = ground arith

      room : ¬ (stop - i < 4) → ltb (length structs) (i + 4) ≡ false
      room many = ground (arith, many, inside)

      width : i + 4 - i ≡ 4
      width = omega arith

-- For a property whose value lies inside the bytes, `property_value_as_u32_iter` gives the groups
-- of four bytes of the value as numbers, the most significant byte first, and drops one to three
-- bytes that are left over.
pub u32_iter-words :
    (structs : List ℕ) (p : Property)
    → p.value_start + p.value_len ≤ length structs
    → property_value_as_u32_iter structs p
      ≡ ok (words (take p.value_len (drop p.value_start structs)))
unfolding property_value_as_u32_iter
u32_iter-words structs p inside =
    u32s_from-words structs (p.value_start + p.value_len) inside (p.value_len + 1) p.value_start
      (omega arith) (omega arith)
    ∙ ap (λ n. ok (words (take n (drop p.value_start structs)))) (omega arith)
