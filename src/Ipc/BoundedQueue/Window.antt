-- ===== src/Ipc/BoundedQueue/Window.antt =====
-- A ring of slots read from an index on: laws of reading, writing and moving on by one.
use native.Mathlib.Nat.{add-mod_right, mod-add-mod, mod-eq_of_lt, mod-eq-sub-mod, add-zero}
use r9x.Prelude.{
  ℕ, zero, suc, ◌+◌, ◌-◌, ◌%◌, ◌≤◌, ◌<◌, ◌≡◌, ◌≢◌, refl, sym, ap, ap₂, subst, ◌∙◌, List, [], ◌∷◌,
  ◌++◌, length, get_or, set, arith, dec_le, ◌⊎◌, inl, inr, get_or-set_self, get_or-set_ne,
}

module _ {ℓ} {A : Type ℓ} (d : A) where
  -- The `n` slots from index `h` on, going round at `cap`.
  unfoldable pub window : ℕ → List A → ℕ → ℕ → List A
  window cap xs h zero = []
  window cap xs h (suc n) = get_or xs h d ∷ window cap xs ((h + 1) % cap) n

-- Going on by less than a whole round leads to another slot.
module _ (cap start k : ℕ) (inside : start < cap) (forward : 0 < k) (short : k < cap) where
  lands :
      ((start + k) % cap ≡ start + k) ⊎ ((cap ≤ start + k) × ((start + k) % cap ≡ start + k - cap))
  lands = elim (dec_le cap (start + k)) [
    | no below ↦ inl (mod-eq_of_lt (omega (arith, below)))
    | yes over ↦
        let less : start + k - cap < cap = omega (arith, over) in
        inr (over, mod-eq-sub-mod over ∙ mod-eq_of_lt less)
  ]

  going_on : (start + k) % cap ≢ start
  going_on back = elim lands [
    | inl e ↦ omega (arith, e, back)
    | inr e ↦ omega (arith, e.0, e.1, back)
  ]

shift-mod : (cap h n : ℕ) → (h + suc n) % cap ≡ ((h + 1) % cap + n) % cap
shift-mod cap h n = rw mod-add-mod (ap (λ k. k % cap) (omega arith))

module _ {ℓ} {A : Type ℓ} (d : A) (cap : ℕ) where
  -- A write outside a window leaves it alone.
  window-set_before :
      (xs : List A) (v : A) (h i n : ℕ)
      → i < cap
      → (k : ℕ) → h ≡ (i + suc k) % cap
      → suc k + n ≤ cap
      → window d cap (set xs i v) h n ≡ window d cap xs h n
  unfolding window
  window-set_before xs v h i zero hi k e b = refl
  window-set_before xs v h i (suc n) hi k e b =
      ap₂ ◌∷◌
        (get_or-set_ne xs v d (λ p. going_on cap i (suc k) hi (omega arith) (omega arith) (p' p)))
        (window-set_before xs v ((h + 1) % cap) i n hi (suc k) next (omega arith))
    where
      p' : i ≡ h → (i + suc k) % cap ≡ i
      p' p = cc

      next : (h + 1) % cap ≡ (i + suc (suc k)) % cap
      next = rw (e, mod-add-mod) (ap (λ j. j % cap) (omega arith))

  -- A write at place `k` of a window writes there.
  pub window-set :
      (xs : List A) (v : A) (h n k : ℕ)
      → length xs ≡ cap
      → h < cap
      → k < n
      → n ≤ cap
      → window d cap (set xs ((h + k) % cap) v) h n ≡ set (window d cap xs h n) k v
  unfolding window
  window-set xs v h zero k hl hh hk hn = absurd (omega arith)
  window-set xs v h (suc n) zero hl hh hk hn =
      subst (λ i. window d cap (set xs i v) h (suc n) ≡ v ∷ window d cap xs ((h + 1) % cap) n) start
        (ap₂ ◌∷◌ (get_or-set_self xs h v d (omega arith))
          (window-set_before xs v ((h + 1) % cap) h n hh 0 refl (omega arith)))
    where
      start : h ≡ (h + 0) % cap
      start = rw (add-zero, mod-eq_of_lt hh)
  window-set xs v h (suc n) (suc k) hl hh hk hn =
      ap₂ ◌∷◌ (get_or-set_ne xs v d (going_on cap h (suc k) hh (omega arith) (omega arith))) (
        subst
          (λ i.
            window d cap (set xs i v) ((h + 1) % cap) n
            ≡ set (window d cap xs ((h + 1) % cap) n) k v)
          (sym (shift-mod cap h k))
          (window-set xs v ((h + 1) % cap) n k hl (omega arith) (omega arith) (omega arith)))

  -- One more slot at the end.
  pub window-snoc :
      (xs : List A) (h n : ℕ)
      → h < cap
      → window d cap xs h (suc n) ≡ window d cap xs h n ++ (get_or xs ((h + n) % cap) d ∷ [])
  unfolding window
  window-snoc xs h zero hh = rw (add-zero, mod-eq_of_lt hh)
  window-snoc xs h (suc n) hh =
      rw (shift-mod cap h n)
        (ap (◌∷◌ (get_or xs h d)) (window-snoc xs ((h + 1) % cap) n (omega arith)))

  -- One slot less at the start.
  pub window-cons :
      (xs : List A) (h n : ℕ)
      → window d cap xs h (suc n) ≡ get_or xs h d ∷ window d cap xs ((h + 1) % cap) n
  unfolding window
  window-cons xs h n = refl

  -- Emptying the first slot and going on by one moves it to the end.
  pub window-rotate :
      (xs : List A) (h n : ℕ)
      → length xs ≡ cap
      → h < cap
      → cap ≡ suc n
      → window d cap (set xs h d) ((h + 1) % cap) cap
        ≡ window d cap xs ((h + 1) % cap) n ++ (d ∷ [])
  window-rotate xs h n hl hh hc =
      ap (window d cap (set xs h d) ((h + 1) % cap)) hc
      ∙ window-snoc (set xs h d) ((h + 1) % cap) n (omega arith)
      ∙ ap₂ (λ w x. w ++ (x ∷ []))
          (window-set_before xs d ((h + 1) % cap) h n hh 0 refl (omega arith))
          (subst (λ i. get_or (set xs h d) i d ≡ d) home (get_or-set_self xs h d d (omega arith)))
    where
      home : h ≡ ((h + 1) % cap + n) % cap
      home = rw mod-add-mod (ground (arith, mod-eq_of_lt hh, add-mod_right h cap))
