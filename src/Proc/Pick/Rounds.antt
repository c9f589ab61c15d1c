-- ===== src/Proc/Pick/Rounds.antt =====
-- aarch64/src/process.rs: the loop of `pick_next` round the table from the cursor.
use native.Mathlib.Nat.{div-add-mod', mod-lt}
use r9x.Prelude.{
  ℕ, zero, suc, ◌+◌, ◌-◌, ◌*◌, ◌/◌, ◌%◌, ◌≤◌, ◌<◌, ◌≡◌, ◌≢◌, refl, sym, ap, subst, ◌∙◌, Bool, true,
  false, Option, none, some, List, length, get_elem?, Bool-cases, inl, inr, arith, dec_lt,
  ℕ_discrete, ℕ_discrete,
}
use r9x.Prelude.Division.{remainder_of}
use r9x.Proc.{State}
use r9x.Proc.Pick.{is_best, scan}

module _ (slots : List (State × ℕ)) (current cursor best : ℕ) where
  abbrev test : ℕ → Bool
  test i = is_best current best i (get_elem? slots i)

  scan_here :
      (left off : ℕ)
      → test ((cursor + off) % length slots) ≡ true
      → scan slots current cursor best (suc left) off ≡ some ((cursor + off) % length slots)
  unfolding scan
  scan_here left off t = rw t refl

  scan_on :
      (left off : ℕ)
      → test ((cursor + off) % length slots) ≡ false
      → scan slots current cursor best (suc left) off
        ≡ scan slots current cursor best left (off + 1)
  unfolding scan
  scan_on left off f = rw f refl

  pub scan-test :
      (left off r : ℕ) → scan slots current cursor best left off ≡ some r → test r ≡ true
  scan-test zero off r h = absurd (unfold scan in cc)
  scan-test (suc left) off r h = elim (Bool-cases (test ((cursor + off) % length slots))) [
    | inl t ↦ subst (λ i. test i ≡ true) (same _ (scan_here left off t) h) t
    | inr f ↦ scan-test left (off + 1) r (sym (scan_on left off f) ∙ h)
  ]
    where
      same : {x y : ℕ} (o : Option ℕ) → o ≡ some x → o ≡ some y → x ≡ y
      same o a b = cc

  pub scan_complete :
      (left off o : ℕ)
      → off ≤ o
      → o < off + left
      → test ((cursor + o) % length slots) ≡ true
      → scan slots current cursor best left off ≢ none
  scan_complete zero off o h k t e = omega (arith, h, k)
  scan_complete (suc left) off o h k t e =
      elim (Bool-cases (test ((cursor + off) % length slots))) [
        | inl t' ↦ clash _ (scan_here left off t') e
        | inr f ↦ elim (ℕ_discrete off o) [
          | yes same ↦
              contra (subst (λ x. test ((cursor + x) % length slots) ≡ true) (sym same) t) f
          | no ne ↦
              scan_complete left (off + 1) o (omega (arith, h, ne)) (omega (arith, k)) t
                (sym (scan_on left off f) ∙ e)
        ]
      ]
    where
      clash : {x : ℕ} (o : Option ℕ) → o ≡ some x → o ≢ none
      clash o a b = absurd (cc)

      contra : {x : Bool} → x ≡ true → x ≢ false
      contra a b = absurd (cc)

-- Every slot is at some offset from the cursor.
pub reached : (n cursor k : ℕ) → k < n → (o : ℕ) × (1 ≤ o) × (o < 1 + n) × ((cursor + o) % n ≡ k)
reached n cursor k h = elim (dec_lt (cursor % n) k) [
  | yes b ↦ (
    k - cursor % n,
    omega (arith, b),
    omega (arith, h),
    ap (λ x. x % n) (forth b) ∙ remainder_of n (cursor / n) k h,
  )
  | no b ↦ (
    k + n - cursor % n,
    omega (arith, b, short),
    omega (arith, h, b),
    ap (λ x. x % n) (round b) ∙ remainder_of n (cursor / n + 1) k h,
  )
]
  where
    short : cursor % n < n
    short = mod-lt cursor (omega (arith, h))

    forth : cursor % n < k → cursor + (k - cursor % n) ≡ cursor / n * n + k
    forth b = omega (arith, b, div-add-mod' cursor n)

    round : ¬ (cursor % n < k) → cursor + (k + n - cursor % n) ≡ (cursor / n + 1) * n + k
    round b = omega (arith, b, short, div-add-mod' cursor n)
