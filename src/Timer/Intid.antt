-- ===== src/Timer/Intid.antt =====
-- aarch64/src/timer.rs: `timer_intid_from_dt`, the number of the timer's interrupt from the
-- devicetree. What the reader of the tree gives of the node is a parameter.
use r9x.Prelude.{
  ℕ, ◌+◌, ◌<◌, ◌≡◌, refl, Bool, false, not, Option, none, some, List, [], ◌∷◌, get_elem?, Outcome,
  ok, err, ◌>>=◌, ◌>>◌, fail_if, ok_or, true, ◌==◌, ltb, if◌then◌else◌, arith, dec_lt, ℕ_discrete,
  ◌≢◌, ◌≤◌, subst, sym,
}

-- The node `arm,armv8-timer`: whether it has `interrupt-names`, and the cells of `interrupts`.
pub record TimerNode : Type 0 where
  pub has_names : Bool
  pub interrupts : Option (List ℕ)

pub data IntidErr : Type 0 where
  no_node named_list no_interrupts not_a_ppi too_short not_local : IntidErr

-- The loop over the cells, from cell `i` on.
unfoldable pub scan_cells : ℕ → List ℕ → Option ℕ → Outcome IntidErr (Option ℕ)
scan_cells i [] ppi = ok ppi
scan_cells i (cell ∷ cells) ppi =
    let rest = scan_cells (i + 1) cells in
    if i == 3
    then (if not (cell == 1) then err not_a_ppi else rest ppi)
    else (if i == 4 then rest (some cell) else rest ppi)

abbrev pub local_ppi : Option ℕ → Outcome IntidErr ℕ
local_ppi ppi = ok_or too_short ppi >>= λ p. fail_if (ltb 15 p) not_local >> ok (16 + p)

unfoldable pub timer_intid_from_dt : Option TimerNode → Outcome IntidErr ℕ
timer_intid_from_dt node = ok_or no_node node >>= λ n.
    fail_if n.has_names named_list
    >> (ok_or no_interrupts n.interrupts >>= λ cells. scan_cells 0 cells none >>= local_ppi)

-- What the type and the number in entry [1] make of the interrupt's number.
pub data ReadsEntry (kind number : Option ℕ) (o : Outcome IntidErr ℕ) : Type 0 where
  no_kind : kind ≡ none → o ≡ err too_short → ReadsEntry kind number o
  other_kind : (k : ℕ) → kind ≡ some k → k ≢ 1 → o ≡ err not_a_ppi → ReadsEntry kind number o
  no_number : kind ≡ some 1 → number ≡ none → o ≡ err too_short → ReadsEntry kind number o
  too_large :
      (n : ℕ)
      → kind ≡ some 1
      → number ≡ some n
      → 16 ≤ n
      → o ≡ err not_local
      → ReadsEntry kind number o
  reads :
      (n : ℕ)
      → kind ≡ some 1
      → number ≡ some n
      → n < 16
      → o ≡ ok (16 + n)
      → ReadsEntry kind number o

-- The cells behind entry [1] are passed over.
passed_over : (i : ℕ) (cells : List ℕ) (ppi : Option ℕ) → 4 < i → scan_cells i cells ppi ≡ ok ppi
unfolding scan_cells
passed_over i [] ppi lt = refl
passed_over i (cell ∷ cells) ppi lt =
    let e : (i == 3) ≡ false = ground (arith, lt) in
    let f : (i == 4) ≡ false = ground (arith, lt) in
    rw (scan_cells, e, f) (passed_over (i + 1) cells ppi (omega (arith, lt)))

local_ppi-ReadsEntry : (number : Option ℕ) → ReadsEntry (some 1) number (local_ppi number)
local_ppi-ReadsEntry none = no_number refl refl refl
local_ppi-ReadsEntry (some n) = elim (dec_lt n 16) [
  | yes small ↦ reads n refl refl small (ground (arith, small))
  | no large ↦ too_large n refl refl (omega (arith, large)) (ground (arith, large))
]

module _ (a b c : ℕ) where
  with_kind :
      (kind : ℕ) (cells : List ℕ)
      → kind ≡ 1
      → scan_cells 0 (a ∷ b ∷ c ∷ kind ∷ cells) none ≡ ok (get_elem? cells 0)
  unfolding scan_cells
  with_kind kind [] e = ground (arith, e)
  with_kind kind (number ∷ cells) e =
      let f : (kind == 1) ≡ true = ground (arith, e) in
      rw (f, passed_over 5 cells (some number) (omega arith)) refl

  without_kind :
      (kind : ℕ) (cells : List ℕ)
      → kind ≢ 1
      → scan_cells 0 (a ∷ b ∷ c ∷ kind ∷ cells) none ≡ err not_a_ppi
  unfolding scan_cells
  without_kind kind cells ne = let f : (kind == 1) ≡ false = ground (arith, ne) in rw f refl

-- For a timer node without interrupt names, the number of the interrupt is 16 plus cell 4 if there
-- is a cell 3, which is 1, and a cell 4, which is below 16; without cell 3 or cell 4 the list is
-- too short, a cell 3 other than 1 is no PPI, and a cell 4 of 16 or more is not local.
pub timer_intid_from_dt-ReadsEntry :
    (cells : List ℕ)
    → ReadsEntry
        (get_elem? cells 3)
        (get_elem? cells 4)
        (timer_intid_from_dt (some (record { has_names = false; interrupts = some cells })))
unfolding timer_intid_from_dt scan_cells
timer_intid_from_dt-ReadsEntry [] = no_kind refl refl
timer_intid_from_dt-ReadsEntry (a ∷ []) = no_kind refl refl
timer_intid_from_dt-ReadsEntry (a ∷ b ∷ []) = no_kind refl refl
timer_intid_from_dt-ReadsEntry (a ∷ b ∷ c ∷ []) = no_kind refl refl
timer_intid_from_dt-ReadsEntry (a ∷ b ∷ c ∷ kind ∷ cells) = elim (ℕ_discrete kind 1) [
  | yes e ↦
      rw (timer_intid_from_dt, with_kind a b c kind cells e)
        (subst (λ k. ReadsEntry (some k) (get_elem? cells 0) (local_ppi (get_elem? cells 0)))
          (sym e) (local_ppi-ReadsEntry (get_elem? cells 0)))
  | no ne ↦
      rw (timer_intid_from_dt, without_kind a b c kind cells ne) (other_kind kind refl ne refl)
]
