-- ===== src/Timer/Claims.antt =====
-- aarch64/src/timer.rs: the cores that race for a timer that is due.
use r9x.Prelude.{
  ℕ, zero, suc, ◌<◌, ◌≡◌, ◌≢◌, refl, ap, ap₂, Bool, true, false, List, [], ◌∷◌, length, replicate,
  arith, ◌==◌,
}
use r9x.Timer.{Timer}
use r9x.Timer.Interrupt.{claim_one_shot, claim_periodic}

-- Every core that has read the deadline tries to claim the timer, with the deadline that it would set:
-- who succeeds, in the order in which they try.
unfoldable pub race_periodic : ℕ → List ℕ → Timer → List Bool
race_periodic deadline [] t = []
race_periodic deadline (next ∷ nexts) t =
    let claim = claim_periodic deadline next t in claim.0 ∷ race_periodic deadline nexts claim.1

unfoldable pub race_one_shot : ℕ → Timer → List Bool
race_one_shot zero t = []
race_one_shot (suc cores) t = let claim = claim_one_shot t in claim.0 ∷ race_one_shot cores claim.1

lost :
    (deadline : ℕ) (nexts : List ℕ) (t : Timer)
    → t.deadline_ticks ≢ deadline
    → race_periodic deadline nexts t ≡ replicate (length nexts) false
unfolding race_periodic claim_periodic
lost deadline [] t ne = refl
lost deadline (next ∷ nexts) t ne =
    let e : (t.deadline_ticks == deadline) ≡ false = ground (arith, ne) in
    rw (race_periodic, claim_periodic, e) (ap (◌∷◌ false) (lost deadline nexts t ne))

-- Of any number of cores that have read the same deadline of a periodic timer and try one after the
-- other to replace it, the first by a later one, the first succeeds and all others fail.
pub race_periodic-first :
    (t : Timer) (next : ℕ) (nexts : List ℕ)
    → t.deadline_ticks < next
    → race_periodic t.deadline_ticks (next ∷ nexts) t ≡ true ∷ replicate (length nexts) false
unfolding race_periodic claim_periodic
race_periodic-first t next nexts later =
    let e : (t.deadline_ticks == t.deadline_ticks) ≡ true = ground arith in
    rw (race_periodic, claim_periodic, e)
      (ap (◌∷◌ true)
        (lost t.deadline_ticks nexts (record t { deadline_ticks = next }) (omega (arith, later))))

missed : (cores : ℕ) (t : Timer) → t.active ≡ false → race_one_shot cores t ≡ replicate cores false
unfolding race_one_shot claim_one_shot
missed zero t e = refl
missed (suc cores) t e = ap₂ (◌∷◌) e (missed cores (record t { active = false }) refl)

pub race_one_shot-first :
    (t : Timer) (cores : ℕ)
    → t.active ≡ true
    → race_one_shot (suc cores) t ≡ true ∷ replicate cores false
unfolding race_one_shot claim_one_shot
race_one_shot-first t cores e = ap₂ (◌∷◌) e (missed cores (record t { active = false }) refl)
