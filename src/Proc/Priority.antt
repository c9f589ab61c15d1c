-- ===== src/Proc/Priority.antt =====
-- aarch64/src/process.rs: what setting a priority does to the level that a process runs at.
use r9x.Prelude.{
  some_inj, ℕ, ◌<◌, ◌≡◌, refl, ap, ◌∙◌, min, Option, none, some, get_elem?, set, get_elem?-set_self,
  length, [], ◌∷◌, zero, suc, arith,
}
use r9x.Proc.{
  PriorityState, Process, Table, rebased, live, update_slot, level_of, set_priority,
  effective_priority,
}

rebased-min : (p : PriorityState) (prio : ℕ) → (rebased p prio).effective ≡ min p.effective prio
unfolding rebased
rebased-min p prio = ground arith

get_elem?-lt-length :
    (t : Table) (id : ℕ) {slot : Option Process} → get_elem? t id ≡ some slot → id < length t
get_elem?-lt-length [] id h = absurd (cc)
get_elem?-lt-length (x ∷ t) zero h = omega arith
get_elem?-lt-length (x ∷ t) (suc id) h = omega (arith, get_elem?-lt-length t id h)

level_at :
    (t : Table) (id : ℕ) {o : Option (Option Process)}
    → get_elem? t id ≡ o
    → effective_priority t id ≡ level_of (live o)
unfolding effective_priority
level_at t id g = ap (λ o. level_of (live o)) g

set_priority-slot :
    (t : Table) (id prio : ℕ) (p : Process)
    → get_elem? t id ≡ some (some p)
    → set_priority t id prio ≡ set t id (some (record p { prio = rebased p.prio prio }))
unfolding set_priority
set_priority-slot t id prio p h =
    ap (update_slot t id (λ q. record q { prio = rebased q.prio prio })) h

set_priority-live :
    (t : Table) (id prio : ℕ) (p : Process)
    → get_elem? t id ≡ some (some p)
    → effective_priority (set_priority t id prio) id ≡ some (min p.prio.effective prio)
set_priority-live t id prio p h =
    ap (λ u. effective_priority u id) (set_priority-slot t id prio p h)
    ∙ level_at _ id (
        get_elem?-set_self t id (some (record p { prio = rebased p.prio prio }))
          (get_elem?-lt-length t id h))
    ∙ ap some (rebased-min p.prio prio)

clash : {x : ℕ} (o : Option ℕ) → o ≡ none → o ≡ some x → ⊥
clash o a b = absurd (cc)

-- Setting the priority of a process that runs at a level leaves it at the more urgent of that level
-- and the new one: a less urgent priority does not take effect, boosted or not.
pub set_priority-effective :
    (t : Table) (id prio e : ℕ)
    → effective_priority t id ≡ some e
    → effective_priority (set_priority t id prio) id ≡ some (min e prio)
set_priority-effective t id prio e h = from_slot (get_elem? t id) refl
  where
    from_slot :
        (o : Option (Option Process))
        → get_elem? t id ≡ o
        → effective_priority (set_priority t id prio) id ≡ some (min e prio)
    from_slot none g = absurd (clash _ (level_at t id g) h)
    from_slot (some none) g = absurd (clash _ (level_at t id g) h)
    from_slot (some (some p)) g =
        set_priority-live t id prio p g
        ∙ ap (λ x. some (min x prio)) (some_inj _ (level_at t id g) h)
