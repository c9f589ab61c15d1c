-- ===== src/Ipc/BoundedQueue/Fifo.antt =====
-- port/src/ipc.rs: what `BoundedQueue` promises, a first-in first-out list of at most `queue_cap`
-- messages, and that no sequence of calls tells the array of slots from it.
use r9x.Prelude.{
  ◌≡◌, ◌<◌, refl, sym, ap, ◌∙◌, Bool, true, false, Option, none, some, List, [], ◌∷◌, ◌++◌, length,
  arith, ltb, lt→ltb, if◌then◌else◌, dec_lt,
}
use r9x.Ipc.Message.{Message}
use r9x.Ipc.BoundedQueue.{BoundedQueue, queue_cap, new, push, pop}
use r9x.Ipc.BoundedQueue.Refine.{Holds, new-Holds, push_full, push_ok, pop_empty, pop_ok}

pub data Op : Type 0 where
  put : Message → Op
  take : Op

-- What a caller sees of a call: whether a push was accepted, or the message that a pop gave.
pub data Reply : Type 0 where
  accepted : Bool → Reply
  taken : Option Message → Reply

-- The calls on the array of slots, and what each returns.
pub run : BoundedQueue → List Op → List Reply
run q [] = []
run q (put m ∷ ops) = let (b, q') = push q m in accepted b ∷ run q' ops
run q (take ∷ ops) = let (o, q') = pop q in taken o ∷ run q' ops

-- The same calls on the list of messages, oldest first.
pub spec : List Message → List Op → List Reply
spec ms [] = []
spec ms (put m ∷ ops) =
    let room = accepted true ∷ spec (ms ++ m ∷ []) ops in
    let refused = accepted false ∷ spec ms ops in
    if ltb (length ms) queue_cap then room else refused
spec [] (take ∷ ops) = taken none ∷ spec [] ops
spec (m ∷ ms) (take ∷ ops) = taken (some m) ∷ spec ms ops

spec_room :
    (ms : List Message) (m : Message) (ops : List Op)
    → length ms < queue_cap
    → spec ms (put m ∷ ops) ≡ accepted true ∷ spec (ms ++ m ∷ []) ops
unfolding spec
spec_room ms m ops h = rw (lt→ltb _ _ h)

spec_full :
    (ms : List Message) (m : Message) (ops : List Op)
    → length ms ≡ queue_cap
    → spec ms (put m ∷ ops) ≡ accepted false ∷ spec ms ops
unfolding spec
spec_full ms m ops h = rw h

run-put :
    (q : BoundedQueue) {q' : BoundedQueue} {b : Bool} (m : Message) (ops : List Op)
    → push q m ≡ (b, q')
    → run q (put m ∷ ops) ≡ accepted b ∷ run q' ops
unfolding run
run-put q m ops e = ap (λ r. accepted r.0 ∷ run r.1 ops) e

run-take :
    (q : BoundedQueue) {q' : BoundedQueue} {o : Option Message} (ops : List Op)
    → pop q ≡ (o, q')
    → run q (take ∷ ops) ≡ taken o ∷ run q' ops
unfolding run
run-take q ops e = ap (λ r. taken r.0 ∷ run r.1 ops) e

spec-take_empty : (ops : List Op) → spec [] (take ∷ ops) ≡ taken none ∷ spec [] ops
unfolding spec
spec-take_empty ops = refl

spec-take :
    (m : Message) (ms : List Message) (ops : List Op)
    → spec (m ∷ ms) (take ∷ ops) ≡ taken (some m) ∷ spec ms ops
unfolding spec
spec-take m ms ops = refl

-- From a queue that holds `ms`, the replies are those of the list.
pub run_refines_from :
    (ops : List Op) {q : BoundedQueue} {ms : List Message} → Holds q ms → run q ops ≡ spec ms ops
run_refines_from [] h = unfold run spec in refl
run_refines_from (put m ∷ ops) {q} {ms} h = elim (dec_lt (length ms) queue_cap) [
  | yes room ↦
      let (q', e, h') = push_ok m h room in
      run-put _ m ops e
      ∙ ap (◌∷◌ (accepted true)) (run_refines_from ops h')
      ∙ sym (spec_room ms m ops room)
  | no full ↦
      let e : length ms ≡ queue_cap = omega (arith, h.fits) in
      run-put _ m ops (push_full q m (h.count ∙ e))
      ∙ ap (◌∷◌ (accepted false)) (run_refines_from ops h)
      ∙ sym (spec_full ms m ops e)
]
run_refines_from (take ∷ ops) {ms = []} h =
    run-take _ ops (pop_empty h)
    ∙ ap (◌∷◌ (taken none)) (run_refines_from ops h)
    ∙ sym (spec-take_empty ops)
run_refines_from (take ∷ ops) {ms = m ∷ ms} h =
    let (q', e, h') = pop_ok h in
    run-take _ ops e
    ∙ ap (◌∷◌ (taken (some m))) (run_refines_from ops h')
    ∙ sym (spec-take m ms ops)

-- Any sequence of pushes and pops on a new queue gets the replies that a list of at most queue_cap
-- messages gives: a push is refused exactly when queue_cap messages wait, and a pop gives the
-- oldest message, or none when none waits.
pub run_refines : (ops : List Op) → run new ops ≡ spec [] ops
run_refines ops = run_refines_from ops new-Holds
