-- ===== src/Ipc/BoundedQueue/Refine.antt =====
-- port/src/ipc.rs: `BoundedQueue` against the list of the messages that it holds, oldest first.
use mathlib.Core.List.{append_assoc}
use r9x.Prelude.{
  ℕ, zero, suc, ◌+◌, ◌-◌, ◌%◌, ◌≤◌, ◌<◌, ◌≡◌, refl, sym, ap, ap₂, ◌∙◌, true, false, none, some,
  List, [], ◌∷◌, ◌++◌, map, length, get_or, set, replicate, arith, length-set,
}
use r9x.Ipc.Message.{Message}
use r9x.Ipc.BoundedQueue.{BoundedQueue, queue_cap, new, push, pop}
use r9x.Ipc.BoundedQueue.Window.{window, window-set, window-cons, window-rotate}

-- The array has its slots, `ms` stand in the `len` slots from `head` on, and the others are empty.
pub record Holds (q : BoundedQueue) (ms : List Message) : Type 0 where
  pub size : length q.slots ≡ queue_cap
  pub head_in : q.head < queue_cap
  pub count : q.len ≡ length ms
  pub fits : length ms ≤ queue_cap
  pub filled :
      window none queue_cap q.slots q.head queue_cap
      ≡ map some ms ++ replicate (queue_cap - length ms) none

pub new-Holds : Holds new []
unfolding new window
new-Holds = record {
  size = refl;
  head_in = omega arith;
  count = refl;
  fits = omega arith;
  filled = refl;
}

module _ {ℓ} {A : Type ℓ} where
  set_first_empty :
      (ms : List A) (m : A) (r : ℕ)
      → set (map some ms ++ replicate (suc r) none) (length ms) (some m)
        ≡ map some (ms ++ m ∷ []) ++ replicate r none
  set_first_empty [] m r = refl
  set_first_empty (x ∷ ms) m r = ap (◌∷◌ (some x)) (set_first_empty ms m r)

  length-snoc : (ms : List A) (m : A) → length (ms ++ m ∷ []) ≡ suc (length ms)
  length-snoc [] m = refl
  length-snoc (x ∷ ms) m = ap suc (length-snoc ms m)

  replicate-snoc : (n : ℕ) (a : A) → replicate n a ++ a ∷ [] ≡ a ∷ replicate n a
  replicate-snoc zero a = refl
  replicate-snoc (suc n) a = ap (◌∷◌ a) (replicate-snoc n a)

-- A push on a full queue refuses and changes nothing; else it appends the message.
pub push_full : (q : BoundedQueue) (m : Message) → q.len ≡ queue_cap → push q m ≡ (false, q)
unfolding push
push_full q m e = ground arith

pub push_ok :
    {q : BoundedQueue} {ms : List Message} (m : Message)
    → Holds q ms
    → length ms < queue_cap
    → (q' : BoundedQueue) × (push q m ≡ (true, q')) × Holds q' (ms ++ m ∷ [])
unfolding push
push_ok {q} {ms} m h lt = (
  q',
  ground (arith, h.count),
  record {
    size = length-set q.slots tail (some m) ∙ h.size;
    head_in = h.head_in;
    count = omega (arith, h.count, length-snoc ms m);
    fits = omega (arith, length-snoc ms m);
    filled =
        window-set none queue_cap q.slots (some m) q.head queue_cap q.len h.size h.head_in
          (omega (arith, h.count)) (omega arith)
        ∙ ap₂ (λ w k. set w k (some m)) h.filled h.count
        ∙ ap (λ r. set (map some ms ++ replicate r none) (length ms) (some m)) room
        ∙ set_first_empty ms m (queue_cap - length (ms ++ m ∷ []));
  },
)
  where
    room : queue_cap - length ms ≡ suc (queue_cap - length (ms ++ m ∷ []))
    room = omega (arith, length-snoc ms m)

    tail : ℕ
    tail = (q.head + q.len) % queue_cap

    q' : BoundedQueue
    q' = record q { slots = set q.slots tail (some m); len = q.len + 1 }

-- A pop on an empty queue changes nothing; else it takes the oldest message off.
pub pop_empty : {q : BoundedQueue} → Holds q [] → pop q ≡ (none, q)
unfolding pop
pop_empty {q} h = rw (first, pop)
  where
    first : get_or q.slots q.head none ≡ none
    first = cc (sym (window-cons none queue_cap q.slots q.head 7) ∙ h.filled)

pub pop_ok :
    {q : BoundedQueue} {m : Message} {ms : List Message}
    → Holds q (m ∷ ms)
    → (q' : BoundedQueue) × (pop q ≡ (some m, q')) × Holds q' ms
unfolding pop
pop_ok {q} {m} {ms} h = (
  q',
  rw (first, pop) (ground arith),
  record {
    size = length-set q.slots q.head none ∙ h.size;
    head_in = omega (arith, h.head_in);
    count = omega (arith, h.count);
    fits = omega (arith, h.fits);
    filled =
        window-rotate none queue_cap q.slots q.head 7 h.size h.head_in refl
        ∙ ap (λ w. w ++ none ∷ []) rest
        ∙ append_assoc (map some ms) (replicate (queue_cap - suc (length ms)) none) (none ∷ [])
        ∙ ap (◌++◌ (map some ms))
            (replicate-snoc (queue_cap - suc (length ms)) none ∙ ap (λ r. replicate r none) room);
  },
)
  where
    q' : BoundedQueue
    q' = record q {
      slots = set q.slots q.head none;
      head = (q.head + 1) % queue_cap;
      len = q.len - 1;
    }

    split :
        get_or q.slots q.head none ∷ window none queue_cap q.slots ((q.head + 1) % queue_cap) 7
        ≡ some m ∷ (map some ms ++ replicate (queue_cap - suc (length ms)) none)
    split = sym (window-cons none queue_cap q.slots q.head 7) ∙ h.filled

    first : get_or q.slots q.head none ≡ some m
    first = cc split

    rest :
        window none queue_cap q.slots ((q.head + 1) % queue_cap) 7
        ≡ map some ms ++ replicate (queue_cap - suc (length ms)) none
    rest = cc split

    room : suc (queue_cap - suc (length ms)) ≡ queue_cap - length ms
    room = omega (arith, h.fits)
