-- ===== src/ChanTable/Closing.antt =====
-- aarch64/src/ipc.rs: what `close_all_for` leaves of the table, and whom it wakes.
use r9x.Prelude.{
  some_inj, ℕ, zero, suc, ◌<◌, ◌≤◌, ◌≡◌, refl, sym, ap, subst, ◌∙◌, ◌⊎◌, inl, inr, Bool, true,
  false, ◌||◌, Option, none, some, List, [], ◌∷◌, ◌++◌, length, take, drop, get_elem?, min, leb,
  if◌then◌else◌, arith, All, All-append, All-take, All-drop, Bool-cases,
}
use r9x.Ipc.Message.{Message}
use r9x.Ipc.Channel.{Call, wake, ChannelInner, is_waiter, wake_all, is_blocked_on, close}
use r9x.Ipc.Channel.Inv.{Models}
use r9x.ChanTable.{ChanTable, nchannels, channel, close_blocked, close_all_for}

-- A channel that is well-formed: a receiver waits only on an empty queue, and a sender on a full one.
abbrev pub IsSound : ChannelInner → Type 0
IsSound c = (ms : List Message) × Models c ms

abbrev pub IsBlockedOn : ℕ → ChannelInner → Type 0
IsBlockedOn id c = (c.recv_waiter ≡ some id) ⊎ (c.send_waiter ≡ some id)

-- A channel, and what the end of the process leaves of it.
pub data ClosesFor (id : ℕ) (c d : ChannelInner) : Type 0 where
  closes :
      IsBlockedOn id c
      → d ≡ record c { recv_waiter = none; send_waiter = none; is_closed = true }
      → ClosesFor id c d
  keeps : ¬ IsBlockedOn id c → d ≡ c → ClosesFor id c d

-- The same of what stands at an index.
pub data ClosesAt (id : ℕ) (before after : Option ChannelInner) : Type 0 where
  absent : before ≡ none → after ≡ none → ClosesAt id before after
  present :
      (c d : ChannelInner)
      → before ≡ some c
      → after ≡ some d
      → ClosesFor id c d
      → ClosesAt id before after

-- One wake of the process for each of the channels that it is blocked on.
pub data Wakes (id : ℕ) : List ChannelInner → List Call → Type 0 where
  done : Wakes id [] []
  passes :
      {cs : List ChannelInner} {calls : List Call} (c : ChannelInner)
      → ¬ IsBlockedOn id c
      → Wakes id cs calls
      → Wakes id (c ∷ cs) calls
  wakes :
      {cs : List ChannelInner} {calls : List Call} (c : ChannelInner)
      → IsBlockedOn id c
      → Wakes id cs calls
      → Wakes id (c ∷ cs) (wake id ∷ calls)

pub record Closes (id : ℕ) (t : ChanTable) (r : List Call × ChanTable) : Type 0 where
  pub same_count : r.1.nused ≡ t.nused
  pub each :
      (h : ℕ)
      → h < t.nused
      → h < nchannels
      → ClosesAt id (get_elem? t.channels h) (get_elem? r.1.channels h)
  pub rest :
      (h : ℕ) → (t.nused ≤ h) ⊎ (nchannels ≤ h) → get_elem? r.1.channels h ≡ get_elem? t.channels h
  pub unblocked : (h : ℕ) (c : ChannelInner) → channel r.1 h ≡ some c → ¬ IsBlockedOn id c
  pub sound : All IsSound r.1.channels
  pub woken : Wakes id (take (min t.nused nchannels) t.channels) r.0

abbrev closed_for : ℕ → ChannelInner → ChannelInner
closed_for id c = if is_blocked_on c id then (close c).1 else c

abbrev closed_in : ℕ → Option ChannelInner → Option ChannelInner
closed_in id none = none
closed_in id (some c) = some (closed_for id c)

module _ (id : ℕ) where
  is_waiter-eq : (w : Option ℕ) → is_waiter w id ≡ true → w ≡ some id
  is_waiter-eq none e = absurd (cc)
  is_waiter-eq (some v) e = ground (arith, e)

  eq-is_waiter : (w : Option ℕ) → w ≡ some id → is_waiter w id ≡ true
  eq-is_waiter none e = absurd (cc)
  eq-is_waiter (some v) e = ground (arith, e)

  blocked-IsBlockedOn : (c : ChannelInner) → is_blocked_on c id ≡ true → IsBlockedOn id c
  unfolding is_blocked_on
  blocked-IsBlockedOn c e = elim (Bool-cases (is_waiter c.recv_waiter id)) [
    | inl f ↦ inl (is_waiter-eq c.recv_waiter f)
    | inr f ↦ inr (is_waiter-eq c.send_waiter (ground (arith, e, f)))
  ]

  free_not : (c : ChannelInner) → is_blocked_on c id ≡ false → ¬ IsBlockedOn id c
  unfolding is_blocked_on
  free_not c e (inl f) = ground (arith, e, eq-is_waiter c.recv_waiter f)
  free_not c e (inr f) = ground (arith, e, eq-is_waiter c.send_waiter f)

  closed_for-ClosesFor : (c : ChannelInner) → ClosesFor id c (closed_for id c)
  unfolding close
  closed_for-ClosesFor c = elim (Bool-cases (is_blocked_on c id)) [
    | inl e ↦ rw e (closes (blocked-IsBlockedOn c e) refl)
    | inr e ↦ rw e (keeps (free_not c e) refl)
  ]

  closed_in-ClosesAt : (o : Option ChannelInner) → ClosesAt id o (closed_in id o)
  closed_in-ClosesAt none = absent refl refl
  closed_in-ClosesAt (some c) = present c (closed_for id c) refl refl (closed_for-ClosesFor c)

module _ (id : ℕ) where
  close_blocked-cons :
      (c : ChannelInner) (cs : List ChannelInner)
      → (close_blocked id (c ∷ cs)).1 ≡ closed_for id c ∷ (close_blocked id cs).1
  unfolding close_blocked
  close_blocked-cons c cs = elim (Bool-cases (is_blocked_on c id)) [
    | inl e ↦ rw (close_blocked, e) refl
    | inr e ↦ rw (close_blocked, e) refl
  ]

  closed_at :
      (n : ℕ) (cs : List ChannelInner) (h : ℕ)
      → h < n
      → get_elem? ((close_blocked id (take n cs)).1 ++ drop n cs) h ≡ closed_in id (get_elem? cs h)
  closed_at zero cs h lt = absurd (omega (arith, lt))
  closed_at (suc n) [] h lt = unfold close_blocked in refl
  closed_at (suc n) (c ∷ cs) zero lt = rw (close_blocked-cons c (take n cs)) refl
  closed_at (suc n) (c ∷ cs) (suc h) lt =
      rw (close_blocked-cons c (take n cs)) (closed_at n cs h (omega (arith, lt)))

  kept_at :
      (n : ℕ) (cs : List ChannelInner) (h : ℕ)
      → n ≤ h
      → get_elem? ((close_blocked id (take n cs)).1 ++ drop n cs) h ≡ get_elem? cs h
  kept_at zero cs h le = unfold close_blocked in refl
  kept_at (suc n) [] h le = unfold close_blocked in refl
  kept_at (suc n) (c ∷ cs) zero le = absurd (omega (arith, le))
  kept_at (suc n) (c ∷ cs) (suc h) le =
      rw (close_blocked-cons c (take n cs)) (kept_at n cs h (omega (arith, le)))

  close_all_for-channel :
      (t : ChanTable) (h : ℕ) → channel (close_all_for id t).1 h ≡ closed_in id (channel t h)
  unfolding channel close_all_for
  close_all_for-channel t h = elim (Bool-cases (leb nchannels h || leb t.nused h)) [
    | inl e ↦ rw (channel, e) refl
    | inr e ↦ rw (channel, e) (closed_at (min t.nused nchannels) t.channels h (ground (arith, e)))
  ]

  closed_for-free : (c : ChannelInner) → is_blocked_on (closed_for id c) id ≡ false
  closed_for-free c = free (is_blocked_on c id) refl
    where
      free :
          (b : Bool)
          → is_blocked_on c id ≡ b
          → is_blocked_on (if b then (close c).1 else c) id ≡ false
      free true e = unfold is_blocked_on close in refl
      free false e = e

  closed_for-IsSound : (c : ChannelInner) → IsSound c → IsSound (closed_for id c)
  unfolding close
  closed_for-IsSound c (ms, v) = elim (Bool-cases (is_blocked_on c id)) [
    | inl e ↦ rw e (ms, record { queue = v.queue; recv_empty = inl refl; send_full = inl refl })
    | inr e ↦ rw e (ms, v)
  ]

  close_blocked-IsSound :
      (cs : List ChannelInner) → All IsSound cs → All IsSound (close_blocked id cs).1
  close_blocked-IsSound [] all = unfold close_blocked in tt
  close_blocked-IsSound (c ∷ cs) all =
      rw (close_blocked-cons c cs) (closed_for-IsSound c all.0, close_blocked-IsSound cs all.1)

  -- One waiter at most is woken, and it is the process.
  one_waiter :
      (r s : Option ℕ)
      → (r ≡ none) ⊎ (s ≡ none)
      → (is_waiter r id || is_waiter s id) ≡ true
      → wake_all r ++ wake_all s ≡ wake id ∷ []
  one_waiter none none alone e = absurd (cc)
  one_waiter none (some w) alone e = ap (λ v. wake v ∷ []) (ground (arith, e))
  one_waiter (some w) none alone e = ap (λ v. wake v ∷ []) (ground (arith, e))
  one_waiter (some w) (some u) (inl e) f = absurd (cc)
  one_waiter (some w) (some u) (inr e) f = absurd (cc)

  alone : (c : ChannelInner) → IsSound c → (c.recv_waiter ≡ none) ⊎ (c.send_waiter ≡ none)
  alone c (ms, v) = elim v.recv_empty [
    | inl e ↦ inl e
    | inr e ↦ elim v.send_full [ inl f ↦ inr f | inr f ↦ absurd (omega (arith, f, ap length e)) ]
  ]

  close_blocked-Wakes :
      (cs : List ChannelInner) → All IsSound cs → Wakes id cs (close_blocked id cs).0
  unfolding close_blocked
  close_blocked-Wakes [] all = done
  close_blocked-Wakes (c ∷ cs) all = elim (Bool-cases (is_blocked_on c id)) [
    | inl e ↦
        let one : (close c).0 ≡ wake id ∷ [] =
          unfold is_blocked_on close in one_waiter c.recv_waiter c.send_waiter (alone c all.0) e in
        rw (close_blocked, e, one)
          (wakes c (blocked-IsBlockedOn id c e) (close_blocked-Wakes cs all.1))
    | inr e ↦ rw (close_blocked, e) (passes c (free_not id c e) (close_blocked-Wakes cs all.1))
  ]

some_free :
    (id : ℕ) (o : Option ChannelInner) (c : ChannelInner)
    → closed_in id o ≡ some c
    → is_blocked_on c id ≡ false
some_free id none c e = absurd (cc)
some_free id (some d) c e =
    subst (λ x. is_blocked_on x id ≡ false) (some_inj _ refl e) (closed_for-free id d)

-- On a table of well-formed channels, `close_all_for` leaves each channel of a handle as it was, if
-- the process was not blocked on it, and else closed and without waiters, its queue kept; all else of
-- the table is as it was. The process is then blocked on no channel, all channels are well-formed,
-- and the calls made are one wake of the process itself for each channel that it was blocked on.
pub close_all_for-Closes :
    (id : ℕ) (t : ChanTable) → All IsSound t.channels → Closes id t (close_all_for id t)
close_all_for-Closes id t all =
    let n = min t.nused nchannels in
    let sound_used = All-take IsSound n t.channels all in
    record {
      same_count = unfold close_all_for in refl;
      each = λ h used lt.
          unfold close_all_for in
          subst (ClosesAt id (get_elem? t.channels h))
            (sym (closed_at id n t.channels h (omega (arith, used, lt))))
            (closed_in-ClosesAt id (get_elem? t.channels h));
      rest = λ h out. unfold close_all_for in kept_at id n t.channels h (ground (arith, out));
      unblocked = λ h c e.
          free_not id c (some_free id (channel t h) c (sym (close_all_for-channel id t h) ∙ e));
      sound =
          unfold close_all_for in
          All-append IsSound (close_blocked id (take n t.channels)).1 (drop n t.channels)
            (close_blocked-IsSound id (take n t.channels) sound_used)
            (All-drop IsSound n t.channels all);
      woken = unfold close_all_for in close_blocked-Wakes id (take n t.channels) sound_used;
    }
