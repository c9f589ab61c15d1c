-- ===== src/ChanTable/Routes/Laws.antt =====
-- aarch64/src/ipc.rs: how a claim of an interrupt ends, and where the interrupts go then.
use r9x.Prelude.{
  ℕ, zero, suc, ◌+◌, ◌-◌, ◌<◌, ◌≤◌, ◌≡◌, ◌≢◌, refl, ap, ◌∙◌, ◌⊎◌, inl, inr, false, ◌&&◌, ◌^◌,
  Option, none, some, List, [], ◌∷◌, ◌++◌, length, length-set, take, set, ◌==◌, ltb, leb, arith,
  Bool-cases, Option-cases, dec_lt,
}
use r9x.Ipc.Channel.{ChannelInner}
use r9x.ChanTable.{ChanTable, channel}
use r9x.ChanTable.Routes.{
  nirqs, intid_spi_min, intid_spi_max, IrqRoute, IrqRoutes, find_route, route, Claim, granted,
  err_bad_intid, err_bad_handle, err_already_claimed, err_no_slot, ClaimCode, owner_of, add_route,
  sys_irq_claim,
}

-- The table of routes as large as it is, and the count within it.
pub record IsRoutes (rs : IrqRoutes) : Type 0 where
  pub sized : length rs.routes ≡ nirqs
  pub counted : rs.nirqueued ≤ nirqs

-- A claim that is refused changes nothing and enables nothing.
abbrev pub unchanged : ClaimCode → IrqRoutes → Claim
unchanged code rs = record { code = code; left = rs; enabled = [] }

-- A claim ends in one of five ways.
pub data Claims (t : ChanTable) (rs : IrqRoutes) (intid handle : ℕ) (c : Claim) : Type 0 where
  not_shared :
      (intid < intid_spi_min) ⊎ (intid_spi_max < intid)
      → c ≡ unchanged err_bad_intid rs
      → Claims t rs intid handle c
  no_channel :
      channel t handle ≡ none → c ≡ unchanged err_bad_handle rs → Claims t rs intid handle c
  claimed_before :
      (r : IrqRoute)
      → find_route intid (take rs.nirqueued rs.routes) ≡ some r
      → c ≡ unchanged err_already_claimed rs
      → Claims t rs intid handle c
  no_slot : rs.nirqueued ≡ nirqs → c ≡ unchanged err_no_slot rs → Claims t rs intid handle c
  claims :
      (ch : ChannelInner)
      → route t rs intid ≡ none
      → channel t handle ≡ some ch
      → c.code ≡ granted
      → c.enabled ≡ intid ∷ []
      → IsRoutes c.left
      → route t c.left intid ≡ some ch
      → ((other : ℕ) → intid ≢ other → route t c.left other ≡ route t rs other)
      → Claims t rs intid handle c

take-set :
    (rs : List (Option IrqRoute)) (n : ℕ) (v : Option IrqRoute)
    → n < length rs
    → take (suc n) (set rs n v) ≡ take n rs ++ v ∷ []
take-set [] n v lt = absurd (omega (arith, lt))
take-set (r ∷ rs) zero v lt = refl
take-set (r ∷ rs) (suc n) v lt = ap (◌∷◌ r) (take-set rs n v (omega (arith, lt)))

-- The route added last is found where no other is, and hides no other.
find_route-last :
    (intid : ℕ) (rs : List (Option IrqRoute)) (r : IrqRoute)
    → find_route intid rs ≡ none
    → r.intid ≡ intid
    → find_route intid (rs ++ some r ∷ []) ≡ some r
unfolding find_route
find_route-last intid [] r free here = ground (arith, here)
find_route-last intid (none ∷ rs) r free here = find_route-last intid rs r free here
find_route-last intid (some x ∷ rs) r free here = elim (Bool-cases (x.intid == intid)) [
  | inl e ↦ absurd (ground (arith, e, free))
  | inr e ↦ rw (find_route, e) (find_route-last intid rs r (ground (arith, e, free)) here)
]

find_route-other :
    (intid : ℕ) (rs : List (Option IrqRoute)) (r : IrqRoute)
    → r.intid ≢ intid
    → find_route intid (rs ++ some r ∷ []) ≡ find_route intid rs
unfolding find_route
find_route-other intid [] r ne = ground (arith, ne)
find_route-other intid (none ∷ rs) r ne = find_route-other intid rs r ne
find_route-other intid (some x ∷ rs) r ne = elim (Bool-cases (x.intid == intid)) [
  | inl e ↦ rw (find_route, e) refl
  | inr e ↦ rw (find_route, e) (find_route-other intid rs r ne)
]

added_routes :
    (rs : IrqRoutes) (r : IrqRoute)
    → IsRoutes rs
    → rs.nirqueued < nirqs
    → take (rs.nirqueued + 1) (set rs.routes rs.nirqueued (some r))
      ≡ take rs.nirqueued rs.routes ++ some r ∷ []
added_routes rs r v lt =
    ap (λ k. take k (set rs.routes rs.nirqueued (some r))) next
    ∙ take-set rs.routes rs.nirqueued (some r) (omega (arith, v.sized, lt))
  where
    next : rs.nirqueued + 1 ≡ suc rs.nirqueued
    next = omega arith

add_route-Claims :
    (current : Option ℕ) (t : ChanTable) {rs : IrqRoutes} (intid handle : ℕ) (ch : ChannelInner)
    → IsRoutes rs
    → channel t handle ≡ some ch
    → find_route intid (take rs.nirqueued rs.routes) ≡ none
    → Claims t rs intid handle (add_route current rs intid handle)
unfolding add_route route
add_route-Claims current t {rs} intid handle ch v found free =
    elim (Bool-cases (leb nirqs rs.nirqueued)) [
      | inl e ↦
          let all : rs.nirqueued ≡ nirqs = ground (arith, e, v.counted) in
          rw (add_route, e)
            (no_slot all (ap (λ k. unchanged err_no_slot (record rs { nirqueued = k })) back))
      | inr e ↦
          let lt : rs.nirqueued < nirqs = ground (arith, e) in
          rw (add_route, e)
            (claims ch (unrouted free) found refl refl
              (record {
                sized = length-set rs.routes rs.nirqueued (some added) ∙ v.sized;
                counted = omega (arith, lt);
              })
              (here lt) (others lt))
    ]
  where
    added : IrqRoute
    added = record { intid = intid; chan = handle; owner = owner_of current }

    back : rs.nirqueued + 1 - 1 ≡ rs.nirqueued
    back = omega arith

    unrouted : find_route intid (take rs.nirqueued rs.routes) ≡ none → route t rs intid ≡ none
    unrouted e = rw (route, e) refl

    after : IrqRoutes
    after = record {
      routes = set rs.routes rs.nirqueued (some added);
      nirqueued = rs.nirqueued + 1;
    }

    here : rs.nirqueued < nirqs → route t after intid ≡ some ch
    here lt = rw (route, added_routes rs added v lt, find_route-last intid _ added free refl) found

    others :
        rs.nirqueued < nirqs → (other : ℕ) → intid ≢ other → route t after other ≡ route t rs other
    others lt other ne =
        rw (route, added_routes rs added v lt, find_route-other other _ added ne) refl

-- With a well-formed table of routes, a claim ends in one of five ways: outside the interrupts 32
-- to 1019, for a handle of no channel, for an interrupt that has a route and with no route free it
-- returns that error and changes nothing; else it is granted and enables the interrupt, which then
-- goes to the channel of the handle, all other interrupts go where they went, and the table is
-- well-formed.
pub sys_irq_claim-Claims :
    (current : Option ℕ) (t : ChanTable) {rs : IrqRoutes} (intid handle : ℕ)
    → IsRoutes rs
    → Claims t rs intid handle (sys_irq_claim current t rs intid handle)
unfolding sys_irq_claim
sys_irq_claim-Claims current t {rs} intid handle v =
    elim (Bool-cases (ltb intid (2 ^ 16) && (leb intid_spi_min intid && leb intid intid_spi_max))) [
      | inr e ↦ rw (sys_irq_claim, e) (not_shared (outside e) refl)
      | inl e ↦ elim (Option-cases (channel t handle)) [
        | inl f ↦ rw (sys_irq_claim, e, f) (no_channel f refl)
        | inr (ch, f) ↦ elim (Option-cases (find_route intid (take rs.nirqueued rs.routes))) [
          | inl g ↦ rw (sys_irq_claim, e, f, g) (add_route-Claims current t intid handle ch v f g)
          | inr (r, g) ↦ rw (sys_irq_claim, e, f, g) (claimed_before r g refl)
        ]
      ]
    ]
  where
    outside :
        (ltb intid (2 ^ 16) && (leb intid_spi_min intid && leb intid intid_spi_max)) ≡ false
        → (intid < intid_spi_min) ⊎ (intid_spi_max < intid)
    outside e = elim (dec_lt intid intid_spi_min) [
      | yes lt ↦ inl lt
      | no ge ↦ inr (ground (arith, e, ge))
    ]
