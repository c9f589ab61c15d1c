-- ===== src/ChanTable/Routes.antt =====
-- aarch64/src/ipc.rs: the routes from interrupts to channels.
pub mod Laws
use r9x.Prelude.{
  ℕ, zero, suc, ◌+◌, ◌-◌, ◌^◌, Bool, true, false, ◌||◌, not, ◌&&◌, Option, none, some, List, [],
  ◌∷◌, ◌++◌, length, take, replicate, set, ◌==◌, ltb, leb, if◌then◌else◌,
}
use r9x.Ipc.Channel.{ChannelInner}
use r9x.ChanTable.{ChanTable, channel}

abbrev pub nirqs : ℕ
nirqs = 16

abbrev pub intid_spi_min : ℕ
intid_spi_min = 32

abbrev pub intid_spi_max : ℕ
intid_spi_max = 1019

pub record IrqRoute : Type 0 where
  pub intid : ℕ
  pub chan : ℕ
  pub owner : ℕ

-- `IRQ_ROUTES` and `NIRQUEUED`.
pub record IrqRoutes : Type 0 where
  pub routes : List (Option IrqRoute)
  pub nirqueued : ℕ

unfoldable pub no_routes : IrqRoutes
no_routes = record { routes = replicate nirqs none; nirqueued = 0 }

-- The first of the routes for the interrupt.
unfoldable pub find_route : ℕ → List (Option IrqRoute) → Option IrqRoute
find_route intid [] = none
find_route intid (none ∷ rs) = find_route intid rs
find_route intid (some r ∷ rs) =
    let rest = find_route intid rs in if r.intid == intid then some r else rest

abbrev routed : ChanTable → Option IrqRoute → Option ChannelInner
routed t none = none
routed t (some r) = channel t r.chan

-- `route`
unfoldable pub route : ChanTable → IrqRoutes → ℕ → Option ChannelInner
route t rs intid = routed t (find_route intid (take rs.nirqueued rs.routes))

-- The result codes of `sys_irq_claim`.
pub data ClaimCode : Type 0 where
  granted err_bad_intid err_bad_handle err_already_claimed err_no_slot : ClaimCode

-- The code, the routes that are left, and the interrupts that are enabled at the distributor.
pub record Claim : Type 0 where
  pub code : ClaimCode
  pub left : IrqRoutes
  pub enabled : List ℕ

abbrev pub refuse : ClaimCode → IrqRoutes → Claim
refuse code rs = record { code = code; left = rs; enabled = [] }

abbrev owner_of : Option ℕ → ℕ
owner_of none = 0
owner_of (some me) = me

-- A slot is taken for the route, and given back where it is behind the last one.
unfoldable pub add_route : Option ℕ → IrqRoutes → ℕ → ℕ → Claim
add_route current rs intid handle =
    let slot = rs.nirqueued in
    let added = record rs { nirqueued = slot + 1 } in
    if leb nirqs slot
    then refuse err_no_slot (record added { nirqueued = added.nirqueued - 1 })
    else record {
      code = granted;
      left = record added {
        routes =
            set rs.routes slot
              (some (record { intid = intid; chan = handle; owner = owner_of current }));
      };
      enabled = intid ∷ [];
    }

abbrev claim_at : Option ℕ → IrqRoutes → ℕ → ℕ → Option ChannelInner → Option IrqRoute → Claim
claim_at current rs intid handle none taken = refuse err_bad_handle rs
claim_at current rs intid handle (some c) none = add_route current rs intid handle
claim_at current rs intid handle (some c) (some r) = refuse err_already_claimed rs

-- `sys_irq_claim`
unfoldable pub sys_irq_claim : Option ℕ → ChanTable → IrqRoutes → ℕ → ℕ → Claim
sys_irq_claim current t rs intid handle =
    if ltb intid (2 ^ 16) && (leb intid_spi_min intid && leb intid intid_spi_max)
    then claim_at current rs intid handle (channel t handle)
        (find_route intid (take rs.nirqueued rs.routes))
    else refuse err_bad_intid rs
