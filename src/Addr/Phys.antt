-- ===== src/Addr/Phys.antt =====
-- core/src/addr.rs: the operations of `PhysRange`.
use r9x.Prelude.{
  ℕ, zero, suc, ◌+◌, ◌-◌, ◌/◌, min, max, Bool, ◌&&◌, Option, none, some, List, [], ◌∷◌, Outcome, ok,
  ◌>>=◌, add_u64, sub_u64, ltb, leb, if◌then◌else◌,
}
use r9x.Addr.{PhysRange, page_size_4k, RegBlock, len_or_zero, round_up2_u64, round_down2_u64}

unfoldable pub with_len {ℓ} : {E : Type ℓ} → ℕ → ℕ → Outcome E PhysRange
with_len start len = do end ← add_u64 start len; ok (record { start = start; end = end })

-- `PhysRange::from_regblock`: none for a block with no length.
unfoldable pub from_regblock {ℓ} : {E : Type ℓ} → RegBlock → Outcome E (Option PhysRange)
unfolding with_len
from_regblock r = elim r.len [
  | none ↦ ok none
  | some len ↦ with_len r.addr len >>= λ range. ok (some range)
]

-- `impl From<&RegBlock> for PhysRange`
unfoldable pub from_reg {ℓ} : {E : Type ℓ} → RegBlock → Outcome E PhysRange
unfolding with_len
from_reg r = with_len r.addr (len_or_zero r.len)

unfoldable pub contains : PhysRange → ℕ → Bool
contains r addr = leb r.start addr && ltb addr r.end

unfoldable pub offset_addr {ℓ} : {E : Type ℓ} → PhysRange → ℕ → Outcome E (Option ℕ)
unfolding contains
offset_addr r offset = do
  addr ← add_u64 r.start offset
  ok (if contains r addr then some addr else none)

unfoldable pub size {ℓ} : {E : Type ℓ} → PhysRange → Outcome E ℕ
size r = sub_u64 r.end r.start

-- `PhysRange::add`: the least range that covers both.
unfoldable pub add : PhysRange → PhysRange → PhysRange
add r s = record { start = min r.start s.start; end = max r.end s.end }

unfoldable pub round {ℓ} : {E : Type ℓ} → PhysRange → ℕ → Outcome E PhysRange
unfolding round_down2_u64 round_up2_u64
round r step_size = do
  start ← round_down2_u64 r.start step_size
  end ← round_up2_u64 r.end step_size
  ok (record { start = start; end = end })

-- The addresses that `(start..end).step_by(step)` gives: `count` of them.
unfoldable pub stepping : ℕ → ℕ → ℕ → List ℕ
stepping step pa zero = []
stepping step pa (suc count) = pa ∷ stepping step (pa + step) count

-- `step_by_rounded`, as the list of the addresses that the iterator gives.
unfoldable pub step_by_rounded {ℓ} : {E : Type ℓ} → PhysRange → ℕ → Outcome E (List ℕ)
unfolding round
step_by_rounded r step_size = do
  pages ← round r step_size
  ok (stepping step_size pages.start ((pages.end - pages.start + step_size - 1) / step_size))

-- The page at a physical address.
abbrev pub page_at : ℕ → PhysRange
page_at pa = record { start = pa; end = pa + page_size_4k }
