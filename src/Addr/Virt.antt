-- ===== src/Addr/Virt.antt =====
-- core/src/addr.rs: the operations of `VirtRange`.
use r9x.Prelude.{
  ℕ, Bool, ◌&&◌, Option, none, some, Outcome, ok, ◌>>=◌, add_u64, sub_u64, ltb, leb, if◌then◌else◌,
}
use r9x.Addr.{VirtRange, PhysRange, RegBlock, len_or_zero}

unfoldable pub with_len {ℓ} : {E : Type ℓ} → ℕ → ℕ → Outcome E VirtRange
with_len start len = do end ← add_u64 start len; ok (record { start = start; end = end })

unfoldable pub from_physrange {ℓ} : {E : Type ℓ} → PhysRange → ℕ → Outcome E VirtRange
from_physrange pr offset = do
  start ← add_u64 pr.start offset
  end ← add_u64 pr.end offset
  ok (record { start = start; end = end })

unfoldable pub contains : VirtRange → ℕ → Bool
contains r addr = leb r.start addr && ltb addr r.end

unfoldable pub offset_addr {ℓ} : {E : Type ℓ} → VirtRange → ℕ → Outcome E (Option ℕ)
unfolding contains
offset_addr r offset = do
  addr ← add_u64 r.start offset
  ok (if contains r addr then some addr else none)

unfoldable pub size {ℓ} : {E : Type ℓ} → VirtRange → Outcome E ℕ
size r = sub_u64 r.end r.start

unfoldable pub from_regblock {ℓ} : {E : Type ℓ} → RegBlock → Outcome E VirtRange
from_regblock r = with_len r.addr (len_or_zero r.len)
