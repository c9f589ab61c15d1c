-- ===== src/BindTable/Tests.antt =====
-- cmd/nameserver/src/bind_table.rs: runs of the model, and the theorem at one of them.
use r9x.Prelude.{ℕ, ◌≡◌, refl, none, some, List, [], ◌∷◌, replicate, arith}
use r9x.BindTable.{
  Pair, r_ok, r_enoent, new, same_bytes, matches, is_bound, replace, take_free, bind, find_pair,
  resolve, clear, unbind,
}
use r9x.BindTable.Laws.{Binds, bind-Binds}

abbrev console : List ℕ
console = 99 ∷ 111 ∷ 110 ∷ []

abbrev handles : Pair
handles = record { in_h = 3; out_h = 4 }

-- A name of 33 bytes.
abbrev long_name : List ℕ
long_name = replicate 33 97

running : Unit {0}
unfolding new bind replace take_free is_bound same_bytes find_pair matches clear unbind
running = tt

resolves : resolve (bind new console handles).1 console ≡ some handles
unfolding running
resolves = refl

unbinds : resolve (unbind (bind new console handles).1 console).1 console ≡ none
unfolding running
unbinds = refl

unbinds_once : (unbind new console).0 ≡ r_enoent
unfolding running
unbinds_once = refl

-- A name that is cut is bound, and does not resolve.
cut_name_bound : (bind new long_name handles).0 ≡ r_ok
unfolding running
cut_name_bound = refl

cut_name_unresolved : resolve (bind new long_name handles).1 long_name ≡ none
unfolding running
cut_name_unresolved = refl

bind-Binds_example : Binds new console handles (bind new console handles)
bind-Binds_example = bind-Binds new console handles (omega arith)
