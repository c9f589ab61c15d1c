-- ===== src/Demangle/Format/Total.antt =====
-- aarch64/src/demangle.rs: what `demangle` comes to on any symbol and any buffer.
use r9x.Prelude.{
  ℕ, ◌≡◌, ◌≢◌, refl, Bool, true, false, List, length, Outcome, ok, err, panic, ◌>>=◌, ◌==◌, arith,
  Post, Bool-cases, inl, inr,
}
use r9x.Demangle.{Missing}
use r9x.Demangle.Scan.{Scan, scanned, panics, out_of_fuel, read_names, start}
use r9x.Demangle.Scan.Total.{Ends, read_names-Ends, start-InBounds}
use r9x.Demangle.Format.{format, finish, main_count, is_v0, demangle}
use r9x.Demangle.Format.Fits.{Returns, format-Returns}

-- The buffer keeps its length, and its bytes where the symbol is not recognised.
abbrev pub Keeps : List ℕ → Bool × List ℕ → Type 0
Keeps buf r = (length r.1 ≡ length buf) × (r.0 ≡ false → r.1 ≡ buf)

-- For any symbol and any buffer, `demangle` returns unless the loop that reads the names panics; it
-- keeps the length of the buffer, and leaves its bytes as they were if it does not recognise the
-- symbol.
pub demangle-Returns :
    (bytes buf : List ℕ)
    → Post
        (Keeps buf)
        (λ e. ⊥)
        (read_names (length bytes) bytes start ≡ panics)
        (demangle bytes buf)
unfolding demangle
demangle-Returns bytes buf = elim (Bool-cases (is_v0 bytes)) [
  | inl e ↦
      rw (demangle, e)
        (finished (read_names (length bytes) bytes start)
          (read_names-Ends (length bytes) bytes start (start-InBounds bytes) (ground (arith, e))))
  | inr e ↦ rw (demangle, e) (record { holds = (refl, λ t. refl) })
]
  where
    clash : true ≢ false
    clash e = cc

    written :
        (o : Outcome Missing (List ℕ))
        → Returns (λ l. length l ≡ length buf) o
        → {X : Type 0} → Post (Keeps buf) (λ e. ⊥) X (o >>= λ b. ok (true, b))
    written (ok b) h = record { holds = (h.holds, λ t. absurd (clash t)) }
    written (err e) h = absurd h.holds
    written panic h = absurd h.holds

    finished :
        (r : Scan) → Ends bytes r → Post (Keeps buf) (λ e. ⊥) (r ≡ panics) (finish bytes buf r)
    finished out_of_fuel h = absurd h
    finished panics h = record { holds = refl }
    finished (scanned s) h = elim (Bool-cases (length s.names == 0)) [
      | inl e ↦ rw e (record { holds = (refl, λ t. refl) })
      | inr e ↦ rw e (
          written (format bytes s.names (main_count s) buf)
            (format-Returns bytes s.names (main_count s) buf h.inside))
    ]
