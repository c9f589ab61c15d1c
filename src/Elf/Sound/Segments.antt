-- ===== src/Elf/Sound/Segments.antt =====
-- port/src/elf.rs: what the loop over the program headers has checked of the segments.
use r9x.Prelude.{
  ℕ, zero, suc, ◌+◌, ◌≤◌, ◌<◌, ◌≡◌, sym, subst, inl, inr, Bool-cases, List, [], ◌∷◌, ◌++◌, length,
  length-append, ok, ok-bind, arith, ◌==◌, if◌then◌else◌, ◌>>=◌,
}
use r9x.Elf.{
  Segment, max_segments, phdr_size, read, entry_base, read_segment, add_segment, load_one,
  load_from, pt_load,
}

-- The file part of a segment is in the file, and not larger than the segment in memory.
pub record IsInFile (len : ℕ) (s : Segment) : Type 0 where
  pub fits : s.filesz ≤ s.memsz
  pub inside : s.offset + s.filesz ≤ len

abbrev pub AllInFile : ℕ → List Segment → Type 0
AllInFile len [] = Unit {0}
AllInFile len (s ∷ ss) = IsInFile len s × AllInFile len ss

AllInFile-append :
    (len : ℕ) (ss : List Segment) (s : Segment)
    → AllInFile len ss
    → IsInFile len s
    → AllInFile len (ss ++ s ∷ [])
AllInFile-append len [] s h k = (k, tt)
AllInFile-append len (x ∷ ss) s h k = (h.0, AllInFile-append len ss s h.1 k)

-- Segments that a loader can map without another look at the file.
pub record AreSound (len : ℕ) (ss : List Segment) : Type 0 where
  pub bounded : length ss ≤ max_segments
  pub in_file : AllInFile len ss

added :
    (len : ℕ) (ss ss' : List Segment) (s : Segment)
    → length ss ≤ max_segments
    → add_segment len ss s ≡ ok ss'
    → IsInFile len s × (length ss < max_segments) × (ss' ≡ ss ++ s ∷ [])
unfolding add_segment
added len ss ss' s b h = (
  record { fits = ground (arith, h); inside = ground (arith, h) },
  ground (arith, h, b),
  ground (arith, h),
)

add_segment-AreSound :
    (len : ℕ) (ss ss' : List Segment) (s : Segment)
    → add_segment len ss s ≡ ok ss'
    → AreSound len ss
    → AreSound len ss'
add_segment-AreSound len ss ss' s h k =
    let (good, room, e) = added len ss ss' s k.bounded h in
    subst (AreSound len) (sym e) (record {
      bounded = omega (arith, length-append ss (s ∷ []), room);
      in_file = AllInFile-append len ss s k.in_file good;
    })

load_one-AreSound :
    (elf : List ℕ) (phoff i : ℕ) (ss ss' : List Segment)
    → load_one elf phoff i ss ≡ ok ss'
    → AreSound (length elf) ss
    → AreSound (length elf) ss'
unfolding load_one
load_one-AreSound elf phoff i ss ss' h k =
    let (base, _, h₁) = ok-bind (entry_base phoff i phdr_size) _ ss' h in
    let (p_type, _, h₂) = ok-bind (read 4 elf base) _ ss' h₁ in
    elim (Bool-cases (p_type == pt_load)) [
      | inl e ↦
          let h₃ : (read_segment elf base >>= add_segment (length elf) ss) ≡ ok ss' =
            subst
              (λ b.
                (if b then (read_segment elf base >>= add_segment (length elf) ss) else ok ss)
                ≡ ok ss')
              e h₂ in
          let (s, _, h₄) = ok-bind (read_segment elf base) (add_segment (length elf) ss) ss' h₃ in
          add_segment-AreSound (length elf) ss ss' s h₄ k
      | inr e ↦
          let same : ok ss ≡ ok ss' =
            subst
              (λ b.
                (if b then (read_segment elf base >>= add_segment (length elf) ss) else ok ss)
                ≡ ok ss')
              e h₂ in
          subst (AreSound (length elf)) (ground (arith, same)) k
    ]

pub load_from-AreSound :
    (elf : List ℕ) (phoff left i : ℕ) (ss ss' : List Segment)
    → load_from elf phoff left i ss ≡ ok ss'
    → AreSound (length elf) ss
    → AreSound (length elf) ss'
unfolding load_from
load_from-AreSound elf phoff zero i ss ss' h k = subst (AreSound (length elf)) (ground (arith, h)) k
load_from-AreSound elf phoff (suc left) i ss ss' h k =
    let (mid, h₁, h₂) =
      ok-bind (load_one elf phoff i ss) (load_from elf phoff left (i + 1)) ss' h in
    load_from-AreSound elf phoff left (i + 1) mid ss' h₂ (load_one-AreSound elf phoff i ss mid h₁ k)
