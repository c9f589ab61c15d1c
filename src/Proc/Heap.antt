-- ===== src/Proc/Heap.antt =====
-- aarch64/src/process.rs: the heap of a process, the pages between its base and its break. The page
-- tables are a parameter: mapping a page may fail, and gives the physical page.
use r9x.Prelude.{
  ℕ, zero, suc, ◌+◌, ◌-◌, ◌*◌, ◌/◌, ◌%◌, ◌^◌, ◌&&◌, Option, none, some, ltb, leb, ◌==◌,
  if◌then◌else◌,
}
use r9x.Proc.{Process}

abbrev pub page : ℕ
page = 4096

-- `checked_mul` and `checked_add`
abbrev checked : ℕ → Option ℕ
checked n = if ltb n (2 ^ 64) then some n else none

abbrev and_then {ℓ κ} : {A : Type ℓ} {B : Type κ} → Option A → (A → Option B) → Option B
and_then none f = none
and_then (some a) f = f a

unfoldable pub brk_grow : ℕ → ℕ → ℕ → Option ℕ
brk_grow brk count bound = and_then (checked ((count + 4095) / page * page)) λ bytes.
    and_then (checked (brk + bytes)) λ new_brk. if leb new_brk bound then some new_brk else none

unfoldable pub brk_shrink : ℕ → ℕ → ℕ → Option ℕ
brk_shrink base brk va = if va % page == 0 && (leb base va && leb va brk) then some va else none

-- `heap_shrink`
unfoldable pub heap_shrink : Process → ℕ → Process
heap_shrink p va = elim (brk_shrink p.heap_base p.heap_brk va) [
  | none ↦ p
  | some new_brk ↦ record p { heap_brk = new_brk }
]

module _ (Aspace : Type 0) (map_page : Aspace → ℕ → Option (ℕ × Aspace)) (kzero : ℕ) where
  -- `heap_alloc_page`: the page that is mapped is the one at the high-water mark.
  unfoldable pub heap_alloc_page : Process → Aspace → Option (ℕ × ℕ) × (Process × Aspace)
  heap_alloc_page p s = elim (brk_grow p.heap_brk page kzero) [
    | none ↦ (none, (p, s))
    | some new_brk ↦ elim (map_page s p.heap_hwm) [
      | none ↦ (none, (p, s))
      | some (pa, s') ↦
          (some (p.heap_brk, pa), (record p { heap_brk = new_brk; heap_hwm = new_brk }, s'))
    ]
  ]

  -- The loop of `heap_grow` over the pages to map, `count` of them from `at` on, and the first page
  -- that could not be mapped.
  unfoldable pub map_pages : ℕ → ℕ → Aspace → Option ℕ × Aspace
  map_pages zero at s = (none, s)
  map_pages (suc count) at s = elim (map_page s at) [
    | none ↦ (some at, s)
    | some (_, s') ↦ map_pages count (at + page) s'
  ]

  abbrev grown : Process → ℕ → Option ℕ × Aspace → Option ℕ × (Process × Aspace)
  grown p new_brk (none, s) =
      (some p.heap_brk, (record p { heap_brk = new_brk; heap_hwm = new_brk }, s))
  grown p new_brk (some at, s) = (none, (record p { heap_hwm = at }, s))

  unfoldable pub heap_grow : Process → ℕ → Aspace → Option ℕ × (Process × Aspace)
  heap_grow p count s = elim (brk_grow p.heap_brk count kzero) [
    | none ↦ (none, (p, s))
    | some new_brk ↦ grown p new_brk (map_pages ((new_brk - p.heap_hwm + 4095) / page) p.heap_hwm s)
  ]
