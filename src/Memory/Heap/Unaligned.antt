-- ===== src/Memory/Heap/Unaligned.antt =====
-- A block that does not start on a page boundary: `malloc_heap` asks `map_page` for addresses that
-- are no page boundaries either, and `map_page` ignores them.
use flame_os.Base.{
  ℕ, zero, suc, ◌+◌, ◌*◌, ◌%◌, ◌<◌, ◌≡◌, ◌≢◌, refl, ◌∙◌, inl, inr, some, List, arith, Bool-cases,
  ◌==◌, not, ◌||◌, true, ap, sym, add64,
}
use flame_os.Memory.Phys.{page_size, Bitmap, phys_page_alloc}
use flame_os.Memory.Machine.{Machine, Region, done}
use flame_os.Memory.Paging.{map_page, find_physaddr}
use flame_os.Memory.Heap.{heaps, reserve, map_missing, map_block, malloc_heap, block_pages}
use flame_os.Memory.Heap.Count.{Bounded, reserve-cases}

map_page_unaligned :
    (fuel phys virt : ℕ) (s : Machine)
    → virt % page_size ≢ 0
    → map_page (suc fuel) phys virt s ≡ done tt s
unfolding map_page
map_page_unaligned fuel phys virt s h =
    let guard : (not (phys % page_size == 0) || not (virt % page_size == 0)) ≡ true =
      ground arith in
    rw guard refl

map_missing_unaligned :
    (fuel virt : ℕ) (s : Machine)
    → virt % page_size ≢ 0
    → (m : Bitmap) × (map_missing (suc fuel) virt s ≡ done tt (record s { bmap = m }))
unfolding map_missing
map_missing_unaligned fuel virt s h = elim (Bool-cases (find_physaddr virt s == 0)) [
  | inl missing ↦
      ((phys_page_alloc s.freemap s.bmap).1, rw missing (map_page_unaligned fuel _ virt _ h))
  | inr mapped ↦ (s.bmap, rw mapped refl)
]

map_block_unaligned :
    (fuel left addr i : ℕ) (s : Machine)
    → addr % page_size ≢ 0
    → (m : Bitmap) × (map_block (suc fuel) left addr i s ≡ done tt (record s { bmap = m }))
unfolding map_block
map_block_unaligned fuel zero addr i s h = (s.bmap, refl)
map_block_unaligned fuel (suc left) addr i s h =
    let (m, e) = map_missing_unaligned fuel (add64 addr (i * page_size)) s (λ z. h (omega arith)) in
    let (m', e') = map_block_unaligned fuel left addr (i + 1) (record s { bmap = m }) h in
    (m', rw e e')

-- When the block that `malloc_heap` takes from the free spaces does not start on a page boundary,
-- `malloc_heap` returns its address, and no page has been mapped: every address is translated as
-- before.
pub malloc_heap_unaligned :
    (fuel size heap addr : ℕ) (s s₁ : Machine)
    → heap < heaps
    → 0 < size
    → Bounded (s.freespace heap)
    → reserve size heap s ≡ (some addr, s₁)
    → addr % page_size ≢ 0
    → (s' : Machine) × (malloc_heap (suc fuel) size heap s ≡ done addr s')
      × ((v : ℕ) → find_physaddr v s' ≡ find_physaddr v s)
unfolding malloc_heap find_physaddr
malloc_heap_unaligned fuel size heap addr s s₁ h pos b e odd =
    let (m, run) = map_block_unaligned fuel (block_pages addr size) addr 0 s₁ odd in
    (record s₁ { bmap = m }, rw (e, run) refl, λ v. ap (find_physaddr v) tables.2)
  where
    -- The tables of `s₁` are those of `s`.
    tables :
        (f : ℕ → List Region) × (a : ℕ → List Region) × (s₁
          ≡ record s { freespace = f; allocations = a })
    tables = elim (reserve-cases size heap s h pos b) [
      | inl (_, e') ↦ absurd (cc (sym e ∙ e'))
      | inr (inl (_, _, _, e')) ↦ absurd (cc (sym e ∙ e'))
      | inr (inr (_, _, _, _, e')) ↦ (_, _, ap (λ r. r.1) (sym e ∙ e'))
    ]
