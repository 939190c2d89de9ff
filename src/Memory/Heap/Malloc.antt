-- ===== src/Memory/Heap/Malloc.antt =====
-- `malloc_heap` as a whole: the tables of regions, and the pages behind a block.
use flame_os.Base.{
  ℕ, zero, suc, ◌+◌, ◌*◌, ◌<◌, ◌≡◌, ◌⊎◌, inl, inr, List, refl, sym, ap, Bool-cases, arith, ◌==◌,
  add64,
}
use mathlib.Core.Path.{subst}
use flame_os.Memory.Phys.{page_size, phys_page_alloc, Bitmap}
use flame_os.Memory.Phys.Count.{free_pages, phys_page_alloc-Allocated, InUse}
use flame_os.Memory.Machine.{Machine, Region, Run}
use flame_os.Memory.Paging.{Table, root, at, entry, map_page, find_physaddr}
use flame_os.Memory.Paging.Tree.{Ghost, IsTree}
use flame_os.Memory.Paging.Ends.{Ends, Returns, returns, no_page, bind, mono, bind_value}
use flame_os.Memory.Paging.Map.{map_page-Ends}
use flame_os.Memory.Heap.{heaps, set_row, map_missing, map_block, malloc_heap, block_pages}
use flame_os.Memory.Heap.Count.{NoneFits, Bounded, Moved, Lost, reserve-cases, with_rows}
use flame_os.Memory.Heap.Rows.{KeepsRows, kept, map_block-rows}

-- The machine with another bitmap and other rows; `entry` does not see them.
abbrev other : Machine → Bitmap → (ℕ → List Region) → (ℕ → List Region) → Machine
other s m f a = record s { bmap = m; freespace = f; allocations = a }

entry-other :
    (s : Machine) (m : Bitmap) (f a : ℕ → List Region) (t : Table) (i : ℕ)
    → entry (other s m f a) t i ≡ entry s t i
entry-other s m f a root i = refl
entry-other s m f a (at t) i = refl

-- A tree is a tree still when pages are marked as used and the rows change.
pub IsTree-other :
    {g : Ghost} {s : Machine} (m : Bitmap) (f a : ℕ → List Region)
    → IsTree g s
    → ((p : ℕ) → InUse s.freemap s.bmap p → InUse s.freemap m p)
    → IsTree g (other s m f a)
IsTree-other {s} m f a w more = record {
  map = w.map;
  child = λ t i l is k p.
      let same = entry-other s m f a t i in rw same (w.child t i l is k (rw same at p));
  in_use = λ p n. more p (w.in_use p n);
}

-- A tree, with no more free pages than at first.
abbrev Holds : ℕ → Ghost → Machine → Type 0
Holds fuel g s = IsTree g s × (free_pages s.freemap s.bmap < fuel)

map_page-Holds :
    (fuel phys virt : ℕ) (g : Ghost) (s : Machine)
    → Holds fuel g s
    → Ends (Holds fuel) (map_page fuel phys virt s)
map_page-Holds fuel phys virt g s (w, few) =
    mono (map_page-Ends fuel phys virt g s w few)
      λ g' s' r. ((r.0).0, omega (arith, ((r.0).1).fewer, few))

take_page-Holds :
    (fuel : ℕ) (g : Ghost) (s : Machine)
    → Holds fuel g s
    → Holds fuel g (record s { bmap = (phys_page_alloc s.freemap s.bmap).1 })
take_page-Holds fuel g s (w, few) =
    elim (phys_page_alloc-Allocated s.freemap s.bmap w.map.fits w.map.distinct) [
      | inl got ↦ (IsTree-other _ s.freespace s.allocations w got.keeps, omega (arith, got.fewer))
      | inr failed ↦
          let same : s.bmap ≡ (phys_page_alloc s.freemap s.bmap).1 = sym (ap (λ r. r.1) failed) in
          subst (λ m. Holds fuel g (record s { bmap = m })) same (w, few)
    ]

map_missing-Ends :
    (fuel virt : ℕ) (g : Ghost) (s : Machine)
    → Holds fuel g s
    → Ends (Holds fuel) (map_missing fuel virt s)
unfolding map_missing
map_missing-Ends fuel virt g s h = elim (Bool-cases (find_physaddr virt s == 0)) [
  | inr mapped ↦ rw mapped (returns g h)
  | inl missing ↦ rw missing (map_page-Holds fuel _ virt g _ (take_page-Holds fuel g s h))
]

map_block-Ends :
    (fuel left addr i : ℕ) (g : Ghost) (s : Machine)
    → Holds fuel g s
    → Ends (Holds fuel) (map_block fuel left addr i s)
unfolding map_block
map_block-Ends fuel zero addr i g s h = returns g h
map_block-Ends fuel (suc left) addr i g s h =
    bind _ (map_missing-Ends fuel (add64 addr (i * page_size)) g s h)
      λ _ g' s' h'. map_block-Ends fuel left addr (i + 1) g' s' h'

-- What `malloc_heap` leaves in the rows, by what it returns. It returns 0 when no free space is
-- large enough, and changes no row; it returns 0 also when the table of allocations is full, and the
-- free space is lost; else the block that it returns has moved to the allocations.
abbrev pub RowsAfter : ℕ → ℕ → Machine → ℕ → Machine → Type 0
RowsAfter size heap s addr s' =
    (NoneFits size (s.freespace heap)
      × (addr ≡ 0)
      × (s'.freespace ≡ s.freespace)
      × (s'.allocations ≡ s.allocations))
    ⊎ ((addr ≡ 0)
        × (s'.allocations ≡ s.allocations)
        × ((lost : ℕ) × (free' : List Region) × Lost size lost (s.freespace heap)
              (s.allocations heap) free'
            × (s'.freespace ≡ set_row s.freespace heap free')))
    ⊎ ((free' : List Region) × (used' : List Region) × Moved size addr (s.freespace heap)
          (s.allocations heap) free' used'
        × (s'.freespace ≡ set_row s.freespace heap free')
        × (s'.allocations ≡ set_row s.allocations heap used'))

-- Joins what is known of one run.
joined :
    {A : Type 0} {Q : Ghost → Machine → Type 0} {f a : ℕ → List Region} {r : Run A}
    → Ends Q r
    → KeepsRows f a r
    → Ends (λ g s. Q g s × (s.freespace ≡ f) × (s.allocations ≡ a)) r
joined (returns g q) (kept h h') = returns g (q, h, h')
joined (no_page e) k = no_page e

-- `malloc_heap` always ends, for a heap that exists, a size above 0, free spaces that do not wrap, a tree of
-- page tables, and fuel above the number of free pages. It ends at a write through NULL only with no
-- physical page free; else the tables are a tree again. It then returns 0 with no row changed, and no
-- free space has the size; or returns 0 with the table of allocations full and a block of the size
-- lost from the free spaces; or returns the address of a block that has moved, address by address, from
-- the free spaces to the allocations.
pub malloc_heap-Returns :
    (fuel size heap : ℕ) (g : Ghost) (s : Machine)
    → IsTree g s
    → free_pages s.freemap s.bmap < fuel
    → heap < heaps
    → 0 < size
    → Bounded (s.freespace heap)
    → Returns
        (λ addr g' s'. IsTree g' s' × RowsAfter size heap s addr s')
        (malloc_heap fuel size heap s)
unfolding malloc_heap
malloc_heap-Returns fuel size heap g s w few h pos b = elim (reserve-cases size heap s h pos b) [
  | inl (none_fits, e) ↦ rw e (returns g (w, inl (none_fits, refl, refl, refl)))
  | inr (inl (addr, free', lost, e)) ↦ rw e (
      returns g
        (IsTree-other _ _ _ w (λ p u. u), inr (inl (refl, refl, (addr, free', lost, refl)))))
  | inr (inr (addr, free', used', moved, e)) ↦
      let s₁ = with_rows heap free' used' s in
      let w₁ = IsTree-other s.bmap s₁.freespace s₁.allocations w (λ p u. u) in
      let run = map_block-Ends fuel (block_pages addr size) addr 0 g s₁ (w₁, few) in
      let rows =
        map_block-rows s₁.freespace s₁.allocations fuel (block_pages addr size) addr 0 s₁ refl
          refl in
      rw e (
        bind_value _ (joined run rows)
          λ _ g' s' (holds, hf, ha). returns g' (holds.0, inr (inr (free', used', moved, hf, ha))))
]
