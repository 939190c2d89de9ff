-- ===== src/Memory/Examples.antt =====
-- The theorems on the memory code at concrete states: a map of one area of 16 pages at 1 MiB, with
-- no page in use, empty page tables, and a kernel heap with one free space.
use flame_os.Base.{
  ℕ, suc, ◌==◌, ◌+◌, ◌*◌, ◌<◌, ◌≡◌, ◌⊎◌, refl, some, List, [], ◌∷◌, arith, true, ok, if◌then◌else◌,
}
use flame_os.Memory.Phys.{page_size, FreeArea, Bitmap, phys_page_alloc, phys_page_free}
use flame_os.Memory.Phys.Bitmap.{}
use flame_os.Memory.Phys.Alloc.{Fits}
use flame_os.Memory.Phys.Free.{Aligned, Distinct, phys_page_free-phys_page_alloc}
use flame_os.Memory.Phys.Count.{free_pages, free_below, Allocated, phys_page_alloc-Allocated}
use flame_os.Memory.Machine.{Region, Machine, done}
use flame_os.Memory.Paging.{Table, root, at, entry, present, entry_addr, map_page, find_physaddr}
use flame_os.Memory.Paging.Entry.{page_number, present-zero}
use flame_os.Memory.Paging.Tree.{InMap, Ghost, IsTable, level_of, prefix_of, IsMap, IsTree}
use flame_os.Memory.Paging.Ends.{Ends, Returns}
use flame_os.Memory.Paging.Ensure.{Mapped}
use flame_os.Memory.Paging.Frame.{HasTables, find_physaddr-map_page, map_page-maps, map_page-grows}
use flame_os.Memory.Heap.{region, reserve, find_entry, set_row, malloc_heap}
use flame_os.Memory.Heap.Count.{Bounded}
use flame_os.Memory.Heap.Malloc.{RowsAfter, malloc_heap-Returns}
use flame_os.Memory.Heap.Unaligned.{malloc_heap_unaligned}
use flame_os.Memory.Heap.Free.{free, heap_of}
use flame_os.Memory.Heap.Free.Release.{NotThere, Cleared, NoRoom, Returned, Settles, free-cases}

abbrev pub area : FreeArea
area = record { addr = 0x10_0000; blocks = 16 }

abbrev pub areas : List FreeArea
areas = area ∷ []

abbrev pub no_pages : Bitmap
no_pages _ = 0

abbrev no_tables : Ghost
no_tables = record { level = λ _. 0; prefix = λ _. 0 }

-- One free space at `start`, and one allocated block of 32 bytes.
abbrev pub machine : ℕ → Machine
machine start = record {
  bmap = no_pages;
  freemap = areas;
  mm_descs = 1;
  pml4 = λ _. 0;
  table = λ _ _. 0;
  freespace = λ _. region start 0x10000 ∷ region 0 0 ∷ [];
  allocations = λ _. region 0x18_0000_0000 32 ∷ region 0 0 ∷ [];
}

areas-Fits : Fits areas
areas-Fits = (omega arith, tt)

areas-Aligned : Aligned areas
areas-Aligned = (refl, tt)

areas-Distinct : Distinct areas
areas-Distinct j k l h = λ e. ground arith

pub areas-IsMap : IsMap areas
areas-IsMap = record {
  fits = areas-Fits;
  aligned = areas-Aligned;
  distinct = areas-Distinct;
  low = λ k h. ground arith;
  nonnull = λ k h e. ground arith;
}

no_entry : (start : ℕ) (t : Table) (i : ℕ) → entry (machine start) t i ≡ 0
no_entry start root i = refl
no_entry start (at t) i = refl

machine-IsTree : (start : ℕ) → IsTree no_tables (machine start)
machine-IsTree start = record {
  map = areas-IsMap;
  child = λ t i l is k p. absurd (ground (arith, no_entry start t i, present-zero, p));
  in_use = λ a h. absurd (h refl);
}

machine-Bounded : Bounded ((machine 0x18_0000_0020).freespace 0)
machine-Bounded = (omega arith, (omega arith, tt))

used-Bounded : Bounded ((machine 0x18_0000_0020).allocations 0)
used-Bounded = (omega arith, (omega arith, tt))

-- Three tables in the first pages of the area: the way to the addresses below 2 MiB.
abbrev three_tables : Ghost
three_tables = record {
  level = λ a.
      if a == 0x10_0000 then 1 else if a == 0x10_1000 then 2 else if a == 0x10_2000 then 3 else 0;
  prefix = λ _. 0;
}

abbrev entries : ℕ → ℕ → ℕ
entries a i =
    if i == 0
    then if a == 0x10_0000 then 0x10_1007 else if a == 0x10_1000 then 0x10_2007 else 0
    else 0

abbrev with_tables : Machine
with_tables = record (machine 0) {
  bmap = λ h. if h == 0 then 7 else 0;
  pml4 = λ i. if i == 0 then 0x10_0007 else 0;
  table = entries;
}

below_root :
    (t : Table) (i : ℕ)
    → IsTable three_tables t
    → level_of three_tables t < 3
    → present (entry with_tables t i) ≡ true
    → (three_tables.level (entry_addr (entry with_tables t i)) ≡ suc (level_of three_tables t))
      × (0 ≡ prefix_of three_tables t * 512 + i)
unfolding entry_addr
below_root root i is k p = ground (arith, p, present-zero)
below_root (at a) i is k p = ground (arith, is, k, p, present-zero)

with_tables-IsTree : IsTree three_tables with_tables
with_tables-IsTree = record {
  map = areas-IsMap;
  child = λ t i l is k p. below_root t i is k p;
  in_use = λ a h k l e. ground (arith, h, l, e);
}

two_MiB : HasTables 0x1000 with_tables
unfolding entry_addr
two_MiB = record {
  e₁ = 0x10_0007;
  e₂ = 0x10_1007;
  e₃ = 0x10_2007;
  first = refl;
  first_present = refl;
  second = refl;
  second_present = refl;
  third = refl;
  third_present = refl;
}

pub few_free : free_pages areas no_pages < 17
unfolding free_below
few_free = omega arith

few_left : free_pages areas with_tables.bmap < 17
unfolding free_below
few_left = omega arith

phys_page_alloc-Allocated_example :
    Allocated areas no_pages (phys_page_alloc areas no_pages).0 (phys_page_alloc areas no_pages).1
    ⊎ (phys_page_alloc areas no_pages ≡ (0, no_pages))
phys_page_alloc-Allocated_example =
    phys_page_alloc-Allocated areas no_pages areas-Fits areas-Distinct

phys_page_free-phys_page_alloc_example :
    phys_page_free 1 areas (phys_page_alloc areas no_pages).0 (phys_page_alloc areas no_pages).1
    ≡ ok no_pages
phys_page_free-phys_page_alloc_example =
    phys_page_free-phys_page_alloc 1 areas no_pages 5 (omega arith) areas-Fits areas-Aligned
      areas-Distinct (λ i. omega arith) (omega arith) refl

map_page-grows_example :
    Ends (Mapped 0x40_0000 no_tables (machine 0)) (map_page 17 0x20_0000 0x40_0000 (machine 0))
map_page-grows_example =
    map_page-grows 17 0x20_0000 0x40_0000 no_tables (machine 0) (machine-IsTree 0) few_free

map_page-maps_example :
    Ends
      (λ g s. find_physaddr 0x40_0000 s ≡ 0x20_0000)
      (map_page 17 0x20_0000 0x40_0000 (machine 0))
map_page-maps_example =
    map_page-maps 17 0x20_0000 0x40_0000 no_tables (machine 0) (machine-IsTree 0) few_free refl refl
      (omega arith)

malloc_heap-Returns_example :
    Returns
      (λ addr g s. IsTree g s × RowsAfter 100 0 (machine 0x18_0000_0020) addr s)
      (malloc_heap 17 100 0 (machine 0x18_0000_0020))
malloc_heap-Returns_example =
    malloc_heap-Returns 17 100 0 no_tables (machine 0x18_0000_0020) (machine-IsTree 0x18_0000_0020)
      few_free (omega arith) (omega arith) machine-Bounded

reserved :
    reserve 100 0 (machine 0x18_0000_0020)
    ≡ (some 0x18_0000_0020, (reserve 100 0 (machine 0x18_0000_0020)).1)
unfolding reserve find_entry
reserved = refl

malloc_heap_unaligned_example :
    (s : Machine) × (malloc_heap 1 100 0 (machine 0x18_0000_0020) ≡ done 0x18_0000_0020 s)
    × ((v : ℕ) → find_physaddr v s ≡ find_physaddr v (machine 0x18_0000_0020))
malloc_heap_unaligned_example =
    malloc_heap_unaligned 0 100 0 0x18_0000_0020 (machine 0x18_0000_0020)
      (reserve 100 0 (machine 0x18_0000_0020)).1 (omega arith) (omega arith) machine-Bounded
      reserved (λ e. ground arith)

free-cases_example :
    (NotThere 0x18_0000_0000 ((machine 0x18_0000_0020).allocations 0)
      × (free 0x18_0000_0000 (machine 0x18_0000_0020) ≡ done tt (machine 0x18_0000_0020)))
    ⊎ ((size : ℕ) × (used' : List Region) × Cleared 0x18_0000_0000 size
          ((machine 0x18_0000_0020).allocations 0)
          used'
        × NoRoom 0x18_0000_0000 size ((machine 0x18_0000_0020).freespace 0)
        × (free 0x18_0000_0000 (machine 0x18_0000_0020)
            ≡ done tt (record (machine 0x18_0000_0020) {
              allocations = set_row (machine 0x18_0000_0020).allocations 0 used';
            })))
    ⊎ ((size : ℕ) × (free' : List Region) × (used' : List Region) × Returned 0x18_0000_0000 size
          ((machine 0x18_0000_0020).freespace 0)
          ((machine 0x18_0000_0020).allocations 0)
          free'
          used'
        × Cleared 0x18_0000_0000 size ((machine 0x18_0000_0020).allocations 0) used'
        × Settles
            (set_row (machine 0x18_0000_0020).freespace 0 free')
            (set_row (machine 0x18_0000_0020).allocations 0 used')
            (free 0x18_0000_0000 (machine 0x18_0000_0020)))
unfolding heap_of
free-cases_example =
    free-cases 0x18_0000_0000 0 (machine 0x18_0000_0020) refl used-Bounded machine-Bounded

outside : ¬ InMap with_tables.freemap (page_number 0x1000 * page_size)
outside (k, l, e) = ground arith

find_physaddr-map_page_example :
    Ends
      (λ g s. find_physaddr 0x1000 s ≡ find_physaddr 0x1000 with_tables)
      (map_page 17 0x20_0000 0x40_0000 with_tables)
find_physaddr-map_page_example =
    find_physaddr-map_page 17 0x20_0000 0x40_0000 0x1000 three_tables with_tables with_tables-IsTree
      few_left two_MiB (λ e. ground arith) outside
