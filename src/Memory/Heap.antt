-- ===== src/Memory/Heap.antt =====
-- kernel/memory/memory.c: `malloc_heap` and `malloc`. A row of `freespace` or `allocations` is a list of
-- its entries.
pub mod Count
pub mod Rows
pub mod Malloc
pub mod Unaligned
pub mod Free
pub mod Refresh
use flame_os.Base.{
  ℕ, zero, suc, ◌+◌, ◌-◌, ◌*◌, ◌/◌, ◌%◌, ◌^◌, Bool, true, false, not, ◌&&◌, ◌||◌, ◌==◌, ltb, leb,
  if◌then◌else◌, Option, none, some, List, [], ◌∷◌, set, add64, sub64, ceiling,
}
use flame_os.Base
use flame_os.Memory.Phys.{page_size, phys_page_alloc, phys_page_free}
use flame_os.Memory.Machine.{
  Machine, Region, Run, done, bad_read, out_of_fuel, Cmd, pure, ◌>>=◌, ◌>>◌, get,
}
use flame_os.Memory.Paging.{map_page, find_physaddr}

abbrev pub heaps : ℕ
heaps = 2

abbrev pub kernel_heap : ℕ
kernel_heap = 0x18_0000_0000

abbrev pub kernel_stack : ℕ
kernel_stack = 0x20_0000_0000

abbrev pub userspace_heap : ℕ
userspace_heap = 0x10_0000

abbrev pub userspace_stack : ℕ
userspace_stack = 0x10_0000_0000

abbrev pub region : ℕ → ℕ → Region
region a n = record { addr = a; size = n }

-- The first entry that passes the test, with its index.
unfoldable pub find_entry : (Region → Bool) → List Region → Option (ℕ × Region)
find_entry test [] = none
find_entry test (r ∷ rs) =
    if test r
    then some (0, r)
    else elim (find_entry test rs) [ none ↦ none | some (i, r') ↦ some (suc i, r') ]

abbrev pub set_row : (ℕ → List Region) → ℕ → List Region → ℕ → List Region
set_row rows heap row h = if heap == h then row else rows h

-- `malloc_heap` up to the entry in `allocations`: the address, or `none` for the early returns.
-- The free space has been taken when no entry of `allocations` is left.
unfoldable pub reserve : (size heap : ℕ) → Machine → Option ℕ × Machine
unfolding find_entry
reserve size heap s =
    if leb heaps heap || size == 0
    then (none, s)
    else elim (find_entry (λ r. leb size r.size) (s.freespace heap)) [
      | none ↦ (none, s)
      | some (space, r) ↦
          let shrunk =
            set (s.freespace heap) space (region (add64 r.addr size) (sub64 r.size size)) in
          let s' = record s { freespace = set_row s.freespace heap shrunk } in
          elim (find_entry (λ a. a.size == 0) (s'.allocations heap)) [
            | none ↦ (none, s')
            | some (alloc, _) ↦
                let entries = set (s'.allocations heap) alloc (region r.addr size) in
                (some r.addr, record s' { allocations = set_row s'.allocations heap entries })
          ]
    ]

-- `phys_page_alloc()` over the machine.
pub take_page : Cmd ℕ
take_page s = let (page, m) = phys_page_alloc s.freemap s.bmap in done page (record s { bmap = m })

-- One round of the loop over the pages of the block, at address `virt`.
pub map_missing : (fuel virt : ℕ) → Cmd (Unit {0})
unfolding take_page
map_missing fuel virt s =
    if find_physaddr virt s == 0
    then (take_page >>= λ page. map_page fuel page virt) s
    else done tt s

pub map_block : (fuel left addr i : ℕ) → Cmd (Unit {0})
unfolding map_missing
map_block fuel zero addr i = pure tt
map_block fuel (suc left) addr i =
    map_missing fuel (add64 addr (i * page_size)) >> map_block fuel left addr (i + 1)

abbrev pub block_pages : ℕ → ℕ → ℕ
block_pages addr size = sub64 (ceiling (add64 addr size) page_size) (addr / page_size)

-- The end of `malloc_heap`: 0 after an early return, else the pages of the block are mapped. The fuel
-- is that of each call of `map_page`.
pub map_reserved : (fuel size : ℕ) → Option ℕ × Machine → Run ℕ
unfolding map_block
map_reserved fuel size (none, s) = done 0 s
map_reserved fuel size (some addr, s) =
    (map_block fuel (block_pages addr size) addr 0 >> pure addr) s

unfoldable pub malloc_heap : (fuel size heap : ℕ) → Cmd ℕ
unfolding reserve map_reserved
malloc_heap fuel size heap s = map_reserved fuel size (reserve size heap s)

unfoldable pub malloc : (fuel size : ℕ) → Cmd ℕ
unfolding malloc_heap
malloc fuel size = malloc_heap fuel size 0
