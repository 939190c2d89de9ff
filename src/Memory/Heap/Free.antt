-- ===== src/Memory/Heap/Free.antt =====
-- kernel/memory/memory.c, `free` and `init_malloc`.
pub mod Release
pub mod Gives
use flame_os.Base.{
  ℕ, zero, suc, ◌+◌, ◌-◌, ◌*◌, ◌/◌, ◌%◌, ◌^◌, Bool, true, false, not, ◌&&◌, ◌||◌, ◌==◌, ltb, leb,
  if◌then◌else◌, Option, none, some, List, [], ◌∷◌, set, add64, sub64, ceiling,
}
use flame_os.Base
use flame_os.Memory.Phys.{page_size, phys_page_free}
use flame_os.Memory.Machine.{
  Machine, Region, Run, done, bad_read, out_of_fuel, Cmd, pure, ◌>>=◌, ◌>>◌,
}
use flame_os.Memory.Paging.{find_physaddr}
use flame_os.Memory.Heap.{
  kernel_heap, kernel_stack, userspace_heap, userspace_stack, region, find_entry, set_row,
  block_pages,
}

-- The heap that an address lies in.
unfoldable pub heap_of : ℕ → Option ℕ
heap_of addr =
    if leb kernel_heap addr && ltb addr kernel_stack
    then some 0
    else if leb userspace_heap addr && ltb addr userspace_stack
    then some 1
    else none

-- The first loop over the free spaces: the block grows a space that it touches. `none` if there is
-- none.
pub grow_space : (addr size : ℕ) → List Region → Option (List Region)
grow_space addr size [] = none
grow_space addr size (r ∷ rs) =
    if add64 addr size == r.addr
    then some (region (sub64 r.addr size) (add64 r.size size) ∷ rs)
    else if addr == add64 r.addr r.size
    then some (region r.addr (add64 r.size size) ∷ rs)
    else elim (grow_space addr size rs) [ none ↦ none | some rs' ↦ some (r ∷ rs') ]

-- The second loop: the block becomes a space of its own, in the first empty entry.
pub add_space : (addr size : ℕ) → List Region → Option (List Region)
unfolding find_entry
add_space addr size rs = elim (find_entry (λ r. r.size == 0) rs) [
  | none ↦ none
  | some (i, _) ↦ some (set rs i (region addr size))
]

pub return_space : (addr size : ℕ) → List Region → Option (List Region)
unfolding grow_space add_space
return_space addr size rs = elim (grow_space addr size rs) [
  | none ↦ add_space addr size rs
  | some rs' ↦ some rs'
]

-- `free` up to its last `return`: the size of the block, or `none` for the early returns. The entry
-- of the block in `allocations` is cleared also when no free space takes the block.
pub release : (addr heap : ℕ) → Machine → Option ℕ × Machine
unfolding find_entry return_space
release addr heap s = elim (find_entry (λ a. addr == a.addr) (s.allocations heap)) [
  | none ↦ (none, s)
  | some (alloc, block) ↦
      let entries = set (s.allocations heap) alloc (region 0 0) in
      let s' = record s { allocations = set_row s.allocations heap entries } in
      elim (return_space addr block.size (s'.freespace heap)) [
        | none ↦ (none, s')
        | some spaces ↦
            (some block.size, record s' { freespace = set_row s'.freespace heap spaces })
      ]
]

abbrev pub page_start : ℕ → ℕ
page_start a = a / page_size * page_size

-- `sused` and `eused`: another allocation ends in the first page, or starts in the last.
pub used_at_start : (addr : ℕ) → List Region → Bool
used_at_start addr [] = false
used_at_start addr (a ∷ rest) =
    (page_start addr == page_start (sub64 (add64 a.addr a.size) 1)) || used_at_start addr rest

pub used_at_end : (addr size : ℕ) → List Region → Bool
used_at_end addr size [] = false
used_at_end addr size (a ∷ rest) =
    (page_start (sub64 (add64 addr size) 1) == page_start a.addr) || used_at_end addr size rest

-- `phys_page_free(find_physaddr(virt))`
pub free_page : ℕ → Cmd (Unit {0})
free_page virt s = elim (phys_page_free s.mm_descs s.freemap (find_physaddr virt s) s.bmap) [
  | Base.ok m ↦ done tt (record s { bmap = m })
  | Base.fault ↦ bad_read s
  | Base.out_of_fuel ↦ out_of_fuel
]

pub free_middle : (left addr i : ℕ) → Cmd (Unit {0})
unfolding free_page
free_middle zero addr i = pure tt
free_middle (suc left) addr i =
    free_page (add64 addr (i * page_size)) >> free_middle left addr (i + 1)

pub free_block : (addr size heap : ℕ) → Cmd (Unit {0})
unfolding free_middle used_at_start used_at_end
free_block addr size heap s =
    ((if used_at_start addr (s.allocations heap) then pure tt else free_page addr)
        >> (if used_at_end addr size (s.allocations heap)
            then pure tt
            else free_page (sub64 (add64 addr size) 1))
        >> free_middle (sub64 (block_pages addr size) 1 - 1) addr 1)
      s

pub free_released : (addr heap : ℕ) → Option ℕ × Machine → Run (Unit {0})
unfolding free_block
free_released addr heap (none, s) = done tt s
free_released addr heap (some size, s) = free_block addr size heap s

pub free_from_heap : ℕ → Option ℕ → Cmd (Unit {0})
unfolding release free_released
free_from_heap addr none s = done tt s
free_from_heap addr (some heap) s = free_released addr heap (release addr heap s)

unfoldable pub free : ℕ → Cmd (Unit {0})
free addr = free_from_heap addr (heap_of addr)

unfoldable pub init_malloc : Machine → Machine
init_malloc s = record s {
  freespace =
      set_row
        (set_row s.freespace 0
          (set (s.freespace 0) 0 (region kernel_heap (kernel_stack - kernel_heap))))
        1 (set (s.freespace 1) 0 (region userspace_heap (userspace_stack - userspace_heap)));
}
