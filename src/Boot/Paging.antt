-- ===== src/Boot/Paging.antt =====
-- bootloader/boot.c: the page tables that `boot` makes for the kernel, by its calls of `map_page`. The
-- firmware's `pagealloc` is an argument, by the type of the memory and the number of pages.
use flame_os.Base.{ℕ, zero, suc, ◌-◌, ◌==◌, List, [], ◌∷◌, ltb, if◌then◌else◌, add64, ceiling}
use flame_os.Memory.Phys.{page_size}
use flame_os.Memory.Machine.{out_of_fuel, Cmd, pure, ◌>>=◌, ◌>>◌}
use flame_os.Memory.Heap.{kernel_stack}
use flame_os.Memory.Setup.{clear_pml4}
use flame_os.Boot.Tables.{boot_map_page}
use flame_os.Boot.MemoryMap.{Descriptor, normalmem}
use flame_os.Boot.Elf.{kernel_vaddr}

-- `MEM_TYPE`
abbrev pub rscodemem : ℕ
rscodemem = 5

abbrev pub rsdatamem : ℕ
rsdatamem = 6

abbrev pub first_memory : ℕ
first_memory = 0x100_0000

module _ (pagealloc : (type pages : ℕ) → Cmd ℕ) (fuel : ℕ) where
  abbrev pub map_here : (phys virt : ℕ) → Cmd (Unit {0})
  map_here = boot_map_page (pagealloc rsdatamem 1) fuel

  unfoldable pub identity_pages : (left a : ℕ) → Cmd (Unit {0})
  identity_pages zero a = pure tt
  identity_pages (suc left) a = map_here a a >> identity_pages left (add64 a page_size)

  unfoldable pub identity_descriptors : List Descriptor → Cmd (Unit {0})
  unfolding identity_pages
  identity_descriptors [] = pure tt
  identity_descriptors (d ∷ ds) =
      let rest = identity_descriptors ds in
      if d.type == normalmem then rest else (identity_pages d.pages d.physaddr >> rest)

  -- `for (; a < limit; a += PAGE_SIZE) map_page(a, a);`
  unfoldable pub identity_below : (rounds a limit : ℕ) → Cmd (Unit {0})
  identity_below zero a limit = λ s. out_of_fuel
  identity_below (suc rounds) a limit =
      let rest = identity_below rounds (add64 a page_size) limit in
      if ltb a limit then (map_here a a >> rest) else pure tt

  unfoldable pub map_image : (rounds a b kernel_mem_size : ℕ) → Cmd (Unit {0})
  map_image zero a b kernel_mem_size = λ s. out_of_fuel
  map_image (suc rounds) a b kernel_mem_size =
      let rest = map_image rounds (add64 a page_size) (add64 b page_size) kernel_mem_size in
      map_here a (add64 kernel_vaddr b)
      >> (if ltb (add64 b page_size) kernel_mem_size then rest else pure tt)

  -- The steps after the mapping of the kernel, with `pages` for the bitmap: the results are
  -- `bootinfo.mb_addr` and `bootinfo.k_stack_paddr`.
  unfoldable pub map_after : (rounds pages : ℕ) → Cmd (ℕ × ℕ)
  unfolding identity_below
  map_after rounds pages = do
    mb_addr ← pagealloc rscodemem pages
    identity_below rounds mb_addr (add64 mb_addr pages)
    stack ← pagealloc rsdatamem 1
    map_here stack (kernel_stack - page_size)
    pure (mb_addr, stack)

  unfoldable pub boot_paging :
      (rounds : ℕ) → List Descriptor → (kernel kernel_mem_size mb_pages : ℕ) → Cmd (ℕ × ℕ)
  unfolding identity_descriptors identity_below map_image map_after
  boot_paging rounds memmap kernel kernel_mem_size mb_pages = do
    clear_pml4
    identity_descriptors memmap
    identity_below rounds 0 first_memory
    map_image rounds kernel 0 kernel_mem_size
    map_after rounds (ceiling mb_pages 32768)
