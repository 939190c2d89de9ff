-- ===== src/Memory/Setup/Examples.antt =====
-- The theorems on starting the memory, and on merging free spaces, at concrete states.
use flame_os.Base.{ℕ, zero, suc, ◌+◌, ◌*◌, ◌≡◌, ◌<◌, refl, List, [], ◌∷◌, arith}
use flame_os.Memory.Machine.{Machine, Region}
use flame_os.Memory.Phys.{page_size}
use flame_os.Memory.Phys.Bitmap.{}
use flame_os.Memory.Paging.{map_page, find_physaddr}
use flame_os.Memory.Paging.Tree.{InMap, IsTree}
use flame_os.Memory.Paging.Ends.{Returns}
use flame_os.Memory.Heap.{region, kernel_heap}
use flame_os.Memory.Heap.Count.{}
use flame_os.Memory.Heap.Refresh.{refresh_freespace}
use flame_os.Memory.Heap.Refresh.Merge.{AllTidy, Apart, Keeps, refresh_freespace-count}
use flame_os.Memory.Setup.{BootInfo, init_globals, init_paging, map_bitmap}
use flame_os.Memory.Setup.Kernel.{Layout, moved, init_paging-kernel, map_bitmap-one_page}
use flame_os.Memory.Examples.{areas, machine, areas-IsMap, few_free}

-- A kernel of two pages, a frame buffer of three, and a memory of 40000 pages.
abbrev bootinfo : BootInfo
bootinfo = record {
  memmap = 0x5000;
  mm_descs = 1;
  freemap = 0x6000;
  fm_descs = 1;
  k_paddr = 0x20_0000;
  k_vaddr = 0x10_0000_0000;
  k_size = 0x1800;
  k_stack_paddr = 0x30_0000;
  mb_addr = 0x40_0000;
  mb_pages = 40000;
  efi_rs = 0;
  fb_addr = 0xc000_0000;
  fb_size = 0x3000;
  fb_w = 64;
  fb_h = 48;
  fb_pixperline = 64;
}

globals-Layout : Layout 100 0x10_0000_0000 (init_globals bootinfo)
unfolding init_globals
globals-Layout = record {
  kernel_whole = refl;
  kernel_aligned = refl;
  kernel_nonnull = λ e. omega arith;
  kernel_low = omega arith;
  kernel_above = omega arith;
  kernel_below = omega arith;
  screen_whole = refl;
  screen_nonnull = λ e. omega arith;
  screen_low = omega arith;
  screen_small = omega arith;
  bitmap_low = omega arith;
  bitmap_small = omega arith;
  kernel_rounds = omega arith;
  screen_rounds = omega arith;
  bitmap_rounds = omega arith;
}

areas_low : (a : ℕ) → InMap areas a → a < 0x10_0000_0000
areas_low a (k, l, e) = ground arith

init_paging-kernel_example :
    Returns
      (λ r g s.
        (r.0 ≡ moved (init_globals bootinfo))
        × IsTree g s
        × (find_physaddr ((init_globals bootinfo).kernel_vaddr + 1 * page_size) s
            ≡ (init_globals bootinfo).kernel_paddr + 1 * page_size))
      (init_paging 100 17 0x10_0000_1000 (init_globals bootinfo) (machine 0))
unfolding init_globals
init_paging-kernel_example =
    init_paging-kernel 100 17 0x10_0000_0000 (init_globals bootinfo) globals-Layout 0x10_0000_1000 1
      (machine 0) areas-IsMap areas_low few_free (omega arith)

map_bitmap-one_page_example :
    map_bitmap 3 17 (init_globals bootinfo) (machine 0)
    ≡ map_page 17 0x40_0000 (kernel_heap + page_size) (machine 0)
map_bitmap-one_page_example =
    map_bitmap-one_page 1 17 bootinfo (machine 0) (omega arith) (omega arith) (omega arith)

-- Two spaces that touch.
abbrev spaces : List Region
spaces = region 0x18_0000_1000 0x1000 ∷ region 0 0 ∷ region 0x18_0000_0000 0x1000 ∷ []

abbrev split_heap : Machine
split_heap = record (machine 0) { freespace = λ _. spaces }

spaces-AllTidy : AllTidy spaces
spaces-AllTidy zero r e = ground arith
spaces-AllTidy (suc zero) r e = ground arith
spaces-AllTidy (suc (suc zero)) r e = ground arith
spaces-AllTidy (suc (suc (suc i))) r e = absurd (cc)

spaces-Apart : Apart spaces
spaces-Apart a = ground arith

refresh_freespace-count_example :
    Keeps (split_heap.freespace 0) ((refresh_freespace split_heap).freespace 0)
refresh_freespace-count_example =
    refresh_freespace-count split_heap 0 (omega arith) spaces-AllTidy spaces-Apart
