-- ===== src/Memory/Setup.antt =====
-- kernel/arch/x86_64/init.h, `init_globals`; kernel/arch/x86_64/memory/paging.c, `init_paging`; and
-- kernel/memory/memory.c, `alloc_and_map` and `init_memory`. The globals that no other file of the model
-- keeps are a record. A `while` loop takes fuel for its rounds, next to that of `map_page`.
pub mod Ranges
pub mod Kernel
mod Examples
use flame_os.Base.{ℕ, zero, suc, ◌+◌, ◌-◌, ◌*◌, Bool, ltb, if◌then◌else◌, add64, ceiling}
use flame_os.Memory.Phys.{page_size}
use flame_os.Memory.Machine.{Machine, Run, done, out_of_fuel, Cmd, pure, ◌>>=◌, ◌>>◌, get}
use flame_os.Memory.Paging.{map_page, find_physaddr}
use flame_os.Memory.Heap.{kernel_heap, kernel_stack, take_page}
use flame_os.Memory.Heap.Free.{init_malloc}

-- `bootinfo_t`, what the bootloader hands over.
pub record BootInfo : Type 0 where
  pub memmap : ℕ
  pub mm_descs : ℕ
  pub freemap : ℕ
  pub fm_descs : ℕ
  pub k_paddr : ℕ
  pub k_vaddr : ℕ
  pub k_size : ℕ
  pub k_stack_paddr : ℕ
  pub mb_addr : ℕ
  pub mb_pages : ℕ
  pub efi_rs : ℕ
  pub fb_addr : ℕ
  pub fb_size : ℕ
  pub fb_w : ℕ
  pub fb_h : ℕ
  pub fb_pixperline : ℕ

-- The globals of the kernel.
pub record Globals : Type 0 where
  pub memmap : ℕ
  pub mm_descs : ℕ
  pub freemap : ℕ
  pub fm_descs : ℕ
  pub memory_pages : ℕ
  pub pmem_bmap : ℕ
  pub pmem_bmap_pages : ℕ
  pub kernel_paddr : ℕ
  pub kernel_vaddr : ℕ
  pub kernel_size : ℕ
  pub kernel_stack_paddr : ℕ
  pub efi_rs : ℕ
  pub fb_addr : ℕ
  pub fb_size : ℕ
  pub fb_w : ℕ
  pub fb_h : ℕ
  pub fb_pixperline : ℕ

unfoldable pub init_globals : BootInfo → Globals
init_globals b = record {
  memmap = b.memmap;
  mm_descs = b.mm_descs;
  freemap = b.freemap;
  fm_descs = b.fm_descs;
  memory_pages = b.mb_pages;
  pmem_bmap = b.mb_addr;
  pmem_bmap_pages = ceiling b.mb_pages (8 * 4096 * 4096);
  kernel_paddr = b.k_paddr;
  kernel_vaddr = b.k_vaddr;
  kernel_size = b.k_size;
  kernel_stack_paddr = b.k_stack_paddr;
  efi_rs = b.efi_rs;
  fb_addr = b.fb_addr;
  fb_size = b.fb_size;
  fb_w = b.fb_w;
  fb_h = b.fb_h;
  fb_pixperline = b.fb_pixperline;
}

-- `while (test) { map_page(addr1, addr2); addr1 += PAGE_SIZE; addr2 += PAGE_SIZE; }`
unfoldable pub map_while : (test : ℕ → ℕ → Bool) (rounds fuel addr1 addr2 : ℕ) → Cmd (Unit {0})
map_while test zero fuel addr1 addr2 s = out_of_fuel
map_while test (suc rounds) fuel addr1 addr2 s =
    let rest = map_while test rounds fuel (add64 addr1 page_size) (add64 addr2 page_size) in
    if test addr1 addr2 then (map_page fuel addr1 addr2 >> rest) s else done tt s

abbrev pub clear_pml4 : Cmd (Unit {0})
clear_pml4 s = done tt (record s { pml4 = λ _. 0 })

abbrev pub framebuffer : ℕ
framebuffer = 0x80_0000_0000

abbrev pub map_kernel : (rounds fuel : ℕ) → Globals → Cmd (Unit {0})
map_kernel rounds fuel b =
    map_while (λ addr1 addr2. ltb addr2 (add64 b.kernel_vaddr b.kernel_size)) rounds fuel
      b.kernel_paddr b.kernel_vaddr

abbrev pub map_framebuffer : (rounds fuel : ℕ) → Globals → Cmd (Unit {0})
map_framebuffer rounds fuel b =
    map_while (λ addr1 addr2. ltb addr1 (add64 b.fb_addr b.fb_size)) rounds fuel b.fb_addr
      framebuffer

-- The bound of this loop counts pages, where the others count bytes.
unfoldable pub map_bitmap : (rounds fuel : ℕ) → Globals → Cmd (Unit {0})
map_bitmap rounds fuel b =
    map_while (λ addr1 addr2. ltb addr1 (add64 b.pmem_bmap b.pmem_bmap_pages)) rounds fuel
      b.pmem_bmap (kernel_heap + page_size)

-- What comes after the mapping of the kernel's own pages.
abbrev pub map_rest : (rounds fuel : ℕ) → Globals → Cmd (Unit {0})
map_rest rounds fuel b = do
  map_page fuel b.kernel_stack_paddr (kernel_stack - page_size)
  map_framebuffer rounds fuel b
  map_bitmap rounds fuel b
  map_page fuel b.freemap kernel_heap

-- The globals afterwards, and the address that `load_pml4` gets; `pml4` is at address `pml4_vaddr`.
unfoldable pub init_paging : (rounds fuel pml4_vaddr : ℕ) → Globals → Cmd (Globals × ℕ)
unfolding map_while map_bitmap
init_paging rounds fuel pml4_vaddr b = do
  clear_pml4
  map_kernel rounds fuel b >> map_rest rounds fuel b
  s ← get
  pure (
    record b { fb_addr = framebuffer; freemap = kernel_heap; pmem_bmap = kernel_heap + page_size },
    find_physaddr pml4_vaddr s,
  )

unfoldable pub init_memory : (rounds fuel pml4_vaddr : ℕ) → Globals → Cmd (Globals × ℕ)
unfolding init_paging
init_memory rounds fuel pml4_vaddr b = do
  r ← init_paging rounds fuel pml4_vaddr b
  λ s. done r (init_malloc s)

unfoldable pub alloc_and_map : (fuel virt pages : ℕ) → Cmd (Unit {0})
alloc_and_map fuel virt zero = pure tt
alloc_and_map fuel virt (suc pages) =
    (take_page >>= λ page. map_page fuel page virt)
    >> alloc_and_map fuel (add64 virt page_size) pages
