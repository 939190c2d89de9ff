-- ===== src/Memory/Setup/Kernel.antt =====
-- What init_paging leaves: the kernel and the frame buffer at their addresses.
use flame_os.Base.{
  ℕ, suc, ◌+◌, ◌-◌, ◌*◌, ◌/◌, ◌%◌, ◌^◌, ◌<◌, ◌≤◌, ◌≡◌, ◌≢◌, true, ◌⊎◌, refl, ap, ◌∙◌, arith, ltb,
  add64,
}
use mathlib.Core.Path.{fun_ext}
use flame_os.Memory.Phys.{page_size}
use flame_os.Memory.Phys.Count.{free_pages}
use flame_os.Memory.Machine.{Machine, Run, done, null_write, bad_read, out_of_fuel, and_then, ◌>>◌}
use flame_os.Memory.Paging.{Table, root, at, entry, present, map_page, find_physaddr}
use flame_os.Memory.Paging.Entry.{page_number, present-zero}
use flame_os.Memory.Paging.Tree.{Ghost, IsTree, IsMap, InMap, IsTable}
use flame_os.Memory.Paging.Ends.{Ends, Returns, returns, bind, bind_value}
use flame_os.Memory.Heap.{kernel_heap, kernel_stack}
use flame_os.Memory.Setup.{
  BootInfo, Globals, init_globals, framebuffer, map_kernel, map_bitmap, map_rest, init_paging,
}
use flame_os.Memory.Setup.Ranges.{
  Ready, Fact, Passes, Passes-first, Passes-second, map_page-Fact, map_page-Ready, map_while-Fact,
  map_while-Ready, map_while-maps, map_while-step, map_while-end,
}

-- The rounds of a loop over `size` bytes.
abbrev pub pages_of : ℕ → ℕ
pages_of size = (size + (page_size - 1)) / page_size

-- What the bootloader's values are taken to satisfy: whole pages, ranges that do not meet and lie
-- where the kernel wants them, and rounds for each loop. All pages that may become page tables lie
-- below `bound`, and so below the kernel's virtual addresses.
pub record Layout (rounds bound : ℕ) (b : Globals) : Type 0 where
  pub kernel_whole : b.kernel_paddr % page_size ≡ 0
  pub kernel_aligned : b.kernel_vaddr % page_size ≡ 0
  pub kernel_nonnull : b.kernel_paddr ≢ 0
  pub kernel_low : b.kernel_paddr + b.kernel_size + page_size ≤ 2 ^ 52
  pub kernel_above : bound ≤ b.kernel_vaddr
  pub kernel_below : b.kernel_vaddr + b.kernel_size + page_size ≤ kernel_heap
  pub screen_whole : b.fb_addr % page_size ≡ 0
  pub screen_nonnull : b.fb_addr ≢ 0
  pub screen_low : b.fb_addr + b.fb_size + page_size ≤ 2 ^ 52
  pub screen_small : b.fb_size ≤ 2 ^ 40
  pub bitmap_low : b.pmem_bmap + b.pmem_bmap_pages + page_size ≤ 2 ^ 52
  pub bitmap_small : b.pmem_bmap_pages ≤ 2 ^ 37
  pub kernel_rounds : b.kernel_size + page_size ≤ rounds * page_size
  pub screen_rounds : b.fb_size + page_size ≤ rounds * page_size
  pub bitmap_rounds : b.pmem_bmap_pages + page_size ≤ rounds * page_size

-- The globals after `init_paging`.
abbrev pub moved : Globals → Globals
moved b = record b {
  fb_addr = framebuffer;
  freemap = kernel_heap;
  pmem_bmap = kernel_heap + page_size;
}

abbrev pub no_tables : Ghost
no_tables = record { level = λ _. 0; prefix = λ _. 0 }

abbrev pub cleared : Machine → Machine
cleared s = record s { pml4 = λ _. 0 }

module _ (fuel bound : ℕ) where
  -- No table is there before the first call of `map_page`.
  pub cleared-Ready :
      (s : Machine)
      → IsMap s.freemap
      → ((a : ℕ) → InMap s.freemap a → a < bound)
      → free_pages s.freemap s.bmap < fuel
      → Ready fuel bound no_tables (cleared s)
  cleared-Ready s map low few = record {
    tree = record {
      map = map;
      child = λ t i l is k p. none t i is p;
      in_use = λ a n. absurd (n refl);
    };
    few = few;
    tables = λ a n. absurd (n refl);
    pages = low;
  }
    where
      none :
          {P : Type 0} (t : Table) (i : ℕ)
          → IsTable no_tables t
          → present (entry (cleared s) t i) ≡ true
          → P
      none root i is p = absurd (ground (arith, present-zero))
      none (at a) i is p = absurd (is refl)

module _ (rounds fuel bound : ℕ) (b : Globals) (h : Layout rounds bound b) where
  kernel-Passes :
      Passes
        (λ a c. ltb c (add64 b.kernel_vaddr b.kernel_size))
        (pages_of b.kernel_size)
        b.kernel_paddr
        b.kernel_vaddr
  kernel-Passes =
      let e : add64 b.kernel_vaddr b.kernel_size ≡ b.kernel_vaddr + b.kernel_size =
        omega (arith, h.kernel_below) in
      rw e (
        Passes-second (pages_of b.kernel_size) b.kernel_paddr b.kernel_vaddr
          (b.kernel_vaddr + b.kernel_size) (omega arith) (omega arith))

  screen-Passes :
      Passes (λ a c. ltb a (add64 b.fb_addr b.fb_size)) (pages_of b.fb_size) b.fb_addr framebuffer
  screen-Passes =
      let e : add64 b.fb_addr b.fb_size ≡ b.fb_addr + b.fb_size = omega (arith, h.screen_low) in
      rw e (
        Passes-first (pages_of b.fb_size) b.fb_addr framebuffer (b.fb_addr + b.fb_size)
          (omega arith) (omega arith))

  bitmap-Passes :
      Passes
        (λ a c. ltb a (add64 b.pmem_bmap b.pmem_bmap_pages))
        (pages_of b.pmem_bmap_pages)
        b.pmem_bmap
        (kernel_heap + page_size)
  bitmap-Passes =
      let e : add64 b.pmem_bmap b.pmem_bmap_pages ≡ b.pmem_bmap + b.pmem_bmap_pages =
        omega (arith, h.bitmap_low) in
      rw e (
        Passes-first (pages_of b.pmem_bmap_pages) b.pmem_bmap (kernel_heap + page_size)
          (b.pmem_bmap + b.pmem_bmap_pages) (omega arith) (omega arith))

  -- The last two steps keep a page that is not in the heap's range.
  heap-Fact :
      (v p : ℕ) (g : Ghost) (s : Machine)
      → (page_number v * page_size < kernel_heap) ⊎ (framebuffer ≤ page_number v * page_size)
      → Ready fuel bound g s
      → Fact fuel bound v p s
      → Ends
          (λ g' s'. Ready fuel bound g' s' × Fact fuel bound v p s')
          ((map_bitmap rounds fuel b >> map_page fuel b.freemap kernel_heap) s)
  unfolding map_bitmap
  heap-Fact v p g s out r f =
      bind _
        (map_while-Fact fuel bound _ (pages_of b.pmem_bmap_pages) rounds b.pmem_bmap
          (kernel_heap + page_size) v p g s bitmap-Passes (omega (arith, h.bitmap_rounds))
          (omega (arith, h.bitmap_low)) (omega (arith, h.bitmap_small)) refl
          (omega (arith, h.bitmap_small)) r f)
        λ _ g' s' (r', f').
          map_page-Fact fuel bound b.freemap kernel_heap v p g' s' r' f' (λ e. omega arith)

  -- Each page of the kernel.
  kernel-Fact :
      (j v p : ℕ) (g : Ghost) (s : Machine)
      → j * page_size < b.kernel_size
      → v ≡ b.kernel_vaddr + j * page_size
      → p ≡ b.kernel_paddr + j * page_size
      → Ready fuel bound g s
      → Ends
          (λ g' s'. Ready fuel bound g' s' × Fact fuel bound v p s')
          ((map_kernel rounds fuel b >> map_rest rounds fuel b) s)
  kernel-Fact j v p g s hj ev ep r =
      bind _
        (map_while-maps fuel bound _ (pages_of b.kernel_size) rounds b.kernel_paddr b.kernel_vaddr j
          v p g s kernel-Passes (omega (arith, h.kernel_rounds)) (omega (arith, h.kernel_low))
          (omega (arith, h.kernel_below)) h.kernel_whole h.kernel_aligned h.kernel_nonnull
          h.kernel_above (omega arith) ev ep r)
        λ _ g₁ s₁ (r₁, f₁).
          let place : page_number v * page_size ≡ v =
            omega (arith, h.kernel_below, h.kernel_aligned) in
          let below : v < kernel_heap = omega (arith, h.kernel_below) in
          bind _
            (map_page-Fact fuel bound b.kernel_stack_paddr (kernel_stack - page_size) v p g₁ s₁ r₁
              f₁ (λ e. omega arith))
            λ _ g₂ s₂ (r₂, f₂).
              bind _
                (map_while-Fact fuel bound _ (pages_of b.fb_size) rounds b.fb_addr framebuffer v p
                  g₂ s₂ screen-Passes (omega (arith, h.screen_rounds)) (omega (arith, h.screen_low))
                  (omega (arith, h.screen_small)) refl (omega arith) r₂ f₂)
                λ _ g₃ s₃ (r₃, f₃). heap-Fact v p g₃ s₃ (omega arith) r₃ f₃

  -- Each page of the frame buffer.
  screen-Fact :
      (j v p : ℕ) (g : Ghost) (s : Machine)
      → j * page_size < b.fb_size
      → v ≡ framebuffer + j * page_size
      → p ≡ b.fb_addr + j * page_size
      → Ready fuel bound g s
      → Ends
          (λ g' s'. Ready fuel bound g' s' × Fact fuel bound v p s')
          ((map_kernel rounds fuel b >> map_rest rounds fuel b) s)
  screen-Fact j v p g s hj ev ep r =
      bind _
        (map_while-Ready fuel bound _ (pages_of b.kernel_size) rounds b.kernel_paddr b.kernel_vaddr
          g s kernel-Passes (omega (arith, h.kernel_rounds)) (omega (arith, h.kernel_low))
          (omega (arith, h.kernel_below)) r)
        λ _ g₁ s₁ r₁.
          bind _
            (map_page-Ready fuel bound b.kernel_stack_paddr (kernel_stack - page_size) g₁ s₁ r₁)
            λ _ g₂ s₂ (r₂, d₂).
              bind _
                (map_while-maps fuel bound _ (pages_of b.fb_size) rounds b.fb_addr framebuffer j v p
                  g₂ s₂ screen-Passes (omega (arith, h.screen_rounds)) (omega (arith, h.screen_low))
                  (omega (arith, h.screen_small)) h.screen_whole refl h.screen_nonnull
                  (omega (arith, h.kernel_above, h.kernel_below)) (omega arith) ev ep r₂)
                λ _ g₃ s₃ (r₃, f₃). heap-Fact v p g₃ s₃ (omega (arith, h.screen_small)) r₃ f₃

  -- `init_paging` of a machine with any page tables, for values of the bootloader as in `Layout` and
  -- with fuel above the number of free pages, always ends, and at a write through NULL only with no
  -- page free, if the physical memory map is of whole pages below 2 ^ 48 and below the kernel's
  -- addresses that do not overlap, without the page at address 0. Else the tables are a tree, each page of the kernel is translated to the place where
  -- the bootloader has put it, and the three pointers of the kernel have their new values.
  pub init_paging-kernel :
      (pml4 j : ℕ) (s : Machine)
      → IsMap s.freemap
      → ((a : ℕ) → InMap s.freemap a → a < bound)
      → free_pages s.freemap s.bmap < fuel
      → j * page_size < b.kernel_size
      → Returns
          (λ r g' s'.
            (r.0 ≡ moved b)
            × IsTree g' s'
            × (find_physaddr (b.kernel_vaddr + j * page_size) s' ≡ b.kernel_paddr + j * page_size))
          (init_paging rounds fuel pml4 b s)
  unfolding init_paging
  init_paging-kernel pml4 j s map low few hj =
      bind_value _
        (kernel-Fact j _ _ no_tables (cleared s) hj refl refl
          (cleared-Ready fuel bound s map low few))
        λ _ g' s' (r', f'). returns g' (refl, r'.tree, f'.found)

  -- `init_paging` of a machine with any page tables, for values of the bootloader as in
  -- `Layout` and with fuel above the number of free pages, always ends, and at a write through
  -- NULL only with no page free. Else each page of the new address of the framebuffer is
  -- translated to that page of the framebuffer.
  pub init_paging-screen :
      (pml4 j : ℕ) (s : Machine)
      → IsMap s.freemap
      → ((a : ℕ) → InMap s.freemap a → a < bound)
      → free_pages s.freemap s.bmap < fuel
      → j * page_size < b.fb_size
      → Returns
          (λ r g' s'. find_physaddr ((r.0).fb_addr + j * page_size) s' ≡ b.fb_addr + j * page_size)
          (init_paging rounds fuel pml4 b s)
  unfolding init_paging
  init_paging-screen pml4 j s map low few hj =
      bind_value _
        (screen-Fact j _ _ no_tables (cleared s) hj refl refl
          (cleared-Ready fuel bound s map low few))
        λ _ g' s' (r', f'). returns g' f'.found

and_then-done : (r : Run (Unit {0})) → and_then r (λ _ s. done tt s) ≡ r
and_then-done (done u s) = refl
and_then-done (null_write s) = refl
and_then-done (bad_read s) = refl
and_then-done out_of_fuel = refl

-- With at least one and at most 2 ^ 39 pages of memory, a bitmap whose first page does not wrap,
-- and fuel for two rounds, the loop of `init_paging` that maps the bitmap is a single call of
-- `map_page`, also where the bitmap is longer: its bound is a number of pages that it takes for
-- bytes.
pub map_bitmap-one_page :
    (rounds fuel : ℕ) (i : BootInfo) (s : Machine)
    → 0 < i.mb_pages
    → i.mb_pages ≤ 2 ^ 39
    → i.mb_addr + page_size < 2 ^ 64
    → map_bitmap (suc (suc rounds)) fuel (init_globals i) s
      ≡ map_page fuel i.mb_addr (kernel_heap + page_size) s
unfolding map_bitmap init_globals
map_bitmap-one_page rounds fuel i s pos few low =
    let pages : ℕ = (init_globals i).pmem_bmap_pages in
    let some_pages : 0 < pages = omega arith in
    let few_pages : pages ≤ page_size = omega arith in
    let end : add64 i.mb_addr pages ≡ i.mb_addr + pages = omega arith in
    map_while-step _ (suc rounds) fuel i.mb_addr (kernel_heap + page_size) 0 s
      (rw end (ground arith)) (omega arith) (omega arith)
    ∙ ap
        (λ (k : Machine → Run (Unit {0})).
          and_then (map_page fuel i.mb_addr (kernel_heap + page_size) s) (λ _. k))
        (fun_ext λ s'.
          map_while-end _ rounds fuel (i.mb_addr + page_size) (kernel_heap + page_size + page_size)
            s' (rw end (ground arith)))
    ∙ and_then-done _
