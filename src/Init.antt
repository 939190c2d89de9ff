-- ===== src/Init.antt =====
-- kernel/arch/x86_64/init.c: what `init` writes about the values of the bootloader, and what it draws. The
-- entries of `freemap` are a list; the buffer `str` is that of debug_log. The counter of the squares,
-- an `int`, stays below 2 ^ 31.
pub mod Report
pub mod Draw
mod Examples
use flame_os.Base.{ℕ, zero, suc, ◌+◌, List, [], ◌∷◌, Run, ok, ◌>>=◌, codes}
use flame_os.Memory.Phys.{FreeArea}
use flame_os.Memory.Setup.{Globals}
use flame_os.Log.{Arg, number, prepend, debug_log}
use flame_os.Gfx.{Screen, Pixels, fillrect}

abbrev pub globals_format : List ℕ
globals_format =
    codes
      "GLOBALS:\nmemmap: %p\nmm_descs: %d\n\nfreemap: %p\nfm_descs: %d\n\nkernel_paddr: %p\nkernel_vaddr: %p\nkernel_size: %d\n\nmemory_bitmap: %p\nmemory_pages: %d\n\nfb_addr: %p\nfb_size: 0x%X\nfb_w: %d\nfb_h: %d\nfb_pixperline: %d\n\n\n"

abbrev pub globals_args : Globals → List Arg
globals_args g =
    number g.memmap
    ∷ number g.mm_descs
    ∷ number g.freemap
    ∷ number g.fm_descs
    ∷ number g.kernel_paddr
    ∷ number g.kernel_vaddr
    ∷ number g.kernel_size
    ∷ number g.pmem_bmap
    ∷ number g.memory_pages
    ∷ number g.fb_addr
    ∷ number g.fb_size
    ∷ number g.fb_w
    ∷ number g.fb_h
    ∷ number g.fb_pixperline
    ∷ []

abbrev pub area_format : List ℕ
area_format = codes "%d:\nAddr: %p\nPages: 0x%X\n\n"

-- The loop over `freemap`, from entry `i`.
unfoldable pub log_areas : (i : ℕ) → List FreeArea → (str : List ℕ) → Run (List ℕ)
unfolding debug_log
log_areas i [] str = ok []
log_areas i (d ∷ ds) str = do
  out ← debug_log area_format (number i ∷ number d.addr ∷ number d.blocks ∷ []) str
  prepend out (log_areas (suc i) ds str)

unfoldable pub report : Globals → List FreeArea → (str : List ℕ) → Run (List ℕ)
unfolding debug_log log_areas
report g freemap str = do
  out ← debug_log globals_format (globals_args g) str
  prepend out (log_areas 0 freemap str)

-- The squares of side `i` and more.
unfoldable pub draw_squares : Screen → (left i : ℕ) → Pixels → Pixels
unfolding fillrect
draw_squares s zero i fb = fb
draw_squares s (suc left) i fb = draw_squares s left (suc i) (fillrect s 0 0 i i 0x006040 fb)

unfoldable pub draw : Screen → Pixels → Pixels
unfolding fillrect draw_squares
draw s fb = draw_squares s (s.fb_h + 1) 0 (fillrect s 0 0 s.fb_w s.fb_h 0xc99eff fb)
