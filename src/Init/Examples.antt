-- ===== src/Init/Examples.antt =====
-- The report and the drawing of `init` at concrete values.
use flame_os.Base.{ℕ, zero, suc, ◌+◌, ◌*◌, ◌≡◌, refl, arith, List, [], ◌∷◌, ok}
use flame_os.Memory.Phys.{FreeArea}
use flame_os.Memory.Setup.{Globals}
use flame_os.Gfx.{Screen, Pixels}
use flame_os.Init.{report, draw}
use flame_os.Init.Report.{report-returns}
use flame_os.Init.Draw.{draw-at}

abbrev globals : Globals
globals = record {
  memmap = 0x5000;
  mm_descs = 2;
  freemap = 0x6000;
  fm_descs = 1;
  memory_pages = 16;
  pmem_bmap = 0x40_0000;
  pmem_bmap_pages = 1;
  kernel_paddr = 0x20_0000;
  kernel_vaddr = 0x10_0000_0000;
  kernel_size = 0x1800;
  kernel_stack_paddr = 0x30_0000;
  efi_rs = 0;
  fb_addr = 0xc000_0000;
  fb_size = 0x3000;
  fb_w = 4;
  fb_h = 3;
  fb_pixperline = 5;
}

abbrev freemap : List FreeArea
freemap = record { addr = 0x10_0000; blocks = 16 } ∷ []

abbrev buffer : ℕ → List ℕ
buffer zero = []
buffer (suc n) = 0 ∷ buffer n

report-returns_example : (out : List ℕ) × (report globals freemap (buffer 21) ≡ ok out)
report-returns_example =
    report-returns globals freemap (buffer 21)
      (record {
        memmap = omega arith;
        mm_descs = omega arith;
        freemap = omega arith;
        fm_descs = omega arith;
        kernel_paddr = omega arith;
        kernel_vaddr = omega arith;
        kernel_size = omega arith;
        pmem_bmap = omega arith;
        memory_pages = omega arith;
        fb_addr = omega arith;
        fb_size = omega arith;
        fb_w = omega arith;
        fb_h = omega arith;
        fb_pixperline = omega arith;
      })
      (omega arith, omega arith, tt) (omega arith) refl

abbrev screen : Screen
screen = record { fb_w = 4; fb_h = 3; fb_pixperline = 5 }

abbrev black : Pixels
black a = 0

draw-at_example : draw screen black (2 + 2 * 5) ≡ 0x006040
draw-at_example = draw-at screen 2 2 black (omega arith) (omega arith) (omega arith) (omega arith)

-- Right of the square.
beside : draw screen black (3 + 2 * 5) ≡ 0xc99eff
unfolding draw
beside = refl
