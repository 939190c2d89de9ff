-- ===== src/Init/Report.antt =====
-- The report of `init` is written whatever the values are.
use flame_os.Base.{
  ℕ, suc, ◌+◌, ◌^◌, ◌<◌, ◌≡◌, ◌==◌, ◌&&◌, not, refl, arith, Bool, true, List, [], ◌∷◌, ◌++◌, length,
  ok, codes,
}
use flame_os.Memory.Phys.{FreeArea}
use flame_os.Memory.Setup.{Globals}
use flame_os.Log.{Arg, number}
use flame_os.Log.Safe.{Wants, end, plain, pointer, decimal, hexadecimal, debug_log-Wants}
use flame_os.Init.{globals_format, globals_args, area_format, log_areas, report}

-- A text without conversions.
abbrev all_plain : List ℕ → Bool
all_plain [] = true
all_plain (c ∷ cs) = not (c == 37) && all_plain cs

plain_text :
    (t : List ℕ) {format : List ℕ} {args : List Arg}
    → all_plain t ≡ true
    → Wants format args
    → Wants (t ++ format) args
plain_text [] h w = w
plain_text (c ∷ cs) h w = plain (λ e. ground arith) (plain_text cs (ground arith) w)

-- The values that are printed are 64-bit numbers.
pub record AreWords (g : Globals) : Type 0 where
  pub memmap : g.memmap < 2 ^ 64
  pub mm_descs : g.mm_descs < 2 ^ 64
  pub freemap : g.freemap < 2 ^ 64
  pub fm_descs : g.fm_descs < 2 ^ 64
  pub kernel_paddr : g.kernel_paddr < 2 ^ 64
  pub kernel_vaddr : g.kernel_vaddr < 2 ^ 64
  pub kernel_size : g.kernel_size < 2 ^ 64
  pub pmem_bmap : g.pmem_bmap < 2 ^ 64
  pub memory_pages : g.memory_pages < 2 ^ 64
  pub fb_addr : g.fb_addr < 2 ^ 64
  pub fb_size : g.fb_size < 2 ^ 64
  pub fb_w : g.fb_w < 2 ^ 64
  pub fb_h : g.fb_h < 2 ^ 64
  pub fb_pixperline : g.fb_pixperline < 2 ^ 64

globals-Wants : (g : Globals) → AreWords g → Wants globals_format (globals_args g)
globals-Wants g w = plain_text (codes "GLOBALS:\nmemmap: ") refl (
    pointer w.memmap (
      plain_text (codes "\nmm_descs: ") refl (
        decimal w.mm_descs (
          plain_text (codes "\n\nfreemap: ") refl (
            pointer w.freemap (
              plain_text (codes "\nfm_descs: ") refl (
                decimal w.fm_descs (
                  plain_text (codes "\n\nkernel_paddr: ") refl (
                    pointer w.kernel_paddr (
                      plain_text (codes "\nkernel_vaddr: ") refl (
                        pointer w.kernel_vaddr (
                          plain_text (codes "\nkernel_size: ") refl (
                            decimal w.kernel_size (
                              plain_text (codes "\n\nmemory_bitmap: ") refl (
                                pointer w.pmem_bmap (
                                  plain_text (codes "\nmemory_pages: ") refl (
                                    decimal w.memory_pages (
                                      plain_text (codes "\n\nfb_addr: ") refl (
                                        pointer w.fb_addr (
                                          plain_text (codes "\nfb_size: 0x") refl (
                                            hexadecimal w.fb_size (
                                              plain_text (codes "\nfb_w: ") refl (
                                                decimal w.fb_w (
                                                  plain_text (codes "\nfb_h: ") refl (
                                                    decimal w.fb_h (
                                                      plain_text (codes "\nfb_pixperline: ") refl (
                                                        decimal w.fb_pixperline (
                                                          plain_text (codes "\n\n\n") refl
                                                            end))))))))))))))))))))))))))))

abbrev pub AreAreas : List FreeArea → Type 0
AreAreas [] = Unit {0}
AreAreas (d ∷ ds) = (d.addr < 2 ^ 64) × (d.blocks < 2 ^ 64) × AreAreas ds

log_areas-returns :
    (i : ℕ) (ds : List FreeArea) (str : List ℕ)
    → AreAreas ds
    → i + length ds < 2 ^ 64
    → length str ≡ 21
    → (out : List ℕ) × (log_areas i ds str ≡ ok out)
unfolding log_areas
log_areas-returns i [] str areas low long = ([], refl)
log_areas-returns i (d ∷ ds) str (addr, blocks, areas) low long =
    let wants : Wants area_format (number i ∷ number d.addr ∷ number d.blocks ∷ []) =
      decimal (omega arith) (
        plain_text (codes ":\nAddr: ") refl (
          pointer addr (
            plain_text (codes "\nPages: 0x") refl
              (hexadecimal blocks (plain_text (codes "\n\n") refl end))))) in
    let (out, e) = debug_log-Wants area_format _ str wants long in
    let (rest, e') = log_areas-returns (suc i) ds str areas (omega arith) long in
    (out ++ rest, rw (e, e') refl)

-- The report of `init` on values and areas of 64 bits returns: with their buffers of 21 characters, none of
-- the calls of `debug_log` writes behind its buffer or reads an argument that is not there.
pub report-returns :
    (g : Globals) (freemap : List FreeArea) (str : List ℕ)
    → AreWords g
    → AreAreas freemap
    → length freemap < 2 ^ 64
    → length str ≡ 21
    → (out : List ℕ) × (report g freemap str ≡ ok out)
unfolding report
report-returns g freemap str words areas few long =
    let (out, e) =
      debug_log-Wants globals_format (globals_args g) str (globals-Wants g words) long in
    let (rest, e') = log_areas-returns 0 freemap str areas (omega arith) long in
    (out ++ rest, rw (e, e') refl)
