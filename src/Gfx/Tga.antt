-- ===== src/Gfx/Tga.antt =====
-- libs/libgfx/img/tga.c: the plotting of an image that is in memory. The file has been read to `header`; its
-- bytes are `file`. The bytes of the pixels follow the packed header, 18 of them.
use flame_os.Base.{ℕ, zero, suc, ◌+◌, ◌*◌, ◌^◌, ◌%◌, ◌-◌, ◌<◌, ◌≤◌, ◌≡◌, refl, arith}
use mathlib.Core.Path.{}
use flame_os.Libc.Bytes
use flame_os.Libc.Bytes.{store}
use flame_os.Gfx.{Screen, Pixels, plotpixel, plotimg, plotimg_row, plotimg_rows}

abbrev word : Bytes.Bytes → ℕ → ℕ
word b k = b k + 2 ^ 8 * b (k + 1)

-- The fields of `tga_info_t` that `tga_plot` reads.
pub record TgaInfo : Type 0 where
  pub h : ℕ
  pub w : ℕ

abbrev pub tga_info : Bytes.Bytes → TgaInfo
tga_info file = record { h = word file 12; w = word file 14 }

abbrev pub tga_header : ℕ
tga_header = 18

-- The pixels of the file, by their number.
abbrev pub tga_image : Bytes.Bytes → Pixels
tga_image file k = word file (tga_header + 4 * k) + 2 ^ 16 * word file (tga_header + 4 * k + 2)

-- The inner loop, from column `j` of row `i` on; `image` is the number of the next pixel.
unfoldable pub tga_row : Screen → Pixels → (left j i image : ℕ) → Pixels → Pixels
unfolding plotpixel
tga_row s img zero j i image fb = fb
tga_row s img (suc left) j i image fb =
    tga_row s img left (suc j) i (suc image) (plotpixel s j i (img image) fb)

unfoldable pub tga_rows : Screen → Pixels → (left w i image : ℕ) → Pixels → Pixels
unfolding tga_row
tga_rows s img zero w i image fb = fb
tga_rows s img (suc left) w i image fb =
    tga_rows s img left w (suc i) (image + w) (tga_row s img w 0 i image fb)

-- The loops of `tga_plot`, which does not use `x` and `y`.
unfoldable pub tga_plot : Screen → Bytes.Bytes → (x y : ℕ) → Pixels → Pixels
unfolding tga_rows
tga_plot s file x y fb = tga_rows s (tga_image file) (tga_info file).h (tga_info file).w 0 0 fb

tga_row-plotimg_row :
    (s : Screen) (img : Pixels) (left j i image : ℕ) (fb : Pixels)
    → i * s.fb_pixperline < 2 ^ 32
    → tga_row s img left j i image fb ≡ plotimg_row img left (j + i * s.fb_pixperline) image fb
unfolding tga_row plotimg_row
tga_row-plotimg_row s img zero j i image fb h = refl
tga_row-plotimg_row s img (suc left) j i image fb h =
    let e : (i * s.fb_pixperline) % 2 ^ 32 ≡ i * s.fb_pixperline = omega arith in
    let next : suc (j + i * s.fb_pixperline) ≡ suc j + i * s.fb_pixperline = omega arith in
    rw (e, next) (tga_row-plotimg_row s img left (suc j) i (suc image) _ h)

tga_rows-plotimg_rows :
    (s : Screen) (img : Pixels) (left w i image : ℕ) (fb : Pixels)
    → s.fb_w ≡ s.fb_pixperline
    → w ≤ s.fb_pixperline
    → s.fb_pixperline < 2 ^ 32
    → (i + left) * s.fb_pixperline < 2 ^ 32
    → tga_rows s img left w i image fb ≡ plotimg_rows s img left w (i * s.fb_pixperline) image fb
unfolding tga_rows plotimg_rows
tga_rows-plotimg_rows s img zero w i image fb full fits small h = refl
tga_rows-plotimg_rows s img (suc left) w i image fb full fits small h =
    let line = s.fb_pixperline in
    let total : (i + suc left) * line ≡ i * line + left * line + line = grind arith in
    let total' : (suc i + left) * line ≡ i * line + left * line + line = grind arith in
    let m : suc i * line ≡ i * line + line = grind arith in
    let stride : (line + 2 ^ 32 - w) % 2 ^ 32 ≡ line - w = omega arith in
    let next : i * line + w + (line - w) ≡ suc i * line = omega arith in
    let start : 0 + i * line ≡ i * line = omega arith in
    rw (full, stride, next, tga_row-plotimg_row s img w 0 i image fb (omega arith), start)
      (tga_rows-plotimg_rows s img left w (suc i) (image + w) _ full fits small (omega arith))

-- On a screen without padding, `tga_plot` of an image that fits in the rows and ends below position 2 ^ 32 is
-- `plotimg` of its pixels at the top left corner, whatever place it is asked for.
pub tga_plot-plotimg :
    (s : Screen) (file : Bytes.Bytes) (x y : ℕ) (fb : Pixels)
    → s.fb_w ≡ s.fb_pixperline
    → (tga_info file).w ≤ s.fb_pixperline
    → s.fb_pixperline < 2 ^ 32
    → (tga_info file).h * s.fb_pixperline < 2 ^ 32
    → tga_plot s file x y fb ≡ plotimg s (tga_image file) 0 0 (tga_info file).w (tga_info file).h fb
unfolding tga_plot plotimg
tga_plot-plotimg s file x y fb full fits small h =
    let e : (0 * s.fb_pixperline) % 2 ^ 32 + 0 ≡ 0 * s.fb_pixperline = grind arith in
    let e' : 0 + (tga_info file).h ≡ (tga_info file).h = omega arith in
    rw e (
      tga_rows-plotimg_rows s (tga_image file) (tga_info file).h (tga_info file).w 0 0 fb full fits
        small (rw e' h))
