-- ===== src/Gfx.antt =====
-- libs/libgfx/gfx: drawing into the framebuffer. A position counts pixels from `fb_addr`, and the
-- framebuffer and an image are functions from positions to pixels. The counters of `fillrect` are `int`s;
-- they stay below 2 ^ 31.
pub mod Paint
pub mod Tga
mod Examples
use flame_os.Base.{ℕ, zero, suc, ◌+◌, ◌*◌, ◌-◌, ◌^◌, ◌%◌, u32}
use flame_os.Libc.Bytes.{store}

-- What gfx.h declares of the screen.
pub record Screen : Type 0 where
  pub fb_w : ℕ
  pub fb_h : ℕ
  pub fb_pixperline : ℕ

abbrev pub Pixels : Type 0
Pixels = ℕ → ℕ

unfoldable pub plotpixel : Screen → (x y colour : ℕ) → Pixels → Pixels
plotpixel s x y colour fb = store fb (x + u32 (y * s.fb_pixperline)) colour

-- `loc[j] = colour` from `j` on.
unfoldable pub fillrect_row : (left j loc colour : ℕ) → Pixels → Pixels
fillrect_row zero j loc colour fb = fb
fillrect_row (suc left) j loc colour fb =
    fillrect_row left (suc j) loc colour (store fb (loc + j) colour)

unfoldable pub fillrect_rows : Screen → (left w loc colour : ℕ) → Pixels → Pixels
unfolding fillrect_row
fillrect_rows s zero w loc colour fb = fb
fillrect_rows s (suc left) w loc colour fb =
    fillrect_rows s left w (loc + s.fb_pixperline) colour (fillrect_row w 0 loc colour fb)

unfoldable pub fillrect : Screen → (x y w h colour : ℕ) → Pixels → Pixels
unfolding fillrect_rows
fillrect s x y w h colour fb = fillrect_rows s h w (x + u32 (y * s.fb_pixperline)) colour fb

-- `*ptr++ = *src++`, for a row of the image.
unfoldable pub plotimg_row : Pixels → (left ptr src : ℕ) → Pixels → Pixels
plotimg_row img zero ptr src fb = fb
plotimg_row img (suc left) ptr src fb =
    plotimg_row img left (suc ptr) (suc src) (store fb ptr (img src))

-- After a row both pointers are `w` further.
unfoldable pub plotimg_rows : Screen → Pixels → (left w ptr src : ℕ) → Pixels → Pixels
unfolding plotimg_row
plotimg_rows s img zero w ptr src fb = fb
plotimg_rows s img (suc left) w ptr src fb =
    plotimg_rows s img left w (ptr + w + (s.fb_w + 2 ^ 32 - w) % 2 ^ 32) (src + w)
      (plotimg_row img w ptr src fb)

unfoldable pub plotimg : Screen → Pixels → (x y w h : ℕ) → Pixels → Pixels
unfolding plotimg_rows
plotimg s img x y w h fb = plotimg_rows s img h w (u32 (y * s.fb_pixperline) + x) 0 fb
