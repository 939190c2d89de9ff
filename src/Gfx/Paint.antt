-- ===== src/Gfx/Paint.antt =====
-- Which pixels the rectangles and the images paint.
use flame_os.Base.{
  row_below, ℕ, zero, suc, ◌+◌, ◌*◌, ◌-◌, ◌^◌, ◌%◌, ◌≤◌, ◌<◌, ◌≡◌, Bool, ◌&&◌, ◌==◌, leb, ltb,
  if◌then◌else◌, arith,
}
use native.Mathlib.Decide.{dec_lt}
use flame_os.Gfx.{
  Screen, Pixels, fillrect, fillrect_row, fillrect_rows, plotimg, plotimg_row, plotimg_rows,
}
use flame_os.Libc.Bytes.{store}

-- The pixel `px` of row `py` is in the rectangle.
abbrev pub inside : (x y w h px py : ℕ) → Bool
inside x y w h px py = leb x px && ltb px (x + w) && leb y py && ltb py (y + h)

fillrect_row-at :
    (left j loc colour : ℕ) (fb : Pixels) (a : ℕ)
    → fillrect_row left j loc colour fb a
      ≡ (if leb (loc + j) a && ltb a (loc + j + left) then colour else fb a)
unfolding fillrect_row
fillrect_row-at zero j loc colour fb a = ground arith
fillrect_row-at (suc left) j loc colour fb a =
    rw (fillrect_row-at left (suc j) loc colour (store fb (loc + j) colour) a) (ground arith)

plot_shift :
    (img : Pixels) (left ptr src : ℕ) (fb : Pixels) (a : ℕ)
    → (if leb (suc ptr) a && ltb a (suc ptr + left)
        then img (suc src + (a - suc ptr))
        else (if ptr == a then img src else fb a))
      ≡ (if leb ptr a && ltb a (ptr + suc left) then img (src + (a - ptr)) else fb a)
plot_shift img left ptr src fb a = elim (dec_lt ptr a) [
  | yes later ↦
      let e : suc src + (a - suc ptr) ≡ src + (a - ptr) = omega arith in rw e (ground arith)
  | no not_later ↦ elim (dec_lt a ptr) [
    | yes before ↦ ground arith
    | no not_before ↦ let e : src + (a - ptr) ≡ src = omega arith in rw e (ground arith)
  ]
]

plotimg_row-at :
    (img : Pixels) (left ptr src : ℕ) (fb : Pixels) (a : ℕ)
    → plotimg_row img left ptr src fb a
      ≡ (if leb ptr a && ltb a (ptr + left) then img (src + (a - ptr)) else fb a)
unfolding plotimg_row
plotimg_row-at img zero ptr src fb a = ground arith
plotimg_row-at img (suc left) ptr src fb a =
    rw (plotimg_row-at img left (suc ptr) (suc src) (store fb ptr (img src)) a)
      (plot_shift img left ptr src fb a)

-- A row's pixels, in a framebuffer whose rows are `line` apart.
row_test :
    (line x y w px py : ℕ)
    → x + w ≤ line
    → px < line
    → (leb (x + y * line) (px + py * line) && ltb (px + py * line) (x + y * line + w))
      ≡ inside x y w 1 px py
row_test line x y w px py hx hp = elim (dec_lt py y) [
  | yes above ↦ let l = row_below line py y above in ground arith
  | no not_above ↦ elim (dec_lt y py) [
    | yes below ↦ let l = row_below line y py below in ground arith
    | no not_below ↦ let e : py ≡ y = omega arith in rw e (ground arith)
  ]
]

-- One row more of a rectangle.
inside_more :
    (x y w h px py : ℕ) (p q : ℕ)
    → (if inside x (suc y) w h px py then p else (if inside x y w 1 px py then p else q))
      ≡ (if inside x y w (suc h) px py then p else q)
inside_more x y w h px py p q = ground arith

fillrect_rows-at :
    (s : Screen) (h x y w colour : ℕ) (fb : Pixels) (px py : ℕ)
    → x + w ≤ s.fb_pixperline
    → px < s.fb_pixperline
    → fillrect_rows s h w (x + y * s.fb_pixperline) colour fb (px + py * s.fb_pixperline)
      ≡ (if inside x y w h px py then colour else fb (px + py * s.fb_pixperline))
unfolding fillrect_rows
fillrect_rows-at s zero x y w colour fb px py hx hp = ground arith
fillrect_rows-at s (suc h) x y w colour fb px py hx hp =
    let e : x + y * s.fb_pixperline + s.fb_pixperline ≡ x + suc y * s.fb_pixperline = grind arith in
    let zero_col : x + y * s.fb_pixperline + 0 ≡ x + y * s.fb_pixperline = omega arith in
    rw
      (
        e,
        fillrect_rows-at s h x (suc y) w colour
            (fillrect_row w 0 (x + y * s.fb_pixperline) colour fb) px py hx hp,
        fillrect_row-at w 0 (x + y * s.fb_pixperline) colour fb (px + py * s.fb_pixperline),
        zero_col,
        row_test s.fb_pixperline x y w px py hx hp,
      )
      (inside_more x y w h px py colour (fb (px + py * s.fb_pixperline)))

-- `fillrect` of a rectangle that fits in the width of the rows, and whose first row starts below
-- position 2 ^ 32, gives the colour to the pixels of the rectangle and leaves every other pixel
-- of the framebuffer alone, above and below it included.
pub fillrect-paints :
    (s : Screen) (x y w h colour : ℕ) (fb : Pixels) (px py : ℕ)
    → x + w ≤ s.fb_pixperline
    → y * s.fb_pixperline < 2 ^ 32
    → px < s.fb_pixperline
    → fillrect s x y w h colour fb (px + py * s.fb_pixperline)
      ≡ (if inside x y w h px py then colour else fb (px + py * s.fb_pixperline))
unfolding fillrect
fillrect-paints s x y w h colour fb px py hx hy hp =
    let e : (y * s.fb_pixperline) % 2 ^ 32 ≡ y * s.fb_pixperline = omega arith in
    rw e (fillrect_rows-at s h x y w colour fb px py hx hp)

-- The image's pixel for the pixel `px` of row `py`.
abbrev pub image_at : Pixels → (x y w src px py : ℕ) → ℕ
image_at img x y w src px py = img (src + (py - y) * w + (px - x))

image_more :
    (img fb : Pixels) (line x y w h src px py q : ℕ)
    → x + w ≤ line
    → px < line
    → (if inside x (suc y) w h px py
        then image_at img x (suc y) w (src + w) px py
        else (if leb (x + y * line) (px + py * line) && ltb (px + py * line) (x + y * line + w)
            then img (src + (px + py * line - (x + y * line)))
            else q))
      ≡ (if inside x y w (suc h) px py then image_at img x y w src px py else q)
image_more img fb line x y w h src px py q hx hp =
    rw (row_test line x y w px py hx hp) (elim (dec_lt y py) [
      | yes below ↦
          let k : py - y ≡ suc (py - suc y) = omega arith in
          let e : suc (py - suc y) * w ≡ (py - suc y) * w + w = grind arith in
          let e' : src + w + (py - suc y) * w + (px - x) ≡ src + suc (py - suc y) * w + (px - x) =
            omega arith in
          rw (k, e') (ground arith)
      | no not_below ↦ elim (dec_lt py y) [
        | yes above ↦ ground arith
        | no not_above ↦
            let same : py ≡ y = omega arith in
            let none_up : y - y ≡ 0 = omega arith in
            let e : px + y * line - (x + y * line) ≡ px - x = omega arith in
            let e' : src + 0 * w + (px - x) ≡ src + (px - x) = grind arith in
            rw (same, none_up, e, e') (ground arith)
      ]
    ])

plotimg_rows-at :
    (s : Screen) (img : Pixels) (h x y w src : ℕ) (fb : Pixels) (px py : ℕ)
    → s.fb_w ≡ s.fb_pixperline
    → s.fb_pixperline < 2 ^ 32
    → x + w ≤ s.fb_pixperline
    → px < s.fb_pixperline
    → plotimg_rows s img h w (x + y * s.fb_pixperline) src fb (px + py * s.fb_pixperline) ≡ (
        if inside x y w h px py
        then image_at img x y w src px py
        else fb (px + py * s.fb_pixperline))
unfolding plotimg_rows
plotimg_rows-at s img zero x y w src fb px py full small hx hp = ground arith
plotimg_rows-at s img (suc h) x y w src fb px py full small hx hp =
    let line = s.fb_pixperline in
    let stride : (line + 2 ^ 32 - w) % 2 ^ 32 ≡ line - w = omega arith in
    let m : suc y * line ≡ y * line + line = grind arith in
    let e : x + y * line + w + (line - w) ≡ x + suc y * line = omega arith in
    rw
      (
        full,
        stride,
        e,
        plotimg_rows-at s img h x (suc y) w (src + w) _ px py full small hx hp,
        plotimg_row-at img w (x + y * line) src fb (px + py * line),
      )
      (image_more img fb line x y w h src px py _ hx hp)

-- On a screen without padding at the end of its rows (`fb_w` is `fb_pixperline`, a 32-bit
-- number), `plotimg` of an image that fits in the rows, and whose first row starts below position
-- 2 ^ 32, puts row `r`, column `c` of the image at `(x + c, y + r)` and leaves every other pixel
-- of the framebuffer alone.
pub plotimg-paints :
    (s : Screen) (img : Pixels) (x y w h : ℕ) (fb : Pixels) (px py : ℕ)
    → s.fb_w ≡ s.fb_pixperline
    → s.fb_pixperline < 2 ^ 32
    → x + w ≤ s.fb_pixperline
    → y * s.fb_pixperline < 2 ^ 32
    → px < s.fb_pixperline
    → plotimg s img x y w h fb (px + py * s.fb_pixperline) ≡ (
        if inside x y w h px py then image_at img x y w 0 px py else fb (px + py * s.fb_pixperline))
unfolding plotimg
plotimg-paints s img x y w h fb px py full small hx hy hp =
    let e : (y * s.fb_pixperline) % 2 ^ 32 ≡ y * s.fb_pixperline = omega arith in
    let e' : y * s.fb_pixperline + x ≡ x + y * s.fb_pixperline = omega arith in
    rw (e, e') (plotimg_rows-at s img h x y w 0 fb px py full small hx hp)
