-- ===== src/Init/Draw.antt =====
-- What `init` leaves on the screen.
use flame_os.Base.{ℕ, zero, suc, ◌+◌, ◌*◌, ◌^◌, ◌<◌, ◌≤◌, ◌≡◌, ◌∙◌, arith, ltb, ◌&&◌, if◌then◌else◌}
use flame_os.Gfx.{Screen, Pixels}
use flame_os.Gfx.Paint.{fillrect-paints}
use flame_os.Init.{draw_squares, draw}

-- The squares up to side `n` cover what the last one covers.
draw_squares-at :
    (s : Screen) (left i px py : ℕ) (fb : Pixels)
    → i + left ≤ suc s.fb_pixperline
    → px < s.fb_pixperline
    → draw_squares s left i fb (px + py * s.fb_pixperline) ≡ (
        if ltb (suc px) (i + left) && ltb (suc py) (i + left) && ltb 0 left
        then 0x006040
        else fb (px + py * s.fb_pixperline))
unfolding draw_squares
draw_squares-at s zero i px py fb h hp = ground arith
draw_squares-at s (suc left) i px py fb h hp =
    draw_squares-at s left (suc i) px py _ (omega arith) hp
    ∙ rw (fillrect-paints s 0 0 i i 0x006040 fb px py (omega arith) (omega arith) hp) (ground arith)

-- On a screen whose rows are at least as long as it is wide and as it is high, which is less than 2 ^ 31,
-- `draw` gives the pixels of the square at the top left corner, of the height of the screen, the colour
-- 0x006040, the other pixels of the screen 0xc99eff, and leaves the rest of the framebuffer alone.
pub draw-at :
    (s : Screen) (px py : ℕ) (fb : Pixels)
    → s.fb_h < 2 ^ 31
    → s.fb_w ≤ s.fb_pixperline
    → s.fb_h ≤ s.fb_pixperline
    → px < s.fb_pixperline
    → draw s fb (px + py * s.fb_pixperline) ≡ (
        if ltb px s.fb_h && ltb py s.fb_h
        then 0x006040
        else if ltb px s.fb_w && ltb py s.fb_h
        then 0xc99eff
        else fb (px + py * s.fb_pixperline))
unfolding draw
draw-at s px py fb small wide high hp =
    draw_squares-at s (s.fb_h + 1) 0 px py _ (omega arith) hp
    ∙ rw (fillrect-paints s 0 0 s.fb_w s.fb_h 0xc99eff fb px py (omega arith) (omega arith) hp)
        (ground arith)
