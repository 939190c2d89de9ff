-- ===== src/Gfx/Examples.antt =====
-- Drawing on a screen of 4 by 4 pixels, and on one whose rows have padding.
use flame_os.Base.{◌+◌, ◌*◌, ◌≡◌, ◌==◌, if◌then◌else◌, refl, arith}
use flame_os.Gfx.{Screen, Pixels, fillrect, plotimg, plotpixel}
use flame_os.Gfx.Paint.{fillrect-paints, plotimg-paints}
use flame_os.Gfx.Tga.{tga_image, tga_plot, tga_plot-plotimg}
use flame_os.Libc.Bytes

abbrev small : Screen
small = record { fb_w = 4; fb_h = 4; fb_pixperline = 4 }

abbrev padded : Screen
padded = record { fb_w = 4; fb_h = 4; fb_pixperline = 5 }

abbrev black : Pixels
black a = 0

abbrev image : Pixels
image a = a + 1

fillrect-paints_example : fillrect small 1 1 2 2 7 black (2 + 2 * 4) ≡ 7
fillrect-paints_example =
    fillrect-paints small 1 1 2 2 7 black 2 2 (omega arith) (omega arith) (omega arith)

plotimg-paints_example : plotimg small image 1 1 2 2 black (2 + 2 * 4) ≡ 4
plotimg-paints_example =
    plotimg-paints small image 1 1 2 2 black 2 2 refl (omega arith) (omega arith) (omega arith)
      (omega arith)

-- With padding, the second row of an image is not below its first.
second_row : plotimg padded image 0 0 2 2 black 5 ≡ 4
unfolding plotimg
second_row = refl

pixel : plotpixel small 1 2 9 black 9 ≡ 9
unfolding plotpixel
pixel = refl

-- A file of an image of 2 by 2 pixels; every byte of a pixel is 5.
abbrev file : Bytes.Bytes
file k =
    if k == 12 then 2 else if k == 13 then 0 else if k == 14 then 2 else if k == 15 then 0 else 5

tga_plot-plotimg_example :
    tga_plot small file 1 1 black ≡ plotimg small (tga_image file) 0 0 2 2 black
tga_plot-plotimg_example =
    tga_plot-plotimg small file 1 1 black refl (omega arith) (omega arith) (omega arith)

-- The place of the image is not used.
corner : tga_plot small file 1 1 black 0 ≡ 84215045
unfolding tga_plot
corner = refl
