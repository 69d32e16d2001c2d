-- ===== src/Graphics/Tests.antt =====
-- Rectangles and lines on a bitmap of 8 by 4 pixels, in lines of 10.
use wasabi_os.Common.{
  ℕ, ◌+◌, ◌<◌, ◌≤◌, ◌*◌, ◌≡◌, refl, ok, err, done, some, arith, pos, ◌+ℤ◌, ◌-ℤ◌, abs,
}
use wasabi_os.Graphics.{
  Bitmap, is_in_x_range, is_in_y_range, fill_rect, calc_slope_point, draw_line,
}
use wasabi_os.Graphics.Painted.{Painted}
use wasabi_os.Graphics.Rect.{in_rect, fill_rect-Painted, fill_rect_err}
use wasabi_os.Graphics.Slope.{calc_slope_point_nearest}
use wasabi_os.Graphics.Line.{draw_line_steep}

abbrev screen : Bitmap
screen = record { bytes_per_pixel = 4; pixels_per_line = 10; width = 8; height = 4; buf = λ at. 0 }

fill_rect-Painted_example :
    (b' : Bitmap) × (fill_rect screen 255 (pos 5) (pos 1) (pos 3) (pos 2) ≡ done (ok b'))
    × Painted (in_rect 5 1 3 2) 255 screen b'
fill_rect-Painted_example =
    fill_rect-Painted screen 255 5 1 3 2 (omega arith) (omega arith) (omega arith) (omega arith)
      (omega arith) (omega arith) (omega arith)

fill_rect_err_run : fill_rect screen 255 (pos 5) (pos 1) (pos 4) (pos 2) ≡ done (err "Out of Range")
unfolding is_in_x_range is_in_y_range ◌+ℤ◌ ◌-ℤ◌ abs
fill_rect_err_run =
    fill_rect_err screen 255 (pos 5) (pos 1) (pos 4) (pos 2) (omega arith) (omega arith)
      (omega arith) (omega arith) refl

calc_slope_point_nearest_example :
    (ib : ℕ) × (calc_slope_point 7 3 4 ≡ done (some ib))
    × (2 * (ib * 7) ≤ 2 * (3 * 4) + 7)
    × (2 * (3 * 4) < 2 * (ib * 7) + 7)
calc_slope_point_nearest_example =
    calc_slope_point_nearest 7 3 4 (omega arith) (omega arith) (omega arith) (omega arith)

draw_line_steep_example : draw_line screen 255 (pos 1) (pos 0) (pos 2) (pos 3) ≡ done (ok screen)
unfolding is_in_x_range is_in_y_range ◌-ℤ◌ abs
draw_line_steep_example =
    draw_line_steep screen 255 (pos 1) (pos 0) (pos 2) (pos 3) refl (omega arith)
