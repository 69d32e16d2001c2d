-- ===== src/Graphics/Line.antt =====
-- `draw_line` of graphics.rs: its branches.
use wasabi_os.Common.{ℕ, zero, suc, ◌+◌, ◌<◌, ◌≡◌, refl, true, ◌&&◌, ok, done, arith, ℤ, ◌-ℤ◌, abs}
use wasabi_os.Graphics.{
  Bitmap, is_in_x_range, is_in_y_range, LineSpec, line_spec, steep_loop, draw_line,
}
use wasabi_os.Graphics.Slope.{calc_slope_point_steep}

pub steep_loop_blank :
    (n from : ℕ) (l : LineSpec) (color : ℕ) (b : Bitmap)
    → l.dx < l.dy
    → steep_loop n from l color b ≡ done (ok b)
unfolding steep_loop
steep_loop_blank zero from l color b h = refl
steep_loop_blank (suc n) from l color b h =
    rw (calc_slope_point_steep l.dx l.dy from h) (steep_loop_blank n (from + 1) l color b h)

-- A line inside the bitmap that is higher than long is not drawn at all: `draw_line` succeeds and
-- leaves the bitmap as it is.
pub draw_line_steep :
    (b : Bitmap) (color : ℕ) (x0 y0 x1 y1 : ℤ)
    → (is_in_x_range b x0 && is_in_y_range b y0 && (is_in_x_range b x1 && is_in_y_range b y1))
      ≡ true
    → abs (x1 -ℤ x0) < abs (y1 -ℤ y0)
    → draw_line b color x0 y0 x1 y1 ≡ done (ok b)
unfolding draw_line line_spec
draw_line_steep b color x0 y0 x1 y1 inside steep =
    let l = line_spec x0 y0 x1 y1 in
    let blank = steep_loop_blank l.dy 0 l color b steep in ground (arith, blank)
