-- ===== src/Graphics.antt =====
-- graphics.rs: a bitmap, rectangles and lines. Coordinates are `i64`; the sizes of a bitmap are
-- those of `VramBufferInfo` (uefi.rs), widened from `u32`, so they are never negative.
pub mod Painted
pub mod Rect
pub mod Slope
pub mod Line
pub mod FlatLine
pub mod Geometry
pub mod Font
pub mod Text
mod Tests
use wasabi_os.Common.{
  ℕ, zero, suc, ◌+◌, ◌*◌, ◌/◌, min, Bool, not, ◌&&◌, ◌||◌, Option, none, some, Result, ok, err,
  Outcome, done, panic, ◌^◌, ◌>>=◌, ltb, leb, ◌==◌, if◌then◌else◌, ℤ, pos, negsuc, up, ◌+ℤ◌, ◌-ℤ◌,
  ◌*ℤ◌, abs, signum, lt_ℤ, le_ℤ, checked_i64,
}

-- The bitmap; `buf` gives the `u32` at a byte offset.
pub record Bitmap : Type 0 where
  pub bytes_per_pixel : ℕ
  pub pixels_per_line : ℕ
  pub width : ℕ
  pub height : ℕ
  pub buf : ℕ → ℕ

-- The byte offset of a pixel with coordinates that are not negative.
abbrev pub pixel_offset : Bitmap → ℕ → ℕ → ℕ
pixel_offset b x y = (y * b.pixels_per_line + x) * b.bytes_per_pixel

unfoldable pub is_in_x_range : Bitmap → ℤ → Bool
is_in_x_range b px = le_ℤ (pos 0) px && lt_ℤ px (pos (min b.width b.pixels_per_line))

unfoldable pub is_in_y_range : Bitmap → ℤ → Bool
is_in_y_range b py = le_ℤ (pos 0) py && lt_ℤ py (pos b.height)

unfoldable pub unchecked_draw_point : Bitmap → ℕ → ℕ → ℕ → Bitmap
unchecked_draw_point b color x y = record b {
  buf = λ at. if at == pixel_offset b x y then color else b.buf at;
}

-- `draw_point` and the `pixel_at_mut` in it.
unfoldable pub draw_point : Bitmap → ℕ → ℤ → ℤ → Result Bitmap
draw_point b color x y =
    if is_in_x_range b x && is_in_y_range b y
    then ok (unchecked_draw_point b color (up x) (up y))
    else err "Out of Range"

-- n pixels of the row y, from x on.
unfoldable pub fill_row : ℕ → ℕ → ℕ → ℕ → Bitmap → Bitmap
fill_row zero color x y b = b
fill_row (suc n) color x y b = fill_row n color (x + 1) y (unchecked_draw_point b color x y)

-- n rows of w pixels.
unfoldable pub fill_rows : ℕ → ℕ → ℕ → ℕ → ℕ → Bitmap → Bitmap
fill_rows zero w color x y b = b
fill_rows (suc n) w color x y b = fill_rows n w color x (y + 1) (fill_row w color x y b)

-- The two loops of `fill_rect`. Their ranges `py..py + h` and `px..px + w` begin at coordinates that
-- have passed the tests, so at natural numbers, and are empty if h or w is negative.
abbrev pub fill_loops : Bitmap → ℕ → ℤ → ℤ → ℤ → ℤ → Bitmap
fill_loops b color px py w h = fill_rows (up h) (up w) color (up px) (up py) b

unfoldable pub last_coordinate : ℤ → ℤ → Outcome ℤ
last_coordinate p size = checked_i64 (p +ℤ size) >>= λ s. checked_i64 (s -ℤ pos 1)

-- Each test is made only if the ones before it have passed.
unfoldable pub fill_rect : Bitmap → ℕ → ℤ → ℤ → ℤ → ℤ → Outcome (Result Bitmap)
fill_rect b color px py w h =
    if not (is_in_x_range b px) || not (is_in_y_range b py)
    then done (err "Out of Range")
    else (last_coordinate px w >>= λ right.
        if not (is_in_x_range b right)
        then done (err "Out of Range")
        else (last_coordinate py h >>= λ bottom.
            if not (is_in_y_range b bottom)
            then done (err "Out of Range")
            else done (ok (fill_loops b color px py w h))))

-- A result of i64 that is not negative.
abbrev i64 : ℕ → Outcome ℕ
i64 n = if ltb n (2 ^ 63) then done n else panic

-- `calc_slope_point`; `draw_line` calls it with numbers that are not negative.
unfoldable pub calc_slope_point : ℕ → ℕ → ℕ → Outcome (Option ℕ)
calc_slope_point da db ia =
    if ltb da db
    then done none
    else if da == 0
    then done (some 0)
    else if leb ia da
    then (do
      twice ← i64 (2 * db)
      scaled ← i64 (twice * ia)
      sum ← i64 (scaled + da)
      done (some (sum / da / 2)))
    else done none

-- What a line has to know: the first point, the signs, the distances.
pub record LineSpec : Type 0 where
  pub x0 : ℤ
  pub y0 : ℤ
  pub sx : ℤ
  pub sy : ℤ
  pub dx : ℕ
  pub dy : ℕ

abbrev pub draw_offset : LineSpec → ℕ → Bitmap → ℕ → ℕ → Result Bitmap
draw_offset l color b rx ry = draw_point b color (l.x0 +ℤ pos rx *ℤ l.sx) (l.y0 +ℤ pos ry *ℤ l.sy)

-- `?` after a step of a loop.
abbrev pub and_then :
    Outcome (Result Bitmap) → (Bitmap → Outcome (Result Bitmap)) → Outcome (Result Bitmap)
and_then panic f = panic
and_then (done (err e)) f = done (err e)
and_then (done (ok b)) f = f b

-- A point that `calc_slope_point` refuses is left out by `flat_map`.
abbrev pub at_slope : Outcome (Option ℕ) → (ℕ → Result Bitmap) → Bitmap → Outcome (Result Bitmap)
at_slope panic draw b = panic
at_slope (done none) draw b = done (ok b)
at_slope (done (some r)) draw b = done (draw r)

-- The loop of the first branch: rx from `from` on, n rounds.
unfoldable pub flat_loop : ℕ → ℕ → LineSpec → ℕ → Bitmap → Outcome (Result Bitmap)
flat_loop zero from l color b = done (ok b)
flat_loop (suc n) from l color b =
    and_then (at_slope (calc_slope_point l.dx l.dy from) (λ ry. draw_offset l color b from ry) b)
      (λ b'. flat_loop n (from + 1) l color b')

-- The loop of the second branch, over ry.
unfoldable pub steep_loop : ℕ → ℕ → LineSpec → ℕ → Bitmap → Outcome (Result Bitmap)
steep_loop zero from l color b = done (ok b)
steep_loop (suc n) from l color b =
    and_then (at_slope (calc_slope_point l.dx l.dy from) (λ rx. draw_offset l color b rx from) b)
      (λ b'. steep_loop n (from + 1) l color b')

unfoldable pub line_spec : ℤ → ℤ → ℤ → ℤ → LineSpec
line_spec x0 y0 x1 y1 = record {
  x0 = x0;
  y0 = y0;
  sx = signum (x1 -ℤ x0);
  sy = signum (y1 -ℤ y0);
  dx = abs (x1 -ℤ x0);
  dy = abs (y1 -ℤ y0);
}

unfoldable pub draw_line : Bitmap → ℕ → ℤ → ℤ → ℤ → ℤ → Outcome (Result Bitmap)
draw_line b color x0 y0 x1 y1 =
    let l = line_spec x0 y0 x1 y1 in
    if not (is_in_x_range b x0)
      || not (is_in_y_range b y0)
      || not (is_in_x_range b x1)
      || not (is_in_y_range b y1)
    then done (err "Out of Range")
    else if leb l.dy l.dx
    then flat_loop l.dx 0 l color b
    else steep_loop l.dy 0 l color b
