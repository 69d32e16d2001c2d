-- ===== src/Graphics/FlatLine.antt =====
-- `draw_line` of graphics.rs: the points of a line that is at least as long as high.
use wasabi_os.Common.{
  ℕ, zero, suc, ◌+◌, ◌-◌, ◌<◌, ◌≤◌, ◌≡◌, ◌∙◌, refl, ap, inl, inr, min, Bool, Bool-cases, true,
  false, ◌&&◌, ◌||◌, ok, done, ◌^◌, arith, leb, ◌==◌, pos,
}
use wasabi_os.Graphics.{
  Bitmap, is_in_x_range, is_in_y_range, unchecked_draw_point, calc_slope_point, LineSpec, line_spec,
  draw_offset, at_slope, and_then, flat_loop, draw_line,
}
use wasabi_os.Graphics.Painted.{
  Painted, Painted-chain, Painted-none, Painted-same, point-Painted, Sized, Sized-Painted, within,
  draw_point_in,
}
use wasabi_os.Graphics.Geometry.{
  distance, toward, height_at, between, line_pixel, coordinate, abs-distance, toward_bound,
  slope_point, height_at_bound, between_at, not_at, beyond,
}

step_here :
    (t d a col v r c : ℕ) (btw : Bool)
    → d ≡ t
    → v ≡ r
    → btw ≡ (a == col)
    → (leb t d && (btw && c == v)) ≡ (leb (t + 1) d && (btw && c == v) || (a == col && c == r))
step_here t d a col v r c btw e same b = rw (b, same) (ground arith)

step_there :
    (t d a col v r c : ℕ) (btw : Bool)
    → (d == t) ≡ false
    → (a == col) ≡ false
    → (leb t d && (btw && c == v)) ≡ (leb (t + 1) d && (btw && c == v) || (a == col && c == r))
step_there t d a col v r c btw e out = rw out (ground arith)

and_false : (p q r : Bool) → (p && q) ≡ false → (p && (q && r)) ≡ false
and_false p q r h = ground arith

inside : (w h color a c : ℕ) → a < w → c < h → within w h color a c ≡ true
inside w h color a c ha hc = ground arith

module _ (x0 y0 x1 y1 color : ℕ) where
  abbrev line : LineSpec
  line = line_spec (pos x0) (pos y0) (pos x1) (pos y1)

  abbrev column : ℕ → ℕ
  column t = toward x0 x1 t

  abbrev row : ℕ → ℕ
  row t = toward y0 y1 (height_at (distance x0 x1) (distance y0 y1) t)

  -- The pixels of the line from the offset t on.
  abbrev rest_pixel : ℕ → ℕ → ℕ → Bool
  rest_pixel t a c = leb t (distance a x0) && line_pixel x0 y0 x1 y1 a c

  rest_pixel_first :
      (t a c : ℕ)
      → t < distance x0 x1
      → rest_pixel t a c ≡ (rest_pixel (t + 1) a c || (a == column t && c == row t))
  rest_pixel_first t a c lt =
      let d : ℕ = distance a x0 in
      let v : ℕ = toward y0 y1 (height_at (distance x0 x1) (distance y0 y1) d) in
      elim (Bool-cases (d == t)) [
        | inl here ↦
            let e : d ≡ t = ground arith in
            let same : v ≡ row t =
              ap (λ u. toward y0 y1 (height_at (distance x0 x1) (distance y0 y1) u)) e in
            step_here t d a (column t) v (row t) c (between x0 x1 a) e same
              (between_at x0 x1 a t e lt)
        | inr there ↦
            step_there t d a (column t) v (row t) c (between x0 x1 a) there
              (not_at x0 x1 a t there lt)
      ]

  no_rest : (t a c : ℕ) → t ≡ distance x0 x1 → rest_pixel t a c ≡ false
  no_rest t a c e =
      and_false (leb t (distance a x0)) (between x0 x1 a)
        (c == toward y0 y1 (height_at (distance x0 x1) (distance y0 y1) (distance a x0)))
        (beyond x0 x1 a t e)

  module _ (w h : ℕ) (x0_in : x0 < w) (y0_in : y0 < h) (x1_in : x1 < w) (y1_in : y1 < h)
      (flat : distance y0 y1 ≤ distance x0 x1) (small : w ≤ 2 ^ 31) where
    one_point :
        (t : ℕ) (b : Bitmap)
        → t < distance x0 x1
        → Sized w h b
        → at_slope (calc_slope_point line.dx line.dy t) (λ ry. draw_offset line color b t ry) b
          ≡ done (ok (unchecked_draw_point b color (column t) (row t)))
    unfolding line_spec
    one_point t b lt s =
        let ry : ℕ = height_at (distance x0 x1) (distance y0 y1) t in
        let near : distance x0 x1 < 2 ^ 31 = omega arith in
        let low = height_at_bound (distance x0 x1) (distance y0 y1) t lt in
        let hit : within w h color (column t) (row t) ≡ true =
          inside w h color (column t) (row t) (toward_bound x0 x1 t w x0_in x1_in (omega arith))
            (toward_bound y0 y1 ry h y0_in y1_in low) in
        rw
          (
            line_spec,
            abs-distance x0 x1,
            abs-distance y0 y1,
            slope_point (distance x0 x1) (distance y0 y1) t flat lt near,
            coordinate x0 x1 t (omega arith),
            coordinate y0 y1 ry low,
            draw_point_in w h color (column t) (row t) b s,
            hit,
          )
          refl

    flat_loop_lem :
        (n t : ℕ) (b : Bitmap)
        → n + t ≡ distance x0 x1
        → Sized w h b
        → (b' : Bitmap) × (flat_loop n t line color b ≡ done (ok b'))
          × Painted (rest_pixel t) color b b'
    unfolding flat_loop
    flat_loop_lem zero t b e s =
        (b, refl, Painted-none (rest_pixel t) color b (λ a c. no_rest t a c (omega arith)))
    flat_loop_lem (suc n) t b e s =
        let lt : t < distance x0 x1 = omega arith in
        let column_in : column t < b.pixels_per_line =
          omega (arith, s.wide, toward_bound x0 x1 t w x0_in x1_in (omega arith)) in
        let b1 = unchecked_draw_point b color (column t) (row t) in
        let point = point-Painted b s.bytes color (column t) (row t) column_in in
        let (b', e', painted) = flat_loop_lem n (t + 1) b1 (omega arith) (Sized-Painted s point) in
        (
          b',
          ap (λ r. and_then r (λ b'. flat_loop n (t + 1) line color b')) (one_point t b lt s) ∙ e',
          Painted-chain (rest_pixel t) (λ a c. rest_pixel_first t a c lt) point painted,
        )

from_zero : (d : ℕ) (q : Bool) → q ≡ (leb 0 d && q)
from_zero d q = ground arith

x_in_range :
    (b : Bitmap) (x : ℕ) → x < min b.width b.pixels_per_line → is_in_x_range b (pos x) ≡ true
unfolding is_in_x_range
x_in_range b x h = ground arith

y_in_range : (b : Bitmap) (y : ℕ) → y < b.height → is_in_y_range b (pos y) ≡ true
unfolding is_in_y_range
y_in_range b y h = ground arith

line_dx : (x0 y0 x1 y1 : ℕ) → (line_spec (pos x0) (pos y0) (pos x1) (pos y1)).dx ≡ distance x0 x1
unfolding line_spec
line_dx x0 y0 x1 y1 = abs-distance x0 x1

line_dy : (x0 y0 x1 y1 : ℕ) → (line_spec (pos x0) (pos y0) (pos x1) (pos y1)).dy ≡ distance y0 y1
unfolding line_spec
line_dy x0 y0 x1 y1 = abs-distance y0 y1

flat_test : (dx dy d e : ℕ) → dx ≡ d → dy ≡ e → e ≤ d → leb dy dx ≡ true
flat_test dx dy d e p q h = ground arith

flat_branch :
    (b : Bitmap) (color x0 y0 x1 y1 : ℕ)
    → x0 < min b.width b.pixels_per_line
    → x1 < min b.width b.pixels_per_line
    → y0 < b.height
    → y1 < b.height
    → distance y0 y1 ≤ distance x0 x1
    → let l = line_spec (pos x0) (pos y0) (pos x1) (pos y1) in
      draw_line b color (pos x0) (pos y0) (pos x1) (pos y1) ≡ flat_loop l.dx 0 l color b
unfolding draw_line
flat_branch b color x0 y0 x1 y1 hx0 hx1 hy0 hy1 flat =
    let l = line_spec (pos x0) (pos y0) (pos x1) (pos y1) in
    let test : leb l.dy l.dx ≡ true =
      flat_test l.dx l.dy (distance x0 x1) (distance y0 y1) (line_dx x0 y0 x1 y1)
        (line_dy x0 y0 x1 y1) flat in
    rw (x_in_range b x0 hx0, x_in_range b x1 hx1, y_in_range b y0 hy0, y_in_range b y1 hy1, test)
      refl

-- A line between two points of the picture that is at least as long as high is drawn, if the picture is
-- no wider than 2^31: of every
-- column from the first point's up to the last point's, without it, the pixel nearest to the line gets the
-- color, and no other pixel changes. `draw_line` then succeeds.
pub draw_line_flat :
    (b : Bitmap) (color x0 y0 x1 y1 : ℕ)
    → 0 < b.bytes_per_pixel
    → x0 < min b.width b.pixels_per_line
    → x1 < min b.width b.pixels_per_line
    → y0 < b.height
    → y1 < b.height
    → b.width ≤ 2 ^ 31
    → (y0 - y1) + (y1 - y0) ≤ (x0 - x1) + (x1 - x0)
    → (b' : Bitmap) × (draw_line b color (pos x0) (pos y0) (pos x1) (pos y1) ≡ done (ok b'))
      × Painted (line_pixel x0 y0 x1 y1) color b b'
draw_line_flat b color x0 y0 x1 y1 bytes hx0 hx1 hy0 hy1 small flat =
    let w : ℕ = min b.width b.pixels_per_line in
    let s : Sized w b.height b = record { bytes = bytes; wide = refl; high = refl } in
    let (b', e, painted) =
      flat_loop_lem x0 y0 x1 y1 color w b.height hx0 hy0 hx1 hy1 flat (omega arith) (distance x0 x1)
        0 b (omega arith) s in
    let from_start = λ (a c : ℕ). from_zero (distance a x0) (line_pixel x0 y0 x1 y1 a c) in
    (
      b',
      flat_branch b color x0 y0 x1 y1 hx0 hx1 hy0 hy1 flat
          ∙ ap (λ n. flat_loop n 0 (line_spec (pos x0) (pos y0) (pos x1) (pos y1)) color b)
              (line_dx x0 y0 x1 y1)
          ∙ e,
      Painted-same (line_pixel x0 y0 x1 y1) from_start painted,
    )
