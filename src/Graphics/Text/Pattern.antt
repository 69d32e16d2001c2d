-- ===== src/Graphics/Text/Pattern.antt =====
-- `draw_test_pattern` of graphics.rs: on which pictures it can be drawn.
use wasabi_os.Common.{
  ℕ, ◌+◌, ◌-◌, ◌*◌, ◌^◌, ◌<◌, ◌≤◌, ◌≡◌, refl, ap, inl, inr, min, Bool, Bool-cases, true, false,
  ◌&&◌, List, [], ◌∷◌, err, done, panic, arith, leb, ℤ, pos, ◌+ℤ◌, ◌-ℤ◌, ◌*ℤ◌, abs, length,
}
use wasabi_os.Graphics.{Bitmap, is_in_x_range, is_in_y_range, fill_rect}
use wasabi_os.Graphics.Painted.{Painted, Sized, Sized-Painted}
use wasabi_os.Graphics.Rect.{fill_rect-Painted, fill_rect_err}
use wasabi_os.Graphics.Text.Lines.{pattern_lines_end}
use wasabi_os.Graphics.Text.{expect_ok, colors, draw_squares, draw_labels, draw_test_pattern}

-- Sizes of a bitmap are widened from `u32`.
pub record Screen (w h : ℕ) (b : Bitmap) : Type 0 where
  pub sizes : Sized w h b
  pub width_u32 : b.width < 2 ^ 32
  pub height_u32 : b.height < 2 ^ 32

Screen-Painted :
    {w h : ℕ} {inside : ℕ → ℕ → Bool} {color : ℕ} {b b' : Bitmap}
    → Screen w h b
    → Painted inside color b b'
    → Screen w h b'
Screen-Painted s p = record {
  sizes = Sized-Painted s.sizes p;
  width_u32 = rw p.width s.width_u32;
  height_u32 = rw p.height s.height_u32;
}

last_of : (x : ℕ) → pos x +ℤ pos 64 -ℤ pos 1 ≡ pos (x + 63)
unfolding ◌+ℤ◌ ◌-ℤ◌
last_of x = ground arith

right_of : (l : ℕ) → pos l +ℤ pos 64 ≡ pos (l + 64)
unfolding ◌+ℤ◌
right_of l = ground arith

row_of : (i : ℕ) → pos i *ℤ pos 64 ≡ pos (64 * i)
unfolding ◌*ℤ◌
row_of i = ground arith

module _ (w h : ℕ) where
  -- A square that fits is drawn, one that does not ends the program.
  square_fits :
      (b : Bitmap) (color x y : ℕ)
      → Screen w h b
      → x + 64 ≤ w
      → y + 64 ≤ h
      → (b' : Bitmap) × (expect_ok (fill_rect b color (pos x) (pos y) (pos 64) (pos 64)) ≡ done b')
        × Screen w h b'
  square_fits b color x y s fx fy =
      let (b', e, p) =
        fill_rect-Painted b color x y 64 64 s.sizes.bytes s.width_u32 s.height_u32 (omega arith)
          (omega arith) (omega (arith, s.sizes.wide)) (omega (arith, s.sizes.high)) in
      (b', ap expect_ok e, Screen-Painted s p)

  square_panics :
      (b : Bitmap) (color x y : ℕ)
      → Screen w h b
      → (leb (x + 64) w && leb (y + 64) h) ≡ false
      → expect_ok (fill_rect b color (pos x) (pos y) (pos 64) (pos 64)) ≡ panic
  unfolding abs is_in_x_range is_in_y_range
  square_panics b color x y s out =
      let outside : (is_in_x_range b (pos x)
            && is_in_x_range b (pos x +ℤ pos 64 -ℤ pos 1)
            && (is_in_y_range b (pos y) && is_in_y_range b (pos y +ℤ pos 64 -ℤ pos 1)))
          ≡ false =
        rw (last_of x, last_of y, s.sizes.wide, s.sizes.high) (ground arith) in
      ap expect_ok (
        fill_rect_err b color (pos x) (pos y) (pos 64) (pos 64) s.width_u32 s.height_u32
          (omega arith) (omega arith) outside)

  -- The rows of squares, from the i-th on.
  squares_fit :
      (cs : List ℕ) (i l : ℕ) (b : Bitmap)
      → Screen w h b
      → l + 128 ≤ w
      → 64 * (i + length cs) ≤ h
      → (b' : Bitmap) × (draw_squares cs i (pos l) b ≡ done b') × Screen w h b'
  unfolding draw_squares
  squares_fit [] i l b s fx fy = (b, refl, s)
  squares_fit (c ∷ cs) i l b s fx fy =
      let (b1, e1, s1) = square_fits b c l (64 * i) s (omega arith) (omega arith) in
      let (b2, e2, s2) =
        square_fits b1 (2 ^ 32 - 1 - c) (l + 64) (64 * i) s1 (omega arith) (omega arith) in
      let (b', e, s') = squares_fit cs (i + 1) l b2 s2 fx (omega arith) in
      (b', rw (draw_squares, row_of i, right_of l, e1, e2) e, s')

  squares_too_high :
      (cs : List ℕ) (i l : ℕ) (b : Bitmap)
      → Screen w h b
      → l + 128 ≤ w
      → 64 * i ≤ h
      → h < 64 * (i + length cs)
      → draw_squares cs i (pos l) b ≡ panic
  unfolding draw_squares
  squares_too_high [] i l b s fx fy high = ground arith
  squares_too_high (c ∷ cs) i l b s fx fy high = elim (Bool-cases (leb (64 * i + 64) h)) [
    | inr out ↦
        rw (draw_squares, row_of i, square_panics b c l (64 * i) s (rw out (ground arith))) refl
    | inl fits ↦
        let (b1, e1, s1) = square_fits b c l (64 * i) s (omega arith) (ground arith) in
        let (b2, e2, s2) =
          square_fits b1 (2 ^ 32 - 1 - c) (l + 64) (64 * i) s1 (omega arith) (ground arith) in
        rw (draw_squares, row_of i, right_of l, e1, e2)
          (squares_too_high cs (i + 1) l b2 s2 fx (ground arith) (omega arith))
  ]

  squares_too_narrow :
      (c : ℕ) (cs : List ℕ) (l : ℕ) (b : Bitmap)
      → Screen w h b
      → w < l + 128
      → draw_squares (c ∷ cs) 0 (pos l) b ≡ panic
  unfolding draw_squares
  squares_too_narrow c cs l b s narrow = elim (Bool-cases (leb (l + 64) w && leb (64 * 0 + 64) h)) [
    | inr out ↦ rw (draw_squares, row_of 0, square_panics b c l (64 * 0) s out) refl
    | inl fits ↦
        let (b1, e1, s1) = square_fits b c l (64 * 0) s (ground arith) (ground arith) in
        rw
          (
            draw_squares,
            row_of 0,
            right_of l,
            e1,
            square_panics b1 (2 ^ 32 - 1 - c) (l + 64) (64 * 0) s1 (ground arith),
          )
          refl
  ]

-- The left edge of the pattern.
left_edge : (n : ℕ) → 129 ≤ n → pos n -ℤ pos 128 -ℤ pos 1 ≡ pos (n - 129)
unfolding ◌-ℤ◌
left_edge n h = ground arith

left_outside :
    (b : Bitmap) (color : ℕ) (y size : ℤ)
    → b.width < 129
    → fill_rect b color (pos b.width -ℤ pos 128 -ℤ pos 1) y size size ≡ done (err "Out of Range")
unfolding fill_rect is_in_x_range ◌-ℤ◌
left_outside b color y size h = ground arith

-- The picture of the test pattern is at least 129 pixels wide, with lines that hold all but one of
-- them, and 256 pixels high.
abbrev pub big_enough : Bitmap → Bool
big_enough b = leb 129 b.width && leb b.width (b.pixels_per_line + 1) && leb 256 b.height

small_squares :
    (w : ℕ) (b : Bitmap)
    → Screen w b.height b
    → w ≡ min b.width b.pixels_per_line
    → big_enough b ≡ false
    → draw_squares colors 0 (pos b.width -ℤ pos 128 -ℤ pos 1) b ≡ panic
unfolding draw_squares
small_squares w b s e small = elim (Bool-cases (leb 129 b.width)) [
  | inr out ↦
      rw (draw_squares, row_of 0, left_outside b 0 (pos (64 * 0)) (pos 64) (ground arith)) refl
  | inl wide ↦
      rw (left_edge b.width (ground arith))
        (elim (Bool-cases (leb b.width (b.pixels_per_line + 1))) [
          | inr narrow ↦
              squares_too_narrow w b.height 0 (0xff0000 ∷ 0x00ff00 ∷ 0x0000ff ∷ []) (b.width - 129)
                b s (ground arith)
          | inl line ↦
              squares_too_high w b.height colors 0 (b.width - 129) b s (ground arith) (omega arith)
                (ground arith)
        ])
]

-- On a picture that is big enough the test pattern is drawn; on a smaller one the program ends. The
-- font does not matter.
pub draw_test_pattern_lem :
    (source : List ℕ) (b : Bitmap)
    → 0 < b.bytes_per_pixel
    → b.width < 2 ^ 32
    → b.height < 2 ^ 32
    → (big_enough b ≡ true → (b' : Bitmap) × (draw_test_pattern source b ≡ done b'))
      × (big_enough b ≡ false → draw_test_pattern source b ≡ panic)
unfolding draw_test_pattern
draw_test_pattern_lem source b bytes wide high =
    let w : ℕ = min b.width b.pixels_per_line in
    let s : Screen w b.height b = record {
      sizes = record { bytes = bytes; wide = refl; high = refl };
      width_u32 = wide;
      height_u32 = high;
    } in
    (
      λ fits.
          let edge = left_edge b.width (ground arith) in
          let (b1, e, s1) =
            squares_fit w b.height colors 0 (b.width - 129) b s (ground arith) (ground arith) in
          let (b2, e2) = pattern_lines_end (b.width - 129) b1 in
          (draw_labels source (pos (b.width - 129)) b2, rw (edge, e, e2) refl),
      λ small. rw (small_squares w b s refl small) refl,
    )
