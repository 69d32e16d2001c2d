-- ===== src/Graphics/Rect.antt =====
-- `fill_rect` of graphics.rs: exactly the pixels of the rectangle change.
use wasabi_os.Common.{
  ℕ, zero, suc, ◌+◌, ◌^◌, ◌<◌, ◌≤◌, ◌≡◌, inl, inr, refl, min, Bool, Bool-cases, true, false, ◌&&◌,
  ok, err, done, arith, ltb, leb, ℤ, pos, negsuc, ◌+ℤ◌, ◌-ℤ◌, abs, le_ℤ, lt_ℤ,
}
use wasabi_os.Graphics.{
  Bitmap, is_in_x_range, is_in_y_range, last_coordinate, unchecked_draw_point, fill_row, fill_rows,
  fill_rect,
}
use wasabi_os.Graphics.Painted.{Painted, Painted-chain, Painted-none, point-Painted}

abbrev pub in_rect : ℕ → ℕ → ℕ → ℕ → ℕ → ℕ → Bool
in_rect x y w h a c = leb x a && ltb a (x + w) && (leb y c && ltb c (y + h))

fill_row-Painted :
    (n color x y : ℕ) (b : Bitmap)
    → 0 < b.bytes_per_pixel
    → x + n ≤ b.pixels_per_line
    → Painted (in_rect x y n 1) color b (fill_row n color x y b)
unfolding fill_row
fill_row-Painted zero color x y b k h = Painted-none (in_rect x y 0 1) color b (λ a c. ground arith)
fill_row-Painted (suc n) color x y b k h =
    let first = point-Painted b k color x y (omega arith) in
    Painted-chain (in_rect x y (suc n) 1) (λ a c. ground arith) first
      (fill_row-Painted n color (x + 1) y (unchecked_draw_point b color x y) (rw first.bytes k)
        (rw first.line (omega arith)))

fill_rows-Painted :
    (n w color x y : ℕ) (b : Bitmap)
    → 0 < b.bytes_per_pixel
    → x + w ≤ b.pixels_per_line
    → Painted (in_rect x y w n) color b (fill_rows n w color x y b)
unfolding fill_rows
fill_rows-Painted zero w color x y b k h =
    Painted-none (in_rect x y w 0) color b (λ a c. ground arith)
fill_rows-Painted (suc n) w color x y b k h =
    let first = fill_row-Painted w color x y b k h in
    Painted-chain (in_rect x y w (suc n)) (λ a c. ground arith) first
      (fill_rows-Painted n w color x (y + 1) (fill_row w color x y b) (rw first.bytes k)
        (rw first.line h))

-- A rectangle of at least one pixel inside the bitmap is filled: its pixels get the color, and every
-- other pixel of the lines keeps its own.
pub fill_rect-Painted :
    (b : Bitmap) (color x y w h : ℕ)
    → 0 < b.bytes_per_pixel
    → b.width < 2 ^ 32
    → b.height < 2 ^ 32
    → 0 < w
    → 0 < h
    → x + w ≤ min b.width b.pixels_per_line
    → y + h ≤ b.height
    → (b' : Bitmap) × (fill_rect b color (pos x) (pos y) (pos w) (pos h) ≡ done (ok b'))
      × Painted (in_rect x y w h) color b b'
unfolding fill_rect last_coordinate is_in_x_range is_in_y_range ◌+ℤ◌ ◌-ℤ◌
fill_rect-Painted b color x y w h k bw bh pw ph fx fy =
    (fill_rows h w color x y b, ground arith, fill_rows-Painted h w color x y b k (omega arith))

last_coordinate_lem :
    (p size : ℤ) (bound : ℕ)
    → bound < 2 ^ 32
    → abs size < 2 ^ 62
    → (le_ℤ (pos 0) p && lt_ℤ p (pos bound)) ≡ true
    → last_coordinate p size ≡ done (p +ℤ size -ℤ pos 1)
unfolding last_coordinate ◌+ℤ◌ ◌-ℤ◌ abs
last_coordinate_lem (negsuc p) size bound small lt inside = ground arith
last_coordinate_lem (pos p) (pos size) bound small lt inside = ground arith
last_coordinate_lem (pos p) (negsuc size) bound small lt inside = ground arith

last_column :
    (b : Bitmap) (px w : ℤ)
    → b.width < 2 ^ 32
    → abs w < 2 ^ 62
    → is_in_x_range b px ≡ true
    → last_coordinate px w ≡ done (px +ℤ w -ℤ pos 1)
unfolding is_in_x_range
last_column b px w small lt inside =
    last_coordinate_lem px w (min b.width b.pixels_per_line) (omega arith) lt inside

last_row :
    (b : Bitmap) (py h : ℤ)
    → b.height < 2 ^ 32
    → abs h < 2 ^ 62
    → is_in_y_range b py ≡ true
    → last_coordinate py h ≡ done (py +ℤ h -ℤ pos 1)
unfolding is_in_y_range
last_row b py h small lt inside = last_coordinate_lem py h b.height small lt inside

-- If the first or the last pixel of the rectangle is outside the bitmap, `fill_rect` fails and paints
-- nothing. Sizes are those that cannot overflow an `i64`.
pub fill_rect_err :
    (b : Bitmap) (color : ℕ) (px py w h : ℤ)
    → b.width < 2 ^ 32
    → b.height < 2 ^ 32
    → abs w < 2 ^ 62
    → abs h < 2 ^ 62
    → (is_in_x_range b px
        && is_in_x_range b (px +ℤ w -ℤ pos 1)
        && (is_in_y_range b py && is_in_y_range b (py +ℤ h -ℤ pos 1)))
      ≡ false
    → fill_rect b color px py w h ≡ done (err "Out of Range")
unfolding fill_rect
fill_rect_err b color px py w h bw bh lw lh out = elim (Bool-cases (is_in_x_range b px)) [
  | inr left ↦ rw left refl
  | inl left ↦ elim (Bool-cases (is_in_y_range b py)) [
    | inr top ↦ rw (left, top) refl
    | inl top ↦
        rw (left, top, last_column b px w bw lw left, last_row b py h bh lh top) (ground arith)
  ]
]
