-- ===== src/Graphics/Text/Glyphs.antt =====
-- `draw_font_fg` of graphics.rs: the pixels that a character paints.
use wasabi_os.Common.{
  ℕ, zero, suc, ◌+◌, ◌-◌, ◌<◌, ◌≡◌, ◌∙◌, ap, inl, inr, Bool, Bool-cases, true, false, ◌&&◌, ◌||◌,
  Option, none, some, List, [], ◌∷◌, arith, ltb, leb, ◌==◌, if◌then◌else◌, pos, ◌+ℤ◌,
}
use wasabi_os.Graphics.{Bitmap, draw_point}
use wasabi_os.Graphics.Painted.{
  Painted, Painted-chain, Painted-none, Painted-same, point-Painted, Sized, Sized-Painted, within,
  draw_point_in,
}
use wasabi_os.Graphics.Font.{Glyph, star, lookup_font}
use wasabi_os.Graphics.Text.{keep, draw_pixels, draw_rows, draw_glyph, draw_font_fg}

-- The k-th pixel of a row is a star.
abbrev pub starred_row : List ℕ → ℕ → Bool
starred_row [] k = false
starred_row (pixel ∷ row) zero = pixel == star
starred_row (pixel ∷ row) (suc k) = starred_row row k

abbrev pub starred : Glyph → ℕ → ℕ → Bool
starred [] k l = false
starred (row ∷ rows) zero l = starred_row row l
starred (row ∷ rows) (suc k) l = starred rows k l

abbrev pub starred_glyph : Option Glyph → ℕ → ℕ → Bool
starred_glyph none k l = false
starred_glyph (some glyph) k l = starred glyph k l

-- The pixels of a character at (x, y) in a picture of the sizes w and h.
abbrev pub char_pixel : ℕ → ℕ → Option Glyph → ℕ → ℕ → ℕ → ℕ → Bool
char_pixel w h glyph x y a c =
    leb y c && leb x a && starred_glyph glyph (c - y) (a - x) && (ltb a w && ltb c h)

module _ (w h color : ℕ) where
  keep_point-Painted :
      (x y : ℕ) (b : Bitmap)
      → Sized w h b
      → Painted
          (λ a c. a == x && c == y && within w h color a c)
          color
          b
          (keep (draw_point b color (pos x) (pos y)) b)
  keep_point-Painted x y b s = elim (Bool-cases (within w h color x y)) [
    | inl hit ↦
        let lt : x < w = ground arith in
        rw (draw_point_in w h color x y b s, hit)
          (Painted-same (λ a c. a == x && c == y && within w h color a c) (λ a c. ground arith)
            (point-Painted b s.bytes color x y (omega (arith, s.wide))))
    | inr out ↦
        rw (draw_point_in w h color x y b s, out)
          (Painted-none (λ a c. a == x && c == y && within w h color a c) color b
            (λ a c. ground arith))
  ]

  -- A row that begins at the pixel (x, y).
  abbrev row_pixel : List ℕ → ℕ → ℕ → ℕ → ℕ → Bool
  row_pixel row x y a c = c == y && leb x a && starred_row row (a - x) && within w h color a c

  same_column : (a x : ℕ) → (a == x) ≡ true → a - x ≡ 0
  same_column a x same = ground arith

  next_column : (a x : ℕ) → ltb x a ≡ true → a - x ≡ suc (a - (x + 1))
  next_column a x right = ground arith

  row_pixel_first :
      (pixel : ℕ) (row : List ℕ) (x y a c : ℕ)
      → row_pixel (pixel ∷ row) x y a c ≡ (
          row_pixel row (x + 1) y a c
          || (if pixel == star then a == x && c == y && within w h color a c else false))
  row_pixel_first pixel row x y a c = elim (Bool-cases (ltb x a)) [
    | inl right ↦
        let e : starred_row (pixel ∷ row) (a - x) ≡ starred_row row (a - (x + 1)) =
          ap (starred_row (pixel ∷ row)) (next_column a x right) in
        ground (arith, e)
    | inr left ↦ elim (Bool-cases (a == x)) [
      | inl same ↦
          let e : starred_row (pixel ∷ row) (a - x) ≡ (pixel == star) =
            ap (starred_row (pixel ∷ row)) (same_column a x same) in
          ground (arith, e)
      | inr before ↦ ground arith
    ]
  ]

  add_pos : (x dx : ℕ) → pos x +ℤ pos dx ≡ pos (x + dx)
  unfolding ◌+ℤ◌
  add_pos x dx = ground arith

  abbrev one_pixel : ℕ → ℕ → ℕ → ℕ → ℕ → Bool
  one_pixel pixel x y a c =
      if pixel == star then a == x && c == y && within w h color a c else false

  pixel-Painted :
      (pixel x y : ℕ) (b : Bitmap)
      → Sized w h b
      → Painted
          (one_pixel pixel x y)
          color
          b
          (if pixel == star then keep (draw_point b color (pos x) (pos y)) b else b)
  pixel-Painted pixel x y b s = elim (Bool-cases (pixel == star)) [
    | inl lit ↦
        rw lit
          (Painted-same (one_pixel pixel x y) (λ a c. ground arith) (keep_point-Painted x y b s))
    | inr dark ↦ rw dark (Painted-none (one_pixel pixel x y) color b (λ a c. ground arith))
  ]

  draw_pixels-Painted :
      (row : List ℕ) (x y dx dy : ℕ) (b : Bitmap)
      → Sized w h b
      → Painted
          (row_pixel row (x + dx) (y + dy))
          color
          b
          (draw_pixels row dx dy color (pos x) (pos y) b)
  unfolding draw_pixels
  draw_pixels-Painted [] x y dx dy b s =
      Painted-none (row_pixel [] (x + dx) (y + dy)) color b (λ a c. ground arith)
  draw_pixels-Painted (pixel ∷ row) x y dx dy b s =
      let first = pixel-Painted pixel (x + dx) (y + dy) b s in
      let b1 =
        if pixel == star then keep (draw_point b color (pos (x + dx)) (pos (y + dy))) b else b in
      let next : x + dx + 1 ≡ x + (dx + 1) = omega arith in
      rw (draw_pixels, add_pos x dx, add_pos y dy)
        (Painted-chain (row_pixel (pixel ∷ row) (x + dx) (y + dy))
          (λ a c.
            row_pixel_first pixel row (x + dx) (y + dy) a c
            ∙ ap (λ t. row_pixel row t (y + dy) a c || one_pixel pixel (x + dx) (y + dy) a c) next)
          first (draw_pixels-Painted row x y (dx + 1) dy b1 (Sized-Painted s first)))

  abbrev glyph_pixel : Glyph → ℕ → ℕ → ℕ → ℕ → Bool
  glyph_pixel rows x y a c =
      leb y c && leb x a && starred rows (c - y) (a - x) && within w h color a c

  glyph_pixel_first :
      (row : List ℕ) (rows : Glyph) (x y a c : ℕ)
      → glyph_pixel (row ∷ rows) x y a c ≡ (glyph_pixel rows x (y + 1) a c || row_pixel row x y a c)
  glyph_pixel_first row rows x y a c = elim (Bool-cases (ltb y c)) [
    | inl under ↦
        let e : starred (row ∷ rows) (c - y) (a - x) ≡ starred rows (c - (y + 1)) (a - x) =
          ap (λ k. starred (row ∷ rows) k (a - x)) (next_column c y under) in
        ground (arith, e)
    | inr above ↦ elim (Bool-cases (c == y)) [
      | inl same ↦
          let e : starred (row ∷ rows) (c - y) (a - x) ≡ starred_row row (a - x) =
            ap (λ k. starred (row ∷ rows) k (a - x)) (same_column c y same) in
          ground (arith, e)
      | inr before ↦ ground arith
    ]
  ]

  draw_rows-Painted :
      (rows : Glyph) (x y dy : ℕ) (b : Bitmap)
      → Sized w h b
      → Painted (glyph_pixel rows x (y + dy)) color b (draw_rows rows dy color (pos x) (pos y) b)
  unfolding draw_rows
  draw_rows-Painted [] x y dy b s =
      Painted-none (glyph_pixel [] x (y + dy)) color b (λ a c. ground arith)
  draw_rows-Painted (row ∷ rows) x y dy b s =
      let here : x + 0 ≡ x = omega arith in
      let first = rw here at (draw_pixels-Painted row x y 0 dy b s) in
      let next : y + dy + 1 ≡ y + (dy + 1) = omega arith in
      Painted-chain (glyph_pixel (row ∷ rows) x (y + dy))
        (λ a c.
          glyph_pixel_first row rows x (y + dy) a c
          ∙ ap (λ t. glyph_pixel rows x t a c || row_pixel row x (y + dy) a c) next)
        first
        (draw_rows-Painted rows x y (dy + 1) (draw_pixels row 0 dy color (pos x) (pos y) b)
          (Sized-Painted s first))

  draw_glyph-Painted :
      (glyph : Option Glyph) (x y : ℕ) (b : Bitmap)
      → Sized w h b
      → Painted (char_pixel w h glyph x y) color b (draw_glyph glyph color (pos x) (pos y) b)
  draw_glyph-Painted none x y b s =
      Painted-none (char_pixel w h none x y) color b (λ a c. ground arith)
  draw_glyph-Painted (some rows) x y b s =
      let here : y + 0 ≡ y = omega arith in rw here at (draw_rows-Painted rows x y 0 b s)

  -- `draw_font_fg` colors the stars of the character's glyph that lie inside the bitmap, and no other
  -- pixel; a character without a glyph draws nothing.
  pub draw_font_fg-Painted :
      (source : List ℕ) (c x y : ℕ) (b : Bitmap)
      → Sized w h b
      → Painted
          (char_pixel w h (lookup_font source c) x y)
          color
          b
          (draw_font_fg source b (pos x) (pos y) color c)
  unfolding draw_font_fg
  draw_font_fg-Painted source c x y b s = draw_glyph-Painted (lookup_font source c) x y b s
