-- ===== src/Graphics/Text/Cell.antt =====
-- The cells of 8 by 16 pixels into which `BitmapTextWriter` of graphics.rs draws characters.
use wasabi_os.Common.{
  ℕ, zero, suc, ◌+◌, ◌-◌, ◌*◌, ◌/◌, ◌%◌, ◌<◌, ◌≡◌, refl, inl, inr, Bool, Bool-cases, true, false,
  ◌&&◌, ◌||◌, Option, none, some, List, [], ◌∷◌, arith, ltb, ◌==◌, length, All,
}
use wasabi_os.Graphics.Font.{Glyph, to_first, lookup_font}
use wasabi_os.Graphics.Font.Shape.{HasShape, lookup_font-HasShape}
use wasabi_os.Graphics.Text.Glyphs.{starred_row, starred, starred_glyph, char_pixel}
use wasabi_os.Graphics.Text.Grid.{char_at, char_at_first, char_at_newline, char_at-empty}

starred_row_bound : (row : List ℕ) (l : ℕ) → starred_row row l ≡ true → l < length row
starred_row_bound [] l h = ground arith
starred_row_bound (p ∷ row) zero h = omega arith
starred_row_bound (p ∷ row) (suc l) h = omega (arith, starred_row_bound row l h)

starred_bound :
    (rows : Glyph) (k l : ℕ)
    → All (λ row. length row ≡ 8) rows
    → starred rows k l ≡ true
    → (k < length rows) × (l < 8)
starred_bound [] k l hs h = ground arith
starred_bound (row ∷ rows) zero l hs h =
    (omega arith, omega (arith, hs.0, starred_row_bound row l h))
starred_bound (row ∷ rows) (suc k) l hs h =
    let rest = starred_bound rows k l hs.1 h in (omega (arith, rest.0), rest.1)

-- The character of a cell is in the cell.
module _ (w h : ℕ) where
  cell_pixel :
      (rows : Glyph) (k r a c : ℕ)
      → HasShape rows
      → char_pixel w h (some rows) (8 * k) (16 * r) a c
        ≡ (c / 16 == r && a / 8 == k && starred rows (c % 16) (a % 8) && (ltb a w && ltb c h))
  cell_pixel rows k r a c shape = elim (Bool-cases (c / 16 == r && a / 8 == k)) [
    | inl cell ↦
        let ec : c - 16 * r ≡ c % 16 = ground arith in
        let ea : a - 8 * k ≡ a % 8 = ground arith in rw (ec, ea) (ground arith)
    | inr out ↦ elim (Bool-cases (starred rows (c - 16 * r) (a - 8 * k))) [
      | inl lit ↦
          let b = starred_bound rows (c - 16 * r) (a - 8 * k) shape.1 lit in
          ground (arith, shape.0, b.0, b.1)
      | inr dark ↦ ground arith
    ]
  ]

  abbrev cell_of : Option Glyph → ℕ → ℕ → ℕ → ℕ → Bool
  cell_of glyph k r a c =
      c / 16 == r && a / 8 == k && starred_glyph glyph (c % 16) (a % 8) && (ltb a w && ltb c h)

  lookup_cell :
      (source : List ℕ) (ch k r a c : ℕ)
      → char_pixel w h (lookup_font source ch) (8 * k) (16 * r) a c
        ≡ cell_of (lookup_font source ch) k r a c
  lookup_cell source ch k r a c =
      let (found, missing) = lookup_font-HasShape source ch in
      elim (Bool-cases (ltb ch 256)) [
        | inl known ↦
            let (glyph, e, shape) = found (ground arith) in rw e (cell_pixel glyph k r a c shape)
        | inr unknown ↦ let e = missing (ground arith) in rw e (ground arith)
      ]

  -- The glyph of a cell that may be empty.
  abbrev pub glyph_at : List ℕ → Option ℕ → Option Glyph
  glyph_at source none = none
  glyph_at source (some ch) = lookup_font source ch

  -- The pixel (a, c) is a star of the character in its cell of 8 by 16 pixels, and in the picture.
  abbrev pub text_pixel : List ℕ → List (List ℕ) → ℕ → ℕ → ℕ → ℕ → Bool
  text_pixel source lines k r a c =
      starred_glyph (glyph_at source (char_at lines k r (a / 8) (c / 16))) (c % 16) (a % 8)
      && (ltb a w && ltb c h)

  char_at_before : (lines : List (List ℕ)) (k r : ℕ) → char_at lines (k + 1) r k r ≡ none
  char_at_before lines k r = ground arith

  pub text_pixel_first :
      (source : List ℕ) (ch : ℕ) (lines : List (List ℕ)) (k r a c : ℕ)
      → text_pixel source (to_first ch lines) k r a c ≡ (
          text_pixel source lines (k + 1) r a c
          || char_pixel w h (lookup_font source ch) (8 * k) (16 * r) a c)
  text_pixel_first source ch lines k r a c =
      rw (char_at_first ch lines k r (a / 8) (c / 16), lookup_cell source ch k r a c)
        (elim (Bool-cases (c / 16 == r && a / 8 == k)) [
          | inl cell ↦
              let e : char_at lines (k + 1) r (a / 8) (c / 16) ≡ none = ground arith in
              rw (cell, e) (ground arith)
          | inr out ↦ rw out (ground arith)
        ])

  pub text_pixel_newline :
      (source : List ℕ) (lines : List (List ℕ)) (k r a c : ℕ)
      → text_pixel source lines 0 (r + 1) a c ≡ text_pixel source ([] ∷ lines) k r a c
  text_pixel_newline source lines k r a c = rw (char_at_newline lines k r (a / 8) (c / 16)) refl

  pub text_pixel-empty :
      (source : List ℕ) (k r a c : ℕ) → text_pixel source ([] ∷ []) k r a c ≡ false
  text_pixel-empty source k r a c = rw (char_at-empty k r (a / 8) (c / 16)) refl
