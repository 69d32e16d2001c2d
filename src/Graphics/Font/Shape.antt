-- ===== src/Graphics/Font/Shape.antt =====
-- `lookup_font` of graphics.rs: its glyphs are arrays of 16 rows of 8 characters.
use wasabi_os.Common.{
  ℕ, zero, suc, ◌<◌, ◌≤◌, ◌≡◌, ◌∙◌, refl, inl, inr, Bool-cases, Option, none, some, List, [], ◌∷◌,
  ◌==◌, arith, length, All,
}
use wasabi_os.Graphics.Font.{
  Glyph, newline, repeat_row, blank_glyph, split, strip_prefix, overlay, overlay_rows, index_of,
  set_glyph, read_lines, font_of, lookup_font,
}

abbrev pub HasShape : Glyph → Type 0
HasShape glyph = (length glyph ≡ 16) × All (λ row. length row ≡ 8) glyph

length-overlay : (row line : List ℕ) → length (overlay row line) ≡ length row
length-overlay [] line = refl
length-overlay (p ∷ row) [] = refl
length-overlay (p ∷ row) (c ∷ line) = omega (arith, length-overlay row line)

overlay_rows-All :
    (glyph : Glyph) (lines : List (List ℕ))
    → All (λ row. length row ≡ 8) glyph
    → All (λ row. length row ≡ 8) (overlay_rows glyph lines)
overlay_rows-All [] lines h = tt
overlay_rows-All (row ∷ glyph) [] h = h
overlay_rows-All (row ∷ glyph) (line ∷ lines) (h, hs) =
    (length-overlay row line ∙ h, overlay_rows-All glyph lines hs)

length-overlay_rows :
    (glyph : Glyph) (lines : List (List ℕ)) → length (overlay_rows glyph lines) ≡ length glyph
length-overlay_rows [] lines = refl
length-overlay_rows (row ∷ glyph) [] = refl
length-overlay_rows (row ∷ glyph) (line ∷ lines) = omega (arith, length-overlay_rows glyph lines)

repeat_row-All : (n : ℕ) → All (λ row. length row ≡ 8) (repeat_row n)
repeat_row-All zero = tt
repeat_row-All (suc n) = (refl, repeat_row-All n)

blank_glyph-HasShape : HasShape blank_glyph
blank_glyph-HasShape = (refl, repeat_row-All 16)

set_glyph-HasShape :
    (o : Option ℕ) (glyph : Glyph) (font : ℕ → Glyph)
    → HasShape glyph
    → ((i : ℕ) → HasShape (font i))
    → (i : ℕ) → HasShape (set_glyph o glyph font i)
set_glyph-HasShape none glyph font h hs i = hs i
set_glyph-HasShape (some idx) glyph font h hs i = elim (Bool-cases (i == idx)) [
  | inl same ↦ rw same h
  | inr other ↦ rw other (hs i)
]

read_lines-HasShape :
    (lines : List (List ℕ)) (font : ℕ → Glyph)
    → ((i : ℕ) → HasShape (font i))
    → (i : ℕ) → HasShape (read_lines lines font i)
unfolding read_lines
read_lines-HasShape [] font h i = h i
read_lines-HasShape (line ∷ lines) font h i =
    let glyph = overlay_rows blank_glyph lines in
    let shape : HasShape glyph = (
      length-overlay_rows blank_glyph lines,
      overlay_rows-All blank_glyph lines blank_glyph-HasShape.1,
    ) in
    read_lines-HasShape lines (set_glyph (index_of (strip_prefix line)) glyph font)
      (set_glyph-HasShape (index_of (strip_prefix line)) glyph font shape h) i

-- Whatever the font source, a character below 256 has a glyph of 16 rows of 8 characters, and the
-- others have none.
pub lookup_font-HasShape :
    (source : List ℕ) (c : ℕ)
    → (c < 256 → (glyph : Glyph) × (lookup_font source c ≡ some glyph) × HasShape glyph)
      × (256 ≤ c → lookup_font source c ≡ none)
unfolding lookup_font
lookup_font-HasShape source c = (
  λ h. (
    font_of source c,
    ground arith,
    read_lines-HasShape (split newline source) (λ i. blank_glyph) (λ i. blank_glyph-HasShape) c,
  ),
  λ h. ground arith,
)
