-- ===== src/Graphics/Text/Tests.antt =====
-- Runs of the font parser and of the text writer of graphics.rs, on a font of one letter.
use wasabi_os.Common.{ℕ, ◌<◌, ◌≤◌, ◌≡◌, refl, ok, done, some, none, arith, pos, List, [], ◌∷◌}
use wasabi_os.Graphics.{Bitmap, draw_line}
use wasabi_os.Graphics.Painted.{Painted, Sized}
use wasabi_os.Graphics.Geometry.{line_pixel}
use wasabi_os.Graphics.FlatLine.{draw_line_flat}
use wasabi_os.Graphics.Font.{Glyph, newline, lookup_font, split}
use wasabi_os.Graphics.Font.Source.{print_font, IsRow, IsEntry, lookup_font-print_font}
use wasabi_os.Graphics.Font.Shape.{HasShape, lookup_font-HasShape}
use wasabi_os.Graphics.Text.{write_str}
use wasabi_os.Graphics.Text.Writer.{writer_at, Written, write_str-Written}

abbrev dots : List ℕ
dots = 46 ∷ 46 ∷ 46 ∷ 46 ∷ 46 ∷ 46 ∷ 46 ∷ 46 ∷ []

abbrev bar : List ℕ
bar = 46 ∷ 42 ∷ 42 ∷ 42 ∷ 42 ∷ 42 ∷ 42 ∷ 46 ∷ []

-- A letter: a bar on the second row.
abbrev letter : Glyph
letter =
    dots ∷ bar ∷ dots ∷ dots ∷ dots ∷ dots ∷ dots ∷ dots ∷ dots ∷ dots ∷ dots ∷ dots ∷ dots ∷ dots
    ∷ dots ∷ dots ∷ []

abbrev source : List ℕ
source = print_font ((65, letter) ∷ [])

dots-IsRow : IsRow dots
dots-IsRow = (refl, (refl, (refl, (refl, (refl, (refl, (refl, (refl, (refl, tt)))))))))

bar-IsRow : IsRow bar
bar-IsRow = (refl, (refl, (refl, (refl, (refl, (refl, (refl, (refl, (refl, tt)))))))))

letter-IsEntry : IsEntry (65, letter)
letter-IsEntry = (
  omega arith,
  (
    refl,
    (
      dots-IsRow,
      (
        bar-IsRow,
        (
          dots-IsRow,
          (
            dots-IsRow,
            (
              dots-IsRow,
              (
                dots-IsRow,
                (
                  dots-IsRow,
                  (
                    dots-IsRow,
                    (
                      dots-IsRow,
                      (
                        dots-IsRow,
                        (
                          dots-IsRow,
                          (dots-IsRow, (dots-IsRow, (dots-IsRow, (dots-IsRow, (dots-IsRow, tt))))),
                        ),
                      ),
                    ),
                  ),
                ),
              ),
            ),
          ),
        ),
      ),
    ),
  ),
)

lookup_font-print_font_run : lookup_font source 65 ≡ some letter
lookup_font-print_font_run = lookup_font-print_font ((65, letter) ∷ []) 65 (letter-IsEntry, tt)

lookup_font-HasShape_run :
    (66 < 256 → (glyph : Glyph) × (lookup_font source 66 ≡ some glyph) × HasShape glyph)
    × (256 ≤ 66 → lookup_font source 66 ≡ none)
lookup_font-HasShape_run = lookup_font-HasShape source 66

-- Two cells wide and two high.
abbrev screen : Bitmap
screen = record {
  bytes_per_pixel = 4;
  pixels_per_line = 20;
  width = 16;
  height = 32;
  buf = λ at. 0;
}

screen-Sized : Sized 16 32 screen
screen-Sized = record { bytes = omega arith; wide = refl; high = refl }

abbrev two_lines : List ℕ
two_lines = 65 ∷ newline ∷ 66 ∷ 65 ∷ []

write_str-Written_example :
    Written source 16 32
      (split newline two_lines)
      1
      0
      screen
      (write_str source two_lines (writer_at screen 1 0))
write_str-Written_example = write_str-Written source 16 32 two_lines 1 0 screen screen-Sized

draw_line_flat_example :
    (b' : Bitmap) × (draw_line screen 255 (pos 12) (pos 3) (pos 2) (pos 9) ≡ done (ok b'))
    × Painted (line_pixel 12 3 2 9) 255 screen b'
draw_line_flat_example =
    draw_line_flat screen 255 12 3 2 9 (omega arith) (omega arith) (omega arith) (omega arith)
      (omega arith) (omega arith) (omega arith)
