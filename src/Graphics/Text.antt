-- ===== src/Graphics/Text.antt =====
-- graphics.rs: characters and text on a bitmap, and the test pattern. The font source is a parameter.
-- Coordinates are not bounded: a cursor that moves by 8 or 16 for each character cannot leave `i64`.
pub mod Cell
pub mod Glyphs
pub mod Grid
pub mod Writer
pub mod Lines
pub mod Pattern
mod Tests
use wasabi_os.Common.{
  ℕ, zero, suc, ◌+◌, ◌-◌, ◌*◌, ◌^◌, Bool, Option, none, some, List, [], ◌∷◌, Result, ok, err,
  Outcome, done, panic, ◌>>=◌, ◌==◌, if◌then◌else◌, ℤ, pos, ◌+ℤ◌, ◌-ℤ◌, ◌*ℤ◌,
}
use wasabi_os.Graphics.{Bitmap, draw_point, fill_rect, draw_line}
use wasabi_os.Graphics.Font.{Glyph, star, newline, lookup_font}

-- `let _ =`: what fails draws nothing.
abbrev pub keep : Result Bitmap → Bitmap → Bitmap
keep (ok b') b = b'
keep (err e) b = b

-- The pixels of a row from the offset dx on.
unfoldable pub draw_pixels : List ℕ → ℕ → ℕ → ℕ → ℤ → ℤ → Bitmap → Bitmap
draw_pixels [] dx dy color x y b = b
draw_pixels (pixel ∷ row) dx dy color x y b =
    draw_pixels row (dx + 1) dy color x y
      (if pixel == star then keep (draw_point b color (x +ℤ pos dx) (y +ℤ pos dy)) b else b)

-- The rows of a glyph from the offset dy on.
unfoldable pub draw_rows : Glyph → ℕ → ℕ → ℤ → ℤ → Bitmap → Bitmap
draw_rows [] dy color x y b = b
draw_rows (row ∷ rows) dy color x y b =
    draw_rows rows (dy + 1) color x y (draw_pixels row 0 dy color x y b)

abbrev pub draw_glyph : Option Glyph → ℕ → ℤ → ℤ → Bitmap → Bitmap
draw_glyph none color x y b = b
draw_glyph (some font) color x y b = draw_rows font 0 color x y b

pub record BitmapTextWriter : Type 0 where
  pub buf : Bitmap
  pub cursor_x : ℤ
  pub cursor_y : ℤ

abbrev pub new : Bitmap → BitmapTextWriter
new b = record { buf = b; cursor_x = pos 0; cursor_y = pos 0 }

module _ (source : List ℕ) where
  unfoldable pub draw_font_fg : Bitmap → ℤ → ℤ → ℕ → ℕ → Bitmap
  draw_font_fg b x y color c = draw_glyph (lookup_font source c) color x y b

  -- The characters of a text from the i-th on.
  unfoldable pub draw_chars : List ℕ → ℕ → Bitmap → ℤ → ℤ → ℕ → Bitmap
  draw_chars [] i b x y color = b
  draw_chars (c ∷ cs) i b x y color =
      draw_chars cs (i + 1) (draw_font_fg b (x +ℤ pos i *ℤ pos 8) y color c) x y color

  abbrev pub draw_str_fg : Bitmap → ℤ → ℤ → ℕ → List ℕ → Bitmap
  draw_str_fg b x y color s = draw_chars s 0 b x y color

  unfoldable pub write_str : List ℕ → BitmapTextWriter → BitmapTextWriter
  write_str [] w = w
  write_str (c ∷ cs) w = write_str cs (
      if c == newline
      then record w { cursor_y = w.cursor_y +ℤ pos 16; cursor_x = pos 0 }
      else record w {
        buf = draw_font_fg w.buf w.cursor_x w.cursor_y (0xffffff) c;
        cursor_x = w.cursor_x +ℤ pos 8;
      })

-- `.expect(_)` of a drawing.
abbrev pub expect_ok : Outcome (Result Bitmap) → Outcome Bitmap
expect_ok (done (ok b)) = done b
expect_ok (done (err e)) = panic
expect_ok panic = panic

abbrev pub colors : List ℕ
colors = 0 ∷ 0xff0000 ∷ 0x00ff00 ∷ 0x0000ff ∷ []

-- The squares of the test pattern, from the i-th color on.
unfoldable pub draw_squares : List ℕ → ℕ → ℤ → Bitmap → Outcome Bitmap
draw_squares [] i left b = done b
draw_squares (c ∷ cs) i left b =
    let y = pos i *ℤ pos 64 in
    expect_ok (fill_rect b c left y (pos 64) (pos 64)) >>= λ b1.
    expect_ok (fill_rect b1 (2 ^ 32 - 1 - c) (left +ℤ pos 64) y (pos 64) (pos 64)) >>= λ b2.
    draw_squares cs (i + 1) left b2

abbrev pub points : List (ℤ × ℤ)
points = (pos 0, pos 0) ∷ (pos 0, pos 128) ∷ (pos 128, pos 0) ∷ (pos 128, pos 128) ∷ []

-- `let _ = draw_line(…)`, which refuses before it draws.
abbrev pub ignored : Outcome (Result Bitmap) → Bitmap → Outcome Bitmap
ignored panic b = panic
ignored (done (err e)) b = done b
ignored (done (ok b')) b = done b'

-- The lines from one point, and from all.
unfoldable pub draw_lines_from : ℤ × ℤ → List (ℤ × ℤ) → ℤ → Bitmap → Outcome Bitmap
draw_lines_from p [] left b = done b
draw_lines_from p (q ∷ qs) left b =
    ignored (draw_line b (0xffffff) (left +ℤ p.0) p.1 (left +ℤ q.0) q.1) b
    >>= draw_lines_from p qs left

unfoldable pub draw_lines : List (ℤ × ℤ) → ℤ → Bitmap → Outcome Bitmap
draw_lines [] left b = done b
draw_lines (p ∷ ps) left b = draw_lines_from p points left b >>= draw_lines ps left

-- The two texts of the pattern, `0123456789` and `ABCDEF`.
abbrev pub decimal_digits : List ℕ
decimal_digits = 48 ∷ 49 ∷ 50 ∷ 51 ∷ 52 ∷ 53 ∷ 54 ∷ 55 ∷ 56 ∷ 57 ∷ []

abbrev pub hexadecimal_letters : List ℕ
hexadecimal_letters = 65 ∷ 66 ∷ 67 ∷ 68 ∷ 69 ∷ 70 ∷ []

-- The texts, which stand below the squares.
abbrev pub draw_labels : List ℕ → ℤ → Bitmap → Bitmap
draw_labels source left b =
    draw_str_fg source (draw_str_fg source b left (pos (64 * 4)) (0x00ff00) decimal_digits) left
      (pos (64 * 4 + 16)) (0x00ff00) hexadecimal_letters

unfoldable pub draw_test_pattern : List ℕ → Bitmap → Outcome Bitmap
draw_test_pattern source b =
    let left = pos b.width -ℤ pos 128 -ℤ pos 1 in
    draw_squares colors 0 left b >>= λ b1.
    draw_lines points left b1 >>= λ b2. done (draw_labels source left b2)
