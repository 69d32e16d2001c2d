-- ===== src/Graphics/Font.antt =====
-- graphics.rs, `lookup_font`: the font is read from text. A character is its code point; the text
-- `font.txt` is a parameter. The cache, which keeps the table that the first call builds, is left out.
pub mod Shape
pub mod Source
use wasabi_os.Common.{
  ℕ, zero, suc, ◌+◌, ◌-◌, ◌*◌, Bool, ◌&&◌, Option, none, some, List, [], ◌∷◌, ltb, leb, ◌==◌,
  if◌then◌else◌,
}

-- A `[[char; 8]; 16]`, by its rows, and the table of 256 of them.
abbrev pub Glyph : Type 0
Glyph = List (List ℕ)

-- `*`, with which glyphs begin.
abbrev pub star : ℕ
star = 42

abbrev pub newline : ℕ
newline = 10

abbrev pub blank_row : List ℕ
blank_row = star ∷ star ∷ star ∷ star ∷ star ∷ star ∷ star ∷ star ∷ []

abbrev pub repeat_row : ℕ → Glyph
repeat_row zero = []
repeat_row (suc n) = blank_row ∷ repeat_row n

abbrev pub blank_glyph : Glyph
blank_glyph = repeat_row 16

-- `str::split`: a text has one piece more than separators.
abbrev pub to_first : ℕ → List (List ℕ) → List (List ℕ)
to_first c [] = (c ∷ []) ∷ []
to_first c (piece ∷ pieces) = (c ∷ piece) ∷ pieces

unfoldable pub split : ℕ → List ℕ → List (List ℕ)
split sep [] = [] ∷ []
split sep (c ∷ cs) = if c == sep then [] ∷ split sep cs else to_first c (split sep cs)

-- `strip_prefix("0x")`.
unfoldable pub strip_prefix : List ℕ → Option (List ℕ)
strip_prefix [] = none
strip_prefix (c ∷ []) = none
strip_prefix (c ∷ d ∷ cs) = if c == 48 && d == 120 then some cs else none

-- `char::to_digit(16)`.
unfoldable pub to_digit : ℕ → Option ℕ
to_digit c =
    if leb 48 c && leb c 57
    then some (c - 48)
    else if leb 97 c && leb c 102
    then some (c - 87)
    else if leb 65 c && leb c 70
    then some (c - 55)
    else none

abbrev pub add_digit : ℕ → Option ℕ → Option ℕ
add_digit n none = none
add_digit n (some d) = if ltb (16 * n + d) 256 then some (16 * n + d) else none

abbrev pub go_on : Option ℕ → (ℕ → Option ℕ) → Option ℕ
go_on none k = none
go_on (some n) k = k n

unfoldable pub digits : List ℕ → ℕ → Option ℕ
digits [] n = some n
digits (c ∷ cs) n = go_on (add_digit n (to_digit c)) (λ m. digits cs m)

-- `u8::from_str_radix(_, 16)`: a sign `+` may stand first, and a digit has to follow.
unfoldable pub from_str_radix : List ℕ → Option ℕ
from_str_radix [] = none
from_str_radix (c ∷ []) = if c == 43 then none else digits (c ∷ []) 0
from_str_radix (c ∷ d ∷ cs) = if c == 43 then digits (d ∷ cs) 0 else digits (c ∷ d ∷ cs) 0

-- The characters of a line into a row, with `get_mut`: those past the eighth are dropped.
abbrev pub overlay : List ℕ → List ℕ → List ℕ
overlay [] line = []
overlay (p ∷ row) [] = p ∷ row
overlay (p ∷ row) (c ∷ line) = c ∷ overlay row line

-- The sixteen rows of a glyph from the lines that follow; rows without a line stay as they are.
abbrev pub overlay_rows : Glyph → List (List ℕ) → Glyph
overlay_rows [] lines = []
overlay_rows (row ∷ rows) [] = row ∷ rows
overlay_rows (row ∷ rows) (line ∷ lines) = overlay row line ∷ overlay_rows rows lines

abbrev pub index_of : Option (List ℕ) → Option ℕ
index_of none = none
index_of (some line) = from_str_radix line

abbrev pub set_glyph : Option ℕ → Glyph → (ℕ → Glyph) → ℕ → Glyph
set_glyph none glyph font i = font i
set_glyph (some idx) glyph font i = if i == idx then glyph else font i

-- The loop over the lines. The lines of a glyph are taken from a copy of the iterator, so they are
-- looked at once more as lines of their own.
unfoldable pub read_lines : List (List ℕ) → (ℕ → Glyph) → ℕ → Glyph
read_lines [] font = font
read_lines (line ∷ lines) font =
    read_lines lines
      (set_glyph (index_of (strip_prefix line)) (overlay_rows blank_glyph lines) font)

abbrev pub font_of : List ℕ → ℕ → Glyph
font_of source = read_lines (split newline source) (λ i. blank_glyph)

unfoldable pub lookup_font : List ℕ → ℕ → Option Glyph
lookup_font source c = if ltb c 256 then some (font_of source c) else none
