-- ===== src/Graphics/Font/Source.antt =====
-- `lookup_font` of graphics.rs on a font source: what the text says is what is looked up.
use wasabi_os.Common.{
  ℕ, ◌+◌, ◌*◌, ◌/◌, ◌%◌, ◌<◌, ◌≡◌, ◌∙◌, sym, refl, ap, true, false, ◌||◌, none, some, List, [], ◌∷◌,
  ◌++◌, ltb, ◌==◌, if◌then◌else◌, arith, length, All,
}
use wasabi_os.Graphics.Font.{
  Glyph, star, newline, blank_row, repeat_row, blank_glyph, split, strip_prefix, to_digit, digits,
  from_str_radix, overlay, overlay_rows, set_glyph, read_lines, lookup_font,
}

-- A form of font sources: an index of two hexadecimal digits, and sixteen rows of eight characters.
abbrev hex_digit : ℕ → ℕ
hex_digit d = if ltb d 10 then 48 + d else 87 + d

abbrev print_rows : Glyph → List ℕ → List ℕ
print_rows [] more = more
print_rows (row ∷ rows) more = row ++ newline ∷ print_rows rows more

abbrev pub print_font : List (ℕ × Glyph) → List ℕ
print_font [] = []
print_font ((i, glyph) ∷ entries) =
    48
    ∷ 120
    ∷ hex_digit (i / 16)
    ∷ hex_digit (i % 16)
    ∷ newline
    ∷ print_rows glyph (newline ∷ print_font entries)

abbrev pub IsRow : List ℕ → Type 0
IsRow row = (length row ≡ 8) × All (λ c. (c == star || c == 46) ≡ true) row

abbrev pub IsGlyph : Glyph → Type 0
IsGlyph glyph = (length glyph ≡ 16) × All IsRow glyph

abbrev pub IsEntry : ℕ × Glyph → Type 0
IsEntry (i, glyph) = (i < 256) × IsGlyph glyph

-- The last entry of an index is the one that counts.
abbrev pub font_entry : List (ℕ × Glyph) → Glyph → ℕ → Glyph
font_entry [] default c = default
font_entry ((i, glyph) ∷ entries) default c =
    font_entry entries (if c == i then glyph else default) c

split_line :
    (line rest : List ℕ)
    → All (λ c. (c == newline) ≡ false) line
    → split newline (line ++ newline ∷ rest) ≡ line ∷ split newline rest
unfolding split
split_line [] rest h = refl
split_line (c ∷ line) rest (h, hs) = rw (h, split_line line rest hs) refl

overlay_all : (row line : List ℕ) → length line ≡ length row → overlay row line ≡ line
overlay_all [] [] h = refl
overlay_all [] (c ∷ line) h = grind arith
overlay_all (p ∷ row) [] h = grind arith
overlay_all (p ∷ row) (c ∷ line) h = ap (λ l. c ∷ l) (overlay_all row line (omega arith))

overlay_rows_lem :
    (glyph : Glyph) (more : List (List ℕ))
    → All IsRow glyph
    → overlay_rows (repeat_row (length glyph)) (glyph ++ more) ≡ glyph
overlay_rows_lem [] more h = refl
overlay_rows_lem (row ∷ glyph) more (h, hs) =
    rw (overlay_all blank_row row h.0, overlay_rows_lem glyph more hs) refl

to_digit-hex_digit : (d : ℕ) → d < 16 → to_digit (hex_digit d) ≡ some d
unfolding to_digit
to_digit-hex_digit d h = ground arith

from_str_radix_hex :
    (i : ℕ) → i < 256 → from_str_radix (hex_digit (i / 16) ∷ hex_digit (i % 16) ∷ []) ≡ some i
unfolding from_str_radix digits
from_str_radix_hex i h =
    let plus : (hex_digit (i / 16) == 43) ≡ false = ground arith in
    let first : ltb (16 * 0 + i / 16) 256 ≡ true = ground arith in
    let second : ltb (16 * (16 * 0 + i / 16) + i % 16) 256 ≡ true = ground arith in
    rw
      (
        plus,
        to_digit-hex_digit (i / 16) (omega arith),
        first,
        to_digit-hex_digit (i % 16) (omega arith),
        second,
      )
      (ap some (omega arith))

-- A row is no header, and has no end of a line in it.
strip_prefix_row : (row : List ℕ) → IsRow row → strip_prefix row ≡ none
unfolding strip_prefix
strip_prefix_row [] h = refl
strip_prefix_row (c ∷ []) h = refl
strip_prefix_row (c ∷ d ∷ row) h = let first = h.1 in ground arith

row_one_line :
    (row : List ℕ)
    → All (λ c. (c == star || c == 46) ≡ true) row
    → All (λ c. (c == newline) ≡ false) row
row_one_line [] h = tt
row_one_line (c ∷ row) (h, hs) = (ground arith, row_one_line row hs)

split_rows :
    (glyph : Glyph) (more : List ℕ)
    → All IsRow glyph
    → split newline (print_rows glyph more) ≡ glyph ++ split newline more
split_rows [] more h = refl
split_rows (row ∷ glyph) more (h, hs) =
    rw (split_line row (print_rows glyph more) (row_one_line row h.1), split_rows glyph more hs)
      refl

read_rows :
    (glyph : Glyph) (more : List (List ℕ)) (font : ℕ → Glyph)
    → All IsRow glyph
    → read_lines (glyph ++ more) font ≡ read_lines more font
unfolding read_lines
read_rows [] more font h = refl
read_rows (row ∷ glyph) more font (h, hs) =
    rw (read_lines, strip_prefix_row row h) (read_rows glyph more font hs)

hex_digit_one_line : (d : ℕ) → (hex_digit d == newline) ≡ false
hex_digit_one_line d = ground arith

-- The lines of the text, by entries.
abbrev entry_lines : List (ℕ × Glyph) → List (List ℕ)
entry_lines [] = [] ∷ []
entry_lines ((i, glyph) ∷ entries) =
    (48 ∷ 120 ∷ hex_digit (i / 16) ∷ hex_digit (i % 16) ∷ []) ∷ glyph ++ [] ∷ entry_lines entries

split-print_font :
    (entries : List (ℕ × Glyph))
    → All IsEntry entries
    → split newline (print_font entries) ≡ entry_lines entries
unfolding split
split-print_font [] h = refl
split-print_font ((i, glyph) ∷ entries) (h, hs) =
    let head =
      split_line (48 ∷ 120 ∷ hex_digit (i / 16) ∷ hex_digit (i % 16) ∷ [])
        (print_rows glyph (newline ∷ print_font entries))
        (refl, (refl, (hex_digit_one_line (i / 16), (hex_digit_one_line (i % 16), tt)))) in
    head
    ∙ rw
        (
          split_rows glyph (newline ∷ print_font entries) h.1.1,
          split_line [] (print_font entries) tt,
          split-print_font entries hs,
        )
        refl

read_header :
    (i : ℕ) (lines : List (List ℕ)) (font : ℕ → Glyph)
    → i < 256
    → read_lines ((48 ∷ 120 ∷ hex_digit (i / 16) ∷ hex_digit (i % 16) ∷ []) ∷ lines) font
      ≡ read_lines lines (set_glyph (some i) (overlay_rows blank_glyph lines) font)
unfolding read_lines strip_prefix
read_header i lines font h =
    ap (λ o. read_lines lines (set_glyph o (overlay_rows blank_glyph lines) font))
      (from_str_radix_hex i h)

read_entries :
    (entries : List (ℕ × Glyph)) (font : ℕ → Glyph) (c : ℕ)
    → All IsEntry entries
    → read_lines (entry_lines entries) font c ≡ font_entry entries (font c) c
unfolding read_lines strip_prefix
read_entries [] font c h = refl
read_entries ((i, glyph) ∷ entries) font c (h, hs) =
    let more = [] ∷ entry_lines entries in
    let rows : overlay_rows blank_glyph (glyph ++ more) ≡ glyph =
      ap (λ n. overlay_rows (repeat_row n) (glyph ++ more)) (sym h.1.0)
      ∙ overlay_rows_lem glyph more h.1.1 in
    let next = set_glyph (some i) glyph font in
    ap (λ f. f c)
      (read_header i (glyph ++ more) font h.0
        ∙ ap (λ g. read_lines (glyph ++ more) (set_glyph (some i) g font)) rows
        ∙ read_rows glyph more next h.1.1)
    ∙ read_entries entries next c hs

-- The parser reads back what a font in this form says: for a font source with well-formed
-- entries, the glyph of a character below 256 is that of the last entry with its code, and all stars
-- if there is no entry; characters from 256 on have no glyph.
pub lookup_font-print_font :
    (entries : List (ℕ × Glyph)) (c : ℕ)
    → All IsEntry entries
    → lookup_font (print_font entries) c
      ≡ (if ltb c 256 then some (font_entry entries blank_glyph c) else none)
unfolding lookup_font
lookup_font-print_font entries c h =
    rw (split-print_font entries h, read_entries entries (λ i. blank_glyph) c h) refl
