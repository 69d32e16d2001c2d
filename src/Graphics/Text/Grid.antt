-- ===== src/Graphics/Text/Grid.antt =====
-- Text as a grid of characters, the view of `BitmapTextWriter` of graphics.rs: newlines begin a row.
use wasabi_os.Common.{
  ℕ, zero, suc, ◌+◌, ◌-◌, ◌≤◌, ◌≡◌, ◌∙◌, refl, ap, inl, inr, Bool-cases, true, ◌&&◌, Option, none,
  some, List, [], ◌∷◌, arith, ltb, ◌==◌, if◌then◌else◌, get_elem?, length,
}
use wasabi_os.Graphics.Font.{to_first, split}

-- The j-th line.
abbrev pub line_at : List (List ℕ) → ℕ → List ℕ
line_at [] j = []
line_at (line ∷ lines) zero = line
line_at (line ∷ lines) (suc j) = line_at lines j

-- The character in a column and a row of the grid, when the first line begins in the column k of the
-- row r and the others below it at the left.
abbrev pub char_at : List (List ℕ) → ℕ → ℕ → ℕ → ℕ → Option ℕ
char_at lines k r col row =
    if ltb row r
    then none
    else if row == r
    then (if ltb col k then none else get_elem? (line_at lines 0) (col - k))
    else get_elem? (line_at lines (row - r)) col

pub next_index : (r row : ℕ) → ltb r row ≡ true → row - r ≡ suc (row - (r + 1))
next_index r row h = ground arith

first_index : (r row : ℕ) → (row == r) ≡ true → row - r ≡ 0
first_index r row h = ground arith

line_at_below :
    (line : List ℕ) (lines : List (List ℕ)) (r row : ℕ)
    → ltb r row ≡ true
    → line_at (line ∷ lines) (row - r) ≡ line_at lines (row - (r + 1))
line_at_below line lines r row h = ap (line_at (line ∷ lines)) (next_index r row h)

get_elem?-next :
    (ch : ℕ) (line : List ℕ) (k col : ℕ)
    → ltb k col ≡ true
    → get_elem? (ch ∷ line) (col - k) ≡ get_elem? line (col - (k + 1))
get_elem?-next ch line k col h = ap (get_elem? (ch ∷ line)) (next_index k col h)

get_elem?-first :
    (ch : ℕ) (line : List ℕ) (k col : ℕ)
    → (col == k) ≡ true
    → get_elem? (ch ∷ line) (col - k) ≡ some ch
get_elem?-first ch line k col h = ap (get_elem? (ch ∷ line)) (first_index k col h)

-- A character in front of the text stands in the first cell, and moves the first line by one column.
char_at_cons :
    (ch : ℕ) (line : List ℕ) (lines : List (List ℕ)) (k r col row : ℕ)
    → char_at ((ch ∷ line) ∷ lines) k r col row
      ≡ (if row == r && col == k then some ch else char_at (line ∷ lines) (k + 1) r col row)
char_at_cons ch line lines k r col row = elim (Bool-cases (row == r)) [
  | inl here ↦ elim (Bool-cases (col == k)) [
    | inl same ↦ let e = get_elem?-first ch line k col same in ground (arith, e)
    | inr other ↦ elim (Bool-cases (ltb k col)) [
      | inl right ↦ let e = get_elem?-next ch line k col right in ground (arith, e)
      | inr left ↦ ground arith
    ]
  ]
  | inr there ↦ elim (Bool-cases (ltb r row)) [
    | inl under ↦
        let e1 = line_at_below (ch ∷ line) lines r row under in
        let e2 = line_at_below line lines r row under in ground (arith, e1, e2)
    | inr above ↦ ground arith
  ]
]

line_at_blank : (j : ℕ) → line_at ([] ∷ []) j ≡ []
line_at_blank zero = refl
line_at_blank (suc j) = refl

char_at_blank : (k r col row : ℕ) → char_at ([] ∷ []) k r col row ≡ char_at [] k r col row
char_at_blank k r col row = rw (line_at_blank (row - r)) refl

pub char_at-empty : (k r col row : ℕ) → char_at ([] ∷ []) k r col row ≡ none
char_at-empty k r col row = rw (line_at_blank (row - r)) (ground arith)

pub char_at_first :
    (ch : ℕ) (lines : List (List ℕ)) (k r col row : ℕ)
    → char_at (to_first ch lines) k r col row
      ≡ (if row == r && col == k then some ch else char_at lines (k + 1) r col row)
char_at_first ch [] k r col row =
    char_at_cons ch [] [] k r col row
    ∙ ap (λ t. if row == r && col == k then some ch else t) (char_at_blank (k + 1) r col row)
char_at_first ch (line ∷ lines) k r col row = char_at_cons ch line lines k r col row

pub char_at_newline :
    (lines : List (List ℕ)) (k r col row : ℕ)
    → char_at ([] ∷ lines) k r col row ≡ char_at lines 0 (r + 1) col row
char_at_newline lines k r col row = elim (Bool-cases (ltb r row)) [
  | inr above ↦ ground arith
  | inl under ↦
      let e = line_at_below [] lines r row under in
      elim (Bool-cases (row == r + 1)) [
        | inl next ↦
            let z : row - (r + 1) ≡ 0 = first_index (r + 1) row next in
            let f = e ∙ ap (line_at lines) z in ground (arith, f)
        | inr far ↦ ground (arith, e)
      ]
]

-- Where the cursor stands after the lines.
abbrev pub last_column : ℕ → List (List ℕ) → ℕ
last_column k [] = k
last_column k (line ∷ []) = k + length line
last_column k (line ∷ next ∷ lines) = last_column 0 (next ∷ lines)

pub last_column_first :
    (ch k : ℕ) (lines : List (List ℕ))
    → last_column k (to_first ch lines) ≡ last_column (k + 1) lines
last_column_first ch k [] = refl
last_column_first ch k (line ∷ []) = omega arith
last_column_first ch k (line ∷ next ∷ lines) = refl

pub last_column_newline :
    (k : ℕ) (lines : List (List ℕ))
    → 1 ≤ length lines
    → last_column k ([] ∷ lines) ≡ last_column 0 lines
last_column_newline k [] h = ground arith
last_column_newline k (line ∷ lines) h = refl

pub length-to_first :
    (ch : ℕ) (lines : List (List ℕ)) → 1 ≤ length lines → length (to_first ch lines) ≡ length lines
length-to_first ch [] h = omega arith
length-to_first ch (line ∷ lines) h = refl

-- A text has a line.
pub length-split : (sep : ℕ) (s : List ℕ) → 1 ≤ length (split sep s)
unfolding split
length-split sep [] = omega arith
length-split sep (c ∷ cs) = elim (Bool-cases (c == sep)) [
  | inl end ↦ rw end (omega arith)
  | inr more ↦
      let rest = length-split sep cs in
      let e = length-to_first c (split sep cs) rest in rw more (omega (arith, rest, e))
]
