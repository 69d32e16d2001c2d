-- ===== src/Print/Lines.antt =====
-- What `hexdump_bytes` of print.rs prints, digit by digit and column by column.
use wasabi_os.Common.{
  ℕ, zero, suc, ◌+◌, ◌-◌, ◌*◌, ◌^◌, ◌<◌, ◌≡◌, ◌∙◌, sym, refl, ap, inl, inr, Bool, Bool-cases, ◌&&◌,
  List, [], ◌∷◌, ◌++◌, map, ◌==◌, ltb, if◌then◌else◌, length, length-append, done, arith, All,
}
use mathlib.Core.List.{append_assoc}
use wasabi_os.Print.{repeat, hex, shown, offset_text, hexdump_bytes}
use wasabi_os.Print.Chunks.{group, concat, Chunked, concat-group, group-Chunked}
use wasabi_os.Print.Dump.{byte_texts, line_with, dump_line, dump_lines, hexdump_bytes-grouped}
use wasabi_os.Print.Hex.{fixed, hex-fixed}

-- The characters that a full line shows, from the space to `~`, and those of the last line, which
-- shows 0x7f as well; a dot for any other byte.
abbrev pub full_char : ℕ → ℕ
full_char c = if ltb 31 c && ltb c 127 then c else 46

abbrev pub last_char : ℕ → ℕ
last_char c = if ltb 31 c && ltb c 128 then c else 46

-- Two digits and a space for each byte.
abbrev pub cells : List ℕ → List ℕ
cells [] = []
cells (b ∷ bs) = fixed 2 b ++ 32 ∷ cells bs

-- Four spaces each.
abbrev pub blanks : ℕ → List ℕ
blanks zero = []
blanks (suc n) = 32 ∷ 32 ∷ 32 ∷ 32 ∷ blanks n

-- Eight digits of the offset, a colon, a space, the bytes, and the characters between bars.
abbrev pub full_line : ℕ → List ℕ → List ℕ
full_line offset chunk =
    fixed 8 offset ++ 58 ∷ 32 ∷ cells chunk ++ 124 ∷ map full_char chunk ++ 124 ∷ 10 ∷ []

abbrev pub last_line : ℕ → List ℕ → List ℕ
last_line offset chunk =
    fixed 8 offset
    ++ 58 ∷ 32 ∷ cells chunk
    ++ blanks (16 - length chunk)
    ++ 124 ∷ map last_char chunk
    ++ 124 ∷ 10 ∷ []

abbrev pub dump : ℕ → List (List ℕ) → List ℕ
dump offset [] = []
dump offset (chunk ∷ chunks) =
    (if length chunk == 16 then full_line offset chunk else last_line offset chunk)
    ++ dump (offset + 16) chunks

All_left : (P : ℕ → Type 0) (xs ys : List ℕ) → All P (xs ++ ys) → All P xs
All_left P [] ys all = tt
All_left P (x ∷ xs) ys (h, all) = (h, All_left P xs ys all)

All_right : (P : ℕ → Type 0) (xs ys : List ℕ) → All P (xs ++ ys) → All P ys
All_right P [] ys all = all
All_right P (x ∷ xs) ys (h, all) = All_right P xs ys all

cells_lem : (bs : List ℕ) → All (λ b. b < 256) bs → byte_texts bs ≡ cells bs
cells_lem [] all = refl
cells_lem (b ∷ bs) (h, all) =
    append_assoc (hex 2 b) (32 ∷ []) (byte_texts bs)
    ∙ ap (λ l. l ++ 32 ∷ byte_texts bs) (hex-fixed 1 b h (omega arith))
    ∙ ap (λ l. fixed 2 b ++ 32 ∷ l) (cells_lem bs all)

blanks_lem : (n : ℕ) → repeat (4 * n) 32 ≡ blanks n
blanks_lem zero = refl
blanks_lem (suc n) =
    let four : 4 * suc n ≡ suc (suc (suc (suc (4 * n)))) = omega arith in
    ap (λ k. repeat k 32) four ∙ ap (λ l. 32 ∷ 32 ∷ 32 ∷ 32 ∷ l) (blanks_lem n)

full_chars : (cs : List ℕ) → map (shown 0x7e) cs ≡ map full_char cs
full_chars [] = refl
full_chars (c ∷ cs) =
    let same : shown 0x7e c ≡ full_char c = ground arith in
    ap (λ x. x ∷ map (shown 0x7e) cs) same ∙ ap (λ l. full_char c ∷ l) (full_chars cs)

last_chars : (cs : List ℕ) → map (shown 0x7f) cs ≡ map last_char cs
last_chars [] = refl
last_chars (c ∷ cs) =
    let same : shown 0x7f c ≡ last_char c = ground arith in
    ap (λ x. x ∷ map (shown 0x7f) cs) same ∙ ap (λ l. last_char c ∷ l) (last_chars cs)

offset_lem :
    (offset : ℕ) (rest : List ℕ)
    → offset < 2 ^ 31
    → offset_text offset ++ rest ≡ fixed 8 offset ++ 58 ∷ 32 ∷ rest
offset_lem offset rest h =
    append_assoc (hex 8 offset) (58 ∷ 32 ∷ []) rest
    ∙ ap (λ l. l ++ 58 ∷ 32 ∷ rest) (hex-fixed 7 offset (omega arith) (omega arith))

full_lem :
    (offset : ℕ) (chunk : List ℕ)
    → offset < 2 ^ 31
    → All (λ b. b < 256) chunk
    → length chunk ≡ 16
    → line_with 0x7e offset chunk ≡ full_line offset chunk
full_lem offset chunk h all full =
    let size : 16 - length chunk ≡ 0 = omega arith in
    rw (size, cells_lem chunk all, full_chars chunk)
      (let chars : List ℕ = 124 ∷ map full_char chunk ++ 124 ∷ 10 ∷ [] in
        append_assoc (offset_text offset) (cells chunk) chars
        ∙ offset_lem offset (cells chunk ++ chars) h
        ∙ simp append_assoc refl)

last_lem :
    (offset : ℕ) (chunk : List ℕ)
    → offset < 2 ^ 31
    → All (λ b. b < 256) chunk
    → line_with 0x7f offset chunk ≡ last_line offset chunk
last_lem offset chunk h all =
    rw (cells_lem chunk all, last_chars chunk, blanks_lem (16 - length chunk))
      (let chars : List ℕ = 124 ∷ map last_char chunk ++ 124 ∷ 10 ∷ [] in
        let right : List ℕ = blanks (16 - length chunk) ++ chars in
        append_assoc (offset_text offset) (cells chunk) right
        ∙ offset_lem offset (cells chunk ++ right) h
        ∙ simp append_assoc refl)

line_lem :
    (offset : ℕ) (chunk : List ℕ)
    → offset < 2 ^ 31
    → All (λ b. b < 256) chunk
    → dump_line offset chunk
      ≡ (if length chunk == 16 then full_line offset chunk else last_line offset chunk)
line_lem offset chunk h all =
    let either : Bool → List ℕ = λ t. line_with (if t then 0x7e else 0x7f) offset chunk in
    let wanted : Bool → List ℕ =
      λ t. if t then full_line offset chunk else last_line offset chunk in
    elim (Bool-cases (length chunk == 16)) [
      | inl full ↦
          ap either full ∙ full_lem offset chunk h all (ground arith) ∙ sym (ap wanted full)
      | inr short ↦ ap either short ∙ last_lem offset chunk h all ∙ sym (ap wanted short)
    ]

dump_lem :
    (offset : ℕ) (chunks : List (List ℕ))
    → Chunked chunks
    → offset + length (concat chunks) < 2 ^ 31
    → All (λ b. b < 256) (concat chunks)
    → dump_lines offset chunks ≡ dump offset chunks
dump_lem offset [] ch few all = refl
dump_lem offset (chunk ∷ []) ch few all =
    ap (λ l. l ++ []) (line_lem offset chunk (omega arith) (All_left (λ b. b < 256) chunk [] all))
dump_lem offset (chunk ∷ next ∷ chunks) (h, ch) few all =
    let size = length-append chunk (concat (next ∷ chunks)) in
    let rest =
      dump_lem (offset + 16) (next ∷ chunks) ch (omega (arith, size))
        (All_right (λ b. b < 256) chunk (concat (next ∷ chunks)) all) in
    ap (λ l. l ++ dump_lines (offset + 16) (next ∷ chunks))
      (line_lem offset chunk (omega arith)
        (All_left (λ b. b < 256) chunk (concat (next ∷ chunks)) all))
    ∙ ap (λ l. (if length chunk == 16 then full_line offset chunk else last_line offset chunk) ++ l)
        rest

-- The dump of fewer than 2 ^ 31 bytes does not overflow and is a line for each sixteen of them, in
-- order, and one for the rest: the offset in eight hexadecimal digits, a colon and a space, two
-- digits and a space for each byte, and the characters between two bars. A full line shows the
-- bytes from 0x20 to 0x7e and a dot for any other. The last, partial one shows 0x7f as well, and
-- has four spaces for each byte that is missing.
pub hexdump_bytes-dump :
    (bytes : List ℕ)
    → length bytes < 2 ^ 31
    → All (λ b. b < 256) bytes
    → (chunks : List (List ℕ)) × (hexdump_bytes bytes ≡ done (dump 0 chunks))
      × (concat chunks ≡ bytes)
      × Chunked chunks
hexdump_bytes-dump bytes few all =
    let same : concat (group [] bytes) ≡ bytes = concat-group [] bytes in
    let chunked : Chunked (group [] bytes) = group-Chunked [] bytes (omega arith) in
    let few' : 0 + length (concat (group [] bytes)) < 2 ^ 31 = rw same (omega arith) in
    let all' : All (λ b. b < 256) (concat (group [] bytes)) = rw same all in
    (
      group [] bytes,
      hexdump_bytes-grouped bytes few ∙ ap done (dump_lem 0 (group [] bytes) chunked few' all'),
      same,
      chunked,
    )
