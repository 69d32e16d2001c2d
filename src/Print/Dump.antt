-- ===== src/Print/Dump.antt =====
-- `hexdump_bytes` of print.rs prints a line for every sixteen bytes.
use wasabi_os.Common.{
  ℕ, done, ◌^◌, lt→ltb, zero, suc, ◌+◌, ◌-◌, ◌*◌, ◌<◌, ◌≡◌, ◌∙◌, sym, refl, ap, inl, inr,
  Bool-cases, false, List, [], ◌∷◌, ◌++◌, ◌==◌, if◌then◌else◌, length, take, length-append, arith,
}
use mathlib.Core.List.{append_assoc, append-nil}
use wasabi_os.Print.{
  repeat, columns, offset_text, byte_text, set_elem, finish, dump_loop, hexdump_bytes,
}
use wasabi_os.Print.Chunks.{group}

-- The text of the loop, when the offset does not overflow.
dump_text : List ℕ → ℕ → List ℕ → ℕ → List ℕ
dump_text [] i ascii offset = finish i ascii
dump_text (v ∷ vs) i ascii offset =
    let full = i + 1 == 16 in
    let ascii' = set_elem i v ascii in
    let rest =
      dump_text vs (if full then 0 else i + 1) ascii' (if full then offset + 16 else offset) in
    (if i == 0 then offset_text offset else [])
    ++ byte_text v
    ++ (if full then columns 0x7e ascii' else [])
    ++ rest

dump_loop-dump_text :
    (bytes : List ℕ) (i : ℕ) (ascii : List ℕ) (offset : ℕ)
    → i < 16
    → offset + i + length bytes < 2 ^ 31
    → dump_loop bytes i ascii offset ≡ done (dump_text bytes i ascii offset)
unfolding dump_loop dump_text
dump_loop-dump_text [] i ascii offset h fits = refl
dump_loop-dump_text (v ∷ vs) i ascii offset h fits = elim (Bool-cases (i + 1 == 16)) [
  | inl full ↦
      let last : i + 1 ≡ 16 = ground arith in
      rw
        (
          full,
          lt→ltb (offset + 16) (2 ^ 31) (omega arith),
          dump_loop-dump_text vs 0 (set_elem i v ascii) (offset + 16) (omega arith) (omega arith),
        )
        refl
  | inr more ↦
      rw
        (
          more,
          dump_loop-dump_text vs (i + 1) (set_elem i v ascii) offset (ground arith) (omega arith),
        )
        refl
]

abbrev pub byte_texts : List ℕ → List ℕ
byte_texts [] = []
byte_texts (b ∷ bs) = byte_text b ++ byte_texts bs

-- A line: the offset, the bytes, room for those that are missing, the characters.
abbrev pub line_with : ℕ → ℕ → List ℕ → List ℕ
line_with last offset chunk =
    offset_text offset
    ++ byte_texts chunk
    ++ (repeat (4 * (16 - length chunk)) 32 ++ columns last chunk)

abbrev pub dump_line : ℕ → List ℕ → List ℕ
dump_line offset chunk = line_with (if length chunk == 16 then 0x7e else 0x7f) offset chunk

abbrev pub dump_lines : ℕ → List (List ℕ) → List ℕ
dump_lines offset [] = []
dump_lines offset (chunk ∷ chunks) = dump_line offset chunk ++ dump_lines (offset + 16) chunks

byte_texts-append : (xs ys : List ℕ) → byte_texts (xs ++ ys) ≡ byte_texts xs ++ byte_texts ys
byte_texts-append [] ys = refl
byte_texts-append (x ∷ xs) ys =
    ap (λ l. byte_text x ++ l) (byte_texts-append xs ys)
    ∙ sym (append_assoc (byte_text x) (byte_texts xs) (byte_texts ys))

length-set_elem : (i v : ℕ) (xs : List ℕ) → length (set_elem i v xs) ≡ length xs
length-set_elem i v [] = refl
length-set_elem zero v (x ∷ xs) = refl
length-set_elem (suc i) v (x ∷ xs) = omega (arith, length-set_elem i v xs)

take-set_elem :
    (i v : ℕ) (xs : List ℕ) → i < length xs → take (suc i) (set_elem i v xs) ≡ take i xs ++ v ∷ []
take-set_elem i v [] h = ground arith
take-set_elem zero v (x ∷ xs) h = refl
take-set_elem (suc i) v (x ∷ xs) h = ap (λ l. x ∷ l) (take-set_elem i v xs (omega arith))

take_all : (n : ℕ) (xs : List ℕ) → length xs ≡ n → take n xs ≡ xs
take_all zero [] h = refl
take_all (suc n) [] h = refl
take_all zero (x ∷ xs) h = ground arith
take_all (suc n) (x ∷ xs) h = ap (λ l. x ∷ l) (take_all n xs (omega arith))

-- What has been printed of a line that is begun.
abbrev begun : ℕ → List ℕ → List ℕ
begun offset [] = []
begun offset (c ∷ cs) = offset_text offset ++ byte_texts (c ∷ cs)

suc_not_zero : (n : ℕ) → (suc n == 0) ≡ false
suc_not_zero n = ground arith

begun_more :
    (offset v : ℕ) (cur : List ℕ)
    → begun offset (cur ++ v ∷ [])
      ≡ begun offset cur ++ (if length cur == 0 then offset_text offset else []) ++ byte_text v
begun_more offset v [] = ap (λ l. offset_text offset ++ l) (append-nil (byte_text v))
begun_more offset v (c ∷ cs) = rw (suc_not_zero (length cs)) (
    ap (λ l. offset_text offset ++ l)
      (byte_texts-append (c ∷ cs) (v ∷ [])
        ∙ ap (λ l. byte_texts (c ∷ cs) ++ l) (append-nil (byte_text v)))
    ∙ sym (append_assoc (offset_text offset) (byte_texts (c ∷ cs)) (byte_text v))
    ∙ ap (λ l. l ++ byte_text v) (sym (append-nil (offset_text offset ++ byte_texts (c ∷ cs)))))

begun_some :
    (offset v : ℕ) (cur : List ℕ)
    → begun offset (cur ++ v ∷ []) ≡ offset_text offset ++ byte_texts (cur ++ v ∷ [])
begun_some offset v [] = refl
begun_some offset v (c ∷ cs) = refl

-- The end of the text, after the loop.
finish_lem :
    (cur ascii : List ℕ) (offset : ℕ)
    → length cur < 16
    → take (length cur) ascii ≡ cur
    → begun offset cur ++ finish (length cur) ascii ≡ dump_lines offset (group cur [])
finish_lem [] ascii offset h e = refl
finish_lem (c ∷ cs) ascii offset h e =
    let not_full : (length (c ∷ cs) == 16) ≡ false = ground arith in
    let line = ap (λ t. line_with (if t then 0x7e else 0x7f) offset (c ∷ cs)) (sym not_full) in
    rw (suc_not_zero (length cs), e) (line ∙ sym (append-nil (dump_line offset (c ∷ cs))))

full_line :
    (offset : ℕ) (chunk : List ℕ)
    → length chunk ≡ 16
    → dump_line offset chunk ≡ offset_text offset ++ byte_texts chunk ++ columns 0x7e chunk
full_line offset chunk h =
    ap
      (λ n.
        offset_text offset
        ++ byte_texts chunk
        ++ (repeat (4 * (16 - n)) 32 ++ columns (if n == 16 then 0x7e else 0x7f) chunk))
      h

full_begun :
    (offset v : ℕ) (cur : List ℕ)
    → length (cur ++ v ∷ []) ≡ 16
    → begun offset (cur ++ v ∷ []) ++ columns 0x7e (cur ++ v ∷ [])
      ≡ dump_line offset (cur ++ v ∷ [])
full_begun offset v cur h =
    ap (λ l. l ++ columns 0x7e (cur ++ v ∷ [])) (begun_some offset v cur)
    ∙ sym (full_line offset (cur ++ v ∷ []) h)

regroup : (b h t c r : List ℕ) → b ++ (h ++ t ++ c ++ r) ≡ b ++ h ++ t ++ (c ++ r)
regroup b h t c r = simp append_assoc refl

-- One byte: either the line goes on, or it is full and another one begins.
next_byte :
    (v : ℕ) (vs cur ascii : List ℕ) (offset : ℕ)
    → begun offset cur ++ dump_text (v ∷ vs) (length cur) ascii offset
      ≡ begun offset (cur ++ v ∷ [])
        ++ ((if length cur + 1 == 16 then columns 0x7e (set_elem (length cur) v ascii) else [])
            ++ dump_text vs
                (if length cur + 1 == 16 then 0 else length cur + 1)
                (set_elem (length cur) v ascii)
                (if length cur + 1 == 16 then offset + 16 else offset))
unfolding dump_text
next_byte v vs cur ascii offset = rw (begun_more offset v cur) (
    regroup (begun offset cur) (if length cur == 0 then offset_text offset else []) (byte_text v)
      (if length cur + 1 == 16 then columns 0x7e (set_elem (length cur) v ascii) else [])
      (dump_text vs (if length cur + 1 == 16 then 0 else length cur + 1)
        (set_elem (length cur) v ascii) (if length cur + 1 == 16 then offset + 16 else offset)))

dump_text_lem :
    (bytes cur ascii : List ℕ) (offset : ℕ)
    → length cur < 16
    → length ascii ≡ 16
    → take (length cur) ascii ≡ cur
    → begun offset cur ++ dump_text bytes (length cur) ascii offset
      ≡ dump_lines offset (group cur bytes)
unfolding dump_text
dump_text_lem [] cur ascii offset h16 ha e = finish_lem cur ascii offset h16 e
dump_text_lem (v ∷ vs) cur ascii offset h16 ha e =
    let ascii' = set_elem (length cur) v ascii in
    let cur' = cur ++ v ∷ [] in
    let longer : length cur' ≡ length cur + 1 = length-append cur (v ∷ []) in
    let size : length ascii' ≡ 16 = length-set_elem (length cur) v ascii ∙ ha in
    let known : take (suc (length cur)) ascii' ≡ cur' =
      take-set_elem (length cur) v ascii (omega arith) ∙ ap (λ l. l ++ v ∷ []) e in
    next_byte v vs cur ascii offset ∙ elim (Bool-cases (length cur + 1 == 16)) [
      | inl full ↦
          let enough : 16 ≡ suc (length cur) = ground arith in
          let same : ascii' ≡ cur' =
            sym (take_all 16 ascii' size) ∙ ap (λ n. take n ascii') enough ∙ known in
          let line = full_begun offset v cur (longer ∙ ground arith) in
          let rest = dump_text_lem vs [] ascii' (offset + 16) (omega arith) size refl in
          rw full (
            ap (λ l. begun offset cur' ++ (columns 0x7e l ++ dump_text vs 0 ascii' (offset + 16)))
              same
            ∙ sym (
                append_assoc (begun offset cur') (columns 0x7e cur')
                  (dump_text vs 0 ascii' (offset + 16)))
            ∙ ap (λ l. l ++ dump_text vs 0 ascii' (offset + 16)) line
            ∙ ap (λ l. dump_line offset cur' ++ l) rest)
      | inr more ↦
          let one_more : length cur' ≡ suc (length cur) = omega (arith, longer) in
          let filled : take (length cur') ascii' ≡ cur' =
            ap (λ n. take n ascii') one_more ∙ known in
          rw more (
            ap (λ n. begun offset cur' ++ dump_text vs n ascii' offset) (sym longer)
            ∙ dump_text_lem vs cur' ascii' offset (ground (arith, longer)) size filled)
    ]

-- The text of a dump, as lines of sixteen bytes, one for the rest.
pub hexdump_bytes-grouped :
    (bytes : List ℕ)
    → length bytes < 2 ^ 31
    → hexdump_bytes bytes ≡ done (dump_lines 0 (group [] bytes))
unfolding hexdump_bytes
hexdump_bytes-grouped bytes few =
    dump_loop-dump_text bytes 0 (repeat 16 0) 0 (omega arith) (omega arith)
    ∙ ap done (dump_text_lem bytes [] (repeat 16 0) 0 (omega arith) refl refl)
