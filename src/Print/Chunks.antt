-- ===== src/Print/Chunks.antt =====
-- The lines of a dump of print.rs: groups of sixteen bytes.
use wasabi_os.Common.{
  ℕ, ◌+◌, ◌≤◌, ◌<◌, ◌≡◌, ◌∙◌, refl, ap, inl, inr, Bool-cases, List, [], ◌∷◌, ◌++◌, ◌==◌,
  if◌then◌else◌, length, length-append, arith,
}
use mathlib.Core.List.{append_assoc}

abbrev last_line : List ℕ → List (List ℕ)
last_line [] = []
last_line (c ∷ cur) = (c ∷ cur) ∷ []

-- The bytes of a line that has been begun, and those to come, in lines.
abbrev pub group : List ℕ → List ℕ → List (List ℕ)
group cur [] = last_line cur
group cur (b ∷ bs) =
    let full = length cur + 1 == 16 in
    let rest = group (if full then [] else cur ++ b ∷ []) bs in
    if full then (cur ++ b ∷ []) ∷ rest else rest

abbrev pub concat : List (List ℕ) → List ℕ
concat [] = []
concat (line ∷ lines) = line ++ concat lines

-- Every line but the last has sixteen bytes, the last one from one to sixteen.
abbrev pub Chunked : List (List ℕ) → Type 0
Chunked [] = Unit
Chunked (line ∷ []) = (1 ≤ length line) × (length line ≤ 16)
Chunked (line ∷ next ∷ lines) = (length line ≡ 16) × Chunked (next ∷ lines)

pub concat-group : (cur bytes : List ℕ) → concat (group cur bytes) ≡ cur ++ bytes
concat-group [] [] = refl
concat-group (c ∷ cur) [] = refl
concat-group cur (b ∷ bytes) = elim (Bool-cases (length cur + 1 == 16)) [
  | inl full ↦
      rw full
        (ap (λ l. (cur ++ b ∷ []) ++ l) (concat-group [] bytes) ∙ append_assoc cur (b ∷ []) bytes)
  | inr more ↦ rw more (concat-group (cur ++ b ∷ []) bytes ∙ append_assoc cur (b ∷ []) bytes)
]

full-Chunked :
    (line : List ℕ) (lines : List (List ℕ))
    → length line ≡ 16
    → Chunked lines
    → Chunked (line ∷ lines)
full-Chunked line [] h c = (omega arith, omega arith)
full-Chunked line (next ∷ lines) h c = (h, c)

pub group-Chunked : (cur bytes : List ℕ) → length cur < 16 → Chunked (group cur bytes)
group-Chunked [] [] h = tt
group-Chunked (c ∷ cur) [] h = (omega arith, omega arith)
group-Chunked cur (b ∷ bytes) h =
    let longer = length-append cur (b ∷ []) in
    elim (Bool-cases (length cur + 1 == 16)) [
      | inl full ↦ rw full (
          full-Chunked (cur ++ b ∷ []) (group [] bytes) (ground (arith, longer))
            (group-Chunked [] bytes (omega arith)))
      | inr more ↦ rw more (group-Chunked (cur ++ b ∷ []) bytes (ground (arith, longer)))
    ]
