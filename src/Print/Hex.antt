-- ===== src/Print/Hex.antt =====
-- The hexadecimal numbers that print.rs prints, digit by digit.
use wasabi_os.Common.{
  ==_iff, ℕ, zero, suc, ◌+◌, ◌-◌, ◌/◌, ◌%◌, ◌^◌, ◌<◌, ◌≡◌, ◌∙◌, sym, refl, ap, inl, inr, Bool,
  Bool-cases, true, ◌&&◌, List, [], ◌∷◌, ◌++◌, ◌==◌, ltb, length, arith, lt→ltb,
}
use mathlib.Core.List.{append_assoc, append-nil}
use native.Mathlib.Nat.{pow-suc}
use wasabi_os.Print.{repeat, hex, hex_digit, hex_digits}

-- The digits `0` to `9` and `A` to `F`.
abbrev pub digits : List ℕ
digits = 48 ∷ 49 ∷ 50 ∷ 51 ∷ 52 ∷ 53 ∷ 54 ∷ 55 ∷ 56 ∷ 57 ∷ 65 ∷ 66 ∷ 67 ∷ 68 ∷ 69 ∷ 70 ∷ []

abbrev pub elem_at : ℕ → List ℕ → ℕ
elem_at i [] = 0
elem_at zero (x ∷ xs) = x
elem_at (suc i) (x ∷ xs) = elem_at i xs

abbrev pub digit : ℕ → ℕ
digit d = elem_at d digits

-- The number in w hexadecimal digits.
abbrev pub fixed : ℕ → ℕ → List ℕ
fixed zero n = []
fixed (suc w) n = fixed w (n / 16) ++ digit (n % 16) ∷ []

-- The table has the digits from k on.
abbrev same_digits : ℕ → List ℕ → Bool
same_digits k [] = true
same_digits k (x ∷ xs) = hex_digit k == x && same_digits (k + 1) xs

same_digit :
    (xs : List ℕ) (k i : ℕ)
    → same_digits k xs ≡ true
    → i < length xs
    → hex_digit (k + i) ≡ elem_at i xs
same_digit [] k i same h = absurd (omega arith)
same_digit (x ∷ xs) k zero same h =
    let first : (hex_digit k == x) ≡ true = ground arith in
    let plus : k + 0 ≡ k = omega arith in ap hex_digit plus ∙ (==_iff (hex_digit k) x).0 first
same_digit (x ∷ xs) k (suc i) same h =
    let rest : same_digits (k + 1) xs ≡ true = ground arith in
    let plus : k + suc i ≡ k + 1 + i = omega arith in
    ap hex_digit plus ∙ same_digit xs (k + 1) i rest (omega arith)

digit_lem : (d : ℕ) → d < 16 → hex_digit d ≡ digit d
digit_lem d h =
    let plus : d ≡ 0 + d = omega arith in ap hex_digit plus ∙ same_digit digits 0 d refl h

repeat_snoc : (n c : ℕ) → repeat n c ++ c ∷ [] ≡ c ∷ repeat n c
repeat_snoc zero c = refl
repeat_snoc (suc n) c = ap (λ l. c ∷ l) (repeat_snoc n c)

fixed-zero : (w n : ℕ) → n ≡ 0 → fixed w n ≡ repeat w 48
fixed-zero zero n z = refl
fixed-zero (suc w) n z = rw (z, fixed-zero w (0 / 16) refl) (repeat_snoc w 48)

length-hex_digits :
    (fuel n : ℕ) (acc : List ℕ)
    → length (hex_digits fuel n acc) ≡ length (hex_digits fuel n []) + length acc
length-hex_digits zero n acc = omega arith
length-hex_digits (suc fuel) n acc = elim (Bool-cases (ltb n 16)) [
  | inl small ↦ rw small (omega arith)
  | inr big ↦ rw big (
      omega (
        arith,
        length-hex_digits fuel (n / 16) (hex_digit (n % 16) ∷ acc),
        length-hex_digits fuel (n / 16) (hex_digit (n % 16) ∷ []),
      ))
]

-- The number in digits, with zeros in front.
padded :
    (w fuel n : ℕ) (acc : List ℕ)
    → n < 16 ^ suc w
    → w < fuel
    → repeat (suc w - length (hex_digits fuel n [])) 48 ++ hex_digits fuel n acc
      ≡ fixed (suc w) n ++ acc
padded w zero n acc h f = absurd (omega arith)
padded zero (suc fuel) n acc h f =
    let below : n < 16 = omega (arith, pow-suc 16 0) in
    let low : n % 16 ≡ n = omega arith in rw (lt→ltb n 16 below, low, digit_lem n below) refl
padded (suc w) (suc fuel) n acc h f = elim (Bool-cases (ltb n 16)) [
  | inl small ↦
      let below : n < 16 = ground arith in
      let high : n / 16 ≡ 0 = omega arith in
      let low : n % 16 ≡ n = omega arith in
      let one_less : suc (suc w) - 1 ≡ suc w = omega arith in
      let zeros : fixed (suc w) (n / 16) ≡ repeat (suc w) 48 = fixed-zero (suc w) (n / 16) high in
      rw (small, low, digit_lem n below)
        (ap (λ k. repeat k 48 ++ digit n ∷ acc) one_less
          ∙ ap (λ l. l ++ digit n ∷ acc) (sym zeros)
          ∙ sym (append_assoc (fixed (suc w) (n / 16)) (digit n ∷ []) acc))
  | inr big ↦
      let d : ℕ = hex_digit (n % 16) in
      let longer : length (hex_digits fuel (n / 16) (d ∷ []))
          ≡ suc (length (hex_digits fuel (n / 16) [])) =
        omega (arith, length-hex_digits fuel (n / 16) (d ∷ [])) in
      let inner =
        padded w fuel (n / 16) (d ∷ acc) (omega (arith, pow-suc 16 (suc w))) (omega arith) in
      rw (big, longer)
        (ap (λ k. repeat k 48 ++ hex_digits fuel (n / 16) (d ∷ acc)) (omega arith)
          ∙ inner
          ∙ ap (λ c. fixed (suc w) (n / 16) ++ c ∷ acc) (digit_lem (n % 16) (omega arith))
          ∙ sym (append_assoc (fixed (suc w) (n / 16)) (digit (n % 16) ∷ []) acc))
]

pub hex-fixed : (w n : ℕ) → n < 16 ^ suc w → w < 16 → hex (suc w) n ≡ fixed (suc w) n
unfolding hex
hex-fixed w n h small = padded w 16 n [] h small ∙ append-nil (fixed (suc w) n)
