-- ===== src/Allocator/Pow2.antt =====
-- `round_up_to_nearest_pow2` of allocator.rs.
use native.Mathlib.Nat.{pow-suc, pow-le-pow_right}
use wasabi_os.Common.{
  ℕ, zero, suc, ◌-◌, ◌*◌, ◌/◌, ◌^◌, ◌≤◌, ◌<◌, ◌≡◌, ◌⊎◌, inl, inr, ap, arith, max, ◌≢◌, ok, err,
  ◌==◌, Bool-cases,
}
use wasabi_os.Allocator.{bit_length, leading_zeros, wrapping_sub, round_up_to_nearest_pow2}

bit_length-le : (w v : ℕ) → bit_length w v ≤ w
unfolding bit_length
bit_length-le zero v = omega arith
bit_length-le (suc w) v = ground (arith, bit_length-le w (v / 2))

lt-two_pow-bit_length : (w v : ℕ) → v < 2 ^ w → v < 2 ^ bit_length w v
unfolding bit_length
lt-two_pow-bit_length zero v h = h
lt-two_pow-bit_length (suc w) v h = elim (Bool-cases (v == 0)) [
  | inl z ↦ rw z (ground arith)
  | inr nz ↦
      rw (nz, pow-suc 2 (bit_length w (v / 2)))
        (omega (arith, lt-two_pow-bit_length w (v / 2) (omega (arith, pow-suc 2 w))))
]

two_pow-bit_length-le : (w v : ℕ) → 2 ^ bit_length w v ≤ max 1 (2 * v)
unfolding bit_length
two_pow-bit_length-le zero v = omega arith
two_pow-bit_length-le (suc w) v = elim (Bool-cases (v == 0)) [
  | inl z ↦ rw z (omega arith)
  | inr nz ↦
      let pos : 0 < v = ground arith in
      rw (nz, pow-suc 2 (bit_length w (v / 2))) (omega (arith, two_pow-bit_length-le w (v / 2)))
]

-- The shift distance of `round_up_to_nearest_pow2`.
abbrev shift : ℕ → ℕ
shift v = 64 - leading_zeros (wrapping_sub v 1)

shift_lem : (v : ℕ) → shift v ≡ bit_length 64 (wrapping_sub v 1)
unfolding leading_zeros
shift_lem v = omega (arith, bit_length-le 64 (wrapping_sub v 1))

shift_bounds :
    (v : ℕ)
    → 0 < v
    → v < 2 ^ 64
    → (v ≤ 2 ^ shift v) × (2 ^ shift v ≤ max 1 (2 * (v - 1))) × (shift v ≤ 64)
shift_bounds v pos lt =
    let e : wrapping_sub v 1 ≡ v - 1 = omega arith in
    rw (shift_lem v, e)
      (
        omega (arith, lt-two_pow-bit_length 64 (v - 1) (omega arith)),
        two_pow-bit_length-le 64 (v - 1),
        bit_length-le 64 (v - 1),
      )

below_64 : (v : ℕ) → shift v ≤ 64 → 2 ^ shift v < 2 ^ 64 → shift v < 64
below_64 v le lt =
    let ne : shift v ≢ 64 = λ e. absurd (omega (arith, ap (λ (t : ℕ). 2 ^ t) e)) in omega arith

shift-zero : (v : ℕ) → v ≡ 0 → 64 ≤ shift v
unfolding leading_zeros
shift-zero v z = rw z (omega arith)

shift-big : (v : ℕ) → v < 2 ^ 64 → 2 ^ 63 < v → 64 ≤ shift v
shift-big v lt big =
    let two_pos : 0 < 2 = omega arith in
    let b = shift_bounds v (omega arith) lt in
    let small : ¬ (shift v ≤ 63) = λ s. absurd (omega (arith, b.0, pow-le-pow_right two_pos s)) in
    omega arith

-- For 1 to 2^63 the result is the least power of two that is not below the argument.
pub round_up_to_nearest_pow2_lem :
    (v : ℕ)
    → 0 < v
    → v ≤ 2 ^ 63
    → (k : ℕ) × (round_up_to_nearest_pow2 v ≡ ok (2 ^ k)) × (k < 64) × (v ≤ 2 ^ k) × (2 ^ k < 2 * v)
unfolding round_up_to_nearest_pow2
round_up_to_nearest_pow2_lem v pos le =
    let b = shift_bounds v pos (omega arith) in
    let small : shift v < 64 = below_64 v b.2 (omega (arith, b.1)) in
    (shift v, ground arith, small, b.0, omega (arith, b.1))

-- For 0, and above 2^63, where no `usize` power of two is large enough, the answer is an error.
pub round_up_to_nearest_pow2_err :
    (v : ℕ) → v < 2 ^ 64 → (v ≡ 0) ⊎ (2 ^ 63 < v) → round_up_to_nearest_pow2 v ≡ err "Out of range"
unfolding round_up_to_nearest_pow2
round_up_to_nearest_pow2_err v lt h =
    let b : 64 ≤ shift v = elim h [ inl z ↦ shift-zero v z | inr big ↦ shift-big v lt big ] in
    ground arith
