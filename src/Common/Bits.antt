-- ===== src/Common/Bits.antt =====
-- Bit operations at variables: masks of contiguous bits, and the union of disjoint fields.
use Prim.Native.Nat.{
  ℕ, zero, suc, ◌+◌, ◌-◌, ◌*◌, ◌/◌, ◌%◌, ◌^◌, ◌≤◌, ◌<◌, min, max, bit_and, bit_or, digits, bitwise,
  bit_and-bitwise, bit_or-bitwise,
}
use mathlib.Core.Path.{◌≡◌, refl, sym, ap, ◌∙◌}
use native.Mathlib.Nat.{
  pow-suc, pow-le-pow_right, mul-mod_left, mod-lt, div-add-mod', mod-eq_of_lt, div-lt_iff_lt-mul,
  div-div-eq-div-mul, mul_comm,
}
use native.Mathlib.Decide.{dec_le}
use native.Mathlib.Omega.{arith}

-- The digit recursion behind the bit operations, for any base case and any operation on two bits.
module _ (base : ℕ → ℕ) (op : ℕ → ℕ → ℕ) where
  -- Rounds beyond the left operand change nothing.
  digits_spare :
      (spare rounds : ℕ) {x : ℕ} (y : ℕ)
      → x ≤ spare
      → x ≤ rounds
      → digits base op spare x y ≡ digits base op rounds x y
  digits_spare zero zero y low high = refl
  digits_spare zero (suc rounds) {x = zero} y low high = refl
  digits_spare (suc spare) zero {x = zero} y low high = refl
  digits_spare (suc spare) (suc rounds) {x = zero} y low high = refl
  digits_spare zero (suc rounds) {x = suc x} y low high = elim low [ ]
  digits_spare (suc spare) zero {x = suc x} y low high = elim high [ ]
  digits_spare (suc spare) (suc rounds) {x = suc x} y low high =
      let half = digits_spare spare rounds {x = suc x / 2} (y / 2) (omega arith) (omega arith) in
      omega arith

  -- The lowest bit, and the operation on the rest.
  bitwise-suc :
      (x y : ℕ)
      → bitwise base op (suc x) y ≡ bitwise base op (suc x / 2) (y / 2) * 2 + op (suc x % 2) (y % 2)
  bitwise-suc x y =
      let rest = digits_spare x (suc x / 2) {x = suc x / 2} (y / 2) (omega arith) (omega arith) in
      omega arith

pub zero-bit_and : (y : ℕ) → bit_and 0 y ≡ 0
zero-bit_and y = bit_and-bitwise 0 y

pub zero-bit_or : (y : ℕ) → bit_or 0 y ≡ y
zero-bit_or y = bit_or-bitwise 0 y

pub bit_and_step : (x y : ℕ) → bit_and x y ≡ bit_and (x / 2) (y / 2) * 2 + min (x % 2) (y % 2)
bit_and_step zero y = rw (zero-bit_and y, zero-bit_and (y / 2)) (omega arith)
bit_and_step (suc x) y =
    rw (bit_and-bitwise (suc x) y, bit_and-bitwise (suc x / 2) (y / 2))
      (bitwise-suc (λ _. 0) min x y)

pub bit_or_step : (x y : ℕ) → bit_or x y ≡ bit_or (x / 2) (y / 2) * 2 + max (x % 2) (y % 2)
bit_or_step zero y = rw (zero-bit_or y, zero-bit_or (y / 2)) (omega arith)
bit_or_step (suc x) y =
    rw (bit_or-bitwise (suc x) y, bit_or-bitwise (suc x / 2) (y / 2)) (bitwise-suc (λ b. b) max x y)

-- A number below the modulus is its own remainder, after any multiple of the modulus.
pub mod_unique : (q m r : ℕ) → r < m → (q * m + r) % m ≡ r
mod_unique q m r h = grind arith

pub div_unique : (q m r : ℕ) → r < m → (q * m + r) / m ≡ q
div_unique q m r h = grind arith

pub two_pow_pos : (k : ℕ) → 0 < 2 ^ k
two_pow_pos zero = omega arith
two_pow_pos (suc k) = omega (arith, pow-suc 2 k, two_pow_pos k)

bit_and-zero_below : (w x : ℕ) → x < w → bit_and x 0 ≡ 0
bit_and-zero_below zero x h = elim h [ ]
bit_and-zero_below (suc w) zero h = zero-bit_and 0
bit_and-zero_below (suc w) (suc x) h =
    rw (bit_and_step (suc x) 0) (omega (arith, bit_and-zero_below w (suc x / 2) (omega arith)))

pub bit_and-zero : (x : ℕ) → bit_and x 0 ≡ 0
bit_and-zero x = bit_and-zero_below (suc x) x (omega arith)

mod-two_pow-suc : (x d : ℕ) → x % 2 ^ suc d ≡ x / 2 % 2 ^ d * 2 + x % 2
mod-two_pow-suc x d =
    let e : x ≡ x / 2 / 2 ^ d * 2 ^ suc d + (x / 2 % 2 ^ d * 2 + x % 2) =
      omega
        (arith, ap (λ (t : ℕ). x / 2 / 2 ^ d * t) (pow-suc 2 d), div-add-mod' (x / 2) (2 ^ d)) in
    ap (λ (t : ℕ). t % 2 ^ suc d) e
    ∙ mod_unique (x / 2 / 2 ^ d) (2 ^ suc d) (x / 2 % 2 ^ d * 2 + x % 2)
        (omega (arith, pow-suc 2 d, mod-lt (x / 2) (two_pow_pos d)))

-- `x & ((1 << d) - 1)` keeps the low d bits.
pub bit_and-ones : (d x : ℕ) → bit_and x (2 ^ d - 1) ≡ x % 2 ^ d
bit_and-ones zero x = omega (arith, bit_and-zero x)
bit_and-ones (suc d) x =
    let e : (2 ^ suc d - 1) / 2 ≡ 2 ^ d - 1 = omega (arith, pow-suc 2 d, two_pow_pos d) in
    let f : (2 ^ suc d - 1) % 2 ≡ 1 = omega (arith, pow-suc 2 d, two_pow_pos d) in
    rw (bit_and_step x (2 ^ suc d - 1), e, f, bit_and-ones d (x / 2), mod-two_pow-suc x d)
      (omega arith)

-- `x & (((1 << d) - 1) << k)` keeps the bits k to k + d - 1, in their places.
pub bit_and-mask : (k d x : ℕ) → bit_and x ((2 ^ d - 1) * 2 ^ k) ≡ x / 2 ^ k % 2 ^ d * 2 ^ k
bit_and-mask zero d x =
    let e : (2 ^ d - 1) * 2 ^ 0 ≡ 2 ^ d - 1 = omega arith in
    let f : x / 2 ^ 0 ≡ x = omega arith in rw (e, f, bit_and-ones d x) (omega arith)
bit_and-mask (suc k) d x =
    let m : ℕ = (2 ^ d - 1) * 2 ^ k in
    let e : (2 ^ d - 1) * 2 ^ suc k ≡ m * 2 =
      omega (arith, ap (λ (t : ℕ). (2 ^ d - 1) * t) (pow-suc 2 k)) in
    let f : x / 2 ^ suc k ≡ x / 2 / 2 ^ k =
      ap (λ (t : ℕ). x / t) (pow-suc 2 k ∙ mul_comm (2 ^ k) 2)
      ∙ sym (div-div-eq-div-mul x 2 (2 ^ k)) in
    let g : m * 2 / 2 ≡ m = omega arith in
    rw (e, f, bit_and_step x (m * 2), g, bit_and-mask k d (x / 2))
      (omega (arith, ap (λ (t : ℕ). x / 2 / 2 ^ k % 2 ^ d * t) (pow-suc 2 k)))

bit_or-zero_below : (w x : ℕ) → x < w → bit_or x 0 ≡ x
bit_or-zero_below zero x h = elim h [ ]
bit_or-zero_below (suc w) zero h = zero-bit_or 0
bit_or-zero_below (suc w) (suc x) h =
    rw (bit_or_step (suc x) 0) (omega (arith, bit_or-zero_below w (suc x / 2) (omega arith)))

pub bit_or-zero : (x : ℕ) → bit_or x 0 ≡ x
bit_or-zero x = bit_or-zero_below (suc x) x (omega arith)

-- Fields that do not overlap are joined by `|` as by `+`.
pub bit_or-disjoint : (k a b : ℕ) → b < 2 ^ k → bit_or (a * 2 ^ k) b ≡ a * 2 ^ k + b
bit_or-disjoint zero a b h =
    let e : b ≡ 0 = omega arith in rw (e, bit_or-zero (a * 2 ^ 0)) (omega arith)
bit_or-disjoint (suc k) a b h =
    let m : ℕ = a * 2 ^ k in
    let e : a * 2 ^ suc k ≡ m * 2 = omega (arith, ap (λ (t : ℕ). a * t) (pow-suc 2 k)) in
    let g : m * 2 / 2 ≡ m = omega arith in
    rw (e, bit_or_step (m * 2) b, g, bit_or-disjoint k a (b / 2) (omega (arith, pow-suc 2 k)))
      (omega arith)

bit_and_assoc_below : (w x y z : ℕ) → x < w → bit_and (bit_and x y) z ≡ bit_and x (bit_and y z)
bit_and_assoc_below zero x y z h = elim h [ ]
bit_and_assoc_below (suc w) zero y z h =
    rw (zero-bit_and y, zero-bit_and z, zero-bit_and (bit_and y z)) refl
bit_and_assoc_below (suc w) (suc x) y z h =
    let e1 = bit_and_step (suc x) y in
    let e2 = bit_and_step y z in
    let left : bit_and (suc x) y / 2 ≡ bit_and (suc x / 2) (y / 2) = omega arith in
    let right : bit_and y z / 2 ≡ bit_and (y / 2) (z / 2) = omega arith in
    rw
      (
        bit_and_step (bit_and (suc x) y) z,
        bit_and_step (suc x) (bit_and y z),
        left,
        right,
        bit_and_assoc_below w (suc x / 2) (y / 2) (z / 2) (omega arith),
      )
      (omega arith)

pub bit_and_assoc : (x y z : ℕ) → bit_and (bit_and x y) z ≡ bit_and x (bit_and y z)
bit_and_assoc x y z = bit_and_assoc_below (suc x) x y z (omega arith)

bit_or_comm_below : (w x y : ℕ) → x + y < w → bit_or x y ≡ bit_or y x
bit_or_comm_below zero x y h = elim h [ ]
bit_or_comm_below (suc w) zero y h = rw (zero-bit_or y, bit_or-zero y) refl
bit_or_comm_below (suc w) (suc x) y h =
    rw
      (
        bit_or_step (suc x) y,
        bit_or_step y (suc x),
        bit_or_comm_below w (suc x / 2) (y / 2) (omega arith),
      )
      (omega arith)

pub bit_or_comm : (x y : ℕ) → bit_or x y ≡ bit_or y x
bit_or_comm x y = bit_or_comm_below (suc (x + y)) x y (omega arith)

pub two_pow-add : (a b : ℕ) → 2 ^ (a + b) ≡ 2 ^ a * 2 ^ b
two_pow-add zero b = let e : 0 + b ≡ b = omega arith in rw e (omega arith)
two_pow-add (suc a) b =
    let e : suc a + b ≡ suc (a + b) = omega arith in
    rw (e, pow-suc 2 (a + b), pow-suc 2 a, two_pow-add a b) (omega arith)

-- `x & !((1 << k) - 1)` on 64 bits clears the low k bits.
pub bit_and-align_down :
    (k x : ℕ) → k ≤ 64 → x < 2 ^ 64 → bit_and x (2 ^ 64 - 1 - (2 ^ k - 1)) ≡ x / 2 ^ k * 2 ^ k
bit_and-align_down k x h lt =
    let d : ℕ = 64 - k in
    let e : d + k ≡ 64 = omega arith in
    let p : 2 ^ 64 ≡ 2 ^ d * 2 ^ k = sym (ap (λ (t : ℕ). 2 ^ t) e) ∙ two_pow-add d k in
    let m : 2 ^ 64 - 1 - (2 ^ k - 1) ≡ (2 ^ d - 1) * 2 ^ k =
      let t : 2 ^ d ≡ 2 ^ d - 1 + 1 = omega (arith, two_pow_pos d) in
      omega (arith, p, ap (λ (u : ℕ). u * 2 ^ k) t, two_pow_pos k) in
    let q : x / 2 ^ k < 2 ^ d = (div-lt_iff_lt-mul (two_pow_pos k)).1 (omega (arith, p)) in
    rw (m, bit_and-mask k d x, mod-eq_of_lt q) refl

-- Rounding down to a multiple of 2^k, where 2^j divides 2^k.
pub align_down-mod : (j k x : ℕ) → j ≤ k → x / 2 ^ k * 2 ^ k % 2 ^ j ≡ 0
align_down-mod j k x h =
    let e : 2 ^ k ≡ 2 ^ (k - j) * 2 ^ j =
      let f : k - j + j ≡ k = omega arith in
      sym (ap (λ (t : ℕ). 2 ^ t) f) ∙ two_pow-add (k - j) j in
    let m : x / 2 ^ k * 2 ^ k ≡ x / 2 ^ k * 2 ^ (k - j) * 2 ^ j =
      omega (arith, ap (λ (t : ℕ). x / 2 ^ k * t) e) in
    ap (λ (t : ℕ). t % 2 ^ j) m ∙ mul-mod_left (x / 2 ^ k * 2 ^ (k - j)) (2 ^ j)

pub max-two_pow : (j k : ℕ) → max (2 ^ j) (2 ^ k) ≡ 2 ^ max j k
max-two_pow j k =
    let two_pos : 0 < 2 = omega arith in
    elim (dec_le j k) [
      | yes p ↦
          let e : max j k ≡ k = omega arith in rw e (omega (arith, pow-le-pow_right two_pos p))
      | no p ↦
          let e : max j k ≡ j = omega arith in
          let q : k ≤ j = omega arith in rw e (omega (arith, pow-le-pow_right two_pos q))
    ]

pub two_pow_mono : (a b : ℕ) → a ≤ b → 2 ^ a ≤ 2 ^ b
two_pow_mono a b h = let two_pos : 0 < 2 = omega arith in pow-le-pow_right two_pos h

pub lt_of_two_pow-lt : (a b : ℕ) → 2 ^ a < 2 ^ b → a < b
lt_of_two_pow-lt a b h = elim (dec_le b a) [
  | yes p ↦ absurd (omega (arith, two_pow_mono b a p))
  | no p ↦ omega arith
]
