-- ===== src/Graphics/Slope.antt =====
-- `calc_slope_point` of graphics.rs: the point of a line nearest to an offset.
use wasabi_os.Common.{
  ℕ, ◌-◌, ◌^◌, ltb, leb, ◌==◌, true, false, refl, lt→ltb, ◌+◌, ◌*◌, ◌/◌, ◌%◌, ◌<◌, ◌≤◌, ◌≡◌, ap,
  none, some, done, arith,
}
use native.Mathlib.Nat.{div-add-mod', mod-lt, mul-le-mul, mul_assoc}
use wasabi_os.Graphics.{calc_slope_point}

-- Differences of two coordinates of 31 bits do not overflow.
slope_bound : (da db ia : ℕ) → db ≤ da → ia ≤ da → da < 2 ^ 31 → 2 * db * ia + da < 2 ^ 63
slope_bound da db ia le in_range small =
    let n : ℕ = 2 ^ 31 - 1 in
    let db_le : db ≤ n = omega arith in
    let ia_le : ia ≤ n = omega arith in
    let square : db * ia ≤ n * n = mul-le-mul db_le ia_le in
    let twice : 2 * db * ia ≡ 2 * (db * ia) = mul_assoc 2 db ia in omega arith

pub slope_runs :
    (da db ia : ℕ)
    → db ≤ da
    → 0 < da
    → ia ≤ da
    → da < 2 ^ 31
    → calc_slope_point da db ia ≡ done (some ((2 * db * ia + da) / da / 2))
unfolding calc_slope_point
slope_runs da db ia le pos_da in_range small =
    let fits = slope_bound da db ia le in_range small in
    let flat : ltb da db ≡ false = ground arith in
    let nonzero : (da == 0) ≡ false = ground arith in
    let inside : leb ia da ≡ true = ground arith in
    rw
      (
        flat,
        nonzero,
        inside,
        lt→ltb (2 * db) (2 ^ 63) (omega arith),
        lt→ltb (2 * db * ia) (2 ^ 63) (omega arith),
        lt→ltb (2 * db * ia + da) (2 ^ 63) fits,
      )
      refl

-- For a line that is at least as long as high, and shorter than 2^31, the arithmetic does not overflow,
-- and the height at the offset `ia` is the one nearest to the exact height db * ia / da: it is wrong
-- by at most one half (half rounds up).
pub calc_slope_point_nearest :
    (da db ia : ℕ)
    → db ≤ da
    → 0 < da
    → da < 2 ^ 31
    → ia ≤ da
    → (ib : ℕ) × (calc_slope_point da db ia ≡ done (some ib))
      × (2 * (ib * da) ≤ 2 * (db * ia) + da)
      × (2 * (db * ia) < 2 * (ib * da) + da)
calc_slope_point_nearest da db ia le pos_da small in_range =
    let n : ℕ = 2 * db * ia + da in
    let ib : ℕ = n / da / 2 in
    let q : ℕ = n / da in
    let first : q * da + n % da ≡ n = div-add-mod' n da in
    let rest : n % da < da = mod-lt n pos_da in
    let halves : q ≡ ib * 2 + q % 2 = omega arith in
    let scaled : q * da ≡ (ib * 2 + q % 2) * da = ap (λ (t : ℕ). t * da) halves in
    (ib, slope_runs da db ia le pos_da in_range small, grind arith, grind arith)

-- For a line that is higher than long there is no point: the second branch of `draw_line` calls it so.
pub calc_slope_point_steep : (da db ia : ℕ) → da < db → calc_slope_point da db ia ≡ done none
unfolding calc_slope_point
calc_slope_point_steep da db ia h = ground arith
