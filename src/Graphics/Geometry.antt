-- ===== src/Graphics/Geometry.antt =====
-- The columns and heights of a line of `draw_line` (graphics.rs), as natural numbers.
use wasabi_os.Common.{
  done, ◌^◌, ℕ, ◌+◌, ◌-◌, ◌*◌, ◌/◌, ◌%◌, ◌<◌, ◌≤◌, ◌≡◌, inl, inr, Bool, Bool-cases, false, ◌&&◌,
  some, arith, ltb, leb, ◌==◌, if◌then◌else◌, pos, ◌+ℤ◌, ◌-ℤ◌, ◌*ℤ◌, abs, signum,
}
use native.Mathlib.Nat.{div-add-mod'}
use wasabi_os.Graphics.{calc_slope_point}
use wasabi_os.Graphics.Slope.{slope_runs}

abbrev pub distance : ℕ → ℕ → ℕ
distance a b = (a - b) + (b - a)

-- t steps from a in the direction of b.
abbrev pub toward : ℕ → ℕ → ℕ → ℕ
toward a b t = if leb a b then a + t else a - t

-- The height of the line at the offset t: the exact one, rounded.
abbrev pub height_at : ℕ → ℕ → ℕ → ℕ
height_at dx dy t = (2 * dy * t + dx) / dx / 2

-- a is from x0 to before x1.
abbrev pub between : ℕ → ℕ → ℕ → Bool
between x0 x1 a = if leb x0 x1 then leb x0 a && ltb a x1 else ltb x1 a && leb a x0

-- The pixel (a, c) is on the line: its column is one from the first point's to before the last point's.
abbrev pub line_pixel : ℕ → ℕ → ℕ → ℕ → ℕ → ℕ → Bool
line_pixel x0 y0 x1 y1 a c =
    between x0 x1 a
    && c == toward y0 y1 (height_at (distance x0 x1) (distance y0 y1) (distance a x0))

pub coordinate :
    (a b t : ℕ) → t ≤ distance a b → pos a +ℤ pos t *ℤ signum (pos b -ℤ pos a) ≡ pos (toward a b t)
unfolding ◌+ℤ◌ ◌-ℤ◌ ◌*ℤ◌ signum
coordinate a b t h = elim (Bool-cases (ltb a b)) [
  | inl up ↦ ground arith
  | inr down ↦ elim (Bool-cases (a == b)) [ inl same ↦ ground arith | inr other ↦ ground arith ]
]

pub abs-distance : (a b : ℕ) → abs (pos b -ℤ pos a) ≡ distance a b
unfolding abs ◌-ℤ◌
abs-distance a b = ground arith

pub toward_bound : (a b t w : ℕ) → a < w → b < w → t ≤ distance a b → toward a b t < w
toward_bound a b t w ha hb h = ground arith

pub slope_point :
    (dx dy t : ℕ)
    → dy ≤ dx
    → t < dx
    → dx < 2 ^ 31
    → calc_slope_point dx dy t ≡ done (some (height_at dx dy t))
slope_point dx dy t le lt small = slope_runs dx dy t le (omega arith) (omega arith) small

quotient_le : (q k n : ℕ) → 0 < k → q * k ≤ n * k → q ≤ n
quotient_le q k n h le = grind arith

pub height_at_bound : (dx dy t : ℕ) → t < dx → height_at dx dy t ≤ dy
height_at_bound dx dy t lt =
    let n : ℕ = 2 * dy * t + dx in
    let q : ℕ = n / dx in
    let split : q * dx + n % dx ≡ n = div-add-mod' n dx in
    let product : dy * t ≤ dy * dx = grind arith in
    let small : q ≤ 2 * dy + 1 = quotient_le q dx (2 * dy + 1) (omega arith) (grind arith) in
    omega arith

pub between_at :
    (x0 x1 a t : ℕ)
    → distance a x0 ≡ t
    → t < distance x0 x1
    → between x0 x1 a ≡ (a == toward x0 x1 t)
between_at x0 x1 a t e lt = ground arith

pub not_at :
    (x0 x1 a t : ℕ)
    → (distance a x0 == t) ≡ false
    → t < distance x0 x1
    → (a == toward x0 x1 t) ≡ false
not_at x0 x1 a t e lt = ground arith

pub beyond :
    (x0 x1 a t : ℕ) → t ≡ distance x0 x1 → (leb t (distance a x0) && between x0 x1 a) ≡ false
beyond x0 x1 a t e = ground arith
