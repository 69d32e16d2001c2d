-- ===== src/Graphics/Text/Lines.antt =====
-- The lines of `draw_test_pattern` (graphics.rs): their arithmetic does not overflow, on any picture.
use wasabi_os.Common.{
  ℕ, zero, suc, ◌+◌, ◌<◌, ◌≤◌, ◌≡◌, ◌∙◌, ◌^◌, refl, ap, inl, inr, Bool, Bool-cases, true, false,
  List, [], ◌∷◌, Result, ok, err, Outcome, done, ◌>>=◌, arith, if◌then◌else◌, All, leb, ℤ, pos,
  ◌+ℤ◌,
}
use wasabi_os.Graphics.{Bitmap, LineSpec, line_spec, and_then, flat_loop, steep_loop, draw_line}
use wasabi_os.Graphics.Slope.{slope_runs}
use wasabi_os.Graphics.Geometry.{distance, abs-distance}
use wasabi_os.Graphics.Line.{steep_loop_blank}
use wasabi_os.Graphics.Text.{ignored, points, draw_lines_from, draw_lines}

-- Whatever a step draws, the rest of the loop is reached or left out.
and_then_ends :
    (r : Result Bitmap) (f : Bitmap → Outcome (Result Bitmap))
    → ((b : Bitmap) → (s : Result Bitmap) × (f b ≡ done s))
    → (s : Result Bitmap) × (and_then (done r) f ≡ done s)
and_then_ends (ok b) f ends = ends b
and_then_ends (err e) f ends = (err e, refl)

flat_loop_ends :
    (n from : ℕ) (l : LineSpec) (color : ℕ) (b : Bitmap)
    → l.dy ≤ l.dx
    → l.dx < 2 ^ 31
    → n + from ≤ l.dx
    → (r : Result Bitmap) × (flat_loop n from l color b ≡ done r)
unfolding flat_loop
flat_loop_ends zero from l color b flat small inside = (ok b, refl)
flat_loop_ends (suc n) from l color b flat small inside =
    rw (slope_runs l.dx l.dy from flat (omega arith) (omega arith) small) (
      and_then_ends _ (flat_loop n (from + 1) l color)
        (λ b'. flat_loop_ends n (from + 1) l color b' flat small (omega arith)))

-- The program goes on.
abbrev pub Ends : {A : Type 0} → Outcome A → Type 0
Ends {A} o = (r : A) × (o ≡ done r)

if-Ends : {A : Type 0} (t : Bool) (x y : Outcome A) → Ends x → Ends y → Ends (if t then x else y)
if-Ends true x y ex ey = ex
if-Ends false x y ex ey = ey

loops_end :
    (l : LineSpec) (color : ℕ) (b : Bitmap)
    → l.dx < 2 ^ 31
    → Ends (if leb l.dy l.dx then flat_loop l.dx 0 l color b else steep_loop l.dy 0 l color b)
loops_end l color b near = elim (Bool-cases (leb l.dy l.dx)) [
  | inl flat ↦ rw flat (flat_loop_ends l.dx 0 l color b (ground arith) near (omega arith))
  | inr steep ↦ rw steep (ok b, steep_loop_blank l.dy 0 l color b (ground arith))
]

line_near :
    (x0 y0 x1 y1 : ℕ)
    → distance x0 x1 < 2 ^ 31
    → (line_spec (pos x0) (pos y0) (pos x1) (pos y1)).dx < 2 ^ 31
unfolding line_spec
line_near x0 y0 x1 y1 near = rw (abs-distance x0 x1) near

-- A line that is shorter than 2^31 in its columns ends without a panic.
draw_line-Ends :
    (b : Bitmap) (color x0 y0 x1 y1 : ℕ)
    → distance x0 x1 < 2 ^ 31
    → Ends (draw_line b color (pos x0) (pos y0) (pos x1) (pos y1))
unfolding draw_line
draw_line-Ends b color x0 y0 x1 y1 near =
    if-Ends _ (done (err "Out of Range")) _ (_, refl)
      (loops_end (line_spec (pos x0) (pos y0) (pos x1) (pos y1)) color b
        (line_near x0 y0 x1 y1 near))

-- A point of the pattern.
abbrev IsNear : ℤ × ℤ → Type 0
IsNear q = (x y : ℕ) × (q ≡ (pos x, pos y)) × (x ≤ 128)

ignored-Ends : (o : Outcome (Result Bitmap)) (b : Bitmap) → Ends o → Ends (ignored o b)
ignored-Ends o b (ok b', e) = (b', ap (λ r. ignored r b) e)
ignored-Ends o b (err x, e) = (b, ap (λ r. ignored r b) e)

bind-Ends :
    (o : Outcome Bitmap) (f : Bitmap → Outcome Bitmap)
    → Ends o
    → ((b : Bitmap) → Ends (f b))
    → Ends (o >>= f)
bind-Ends o f (b, e) later = let (r, e') = later b in (r, ap (λ o'. o' >>= f) e ∙ e')

right_by : (l x : ℕ) → pos l +ℤ pos x ≡ pos (l + x)
unfolding ◌+ℤ◌
right_by l x = ground arith

near_line :
    (l : ℕ) (p q : ℤ × ℤ) (b : Bitmap)
    → IsNear p
    → IsNear q
    → Ends (draw_line b 0xffffff (pos l +ℤ p.0) p.1 (pos l +ℤ q.0) q.1)
near_line l p q b (x0, y0, at_p, px) (x1, y1, at_q, qx) =
    rw (at_p, at_q, right_by l x0, right_by l x1)
      (draw_line-Ends b 0xffffff (l + x0) y0 (l + x1) y1 (omega arith))

draw_lines_from-Ends :
    (p : ℤ × ℤ) (qs : List (ℤ × ℤ)) (l : ℕ) (b : Bitmap)
    → IsNear p
    → All IsNear qs
    → Ends (draw_lines_from p qs (pos l) b)
unfolding draw_lines_from
draw_lines_from-Ends p [] l b near all = (b, refl)
draw_lines_from-Ends p (q ∷ qs) l b near (here, all) =
    bind-Ends _ (draw_lines_from p qs (pos l)) (ignored-Ends _ b (near_line l p q b near here))
      (λ b'. draw_lines_from-Ends p qs l b' near all)

points-IsNear : All IsNear points
points-IsNear = (
  (0, 0, refl, omega arith),
  ((0, 128, refl, omega arith), ((128, 0, refl, omega arith), ((128, 128, refl, omega arith), tt))),
)

draw_lines-Ends :
    (ps : List (ℤ × ℤ)) (l : ℕ) (b : Bitmap) → All IsNear ps → Ends (draw_lines ps (pos l) b)
unfolding draw_lines
draw_lines-Ends [] l b all = (b, refl)
draw_lines-Ends (p ∷ ps) l b (near, all) =
    bind-Ends _ (draw_lines ps (pos l)) (draw_lines_from-Ends p points l b near points-IsNear)
      (λ b'. draw_lines-Ends ps l b' all)

-- The lines of the pattern are drawn or left out, on any picture.
pub pattern_lines_end : (l : ℕ) (b : Bitmap) → Ends (draw_lines points (pos l) b)
pattern_lines_end l b = draw_lines-Ends points l b points-IsNear
