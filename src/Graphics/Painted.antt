-- ===== src/Graphics/Painted.antt =====
-- graphics.rs: pictures that differ in the pixels of a region.
use wasabi_os.Common.{
  ℕ, ◌+◌, ◌*◌, ◌/◌, ◌%◌, ◌<◌, ◌≡◌, inl, inr, refl, sym, ap, ◌∙◌, min, Bool, Bool-cases, false, ◌&&◌,
  ◌||◌, ok, err, arith, ltb, ◌==◌, if◌then◌else◌, pos,
}
use wasabi_os.Common.Bits.{mod_unique, div_unique}
use wasabi_os.Graphics.{
  Bitmap, pixel_offset, is_in_x_range, is_in_y_range, unchecked_draw_point, draw_point,
}

-- b' is b with the pixels of a region in one color.
pub record Painted (inside : ℕ → ℕ → Bool) (color : ℕ) (b b' : Bitmap) : Type 0 where
  pub bytes : b'.bytes_per_pixel ≡ b.bytes_per_pixel
  pub line : b'.pixels_per_line ≡ b.pixels_per_line
  pub width : b'.width ≡ b.width
  pub height : b'.height ≡ b.height
  pub pixels :
      (x y : ℕ)
      → x < b.pixels_per_line
      → b'.buf (pixel_offset b x y) ≡ (if inside x y then color else b.buf (pixel_offset b x y))

-- Different pixels have different offsets.
offset_unique : (w x y x' y' : ℕ) → x < w → x' < w → y * w + x ≡ y' * w + x' → (x ≡ x') × (y ≡ y')
offset_unique w x y x' y' h h' e = (
  sym (mod_unique y w x h) ∙ ap (λ (t : ℕ). t % w) e ∙ mod_unique y' w x' h',
  sym (div_unique y w x h) ∙ ap (λ (t : ℕ). t / w) e ∙ div_unique y' w x' h',
)

scaled_unique : (k u v : ℕ) → 0 < k → u * k ≡ v * k → u ≡ v
scaled_unique k u v h e =
    let p : (u * k + 0) / k ≡ u = div_unique u k 0 h in
    let q : (v * k + 0) / k ≡ v = div_unique v k 0 h in sym p ∙ ap (λ (t : ℕ). (t + 0) / k) e ∙ q

module _ (b : Bitmap) (bytes : 0 < b.bytes_per_pixel) where
  pixel_unique :
      (x y x' y' : ℕ)
      → x < b.pixels_per_line
      → x' < b.pixels_per_line
      → (pixel_offset b x y == pixel_offset b x' y') ≡ (x == x' && y == y')
  pixel_unique x y x' y' h h' = elim (Bool-cases (x == x' && y == y')) [
    | inl same ↦
        let ex : x ≡ x' = ground arith in
        let ey : y ≡ y' = ground arith in rw (ex, ey) (ground arith)
    | inr other ↦ elim (Bool-cases (pixel_offset b x y == pixel_offset b x' y')) [
      | inr differ ↦ differ ∙ sym other
      | inl hit ↦
          let e : pixel_offset b x y ≡ pixel_offset b x' y' = ground arith in
          let f =
            scaled_unique b.bytes_per_pixel (y * b.pixels_per_line + x)
              (y' * b.pixels_per_line + x') bytes e in
          let (ex, ey) = offset_unique b.pixels_per_line x y x' y' h h' f in ground arith
    ]
  ]

  pub point-Painted :
      (color x y : ℕ)
      → x < b.pixels_per_line
      → Painted (λ a c. a == x && c == y) color b (unchecked_draw_point b color x y)
  unfolding unchecked_draw_point
  point-Painted color x y h = record {
    bytes = refl;
    line = refl;
    width = refl;
    height = refl;
    pixels = λ a c h'. rw (pixel_unique a c x y h' h) refl;
  }

pub Painted-chain :
    {in1 in2 : ℕ → ℕ → Bool} {color : ℕ} {b b1 b2 : Bitmap} (inside : ℕ → ℕ → Bool)
    → ((a c : ℕ) → inside a c ≡ (in2 a c || in1 a c))
    → Painted in1 color b b1
    → Painted in2 color b1 b2
    → Painted inside color b b2
Painted-chain {in1} {in2} {color} {b} {b1} {b2} inside same p q = record {
  bytes = q.bytes ∙ p.bytes;
  line = q.line ∙ p.line;
  width = q.width ∙ p.width;
  height = q.height ∙ p.height;
  pixels = λ a c h.
      let e1 = p.pixels a c h in
      let e2 = rw (p.bytes, p.line) at q.pixels a c (omega (arith, p.line)) in
      ground (arith, same a c, e1, e2);
}

pub Painted-none :
    (inside : ℕ → ℕ → Bool) (color : ℕ) (b : Bitmap)
    → ((a c : ℕ) → inside a c ≡ false)
    → Painted inside color b b
Painted-none inside color b empty = record {
  bytes = refl;
  line = refl;
  width = refl;
  height = refl;
  pixels = λ a c h. rw (empty a c) refl;
}

pub Painted-same :
    {in1 : ℕ → ℕ → Bool} {color : ℕ} {b b' : Bitmap} (inside : ℕ → ℕ → Bool)
    → ((a c : ℕ) → inside a c ≡ in1 a c)
    → Painted in1 color b b'
    → Painted inside color b b'
Painted-same inside same p = record {
  bytes = p.bytes;
  line = p.line;
  width = p.width;
  height = p.height;
  pixels = λ a c h. rw (same a c) (p.pixels a c h);
}

-- A picture whose sizes are w and h, with pixels of a size.
pub record Sized (w h : ℕ) (b : Bitmap) : Type 0 where
  pub bytes : 0 < b.bytes_per_pixel
  pub wide : min b.width b.pixels_per_line ≡ w
  pub high : b.height ≡ h

pub Sized-Painted :
    {w h : ℕ} {inside : ℕ → ℕ → Bool} {color : ℕ} {b b' : Bitmap}
    → Sized w h b
    → Painted inside color b b'
    → Sized w h b'
Sized-Painted s p = record {
  bytes = rw p.bytes s.bytes;
  wide = rw (p.width, p.line) s.wide;
  high = rw p.height s.high;
}

module _ (w h color : ℕ) where
  abbrev pub within : ℕ → ℕ → Bool
  within a c = ltb a w && ltb c h

  pub draw_point_in :
      (x y : ℕ) (b : Bitmap)
      → Sized w h b
      → draw_point b color (pos x) (pos y)
        ≡ (if within x y then ok (unchecked_draw_point b color x y) else err "Out of Range")
  unfolding draw_point is_in_x_range is_in_y_range
  draw_point_in x y b s = rw (s.wide, s.high) (ground arith)
