-- ===== src/Allocator/Provide.antt =====
-- `Header::provide` of allocator.rs on every branch, for the layouts that Rust can build.
use native.Mathlib.Nat.{pow-le-pow_right, mod-lt, div-add-mod', mul-mod_left}
use native.Mathlib.Decide.{dec_le}
use wasabi_os.Common.{
  ℕ, ◌+◌, ◌-◌, ◌*◌, ◌/◌, ◌%◌, ◌^◌, ◌≤◌, ◌<◌, ◌≡◌, ◌⊎◌, inl, inr, refl, sym, ap, ◌∙◌, true, false,
  none, some, List, max, bit_and, done, arith, All, Bool-cases, ok, ◌==◌,
}
use wasabi_os.Common.Bits.{
  bit_and-align_down, align_down-mod, two_pow_pos, max-two_pow, two_pow-add,
}
use wasabi_os.Allocator.{
  Header, Layout, header_size, can_provide, try_carve, provide, round_up_to_nearest_pow2,
}
use wasabi_os.Allocator.Invariant.{IsRegion, Tiles}
use wasabi_os.Allocator.Pow2.{round_up_to_nearest_pow2_lem, round_up_to_nearest_pow2_err}
use wasabi_os.Allocator.Carve.{pieces, spot, carve-pieces, pieces-Tiles, pieces-IsRegion}

-- What `Layout::from_size_align` guarantees: the alignment is a power of two, and the size rounded up
-- to it is at most `isize::MAX`.
pub record IsLayout (l : Layout) : Type 0 where
  pub shift : ℕ
  pub align_pow : l.align ≡ 2 ^ shift
  pub fits : l.size + l.align ≤ 2 ^ 63

-- `HEADER_SIZE * 2 * align` overflows above this alignment.
abbrev pub max_shift : ℕ
max_shift = 56

-- Why `provide` refuses: nothing is asked for, the region is taken, or it is small.
abbrev pub NoRoom : Layout → Header → Type 0
NoRoom l h =
    (l.size ≡ 0) ⊎ (h.is_allocated ≡ true) ⊎ (h.size < max 32 (2 * l.size) + 64 * max l.align 32)

-- The way of the code to the address `p`: the size that is asked for is rounded up, and the block is
-- carved from the end of the region.
pub record Carving (h : Header) (l : Layout) (block p : ℕ) : Type 0 where
  pub rounded : ℕ
  pub rounds : round_up_to_nearest_pow2 l.size ≡ ok rounded
  pub block_size : block ≡ max rounded header_size
  pub at_spot : p ≡ spot h block (max l.align header_size)
  pub enough : block + 64 * max l.align header_size ≤ h.size
  pub spot_aligned : p % 32 ≡ 0
  pub size_aligned : block % 32 ≡ 0

-- `provide` answered with the address `p`, and the headers `hs` replace the header `h`.
pub record Gives (h : Header) (l : Layout) (p : ℕ) (hs : List Header) : Type 0 where
  pub free : h.is_allocated ≡ false
  pub block : ℕ
  pub room : l.size ≤ block
  pub tight : block ≤ max 32 (2 * l.size)
  pub shape : hs ≡ pieces h block p
  pub aligned : p % l.align ≡ 0
  pub above : h.addr + 64 ≤ p
  pub below : p + block ≤ h.addr + h.size
  pub tiles : Tiles h.addr hs (h.addr + h.size)
  pub regions : All IsRegion hs
  pub carving : Carving h l block p

abbrev pub Provided : Header → Layout → Type 0
Provided h l =
    ((provide h l.size l.align ≡ done none) × NoRoom l h)
    ⊎ ((p : ℕ) × (hs : List Header) × (provide h l.size l.align ≡ done (some (p, hs)))
        × Gives h l p hs)

try_carve-none :
    (h : Header) (size align : ℕ)
    → size + 64 * align < 2 ^ 64
    → (h.is_allocated ≡ true) ⊎ (h.size < size + 64 * align)
    → try_carve h size align ≡ done none
unfolding try_carve can_provide
try_carve-none h size align b r = ground arith

-- The address lies below the top of the region by less than the alignment, and is a multiple.
pub spot_bounds :
    (h : Header) (size align j k : ℕ)
    → h.addr + h.size < 2 ^ 64
    → align ≡ 2 ^ k
    → k ≤ 64
    → j ≤ k
    → let p = spot h size align in
      (p ≤ h.addr + h.size - size) × (h.addr + h.size - size < p + align) × (p % 2 ^ j ≡ 0)
spot_bounds h size align j k r e le jk =
    let top : ℕ = h.addr + h.size - size in
    let f : spot h size align ≡ top / 2 ^ k * 2 ^ k =
      ap (λ (t : ℕ). bit_and top (2 ^ 64 - 1 - (t - 1))) e
      ∙ bit_and-align_down k top le (omega arith) in
    let d : top / 2 ^ k * 2 ^ k + top % 2 ^ k ≡ top = omega (arith, div-add-mod' top (2 ^ k)) in
    let m : top % 2 ^ k < 2 ^ k = mod-lt top (two_pow_pos k) in
    (omega arith, omega arith, rw f (align_down-mod j k top jk))

try_carve-some :
    (h : Header) (size align : ℕ)
    → IsRegion h
    → h.is_allocated ≡ false
    → 32 ≤ align
    → size + 64 * align ≤ h.size
    → (let p = spot h size align in
        (p ≤ h.addr + h.size - size) × (h.addr + h.size - size < p + align))
    → try_carve h size align ≡ done (some (spot h size align, pieces h size (spot h size align)))
unfolding try_carve can_provide
try_carve-some h size align r free al fits b =
    ground (arith, carve-pieces h size align r al (omega arith) b)

max-two_pow-mod_32 : (j : ℕ) → max (2 ^ j) 32 % 32 ≡ 0
max-two_pow-mod_32 j =
    let m : ℕ = max j 5 in
    let e : m - 5 + 5 ≡ m = omega arith in
    let f : 2 ^ m ≡ 2 ^ (m - 5) * 2 ^ 5 = sym (ap (λ (t : ℕ). 2 ^ t) e) ∙ two_pow-add (m - 5) 5 in
    rw (max-two_pow j 5, f) (mul-mod_left (2 ^ (m - 5)) (2 ^ 5))

-- The case that the size has been rounded to a block of 2^j bytes, or 32 if that is less.
module _ (h : Header) (l : Layout) (r : IsRegion h) (y : IsLayout l) (small : y.shift ≤ max_shift)
    (j : ℕ) (rounds : round_up_to_nearest_pow2 l.size ≡ ok (2 ^ j)) (j_lt : j < 64)
    (ge : l.size ≤ 2 ^ j) (lt : 2 ^ j < 2 * l.size) where
  provide-try_carve :
      provide h l.size l.align ≡ try_carve h (max (2 ^ j) header_size) (max l.align header_size)
  unfolding provide
  provide-try_carve = rw (rounds, provide)

  align_lem : max l.align 32 ≡ 2 ^ max y.shift 5
  align_lem = ap (λ (t : ℕ). max t 32) y.align_pow ∙ max-two_pow y.shift 5

  align-le : max l.align 32 ≤ 2 ^ 56
  align-le =
      let two_pos : 0 < 2 = omega arith in
      let m : max y.shift 5 ≤ 56 = omega arith in rw align_lem (pow-le-pow_right two_pos m)

  pub provide-small :
      (h.is_allocated ≡ true) ⊎ (h.size < max (2 ^ j) 32 + 64 * max l.align 32)
      → provide h l.size l.align ≡ done none
  provide-small why =
      let two_pos : 0 < 2 = omega arith in
      let m : 2 ^ j ≤ 2 ^ 63 = pow-le-pow_right two_pos {j = 63} (omega arith) in
      provide-try_carve
      ∙ try_carve-none h (max (2 ^ j) 32) (max l.align 32) (omega (arith, align-le)) why

  provide-big :
      h.is_allocated ≡ false → max (2 ^ j) 32 + 64 * max l.align 32 ≤ h.size → Provided h l
  provide-big free big =
      let s : ℕ = max (2 ^ j) 32 in
      let a : ℕ = max l.align 32 in
      let b =
        spot_bounds h s a 5 (max y.shift 5) r.in_range align_lem (omega arith) (omega arith) in
      let c =
        spot_bounds h s a y.shift (max y.shift 5) r.in_range align_lem (omega arith)
          (omega arith) in
      let lo : h.addr + 64 ≤ spot h s a = omega arith in
      let hi : spot h s a + s ≤ h.addr + h.size = omega arith in
      let runs = try_carve-some h s a r free (omega arith) big (b.0, b.1) in
      inr (
        spot h s a,
        pieces h s (spot h s a),
        provide-try_carve ∙ runs,
        record {
          free = free;
          block = s;
          room = omega arith;
          tight = omega arith;
          shape = refl;
          aligned = ap (λ (t : ℕ). spot h s a % t) y.align_pow ∙ c.2;
          above = lo;
          below = hi;
          tiles = pieces-Tiles h s (spot h s a) (omega arith) hi;
          regions = pieces-IsRegion h s (spot h s a) r lo hi b.2 (max-two_pow-mod_32 j);
          carving = record {
            rounded = 2 ^ j;
            rounds = rounds;
            block_size = refl;
            at_spot = refl;
            enough = big;
            spot_aligned = b.2;
            size_aligned = max-two_pow-mod_32 j;
          };
        },
      )

  provide-block : Provided h l
  provide-block = elim (Bool-cases h.is_allocated) [
    | inl taken ↦ inl (provide-small (inl taken), inr (inl taken))
    | inr free ↦ elim (dec_le (max (2 ^ j) 32 + 64 * max l.align 32) h.size) [
      | yes big ↦ provide-big free big
      | no few ↦ inl (provide-small (inr (omega arith)), inr (inr (omega arith)))
    ]
  ]

provide-zero : (h : Header) (l : Layout) → l.size ≡ 0 → provide h l.size l.align ≡ done none
unfolding provide
provide-zero h l e =
    let bad = round_up_to_nearest_pow2_err l.size (omega arith) (inl e) in rw (bad, provide)

-- On a well-formed region, and for a layout whose alignment is at most 2^56, `provide` does not
-- panic: it refuses for one of three reasons, or hands out a block inside the region.
pub provide_lem :
    (h : Header) (l : Layout) → IsRegion h → (y : IsLayout l) → y.shift ≤ max_shift → Provided h l
provide_lem h l r y small = elim (Bool-cases (l.size == 0)) [
  | inl z ↦ let e : l.size ≡ 0 = ground arith in inl (provide-zero h l e, inl e)
  | inr nz ↦
      let pos : 0 < l.size = ground arith in
      let (j, rounds, j_lt, ge, lt) = round_up_to_nearest_pow2_lem l.size pos (omega arith) in
      provide-block h l r y small j rounds j_lt ge lt
]
