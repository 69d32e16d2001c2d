-- ===== src/Allocator/Slack.antt =====
-- `Header::can_provide` of allocator.rs asks for more room than `provide` uses.
use native.Mathlib.Nat.{pow-suc}
use wasabi_os.Common.{
  ℕ, suc, ◌+◌, ◌*◌, ◌%◌, ◌^◌, ◌≤◌, ◌<◌, ◌≡◌, inr, ap, ◌∙◌, false, none, List, done, arith,
}
use wasabi_os.Common.Bits.{two_pow_mono, lt_of_two_pow-lt}
use wasabi_os.Allocator.{Header, Layout, carve, provide}
use wasabi_os.Allocator.Invariant.{IsRegion}
use wasabi_os.Allocator.Pow2.{round_up_to_nearest_pow2_lem}
use wasabi_os.Allocator.Carve.{pieces, spot, carve-pieces}
use wasabi_os.Allocator.Provide.{IsLayout, max_shift, spot_bounds, provide-small}

-- The test in `can_provide` multiplies by the alignment where a sum would do: for a size that is a
-- power of two and at least 32, and an alignment from 32 to 2^56, `provide` refuses a free region
-- between the two bounds that its own code would carve without a panic.
pub provide_refuses_fit :
    (h : Header) (l : Layout) (y : IsLayout l) (j : ℕ)
    → IsRegion h
    → y.shift ≤ max_shift
    → 5 ≤ y.shift
    → 5 ≤ j
    → l.size ≡ 2 ^ j
    → h.is_allocated ≡ false
    → l.size + l.align + 64 ≤ h.size
    → h.size < l.size + 64 * l.align
    → (provide h l.size l.align ≡ done none)
      × ((p : ℕ) × (hs : List Header) × (carve h l.size l.align ≡ done (p, hs)) × (p % l.align ≡ 0))
provide_refuses_fit h l y j r small s5 j5 e free fits short =
    let size_big : 32 ≤ 2 ^ j = two_pow_mono 5 j j5 in
    let align_big : 32 ≤ 2 ^ y.shift = two_pow_mono 5 y.shift s5 in
    let (k, rounds, k_lt, ge, lt) =
      round_up_to_nearest_pow2_lem l.size (omega arith) (omega (arith, y.fits, y.align_pow)) in
    let below : k < suc j = lt_of_two_pow-lt k (suc j) (omega (arith, pow-suc 2 j)) in
    let above : j < suc k = lt_of_two_pow-lt j (suc k) (omega (arith, pow-suc 2 k)) in
    let same : k ≡ j = omega arith in
    let power : 2 ^ k ≡ 2 ^ j = ap (λ (t : ℕ). 2 ^ t) same in
    let b =
      spot_bounds h l.size l.align y.shift y.shift r.in_range y.align_pow (omega arith)
        (omega arith) in
    (
      provide-small h l r y small k rounds k_lt ge lt (inr (omega (arith, y.align_pow))),
      (
        spot h l.size l.align,
        pieces h l.size (spot h l.size l.align),
        carve-pieces h l.size l.align r (omega (arith, y.align_pow)) fits (b.0, b.1),
        ap (λ (t : ℕ). spot h l.size l.align % t) y.align_pow ∙ b.2,
      ),
    )
