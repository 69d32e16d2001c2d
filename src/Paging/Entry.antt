-- ===== src/Paging/Entry.antt =====
-- The bit operations on one entry of x86.rs, in the arithmetic of the walk.
use wasabi_os.Common.{ℕ, ◌+◌, ◌-◌, ◌*◌, ◌/◌, ◌%◌, ◌^◌, ◌<◌, ◌≡◌, ap, ◌∙◌, bit_and, bit_or, arith}
use wasabi_os.Common.Bits.{bit_and-ones, bit_and-align_down, bit_or-disjoint}
use wasabi_os.Paging.{
  attr_mask, PageAttr, not_present, read_write_kernel, read_write_io, attr_value, is_present,
  calc_index,
}
use wasabi_os.Paging.Walk.{present, base, index}

pub is_present_lem : (v : ℕ) → is_present v ≡ present v
unfolding is_present
is_present_lem v = rw (bit_and-ones 1 v) (ground arith)

pub table_mask : (v : ℕ) → v < 2 ^ 64 → bit_and v (2 ^ 64 - 1 - attr_mask) ≡ base v
table_mask v lt = bit_and-align_down 12 v (omega arith) lt

pub calc_index_lem : (shift a : ℕ) → calc_index shift a ≡ index shift a
unfolding calc_index
calc_index_lem shift a = bit_and-ones 9 (a / 2 ^ shift)

pub attr_mask_lem : (x : ℕ) → bit_and x attr_mask ≡ x % 4096
attr_mask_lem x = bit_and-ones 12 x

pub attr_value-lt : (attr : PageAttr) → attr_value attr < 32
attr_value-lt not_present = omega arith
attr_value-lt read_write_kernel = omega arith
attr_value-lt read_write_io = omega arith

pub bit_or-page : (p v : ℕ) → p % 4096 ≡ 0 → v < 4096 → bit_or p v ≡ p + v
bit_or-page p v aligned lt =
    let e : p ≡ p / 4096 * 2 ^ 12 = omega arith in
    ap (λ (t : ℕ). bit_or t v) e ∙ bit_or-disjoint 12 (p / 4096) v lt ∙ omega arith
