-- ===== src/Allocator/Carve.antt =====
-- `Header::provide` of allocator.rs: the pieces that it makes of a region, and that its checked
-- operations and its assertion never panic.
use wasabi_os.Common.{
  ℕ, ◌+◌, ◌-◌, ◌%◌, ◌^◌, ◌≤◌, ◌<◌, ◌≡◌, true, false, List, [], ◌∷◌, bit_and, done, arith, All, ◌==◌,
  if◌then◌else◌,
}
use wasabi_os.Allocator.{Header, header, carve}
use wasabi_os.Allocator.Invariant.{IsRegion, Tiles}

-- The headers that stand in place of a region after `size` bytes at `p` were carved from it: what is
-- left, the allocated part with its header, and the padding behind it, if there is any.
abbrev pub pieces : Header → ℕ → ℕ → List Header
pieces h size p =
    record h { size = p - 32 - h.addr }
    ∷ header (p - 32) (size + 32) true
    ∷ (if p + size == h.addr + h.size
        then []
        else header (p + size) (h.addr + h.size - (p + size)) false ∷ [])

-- Where `carve` puts the allocation.
abbrev pub spot : Header → ℕ → ℕ → ℕ
spot h size align = bit_and (h.addr + h.size - size) (2 ^ 64 - 1 - (align - 1))

pub carve-pieces :
    (h : Header) (size align : ℕ)
    → IsRegion h
    → 32 ≤ align
    → size + align + 64 ≤ h.size
    → (let p = spot h size align in
        (p ≤ h.addr + h.size - size) × (h.addr + h.size - size < p + align))
    → carve h size align ≡ done (spot h size align, pieces h size (spot h size align))
unfolding carve
carve-pieces h size align r al fits b = ground arith

pub pieces-Tiles :
    (h : Header) (size p : ℕ)
    → h.addr + 32 ≤ p
    → p + size ≤ h.addr + h.size
    → Tiles h.addr (pieces h size p) (h.addr + h.size)
pieces-Tiles h size p lo hi = ground arith

pub pieces-IsRegion :
    (h : Header) (size p : ℕ)
    → IsRegion h
    → h.addr + 64 ≤ p
    → p + size ≤ h.addr + h.size
    → p % 32 ≡ 0
    → size % 32 ≡ 0
    → All IsRegion (pieces h size p)
pieces-IsRegion h size p r lo hi pa sa = ground arith
