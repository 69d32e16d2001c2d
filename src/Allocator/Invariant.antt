-- ===== src/Allocator/Invariant.antt =====
-- What holds of the chain of headers between two calls, and the pieces that `provide` makes.
use wasabi_os.Common.{
  ℕ, ◌+◌, ◌%◌, ◌^◌, ◌≤◌, ◌<◌, ◌≡◌, ◌⊎◌, inl, List, [], ◌∷◌, ◌++◌, arith, All, All-append, All-imp,
}
use wasabi_os.Allocator.{Header}

-- A region is aligned to its header's size, does not begin at 0 and ends inside the address space.
pub record IsRegion (h : Header) : Type 0 where
  pub addr_aligned : h.addr % 32 ≡ 0
  pub size_aligned : h.size % 32 ≡ 0
  pub nonempty : 32 ≤ h.size
  pub nonnull : 0 < h.addr
  pub in_range : h.addr + h.size < 2 ^ 64

-- Two regions share no byte.
abbrev pub Apart : Header → Header → Type 0
Apart h g = (h.addr + h.size ≤ g.addr) ⊎ (g.addr + g.size ≤ h.addr)

-- Every header heads a region, and no two regions overlap.
abbrev pub IsHeap : List Header → Type 0
IsHeap [] = Unit
IsHeap (h ∷ rest) = IsRegion h × All (Apart h) rest × IsHeap rest

-- The regions lie one behind the other from `a` to `b`, with no gap.
abbrev pub Tiles : ℕ → List Header → ℕ → Type 0
Tiles a [] b = a ≡ b
Tiles a (h ∷ rest) b = (h.addr ≡ a) × Tiles (a + h.size) rest b

Tiles-le : (a b : ℕ) (hs : List Header) → Tiles a hs b → a ≤ b
Tiles-le a b [] t = omega arith
Tiles-le a b (h ∷ hs) t = omega (arith, Tiles-le (a + h.size) b hs t.1)

-- Each tile lies between the ends.
abbrev Within : ℕ → ℕ → Header → Type 0
Within a b h = (a ≤ h.addr) × (h.addr + h.size ≤ b)

Tiles-Within : (a b : ℕ) (hs : List Header) → Tiles a hs b → All (Within a b) hs
Tiles-Within a b [] t = tt
Tiles-Within a b (h ∷ hs) t = (
  omega (arith, Tiles-le (a + h.size) b hs t.1),
  All-imp (Within (a + h.size) b) (Within a b) hs (λ g w. omega arith)
      (Tiles-Within (a + h.size) b hs t.1),
)

-- Tiles that are regions form a heap.
Tiles-IsHeap : (a b : ℕ) (hs : List Header) → Tiles a hs b → All IsRegion hs → IsHeap hs
Tiles-IsHeap a b [] t r = tt
Tiles-IsHeap a b (h ∷ hs) t r = (
  r.0,
  All-imp (Within (a + h.size) b) (Apart h) hs (λ g w. inl (omega arith))
      (Tiles-Within (a + h.size) b hs t.1),
  Tiles-IsHeap (a + h.size) b hs t.1 r.1,
)

-- What is apart from a region is apart from each tile of it.
pub Apart-Tiles :
    (g h : Header) (hs : List Header)
    → Apart g h
    → Tiles h.addr hs (h.addr + h.size)
    → All (Apart g) hs
Apart-Tiles g h hs apart t =
    let b : ℕ = h.addr + h.size in
    All-imp (Within h.addr b) (Apart g) hs (λ k w. omega arith) (Tiles-Within h.addr b hs t)

IsHeap-append :
    (gs hs : List Header)
    → IsHeap gs
    → IsHeap hs
    → All (λ g. All (Apart g) hs) gs
    → IsHeap (gs ++ hs)
IsHeap-append [] hs p q apart = q
IsHeap-append (g ∷ gs) hs p q apart =
    (p.0, All-append (Apart g) gs hs p.1 apart.0, IsHeap-append gs hs p.2 q apart.1)

-- To put the tiles of a region in its place keeps the heap.
pub IsHeap-replace :
    (h : Header) (hs rest : List Header)
    → Tiles h.addr hs (h.addr + h.size)
    → All IsRegion hs
    → IsHeap (h ∷ rest)
    → IsHeap (hs ++ rest)
IsHeap-replace h hs rest t r heap =
    let b : ℕ = h.addr + h.size in
    IsHeap-append hs rest (Tiles-IsHeap h.addr b hs t r) heap.2 (
      All-imp (Within h.addr b) (λ g. All (Apart g) rest) hs
        (λ g w. All-imp (Apart h) (Apart g) rest (λ k a. omega arith) heap.1)
        (Tiles-Within h.addr b hs t))
