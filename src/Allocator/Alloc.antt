-- ===== src/Allocator/Alloc.antt =====
-- `alloc_with_options` and `dealloc` of allocator.rs over the whole chain.
use wasabi_os.Common.{
  ℕ, ◌+◌, ◌≤◌, ◌≡◌, ◌⊎◌, inl, inr, refl, ap, ◌∙◌, List, [], ◌∷◌, ◌++◌, done, arith, All, All-append,
}
use wasabi_os.Allocator.{Header, Layout, resume, alloc_with_options}
use wasabi_os.Allocator.Invariant.{Apart, IsHeap, Tiles, Apart-Tiles, IsHeap-replace}
use wasabi_os.Allocator.Provide.{IsLayout, max_shift, NoRoom, Gives, provide_lem}

-- First fit: the headers before the one that gives the block had no room.
pub data Placed (l : Layout) (p : ℕ) : List Header → List Header → Type 0 where
  here :
      {h : Header} {hs rest out : List Header}
      → Gives h l p hs
      → out ≡ hs ++ rest
      → Placed l p (h ∷ rest) out
  there :
      {h : Header} {rest out : List Header}
      → NoRoom l h
      → Placed l p rest out
      → Placed l p (h ∷ rest) (h ∷ out)

-- What `alloc_with_options` comes to on a heap.
abbrev pub Allocated : Layout → List Header → Type 0
Allocated l hs =
    ((alloc_with_options l hs ≡ done (0, hs)) × All (NoRoom l) hs)
    ⊎ ((p : ℕ) × (out : List Header) × (alloc_with_options l hs ≡ done (p, out))
        × Placed l p hs out)

-- It never panics. Either it returns null, changes nothing, and no header had room; or the first
-- header with room gave the block.
pub alloc_lem :
    (l : Layout) (y : IsLayout l)
    → y.shift ≤ max_shift
    → (hs : List Header) → IsHeap hs
    → Allocated l hs
unfolding alloc_with_options resume
alloc_lem l y small [] heap = inl (refl, tt)
alloc_lem l y small (h ∷ rest) heap = elim (provide_lem h l heap.0 y small) [
  | inl (refused, why) ↦ elim (alloc_lem l y small rest heap.2) [
    | inl (e, none_fits) ↦ inl (rw (refused, e), (why, none_fits))
    | inr (p, out, e, placed) ↦ inr (p, h ∷ out, rw (refused, e), there why placed)
  ]
  | inr (p, hs, e, gives) ↦ inr (p, hs ++ rest, rw e, here gives refl)
]

-- The bytes of all regions, headers included.
unfoldable pub total : List Header → ℕ
total [] = 0
total (h ∷ rest) = h.size + total rest

total-Tiles : (a b : ℕ) (hs : List Header) → Tiles a hs b → a + total hs ≡ b
unfolding total
total-Tiles a b [] t = omega arith
total-Tiles a b (h ∷ hs) t = omega (arith, total-Tiles (a + h.size) b hs t.1)

total-append : (gs hs : List Header) → total (gs ++ hs) ≡ total gs + total hs
unfolding total
total-append [] hs = omega arith
total-append (g ∷ gs) hs = omega (arith, total-append gs hs)

module _ {l : Layout} {p : ℕ} where
  pub Placed-total : {hs out : List Header} → Placed l p hs out → total out ≡ total hs
  unfolding total
  Placed-total (here {h} {hs} {rest} g e) =
      ap total e
      ∙ omega (arith, total-append hs rest, total-Tiles h.addr (h.addr + h.size) hs g.tiles)
  Placed-total (there why placed) = omega (arith, Placed-total placed)

  pub Placed-Apart :
      (k : Header) {hs out : List Header} → Placed l p hs out → All (Apart k) hs → All (Apart k) out
  Placed-Apart k (here {h} {hs} {rest} g e) apart =
      rw e (All-append (Apart k) hs rest (Apart-Tiles k h hs apart.0 g.tiles) apart.1)
  Placed-Apart k (there why placed) apart = (apart.0, Placed-Apart k placed apart.1)

  pub Placed-IsHeap : {hs out : List Header} → Placed l p hs out → IsHeap hs → IsHeap out
  Placed-IsHeap (here {h} {hs} {rest} g e) heap =
      rw e (IsHeap-replace h hs rest g.tiles g.regions heap)
  Placed-IsHeap (there {h} why placed) heap =
      (heap.0, Placed-Apart h placed heap.1, Placed-IsHeap placed heap.2)
