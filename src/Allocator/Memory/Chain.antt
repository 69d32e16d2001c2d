-- ===== src/Allocator/Memory/Chain.antt =====
-- The chain of headers in the memory of allocator.rs, and the list of headers that it stands for.
use wasabi_os.Common.{
  ℕ, ◌+◌, ◌^◌, ◌≤◌, ◌<◌, ◌≡◌, ◌⊎◌, refl, sym, ◌∙◌, List, [], ◌∷◌, ◌++◌, arith, All, All-imp,
  All-zip,
}
use wasabi_os.Allocator.{Header}
use wasabi_os.Allocator.Invariant.{IsRegion, Apart, IsHeap}
use wasabi_os.Allocator.Memory.{cell, HeaderLayout, Memory, load}
use wasabi_os.Allocator.Memory.Bytes.{load_same}

-- Nothing has changed outside the region.
abbrev pub SameOutside : Header → Memory → Memory → Type 0
SameOutside g m m' = (x : ℕ) → (x < g.addr) ⊎ (g.addr + g.size ≤ x) → m' x ≡ m x

-- The bytes of the header are as before.
abbrev pub KeepsHeader : Memory → Memory → Header → Type 0
KeepsHeader m m' h = (x : ℕ) → h.addr ≤ x → x < h.addr + 32 → m' x ≡ m x

pub IsHeap-regions : (hs : List Header) → IsHeap hs → All IsRegion hs
IsHeap-regions [] heap = tt
IsHeap-regions (h ∷ hs) heap = (heap.0, IsHeap-regions hs heap.2)

module _ (layout : HeaderLayout) where
  -- From `p` the links lead through the headers, each with the size and the flag that its bytes say,
  -- to `q`.
  abbrev pub Linked : Memory → ℕ → List Header → ℕ → Type 0
  Linked m p [] q = p ≡ q
  Linked m p (h ∷ hs) q =
      (next : ℕ) × (h.addr ≡ p)
      × (load layout p m ≡ cell next h.size h.is_allocated)
      × Linked m next hs q

  -- The chain from `first_header` on.
  abbrev pub Chain : Memory → ℕ → List Header → Type 0
  Chain m first hs = Linked m first hs 0

  pub Linked-append :
      (m : Memory) (p q r : ℕ) (gs hs : List Header)
      → Linked m p gs q
      → Linked m q hs r
      → Linked m p (gs ++ hs) r
  Linked-append m p q r [] hs e t = rw e t
  Linked-append m p q r (g ∷ gs) hs (next, at, e, s) t =
      (next, at, e, Linked-append m next q r gs hs s t)

  -- The chain is not touched by a change that leaves the bytes of its headers.
  pub Linked-kept :
      (m m' : Memory) (p q : ℕ) (hs : List Header)
      → All (KeepsHeader m m') hs
      → Linked m p hs q
      → Linked m' p hs q
  Linked-kept m m' p q [] kept e = e
  Linked-kept m m' p q (h ∷ hs) kept (next, at, e, s) =
      let keep : KeepsHeader m m' h = kept.0 in
      let here = load_same layout h.addr m m' (λ x lo hi. keep x lo hi) in
      (next, at, (rw at at here) ∙ e, Linked-kept m m' next q hs kept.1 s)

  -- Nor by a change in a region apart from all its own.
  pub Linked-same :
      (m m' : Memory) (g : Header) (p q : ℕ) (hs : List Header)
      → SameOutside g m m'
      → IsHeap hs
      → All (Apart g) hs
      → Linked m p hs q
      → Linked m' p hs q
  Linked-same m m' g p q hs same heap apart = Linked-kept m m' p q hs (
      All-imp (λ h. IsRegion h × Apart g h) (KeepsHeader m m') hs
        (λ h both x lo hi. let r = both.0 in let a = both.1 in same x (omega arith))
        (All-zip IsRegion (Apart g) hs (IsHeap-regions hs heap) apart))

  -- A link is an address of 64 bits.
  pub Chain-first : (m : Memory) (p : ℕ) (hs : List Header) → IsHeap hs → Chain m p hs → p < 2 ^ 64
  Chain-first m p [] heap e = omega arith
  Chain-first m p (h ∷ hs) heap (_, at, _, _) = let r = heap.0 in omega arith

  -- The memory holds one chain of regions at most.
  pub Chain-unique :
      (m : Memory) (p : ℕ) (hs gs : List Header)
      → All IsRegion hs
      → All IsRegion gs
      → Chain m p hs
      → Chain m p gs
      → hs ≡ gs
  Chain-unique m p [] [] rh rg c d = refl
  Chain-unique m p [] (g ∷ gs) rh rg c (n, at, e, s) = let r = rg.0 in absurd (omega arith)
  Chain-unique m p (h ∷ hs) [] rh rg (n, at, e, s) d = let r = rh.0 in absurd (omega arith)
  Chain-unique m p (h ∷ hs) (g ∷ gs) rh rg (n, at, e, s) (n', at', e', s') =
      let same : cell n h.size h.is_allocated ≡ cell n' g.size g.is_allocated = sym e ∙ e' in
      let next : n' ≡ n = cc in
      let first : h ≡ g = cc in let later = Chain-unique m n hs gs rh.1 rg.1 s (rw next at s') in cc
