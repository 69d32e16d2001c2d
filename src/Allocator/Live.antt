-- ===== src/Allocator/Live.antt =====
-- The abstract view of the allocator: the live blocks, by their addresses. `alloc_with_options` adds
-- one block to it and `dealloc` takes one away.
use wasabi_os.Common.{
  ℕ, map, ◌+◌, ◌-◌, ◌%◌, ◌≤◌, ◌<◌, ◌≡◌, ◌≢◌, ◌⊎◌, inl, inr, refl, ap, ◌∙◌, false, Option, none,
  some, List, [], ◌∷◌, ◌++◌, arith, All, Bool-cases, ◌==◌, ◌&&◌, if◌then◌else◌,
}
use wasabi_os.Allocator.{Header, Layout, dealloc}
use wasabi_os.Allocator.Invariant.{Apart, IsHeap}
use wasabi_os.Allocator.Carve.{pieces}
use wasabi_os.Allocator.Alloc.{Placed, here, there, total}

-- The bytes of the live block at `q`, if there is one.
unfoldable pub live : List Header → ℕ → Option ℕ
live [] q = none
live (h ∷ rest) q = if h.is_allocated && h.addr + 32 == q then some (h.size - 32) else live rest q

-- No block of a list of headers is at an address whose header would lie in a region apart from all.
live-none :
    (k : Header) (q : ℕ) (hs : List Header)
    → IsHeap hs
    → All (Apart k) hs
    → k.addr + 32 ≤ q
    → q < k.addr + k.size + 32
    → live hs q ≡ none
unfolding live
live-none k q [] heap apart lo hi = refl
live-none k q (h ∷ hs) heap apart lo hi =
    let r = heap.0 in ground (arith, live-none k q hs heap.2 apart.1 lo hi)

live-pieces :
    (h : Header) (s p q : ℕ) (rest : List Header)
    → h.is_allocated ≡ false
    → h.addr + 64 ≤ p
    → live (pieces h s p ++ rest) q ≡ (if p == q then some s else live rest q)
unfolding live
live-pieces h s p q rest free lo = ground arith

-- The header of a new block lies apart from every header that was apart from all.
Placed-away :
    {l : Layout} {p : ℕ} {hs out : List Header} (k : Header)
    → Placed l p hs out
    → All (Apart k) hs
    → (k.addr + k.size ≤ p - 32) ⊎ (p ≤ k.addr)
Placed-away k (here g e) apart = omega arith
Placed-away k (there why placed) apart = Placed-away k placed apart.1

module _ {l : Layout} {p : ℕ} where
  -- A new block is in the view, with at least the bytes that were asked for; the rest is unchanged.
  pub Placed-live :
      {hs out : List Header}
      → Placed l p hs out
      → IsHeap hs
      → (n : ℕ) × (l.size ≤ n) × ((q : ℕ) → live out q ≡ (if p == q then some n else live hs q))
  unfolding live
  Placed-live (here {h} {hs} {rest} g e) heap = (
    g.block,
    g.room,
    λ q.
        ap (λ (t : List Header). live t q) (e ∙ ap (λ (t : List Header). t ++ rest) g.shape)
        ∙ live-pieces h g.block p q rest g.free g.above
        ∙ rw g.free,
  )
  Placed-live (there {h} {rest} {out} why placed) heap =
      let (n, room, same) = Placed-live placed heap.2 in
      let away = Placed-away h placed heap.1 in
      let r = heap.0 in (n, room, λ q. ground (arith, same q))

  -- The address of a new block was not in the view.
  pub Placed-fresh : {hs out : List Header} → Placed l p hs out → IsHeap hs → live hs p ≡ none
  unfolding live
  Placed-fresh (here {h} {hs} {rest} g e) heap =
      rw g.free (live-none h p rest heap.2 heap.1 (omega (arith, g.above)) (omega (arith, g.below)))
  Placed-fresh (there {h} {rest} why placed) heap =
      let away = Placed-away h placed heap.1 in
      let r = heap.0 in let ih = Placed-fresh placed heap.2 in ground arith

  pub Placed-aligned : {hs out : List Header} → Placed l p hs out → p % l.align ≡ 0
  Placed-aligned (here g e) = g.aligned
  Placed-aligned (there why placed) = Placed-aligned placed

  pub Placed-nonnull : {hs out : List Header} → Placed l p hs out → p ≢ 0
  Placed-nonnull (here g e) = omega (arith, g.above)
  Placed-nonnull (there why placed) = Placed-nonnull placed

-- Where a region lies.
abbrev extent : Header → ℕ × ℕ
extent h = (h.addr, h.size)

-- What `dealloc` does to a heap in which the block at `p` is live.
pub record Freed (p : ℕ) (hs out : List Header) : Type 0 where
  pub heap : IsHeap out
  pub size : total out ≡ total hs
  pub extents : map extent out ≡ map extent hs
  pub gone : (q : ℕ) → live out q ≡ (if p == q then none else live hs q)
  pub spread : (k : Header) → All (Apart k) hs → All (Apart k) out

-- `dealloc` of a live block finds its header, takes the block out of the view and no other, and leaves
-- every region where it is, with its size and in its place in the chain.
pub dealloc-live :
    (p n : ℕ) (hs : List Header)
    → IsHeap hs
    → live hs p ≡ some n
    → (out : List Header) × (dealloc p hs ≡ some out) × Freed p hs out
unfolding live dealloc total
dealloc-live p n [] heap e = cc
dealloc-live p n (h ∷ rest) heap e =
    let r = heap.0 in
    elim (Bool-cases (h.addr + 32 == p)) [
      | inl hit ↦
          let others : live rest p ≡ none =
            live-none h p rest heap.2 heap.1 (ground arith) (ground arith) in
          (
            record h { is_allocated = false } ∷ rest,
            rw hit,
            record {
              heap = (ground arith, heap.1, heap.2);
              size = refl;
              extents = refl;
              gone = λ q. ground arith;
              spread = λ k apart. apart;
            },
          )
      | inr miss ↦
          let e' : live rest p ≡ some n = ground arith in
          let (out, found, freed) = dealloc-live p n rest heap.2 e' in
          (
            h ∷ out,
            rw (miss, found),
            record {
              heap = (r, freed.spread h heap.1, freed.heap);
              size = omega (arith, freed.size);
              extents = ap (λ es. extent h ∷ es) freed.extents;
              gone = λ q. ground (arith, freed.gone q);
              spread = λ k apart. (apart.0, freed.spread k apart.1);
            },
          )
    ]

-- A live block lies in a region, so it keeps away from what is apart from all regions.
pub live_away :
    (k : Header) (hs : List Header) (q m : ℕ)
    → IsHeap hs
    → All (Apart k) hs
    → live hs q ≡ some m
    → (k.addr + k.size + 32 ≤ q) ⊎ (q + m ≤ k.addr)
unfolding live
live_away k [] q m heap apart e = cc
live_away k (h ∷ rest) q m heap apart e =
    let r = heap.0 in ground (arith, live_away k rest q m heap.2 apart.1)

-- The bytes of two different live blocks do not overlap.
pub live_apart :
    (hs : List Header) (p q n m : ℕ)
    → IsHeap hs
    → live hs p ≡ some n
    → live hs q ≡ some m
    → p ≢ q
    → (p + n ≤ q) ⊎ (q + m ≤ p)
unfolding live
live_apart [] p q n m heap a b ne = cc
live_apart (h ∷ rest) p q n m heap a b ne =
    let r = heap.0 in
    ground (
      arith,
      live_away h rest p n heap.2 heap.1,
      live_away h rest q m heap.2 heap.1,
      live_apart rest p q n m heap.2,
    )
