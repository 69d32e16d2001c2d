-- ===== src/Allocator/Memory/Free.antt =====
-- `dealloc` of allocator.rs in memory clears the flag of the header below the pointer, and a write
-- into a live block touches no header.
use wasabi_os.Common.{
  ℕ, ◌+◌, ◌≤◌, ◌≡◌, ◌⊎◌, inl, inr, refl, ◌∙◌, Bool-cases, true, false, some, List, [], ◌∷◌, arith,
  ◌==◌, ◌&&◌, All, All-imp, All-zip,
}
use wasabi_os.Allocator.{Header, header}
use wasabi_os.Allocator as Lists
use wasabi_os.Allocator.Invariant.{IsRegion, Apart, IsHeap}
use wasabi_os.Allocator.Live.{live, live_away}
use wasabi_os.Allocator.Memory.{cell, HeaderLayout, Memory, load, set_allocated}
use wasabi_os.Allocator.Memory.Bytes.{load_same, store_outside}
use wasabi_os.Allocator.Memory.Chain.{
  Chain, KeepsHeader, SameOutside, Linked-kept, Chain-first, IsHeap-regions,
}
use wasabi_os.Allocator.Memory.Writes.{set_allocated-At}
use wasabi_os.Allocator.Memory.Refine.{Changes, Changes-there}

-- The headers of a heap lie apart from its live blocks.
pub headers_away :
    (hs : List Header) (q n : ℕ)
    → IsHeap hs
    → live hs q ≡ some n
    → All (λ h. (h.addr + 32 ≤ q) ⊎ (q + n ≤ h.addr)) hs
unfolding live
headers_away [] q n heap e = cc
headers_away (h ∷ rest) q n heap e =
    let r = heap.0 in
    elim (Bool-cases (h.is_allocated && h.addr + 32 == q)) [
      | inl hit ↦ (
        ground arith,
        All-imp (λ g. IsRegion g × Apart h g) (λ g. (g.addr + 32 ≤ q) ⊎ (q + n ≤ g.addr)) rest
            (λ g both. let s = both.0 in let a = both.1 in ground arith)
            (All-zip IsRegion (Apart h) rest (IsHeap-regions rest heap.2) heap.1),
      )
      | inr miss ↦
          let e' : live rest q ≡ some n = rw miss at e in
          let away = live_away h rest q n heap.2 heap.1 e' in
          (omega arith, headers_away rest q n heap.2 e')
    ]

-- A header stands below each live block.
pub le-live : (hs : List Header) (q n : ℕ) → live hs q ≡ some n → 32 ≤ q
unfolding live
le-live [] q n e = cc
le-live (h ∷ rest) q n e = ground (arith, le-live rest q n)

module _ (layout : HeaderLayout) where
  -- What `dealloc` does to the chain of `hs` from `first` on, for the block behind the header at `a`.
  pub record FreedFrom (a first : ℕ) (hs : List Header) (m : Memory) : Type 0 where
    pub out : List Header
    pub abstract : Lists.dealloc (a + 32) hs ≡ some out
    pub chain : Chain layout (set_allocated layout a false m) first out
    pub changes : Changes (header a 32 false) hs m (set_allocated layout a false m)

  module _ (h : Header) (rest : List Header) (n next : ℕ) (m : Memory) (heap : IsHeap (h ∷ rest))
      (l : load layout h.addr m ≡ cell next h.size h.is_allocated)
      (links : Chain layout m next rest) where
    freed_here : FreedFrom h.addr h.addr (h ∷ rest) m
    unfolding Lists.dealloc live
    freed_here =
        let r = heap.0 in
        let m' = set_allocated layout h.addr false m in
        let small = Chain-first layout m next rest heap.2 links in
        let same : SameOutside (header h.addr 32 false) m m' =
          λ x out. store_outside layout h.addr _ m x out in
        let hit : (h.addr + 32 == h.addr + 32) ≡ true = ground arith in
        record {
          out = record h { is_allocated = false } ∷ rest;
          abstract = rw hit refl;
          chain = (
            next,
            refl,
            set_allocated-At layout h.addr next h.size h.is_allocated m l false small (omega arith),
            Linked-kept layout m m' next 0 rest
                (All-imp (λ g. IsRegion g × Apart h g) (KeepsHeader m m') rest
                  (λ g both x lo hi. let s = both.0 in let b = both.1 in same x (omega arith))
                  (All-zip IsRegion (Apart h) rest (IsHeap-regions rest heap.2) heap.1))
                links,
          );
          changes = record {
            spread = λ k apart. let b = apart.0 in omega arith;
            blocks = λ q k e. ground (arith, live_away h rest q k heap.2 heap.1);
            same = same;
          };
        }

    freed_there :
        (a : ℕ) → (h.addr == a) ≡ false → FreedFrom a next rest m → FreedFrom a h.addr (h ∷ rest) m
    unfolding Lists.dealloc
    freed_there a miss f =
        let r = heap.0 in
        let m' = set_allocated layout a false m in
        let apart : Apart h (header a 32 false) = f.changes.spread h heap.1 in
        let here =
          load_same layout h.addr m m' (λ x lo hi. store_outside layout a _ m x (omega arith)) in
        let miss' : (h.addr + 32 == a + 32) ≡ false = ground arith in
        record {
          out = h ∷ f.out;
          abstract = rw (miss', f.abstract) refl;
          chain = (next, refl, here ∙ l, f.chain);
          changes = Changes-there (header a 32 false) h rest m m' heap f.changes;
        }

  pub dealloc-FreedFrom :
      (hs : List Header) (a n first : ℕ) (m : Memory)
      → IsHeap hs
      → Chain layout m first hs
      → live hs (a + 32) ≡ some n
      → FreedFrom a first hs m
  unfolding live
  dealloc-FreedFrom [] a n first m heap chain e = cc
  dealloc-FreedFrom (h ∷ rest) a n first m heap (next, at, l, links) e =
      let l' : load layout h.addr m ≡ cell next h.size h.is_allocated = rw at l in
      elim (Bool-cases (h.addr == a)) [
        | inl hit ↦
            let same : h.addr ≡ a = ground arith in
            rw (← at, ← same) (freed_here h rest n next m heap l' links)
        | inr miss ↦
            let e' : live rest (a + 32) ≡ some n = ground arith in
            rw (← at) (
              freed_there h rest n next m heap l' links a miss
                (dealloc-FreedFrom rest a n next m heap.2 links e'))
      ]
