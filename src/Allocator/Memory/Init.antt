-- ===== src/Allocator/Memory/Init.antt =====
-- `init_with_mmap` of allocator.rs in memory links a header into each free region.
use wasabi_os.Common.{
  ℕ, ◌^◌, ◌<◌, ◌≡◌, inl, inr, refl, sym, ap, ◌∙◌, Bool-cases, false, none, List, [], ◌∷◌, done,
  arith, leb, if◌then◌else◌, All, All-imp, All-zip, All-of,
}
use wasabi_os.Uefi.{EfiMemoryDescriptor}
use wasabi_os.Allocator.{Header}
use wasabi_os.Allocator.Invariant.{IsRegion, Apart, IsHeap}
use wasabi_os.Allocator.Descriptor as Lists
use wasabi_os.Allocator.Descriptor.{
  is_conventional, region, IsPaged, IsMemoryMap, free_header, free_header-IsRegion,
  free_header-Apart, Fresh, Fresh-cons, add_free_from_descriptor_lem, free_headers,
  init_with_mmap-IsHeap,
}
use wasabi_os.Allocator.Live.{live}
use wasabi_os.Allocator.Memory.{
  cell, HeaderLayout, Memory, load, write_new, set_next, set_allocated, set_size, add_free,
  init_with_mmap,
}
use wasabi_os.Allocator.Memory.Bytes.{load-store, store_outside}
use wasabi_os.Allocator.Memory.Chain.{Chain, KeepsHeader, Linked-kept, Chain-first, IsHeap-regions}
use wasabi_os.Allocator.Memory.Writes.{Off, set_size-At, set_next-At, set_allocated-At}

module _ (layout : HeaderLayout) where
  -- The new header, in front of the chain.
  new_first : ℕ → ℕ → ℕ → Memory → Memory
  new_first a size first m = set_next layout a first (
      set_size layout a size
        (set_allocated layout a false (set_next layout a 0 (write_new layout a m))))

  new_first_at :
      (a size first : ℕ) (m : Memory)
      → size < 2 ^ 64
      → first < 2 ^ 64
      → load layout a (new_first a size first m) ≡ cell first size false
  unfolding new_first
  new_first_at a size first m hs hf =
      let m1 = write_new layout a m in
      let m2 = set_next layout a 0 m1 in
      let m3 = set_allocated layout a false m2 in
      let e1 = load-store layout a (cell 0 0 false) m (omega arith) in
      let e2 = set_next-At layout a 0 0 false m1 e1 0 (omega arith) (omega arith) in
      let e3 = set_allocated-At layout a 0 0 false m2 e2 false (omega arith) (omega arith) in
      let e4 = set_size-At layout a 0 0 false m3 e3 size (omega arith) hs in
      set_next-At layout a 0 size false (set_size layout a size m3) e4 first hf hs

  new_first_outside :
      (a size first : ℕ) (m : Memory) (x : ℕ) → Off a x → new_first a size first m x ≡ m x
  unfolding new_first
  new_first_outside a size first m x off =
      let m1 = write_new layout a m in
      let m2 = set_next layout a 0 m1 in
      let m3 = set_allocated layout a false m2 in
      let m4 = set_size layout a size m3 in
      store_outside layout a _ m4 x off
      ∙ store_outside layout a _ m3 x off
      ∙ store_outside layout a _ m2 x off
      ∙ store_outside layout a _ m1 x off
      ∙ store_outside layout a _ m x off

  add_free_lem :
      (d : EfiMemoryDescriptor) (first : ℕ) (m : Memory)
      → IsPaged d
      → let h = free_header d in
        add_free layout d (first, m)
        ≡ done (if leb h.size 4096 then (first, m) else (h.addr, new_first h.addr h.size first m))
  unfolding add_free new_first
  add_free_lem d first m p = ground arith

  -- The chain with a new region in front.
  new_first-Chain :
      (h : Header) (hs : List Header) (first : ℕ) (m : Memory)
      → h.is_allocated ≡ false
      → IsHeap (h ∷ hs)
      → Chain layout m first hs
      → Chain layout (new_first h.addr h.size first m) h.addr (h ∷ hs)
  new_first-Chain h hs first m free heap chain =
      let r = heap.0 in
      let m' = new_first h.addr h.size first m in
      let small = Chain-first layout m first hs heap.2 chain in
      (
        first,
        refl,
        new_first_at h.addr h.size first m (omega arith) small ∙ ap (cell first h.size) (sym free),
        Linked-kept layout m m' first 0 hs
            (All-imp (λ g. IsRegion g × Apart h g) (KeepsHeader m m') hs
              (λ g both x lo hi.
                let s = both.0 in
                let b = both.1 in new_first_outside h.addr h.size first m x (omega arith))
              (All-zip IsRegion (Apart h) hs (IsHeap-regions hs heap.2) heap.1))
            chain,
      )

  -- The memory that a memory map leaves stands for the list that it leaves.
  pub record Starts (ds : List EfiMemoryDescriptor) (hs : List Header) (first : ℕ) (m : Memory)
      : Type 0 where
    pub out : List Header
    pub first' : ℕ
    pub after : Memory
    pub runs : init_with_mmap layout ds (first, m) ≡ done (first', after)
    pub abstract : Lists.init_with_mmap ds hs ≡ done out
    pub chain : Chain layout after first' out

  pub init_with_mmap-Starts :
      (ds : List EfiMemoryDescriptor) (hs : List Header) (first : ℕ) (m : Memory)
      → IsMemoryMap ds
      → IsHeap hs
      → Fresh ds hs
      → Chain layout m first hs
      → Starts ds hs first m
  unfolding init_with_mmap Lists.init_with_mmap
  init_with_mmap-Starts [] hs first m map heap fresh chain = record {
    out = hs;
    first' = first;
    after = m;
    runs = refl;
    abstract = refl;
    chain = chain;
  }
  init_with_mmap-Starts (d ∷ ds) hs first m map heap fresh chain =
      let here = add_free_lem d first m map.0 in
      let there = add_free_from_descriptor_lem d hs map.0 in
      let rest = init_with_mmap-Starts ds hs first m map.2 heap fresh.1 chain in
      elim (Bool-cases (is_conventional d.memory_type)) [
        | inr skip ↦ record {
          out = rest.out;
          first' = rest.first';
          after = rest.after;
          runs = rw skip rest.runs;
          abstract = rw skip rest.abstract;
          chain = rest.chain;
        }
        | inl free ↦ elim (Bool-cases (leb (free_header d).size 4096)) [
          | inl small ↦ record {
            out = rest.out;
            first' = rest.first';
            after = rest.after;
            runs = rw (free, here, small) rest.runs;
            abstract = rw (free, there, small) rest.abstract;
            chain = rest.chain;
          }
          | inr big ↦
              let h : Header = free_header d in
              let more : 4096 < h.size = ground arith in
              let apart =
                All-imp (Apart (region d)) (Apart h) hs (λ g a. free_header-Apart d g more a)
                  fresh.0 in
              let heap' : IsHeap (h ∷ hs) = (free_header-IsRegion d map.0 more, apart, heap) in
              let m' = new_first h.addr h.size first m in
              let grown =
                init_with_mmap-Starts ds (h ∷ hs) h.addr m' map.2 heap'
                  (Fresh-cons d ds hs more map.1 fresh.1)
                  (new_first-Chain h hs first m refl heap' chain) in
              record {
                out = grown.out;
                first' = grown.first';
                after = grown.after;
                runs = rw (free, here, big) grown.runs;
                abstract = rw (free, there, big) grown.abstract;
                chain = grown.chain;
              }
        ]
      ]

  -- From a sane memory map, whatever is in memory, `init_with_mmap` leaves the chain of a heap in it:
  -- its regions are those of the descriptors of free memory that have more than a page, less page 0,
  -- and no block is live.
  pub init_with_mmap-Chain :
      (ds : List EfiMemoryDescriptor) (m : Memory)
      → IsMemoryMap ds
      → (first : ℕ) × (after : Memory) × (hs : List Header) × (init_with_mmap layout ds (0, m)
          ≡ done (first, after))
        × IsHeap hs
        × Chain layout after first hs
        × (hs ≡ free_headers ds)
        × ((q : ℕ) → live hs q ≡ none)
  init_with_mmap-Chain ds m map =
      let fresh = All-of (λ d. All (Apart (region d)) []) ds (λ d. tt) in
      let s = init_with_mmap-Starts ds [] 0 m map tt fresh refl in
      let (out, e, heap, exact, size, quiet) = init_with_mmap-IsHeap ds map in
      let same : out ≡ s.out = cc (e, s.abstract) in
      (s.first', s.after, out, s.runs, heap, rw same s.chain, exact, quiet)
