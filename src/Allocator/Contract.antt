-- ===== src/Allocator/Contract.antt =====
-- What the allocator promises: a map of live blocks to which `alloc` adds and from which `dealloc`
-- removes, over regions that never overlap, for every sequence of calls.
use wasabi_os.Common.{
  ℕ, ◌+◌, ◌%◌, ◌≤◌, ◌≡◌, ◌≢◌, ◌⊎◌, inl, inr, refl, ◌∙◌, none, some, List, [], ◌==◌, ap, done, All,
  if◌then◌else◌,
}
use wasabi_os.Uefi.{EfiMemoryDescriptor}
use wasabi_os.Allocator.{Header, Layout, alloc_with_options, dealloc}
use wasabi_os.Allocator.Invariant.{IsHeap}
use wasabi_os.Allocator.Provide.{IsLayout, max_shift, NoRoom}
use wasabi_os.Allocator.Alloc.{alloc_lem, total, Placed-total, Placed-IsHeap}
use wasabi_os.Allocator.Live.{
  live, Placed-live, Placed-fresh, Placed-aligned, Placed-nonnull, dealloc-live, live_apart,
}
use wasabi_os.Allocator.Descriptor.{
  IsMemoryMap, total_usable, init_with_mmap, init_with_mmap-IsHeap,
}

-- The block that a successful call adds to the view.
pub record Added (l : Layout) (p : ℕ) (hs out : List Header) : Type 0 where
  pub nonnull : p ≢ 0
  pub aligned : p % l.align ≡ 0
  pub fresh : live hs p ≡ none
  pub block : ℕ
  pub room : l.size ≤ block
  pub view : (q : ℕ) → live out q ≡ (if p == q then some block else live hs q)

-- The outcome of a call of `alloc_with_options`.
pub record Answer (l : Layout) (hs : List Header) (p : ℕ) (out : List Header) : Type 0 where
  pub heap : IsHeap out
  pub size : total out ≡ total hs
  pub cases : ((p ≡ 0) × (out ≡ hs) × All (NoRoom l) hs) ⊎ Added l p hs out

-- On a heap, and for an alignment of at most 2^56, the call never panics and the result is a heap
-- with as many bytes. Either it is null and nothing has changed, because no region had room; or it
-- is a new, aligned block with the bytes asked for, and every other block is as before.
pub alloc_with_options-Answer :
    (l : Layout) (y : IsLayout l) (hs : List Header)
    → y.shift ≤ max_shift
    → IsHeap hs
    → (p : ℕ) × (out : List Header) × (alloc_with_options l hs ≡ done (p, out)) × Answer l hs p out
alloc_with_options-Answer l y hs small heap = elim (alloc_lem l y small hs heap) [
  | inl (e, why) ↦ (0, hs, e, record { heap = heap; size = refl; cases = inl (refl, refl, why) })
  | inr (p, out, e, placed) ↦
      let (n, room, view) = Placed-live placed heap in
      (
        p,
        out,
        e,
        record {
          heap = Placed-IsHeap placed heap;
          size = Placed-total placed;
          cases = inr (record {
            nonnull = Placed-nonnull placed;
            aligned = Placed-aligned placed;
            fresh = Placed-fresh placed heap;
            block = n;
            room = room;
            view = view;
          });
        },
      )
]

-- A call of the allocator that the rules of `GlobalAlloc` allow: a layout that can be built, or the
-- pointer of a live block.
pub data Step (hs out : List Header) : Type 0 where
  alloc :
      {p : ℕ} (l : Layout) (y : IsLayout l)
      → y.shift ≤ max_shift
      → alloc_with_options l hs ≡ done (p, out)
      → Step hs out
  free : {n : ℕ} (p : ℕ) → live hs p ≡ some n → dealloc p hs ≡ some out → Step hs out

pub data Reach (start : List Header) : List Header → Type 0 where
  here : Reach start start
  later : {hs out : List Header} → Reach start hs → Step hs out → Reach start out

Step-IsHeap : {hs out : List Header} → Step hs out → IsHeap hs → IsHeap out × (total out ≡ total hs)
Step-IsHeap {hs} {out} (alloc l y small e) heap =
    let (p', out', e', a) = alloc_with_options-Answer l y hs small heap in
    let same : out ≡ out' = cc in rw same (a.heap, a.size)
Step-IsHeap {hs} {out} (free {n} p e d) heap =
    let (out', d', f) = dealloc-live p n hs heap e in
    let same : out ≡ out' = cc in rw same (f.heap, f.size)

Reach-IsHeap :
    {start hs : List Header} → IsHeap start → Reach start hs → IsHeap hs × (total hs ≡ total start)
Reach-IsHeap heap here = (heap, refl)
Reach-IsHeap heap (later r s) =
    let (before, size) = Reach-IsHeap heap r in
    let (after, same) = Step-IsHeap s before in (after, same ∙ size)

-- Whatever calls follow the initialisation from a sane memory map, no byte of the heap is lost and
-- two live blocks never overlap.
pub allocator_safe :
    (ds : List EfiMemoryDescriptor) {start hs : List Header}
    → IsMemoryMap ds
    → init_with_mmap ds [] ≡ done start
    → Reach start hs
    → (total hs ≡ total_usable ds)
      × ((p q n m : ℕ)
          → live hs p ≡ some n
          → live hs q ≡ some m
          → p ≢ q
          → (p + n ≤ q) ⊎ (q + m ≤ p))
allocator_safe ds {start} {hs} map e r =
    let (start', e', heap', _, size, _) = init_with_mmap-IsHeap ds map in
    let same : start ≡ start' = cc in
    let heap : IsHeap start = rw same heap' in
    let (after, kept) = Reach-IsHeap heap r in
    (kept ∙ (ap total same ∙ size), λ p q n m a b ne. live_apart hs p q n m after a b ne)
