-- ===== src/Allocator/UnitTests.antt =====
-- The unit tests malloc_align and malloc_align_random_order of allocator.rs.
use wasabi_os.Common.{
  ℕ, zero, suc, ◌+◌, ◌*◌, ◌%◌, ◌^◌, ◌≤◌, ◌≡◌, ◌≢◌, refl, max, not, false, List, [], ◌∷◌, Outcome,
  done, ◌>>=◌, ◌>>◌, assert, length, All, arith, ◌==◌,
}
use wasabi_os.Allocator.{Header, Layout, alloc_with_options}
use wasabi_os.Allocator.Invariant.{IsHeap}
use wasabi_os.Allocator.Live.{Placed-aligned, Placed-nonnull}
use wasabi_os.Allocator.Boxes.{HasRoom, HasRoom-le, taken, least_region, IsSmall}
use wasabi_os.Allocator.Boxed.{alloc_small}

-- `Layout::from_size_align(1234, align)`.
abbrev layout_1234 : ℕ → Layout
layout_1234 align = record { size = 1234; align = align }

-- The two assertions on the pointer.
abbrev tested : ℕ → ℕ × List Header → Outcome (List Header)
tested align (p, out) = assert (not (p == 0)) >> (assert (p % align == 0) >> done out)

-- The inner loop, for n pointers.
malloc_pointers : ℕ → ℕ → List Header → Outcome (List Header)
malloc_pointers zero align hs = done hs
malloc_pointers (suc n) align hs = do
  r ← alloc_with_options (layout_1234 align) hs
  out ← tested align r
  malloc_pointers n align out

-- The outer loop.
pub malloc_aligns : List ℕ → List Header → Outcome (List Header)
malloc_aligns [] hs = done hs
malloc_aligns (align ∷ aligns) hs = do out ← malloc_pointers 100 align hs; malloc_aligns aligns out

abbrev pub malloc_align : List Header → Outcome (List Header)
malloc_align = malloc_aligns (1 ∷ 2 ∷ 4 ∷ 8 ∷ 16 ∷ 32 ∷ 4096 ∷ [])

abbrev pub malloc_align_random_order : List Header → Outcome (List Header)
malloc_align_random_order = malloc_aligns (32 ∷ 4096 ∷ 8 ∷ 4 ∷ 16 ∷ 2 ∷ 1 ∷ [])

-- More than a call takes from its region, at any of these alignments.
abbrev per_call : ℕ
per_call = 6596

tested_passes :
    (align p : ℕ) (out : List Header) → p ≢ 0 → p % align ≡ 0 → tested align (p, out) ≡ done out
tested_passes align p out nonnull aligned =
    let test : (p == 0) ≡ false = ground arith in rw (test, aligned) refl

-- An alignment that the tests use.
record IsTried (align : ℕ) : Type 0 where
  small : IsSmall (layout_1234 align)
  few : taken (layout_1234 align) ≤ per_call

malloc_pointers_pass :
    (s n align : ℕ) (hs : List Header)
    → least_region ≤ s
    → IsTried align
    → IsHeap hs
    → HasRoom (s + n * per_call) hs
    → (out : List Header) × (malloc_pointers n align hs ≡ done out) × IsHeap out × HasRoom s out
unfolding malloc_pointers
malloc_pointers_pass s zero align hs big t heap room =
    (hs, refl, heap, HasRoom-le (omega arith) room)
malloc_pointers_pass s (suc n) align hs big t heap room =
    let few = t.few in
    let (p, mid, run, placed, heap', left) =
      alloc_small (s + n * per_call) (layout_1234 align) hs (omega arith) t.small heap
        (HasRoom-le (omega arith) room) in
    let passes = tested_passes align p mid (Placed-nonnull placed) (Placed-aligned placed) in
    let (out, runs, heap'', rest) = malloc_pointers_pass s n align mid big t heap' left in
    (out, rw (run, passes) runs, heap'', rest)

malloc_aligns_pass :
    (s : ℕ) (aligns : List ℕ) (hs : List Header)
    → least_region ≤ s
    → All IsTried aligns
    → IsHeap hs
    → HasRoom (s + length aligns * 100 * per_call) hs
    → (out : List Header) × (malloc_aligns aligns hs ≡ done out) × IsHeap out × HasRoom s out
unfolding malloc_aligns
malloc_aligns_pass s [] hs big t heap room = (hs, refl, heap, HasRoom-le (omega arith) room)
malloc_aligns_pass s (align ∷ aligns) hs big (t, ts) heap room =
    let (mid, run, heap', left) =
      malloc_pointers_pass (s + length aligns * 100 * per_call) 100 align hs (omega arith) t heap
        (HasRoom-le (omega arith) room) in
    let (out, runs, heap'', rest) = malloc_aligns_pass s aligns mid big ts heap' left in
    (out, rw run runs, heap'', rest)

tried :
    (shift power : ℕ)
    → max (2 ^ shift) 32 ≡ 2 ^ power
    → shift ≤ 12
    → power ≤ 12
    → 2 ^ shift ≤ 4096
    → IsTried (2 ^ shift)
tried shift power e le le' bound = record {
  small = record {
    is_layout = record { shift = shift; align_pow = refl; fits = omega arith };
    small = omega arith;
    power = power;
    align_pow = e;
    power_le = omega arith;
    pos = omega arith;
    served = omega arith;
  };
  few = omega arith;
}

one : IsTried 1
one = tried 0 5 refl (omega arith) (omega arith) (omega arith)

two : IsTried 2
two = tried 1 5 refl (omega arith) (omega arith) (omega arith)

four : IsTried 4
four = tried 2 5 refl (omega arith) (omega arith) (omega arith)

eight : IsTried 8
eight = tried 3 5 refl (omega arith) (omega arith) (omega arith)

sixteen : IsTried 16
sixteen = tried 4 5 refl (omega arith) (omega arith) (omega arith)

thirty_two : IsTried 32
thirty_two = tried 5 5 refl (omega arith) (omega arith) (omega arith)

page : IsTried 4096
page = tried 12 12 refl (omega arith) (omega arith) (omega arith)

-- On every heap with a free region of 5 MB, whatever else is in it, both tests of alignments pass: none of
-- the 1400 calls returns null, each address is a multiple of its alignment, and what is left is a
-- heap.
pub malloc_align-IsHeap :
    (hs : List Header)
    → IsHeap hs
    → HasRoom 5_000_000 hs
    → ((out : List Header) × (malloc_align hs ≡ done out) × IsHeap out)
      × ((out : List Header) × (malloc_align_random_order hs ≡ done out) × IsHeap out)
malloc_align-IsHeap hs heap room =
    let enough = HasRoom-le (omega arith) room in
    let (out, run, left, _) =
      malloc_aligns_pass least_region (1 ∷ 2 ∷ 4 ∷ 8 ∷ 16 ∷ 32 ∷ 4096 ∷ []) hs (omega arith)
        (one, (two, (four, (eight, (sixteen, (thirty_two, (page, tt))))))) heap enough in
    let (out', run', left', _) =
      malloc_aligns_pass least_region (32 ∷ 4096 ∷ 8 ∷ 4 ∷ 16 ∷ 2 ∷ 1 ∷ []) hs (omega arith)
        (thirty_two, (page, (eight, (four, (sixteen, (two, (one, tt))))))) heap enough in
    ((out, run, left), (out', run', left'))
