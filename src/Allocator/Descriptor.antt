-- ===== src/Allocator/Descriptor.antt =====
-- `init_with_mmap` and `add_free_from_descriptor` of allocator.rs: the heap that the firmware's
-- memory map gives.
use mathlib.Core.List.{append_assoc, append-nil}
use wasabi_os.Common.{
  ℕ, ◌∙◌, ◌++◌, ◌&&◌, ltb, ◌+◌, ◌-◌, ◌*◌, ◌%◌, ◌^◌, ◌<◌, ◌≡◌, refl, true, false, Bool, none, List,
  [], ◌∷◌, Outcome, done, ◌>>=◌, checked_mul, arith, All, All-imp, All-zip, All-of, inl, inr, leb,
  ◌==◌, if◌then◌else◌, Bool-cases,
}
use wasabi_os.Uefi.{EfiMemoryType, conventional_memory, EfiMemoryDescriptor}
use wasabi_os.Allocator.{Header, header, new_from_addr}
use wasabi_os.Allocator.Invariant.{IsRegion, Apart, IsHeap}
use wasabi_os.Allocator.Alloc.{total}
use wasabi_os.Allocator.Live.{live}

unfoldable pub is_conventional : EfiMemoryType → Bool
is_conventional conventional_memory = true
is_conventional _ = false

-- The chain grows at its front.
unfoldable pub add_free_from_descriptor : EfiMemoryDescriptor → List Header → Outcome (List Header)
add_free_from_descriptor desc first_header = do
  bytes ← checked_mul desc.number_of_pages 4096
  let at_zero = desc.physical_start == 0
  let start_addr = if at_zero then 4096 else desc.physical_start
  let size = if at_zero then bytes - 4096 else bytes
  if leb size 4096
      then done first_header
      else done (record (new_from_addr start_addr) { size = size } ∷ first_header)

unfoldable pub init_with_mmap : List EfiMemoryDescriptor → List Header → Outcome (List Header)
init_with_mmap [] first_header = done first_header
init_with_mmap (e ∷ es) first_header =
    if is_conventional e.memory_type
    then (do
      first_header' ← add_free_from_descriptor e first_header
      init_with_mmap es first_header')
    else init_with_mmap es first_header

-- The bytes that a descriptor speaks of, as a region.
abbrev pub region : EfiMemoryDescriptor → Header
region d = header d.physical_start (d.number_of_pages * 4096) false

-- What UEFI guarantees of one descriptor: it begins at a page, and ends inside the address space.
pub record IsPaged (d : EfiMemoryDescriptor) : Type 0 where
  pub start_aligned : d.physical_start % 4096 ≡ 0
  pub in_range : d.physical_start + d.number_of_pages * 4096 < 2 ^ 64

-- What UEFI guarantees of a memory map: its descriptors do not overlap.
abbrev pub IsMemoryMap : List EfiMemoryDescriptor → Type 0
IsMemoryMap [] = Unit
IsMemoryMap (d ∷ ds) = IsPaged d × All (λ e. Apart (region d) (region e)) ds × IsMemoryMap ds

-- The region that a descriptor of free memory gives: page 0 is left out.
abbrev pub free_header : EfiMemoryDescriptor → Header
free_header d =
    let bytes : ℕ = d.number_of_pages * 4096 in
    header (if d.physical_start == 0 then 4096 else d.physical_start)
      (if d.physical_start == 0 then bytes - 4096 else bytes) false

-- How much of a descriptor becomes heap: free memory, unless a page or less is left of it.
abbrev pub usable : EfiMemoryDescriptor → ℕ
usable d =
    let size : ℕ = (free_header d).size in
    if is_conventional d.memory_type then (if leb size 4096 then 0 else size) else 0

pub total_usable : List EfiMemoryDescriptor → ℕ
total_usable [] = 0
total_usable (d ∷ ds) = usable d + total_usable ds

pub add_free_from_descriptor_lem :
    (d : EfiMemoryDescriptor) (hs : List Header)
    → IsPaged d
    → add_free_from_descriptor d hs
      ≡ done (if leb (free_header d).size 4096 then hs else free_header d ∷ hs)
unfolding add_free_from_descriptor
add_free_from_descriptor_lem d hs p = ground arith

pub free_header-IsRegion :
    (d : EfiMemoryDescriptor) → IsPaged d → 4096 < (free_header d).size → IsRegion (free_header d)
free_header-IsRegion d p h = ground arith

-- What is apart from the whole descriptor is apart from the region in it.
pub free_header-Apart :
    (d : EfiMemoryDescriptor) (h : Header)
    → 4096 < (free_header d).size
    → Apart (region d) h
    → Apart (free_header d) h
free_header-Apart d h big a = ground arith

-- Every region of the list is apart from the headers so far.
abbrev pub Fresh : List EfiMemoryDescriptor → List Header → Type 0
Fresh ds hs = All (λ d. All (Apart (region d)) hs) ds

pub Fresh-cons :
    (d : EfiMemoryDescriptor) (ds : List EfiMemoryDescriptor) (hs : List Header)
    → 4096 < (free_header d).size
    → All (λ e. Apart (region d) (region e)) ds
    → Fresh ds hs
    → Fresh ds (free_header d ∷ hs)
Fresh-cons d ds hs big apart fresh =
    All-imp (λ e. Apart (region d) (region e) × All (Apart (region e)) hs)
      (λ e. All (Apart (region e)) (free_header d ∷ hs)) ds
      (λ e both. (ground (arith, free_header-Apart d (region e) big both.0), both.1))
      (All-zip (λ e. Apart (region d) (region e)) (λ e. All (Apart (region e)) hs) ds apart fresh)

-- The regions that a memory map gives: one for each descriptor of free memory that has more than a page,
-- those of later descriptors in front.
pub free_headers : List EfiMemoryDescriptor → List Header
free_headers [] = []
free_headers (d ∷ ds) =
    free_headers ds
    ++ (if is_conventional d.memory_type && ltb 4096 (free_header d).size
        then free_header d ∷ []
        else [])

-- The heap that a list of descriptors makes of a heap.
record Initialised (ds : List EfiMemoryDescriptor) (hs out : List Header) : Type 0 where
  runs : init_with_mmap ds hs ≡ done out
  heap : IsHeap out
  size : total out ≡ total hs + total_usable ds
  same : (q : ℕ) → live out q ≡ live hs q
  exact : out ≡ free_headers ds ++ hs

init_with_mmap-from :
    (ds : List EfiMemoryDescriptor) (hs : List Header)
    → IsMemoryMap ds
    → IsHeap hs
    → Fresh ds hs
    → (out : List Header) × Initialised ds hs out
unfolding init_with_mmap total total_usable live free_headers
init_with_mmap-from [] hs map heap fresh =
    (hs, record { runs = refl; heap = heap; size = omega arith; same = λ q. refl; exact = refl })
init_with_mmap-from (d ∷ ds) hs map heap fresh =
    let added = add_free_from_descriptor_lem d hs map.0 in
    let (out, rest) = init_with_mmap-from ds hs map.2 heap fresh.1 in
    elim (Bool-cases (is_conventional d.memory_type)) [
      | inr skip ↦ (
        out,
        record {
          runs = rw skip rest.runs;
          heap = rest.heap;
          size = rw skip (omega (arith, rest.size));
          same = rest.same;
          exact = rw (skip, append-nil (free_headers ds)) rest.exact;
        },
      )
      | inl free ↦ elim (Bool-cases (leb (free_header d).size 4096)) [
        | inl small ↦ (
          out,
          record {
            runs = rw (free, added, small) rest.runs;
            heap = rest.heap;
            size = rw (free, small) (omega (arith, rest.size));
            same = rest.same;
            exact =
                let no_more : ltb 4096 (free_header d).size ≡ false = ground arith in
                rw (free, no_more, append-nil (free_headers ds)) rest.exact;
          },
        )
        | inr big ↦
            let more : 4096 < (free_header d).size = ground arith in
            let apart =
              All-imp (Apart (region d)) (Apart (free_header d)) hs
                (λ h a. free_header-Apart d h more a) fresh.0 in
            let (out', grown) =
              init_with_mmap-from ds (free_header d ∷ hs) map.2
                (free_header-IsRegion d map.0 more, apart, heap)
                (Fresh-cons d ds hs more map.1 fresh.1) in
            (
              out',
              record {
                runs = rw (free, added, big) grown.runs;
                heap = grown.heap;
                size = rw (free, big) (omega (arith, grown.size));
                same = grown.same;
                exact =
                    let has : ltb 4096 (free_header d).size ≡ true = ground arith in
                    rw (free, has, append_assoc (free_headers ds) (free_header d ∷ []) hs)
                      grown.exact;
              },
            )
      ]
    ]

-- From a sane memory map the allocator makes a heap of non-overlapping regions: one for each descriptor
-- of free memory that has more than a page, at its place and with its size, less page 0. Their bytes
-- are those of these descriptors, and no block is live.
pub init_with_mmap-IsHeap :
    (ds : List EfiMemoryDescriptor)
    → IsMemoryMap ds
    → (out : List Header) × (init_with_mmap ds [] ≡ done out)
      × IsHeap out
      × (out ≡ free_headers ds)
      × (total out ≡ total_usable ds)
      × ((q : ℕ) → live out q ≡ none)
unfolding total live
init_with_mmap-IsHeap ds map =
    let fresh = All-of (λ d. All (Apart (region d)) []) ds (λ d. tt) in
    let (out, i) = init_with_mmap-from ds [] map tt fresh in
    (out, i.runs, i.heap, i.exact ∙ append-nil (free_headers ds), omega (arith, i.size), i.same)
