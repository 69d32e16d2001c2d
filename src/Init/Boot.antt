-- ===== src/Init/Boot.antt =====
-- The heap that `init_with_mmap` makes of a memory map has room in one piece, if the memory map has; and
-- the boxes that page tables take of it.
use wasabi_os.Common.{
  ℕ, zero, suc, ◌*◌, length, All, ◌≤◌, ◌<◌, ◌≡◌, ◌⊎◌, inl, inr, refl, sym, ◌∙◌, Bool-cases, true,
  false, List, [], ◌∷◌, done, arith, leb, if◌then◌else◌,
}
use wasabi_os.Uefi.{EfiMemoryDescriptor}
use wasabi_os.Allocator.{Header, Layout}
use wasabi_os.Allocator.Descriptor.{
  is_conventional, init_with_mmap, IsMemoryMap, IsPaged, free_header, add_free_from_descriptor_lem,
}
use wasabi_os.Allocator.Boxes.{
  HasRoom, at_front, behind, all_taken, layout_page_4k, IsSmall, page-IsSmall,
}
use wasabi_os.Allocator.Boxed.{AreBoxes, no_box, one_more}
use wasabi_os.Paging.Walk.{unused, AllFree}

-- The layouts of n tables.
abbrev pub pages : ℕ → List Layout
pages zero = []
pages (suc n) = layout_page_4k ∷ pages n

-- More than a table takes.
abbrev pub per_table : ℕ
per_table = 12320

pub pages-IsSmall : (n : ℕ) → All IsSmall (pages n)
pages-IsSmall zero = tt
pages-IsSmall (suc n) = (page-IsSmall, pages-IsSmall n)

pub pages_taken : (n : ℕ) → all_taken (pages n) ≡ n * per_table
pages_taken zero = omega arith
pages_taken (suc n) = omega (arith, pages_taken n)

-- Boxes for tables are free pages.
pub pages-AllFree :
    {out : List Header} (n : ℕ) (bs : List ℕ)
    → AreBoxes out (pages n) bs
    → AllFree (λ _. unused) bs × (length bs ≡ n)
pages-AllFree zero [] no_box = (tt, refl)
pages-AllFree zero (b ∷ bs) boxes = elim boxes [ ]
pages-AllFree (suc n) [] boxes = elim boxes [ ]
pages-AllFree (suc n) (b ∷ bs) (one_more box others boxes) =
    let (free, count) = pages-AllFree n bs boxes in
    (
      (record { aligned = box.aligned; in_range = box.in_range; free = refl }, others, free),
      omega (arith, count),
    )

-- The memory map has a descriptor of free memory with s bytes, page 0 not counted.
pub data HasRegion (s : ℕ) : List EfiMemoryDescriptor → Type 0 where
  at_first :
      {d : EfiMemoryDescriptor} {ds : List EfiMemoryDescriptor}
      → is_conventional d.memory_type ≡ true
      → s ≤ (free_header d).size
      → HasRegion s (d ∷ ds)
  further :
      {d : EfiMemoryDescriptor} {ds : List EfiMemoryDescriptor}
      → HasRegion s ds
      → HasRegion s (d ∷ ds)

-- The heap after one descriptor.
abbrev grow : EfiMemoryDescriptor → List Header → List Header
grow d hs =
    if is_conventional d.memory_type
    then (if leb (free_header d).size 4096 then hs else free_header d ∷ hs)
    else hs

init_with_mmap-grow :
    (d : EfiMemoryDescriptor) (ds : List EfiMemoryDescriptor) (hs : List Header)
    → IsPaged d
    → init_with_mmap (d ∷ ds) hs ≡ init_with_mmap ds (grow d hs)
unfolding init_with_mmap
init_with_mmap-grow d ds hs paged =
    let added = add_free_from_descriptor_lem d hs paged in
    elim (Bool-cases (is_conventional d.memory_type)) [
      | inl free ↦ rw (free, added) refl
      | inr skip ↦ rw skip refl
    ]

grow-HasRoom :
    {s : ℕ} (d : EfiMemoryDescriptor) (hs : List Header) → HasRoom s hs → HasRoom s (grow d hs)
grow-HasRoom d hs room = elim (Bool-cases (is_conventional d.memory_type)) [
  | inr skip ↦ rw skip room
  | inl free ↦ elim (Bool-cases (leb (free_header d).size 4096)) [
    | inl small ↦ rw (free, small) room
    | inr big ↦ rw (free, big) (behind room)
  ]
]

new-HasRoom :
    {s : ℕ} (d : EfiMemoryDescriptor) (hs : List Header)
    → 4096 < s
    → is_conventional d.memory_type ≡ true
    → s ≤ (free_header d).size
    → HasRoom s (grow d hs)
new-HasRoom d hs big free fits =
    let more : leb (free_header d).size 4096 ≡ false = ground arith in
    rw (free, more) (at_front refl fits)

pub init-HasRoom :
    {s : ℕ} (ds : List EfiMemoryDescriptor) (hs out : List Header)
    → 4096 < s
    → IsMemoryMap ds
    → init_with_mmap ds hs ≡ done out
    → HasRoom s hs ⊎ HasRegion s ds
    → HasRoom s out
unfolding init_with_mmap
init-HasRoom [] hs out big map e (inl room) = let same : hs ≡ out = cc in rw (← same) room
init-HasRoom [] hs out big map e (inr region) = elim region [ ]
init-HasRoom (d ∷ ds) hs out big map e (inl room) =
    init-HasRoom ds (grow d hs) out big map.2 (sym (init_with_mmap-grow d ds hs map.0) ∙ e)
      (inl (grow-HasRoom d hs room))
init-HasRoom (d ∷ ds) hs out big map e (inr (at_first free fits)) =
    init-HasRoom ds (grow d hs) out big map.2 (sym (init_with_mmap-grow d ds hs map.0) ∙ e)
      (inl (new-HasRoom d hs big free fits))
init-HasRoom (d ∷ ds) hs out big map e (inr (further region)) =
    init-HasRoom ds (grow d hs) out big map.2 (sym (init_with_mmap-grow d ds hs map.0) ∙ e)
      (inr region)
