-- ===== src/Allocator/Tests.antt =====
-- Runs of the allocator at a small memory map, and its theorems there.
use wasabi_os.Common.{
  ℕ, ◌+◌, ◌*◌, ◌%◌, ◌^◌, ◌≤◌, ◌<◌, ◌≡◌, ◌≢◌, ◌⊎◌, inl, refl, true, false, none, some, List, [], ◌∷◌,
  done, arith, ok, err,
}
use wasabi_os.Uefi.{EfiMemoryDescriptor, conventional_memory, loader_code}
use wasabi_os.Allocator.{
  Header, header, Layout, leading_zeros, round_up_to_nearest_pow2, can_provide, carve, try_carve,
  provide, resume, alloc_with_options, dealloc,
}
use wasabi_os.Allocator.Invariant.{IsHeap}
use wasabi_os.Allocator.Pow2.{round_up_to_nearest_pow2_lem, round_up_to_nearest_pow2_err}
use wasabi_os.Allocator.Provide.{IsLayout, Provided, provide_lem}
use wasabi_os.Allocator.Slack.{provide_refuses_fit}
use wasabi_os.Allocator.Alloc.{total}
use wasabi_os.Allocator.Live.{live, Freed, dealloc-live}
use wasabi_os.Allocator.Descriptor.{
  is_conventional, add_free_from_descriptor, init_with_mmap, IsMemoryMap, total_usable,
  free_headers, init_with_mmap-IsHeap,
}
use wasabi_os.Allocator.Boxes.{at_front, behind}
use wasabi_os.Allocator.UnitTests.{malloc_align, malloc_align_random_order, malloc_align-IsHeap}
use wasabi_os.Allocator.Contract.{
  Answer, Reach, alloc, here, later, alloc_with_options-Answer, allocator_safe,
}

-- The table of `round_up_to_nearest_pow2_tests`.
rounds_nine : round_up_to_nearest_pow2 9 ≡ ok 16
unfolding round_up_to_nearest_pow2 leading_zeros
rounds_nine = refl

rounds_one : round_up_to_nearest_pow2 1 ≡ ok 1
unfolding round_up_to_nearest_pow2 leading_zeros
rounds_one = refl

round_up_to_nearest_pow2_lem_run :
    (k : ℕ) × (round_up_to_nearest_pow2 9 ≡ ok (2 ^ k)) × (k < 64) × (9 ≤ 2 ^ k) × (2 ^ k < 2 * 9)
round_up_to_nearest_pow2_lem_run = round_up_to_nearest_pow2_lem 9 (omega arith) (omega arith)

round_up_to_nearest_pow2_err_run : round_up_to_nearest_pow2 0 ≡ err "Out of range"
round_up_to_nearest_pow2_err_run = round_up_to_nearest_pow2_err 0 (omega arith) (inl refl)

abbrev pub memory_map : List EfiMemoryDescriptor
memory_map =
    record {
      memory_type = loader_code;
      physical_start = 0;
      virtual_start = 0;
      number_of_pages = 16;
      attribute = 15;
    }
    ∷ record {
      memory_type = conventional_memory;
      physical_start = 0x10_0000;
      virtual_start = 0;
      number_of_pages = 256;
      attribute = 15;
    }
    ∷ []

abbrev free_region : Header
free_region = header 0x10_0000 0x10_0000 false

pub memory_map-IsMemoryMap : IsMemoryMap memory_map
memory_map-IsMemoryMap = omega arith

init_runs : init_with_mmap memory_map [] ≡ done (free_region ∷ [])
unfolding init_with_mmap add_free_from_descriptor is_conventional
init_runs = refl

init_with_mmap-IsHeap_example :
    (out : List Header) × (init_with_mmap memory_map [] ≡ done out)
    × IsHeap out
    × (out ≡ free_headers memory_map)
    × (total out ≡ total_usable memory_map)
    × ((q : ℕ) → live out q ≡ none)
init_with_mmap-IsHeap_example = init_with_mmap-IsHeap memory_map memory_map-IsMemoryMap

-- The layout of the test `malloc_align`.
abbrev layout : Layout
layout = record { size = 1234; align = 4096 }

layout_fits : layout.size + layout.align ≤ 2 ^ 63
layout_fits = omega arith

abbrev layout-IsLayout : IsLayout layout
layout-IsLayout = record { shift = 12; align_pow = refl; fits = layout_fits }

abbrev after : List Header
after =
    header 0x10_0000 0xf_efe0 false ∷ header 0x1f_efe0 2080 true ∷ header 0x1f_f800 2048 false ∷ []

alloc_runs : alloc_with_options layout (free_region ∷ []) ≡ done (0x1f_f000, after)
unfolding alloc_with_options resume provide round_up_to_nearest_pow2 leading_zeros try_carve
    can_provide carve
alloc_runs = refl

free_region-IsHeap : IsHeap (free_region ∷ [])
free_region-IsHeap = (omega arith, tt, tt)

alloc_with_options-Answer_example :
    (p : ℕ) × (out : List Header) × (alloc_with_options layout (free_region ∷ []) ≡ done (p, out))
    × Answer layout (free_region ∷ []) p out
alloc_with_options-Answer_example =
    alloc_with_options-Answer layout layout-IsLayout (free_region ∷ []) (omega arith)
      free_region-IsHeap

provide_lem_run : Provided free_region layout
provide_lem_run = provide_lem free_region layout (omega arith) layout-IsLayout (omega arith)

after-IsHeap : IsHeap after
after-IsHeap = omega arith

dealloc-live_example :
    (out : List Header) × (dealloc 0x1f_f000 after ≡ some out) × Freed 0x1f_f000 after out
dealloc-live_example = dealloc-live 0x1f_f000 2048 after after-IsHeap (unfold live in refl)

layout_runs : Reach (free_region ∷ []) after
layout_runs = later here (alloc layout layout-IsLayout (omega arith) alloc_runs)

allocator_safe_example :
    (total after ≡ total_usable memory_map)
    × ((p q n m : ℕ)
        → live after p ≡ some n
        → live after q ≡ some m
        → p ≢ q
        → (p + n ≤ q) ⊎ (q + m ≤ p))
allocator_safe_example = allocator_safe memory_map memory_map-IsMemoryMap init_runs layout_runs

-- 1 MiB, and a request of 2 KiB at an alignment of 32 KiB: it would fit, and is refused.
abbrev wide : Layout
wide = record { size = 2048; align = 32768 }

provide_refuses_fit_example :
    (provide free_region 2048 32768 ≡ done none)
    × ((p : ℕ) × (hs : List Header) × (carve free_region 2048 32768 ≡ done (p, hs))
        × (p % 32768 ≡ 0))
provide_refuses_fit_example =
    provide_refuses_fit free_region wide
      (record { shift = 15; align_pow = refl; fits = omega arith }) 11 (omega arith) (omega arith)
      (omega arith) (omega arith) refl refl (omega arith) (omega arith)

-- A free region behind a live block.
abbrev half_free : List Header
half_free = header 0x10_0000 0x1000 true ∷ header 0x10_1000 0x80_0000 false ∷ []

half_free-IsHeap : IsHeap half_free
half_free-IsHeap = (omega arith, (inl (omega arith), tt), (omega arith, tt, tt))

malloc_align-IsHeap_example :
    ((out : List Header) × (malloc_align half_free ≡ done out) × IsHeap out)
    × ((out : List Header) × (malloc_align_random_order half_free ≡ done out) × IsHeap out)
malloc_align-IsHeap_example =
    malloc_align-IsHeap half_free half_free-IsHeap (behind (at_front refl (omega arith)))
