-- ===== src/Init/Runtime.antt =====
-- init.rs, `init_basic_runtime`: the boot services are left, and the memory map gives the heap.
use wasabi_os.Common.{
  ℕ, suc, ◌*◌, ◌<◌, ◌≡◌, refl, Option, none, some, List, [], Outcome, done, ◌>>=◌, length, arith,
}
use wasabi_os.Uefi.{EfiMemoryDescriptor, MemoryMapHolder, new_memory_map, iter, collect}
use wasabi_os.Uefi.Exit.{
  Firmware, exit_from_boot_services, first_map, after_first, exit_from_boot_services_lem,
}
use wasabi_os.Uefi.MemoryMap.{Describes, collect-from}
use wasabi_os.Allocator.{Header}
use wasabi_os.Allocator.Invariant.{IsHeap}
use wasabi_os.Allocator.Alloc.{total}
use wasabi_os.Allocator.Live.{live}
use wasabi_os.Allocator.Descriptor.{
  init_with_mmap, IsMemoryMap, total_usable, free_headers, init_with_mmap-IsHeap,
}

-- The memory map and the first header of the allocator, with `none` where fuel is used up or a byte is no
-- memory type.
abbrev init_heap :
    {S : Type 0}
    → MemoryMapHolder
    → S
    → Option (List EfiMemoryDescriptor)
    → Outcome (Option (MemoryMapHolder × List Header × S))
init_heap map s none = done none
init_heap map s (some descriptors) =
    init_with_mmap descriptors [] >>= λ first_header. done (some (map, first_header, s))

abbrev after_exit :
    {S : Type 0}
    → ℕ
    → Option (MemoryMapHolder × S)
    → Outcome (Option (MemoryMapHolder × List Header × S))
after_exit reads none = done none
after_exit reads (some (map, s)) = init_heap map s (collect reads (iter map))

-- `rounds` bounds the attempts to exit, `reads` the calls of the iterator of the memory map.
unfoldable pub init_basic_runtime :
    {S : Type 0} → Firmware S → ℕ → ℕ → S → Outcome (Option (MemoryMapHolder × List Header × S))
init_basic_runtime fw rounds reads s =
    exit_from_boot_services fw rounds s new_memory_map >>= after_exit reads

-- The firmware is left with its first memory map, whose iteration gives the descriptors that stand in
-- it, and with the heap that they give.
pub init_basic_runtime_runs :
    {S : Type 0} (fw : Firmware S) (rounds reads : ℕ) (s : S) (map : MemoryMapHolder)
    (es : List EfiMemoryDescriptor) (hs : List Header)
    → length es < reads
    → first_map fw s new_memory_map ≡ map
    → 0 < map.descriptor_size
    → length es * map.descriptor_size ≡ map.memory_map_size
    → Describes map.memory_map_buffer map.descriptor_size 0 es
    → init_with_mmap es [] ≡ done hs
    → (init_basic_runtime fw (suc rounds) reads s
        ≡ done (some (map, hs, after_first fw s new_memory_map)))
      × (collect reads (iter map) ≡ some es)
unfolding init_basic_runtime
init_basic_runtime_runs fw rounds reads s map es hs few given pos size holds runs =
    let left = exit_from_boot_services_lem fw rounds s new_memory_map in
    let seen = collect-from map pos es reads 0 few (omega arith) holds in
    (rw (left, given, seen, runs) refl, seen)

-- If the first memory map of the firmware is the descriptors `es`, which do not overlap, the boot services
-- are left with a well-formed heap: a region for each descriptor of free memory that has more than a
-- page, less page 0, and nothing allocated.
pub init_basic_runtime-IsHeap :
    {S : Type 0} (fw : Firmware S) (rounds reads : ℕ) (s : S) (map : MemoryMapHolder)
    (es : List EfiMemoryDescriptor)
    → length es < reads
    → first_map fw s new_memory_map ≡ map
    → 0 < map.descriptor_size
    → length es * map.descriptor_size ≡ map.memory_map_size
    → Describes map.memory_map_buffer map.descriptor_size 0 es
    → IsMemoryMap es
    → (hs : List Header) × (init_basic_runtime fw (suc rounds) reads s
        ≡ done (some (map, hs, after_first fw s new_memory_map)))
      × IsHeap hs
      × (hs ≡ free_headers es)
      × (total hs ≡ total_usable es)
      × ((q : ℕ) → live hs q ≡ none)
init_basic_runtime-IsHeap fw rounds reads s map es few given pos size holds mapped =
    let (hs, runs, heap, exact, sum, empty) = init_with_mmap-IsHeap es mapped in
    let (left, _) =
      init_basic_runtime_runs fw rounds reads s map es hs few given pos size holds runs in
    (hs, left, heap, exact, sum, empty)
