-- ===== src/Init/Tests.antt =====
-- The boot memory on a small memory map.
use wasabi_os.Common.{
  ℕ, ◌+◌, ◌^◌, ◌<◌, ◌≡◌, refl, List, [], ◌∷◌, arith, All, done, panic, some, none, true, false,
}
use wasabi_os.Uefi.{EfiMemoryDescriptor, conventional_memory, loader_code}
use wasabi_os.Allocator.Descriptor.{is_conventional}
use wasabi_os.Paging.{Machine, ok}
use wasabi_os.Paging.Walk.{walk}
use wasabi_os.Paging.Tests.{length-pages, empty_machine, empty_machine-IsFresh}
use wasabi_os.Init.{end_of, end_of_mem, init_allocator}
use wasabi_os.Graphics.{Bitmap}
use wasabi_os.Uefi.Exit.{Firmware}
use wasabi_os.Uefi.Exit.{success}
use wasabi_os.Uefi.Protocols.{Protocols}
use wasabi_os.Uefi.Tests.{filled, region, filled-Describes}
use wasabi_os.Allocator.{Header}
use wasabi_os.Allocator.Invariant.{IsHeap}
use wasabi_os.Allocator.Alloc.{total}
use wasabi_os.Allocator.Live.{live}
use wasabi_os.Allocator.Descriptor.{IsMemoryMap, total_usable, free_headers}
use wasabi_os.Init.Runtime.{init_basic_runtime, init_basic_runtime-IsHeap}
use wasabi_os.Init.Display.{
  init_display, is_usable, init_display_lem, has_display, boot_display, boot_display_lem,
  boot_display-is_done, is_done,
}
use wasabi_os.Init.Memory.{IsInRange, IsEnd, free_pages, init_allocator_lem}
use wasabi_os.Init.Tables.{init_paging, identity, init_paging-identity}

abbrev memory_map : List EfiMemoryDescriptor
memory_map =
    record {
      memory_type = loader_code;
      physical_start = 0;
      virtual_start = 0;
      number_of_pages = 16;
      attribute = 15;
    }
    ∷ record {
      memory_type = conventional_memory;
      physical_start = 0x10_0000;
      virtual_start = 0;
      number_of_pages = 0x10_0000;
      attribute = 15;
    }
    ∷ []

abbrev top : ℕ
top = 0x1_0010_0000

memory_map-IsInRange : All IsInRange memory_map
memory_map-IsInRange = (
  (record { start_aligned = refl; in_range = omega arith }, λ _. omega arith),
  ((record { start_aligned = refl; in_range = omega arith }, λ _. omega arith), tt),
)

memory_map-top : end_of_mem 0x1_0000_0000 memory_map ≡ done top
unfolding end_of_mem end_of
memory_map-top = refl

init_allocator_lem_run : init_allocator memory_map ≡ done (0x10_0000, 4096)
unfolding free_pages is_conventional
init_allocator_lem_run = init_allocator_lem memory_map (omega arith)

abbrev boot_machine : Machine
boot_machine = empty_machine 7000 0x20_0000

init_paging-identity_example :
    (root : ℕ) × (m' : Machine) × (init_paging memory_map boot_machine ≡ ok root m')
    × IsEnd 0x1_0000_0000 memory_map top
    × ((a : ℕ) → a < 2 ^ 48 → walk m'.entry root a ≡ identity top a)
init_paging-identity_example =
    init_paging-identity memory_map boot_machine top
      (empty_machine-IsFresh 7000 0x20_0000 (omega arith) (omega arith)) memory_map-IsInRange
      memory_map-top (omega (arith, length-pages 7000 0x20_0000))

abbrev small_screen : Bitmap
small_screen = record {
  bytes_per_pixel = 4;
  pixels_per_line = 128;
  width = 128;
  height = 256;
  buf = λ at. 0;
}

init_display_lem_run :
    (is_usable small_screen ≡ true → (vram' : Bitmap) × (init_display [] small_screen ≡ done vram'))
    × (is_usable small_screen ≡ false → init_display [] small_screen ≡ panic)
init_display_lem_run = init_display_lem [] small_screen (omega arith) (omega arith) (omega arith)

-- A firmware with a screen of 640 by 480 pixels.
abbrev pub with_screen : Protocols
with_screen = record {
  locate_protocol = (
    success,
    record {
      mode = record {
        mux_mode = 0;
        mode = 0;
        info = record {
          version = 0;
          horizontal_resolution = 640;
          vertival_resolution = 480;
          pixels_per_scan_line = 640;
        };
        size_of_info = 36;
        frame_buffer_base = 0x8000_0000;
        frame_buffer_size = 0x12_C000;
      };
    },
  );
  handle_protocol = λ handle. (success, record { image_base = 0; image_size = 0 });
}

boot_display_lem_run :
    (has_display with_screen.locate_protocol.1 ≡ true
      → (vram : Bitmap) × (boot_display [] (λ a. 0) with_screen ≡ done vram))
    × (has_display with_screen.locate_protocol.1 ≡ false
        → boot_display [] (λ a. 0) with_screen ≡ panic)
boot_display_lem_run = boot_display_lem [] (λ a. 0) with_screen (omega arith) (omega arith)

region-IsMemoryMap : IsMemoryMap (region ∷ [])
region-IsMemoryMap = (record { start_aligned = refl; in_range = omega arith }, tt, tt)

-- The firmware of the tests of uefi.rs, which writes its descriptors.
abbrev firmware : Firmware ℕ
firmware = record {
  get_memory_map = λ s map. (success, record filled { map_key = s }, s);
  exit_boot_services = λ s key. (success, s + 1);
}

init_basic_runtime-IsHeap_example :
    (hs : List Header) × (init_basic_runtime firmware 9 9 1
      ≡ done (some (record filled { map_key = 1 }, hs, 2)))
    × IsHeap hs
    × (hs ≡ free_headers (region ∷ []))
    × (total hs ≡ total_usable (region ∷ []))
    × ((q : ℕ) → live hs q ≡ none)
init_basic_runtime-IsHeap_example =
    init_basic_runtime-IsHeap firmware 8 9 1 (record filled { map_key = 1 }) (region ∷ [])
      (omega arith) refl (omega arith) refl filled-Describes region-IsMemoryMap

boot_display-is_done_example : is_done (boot_display [] (λ a. 0) with_screen) ≡ true
boot_display-is_done_example =
    boot_display-is_done [] (λ a. 0) with_screen (omega arith) (omega arith)
