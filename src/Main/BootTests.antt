-- ===== src/Main/BootTests.antt =====
-- The boot on a small machine: 128 MiB of free memory from 1 MiB on, a screen, a timer and a bus.
use wasabi_os.Common.{
  ℕ, List, ◌∷◌, map, ◌+◌, ◌*◌, ◌≤◌, ◌≡◌, refl, sym, none, some, [], ◌∷◌, done, arith, ◌==◌,
  if◌then◌else◌,
}
use wasabi_os.Uefi.{
  EfiMemoryDescriptor, conventional_memory, MemoryMapHolder, new_memory_map, memory_type_of,
  read_le, descriptor_at,
}
use wasabi_os.Uefi.Config.{efi_acpi_table_guid, acpi_table, lookup_config_table, lookup_from}
use wasabi_os.Uefi.Exit.{success, Firmware}
use wasabi_os.Acpi.{length_at}
use wasabi_os.Hpet.Tests.{registers}
use wasabi_os.Exceptions.Tests.{points, points-AreAddresses, firmware as segments}
use wasabi_os.Allocator.Descriptor.{is_conventional}
use wasabi_os.Pci.Probe.{present_devices}
use wasabi_os.Paging.Supply.{cost}
use wasabi_os.Init.{end_of, end_of_mem}
use wasabi_os.Init.Memory.{free_pages}
use wasabi_os.Allocator.Boxes.{all_taken, least_region}
use wasabi_os.Init.Boot.{at_first, pages, pages_taken}
use wasabi_os.Init.Bus.{Printed, entry as entry_line, device}
use wasabi_os.Init.Tests.{with_screen}
use wasabi_os.Init.DeviceTests.{with_address, init_hpet_found, config_space, table, table-HasRoom}
use wasabi_os.Main.Entry.{Platform, Kernel, exception_layouts, efi_main}
use wasabi_os.Main.Boot.{HasScreen, HasMemory, HasDevices, IsBooted, efi_main-IsBooted}

abbrev free_memory : EfiMemoryDescriptor
free_memory = record {
  memory_type = conventional_memory;
  physical_start = 0x10_0000;
  virtual_start = 0;
  number_of_pages = 0x8000;
  attribute = 0;
}

-- The memory map as the firmware writes it.
abbrev bytes : ℕ → ℕ
bytes i = if i == 0 then 7 else if i == 10 then 0x10 else if i == 25 then 0x80 else 0

abbrev written : MemoryMapHolder
written = record new_memory_map {
  memory_map_buffer = bytes;
  memory_map_size = 48;
  map_key = 3;
  descriptor_size = 48;
}

-- The state counts the exits.
abbrev firmware : Firmware ℕ
firmware = record {
  get_memory_map = λ s map. (success, written, s);
  exit_boot_services = λ s key. (success, s + 1);
}

abbrev machine : Platform ℕ ℕ
machine = record {
  services = with_screen;
  image_handle = 1;
  number_of_table_entries = 1;
  configuration = λ i. record { vendor_guid = efi_acpi_table_guid; vendor_table = 0 };
  font = [];
  vram = λ a. 0;
  console = record { device = 0; writer = none };
  firmware = firmware;
  start = 1;
  points = points;
  segments = segments;
  entry = λ t i. 0;
  memory = with_address;
  registers = λ a. registers;
  mcfg = λ rsdp. some table;
  config_space = config_space;
  ticks = 1000;
}

abbrev top : ℕ
top = 0x1_0000_0000

abbrev n : ℕ
n = cost 0 top + 7

room_for :
    (m : ℕ)
    → m ≤ 6154
    → least_region + all_taken (pages m) + all_taken exception_layouts ≤ 0x8000 * 4096
room_for m le = omega (arith, pages_taken m)

enough_room : least_region + all_taken (pages n) + all_taken exception_layouts ≤ 0x8000 * 4096
enough_room = room_for n (omega arith)

-- What is printed of the bus.
abbrev lines : List Printed
lines = entry_line 0xB000_0000 ∷ map device (present_devices 0xB000_0000 config_space 0 65536)

machine-HasScreen : HasScreen machine with_screen.locate_protocol.1
machine-HasScreen = record {
  screen = refl;
  wide = omega arith;
  high = omega arith;
  usable = refl;
  unset = refl;
}

machine-HasMemory : HasMemory machine (free_memory ∷ []) top n
unfolding descriptor_at memory_type_of read_le is_conventional free_pages end_of_mem end_of
machine-HasMemory = record {
  map = written;
  given = refl;
  few = omega arith;
  stride = omega arith;
  whole = refl;
  describes = (refl, tt);
  sane = (record { start_aligned = refl; in_range = omega arith }, tt, tt);
  paged = ((record { start_aligned = refl; in_range = omega arith }, λ _. omega arith), tt);
  total = omega arith;
  end = refl;
  enough = omega arith;
  region = at_first refl enough_room;
  word = λ t i. omega arith;
}

machine-HasDevices : HasDevices machine 0xFED0_0000 lines
unfolding length_at read_le acpi_table lookup_config_table lookup_from
machine-HasDevices = record {
  rsdp = 0;
  xsdt = 64;
  table = refl;
  at_24 = refl;
  long = omega arith;
  few = omega arith;
  found = init_hpet_found;
  timer = record { word = omega arith; word' = omega arith; period = λ z. omega arith };
  windows = λ t e. let same : table ≡ t = cc in rw (sym same) table-HasRoom;
  bus = refl;
}

efi_main-IsBooted_example :
    (k : Kernel ℕ) × (efi_main machine 65537 n ≡ done (some k))
    × IsBooted machine top n 0xFED0_0000 lines k
efi_main-IsBooted_example =
    efi_main-IsBooted machine with_screen.locate_protocol.1 top n 0xFED0_0000 (free_memory ∷ [])
      lines machine-HasScreen machine-HasMemory machine-HasDevices points-AreAddresses
