-- ===== src/Main/Boot.antt =====
-- `efi_main` of main.rs comes to its tasks: the components in their order, each on what the ones before
-- it have left.
use wasabi_os.Common.{
  ℕ, ◌∙◌, ◌/◌, ◌%◌, ◌+◌, ◌*◌, ◌^◌, ◌≤◌, ◌<◌, ◌≡◌, ◌≢◌, inr, refl, ap, true, Option, none, some, ok,
  List, [], ◌∷◌, ◌++◌, done, length, get_elem?, All, arith,
}
use wasabi_os.Uefi.{EfiMemoryDescriptor, MemoryMapHolder, new_memory_map, read_le}
use wasabi_os.Uefi.Config.{acpi_table}
use wasabi_os.Uefi.Exit.{EfiStatus, success, first_map}
use wasabi_os.Uefi.MemoryMap.{Describes}
use wasabi_os.Uefi.Protocols.{
  EfiGraphicsOutputProtocol, checked_status, framebuffer, vram_of, init_vram,
  locate_graphic_protocol, locate_loaded_image_protocol,
}
use wasabi_os.Acpi.{table_header_size, length_at}
use wasabi_os.Acpi.Search.{entries}
use wasabi_os.Allocator.{Header}
use wasabi_os.Allocator.Invariant.{IsHeap}
use wasabi_os.Allocator.Descriptor.{IsMemoryMap, init_with_mmap-IsHeap}
use wasabi_os.Graphics.Text.{new as new_writer}
use wasabi_os.Exceptions.Tables.{AreAddresses}
use wasabi_os.Exceptions.Segments.{AreLoaded}
use wasabi_os.Paging.Walk.{walk}
use wasabi_os.Paging.Supply.{cost}
use wasabi_os.Hpet.{Hpet, at_count}
use wasabi_os.Hpet.Setup.{IsSetUp}
use wasabi_os.Graphics.{Bitmap}
use wasabi_os.Print.{Console, set_global_vram}
use wasabi_os.Init.{end_of_mem}
use wasabi_os.Init.Memory.{IsInRange, free_pages, init_allocator_lem}
use wasabi_os.Init.Tables.{identity, init_paging-identity}
use wasabi_os.Init.Devices.{registers_at, IsTimer, init_hpet_lem}
use wasabi_os.Init.Bus.{
  AcpiMcfgDescriptor, HasRoom as HasWindows, Printed, printed_of, init_pci_lem,
}
use wasabi_os.Init.Runtime.{init_basic_runtime_runs}
use wasabi_os.Init.Display.{is_usable, init_display_lem}
use wasabi_os.Allocator.Boxes.{HasRoom, all_taken, least_region}
use wasabi_os.Allocator.Boxed.{AreBoxes, AreBoxes-kept, AreBoxes-apart, new_boxes-Boxed}
use wasabi_os.Init.Boot.{HasRegion, init-HasRoom, pages, pages-IsSmall, pages-AllFree}
use wasabi_os.Main.Load.{exceptions_load, exception_layouts-IsSmall}
use wasabi_os.Main.Entry.{
  Platform, Kernel, exception_layouts, start_devices, start_kernel, efi_main,
}

answered : {P : Type 0} (r : EfiStatus × P) → checked_status r ≡ ok r.1
answered (success, x) = refl

-- The firmware answers with a screen `gp` that the kernel can use, and no screen is set yet.
pub record HasScreen {S D : Type 0} (p : Platform S D) (gp : EfiGraphicsOutputProtocol)
    : Type 0 where
  pub screen : p.services.locate_protocol.1 ≡ gp
  pub wide : gp.mode.info.horizontal_resolution < 2 ^ 32
  pub high : gp.mode.info.vertival_resolution < 2 ^ 32
  pub usable : is_usable (framebuffer p.vram gp) ≡ true
  pub unset : p.console.writer ≡ none

-- The first memory map of the firmware is the descriptors `es`: a sane memory map, with an end `top` and one
-- region for the boxes of the boot and of n tables.
pub record HasMemory {S D : Type 0} (p : Platform S D) (es : List EfiMemoryDescriptor) (top n : ℕ)
    : Type 0 where
  pub map : MemoryMapHolder
  pub given : first_map p.firmware p.start new_memory_map ≡ map
  pub few : length es < 65537
  pub stride : 0 < map.descriptor_size
  pub whole : length es * map.descriptor_size ≡ map.memory_map_size
  pub describes : Describes map.memory_map_buffer map.descriptor_size 0 es
  pub sane : IsMemoryMap es
  pub paged : All IsInRange es
  pub total : free_pages es * 4096 < 2 ^ 64
  pub end : end_of_mem 0x1_0000_0000 es ≡ done top
  pub enough : cost 0 top + 7 ≤ n
  pub region : HasRegion (least_region + all_taken (pages n) + all_taken exception_layouts) es
  pub word : (t i : ℕ) → p.entry t i < 2 ^ 64

-- The ACPI tables name a timer at the address `a`, and at most one bus that can be probed.
pub record HasDevices {S D : Type 0} (p : Platform S D) (a : ℕ) (ds : List Printed) : Type 0 where
  pub rsdp : ℕ
  pub xsdt : ℕ
  pub table : acpi_table p.number_of_table_entries p.configuration ≡ some rsdp
  pub at_24 : read_le p.memory 8 (rsdp + 24) ≡ xsdt
  pub long : table_header_size ≤ length_at p.memory xsdt
  pub few : entries p.memory xsdt < 65537
  pub found : registers_at p.memory xsdt ≡ some a
  pub timer : IsTimer (p.registers a)
  pub windows : (mcfg : AcpiMcfgDescriptor) → p.mcfg rsdp ≡ some mcfg → HasWindows mcfg
  pub bus : printed_of p.config_space (p.mcfg rsdp) ≡ done (some ds)

-- What the boot has made: the boxes of the tables are live blocks of the heap, the processor finds the
-- descriptor tables, and memory is mapped to itself; the timer is set up and the devices are printed.
pub record IsBooted {S D : Type 0} (p : Platform S D) (top n a : ℕ) (ds : List Printed)
    (k : Kernel D) : Type 0 where
  pub heap : IsHeap k.heap
  pub exceptions :
      AreBoxes k.heap exception_layouts
        (k.boxes.stacks ++ k.boxes.tss ∷ k.boxes.gdt ∷ k.boxes.idt ∷ [])
  pub tables : AreBoxes k.heap (pages n) k.tables
  pub apart :
      All
        (λ b. All (λ t. t ≢ b) k.tables)
        (k.boxes.stacks ++ k.boxes.tss ∷ k.boxes.gdt ∷ k.boxes.idt ∷ [])
  pub stack : ℕ
  pub fault_stack : ℕ
  pub first : get_elem? k.boxes.stacks 1 ≡ some stack
  pub second : get_elem? k.boxes.stacks 2 ≡ some fault_stack
  pub loaded : AreLoaded p.points k.boxes stack fault_stack k.gdt k.idt k.segments
  pub translates : (b : ℕ) → b < 2 ^ 48 → walk k.machine.entry k.cr3 b ≡ identity top b
  pub hpet : Hpet
  pub timer : k.timer ≡ some (at_count p.ticks hpet)
  pub set_up : IsSetUp (p.registers a) hpet
  pub t0 : k.t0 ≡ p.ticks * 1_000_000_000 / hpet.freq % 2 ^ 64
  pub printed : k.printed ≡ ds

devices_start :
    {S D : Type 0} (p : Platform S D) (n a : ℕ) (ds : List Printed) (d : HasDevices p a ds)
    (kernel : Option Hpet → List Printed → ℕ → Kernel D)
    → (hpet : Hpet) × (start_devices p 65537 n d.rsdp kernel
        ≡ done (
            some (
              kernel
                (some (at_count p.ticks hpet))
                ds
                (p.ticks * 1_000_000_000 / hpet.freq % 2 ^ 64))))
      × IsSetUp (p.registers a) hpet
unfolding start_devices
devices_start p n a ds d kernel =
    let (hpet, runs, up, stamp, _) =
      init_hpet_lem p.memory p.registers 65537 d.rsdp d.xsdt a d.at_24 d.long d.few d.found
        d.timer in
    let probes = init_pci_lem p.config_space (p.mcfg d.rsdp) d.windows in
    (hpet, rw (runs, probes, d.bus, stamp p.ticks) refl, up)

kernel_starts :
    {S D : Type 0} (p : Platform S D) (top n a : ℕ) (es : List EfiMemoryDescriptor)
    (ds : List Printed) (m : HasMemory p es top n) (d : HasDevices p a ds) (console : Console D)
    (hs : List Header)
    → AreAddresses p.points
    → IsHeap hs
    → HasRoom (least_region + all_taken (pages n) + all_taken exception_layouts) hs
    → (k : Kernel D) × (start_kernel p 65537 n console d.rsdp hs es ≡ done (some k))
      × IsBooted p top n a ds k
unfolding start_kernel
kernel_starts {D = D} p top n a es ds m d console hs addresses heap room =
    let summed = init_allocator_lem es m.total in
    let (bs, mid, gave, first, left) =
      new_boxes-Boxed (least_region + all_taken (pages n)) exception_layouts hs (omega arith)
        exception_layouts-IsSmall heap room in
    let l = exceptions_load p bs addresses first.boxes in
    let (ts, out, gave', second, _) =
      new_boxes-Boxed least_region (pages n) mid (omega arith) (pages-IsSmall n) first.heap left in
    let (free, count) = pages-AllFree n ts second.boxes in
    let enough = m.enough in
    let (root, machine, mapped, _, translates) =
      init_paging-identity es (record { entry = p.entry; boxes = ts }) top
        (record { word = m.word; boxes = free }) m.paged m.end (omega (arith, count, enough)) in
    let kernel : Option Hpet → List Printed → ℕ → Kernel D = λ timer devices t0. record {
      console = console;
      heap = out;
      boxes = l.boxes;
      gdt = l.tables.0;
      idt = l.tables.1;
      segments = l.tables.2;
      tables = ts;
      cr3 = root;
      machine = machine;
      timer = timer;
      printed = devices;
      t0 = t0;
    } in
    let (hpet, ends, up) = devices_start p n a ds d kernel in
    (
      kernel (some (at_count p.ticks hpet)) ds (p.ticks * 1_000_000_000 / hpet.freq % 2 ^ 64),
      rw (summed, gave, l.same, l.runs, gave', mapped) ends,
      record {
        heap = second.heap;
        exceptions = rw l.all (AreBoxes-kept second.keeps first.boxes);
        tables = second.boxes;
        apart = rw l.all (AreBoxes-apart ts second.fresh first.boxes);
        stack = l.stack;
        fault_stack = l.fault_stack;
        first = l.first;
        second = l.second;
        loaded = l.loaded;
        translates = translates;
        hpet = hpet;
        timer = refl;
        set_up = up;
        t0 = refl;
        printed = refl;
      },
    )

set_screen :
    {D : Type 0} (vram : Bitmap) (c : Console D)
    → c.writer ≡ none
    → set_global_vram vram c ≡ done (record c { writer = some (new_writer vram) })
unfolding set_global_vram
set_screen vram c unset = rw unset refl

screen_found :
    {S D : Type 0} (p : Platform S D) (gp : EfiGraphicsOutputProtocol)
    → HasScreen p gp
    → init_vram p.vram p.services ≡ ok (framebuffer p.vram gp)
unfolding init_vram locate_graphic_protocol
screen_found p gp screen =
    ap (vram_of p.vram) (answered p.services.locate_protocol)
    ∙ ap (λ q. ok (framebuffer p.vram q)) screen.screen

-- If the firmware's first memory map has room for the boxes, its screen can be used, and the tables name a
-- timer and at most one bus, `efi_main` comes to the tasks within 65537 rounds of each loop: nothing
-- panics, the boxes of the descriptor tables and of the page tables are different live blocks of a
-- heap, the processor finds its segments and handlers, memory from 4096 up to `top` is mapped to
-- itself and nothing else below 2^48, the timer is set up, and what is printed of the bus are its
-- entry and the devices behind it. The first time is that of the timer's counter when it is read.
pub efi_main-IsBooted :
    {S D : Type 0} (p : Platform S D) (gp : EfiGraphicsOutputProtocol) (top n a : ℕ)
    (es : List EfiMemoryDescriptor) (ds : List Printed)
    → HasScreen p gp
    → HasMemory p es top n
    → HasDevices p a ds
    → AreAddresses p.points
    → (k : Kernel D) × (efi_main p 65537 n ≡ done (some k)) × IsBooted p top n a ds k
unfolding efi_main locate_loaded_image_protocol
efi_main-IsBooted {D = D} p gp top n a es ds screen m d addresses =
    let (drawn, _) =
      init_display_lem p.font (framebuffer p.vram gp) (omega arith) screen.wide screen.high in
    let (vram, draws) = drawn screen.usable in
    let (hs, runs, heap, _, _, _) = init_with_mmap-IsHeap es m.sane in
    let room = init-HasRoom es [] hs (omega arith) m.sane runs (inr m.region) in
    let (left, seen) =
      init_basic_runtime_runs p.firmware 65536 65537 p.start m.map es hs m.few m.given m.stride
        m.whole m.describes runs in
    let console : Console D = record p.console { writer = some (new_writer vram) } in
    let (k, starts, booted) = kernel_starts p top n a es ds m d console hs addresses heap room in
    let image = answered (p.services.handle_protocol p.image_handle) in
    let found = screen_found p gp screen in
    let set = set_screen vram p.console screen.unset in
    (k, rw (image, found, d.table, draws, set, left, seen) starts, booted)
