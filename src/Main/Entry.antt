-- ===== src/Main/Entry.antt =====
-- main.rs, `efi_main` up to its first reading of the clock. What it prints is left out. What the firmware
-- and the machine give is a parameter; the memory for the tables is taken from the heap ahead.
use wasabi_os.Common.{
  ℕ, Option, none, some, Result, ok, err, List, [], ◌∷◌, Outcome, done, panic, ◌>>=◌,
}
use wasabi_os.Uefi.{EfiMemoryDescriptor, MemoryMapHolder, iter, collect}
use wasabi_os.Uefi.Config.{EfiConfigurationTable, acpi_table}
use wasabi_os.Uefi.Exit.{Firmware}
use wasabi_os.Uefi.Protocols.{Protocols, init_vram, locate_loaded_image_protocol}
use wasabi_os.Print.{Console, set_global_vram}
use wasabi_os.Allocator.{Header, Layout}
use wasabi_os.Exceptions.{EntryPoints, IdtDescriptor}
use wasabi_os.Exceptions.Gdt.{GdtWrapper, Boxes, Segments, init_exceptions}
use wasabi_os.Paging.{Machine, Run}
use wasabi_os.Hpet.{HpetRegisters, Hpet, at_count, global_timestamp}
use wasabi_os.Init.Boot.{pages}
use wasabi_os.Init.{init_allocator}
use wasabi_os.Allocator.Boxes.{new_boxes}
use wasabi_os.Init.Runtime.{init_basic_runtime}
use wasabi_os.Init.Display.{init_display}
use wasabi_os.Init.Tables.{init_paging}
use wasabi_os.Init.Devices.{init_hpet}
use wasabi_os.Init.Bus.{AcpiMcfgDescriptor, Printed, init_pci}

-- What the firmware and the machine give. The MCFG table is behind the address of the RSDP; `memory` is
-- read by bytes, `vram` by pixels, `entry` by the words of a page; `ticks` is what the counter of the timer
-- has come to when it is read.
pub record Platform (S D : Type 0) : Type 0 where
  pub services : Protocols
  pub image_handle : ℕ
  pub number_of_table_entries : ℕ
  pub configuration : ℕ → EfiConfigurationTable
  pub font : List ℕ
  pub vram : ℕ → ℕ
  pub console : Console D
  pub firmware : Firmware S
  pub start : S
  pub points : EntryPoints
  pub segments : Segments
  pub entry : ℕ → ℕ → ℕ
  pub memory : ℕ → ℕ
  pub registers : ℕ → HpetRegisters
  pub mcfg : ℕ → Option AcpiMcfgDescriptor
  pub config_space : ℕ → ℕ
  pub ticks : ℕ

-- What stands when the tasks are made.
pub record Kernel (D : Type 0) : Type 0 where
  pub console : Console D
  pub heap : List Header
  pub boxes : Boxes
  pub gdt : GdtWrapper
  pub idt : ℕ → IdtDescriptor
  pub segments : Segments
  pub tables : List ℕ
  pub cr3 : ℕ
  pub machine : Machine
  pub timer : Option Hpet
  pub printed : List Printed
  pub t0 : ℕ

-- The timer when it is read.
abbrev pub counted : ℕ → Option Hpet → Option Hpet
counted c none = none
counted c (some hpet) = some (at_count c hpet)

-- `expect`.
abbrev expect : {A : Type 0} → Result A → Outcome A
expect (ok a) = done a
expect (err e) = panic

abbrev expect_some : {A : Type 0} → Option A → Outcome A
expect_some (some a) = done a
expect_some none = panic

-- The program goes on unless the fuel is used up.
abbrev and_then : {A B : Type 0} → Option A → (A → Outcome (Option B)) → Outcome (Option B)
and_then none later = done none
and_then (some a) later = later a

-- How `init_paging` ended.
abbrev paged : Run ℕ → Outcome (ℕ × Machine)
paged (Run.ok root m) = done (root, m)
paged (Run.err e m) = panic
paged Run.panic = panic

-- The boxes of `init_exceptions`: eight stacks, the task state segment, and the two tables.
abbrev stack_layout : Layout
stack_layout = record { size = 65536; align = 1 }

abbrev pub exception_layouts : List Layout
exception_layouts =
    stack_layout
    ∷ stack_layout
    ∷ stack_layout
    ∷ stack_layout
    ∷ stack_layout
    ∷ stack_layout
    ∷ stack_layout
    ∷ stack_layout
    ∷ record { size = 104; align = 1 }
    ∷ record { size = 40; align = 1 }
    ∷ record { size = 4096; align = 1 }
    ∷ []

abbrev pub exception_boxes : List ℕ → Outcome Boxes
exception_boxes (b0 ∷ b1 ∷ b2 ∷ b3 ∷ b4 ∷ b5 ∷ b6 ∷ b7 ∷ tss ∷ gdt ∷ idt ∷ []) = done (record {
  stacks = b0 ∷ b1 ∷ b2 ∷ b3 ∷ b4 ∷ b5 ∷ b6 ∷ b7 ∷ [];
  tss = tss;
  gdt = gdt;
  idt = idt;
})
exception_boxes _ = panic

module _ {S D : Type 0} (p : Platform S D) (fuel n : ℕ) where
  -- `init_hpet`, `init_pci` and the first reading of the clock.
  unfoldable pub start_devices :
      ℕ → (Option Hpet → List Printed → ℕ → Kernel D) → Outcome (Option (Kernel D))
  start_devices acpi kernel = init_hpet p.memory p.registers fuel acpi none >>= λ h.
      and_then h (λ timer. init_pci fuel p.config_space (p.mcfg acpi) >>= λ d.
      and_then d (λ printed. global_timestamp (counted p.ticks timer) >>= λ t0.
      done (some (kernel (counted p.ticks timer) printed t0))))

  -- After the boot services, with the descriptors of the memory map: `init_allocator` to the end.
  unfoldable pub start_kernel :
      Console D → ℕ → List Header → List EfiMemoryDescriptor → Outcome (Option (Kernel D))
  start_kernel console acpi first_header es = do
    printed ← init_allocator es
    given ← new_boxes exception_layouts first_header
    boxes ← exception_boxes given.0
    loaded ← init_exceptions p.points boxes p.segments
    tables ← new_boxes (pages n) given.1
    root ← paged (init_paging es (record { entry = p.entry; boxes = tables.0 }))
    start_devices acpi (λ timer printed' t0. record {
      console = console;
      heap = tables.1;
      boxes = boxes;
      gdt = loaded.0;
      idt = loaded.1;
      segments = loaded.2;
      tables = tables.0;
      cr3 = root.0;
      machine = root.1;
      timer = timer;
      printed = printed';
      t0 = t0;
    })

  -- `fuel` bounds each loop that waits for the firmware, the tables or the bus; `n` is the number of
  -- boxes for page tables.
  unfoldable pub efi_main : Outcome (Option (Kernel D))
  efi_main = do
    image ← expect (locate_loaded_image_protocol p.services p.image_handle)
    vram ← expect (init_vram p.vram p.services)
    acpi ← expect_some (acpi_table p.number_of_table_entries p.configuration)
    screen ← init_display p.font vram
    console ← set_global_vram screen p.console
    left ← init_basic_runtime p.firmware fuel fuel p.start
    and_then left (λ (r : MemoryMapHolder × List Header × S).
        and_then (collect fuel (iter r.0)) (start_kernel console acpi r.1))
