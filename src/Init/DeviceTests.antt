-- ===== src/Init/DeviceTests.antt =====
-- A small bus, and the timer of 100 MHz at 0xFED0_0000, that the table at 768 names.
use wasabi_os.Common.{
  ℕ, ◌*◌, ◌/◌, ◌%◌, ◌^◌, ◌∷◌, map, ◌≡◌, refl, sym, none, some, done, panic, arith, ◌==◌,
  if◌then◌else◌,
}
use wasabi_os.Uefi.{read_le}
use wasabi_os.Acpi.{length_at, entry, signature_at}
use wasabi_os.Acpi.Search.{first_table}
use wasabi_os.Hpet.{at_count}
use wasabi_os.Acpi.Tests.{memory}
use wasabi_os.Hpet.{Hpet, global_timestamp}
use wasabi_os.Hpet.Setup.{IsSetUp}
use wasabi_os.Hpet.Tests.{registers}
use wasabi_os.Pci.Probe.{present_devices}
use wasabi_os.Init.Bus.{
  entry as entry_line, device, AcpiMcfgDescriptor, HasRoom, init_pci, init_pci_lem,
}
use wasabi_os.Init.Devices.{init_hpet, registers_at, init_hpet_lem}

abbrev pub with_address : ℕ → ℕ
with_address a = if a == 814 then 0xD0 else if a == 815 then 0xFE else memory a

pub init_hpet_found : registers_at with_address 64 ≡ some 0xFED0_0000
unfolding length_at read_le first_table entry signature_at
init_hpet_found = refl

init_hpet_lem_example :
    (timer : Hpet) × (init_hpet with_address (λ a. registers) 5 0 none ≡ done (some (some timer)))
    × IsSetUp registers timer
    × ((c : ℕ)
        → global_timestamp (some (at_count c timer))
          ≡ done (c * 1_000_000_000 / timer.freq % 2 ^ 64))
    × ((old : Hpet) → init_hpet with_address (λ a. registers) 5 0 (some old) ≡ panic)
unfolding length_at read_le
init_hpet_lem_example =
    init_hpet_lem with_address (λ a. registers) 5 0 64 0xFED0_0000 refl (omega arith) (omega arith)
      init_hpet_found
      (record { word = omega arith; word' = omega arith; period = λ z. omega arith })

-- The device 0x1AF4:0x1000 in the window of the id 8, and nothing elsewhere.
abbrev pub config_space : ℕ → ℕ
config_space a = if a == 0xB000_8000 then 0x1AF4 else if a == 0xB000_8002 then 0x1000 else 0xFFFF

abbrev pub table : AcpiMcfgDescriptor
table = record { num_of_entries = 1; entry = λ i. if i == 0 then some 0xB000_0000 else none }

pub table-HasRoom : HasRoom table
table-HasRoom = record { fits = λ base e. let same : 0xB000_0000 ≡ base = cc in omega arith }

init_pci_lem_example :
    init_pci 65537 config_space (some table)
    ≡ done (
        some
          (entry_line 0xB000_0000 ∷ map device (present_devices 0xB000_0000 config_space 0 65536)))
init_pci_lem_example =
    init_pci_lem config_space (some table)
      (λ t e. let same : table ≡ t = cc in rw (sym same) table-HasRoom)
