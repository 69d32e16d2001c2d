-- ===== src/Uefi/Tests.antt =====
-- A firmware with one memory descriptor and two configuration tables.
use wasabi_os.Common.{ℕ, ◌+◌, ◌≡◌, refl, none, some, done, [], ◌∷◌, arith, ◌==◌, if◌then◌else◌}
use wasabi_os.Uefi.{
  EfiMemoryDescriptor, conventional_memory, MemoryMapHolder, memory_type_of, read_le, descriptor_at,
  iter, collect,
}
use wasabi_os.Uefi.MemoryMap.{Describes, collect-Describes, collect_stuck}
use wasabi_os.Uefi.Config.{
  EfiConfigurationTable, efi_acpi_table_guid, acpi_table, acpi_table_first, acpi_table_absent,
}
use wasabi_os.Uefi.Exit.{success, Firmware, exit_from_boot_services, exit_from_boot_services_lem}

-- The type is 7, the region begins at 0x100000 and has 3 pages.
abbrev pub bytes : ℕ → ℕ
bytes i = if i == 0 then 7 else if i == 10 then 0x10 else if i == 24 then 3 else 0

abbrev pub region : EfiMemoryDescriptor
region = record {
  memory_type = conventional_memory;
  physical_start = 0x10_0000;
  virtual_start = 0;
  number_of_pages = 3;
  attribute = 0;
}

abbrev pub filled : MemoryMapHolder
filled = record {
  memory_map_buffer = bytes;
  memory_map_size = 48;
  map_key = 5;
  descriptor_size = 48;
  descriptor_version = 1;
}

pub filled-Describes : Describes bytes 48 0 (region ∷ [])
unfolding descriptor_at memory_type_of read_le
filled-Describes = (refl, tt)

collect-Describes_example : collect 2 (iter filled) ≡ some (region ∷ [])
collect-Describes_example =
    collect-Describes filled (omega arith) (region ∷ []) refl filled-Describes

-- The holder of `MemoryMapHolder::new` before the firmware has filled it.
collect_stuck_example : collect 1000 (iter (record filled { descriptor_size = 0 })) ≡ none
collect_stuck_example =
    collect_stuck (record filled { descriptor_size = 0 }) 0 1000 refl (omega arith)

abbrev tables : ℕ → EfiConfigurationTable
tables i = record {
  vendor_guid =
      if i == 1 then efi_acpi_table_guid else record { data0 = 1; data1 = 2; data2 = 3; data3 = 4 };
  vendor_table = 0x7000 + i;
}

acpi_table_first_run : acpi_table 3 tables ≡ some 0x7001
acpi_table_first_run = acpi_table_first 3 1 tables (omega arith) (λ k l m. ground arith) refl

acpi_table_absent_example : acpi_table 1 tables ≡ none
acpi_table_absent_example = acpi_table_absent 1 tables (λ k l m. ground arith)

-- The state counts the exits.
abbrev firmware : Firmware ℕ
firmware = record {
  get_memory_map = λ s map. (success, record map { map_key = s }, s);
  exit_boot_services = λ s key. (success, s + 1);
}

exit_from_boot_services_lem_run :
    exit_from_boot_services firmware 9 1 filled ≡ done (some (record filled { map_key = 1 }, 2))
exit_from_boot_services_lem_run = exit_from_boot_services_lem firmware 8 1 filled
