-- ===== src/Init.antt =====
-- init.rs: the first page tables and the sum that `init_allocator` prints.
pub mod Boot
pub mod Bus
pub mod Devices
pub mod DeviceTests
pub mod Display
pub mod Memory
pub mod Runtime
pub mod Tables
pub mod Tests
use wasabi_os.Common.{
  ℕ, ◌+◌, ◌*◌, ◌/◌, ◌^◌, max, Bool, true, false, List, [], ◌∷◌, Outcome, done, ◌>>=◌, if◌then◌else◌,
  checked_add, checked_mul,
}
use wasabi_os.Uefi.{
  EfiMemoryType, reserved, loader_code, loader_data, boot_services_code, boot_services_data,
  runtime_services_code, runtime_services_data, conventional_memory, unusable_memory,
  acpi_reclaim_memory, acip_memory_nvs, memory_mapped_io, memory_mapped_io_port_space, pal_code,
  persistent_memory, EfiMemoryDescriptor,
}
use wasabi_os.Paging.{page_size}
use wasabi_os.Allocator.Descriptor.{is_conventional}

-- The types of memory that `init_paging` looks at.
abbrev pub is_mapped : EfiMemoryType → Bool
is_mapped conventional_memory = true
is_mapped loader_code = true
is_mapped loader_data = true
is_mapped reserved = false
is_mapped boot_services_code = false
is_mapped boot_services_data = false
is_mapped runtime_services_code = false
is_mapped runtime_services_data = false
is_mapped unusable_memory = false
is_mapped acpi_reclaim_memory = false
is_mapped acip_memory_nvs = false
is_mapped memory_mapped_io = false
is_mapped memory_mapped_io_port_space = false
is_mapped pal_code = false
is_mapped persistent_memory = false

-- `e.physical_start() + e.number_of_pages() * (PAGE_SIZE as u64)`.
unfoldable pub end_of : EfiMemoryDescriptor → Outcome ℕ
end_of e = do size ← checked_mul e.number_of_pages page_size; checked_add e.physical_start size

-- The loop over the memory map, from a first value of `end_of_mem`.
unfoldable pub end_of_mem : ℕ → List EfiMemoryDescriptor → Outcome ℕ
end_of_mem high [] = done high
end_of_mem high (e ∷ es) =
    if is_mapped e.memory_type
    then (end_of e >>= λ top. end_of_mem (max high top) es)
    else end_of_mem high es

-- The loop of `init_allocator`, from a first value of `total_memory_pages`.
pub sum_pages : ℕ → List EfiMemoryDescriptor → Outcome ℕ
sum_pages pages [] = done pages
sum_pages pages (e ∷ es) =
    if is_conventional e.memory_type
    then (checked_add pages e.number_of_pages >>= λ more. sum_pages more es)
    else sum_pages pages es

-- The pages and the MiB that `init_allocator` prints.
pub init_allocator : List EfiMemoryDescriptor → Outcome (ℕ × ℕ)
init_allocator es = do
  total_memory_pages ← sum_pages 0 es
  bytes ← checked_mul total_memory_pages 4096
  done (total_memory_pages, bytes / 1024 / 1024)
