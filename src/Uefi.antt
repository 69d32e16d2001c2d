-- ===== src/Uefi.antt =====
-- uefi.rs: the memory map, the configuration tables and the exit from the boot services. The
-- firmware is a parameter: what its calls answer is given by functions over a state of its own.
pub mod Config
pub mod Exit
pub mod MemoryMap
pub mod Protocols
pub mod Tests
use wasabi_os.Common.{
  ℕ, zero, suc, ◌+◌, ◌*◌, ◌^◌, Bool, true, false, ◌&&◌, Option, none, some, List, [], ◌∷◌, Outcome,
  done, panic, ltb, leb, ◌==◌, if◌then◌else◌,
}

pub data EfiMemoryType : Type 0 where
  reserved loader_code loader_data boot_services_code boot_services_data : EfiMemoryType
  runtime_services_code runtime_services_data conventional_memory : EfiMemoryType
  unusable_memory acpi_reclaim_memory acip_memory_nvs memory_mapped_io : EfiMemoryType
  memory_mapped_io_port_space pal_code persistent_memory : EfiMemoryType

-- The discriminants from 7 on.
late_memory_type_of : ℕ → Option EfiMemoryType
late_memory_type_of zero = some conventional_memory
late_memory_type_of (suc zero) = some unusable_memory
late_memory_type_of (suc (suc zero)) = some acpi_reclaim_memory
late_memory_type_of (suc (suc (suc zero))) = some acip_memory_nvs
late_memory_type_of (suc (suc (suc (suc zero)))) = some memory_mapped_io
late_memory_type_of (suc (suc (suc (suc (suc zero))))) = some memory_mapped_io_port_space
late_memory_type_of (suc (suc (suc (suc (suc (suc zero)))))) = some pal_code
late_memory_type_of (suc (suc (suc (suc (suc (suc (suc zero))))))) = some persistent_memory
late_memory_type_of (suc (suc (suc (suc (suc (suc (suc (suc n)))))))) = none

-- The discriminants 0 to 14. Any other byte is no value of the enum.
unfoldable pub memory_type_of : ℕ → Option EfiMemoryType
unfolding late_memory_type_of
memory_type_of zero = some reserved
memory_type_of (suc zero) = some loader_code
memory_type_of (suc (suc zero)) = some loader_data
memory_type_of (suc (suc (suc zero))) = some boot_services_code
memory_type_of (suc (suc (suc (suc zero)))) = some boot_services_data
memory_type_of (suc (suc (suc (suc (suc zero))))) = some runtime_services_code
memory_type_of (suc (suc (suc (suc (suc (suc zero)))))) = some runtime_services_data
memory_type_of (suc (suc (suc (suc (suc (suc (suc n))))))) = late_memory_type_of n

pub record EfiMemoryDescriptor : Type 0 where
  pub memory_type : EfiMemoryType
  pub physical_start : ℕ
  pub virtual_start : ℕ
  pub number_of_pages : ℕ
  pub attribute : ℕ

abbrev pub memory_map_buffer_size : ℕ
memory_map_buffer_size = 0x8000

-- The buffer is the function from an offset to the byte there.
pub record MemoryMapHolder : Type 0 where
  pub memory_map_buffer : ℕ → ℕ
  pub memory_map_size : ℕ
  pub map_key : ℕ
  pub descriptor_size : ℕ
  pub descriptor_version : ℕ

unfoldable pub new_memory_map : MemoryMapHolder
new_memory_map = record {
  memory_map_buffer = λ _. 0;
  memory_map_size = memory_map_buffer_size;
  map_key = 0;
  descriptor_size = 0;
  descriptor_version = 0;
}

-- A little-endian number of n bytes.
unfoldable pub read_le : (ℕ → ℕ) → ℕ → ℕ → ℕ
read_le bytes zero at = 0
read_le bytes (suc n) at = bytes at + 256 * read_le bytes n (at + 1)

-- `&*(buffer.add(ofs) as *const EfiMemoryDescriptor)`, in the layout of `repr(C)`: the type is one
-- byte, and the four `u64` fields stand at 8, 16, 24 and 32.
unfoldable pub descriptor_at : (ℕ → ℕ) → ℕ → Option EfiMemoryDescriptor
unfolding memory_type_of read_le
descriptor_at bytes ofs = elim (memory_type_of (bytes ofs)) [
  | none ↦ none
  | some t ↦ some (record {
    memory_type = t;
    physical_start = read_le bytes 8 (ofs + 8);
    virtual_start = read_le bytes 8 (ofs + 16);
    number_of_pages = read_le bytes 8 (ofs + 24);
    attribute = read_le bytes 8 (ofs + 32);
  })
]

pub record MemoryMapIterator : Type 0 where
  pub map : MemoryMapHolder
  pub ofs : ℕ

-- `MemoryMapHolder::iter`.
abbrev pub iter : MemoryMapHolder → MemoryMapIterator
iter m = record { map = m; ofs = 0 }

-- What `next` answers. `undefined`: the bytes are no descriptor.
pub data Next : Type 0 where
  finished : Next
  yields : EfiMemoryDescriptor → MemoryMapIterator → Next
  undefined : Next

unfoldable pub next : MemoryMapIterator → Next
next it =
    if leb it.map.memory_map_size it.ofs
    then finished
    else elim (descriptor_at it.map.memory_map_buffer it.ofs) [
      | none ↦ undefined
      | some e ↦ yields e (record it { ofs = it.ofs + it.map.descriptor_size })
    ]

-- `for e in memory_map.iter()`: the descriptors in order, for at most `fuel` calls of `next`.
pub collect : ℕ → MemoryMapIterator → Option (List EfiMemoryDescriptor)
collect zero it = none
collect (suc fuel) it = elim (next it) [
  | finished ↦ some []
  | undefined ↦ none
  | yields e it' ↦ elim (collect fuel it') [ none ↦ none | some es ↦ some (e ∷ es) ]
]
