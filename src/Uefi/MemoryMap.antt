-- ===== src/Uefi/MemoryMap.antt =====
-- The iteration over the memory map that the firmware wrote (`MemoryMapIterator` of uefi.rs).
use wasabi_os.Common.{
  ℕ, zero, suc, ◌+◌, ◌*◌, ◌<◌, ◌≡◌, refl, none, some, List, [], ◌∷◌, arith, length,
}
use wasabi_os.Uefi.{EfiMemoryDescriptor, MemoryMapHolder, iter, descriptor_at, next, collect}

-- From `ofs` on, every `d` bytes, the buffer holds the descriptors `es`.
abbrev pub Describes : (ℕ → ℕ) → ℕ → ℕ → List EfiMemoryDescriptor → Type 0
Describes bytes d ofs [] = Unit
Describes bytes d ofs (e ∷ es) = (descriptor_at bytes ofs ≡ some e) × Describes bytes d (ofs + d) es

module _ (m : MemoryMapHolder) (pos : 0 < m.descriptor_size) where
  pub collect-from :
      (es : List EfiMemoryDescriptor) (fuel ofs : ℕ)
      → length es < fuel
      → ofs + length es * m.descriptor_size ≡ m.memory_map_size
      → Describes m.memory_map_buffer m.descriptor_size ofs es
      → collect fuel (record { map = m; ofs = ofs }) ≡ some es
  unfolding collect next
  collect-from es zero ofs h size holds = absurd (omega arith)
  collect-from [] (suc fuel) ofs h size holds = ground arith
  collect-from (e ∷ es) (suc fuel) ofs h size holds =
      ground
        (arith, collect-from es fuel (ofs + m.descriptor_size) (omega arith) (omega arith) holds.1)

  -- If the firmware wrote the descriptors `es` from the start of the buffer to the size that it
  -- returned, the loop ends and sees exactly those, in order.
  pub collect-Describes :
      (es : List EfiMemoryDescriptor)
      → length es * m.descriptor_size ≡ m.memory_map_size
      → Describes m.memory_map_buffer m.descriptor_size 0 es
      → collect (length es + 1) (iter m) ≡ some es
  collect-Describes es size holds =
      collect-from es (length es + 1) 0 (omega arith) (omega arith) holds

-- With a descriptor size of 0, as `MemoryMapHolder::new` sets it, the iteration never ends.
pub collect_stuck :
    (m : MemoryMapHolder) (ofs fuel : ℕ)
    → m.descriptor_size ≡ 0
    → ofs < m.memory_map_size
    → collect fuel (record { map = m; ofs = ofs }) ≡ none
unfolding collect next
collect_stuck m ofs zero z h = refl
collect_stuck m ofs (suc fuel) z h =
    ground (arith, collect_stuck m (ofs + m.descriptor_size) fuel z (omega arith))
