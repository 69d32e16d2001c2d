-- ===== src/Uefi/Exit.antt =====
-- `exit_from_boot_services` of uefi.rs. The firmware is a parameter: a state of its own, and what the
-- two services do with it.
use wasabi_os.Common.{
  ℕ, zero, suc, ◌≡◌, refl, Bool, true, Option, none, some, Outcome, done, ◌>>◌, assert,
  if◌then◌else◌,
}
use wasabi_os.Uefi.{MemoryMapHolder}

-- The values of `EfiStatus`: the enum has no other, so a status that stands for an error is outside of what
-- the source is about.
pub data EfiStatus : Type 0 where
  success : EfiStatus

-- The derived `==`.
abbrev pub same_status : EfiStatus → EfiStatus → Bool
same_status success success = true

pub record Firmware {ℓ} (S : Type ℓ) : Type ℓ where
  pub get_memory_map : S → MemoryMapHolder → EfiStatus × MemoryMapHolder × S
  pub exit_boot_services : S → ℕ → EfiStatus × S

module _ {ℓ} {S : Type ℓ} (fw : Firmware S) where
  -- The loop, for at most `fuel` rounds; `none` means that the fuel is used up.
  unfoldable pub exit_from_boot_services :
      ℕ → S → MemoryMapHolder → Outcome (Option (MemoryMapHolder × S))
  exit_from_boot_services zero s map = done none
  exit_from_boot_services (suc fuel) s map =
      let (status, map', s') = fw.get_memory_map s map in
      let (status', s'') = fw.exit_boot_services s' map'.map_key in
      let rest = exit_from_boot_services fuel s'' map' in
      assert (same_status status success)
      >> (if same_status status' success then done (some (map', s'')) else rest)

  always_success : (status : EfiStatus) → same_status status success ≡ true
  always_success success = refl

  -- The memory map of the first round, and the firmware after it.
  abbrev pub first_map : S → MemoryMapHolder → MemoryMapHolder
  first_map s map = (fw.get_memory_map s map).1

  abbrev pub after_first : S → MemoryMapHolder → S
  after_first s map =
      (fw.exit_boot_services (fw.get_memory_map s map).2 (first_map s map).map_key).1

  -- Whatever the firmware does, the loop ends in its first round, with the memory map of that round.
  pub exit_from_boot_services_lem :
      (fuel : ℕ) (s : S) (map : MemoryMapHolder)
      → exit_from_boot_services (suc fuel) s map ≡ done (some (first_map s map, after_first s map))
  unfolding exit_from_boot_services
  exit_from_boot_services_lem fuel s map =
      rw
        (
          always_success (fw.get_memory_map s map).0,
          always_success
              (fw.exit_boot_services (fw.get_memory_map s map).2 (first_map s map).map_key).0,
        )
        refl
