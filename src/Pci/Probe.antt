-- ===== src/Pci/Probe.antt =====
-- The probe of all functions (`Pci::probe_devices` of pci.rs).
use wasabi_os.Common.{
  ℕ, zero, suc, ◌+◌, ◌*◌, ◌%◌, ◌^◌, ◌<◌, ◌≤◌, ◌≡◌, ◌||◌, Option, none, some, List, [], done, arith,
  refl, ◌==◌, if◌then◌else◌, lt→ltb, ltb, false,
}
use wasabi_os.Pci.{
  VendorDeviceId, BusDeviceFunction, iter, next, read, Pci, ecm_base, read_register_u16,
  read_vendor_id_and_device_id, listed, probe_devices,
}

-- What the registers of the id i say, of memory that begins at `start`.
abbrev pub identity : ℕ → (ℕ → ℕ) → ℕ → Option VendorDeviceId
identity start memory i =
    if memory (start + i * 4096) == 0xFFFF || memory (start + i * 4096 + 2) == 0xFFFF
    then none
    else some
        (record { vendor = memory (start + i * 4096); device = memory (start + i * 4096 + 2) })

-- The answers of n ids from i on.
pub present_devices : ℕ → (ℕ → ℕ) → ℕ → ℕ → List VendorDeviceId
present_devices start memory i zero = []
present_devices start memory i (suc n) =
    listed (identity start memory i) (present_devices start memory (i + 1) n)

-- An id is present unless one of its two registers reads as 0xFFFF; the two are read at the start of
-- its window and 2 bytes on.
pub read_vendor_id_and_device_id_lem :
    (pci : Pci) (memory : ℕ → ℕ) (bdf : BusDeviceFunction)
    → pci.start + bdf.id * 4096 < 2 ^ 64
    → read_vendor_id_and_device_id pci memory bdf ≡ done (identity pci.start memory bdf.id)
unfolding read_vendor_id_and_device_id read_register_u16 ecm_base read
read_vendor_id_and_device_id_lem pci memory bdf h =
    let z : pci.start + bdf.id * 4096 + 0 ≡ pci.start + bdf.id * 4096 = omega arith in
    rw (lt→ltb (pci.start + bdf.id * 4096) (2 ^ 64) h, z) refl

probe-from :
    (n fuel i : ℕ) (pci : Pci) (memory : ℕ → ℕ)
    → pci.start + 2 ^ 28 ≤ 2 ^ 64
    → i + n ≡ 2 ^ 16
    → n < fuel
    → probe_devices fuel pci memory (record { next_id = i })
      ≡ done (some (present_devices pci.start memory i n))
unfolding probe_devices next present_devices
probe-from zero zero i pci memory fits e more = absurd (omega arith)
probe-from (suc n) zero i pci memory fits e more = absurd (omega arith)
probe-from zero (suc fuel) i pci memory fits e more =
    let over : 0xFFFF < i = omega arith in rw (probe_devices, lt→ltb 0xFFFF i over) refl
probe-from (suc n) (suc fuel) i pci memory fits e more =
    let under : ltb 0xFFFF i ≡ false = ground arith in
    let same : i % 2 ^ 16 ≡ i = omega arith in
    rw
      (
        probe_devices,
        under,
        same,
        read_vendor_id_and_device_id_lem pci memory (record { id = i }) (omega arith),
        probe-from n fuel (i + 1) pci memory fits (omega arith) (omega arith),
      )
      refl

-- The probe ends after 65536 ids, and prints exactly the devices that are present, in the order of
-- their ids.
pub probe_devices_lem :
    (pci : Pci) (memory : ℕ → ℕ)
    → pci.start + 2 ^ 28 ≤ 2 ^ 64
    → probe_devices 65537 pci memory iter ≡ done (some (present_devices pci.start memory 0 65536))
probe_devices_lem pci memory fits =
    probe-from 65536 65537 0 pci memory fits (omega arith) (omega arith)
