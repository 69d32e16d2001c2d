-- ===== src/Pci.antt =====
-- pci.rs: the ids of PCI functions, their configuration registers, and the probe of all of them. The
-- MCFG table of ACPI is a parameter (its number of entries and its base addresses), and so is what
-- the registers hold: `read_volatile` gives the value at an address.
pub mod Ids
pub mod Probe
mod Tests
use wasabi_os.Common.{
  ℕ, zero, suc, ◌+◌, ◌*◌, ◌/◌, ◌%◌, ◌^◌, bit_and, bit_or, Bool, not, ◌||◌, Option, none, some, List,
  [], ◌∷◌, Result, ok, err, Outcome, done, panic, ◌>>=◌, ◌>>◌, assert, checked_add, ltb, ◌==◌,
  if◌then◌else◌,
}

pub record VendorDeviceId : Type 0 where
  pub vendor : ℕ
  pub device : ℕ

pub record BusDeviceFunction : Type 0 where
  pub id : ℕ

abbrev pub mask_bus : ℕ
mask_bus = 0b1111_1111_0000_0000

abbrev pub shift_bus : ℕ
shift_bus = 0

abbrev pub mask_device : ℕ
mask_device = 0b0000_0000_1111_1000

abbrev pub shift_device : ℕ
shift_device = 3

abbrev pub mask_function : ℕ
mask_function = 0b0000_0000_0000_0111

abbrev pub shift_function : ℕ
shift_function = 0

-- `<<` on a `usize` drops the bits that leave it.
abbrev shl : ℕ → ℕ → ℕ
shl a k = a * 2 ^ k % 2 ^ 64

-- `BusDeviceFunction::new`: all three tests are of `bus`, and `function` is shifted like `device`.
unfoldable pub new : ℕ → ℕ → ℕ → Result BusDeviceFunction
new bus device function =
    if not (ltb bus 256) || not (ltb bus 32) || not (ltb bus 8)
    then err "PCI bus device function out of range"
    else ok (record {
      id =
          bit_or (bit_or (shl bus shift_bus) (shl device shift_device)) (shl function shift_device)
          % 2 ^ 16;
    })

unfoldable pub bus_of : BusDeviceFunction → ℕ
bus_of bdf = bit_and bdf.id mask_bus / 2 ^ shift_bus

unfoldable pub device_of : BusDeviceFunction → ℕ
device_of bdf = bit_and bdf.id mask_device / 2 ^ shift_device

unfoldable pub function_of : BusDeviceFunction → ℕ
function_of bdf = bit_and bdf.id mask_function / 2 ^ shift_function

pub record BusDeviceFunctionIterator : Type 0 where
  pub next_id : ℕ

abbrev pub iter : BusDeviceFunctionIterator
iter = record { next_id = 0 }

unfoldable pub next :
    BusDeviceFunctionIterator → Option (BusDeviceFunction × BusDeviceFunctionIterator)
next it =
    if ltb 0xFFFF it.next_id
    then none
    else some (record { id = it.next_id % 2 ^ 16 }, record { next_id = it.next_id + 1 })

-- `ConfigRegisters<T>::read`, for a T of `size` bytes.
unfoldable pub read : ℕ → (ℕ → ℕ) → ℕ → ℕ → Result ℕ
read size read_volatile ecm_base byte_offset =
    if not (ltb byte_offset 256) || not (byte_offset % size == 0)
    then err "PCI COnfigRegisters read out of range"
    else ok (read_volatile (ecm_base + byte_offset / size * size))

-- `ecm_range`: from start to end.
pub record Pci : Type 0 where
  pub start : ℕ
  pub end : ℕ

-- `Pci::new`, from what the MCFG table says: how many entries, and the base address of the first.
unfoldable pub new_pci : ℕ → Option ℕ → Outcome Pci
new_pci num_of_entries none = do assert (num_of_entries == 1); panic
new_pci num_of_entries (some base) = do
  assert (num_of_entries == 1)
  end ← checked_add base (2 ^ 24)
  done (record { start = base; end = end })

unfoldable pub ecm_base : Pci → BusDeviceFunction → Outcome ℕ
ecm_base pci bdf = checked_add pci.start (bdf.id * 2 ^ 12)

unfoldable pub read_register_u16 : Pci → (ℕ → ℕ) → BusDeviceFunction → ℕ → Outcome (Result ℕ)
read_register_u16 pci read_volatile bdf byte_offset = do
  base ← ecm_base pci bdf
  done (read 2 read_volatile base byte_offset)

-- What `read_vendor_id_and_device_id` makes of the two registers.
abbrev vendor_device : Result ℕ → Result ℕ → Option VendorDeviceId
vendor_device (err e) device = none
vendor_device (ok vendor) (err e) = none
vendor_device (ok vendor) (ok device) =
    if vendor == 0xFFFF || device == 0xFFFF
    then none
    else some (record { vendor = vendor; device = device })

unfoldable pub read_vendor_id_and_device_id :
    Pci → (ℕ → ℕ) → BusDeviceFunction → Outcome (Option VendorDeviceId)
read_vendor_id_and_device_id pci read_volatile bdf = do
  vendor ← read_register_u16 pci read_volatile bdf 0
  device ← read_register_u16 pci read_volatile bdf 2
  done (vendor_device vendor device)

abbrev pub listed : Option VendorDeviceId → List VendorDeviceId → List VendorDeviceId
listed none vds = vds
listed (some vd) vds = vd ∷ vds

-- `probe_devices`: what it prints, for at most `fuel` calls of `next`. `none`: the fuel is used up.
unfoldable pub probe_devices :
    ℕ → Pci → (ℕ → ℕ) → BusDeviceFunctionIterator → Outcome (Option (List VendorDeviceId))
probe_devices zero pci read_volatile it = done none
probe_devices (suc fuel) pci read_volatile it = elim (next it) [
  | none ↦ done (some [])
  | some (bdf, it') ↦
      let later = probe_devices fuel pci read_volatile it' in
      do
        vd ← read_vendor_id_and_device_id pci read_volatile bdf
        rest ← later
        done (elim rest [ none ↦ none | some vds ↦ some (listed vd vds) ])
]
