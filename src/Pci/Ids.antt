-- ===== src/Pci/Ids.antt =====
-- The 16-bit ids of pci.rs and the fields that the getters of `BusDeviceFunction` read from them.
use wasabi_os.Common.{
  ℕ, ◌+◌, ◌*◌, ◌/◌, ◌%◌, ◌^◌, ◌<◌, ◌≤◌, ◌≡◌, ◌≢◌, ◌⊎◌, ◌↔◌, ok, err, done, bit_or, arith, refl, ◌∙◌,
}
use wasabi_os.Common.Bits.{bit_and-mask, bit_or-disjoint, bit_or-zero, bit_or_comm}
use wasabi_os.Pci.{BusDeviceFunction, new, bus_of, device_of, function_of, Pci, ecm_base}

bus_of_lem : (bdf : BusDeviceFunction) → bdf.id < 2 ^ 16 → bus_of bdf ≡ bdf.id / 256 * 256
unfolding bus_of
bus_of_lem bdf h = rw (bit_and-mask 8 8 bdf.id) (omega arith)

device_of_lem : (bdf : BusDeviceFunction) → device_of bdf ≡ bdf.id / 8 % 32
unfolding device_of
device_of_lem bdf = rw (bit_and-mask 3 5 bdf.id) (omega arith)

function_of_lem : (bdf : BusDeviceFunction) → function_of bdf ≡ bdf.id % 8
unfolding function_of
function_of_lem bdf = rw (bit_and-mask 0 3 bdf.id) (omega arith)

-- The getters take an id apart: the device is below 32, the function below 8, and `bus()` is the
-- number of the bus times 256, so that the id is bus() + device() * 8 + function().
pub fields_lem :
    (bdf : BusDeviceFunction)
    → bdf.id < 2 ^ 16
    → (bus_of bdf ≡ bdf.id / 256 * 256)
      × (device_of bdf < 32)
      × (function_of bdf < 8)
      × (bdf.id ≡ bus_of bdf + device_of bdf * 8 + function_of bdf)
fields_lem bdf h =
    rw (bus_of_lem bdf h, device_of_lem bdf, function_of_lem bdf)
      (refl, omega arith, omega arith, omega arith)

-- `BusDeviceFunction::new` refuses exactly the buses from 8 on, whatever the device and the function.
pub new_err_iff :
    (bus device function : ℕ)
    → (new bus device function ≡ err "PCI bus device function out of range") ↔ (8 ≤ bus)
unfolding new
new_err_iff bus device function = ground arith

-- For function 0, `new` puts the number of the bus where the getters read the function: the device is
-- right, `function()` is the bus, and `bus()` is 0.
pub new_bus_as_function :
    (bus device : ℕ)
    → bus < 8
    → device < 32
    → (bdf : BusDeviceFunction) × (new bus device 0 ≡ ok bdf)
      × (bus_of bdf ≡ 0)
      × (device_of bdf ≡ device)
      × (function_of bdf ≡ bus)
unfolding new
new_bus_as_function bus device b d =
    let one : bit_or (bus * 2 ^ 0 % 2 ^ 64) (device * 2 ^ 3 % 2 ^ 64) ≡ device * 8 + bus =
      let e1 : bus * 2 ^ 0 % 2 ^ 64 ≡ bus = omega arith in
      let e2 : device * 2 ^ 3 % 2 ^ 64 ≡ device * 2 ^ 3 = omega arith in
      rw (e1, e2, bit_or_comm bus (device * 2 ^ 3)) (bit_or-disjoint 3 device bus b) in
    let e : bit_or (bit_or (bus * 2 ^ 0 % 2 ^ 64) (device * 2 ^ 3 % 2 ^ 64)) (0 * 2 ^ 3 % 2 ^ 64)
          % 2 ^ 16
        ≡ device * 8 + bus =
      rw (one, bit_or-zero (device * 8 + bus)) (omega arith) in
    let bdf : BusDeviceFunction = record { id = device * 8 + bus } in
    let small : device * 8 + bus < 2 ^ 16 = omega arith in
    (
      bdf,
      ground (arith, e),
      bus_of_lem bdf small ∙ omega arith,
      device_of_lem bdf ∙ omega arith,
      function_of_lem bdf ∙ omega arith,
    )

-- The registers of two different ids lie in different windows of 4096 bytes, all of them in the
-- 256 MiB from the start of the configuration space.
pub ecm_base_windows :
    (pci : Pci) (a b : BusDeviceFunction)
    → pci.start + 2 ^ 28 ≤ 2 ^ 64
    → a.id < 2 ^ 16
    → b.id < 2 ^ 16
    → a.id ≢ b.id
    → (x : ℕ) × (y : ℕ) × (ecm_base pci a ≡ done x)
      × (ecm_base pci b ≡ done y)
      × (pci.start ≤ x)
      × (x + 4096 ≤ pci.start + 2 ^ 28)
      × ((x + 4096 ≤ y) ⊎ (y + 4096 ≤ x))
unfolding ecm_base
ecm_base_windows pci a b fits la lb ne = (
  pci.start + a.id * 4096,
  pci.start + b.id * 4096,
  ground arith,
  ground arith,
  omega arith,
  omega arith,
  ground arith,
)
