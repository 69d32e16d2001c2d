-- ===== src/Pci/Tests.antt =====
-- The PCI functions of a machine with one device, at id 0.
use wasabi_os.Common.{
  ℕ, ◌+◌, ◌*◌, ◌^◌, ◌≡◌, ◌<◌, ◌≤◌, ◌⊎◌, ◌↔◌, done, some, ok, err, arith, ◌==◌, if◌then◌else◌,
}
use wasabi_os.Pci.{
  BusDeviceFunction, new, bus_of, device_of, function_of, Pci, iter, ecm_base,
  read_vendor_id_and_device_id, probe_devices,
}
use wasabi_os.Pci.Ids.{fields_lem, new_err_iff, new_bus_as_function, ecm_base_windows}
use wasabi_os.Pci.Probe.{present_devices, read_vendor_id_and_device_id_lem, probe_devices_lem}

abbrev pci : Pci
pci = record { start = 0xB000_0000; end = 0xB100_0000 }

abbrev memory : ℕ → ℕ
memory a = if a == 0xB000_0000 then 0x8086 else if a == 0xB000_0002 then 0x29C0 else 0xFFFF

-- /pci/bus/0/device/31/function/2
abbrev sata : BusDeviceFunction
sata = record { id = 250 }

fields_lem_run :
    (bus_of sata ≡ 0)
    × (device_of sata < 32)
    × (function_of sata < 8)
    × (250 ≡ bus_of sata + device_of sata * 8 + function_of sata)
fields_lem_run = fields_lem sata (omega arith)

new_err_iff_run : (new 9 0 0 ≡ err "PCI bus device function out of range") ↔ (8 ≤ 9)
new_err_iff_run = new_err_iff 9 0 0

new_bus_as_function_run :
    (bdf : BusDeviceFunction) × (new 5 31 0 ≡ ok bdf)
    × (bus_of bdf ≡ 0)
    × (device_of bdf ≡ 31)
    × (function_of bdf ≡ 5)
new_bus_as_function_run = new_bus_as_function 5 31 (omega arith) (omega arith)

ecm_base_windows_run :
    (x : ℕ) × (y : ℕ) × (ecm_base pci sata ≡ done x)
    × (ecm_base pci (record { id = 251 }) ≡ done y)
    × (0xB000_0000 ≤ x)
    × (x + 4096 ≤ 0xB000_0000 + 2 ^ 28)
    × ((x + 4096 ≤ y) ⊎ (y + 4096 ≤ x))
ecm_base_windows_run =
    ecm_base_windows pci sata (record { id = 251 }) (omega arith) (omega arith) (omega arith)
      (λ e. omega arith)

read_vendor_id_and_device_id_lem_example :
    read_vendor_id_and_device_id pci memory (record { id = 0 })
    ≡ done (some (record { vendor = 0x8086; device = 0x29C0 }))
read_vendor_id_and_device_id_lem_example =
    read_vendor_id_and_device_id_lem pci memory (record { id = 0 }) (omega arith)

probe_devices_lem_run :
    probe_devices 65537 pci memory iter ≡ done (some (present_devices 0xB000_0000 memory 0 65536))
probe_devices_lem_run = probe_devices_lem pci memory (omega arith)
