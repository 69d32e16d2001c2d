-- ===== src/Init/Bus.antt =====
-- init.rs, `init_pci`. The MCFG table, which the repository does not define, is a parameter.
use wasabi_os.Common.{
  ℕ, zero, suc, ◌∷◌, ◌++◌, map, ap, ◌∙◌, ◌+◌, ◌^◌, ◌≤◌, ◌<◌, ◌≡◌, ◌≢◌, refl, Option, none, some,
  List, [], Outcome, done, panic, ◌>>=◌, arith, lt→ltb, false, ◌==◌, if◌then◌else◌, Bool-cases, inl,
  inr,
}
use wasabi_os.Pci.{new_pci, iter, probe_devices, VendorDeviceId}
use wasabi_os.Pci.Probe.{present_devices, probe_devices_lem}

-- What the code reads from the table: how many entries, and the base address that an entry has.
pub record AcpiMcfgDescriptor : Type 0 where
  pub num_of_entries : ℕ
  pub entry : ℕ → Option ℕ

-- What `init_pci` prints: an entry of the table, by its base address, or a device.
pub data Printed : Type 0 where
  entry : ℕ → Printed
  device : VendorDeviceId → Printed

abbrev with_entry : Option ℕ → List Printed → List Printed
with_entry none later = later
with_entry (some e) later = entry e ∷ later

-- The loop over the entries, for n of them from i on.
unfoldable pub print_entries : ℕ → ℕ → (ℕ → Option ℕ) → List Printed
print_entries zero i entries = []
print_entries (suc n) i entries = with_entry (entries i) (print_entries n (i + 1) entries)

abbrev and_devices : List Printed → Option (List VendorDeviceId) → Option (List Printed)
and_devices lines none = none
and_devices lines (some ds) = some (lines ++ map device ds)

-- `init_pci`: what it prints. The inner `none` says that the fuel is used up.
unfoldable pub init_pci : ℕ → (ℕ → ℕ) → Option AcpiMcfgDescriptor → Outcome (Option (List Printed))
init_pci fuel read_volatile none = done (some [])
init_pci fuel read_volatile (some mcfg) = do
  pci ← new_pci mcfg.num_of_entries (mcfg.entry 0)
  devices ← probe_devices fuel pci read_volatile iter
  done (and_devices (print_entries mcfg.num_of_entries 0 mcfg.entry) devices)

-- The base address of the only entry.
abbrev first_base : ℕ → Option ℕ → Option ℕ
first_base n base = if n == 1 then base else none

-- What a boot is to print for a base address; without one, it panics.
abbrev devices_behind : (ℕ → ℕ) → Option ℕ → Outcome (Option (List VendorDeviceId))
devices_behind read_volatile none = panic
devices_behind read_volatile (some base) = done (some (present_devices base read_volatile 0 65536))

-- With one entry that can be read: that entry, and the devices behind it.
abbrev printed_for : (ℕ → ℕ) → Option ℕ → Outcome (Option (List Printed))
printed_for read_volatile none = panic
printed_for read_volatile (some base) =
    done (some (entry base ∷ map device (present_devices base read_volatile 0 65536)))

abbrev pub printed_of : (ℕ → ℕ) → Option AcpiMcfgDescriptor → Outcome (Option (List Printed))
printed_of read_volatile none = done (some [])
printed_of read_volatile (some mcfg) =
    printed_for read_volatile (first_base mcfg.num_of_entries (mcfg.entry 0))

-- From each base address in the table on, there is room for the windows of all ids.
pub record HasRoom (mcfg : AcpiMcfgDescriptor) : Type 0 where
  pub fits : (base : ℕ) → mcfg.entry 0 ≡ some base → base + 2 ^ 28 ≤ 2 ^ 64

several_entries : (n : ℕ) (first : Option ℕ) → n ≢ 1 → new_pci n first ≡ panic
unfolding new_pci
several_entries n none h = let other : (n == 1) ≡ false = ground arith in rw other refl
several_entries n (some base) h = let other : (n == 1) ≡ false = ground arith in rw other refl

no_entry : (n : ℕ) → new_pci n none ≡ panic
unfolding new_pci
no_entry n = elim (Bool-cases (n == 1)) [ inl one ↦ rw one refl | inr other ↦ rw other refl ]

one_entry :
    (read_volatile : ℕ → ℕ) (base : ℕ)
    → base + 2 ^ 28 ≤ 2 ^ 64
    → (new_pci 1 (some base) >>= λ pci. probe_devices 65537 pci read_volatile iter)
      ≡ devices_behind read_volatile (some base)
unfolding new_pci
one_entry read_volatile base fits =
    let room : base + 2 ^ 24 < 2 ^ 64 = omega arith in
    rw (lt→ltb (base + 2 ^ 24) (2 ^ 64) room)
      (probe_devices_lem (record { start = base; end = base + 2 ^ 24 }) read_volatile fits)

with_entries :
    (read_volatile : ℕ → ℕ) (n : ℕ) (first : Option ℕ)
    → ((base : ℕ) → first ≡ some base → base + 2 ^ 28 ≤ 2 ^ 64)
    → (new_pci n first >>= λ pci. probe_devices 65537 pci read_volatile iter)
      ≡ devices_behind read_volatile (first_base n first)
with_entries read_volatile n none fits = elim (Bool-cases (n == 1)) [
  | inl one ↦ rw (no_entry n, one) refl
  | inr other ↦ rw (no_entry n, other) refl
]
with_entries read_volatile n (some base) fits = elim (Bool-cases (n == 1)) [
  | inl one ↦
      let same : n ≡ 1 = ground arith in
      rw (one, same) (one_entry read_volatile base (fits base refl))
  | inr other ↦
      let several : n ≢ 1 = λ e. ground arith in
      rw (several_entries n (some base) several, other) refl
]

one_printed :
    (n base : ℕ) (entries : ℕ → Option ℕ)
    → n ≡ 1
    → entries 0 ≡ some base
    → print_entries n 0 entries ≡ entry base ∷ []
unfolding print_entries
one_printed n base entries one first = rw (one, first) refl

bind_assoc :
    {A B C : Type 0} (m : Outcome A) (f : A → Outcome B) (g : B → Outcome C)
    → (m >>= λ a. f a >>= g) ≡ (m >>= f >>= g)
bind_assoc (done a) f g = refl
bind_assoc panic f g = refl

-- What is printed, from the devices that the probe finds.
printed_lem :
    (read_volatile : ℕ → ℕ) (n : ℕ) (entries : ℕ → Option ℕ) (first : Option ℕ)
    → entries 0 ≡ first
    → (devices_behind read_volatile (first_base n first) >>= λ devices.
        done (and_devices (print_entries n 0 entries) devices))
      ≡ printed_for read_volatile (first_base n first)
printed_lem read_volatile n entries none same = elim (Bool-cases (n == 1)) [
  | inl one ↦ rw one refl
  | inr other ↦ rw other refl
]
printed_lem read_volatile n entries (some base) same = elim (Bool-cases (n == 1)) [
  | inl one ↦ rw (one, one_printed n base entries (ground arith) same) refl
  | inr other ↦ rw other refl
]

-- With a table of one entry, `init_pci` ends after 65536 ids and prints that entry and then exactly the
-- devices that are present behind its base address, in the order of their ids. Without a table it
-- prints nothing, and a table with another number of entries, or none to read, ends the program. The 256 MiB from the
-- base address on are addresses of 64 bits.
pub init_pci_lem :
    (read_volatile : ℕ → ℕ) (mcfg : Option AcpiMcfgDescriptor)
    → ((table : AcpiMcfgDescriptor) → mcfg ≡ some table → HasRoom table)
    → init_pci 65537 read_volatile mcfg ≡ printed_of read_volatile mcfg
unfolding init_pci
init_pci_lem read_volatile none room = refl
init_pci_lem read_volatile (some mcfg) room =
    bind_assoc (new_pci mcfg.num_of_entries (mcfg.entry 0))
      (λ pci. probe_devices 65537 pci read_volatile iter)
      (λ devices. done (and_devices (print_entries mcfg.num_of_entries 0 mcfg.entry) devices))
    ∙ ap
        (λ found. found >>= λ devices.
          done (and_devices (print_entries mcfg.num_of_entries 0 mcfg.entry) devices))
        (with_entries read_volatile mcfg.num_of_entries (mcfg.entry 0) (room mcfg refl).fits)
    ∙ printed_lem read_volatile mcfg.num_of_entries mcfg.entry (mcfg.entry 0) refl
