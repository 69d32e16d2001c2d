-- ===== src/Uefi/Config.antt =====
-- `EfiSystemTable::lookup_config_table` and `acpi_table` of uefi.rs. The table that the firmware made
-- is a function from an index to the entry there.
use wasabi_os.Common.{
  ℕ, zero, suc, ◌+◌, ◌<◌, ◌≤◌, ◌≡◌, refl, inl, inr, Bool, Bool-cases, true, false, ◌&&◌, Option,
  none, some, arith, ◌==◌, if◌then◌else◌,
}

-- `data3` is the number whose bytes, from the highest on, are those of the array.
pub record EfiGuid : Type 0 where
  pub data0 : ℕ
  pub data1 : ℕ
  pub data2 : ℕ
  pub data3 : ℕ

abbrev pub same_guid : EfiGuid → EfiGuid → Bool
same_guid a b =
    a.data0 == b.data0 && a.data1 == b.data1 && (a.data2 == b.data2 && a.data3 == b.data3)

abbrev pub efi_acpi_table_guid : EfiGuid
efi_acpi_table_guid = record {
  data0 = 0x8868e871;
  data1 = 0xe4f1;
  data2 = 0x11d3;
  data3 = 0xbc2200_80c73c8881;
}

pub record EfiConfigurationTable : Type 0 where
  pub vendor_guid : EfiGuid
  pub vendor_table : ℕ

-- The loop of `lookup_config_table`, for n entries from i on.
unfoldable pub lookup_from :
    ℕ → ℕ → (ℕ → EfiConfigurationTable) → EfiGuid → Option EfiConfigurationTable
lookup_from zero i table guid = none
lookup_from (suc n) i table guid =
    let rest = lookup_from n (i + 1) table guid in
    if same_guid (table i).vendor_guid guid then some (table i) else rest

unfoldable pub lookup_config_table :
    ℕ → (ℕ → EfiConfigurationTable) → EfiGuid → Option EfiConfigurationTable
lookup_config_table number_of_table_entries = lookup_from number_of_table_entries 0

-- `acpi_table`: the address of the RSDP.
unfoldable pub acpi_table : ℕ → (ℕ → EfiConfigurationTable) → Option ℕ
acpi_table n table = elim (lookup_config_table n table efi_acpi_table_guid) [
  | none ↦ none
  | some t ↦ some t.vendor_table
]

-- No entry from i to j - 1 has the id.
abbrev pub NoneBefore : (ℕ → EfiConfigurationTable) → EfiGuid → ℕ → ℕ → Type 0
NoneBefore table guid i j = (k : ℕ) → i ≤ k → k < j → same_guid (table k).vendor_guid guid ≡ false

lookup_from-first :
    (n i j : ℕ) (table : ℕ → EfiConfigurationTable) (guid : EfiGuid)
    → i ≤ j
    → j < i + n
    → NoneBefore table guid i j
    → same_guid (table j).vendor_guid guid ≡ true
    → lookup_from n i table guid ≡ some (table j)
unfolding lookup_from
lookup_from-first zero i j table guid le lt before hit = absurd (omega arith)
lookup_from-first (suc n) i j table guid le lt before hit = elim (Bool-cases (i == j)) [
  | inl same ↦ let e : i ≡ j = ground arith in rw (e, hit) refl
  | inr other ↦
      let miss = before i (omega arith) (ground arith) in
      rw miss (
        lookup_from-first n (i + 1) j table guid (ground arith) (omega arith)
          (λ k l m. before k (omega arith) m) hit)
]

lookup_from-absent :
    (n i : ℕ) (table : ℕ → EfiConfigurationTable) (guid : EfiGuid)
    → NoneBefore table guid i (i + n)
    → lookup_from n i table guid ≡ none
unfolding lookup_from
lookup_from-absent zero i table guid before = refl
lookup_from-absent (suc n) i table guid before =
    let miss = before i (omega arith) (omega arith) in
    rw miss
      (lookup_from-absent n (i + 1) table guid (λ k l m. before k (omega arith) (omega arith)))

-- `acpi_table` gives the address of the first entry whose id is that of ACPI, and nothing if no entry
-- of the table has it.
pub acpi_table_first :
    (n j : ℕ) (table : ℕ → EfiConfigurationTable)
    → j < n
    → NoneBefore table efi_acpi_table_guid 0 j
    → same_guid (table j).vendor_guid efi_acpi_table_guid ≡ true
    → acpi_table n table ≡ some (table j).vendor_table
unfolding acpi_table lookup_config_table
acpi_table_first n j table lt before hit =
    rw
      (
        acpi_table,
        lookup_from-first n 0 j table efi_acpi_table_guid (omega arith) (omega arith) before hit,
      )
      refl

pub acpi_table_absent :
    (n : ℕ) (table : ℕ → EfiConfigurationTable)
    → NoneBefore table efi_acpi_table_guid 0 n
    → acpi_table n table ≡ none
unfolding acpi_table lookup_config_table
acpi_table_absent n table before =
    rw
      (
        acpi_table,
        lookup_from-absent n 0 table efi_acpi_table_guid (λ k l m. before k l (omega arith)),
      )
      refl
