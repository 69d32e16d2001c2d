-- ===== src/Acpi.antt =====
-- acpi.rs: the tables that the firmware leaves in memory. Memory is a function from an address to the
-- byte there; a table is the address of its header.
pub mod Search
pub mod Tests
use wasabi_os.Common.{
  ℕ, zero, suc, ◌+◌, ◌-◌, ◌*◌, ◌/◌, Bool, true, false, ◌&&◌, Option, none, some, List, [], ◌∷◌,
  Result, ok, err, Outcome, done, panic, ◌>>=◌, ◌>>◌, assert, checked_sub, leb, ◌==◌, if◌then◌else◌,
}
use wasabi_os.Uefi.{read_le}

-- A signature of four bytes.
pub record Signature : Type 0 where
  pub c0 : ℕ
  pub c1 : ℕ
  pub c2 : ℕ
  pub c3 : ℕ

abbrev pub same_signature : Signature → Signature → Bool
same_signature s t = s.c0 == t.c0 && s.c1 == t.c1 && (s.c2 == t.c2 && s.c3 == t.c3)

-- b"HPET".
abbrev pub hpet_signature : Signature
hpet_signature = record { c0 = 0x48; c1 = 0x50; c2 = 0x45; c3 = 0x54 }

-- `SystemDescriptionTableHeader`: the signature stands at 0, the length at 4; 36 bytes in all.
abbrev pub table_header_size : ℕ
table_header_size = 36

unfoldable pub signature_at : (ℕ → ℕ) → ℕ → Signature
signature_at memory a = record {
  c0 = memory a;
  c1 = memory (a + 1);
  c2 = memory (a + 2);
  c3 = memory (a + 3);
}

unfoldable pub length_at : (ℕ → ℕ) → ℕ → ℕ
length_at memory a = read_le memory 4 (a + 4)

-- `expect_signature`, an assertion.
unfoldable pub expect_signature : (ℕ → ℕ) → ℕ → Signature → Outcome (Unit {0})
expect_signature memory a sig = assert (same_signature (signature_at memory a) sig)

-- `Xsdt::num_of_entiries`: the subtraction is checked.
unfoldable pub num_of_entries : (ℕ → ℕ) → ℕ → Outcome ℕ
num_of_entries memory xsdt = do
  bytes ← checked_sub (length_at memory xsdt) table_header_size
  done (bytes / 8)

-- `Xsdt::entry`.
unfoldable pub entry : (ℕ → ℕ) → ℕ → ℕ → ℕ
entry memory xsdt index = read_le memory 8 (xsdt + table_header_size + index * 8)

pub record XsdtIterator : Type 0 where
  pub table : ℕ
  pub index : ℕ

unfoldable pub iter : ℕ → XsdtIterator
iter xsdt = record { table = xsdt; index = 0 }

-- The item, an address, and the iterator after.
unfoldable pub next : (ℕ → ℕ) → XsdtIterator → Outcome (Option (ℕ × XsdtIterator))
next memory it = do
  n ← num_of_entries memory it.table
  done (
      if leb n it.index
      then none
      else some (entry memory it.table it.index, record it { index = it.index + 1 }))

-- `self.iter().find(|&e| e.signature() == sig)`, for at most `fuel` calls of `next`. The inner option
-- is the answer of `find`; the outer one is `none` when the fuel is used up.
unfoldable pub find : (ℕ → ℕ) → Signature → ℕ → XsdtIterator → Outcome (Option (Option ℕ))
find memory sig zero it = done none
find memory sig (suc fuel) it =
    let rest = (λ (it' : XsdtIterator). find memory sig fuel it') in
    elim (next memory it) [
      | panic ↦ panic
      | done none ↦ done (some none)
      | done (some (a, it')) ↦
          if same_signature (signature_at memory a) sig then done (some (some a)) else rest it'
    ]

unfoldable pub find_table : (ℕ → ℕ) → ℕ → ℕ → Signature → Outcome (Option (Option ℕ))
find_table memory fuel xsdt sig = find memory sig fuel (iter xsdt)

-- `AcpiTable::new` for `AcpiHpetDescriptor`, of the answer of `find_table`.
abbrev pub hpet_table : (ℕ → ℕ) → Option (Option ℕ) → Outcome (Option (Option ℕ))
hpet_table memory none = done none
hpet_table memory (some none) = done (some none)
hpet_table memory (some (some a)) = do
  expect_signature memory a hpet_signature
  done (some (some a))

-- `AcpiRsdpStruct::hpet`; the address of the XSDT stands at 24 in the RSDP.
unfoldable pub hpet : (ℕ → ℕ) → ℕ → ℕ → Outcome (Option (Option ℕ))
hpet memory fuel rsdp = do
  found ← find_table memory fuel (read_le memory 8 (rsdp + 24)) hpet_signature
  hpet_table memory found

-- `AcpiHpetDescriptor::base_address`: the generic address stands at 40, its address at 44.
unfoldable pub base_address : (ℕ → ℕ) → ℕ → Result ℕ
base_address memory a =
    if memory (a + 40) == 0
    then ok (read_le memory 8 (a + 44))
    else err "ACPI Generic Address is not in system memory space"
