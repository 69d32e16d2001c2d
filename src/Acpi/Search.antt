-- ===== src/Acpi/Search.antt =====
-- The search for a table by its signature (acpi.rs).
use wasabi_os.Common.{
  ℕ, zero, suc, ◌+◌, ◌-◌, ◌/◌, ◌<◌, ◌≤◌, ◌≡◌, refl, inl, inr, Bool-cases, true, false, Option, none,
  some, done, panic, arith, leb, if◌then◌else◌,
}
use wasabi_os.Uefi.{read_le}
use wasabi_os.Acpi.{
  Signature, same_signature, hpet_signature, table_header_size, signature_at, length_at,
  expect_signature, num_of_entries, entry, iter, next, find, find_table, hpet, hpet_table,
}

-- The first table with the signature among the n entries from i on.
unfoldable pub first_table : (ℕ → ℕ) → ℕ → Signature → ℕ → ℕ → Option ℕ
first_table memory xsdt sig i zero = none
first_table memory xsdt sig i (suc n) =
    let later = first_table memory xsdt sig (i + 1) n in
    if same_signature (signature_at memory (entry memory xsdt i)) sig
    then some (entry memory xsdt i)
    else later

-- The entries that the length of the table speaks of.
abbrev pub entries : (ℕ → ℕ) → ℕ → ℕ
entries memory xsdt = (length_at memory xsdt - table_header_size) / 8

num_of_entries_lem :
    (memory : ℕ → ℕ) (xsdt : ℕ)
    → table_header_size ≤ length_at memory xsdt
    → num_of_entries memory xsdt ≡ done (entries memory xsdt)
unfolding num_of_entries
num_of_entries_lem memory xsdt h = ground arith

find-from :
    (n fuel i : ℕ) (memory : ℕ → ℕ) (xsdt : ℕ) (sig : Signature)
    → table_header_size ≤ length_at memory xsdt
    → i + n ≡ entries memory xsdt
    → n < fuel
    → find memory sig fuel (record { table = xsdt; index = i })
      ≡ done (some (first_table memory xsdt sig i n))
unfolding find next first_table
find-from n zero i memory xsdt sig long e h = elim h [ ]
find-from zero (suc fuel) i memory xsdt sig long e h =
    let over : leb (entries memory xsdt) i ≡ true = ground arith in
    rw (find, num_of_entries_lem memory xsdt long, over) refl
find-from (suc n) (suc fuel) i memory xsdt sig long e h =
    let under : leb (entries memory xsdt) i ≡ false = ground arith in
    elim (Bool-cases (same_signature (signature_at memory (entry memory xsdt i)) sig)) [
      | inl hit ↦ rw (find, num_of_entries_lem memory xsdt long, under, hit) refl
      | inr miss ↦
          rw (find, num_of_entries_lem memory xsdt long, under, miss)
            (find-from n fuel (i + 1) memory xsdt sig long (omega arith) (omega arith))
    ]

-- If the length of the XSDT covers its header, the search ends and gives the first entry whose table
-- has the signature, or nothing if there is none.
pub find_table_lem :
    (memory : ℕ → ℕ) (fuel xsdt : ℕ) (sig : Signature)
    → table_header_size ≤ length_at memory xsdt
    → entries memory xsdt < fuel
    → find_table memory fuel xsdt sig
      ≡ done (some (first_table memory xsdt sig 0 (entries memory xsdt)))
unfolding find_table iter
find_table_lem memory fuel xsdt sig long h =
    find-from (entries memory xsdt) fuel 0 memory xsdt sig long (omega arith) h

-- With a length below the size of the header, the number of entries overflows: the search panics.
pub find_table_short :
    (memory : ℕ → ℕ) (fuel xsdt : ℕ) (sig : Signature)
    → length_at memory xsdt < table_header_size
    → 0 < fuel
    → find_table memory fuel xsdt sig ≡ panic
unfolding find_table iter find next num_of_entries
find_table_short memory zero xsdt sig short h = elim h [ ]
find_table_short memory (suc fuel) xsdt sig short h = ground arith

-- What the search finds has the signature.
first_table-signature :
    (n i : ℕ) (memory : ℕ → ℕ) (xsdt a : ℕ) (sig : Signature)
    → first_table memory xsdt sig i n ≡ some a
    → same_signature (signature_at memory a) sig ≡ true
unfolding first_table
first_table-signature zero i memory xsdt a sig h = cc
first_table-signature (suc n) i memory xsdt a sig h =
    elim (Bool-cases (same_signature (signature_at memory (entry memory xsdt i)) sig)) [
      | inl hit ↦
          let e : some (entry memory xsdt i) ≡ some a = rw hit at h in
          let f : entry memory xsdt i ≡ a = cc in rw f at hit
      | inr miss ↦ first_table-signature n (i + 1) memory xsdt a sig (rw miss at h)
    ]

hpet_table_lem :
    (memory : ℕ → ℕ) (found : Option ℕ)
    → ((a : ℕ) → found ≡ some a → same_signature (signature_at memory a) hpet_signature ≡ true)
    → hpet_table memory (some found) ≡ done (some found)
unfolding expect_signature
hpet_table_lem memory none h = refl
hpet_table_lem memory (some a) h = rw (h a refl) refl

-- `AcpiRsdpStruct::hpet` gives the first entry of the XSDT whose table is signed HPET, if there is
-- one: the assertion on the signature, which follows the search, never fails.
pub hpet_lem :
    (memory : ℕ → ℕ) (fuel rsdp xsdt : ℕ)
    → read_le memory 8 (rsdp + 24) ≡ xsdt
    → table_header_size ≤ length_at memory xsdt
    → entries memory xsdt < fuel
    → hpet memory fuel rsdp
      ≡ done (some (first_table memory xsdt hpet_signature 0 (entries memory xsdt)))
unfolding hpet
hpet_lem memory fuel rsdp xsdt at_24 long h =
    let found = find_table_lem memory fuel xsdt hpet_signature long h in
    rw (at_24, found)
      (hpet_table_lem memory (first_table memory xsdt hpet_signature 0 (entries memory xsdt))
        (λ a e. first_table-signature (entries memory xsdt) 0 memory xsdt a hpet_signature e))
