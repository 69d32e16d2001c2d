-- ===== src/Acpi/Tests.antt =====
-- An RSDP at 0, an XSDT at 64 with two entries, and two tables.
use wasabi_os.Common.{ℕ, ◌≡◌, refl, some, done, panic, arith, ◌==◌, if◌then◌else◌}
use wasabi_os.Uefi.{read_le}
use wasabi_os.Acpi.{hpet_signature, signature_at, length_at, entry, find_table, hpet}
use wasabi_os.Acpi.Search.{first_table, find_table_lem, find_table_short, hpet_lem}

abbrev pub memory : ℕ → ℕ
memory a =
    if a == 24
    then 64
    else if a == 68
    then 52
    else if a == 101
    then 2
    else if a == 109
    then 3
    else if a == 768
    then 0x48
    else if a == 769
    then 0x50
    else if a == 770
    then 0x45
    else if a == 771
    then 0x54
    else 0

find_table_lem_run :
    find_table memory 5 64 hpet_signature ≡ done (some (first_table memory 64 hpet_signature 0 2))
unfolding length_at read_le
find_table_lem_run = find_table_lem memory 5 64 hpet_signature (omega arith) (omega arith)

find_table_short_run : find_table memory 5 200 hpet_signature ≡ panic
unfolding length_at read_le
find_table_short_run = find_table_short memory 5 200 hpet_signature (omega arith) (omega arith)

hpet_lem_example : hpet memory 5 0 ≡ done (some (some 768))
unfolding length_at read_le first_table entry signature_at
hpet_lem_example = hpet_lem memory 5 0 64 refl (omega arith) (omega arith)
