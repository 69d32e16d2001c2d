-- ===== src/Init/Devices.antt =====
-- init.rs, `init_hpet`: the timer that the ACPI tables describe becomes the global timer.
use wasabi_os.Common.{
  ℕ, ◌+◌, ◌*◌, ◌%◌, ◌/◌, ◌^◌, ◌<◌, ◌≤◌, ◌≡◌, ◌≢◌, refl, Option, none, some, Result, ok, err,
  Outcome, done, panic, ◌>>=◌, arith, ◌==◌, false, if◌then◌else◌, Bool-cases, inl, inr, ◌∙◌,
}
use wasabi_os.Uefi.{read_le}
use wasabi_os.Acpi.{hpet, hpet_signature, base_address, table_header_size, length_at}
use wasabi_os.Acpi.Search.{first_table, entries, hpet_lem}
use wasabi_os.Hpet.{HpetRegisters, Hpet, new, set_global_hpet, global_timestamp, at_count}
use wasabi_os.Hpet.Setup.{IsSetUp, new-IsSetUp}

-- `expect("Failed to get HPET base address")`.
abbrev expect_address : Result ℕ → Outcome ℕ
expect_address (ok address) = done address
expect_address (err e) = panic

-- The registers at the address are initialised and become the global timer.
abbrev start_hpet : (ℕ → HpetRegisters) → Option Hpet → ℕ → Outcome (Option (Option Hpet))
start_hpet registers global address = new (registers address) >>= λ timer.
    set_global_hpet global timer >>= λ global'. done (some global')

-- From the answer of the search, with `none` where the fuel is used up.
abbrev with_table :
    (ℕ → ℕ) → (ℕ → HpetRegisters) → Option Hpet → Option (Option ℕ) → Outcome (Option (Option Hpet))
with_table memory registers global none = done none
with_table memory registers global (some none) = panic
with_table memory registers global (some (some table)) =
    expect_address (base_address memory table) >>= start_hpet registers global

-- `registers` are the devices behind the addresses, `fuel` bounds the search in the XSDT.
unfoldable pub init_hpet :
    (ℕ → ℕ) → (ℕ → HpetRegisters) → ℕ → ℕ → Option Hpet → Outcome (Option (Option Hpet))
init_hpet memory registers fuel rsdp global =
    hpet memory fuel rsdp >>= with_table memory registers global

-- The address of the registers: of the first table in the XSDT that is signed HPET, if it is an address
-- in memory.
abbrev address_in : (ℕ → ℕ) → Option ℕ → Option ℕ
address_in memory none = none
address_in memory (some table) =
    if memory (table + 40) == 0 then some (read_le memory 8 (table + 44)) else none

abbrev pub registers_at : (ℕ → ℕ) → ℕ → Option ℕ
registers_at memory xsdt =
    address_in memory (first_table memory xsdt hpet_signature 0 (entries memory xsdt))

-- The registers hold 64 bits, and the period in them is not 0.
pub record IsTimer (r : HpetRegisters) : Type 0 where
  pub word : r.configuration < 2 ^ 64
  pub word' : r.capabilities_and_id < 2 ^ 64
  pub period : r.capabilities_and_id / 2 ^ 32 ≢ 0

stamp_at :
    (timer : Hpet)
    → 0 < timer.freq
    → (c : ℕ)
    → global_timestamp (some (at_count c timer)) ≡ done (c * 1_000_000_000 / timer.freq % 2 ^ 64)
unfolding global_timestamp
stamp_at timer pos c = let nonzero : (timer.freq == 0) ≡ false = ground arith in rw nonzero refl

-- A global timer that is there is not replaced.
start_again :
    (registers : ℕ → HpetRegisters) (address : ℕ) (old : Hpet)
    → IsTimer (registers address)
    → start_hpet registers (some old) address ≡ panic
unfolding set_global_hpet
start_again registers address old t =
    let (timer, e, up) = new-IsSetUp (registers address) t.word t.word' t.period in rw e refl

start_lem :
    (registers : ℕ → HpetRegisters) (address : ℕ)
    → IsTimer (registers address)
    → (timer : Hpet) × (start_hpet registers none address ≡ done (some (some timer)))
      × IsSetUp (registers address) timer
unfolding set_global_hpet
start_lem registers address t =
    let (timer, e, up) = new-IsSetUp (registers address) t.word t.word' t.period in
    (timer, rw e refl, up)

by_table :
    (memory : ℕ → ℕ) (registers : ℕ → HpetRegisters) (global : Option Hpet) (found : Option ℕ)
    → ((a : ℕ)
        → address_in memory found ≡ some a
        → with_table memory registers global (some found) ≡ start_hpet registers global a)
      × (address_in memory found ≡ none → with_table memory registers global (some found) ≡ panic)
unfolding base_address
by_table memory registers global none = (λ a e. cc, λ e. refl)
by_table memory registers global (some table) = elim (Bool-cases (memory (table + 40) == 0)) [
  | inl inside ↦ (
    λ a e.
        let same : some (read_le memory 8 (table + 44)) ≡ some a = rw inside at e in
        let at : read_le memory 8 (table + 44) ≡ a = cc in rw (inside, at) refl,
    λ e. let bad : some (read_le memory 8 (table + 44)) ≡ none = rw inside at e in cc,
  )
  | inr outside ↦ (λ a e. let bad : none ≡ some a = rw outside at e in cc, λ e. rw outside refl)
]

-- If the length of the XSDT covers its header, its first table signed HPET names registers in memory,
-- these hold 64 bits and the period in them is not 0, `init_hpet` finds them there: that timer is set
-- up and becomes the global one. When the counter has come to c, the time stamp is c seconds divided by
-- the frequency, in nanoseconds. If there is a global timer already, the program ends.
pub init_hpet_lem :
    (memory : ℕ → ℕ) (registers : ℕ → HpetRegisters) (fuel rsdp xsdt a : ℕ)
    → read_le memory 8 (rsdp + 24) ≡ xsdt
    → table_header_size ≤ length_at memory xsdt
    → entries memory xsdt < fuel
    → registers_at memory xsdt ≡ some a
    → IsTimer (registers a)
    → (timer : Hpet) × (init_hpet memory registers fuel rsdp none ≡ done (some (some timer)))
      × IsSetUp (registers a) timer
      × ((c : ℕ)
          → global_timestamp (some (at_count c timer))
            ≡ done (c * 1_000_000_000 / timer.freq % 2 ^ 64))
      × ((old : Hpet) → init_hpet memory registers fuel rsdp (some old) ≡ panic)
unfolding init_hpet
init_hpet_lem memory registers fuel rsdp xsdt a at_24 long enough at timer =
    let found = hpet_lem memory fuel rsdp xsdt at_24 long enough in
    let table : Option ℕ = first_table memory xsdt hpet_signature 0 (entries memory xsdt) in
    let (present, _) = by_table memory registers none table in
    let (t, run, up) = start_lem registers a timer in
    (
      t,
      rw found (present a at ∙ run),
      up,
      stamp_at t up.freq_pos,
      λ old.
          let (again, _) = by_table memory registers (some old) table in
          rw found (again a at ∙ start_again registers a old timer),
    )

-- Without a table signed HPET, or with an address of it that is not in memory, the program ends.
pub init_hpet_missing :
    (memory : ℕ → ℕ) (registers : ℕ → HpetRegisters) (fuel rsdp xsdt : ℕ) (global : Option Hpet)
    → read_le memory 8 (rsdp + 24) ≡ xsdt
    → table_header_size ≤ length_at memory xsdt
    → entries memory xsdt < fuel
    → registers_at memory xsdt ≡ none
    → init_hpet memory registers fuel rsdp global ≡ panic
unfolding init_hpet
init_hpet_missing memory registers fuel rsdp xsdt global at_24 long enough missing =
    let found = hpet_lem memory fuel rsdp xsdt at_24 long enough in
    let table : Option ℕ = first_table memory xsdt hpet_signature 0 (entries memory xsdt) in
    let (_, absent) = by_table memory registers global table in rw found (absent missing)
