-- ===== src/Hpet/Setup.antt =====
-- `Hpet::new` of hpet.rs: what the registers hold afterwards.
use wasabi_os.Common.{
  ℕ, zero, suc, ◌+◌, ◌-◌, ◌*◌, ◌/◌, ◌%◌, ◌^◌, ◌<◌, ◌≤◌, ◌≡◌, ◌≢◌, refl, ◌∙◌, bit_and, false, done,
  arith, ltb, lt→ltb, ◌==◌, if◌then◌else◌, ◌&&◌, leb,
}
use wasabi_os.Common.Bits.{
  bit_and-ones, bit_and-align_down, bit_or-disjoint, bit_and_assoc, bit_and-zero,
}
use wasabi_os.Hpet.{
  HpetRegisters, Hpet, cleared_bits, clear_config, globally_disable, globally_enable, clear_timers,
  timers_of, start_counter, new,
}

-- None of the bits is left, and every bit outside of them is kept.
clear_config_lem :
    (config : ℕ)
    → (bit_and (clear_config config) cleared_bits ≡ 0)
      × (bit_and (clear_config config) (2 ^ 64 - 1 - cleared_bits)
          ≡ bit_and config (2 ^ 64 - 1 - cleared_bits))
unfolding clear_config
clear_config_lem config = (
  bit_and_assoc config (2 ^ 64 - 1 - cleared_bits) cleared_bits ∙ bit_and-zero config,
  bit_and_assoc config (2 ^ 64 - 1 - cleared_bits) (2 ^ 64 - 1 - cleared_bits),
)

timers_of_lem : (c : ℕ) → timers_of c ≡ c / 256 % 32 + 1
unfolding timers_of
timers_of_lem c = rw (bit_and-ones 5 (c / 256)) refl

-- The timers i to i + n - 1 are cleared, and nothing else changes.
record Cleared (n i : ℕ) (r r' : HpetRegisters) : Type 0 where
  timers :
      (j : ℕ)
      → r'.timers j ≡ (if leb i j && ltb j (i + n) then clear_config (r.timers j) else r.timers j)
  capabilities : r'.capabilities_and_id ≡ r.capabilities_and_id
  configuration : r'.configuration ≡ r.configuration

clear_timers-Cleared :
    (n i : ℕ) (r : HpetRegisters)
    → i + n ≤ 32
    → (r' : HpetRegisters) × (clear_timers n i r ≡ done r') × Cleared n i r r'
unfolding clear_timers
clear_timers-Cleared zero i r h =
    (r, refl, record { timers = λ j. ground arith; capabilities = refl; configuration = refl })
clear_timers-Cleared (suc n) i r h =
    let r1 : HpetRegisters = record r {
      timers = λ j. if j == i then clear_config (r.timers i) else r.timers j;
    } in
    let (r2, run, c) = clear_timers-Cleared n (i + 1) r1 (omega arith) in
    (
      r2,
      rw (lt→ltb i 32 (omega arith)) run,
      record {
        timers = λ j. ground (arith, c.timers j);
        capabilities = c.capabilities;
        configuration = c.configuration;
      },
    )

-- What `Hpet::new` leaves: the timer counts from 0, its interrupts are off, and its frequency is not 0.
pub record IsSetUp (r : HpetRegisters) (hpet : Hpet) : Type 0 where
  pub counter : hpet.registers.main_counter_value ≡ 0
  pub enabled : hpet.registers.configuration ≡ r.configuration / 4 * 4 + 1
  pub num_of_timers : hpet.num_of_timers ≡ r.capabilities_and_id / 2 ^ 8 % 32 + 1
  pub timers :
      (j : ℕ)
      → hpet.registers.timers j
        ≡ (if ltb j hpet.num_of_timers then clear_config (r.timers j) else r.timers j)
  pub quiet : (j : ℕ) → j < hpet.num_of_timers → bit_and (hpet.registers.timers j) cleared_bits ≡ 0
  pub freq : hpet.freq ≡ 1_000_000_000_000_000 / (r.capabilities_and_id / 2 ^ 32)
  pub freq_pos : 0 < hpet.freq

enable_lem :
    (r : HpetRegisters)
    → r.configuration < 2 ^ 64
    → (globally_disable r).configuration ≡ r.configuration / 4 * 4
unfolding globally_disable
enable_lem r h = bit_and-align_down 2 r.configuration (omega arith) h

period_pos : (p : ℕ) → 0 < p → p < 2 ^ 32 → 0 < 1_000_000_000_000_000 / p
period_pos p h k = grind arith

set_up :
    (r r' : HpetRegisters) (n : ℕ)
    → n ≡ r.capabilities_and_id / 2 ^ 8 % 32 + 1
    → r.configuration < 2 ^ 64
    → r.capabilities_and_id < 2 ^ 64
    → r.capabilities_and_id / 2 ^ 32 ≢ 0
    → Cleared n 0 (globally_disable r) r'
    → IsSetUp r (start_counter n (1_000_000_000_000_000 / (r.capabilities_and_id / 2 ^ 32)) r')
unfolding globally_disable globally_enable start_counter
set_up r r' n count word word' period c = record {
  counter = refl;
  enabled =
      let e = c.configuration ∙ enable_lem r word in
      rw e (bit_or-disjoint 2 (r.configuration / 4) 1 (omega arith));
  num_of_timers = count;
  timers = λ j. ground (arith, c.timers j);
  quiet = λ j h.
      let e : r'.timers j ≡ clear_config (r.timers j) = ground (arith, c.timers j) in
      rw e ((clear_config_lem (r.timers j)).0);
  freq = refl;
  freq_pos = period_pos (r.capabilities_and_id / 2 ^ 32) (omega arith) (omega arith);
}

-- If the period in the capabilities is not 0, `Hpet::new` succeeds: it never leaves the array of 32
-- timers, clears the interrupt bits of each timer that the hardware has, whose number less 1 is in
-- bits 8 to 12 of the capabilities, sets the counter to 0 and
-- the enable bits to 01. The frequency is not 0, so a time stamp divides by no zero.
pub new-IsSetUp :
    (r : HpetRegisters)
    → r.configuration < 2 ^ 64
    → r.capabilities_and_id < 2 ^ 64
    → r.capabilities_and_id / 2 ^ 32 ≢ 0
    → (hpet : Hpet) × (new r ≡ done hpet) × IsSetUp r hpet
unfolding new globally_enable
new-IsSetUp r word word' period =
    let n : ℕ = timers_of r.capabilities_and_id in
    let few : n ≤ 32 = omega (arith, timers_of_lem r.capabilities_and_id) in
    let (r', run, c) = clear_timers-Cleared n 0 (globally_disable r) (omega arith) in
    let nonzero : (r.capabilities_and_id / 2 ^ 32 == 0) ≡ false = ground arith in
    (
      _,
      rw (nonzero, run) refl,
      set_up r r' n (timers_of_lem r.capabilities_and_id) word word' period c,
    )
