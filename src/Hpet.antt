-- ===== src/Hpet.antt =====
-- hpet.rs: the timer's registers, its initialisation and the time stamp.
pub mod Setup
pub mod Time
pub mod Tests
use wasabi_os.Common.{
  ℕ, zero, suc, ◌+◌, ◌-◌, ◌*◌, ◌/◌, ◌%◌, ◌^◌, bit_and, bit_or, Option, none, some, Outcome, done,
  panic, ◌==◌, ltb, if◌then◌else◌,
}

-- `HpetRegisters`; the 32 timers' configurations are a function of the number of the timer.
pub record HpetRegisters : Type 0 where
  pub capabilities_and_id : ℕ
  pub configuration : ℕ
  pub main_counter_value : ℕ
  pub timers : ℕ → ℕ

pub record Hpet : Type 0 where
  pub registers : HpetRegisters
  pub num_of_timers : ℕ
  pub freq : ℕ

-- TIMER_CONFIG_INT_ENABLE | TIMER_CONFIG_USE_PERIODIC_MODE | TIMER_CONFIG_LEVEL_TRIGGER | (0b11111 << 9)
abbrev pub cleared_bits : ℕ
cleared_bits = bit_or (bit_or (bit_or (2 ^ 2) (2 ^ 3)) (2 ^ 1)) (0b11111 * 2 ^ 9)

-- `config &= !(…)`.
unfoldable pub clear_config : ℕ → ℕ
clear_config config = bit_and config (2 ^ 64 - 1 - cleared_bits)

unfoldable pub globally_disable : HpetRegisters → HpetRegisters
globally_disable r = record r { configuration = bit_and r.configuration (2 ^ 64 - 1 - 0b11) }

unfoldable pub globally_enable : HpetRegisters → HpetRegisters
globally_enable r = record r { configuration = bit_or r.configuration 0b01 }

abbrev set_timer : HpetRegisters → ℕ → ℕ → HpetRegisters
set_timer r i value = record r { timers = λ j. if j == i then value else r.timers j }

-- The loop over the timers, for n of them from i on; the array `timers` has 32 elements.
unfoldable pub clear_timers : ℕ → ℕ → HpetRegisters → Outcome HpetRegisters
clear_timers zero i r = done r
clear_timers (suc n) i r =
    if ltb i 32 then clear_timers n (i + 1) (set_timer r i (clear_config (r.timers i))) else panic

unfoldable pub timers_of : ℕ → ℕ
timers_of capabilities = bit_and (capabilities / 2 ^ 8) 0b11111 + 1

unfoldable pub start_counter : ℕ → ℕ → HpetRegisters → Hpet
start_counter num_of_timers freq r = record {
  registers = globally_enable (record r { main_counter_value = 0 });
  num_of_timers = num_of_timers;
  freq = freq;
}

-- `Hpet::new`; a period of 0 is a division by zero.
unfoldable pub new : HpetRegisters → Outcome Hpet
new r =
    let fs_per_count = r.capabilities_and_id / 2 ^ 32 in
    let num_of_timers = timers_of r.capabilities_and_id in
    if fs_per_count == 0 then panic else elim (clear_timers num_of_timers 0 (globally_disable r)) [
      | panic ↦ panic
      | done r' ↦ done (start_counter num_of_timers (1_000_000_000_000_000 / fs_per_count) r')
    ]

-- `set_global_hpet`, on what the global mutex holds.
unfoldable pub set_global_hpet : Option Hpet → Hpet → Outcome (Option Hpet)
set_global_hpet none hpet = done (some hpet)
set_global_hpet (some old) hpet = panic

-- The timer when the hardware has counted up to c.
abbrev pub at_count : ℕ → Hpet → Hpet
at_count c hpet = record hpet { registers = record hpet.registers { main_counter_value = c } }

-- `global_timestamp`, in nanoseconds.
unfoldable pub global_timestamp : Option Hpet → Outcome ℕ
global_timestamp none = done 0
global_timestamp (some hpet) =
    if hpet.freq == 0
    then panic
    else done (hpet.registers.main_counter_value * 1_000_000_000 / hpet.freq % 2 ^ 64)
