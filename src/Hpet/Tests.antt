-- ===== src/Hpet/Tests.antt =====
-- A timer of 100 MHz with three comparators.
use wasabi_os.Common.{ℕ, ◌+◌, ◌*◌, ◌<◌, ◌≤◌, ◌≡◌, done, some, arith}
use wasabi_os.Hpet.{HpetRegisters, Hpet, new, global_timestamp}
use wasabi_os.Hpet.Setup.{IsSetUp, new-IsSetUp}
use wasabi_os.Hpet.Time.{global_timestamp_lem}

abbrev pub registers : HpetRegisters
registers = record {
  capabilities_and_id = 0x0098_9680_8086_A201;
  configuration = 3;
  main_counter_value = 77;
  timers = λ i. 0x3E0E;
}

new-IsSetUp_example : (hpet : Hpet) × (new registers ≡ done hpet) × IsSetUp registers hpet
new-IsSetUp_example = new-IsSetUp registers (omega arith) (omega arith) (λ e. omega arith)

abbrev running : Hpet
running = record {
  registers = record registers { main_counter_value = 150 };
  num_of_timers = 3;
  freq = 100_000_000;
}

global_timestamp_lem_run :
    (ns : ℕ) × (global_timestamp (some running) ≡ done ns)
    × (ns * 100_000_000 ≤ 150 * 1_000_000_000)
    × (150 * 1_000_000_000 < ns * 100_000_000 + 100_000_000)
global_timestamp_lem_run = global_timestamp_lem running (omega arith) (omega arith)
