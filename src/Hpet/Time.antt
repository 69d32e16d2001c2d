-- ===== src/Hpet/Time.antt =====
-- The time stamp of hpet.rs.
use wasabi_os.Common.{
  ℕ, ◌+◌, ◌*◌, ◌/◌, ◌%◌, ◌^◌, ◌<◌, ◌≤◌, ◌≡◌, refl, some, done, arith, ◌==◌, false,
}
use native.Mathlib.Nat.{div-add-mod', mod-lt}
use wasabi_os.Hpet.{Hpet, global_timestamp}

-- The time stamp is the counter in nanoseconds, rounded down, until that needs more than 64 bits.
pub global_timestamp_lem :
    (hpet : Hpet)
    → 0 < hpet.freq
    → hpet.registers.main_counter_value * 1_000_000_000 < 2 ^ 64 * hpet.freq
    → (ns : ℕ) × (global_timestamp (some hpet) ≡ done ns)
      × (ns * hpet.freq ≤ hpet.registers.main_counter_value * 1_000_000_000)
      × (hpet.registers.main_counter_value * 1_000_000_000 < ns * hpet.freq + hpet.freq)
unfolding global_timestamp
global_timestamp_lem hpet pos small =
    let n : ℕ = hpet.registers.main_counter_value * 1_000_000_000 in
    let q : ℕ = n / hpet.freq in
    let first : q * hpet.freq + n % hpet.freq ≡ n = div-add-mod' n hpet.freq in
    let rem : n % hpet.freq < hpet.freq = mod-lt n pos in
    let fits : q < 2 ^ 64 = grind arith in
    let same : q % 2 ^ 64 ≡ q = omega arith in
    let nonzero : (hpet.freq == 0) ≡ false = ground arith in
    (q, rw (nonzero, same) refl, omega arith, omega arith)
