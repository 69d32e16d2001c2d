-- ===== src/Main/Progress.antt =====
-- One poll of a task of main.rs brings a counting task nearer to its end.
use wasabi_os.Common.{
  ℕ, zero, suc, ◌+◌, ◌-◌, ◌*◌, ◌^◌, ◌≤◌, ◌<◌, ◌≡◌, refl, inl, inr, Bool-cases, Option, none, some,
  Result, ok, err, ltb, arith, false,
}
use wasabi_os.Executor.{ready, pending}
use wasabi_os.Serial.{Ports, new_for_com1, try_read, loopback_test}
use wasabi_os.Main.{
  counted, monitoring, World, State, Answer, counting, sleeping, serial, serial_sleeping, seconds,
  tick, print, count, heard, monitor, started, poll,
}
use wasabi_os.Main.Log.{kind}

-- The nanoseconds that n numbers of the task k take at most, apart from the polls.
pub budget : ℕ → ℕ → ℕ
budget k zero = 0
budget k (suc n) = budget k n + suc (seconds k)

-- How far a task is from its end, at a time.
abbrev pub distance : State → ℕ → ℕ
distance (counting k n i) t = budget k n
distance (sleeping k n i deadline) t = budget k n + (suc deadline - t)
distance serial t = 0
distance (serial_sleeping deadline) t = 0

pub distance_later : (s : State) (t t' : ℕ) → t ≤ t' → distance s t' ≤ distance s t
distance_later (counting k n i) t t' h = omega arith
distance_later (sleeping k n i deadline) t t' h = omega (arith, h)
distance_later serial t t' h = omega arith
distance_later (serial_sleeping deadline) t t' h = omega arith

module _ {D : Type 0} (now : ℕ → ℕ) (ports : Ports D) (fuel : ℕ) where
  -- The task k is done with success, or pending at a distance below b.
  abbrev pub Below : ℕ → ℕ → Answer D → Type 0
  Below k b (ready r, s, w) = (r ≡ ok tt) × (kind s ≡ k)
  Below k b (pending, s, w) = (kind s ≡ k) × (distance s (now w.reads) < b)

  count_reads : (n k i : ℕ) (w : World D) → w.reads ≤ (count now ports fuel k n i w).2.reads
  unfolding count
  count_reads zero k i w = omega arith
  count_reads (suc n) k i w =
      let w' = tick (tick (tick (print (counted i (now w.reads)) w))) in
      let h = count_reads n k (suc i) w' in
      elim (Bool-cases (ltb (now (suc w.reads) + seconds k) (now (suc (suc w.reads))))) [
        | inr sleep ↦ rw (count, sleep) (omega arith)
        | inl late ↦ rw (count, late) (omega (arith, h))
      ]

  heard_reads : (o : Option ℕ × D) (w : World D) → (heard now ports fuel o w).reads ≡ w.reads
  heard_reads (none, d) w = refl
  heard_reads (some v, d) w = refl

  monitor_reads :
      (rounds deadline : ℕ) (w : World D)
      → w.reads ≤ (monitor now ports fuel rounds deadline w).2.reads
  unfolding monitor
  monitor_reads zero deadline w = omega arith
  monitor_reads (suc rounds) deadline w =
      let answer = try_read ports new_for_com1 w.device in
      let w1 = heard now ports fuel answer w in
      let same = heard_reads answer w in
      let deadline' : ℕ = now w1.reads + 20 * 10 ^ 6 in
      let h = monitor_reads rounds deadline' (tick (tick w1)) in
      elim (Bool-cases (ltb deadline' (now (suc w1.reads)))) [
        | inr sleep ↦ rw (monitor, sleep) (omega (arith, same))
        | inl late ↦ rw (monitor, late) (omega (arith, same, h))
      ]

  -- On a clock that advances by at most 20 ms between two readings the serial task sleeps after each
  -- look at the port, so the number of rounds of its loop does not matter.
  monitor_calm :
      (rounds deadline : ℕ) (w : World D)
      → ((i : ℕ) → now (suc i) ≤ now i + 20 * 10 ^ 6)
      → monitor now ports fuel (suc rounds) deadline w ≡ monitor now ports fuel 1 deadline w
  unfolding monitor
  monitor_calm rounds deadline w calm =
      let w1 = heard now ports fuel (try_read ports new_for_com1 w.device) w in
      let m = calm w1.reads in
      let sleep : ltb (now w1.reads + 20 * 10 ^ 6) (now (suc w1.reads)) ≡ false =
        ground (arith, m) in
      rw (monitor, sleep) refl

  started_reads :
      (o : Option (Result (Unit {0}) × D)) (w : World D)
      → w.reads ≤ (started now ports fuel o w).2.reads
  started_reads none w = omega arith
  started_reads (some (err e, d)) w = omega arith
  started_reads (some (ok u, d)) w =
      monitor_reads fuel 0 (print monitoring (record w { device = d }))

  -- The clock is never read backwards.
  pub poll_reads : (s : State) (w : World D) → w.reads ≤ (poll now ports fuel s w).2.reads
  unfolding poll
  poll_reads (counting k n i) w = count_reads n k i w
  poll_reads (sleeping k n i deadline) w =
      let h = count_reads n k i (tick w) in
      elim (Bool-cases (ltb deadline (now w.reads))) [
        | inr early ↦ rw (poll, early) (omega arith)
        | inl due ↦ rw (poll, due) (omega (arith, h))
      ]
  poll_reads serial w = started_reads (loopback_test ports fuel new_for_com1 w.device) w
  poll_reads (serial_sleeping deadline) w =
      let h = monitor_reads fuel deadline (tick w) in
      elim (Bool-cases (ltb deadline (now w.reads))) [
        | inr early ↦ rw (poll, early) (omega arith)
        | inl due ↦ rw (poll, due) (omega (arith, h))
      ]

  module _ (grows : (i : ℕ) → now i < now (suc i)) where
    count-Below :
        (n k i b : ℕ) (w : World D) → budget k n ≤ b → Below k b (count now ports fuel k n i w)
    unfolding count budget
    count-Below zero k i b w h = (refl, refl)
    count-Below (suc n) k i b w h =
        let w' = tick (tick (tick (print (counted i (now w.reads)) w))) in
        let m1 = grows (suc w.reads) in
        let m2 = grows (suc (suc w.reads)) in
        elim (Bool-cases (ltb (now (suc w.reads) + seconds k) (now (suc (suc w.reads))))) [
          | inr sleep ↦ rw (count, sleep) (refl, omega (arith, m1, m2, h))
          | inl late ↦ rw (count, late) (count-Below n k (suc i) b w' (omega (arith, h)))
        ]

    -- A counting task that is polled is done, or nearer to its end.
    pub poll-Below :
        (s : State) (w : World D)
        → 1 ≤ kind s
        → Below (kind s) (distance s (now w.reads)) (poll now ports fuel s w)
    unfolding poll
    poll-Below (counting k n i) w h = count-Below n k i (budget k n) w (omega arith)
    poll-Below (sleeping k n i deadline) w h =
        let m = grows w.reads in
        elim (Bool-cases (ltb deadline (now w.reads))) [
          | inr early ↦ rw (poll, early) (refl, ground (arith, m))
          | inl due ↦
              rw (poll, due)
                (count-Below n k i (budget k n + (suc deadline - now w.reads)) (tick w)
                  (omega arith))
        ]
    poll-Below serial w h = absurd (omega arith)
    poll-Below (serial_sleeping deadline) w h = absurd (omega arith)
