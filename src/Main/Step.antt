-- ===== src/Main/Step.antt =====
-- One poll of a task of main.rs, and the log.
use wasabi_os.Common.{
  ℕ, zero, suc, ◌+◌, ◌*◌, ◌/◌, ◌^◌, ◌≤◌, ◌<◌, ◌≡◌, ◌∙◌, sym, refl, inl, inr, Bool-cases, Option,
  none, some, Result, ok, err, List, ◌∷◌, All, ltb, arith,
}
use wasabi_os.Serial.{Ports, new_for_com1, try_read, loopback_test}
use wasabi_os.Main.{
  Line, counted, monitoring, World, State, counting, sleeping, serial, serial_sleeping, seconds,
  tick, print, count, heard, monitor, started, poll,
}
use wasabi_os.Main.Log.{Past, Spaced, kind, Own, Fits, All-later, KeepsOthers, Polled, Polled-after}

module _ {D : Type 0} (now : ℕ → ℕ) (ports : Ports D) (fuel : ℕ)
    (mono : (i : ℕ) → now i ≤ now (suc i)) where
  hundred : (k i n : ℕ) → 100 * k ≤ i → i + suc n ≡ 100 * k + 4 → i / 100 ≡ k
  hundred k i n h e = omega arith

  -- The line of the task k leaves the tasks of other kinds as they are.
  counted-KeepsOthers :
      (k i n t : ℕ) (s : State) (log : List Line)
      → kind s ≡ k
      → i / 100 ≡ k
      → KeepsOthers s log (counted i t ∷ log)
  counted-KeepsOthers k i n t s log es ei q differ fits =
      (λ e. absurd (differ (sym e ∙ ei ∙ sym es)), fits)

  count-Polled :
      (n k i : ℕ) (w : World D)
      → Own (counting k n i)
      → All (Past k i (now w.reads)) w.log
      → Spaced w.log
      → Polled (counting k n i) w (count now ports fuel k n i w)
  unfolding count
  count-Polled zero k i w own past spaced = (spaced, λ q differ fits. fits)
  count-Polled (suc n) k i w own past spaced =
      let t : ℕ = now w.reads in
      let deadline : ℕ = now (suc w.reads) + seconds k in
      let asked : ℕ = now (suc (suc w.reads)) in
      let w' = tick (tick (tick (print (counted i t) w))) in
      let e = hundred k i n own.1 own.2 in
      let spaced' : Spaced (counted i t ∷ w.log) = (rw e past, spaced) in
      let others = counted-KeepsOthers k i n t (counting k (suc n) i) w.log refl e in
      let m0 = mono w.reads in
      elim (Bool-cases (ltb deadline asked)) [
        | inr sleep ↦
            rw (count, sleep)
              (
                spaced',
                others,
                refl,
                (own.0, omega (arith, own.1), omega (arith, own.2)),
                (
                  λ z. (omega arith, omega (arith, m0)),
                  All-later k i (suc i) t (suc deadline) w.log (omega arith) (omega (arith, m0))
                      past,
                ),
              )
        | inl late ↦
            let m2 = mono (suc (suc w.reads)) in
            let on_time : t + seconds k < now (suc (suc (suc w.reads))) = ground (arith, m0, m2) in
            let past' : All (Past k (suc i) (now w'.reads)) w'.log = (
              λ z. (omega arith, on_time),
              All-later k i (suc i) t (now w'.reads) w.log (omega arith) (omega (arith, on_time))
                  past,
            ) in
            rw (count, late)
              (Polled-after (counting k (suc n) i) (counting k n (suc i)) w w'
                (count now ports fuel k n (suc i) w') refl others
                (count-Polled n k (suc i) w' (own.0, omega (arith, own.1), omega (arith, own.2))
                  past' spaced'))
      ]

  -- The serial task prints no numbers.
  heard_log :
      (o : Option ℕ × D) (w : World D)
      → Spaced w.log
      → Spaced (heard now ports fuel o w).log
        × ((q : State) → Fits w.log q → Fits (heard now ports fuel o w).log q)
  heard_log (none, d) w spaced = (spaced, λ q fits. fits)
  heard_log (some v, d) w spaced = ((tt, spaced), λ q fits. (tt, fits))

  monitor-Polled :
      (rounds deadline : ℕ) (w : World D)
      → Spaced w.log
      → Fits w.log serial
      → Polled serial w (monitor now ports fuel rounds deadline w)
  unfolding monitor
  monitor-Polled zero deadline w spaced fits = (spaced, λ q differ f. f, refl, tt, fits)
  monitor-Polled (suc rounds) deadline w spaced fits =
      let answer = try_read ports new_for_com1 w.device in
      let w1 = heard now ports fuel answer w in
      let deadline' : ℕ = now w1.reads + 20 * 10 ^ 6 in
      let (spaced', keeps) = heard_log answer w spaced in
      elim (Bool-cases (ltb deadline' (now (suc w1.reads)))) [
        | inr sleep ↦
            rw (monitor, sleep) (spaced', λ q differ f. keeps q f, refl, tt, keeps serial fits)
        | inl late ↦
            rw (monitor, late)
              (Polled-after serial serial w (tick (tick w1))
                (monitor now ports fuel rounds deadline' (tick (tick w1))) refl
                (λ q differ f. keeps q f)
                (monitor-Polled rounds deadline' (tick (tick w1)) spaced' (keeps serial fits)))
      ]

  started-Polled :
      (o : Option (Result (Unit {0}) × D)) (w : World D)
      → Spaced w.log
      → Fits w.log serial
      → Polled serial w (started now ports fuel o w)
  started-Polled none w spaced fits = (spaced, λ q differ f. f, refl, tt, fits)
  started-Polled (some (err e, d)) w spaced fits = ((tt, spaced), λ q differ f. (tt, f))
  started-Polled (some (ok u, d)) w spaced fits =
      let w1 = print monitoring (record w { device = d }) in
      Polled-after serial serial w w1 (monitor now ports fuel fuel 0 w1) refl
        (λ q differ f. (tt, f)) (monitor-Polled fuel 0 w1 (tt, spaced) (tt, fits))

  -- Whatever task is polled, the log stays spaced, and fits the task and those of other kinds.
  pub poll-Polled :
      (s : State) (w : World D)
      → Own s
      → Fits w.log s
      → Spaced w.log
      → Polled s w (poll now ports fuel s w)
  unfolding poll
  poll-Polled (counting k n i) w own fits spaced =
      count-Polled n k i w own
        (All-later k i i 0 (now w.reads) w.log (omega arith) (omega arith) fits) spaced
  poll-Polled (sleeping k n i deadline) w own fits spaced =
      elim (Bool-cases (ltb deadline (now w.reads))) [
        | inr early ↦ rw (poll, early) (spaced, λ q differ f. f, refl, own, fits)
        | inl due ↦
            let m = mono w.reads in
            rw (poll, due)
              (Polled-after (sleeping k n i deadline) (counting k n i) w (tick w)
                (count now ports fuel k n i (tick w)) refl (λ q differ f. f)
                (count-Polled n k i (tick w) own
                  (All-later k i i (suc deadline) (now (suc w.reads)) w.log (omega arith)
                    (ground (arith, m)) fits)
                  spaced))
      ]
  poll-Polled serial w own fits spaced =
      started-Polled (loopback_test ports fuel new_for_com1 w.device) w spaced fits
  poll-Polled (serial_sleeping deadline) w own fits spaced =
      elim (Bool-cases (ltb deadline (now w.reads))) [
        | inr early ↦ rw (poll, early) (spaced, λ q differ f. f, refl, tt, fits)
        | inl due ↦
            rw (poll, due)
              (Polled-after (serial_sleeping deadline) serial w (tick w)
                (monitor now ports fuel fuel deadline (tick w)) refl (λ q differ f. f)
                (monitor-Polled fuel deadline (tick w) spaced fits))
      ]
