-- ===== src/Executor/Futures.antt =====
-- The futures of executor.rs under `block_on`.
use wasabi_os.Common.{ℕ, zero, suc, ◌+◌, ◌<◌, ◌≤◌, ◌≡◌, refl, true, false, some, arith, lt→ltb, ltb}
use wasabi_os.Executor.{block_on, poll_yield, poll_timeout}

-- A fresh `Yield` is ready at its second poll, however many polls are allowed: it gives way once.
pub poll_yield_twice :
    {W : Type 0} (world : W) (fuel : ℕ)
    → 2 ≤ fuel
    → block_on poll_yield fuel false world ≡ some (tt, 2, world)
unfolding block_on
poll_yield_twice world zero h = elim h [ ]
poll_yield_twice world (suc zero) h = absurd (omega arith)
poll_yield_twice world (suc (suc fuel)) h = refl

timeout-from :
    (now : ℕ → ℕ) (time_out n i fuel : ℕ)
    → ((j : ℕ) → j < n → now (i + j) ≤ time_out)
    → time_out < now (i + n)
    → n < fuel
    → block_on (poll_timeout now) fuel time_out i ≡ some (tt, suc n, suc (i + n))
unfolding block_on
timeout-from now time_out n i zero early late h = elim h [ ]
timeout-from now time_out zero i (suc fuel) early late h =
    let z : i + 0 ≡ i = omega arith in
    let over : ltb time_out (now i) ≡ true = lt→ltb time_out (now i) (rw z at late) in
    rw (block_on, over, z) refl
timeout-from now time_out (suc n) i (suc fuel) early late h =
    let z : i + 0 ≡ i = omega arith in
    let under : ltb time_out (now i) ≡ false =
      let first : now (i + 0) ≤ time_out = early 0 (omega arith) in
      let here : now i ≤ time_out = rw z at first in ground arith in
    let shift : suc i + n ≡ i + suc n = omega arith in
    let rest =
      timeout-from now time_out n (suc i) fuel
        (λ j lt. let e : suc i + j ≡ i + suc j = omega arith in rw e (early (suc j) (omega arith)))
        (rw shift late) (omega arith) in
    rw (block_on, under, rest, shift) refl

-- A `TimeoutFuture` is ready at the first reading of the clock that is past the deadline, and not
-- before: if that is the reading n, `block_on` polls it n + 1 times.
pub poll_timeout_lem :
    (now : ℕ → ℕ) (time_out n fuel : ℕ)
    → ((j : ℕ) → j < n → now j ≤ time_out)
    → time_out < now n
    → n < fuel
    → block_on (poll_timeout now) fuel time_out 0 ≡ some (tt, suc n, suc n)
poll_timeout_lem now time_out n fuel early late h =
    let z : (j : ℕ) → 0 + j ≡ j = λ j. omega arith in
    let r = timeout-from now time_out n 0 fuel (λ j lt. rw (z j) (early j lt)) (rw (z n) late) h in
    rw (z n) at r
