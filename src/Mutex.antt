-- ===== src/Mutex.antt =====
-- mutex.rs: the spinning lock. The contents are of any type; a guard is the permission to use them
-- that `try_lock` gives and `drop` takes back.
pub mod Lock
pub mod Exclusion
mod Tests
use wasabi_os.Common.{
  ℕ, zero, suc, Bool, true, false, Result, ok, err, Outcome, done, panic, ◌>>=◌, if◌then◌else◌,
}

pub record Mutex {ℓ} (A : Type ℓ) : Type ℓ where
  pub value : A
  pub is_taken : Bool
  pub taker_line_num : ℕ

abbrev pub lock_tries : ℕ
lock_tries = 10000

module _ {ℓ} {A : Type ℓ} where
  -- `Mutex::new`.
  abbrev pub new : A → Mutex A
  new value = record { value = value; is_taken = false; taker_line_num = 0 }

  -- `is_taken.compare_exchange(false, true)`: whether it succeeded, and the mutex after.
  unfoldable pub compare_exchange : Mutex A → Bool × Mutex A
  compare_exchange m = if m.is_taken then (false, m) else (true, record m { is_taken = true })

  -- `Location::caller().line()` is the number `line`.
  unfoldable pub try_lock : ℕ → Mutex A → Result (Unit {0}) × Mutex A
  try_lock line m =
      let (exchanged, m1) = compare_exchange m in
      if exchanged then (ok tt, record m1 { taker_line_num = line }) else (err "Lock failed", m1)

  -- `MutexGuard::drop`.
  unfoldable pub drop : Mutex A → Mutex A
  drop m = record m { is_taken = false }

  -- What a try leads to: the return of the guard, or the rest of the loop.
  abbrev after_try : Result (Unit {0}) × Mutex A → (Mutex A → Outcome (Mutex A)) → Outcome (Mutex A)
  after_try (ok u, m) rest = done m
  after_try (err e, m) rest = rest m

  -- The loop of `lock`, for `tries` rounds. `others i` is what the other threads do to the mutex
  -- before the i-th round from the end.
  unfoldable pub lock_loop : ℕ → (ℕ → Mutex A → Mutex A) → ℕ → Mutex A → Outcome (Mutex A)
  lock_loop zero others line m = panic
  lock_loop (suc tries) others line m =
      after_try (try_lock line (others tries m)) (λ m'. lock_loop tries others line m')

  unfoldable pub lock : (ℕ → Mutex A → Mutex A) → ℕ → Mutex A → Outcome (Mutex A)
  lock = lock_loop lock_tries

  -- `unser_locked`; `f` gives the result and the new contents.
  unfoldable pub unser_locked {κ} :
      {R : Type κ} → (ℕ → Mutex A → Mutex A) → ℕ → (A → R × A) → Mutex A → Outcome (R × Mutex A)
  unser_locked others line f m = lock others line m >>= λ locked.
      let (result, changed) = f locked.value in
      done (result, drop (record locked { value = changed }))
