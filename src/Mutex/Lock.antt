-- ===== src/Mutex/Lock.antt =====
-- `Mutex::lock` of mutex.rs: when the loop returns, and when it gives up.
use wasabi_os.Common.{
  ℕ, zero, suc, ◌<◌, ◌≡◌, refl, inl, inr, Bool-cases, true, false, ok, err, done, panic, arith,
  ◌==◌, if◌then◌else◌,
}
use wasabi_os.Mutex.{
  Mutex, compare_exchange, try_lock, drop, lock_loop, lock_tries, lock, unser_locked,
}

module _ {ℓ} {A : Type ℓ} where
  -- A failing try changes nothing; a successful one takes the free mutex.
  try_lock_taken :
      (line : ℕ) (m : Mutex A) → m.is_taken ≡ true → try_lock line m ≡ (err "Lock failed", m)
  unfolding try_lock compare_exchange
  try_lock_taken line m taken = rw taken refl

  try_lock_free :
      (line : ℕ) (m : Mutex A)
      → m.is_taken ≡ false
      → try_lock line m ≡ (ok tt, record m { is_taken = true; taker_line_num = line })
  unfolding try_lock compare_exchange
  try_lock_free line m free = rw free refl

  -- The owner of the guard drops it before the round k from the end, and nothing else happens.
  abbrev pub drops_at : ℕ → ℕ → Mutex A → Mutex A
  drops_at k i m = if i == k then drop m else m

  lock_loop_waits :
      (tries k line : ℕ) (m : Mutex A)
      → m.is_taken ≡ true
      → k < tries
      → lock_loop tries (drops_at k) line m
        ≡ done (record m { is_taken = true; taker_line_num = line })
  unfolding lock_loop drop
  lock_loop_waits zero k line m taken h = elim h [ ]
  lock_loop_waits (suc tries) k line m taken h = elim (Bool-cases (tries == k)) [
    | inl now ↦ rw (now, try_lock_free line (drop m) refl) refl
    | inr wait ↦
        rw (wait, try_lock_taken line m taken) (lock_loop_waits tries k line m taken (ground arith))
  ]

  -- A mutex whose owner drops the guard within the 10000 tries is locked: the contents are as before
  -- and the line of the new owner is recorded.
  pub lock_waits :
      (k line : ℕ) (m : Mutex A)
      → m.is_taken ≡ true
      → k < lock_tries
      → lock (drops_at k) line m ≡ done (record m { is_taken = true; taker_line_num = line })
  unfolding lock
  lock_waits k line m taken h = lock_loop_waits lock_tries k line m taken h

  lock_loop_gives_up :
      (tries line : ℕ) (m : Mutex A)
      → m.is_taken ≡ true
      → lock_loop tries (λ i m'. m') line m ≡ panic
  unfolding lock_loop
  lock_loop_gives_up zero line m taken = refl
  lock_loop_gives_up (suc tries) line m taken =
      rw (try_lock_taken line m taken) (lock_loop_gives_up tries line m taken)

  -- A mutex that stays taken, as when its owner locks it again, ends the program.
  pub lock_gives_up :
      (line : ℕ) (m : Mutex A) → m.is_taken ≡ true → lock (λ i m'. m') line m ≡ panic
  unfolding lock
  lock_gives_up line m taken = lock_loop_gives_up lock_tries line m taken

  lock_loop_free :
      (tries line : ℕ) (m : Mutex A)
      → 0 < tries
      → m.is_taken ≡ false
      → lock_loop tries (λ i m'. m') line m
        ≡ done (record m { is_taken = true; taker_line_num = line })
  unfolding lock_loop
  lock_loop_free zero line m h free = elim h [ ]
  lock_loop_free (suc tries) line m h free = rw (try_lock_free line m free) refl

  lock_free :
      (line : ℕ) (m : Mutex A)
      → m.is_taken ≡ false
      → lock (λ i m'. m') line m ≡ done (record m { is_taken = true; taker_line_num = line })
  unfolding lock
  lock_free line m free = lock_loop_free lock_tries line m (omega arith) free

  -- On a free mutex `unser_locked` runs the function once on the contents, gives its result whatever
  -- it is, and leaves the mutex free with the changed contents.
  pub unser_locked_lem {κ} :
      {R : Type κ} (line : ℕ) (f : A → R × A) (m : Mutex A)
      → m.is_taken ≡ false
      → unser_locked (λ i m'. m') line f m
        ≡ done (
          (f m.value).0,
          record { value = (f m.value).1; is_taken = false; taker_line_num = line },
        )
  unfolding unser_locked drop
  unser_locked_lem line f m free = rw (lock_free line m free) refl
