-- ===== src/Mutex/Tests.antt =====
-- A mutex of a number.
use wasabi_os.Common.{ℕ, suc, ◌≡◌, refl, true, false, Result, err, done, panic, arith}
use wasabi_os.Mutex.{Mutex, new, compare_exchange, lock, unser_locked}
use wasabi_os.Mutex.Lock.{drops_at, lock_waits, lock_gives_up, unser_locked_lem}
use wasabi_os.Mutex.Exclusion.{
  System, outside, trying, exchanged, move, enters, takes, Reachable, begins, later, Exclusive,
  Reachable-Exclusive,
}

abbrev taken_mutex : Mutex ℕ
taken_mutex = record { value = 5; is_taken = true; taker_line_num = 12 }

lock_waits_example :
    lock (drops_at 9000) 40 taken_mutex
    ≡ done (record { value = 5; is_taken = true; taker_line_num = 40 })
lock_waits_example = lock_waits 9000 40 taken_mutex refl (omega arith)

lock_gives_up_run : lock (λ i m. m) 40 taken_mutex ≡ panic
lock_gives_up_run = lock_gives_up 40 taken_mutex refl

-- An error of the closure, after it has changed the contents.
abbrev failing : ℕ → Result (Unit {0}) × ℕ
failing n = (err "no", suc n)

unser_locked_lem_run :
    unser_locked (λ i m. m) 7 failing (new 5)
    ≡ done (err "no", record { value = 6; is_taken = false; taker_line_num = 7 })
unser_locked_lem_run = unser_locked_lem 7 failing (new 5) refl

abbrev start : System ℕ
start = record { mutex = new 5; thread = λ t. outside }

abbrev entered : System ℕ
entered = record start { thread = move start.thread 3 (trying 10000) }

abbrev locked : System ℕ
locked = record {
  mutex = (compare_exchange entered.mutex).1;
  thread = move entered.thread 3 exchanged;
}

locked-Reachable : Reachable 5 locked
unfolding compare_exchange
locked-Reachable = later (later begins (enters 3 start refl)) (takes 3 9999 entered refl refl)

Reachable-Exclusive_example : Exclusive locked
Reachable-Exclusive_example = Reachable-Exclusive 5 locked-Reachable
