-- ===== src/Mutex/Exclusion.antt =====
-- Mutual exclusion: threads that call `lock` of mutex.rs and drop their guards, in any interleaving
-- of the atomic accesses.
use wasabi_os.Common.{ℕ, zero, suc, ◌≡◌, Bool, true, false, arith, ◌==◌, if◌then◌else◌}
use wasabi_os.Mutex.{Mutex, new, compare_exchange, drop, lock_tries}

-- Where a thread stands: outside, in the loop with so many tries left, after a successful exchange,
-- with a guard, or stopped by the panic.
pub data Thread : Type 0 where
  outside : Thread
  trying : ℕ → Thread
  exchanged : Thread
  holding : Thread
  stopped : Thread

pub record System {ℓ} (A : Type ℓ) : Type ℓ where
  pub mutex : Mutex A
  pub thread : ℕ → Thread

-- The thread is between its exchange and the drop of its guard.
abbrev pub owns : Thread → Bool
owns outside = false
owns (trying n) = false
owns exchanged = true
owns holding = true
owns stopped = false

abbrev pub move : (ℕ → Thread) → ℕ → Thread → ℕ → Thread
move thread t place u = if u == t then place else thread u

module _ {ℓ} {A : Type ℓ} where
  -- One atomic access of the thread t.
  pub data Step : System A → System A → Type ℓ where
    enters :
        (t : ℕ) (s : System A)
        → s.thread t ≡ outside
        → Step s (record s { thread = move s.thread t (trying lock_tries) })
    takes :
        (t n : ℕ) (s : System A)
        → s.thread t ≡ trying (suc n)
        → (compare_exchange s.mutex).0 ≡ true
        → Step s
            (record { mutex = (compare_exchange s.mutex).1; thread = move s.thread t exchanged })
    fails :
        (t n : ℕ) (s : System A)
        → s.thread t ≡ trying (suc n)
        → (compare_exchange s.mutex).0 ≡ false
        → Step s
            (record { mutex = (compare_exchange s.mutex).1; thread = move s.thread t (trying n) })
    gives_up :
        (t : ℕ) (s : System A)
        → s.thread t ≡ trying zero
        → Step s (record s { thread = move s.thread t stopped })
    records :
        (t line : ℕ) (s : System A)
        → s.thread t ≡ exchanged
        → Step s (record {
          mutex = record s.mutex { taker_line_num = line };
          thread = move s.thread t holding;
        })
    writes :
        (t : ℕ) (value : A) (s : System A)
        → s.thread t ≡ holding
        → Step s (record s { mutex = record s.mutex { value = value } })
    drops :
        (t : ℕ) (s : System A)
        → s.thread t ≡ holding
        → Step s (record { mutex = drop s.mutex; thread = move s.thread t outside })

  pub data Reachable (value : A) : System A → Type ℓ where
    begins : Reachable value (record { mutex = new value; thread = λ t. outside })
    later : {s s' : System A} → Reachable value s → Step s s' → Reachable value s'

  -- A mutex that is taken belongs to exactly one thread, and a free one to none.
  pub record Exclusive (s : System A) : Type ℓ where
    pub taken : (t : ℕ) → owns (s.thread t) ≡ true → s.mutex.is_taken ≡ true
    pub alone : (t u : ℕ) → owns (s.thread t) ≡ true → owns (s.thread u) ≡ true → t ≡ u

  Step-Exclusive : {s s' : System A} → Step s s' → Exclusive s → Exclusive s'
  unfolding compare_exchange drop
  Step-Exclusive (enters t s at) e = record {
    taken = λ u h. ground (arith, e.taken u);
    alone = λ u v h k. ground (arith, e.alone u v);
  }
  Step-Exclusive (takes t n s at free) e = record {
    taken = λ u h. ground (arith, e.taken u);
    alone = λ u v h k. ground (arith, e.alone u v, e.taken u, e.taken v);
  }
  Step-Exclusive (fails t n s at busy) e = record {
    taken = λ u h. ground (arith, e.taken u);
    alone = λ u v h k. ground (arith, e.alone u v);
  }
  Step-Exclusive (gives_up t s at) e = record {
    taken = λ u h. ground (arith, e.taken u);
    alone = λ u v h k. ground (arith, e.alone u v);
  }
  Step-Exclusive (records t line s at) e = record {
    taken = λ u h. ground (arith, e.taken u, e.taken t);
    alone = λ u v h k. ground (arith, e.alone u v, e.alone t v, e.alone u t);
  }
  Step-Exclusive (writes t value s at) e = record {
    taken = λ u h. ground (arith, e.taken u);
    alone = λ u v h k. ground (arith, e.alone u v);
  }
  Step-Exclusive (drops t s at) e = record {
    taken = λ u h. ground (arith, e.taken u, e.alone u t);
    alone = λ u v h k. ground (arith, e.alone u v);
  }

  -- In every reachable state at most one thread is between its successful exchange and the drop of
  -- its guard, and while one is, the flag is set.
  pub Reachable-Exclusive : (value : A) {s : System A} → Reachable value s → Exclusive s
  Reachable-Exclusive value begins = record { taken = λ t h. cc; alone = λ t u h k. cc }
  Reachable-Exclusive value (later before step) =
      Step-Exclusive step (Reachable-Exclusive value before)
