-- ===== src/Executor/Tests.antt =====
-- Tasks that count down, and a clock that advances by 10.
use wasabi_os.Common.{ℕ, zero, suc, ◌+◌, ◌*◌, ◌≡◌, some, [], ◌∷◌, arith, length}
use wasabi_os.Executor.{Poll, ready, pending, Executor, block_on, run, poll_yield, poll_timeout}
use wasabi_os.Executor.Queue.{pass, run_lem, run_tasks}
use wasabi_os.Executor.Futures.{poll_yield_twice, poll_timeout_lem}
use wasabi_os.Common.{false}

abbrev count_down : ℕ → ℕ → Poll ℕ × ℕ × ℕ
count_down zero polls = (ready polls, zero, suc polls)
count_down (suc n) polls = (pending, n, suc polls)

abbrev two_tasks : Executor count_down
two_tasks = record {
  task_queue =
      record { future = 2; created_at_file = "main.rs"; created_at_line = 77 }
      ∷ record { future = 0; created_at_file = "main.rs"; created_at_line = 85 }
      ∷ [];
  world = 0;
  completed = [];
}

run_lem_example :
    run count_down 2 two_tasks
    ≡ pass count_down two_tasks.task_queue (record two_tasks { task_queue = [] })
run_lem_example = run_lem count_down two_tasks

run_tasks_run :
    length (run count_down 3 two_tasks).task_queue + length (run count_down 3 two_tasks).completed
    ≡ 2
run_tasks_run = run_tasks count_down 3 two_tasks

poll_yield_twice_example : block_on {W = ℕ} poll_yield 5 false 0 ≡ some (tt, 2, 0)
poll_yield_twice_example = poll_yield_twice 0 5 (omega arith)

poll_timeout_lem_run : block_on (poll_timeout (λ i. 10 * i)) 100 25 0 ≡ some (tt, 4, 4)
poll_timeout_lem_run =
    poll_timeout_lem (λ i. 10 * i) 25 3 100 (λ j h. omega arith) (omega arith) (omega arith)
