-- ===== src/Executor.antt =====
-- executor.rs: tasks, the queue that `Executor::run` works through, `block_on`, and the two futures
-- of the module. A future of other code is a parameter: `poll` takes its state and the state of the
-- world, and gives whether it is ready and both states after.
pub mod Queue
pub mod Futures
mod Tests
use wasabi_os.Common.{
  ℕ, zero, suc, Bool, true, false, Option, none, some, List, [], ◌∷◌, ◌++◌, String, ltb,
  if◌then◌else◌,
}

pub data Poll {ℓ} (R : Type ℓ) : Type ℓ where
  ready : R → Poll R
  pending : Poll R

-- `Task<T>`: where it was made, and its future.
pub record Task {ℓ} (F : Type ℓ) : Type ℓ where
  pub future : F
  pub created_at_file : String
  pub created_at_line : ℕ

module _ {F W R : Type 0} (poll : F → W → Poll R × F × W) where
  -- `block_on`: the result and how often the future was polled, for at most `fuel` polls.
  unfoldable pub block_on : ℕ → F → W → Option (R × ℕ × W)
  block_on zero future world = none
  block_on (suc fuel) future world =
      let (answer, future', world') = poll future world in
      elim answer [
        | ready result ↦ some (result, 1, world')
        | pending ↦ elim (block_on fuel future' world') [
          | none ↦ none
          | some r ↦ some (r.0, suc r.1, r.2)
        ]
      ]

  -- The queue (empty also where the source has `None`: the method `task_queue` makes it a queue), the
  -- world, and the tasks that are done with their results, the last one first.
  pub record Executor : Type 0 where
    pub task_queue : List (Task F)
    pub world : W
    pub completed : List (Task F × R)

  -- `Executor::enqueue`.
  abbrev pub enqueue : Task F → Executor → Executor
  enqueue task e = record e { task_queue = e.task_queue ++ task ∷ [] }

  -- What one round of `run` does with the task at the front, and with what is behind it.
  unfoldable pub after_poll : Task F → List (Task F) → List (Task F × R) → Poll R × F × W → Executor
  after_poll task rest completed (ready result, future, world) = record {
    task_queue = rest;
    world = world;
    completed = (record task { future = future }, result) ∷ completed;
  }
  after_poll task rest completed (pending, future, world) = record {
    task_queue = rest ++ record task { future = future } ∷ [];
    world = world;
    completed = completed;
  }

  -- One round of the loop of `run`.
  unfoldable pub turn : Executor → Executor
  turn e = elim e.task_queue [
    | [] ↦ e
    | task ∷ rest ↦ after_poll task rest e.completed (poll task.future e.world)
  ]

  -- n rounds of `run`, which has no end.
  unfoldable pub run : ℕ → Executor → Executor
  run zero e = e
  run (suc n) e = run n (turn e)

-- `Yield`: its flag `polled`.
abbrev pub poll_yield : {W : Type 0} → Bool → W → Poll (Unit {0}) × Bool × W
poll_yield polled world = (if polled then ready tt else pending, true, world)

-- `TimeoutFuture`: its deadline; the world is the number of readings of the clock so far, and `now i`
-- the i-th reading, in nanoseconds.
abbrev pub poll_timeout : (ℕ → ℕ) → ℕ → ℕ → Poll (Unit {0}) × ℕ × ℕ
poll_timeout now time_out i = (if ltb time_out (now i) then ready tt else pending, time_out, suc i)
