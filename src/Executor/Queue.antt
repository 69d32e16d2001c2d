-- ===== src/Executor/Queue.antt =====
-- `Executor::run` of executor.rs polls its tasks in turn.
use wasabi_os.Common.{
  ℕ, zero, suc, ◌+◌, ◌≡◌, refl, ap, ◌∙◌, List, [], ◌∷◌, ◌++◌, arith, length, length-append,
}
use wasabi_os.Executor.{Poll, ready, pending, Task, Executor, after_poll, turn, run}

++-[] : {A : Type 0} (xs : List A) → xs ++ [] ≡ xs
++-[] [] = refl
++-[] (x ∷ xs) = ap (λ t. x ∷ t) (++-[] xs)

pub ++-assoc : {A : Type 0} (xs ys zs : List A) → (xs ++ ys) ++ zs ≡ xs ++ (ys ++ zs)
++-assoc [] ys zs = refl
++-assoc (x ∷ xs) ys zs = ap (λ t. x ∷ t) (++-assoc xs ys zs)

module _ {F W R : Type 0} (poll : F → W → Poll R × F × W) where
  -- Where a task goes that has been polled: with its result to the completed ones, or to the back of
  -- those that are kept.
  abbrev filed : Task F → Executor poll → Poll R × F × W → Executor poll
  filed task kept (ready result, future, world) = record {
    task_queue = kept.task_queue;
    world = world;
    completed = (record task { future = future }, result) ∷ kept.completed;
  }
  filed task kept (pending, future, world) = record {
    task_queue = kept.task_queue ++ record task { future = future } ∷ [];
    world = world;
    completed = kept.completed;
  }

  -- One pass over a list of tasks: each is polled once, in order; `kept` collects, behind what it
  -- holds, those that stay pending, and the others leave with their results.
  pub pass : List (Task F) → Executor poll → Executor poll
  pass [] kept = kept
  pass (task ∷ rest) kept = pass rest (filed task kept (poll task.future kept.world))

  after_poll-append :
      (task : Task F) (xs : List (Task F)) (kept : Executor poll) (p : Poll R × F × W)
      → after_poll poll task (xs ++ kept.task_queue) kept.completed p
        ≡ (let e = filed task kept p in record e { task_queue = xs ++ e.task_queue })
  unfolding after_poll
  after_poll-append task xs kept (ready result, future, world) = refl
  after_poll-append task xs kept (pending, future, world) =
      rw (++-assoc xs kept.task_queue (record task { future = future } ∷ [])) refl

  run-pass :
      (todo : List (Task F)) (kept : Executor poll)
      → run poll (length todo) (record kept { task_queue = todo ++ kept.task_queue })
        ≡ pass todo kept
  unfolding run turn pass
  run-pass [] kept = refl
  run-pass (task ∷ rest) kept =
      rw (run, after_poll-append task rest kept (poll task.future kept.world))
        (run-pass rest (filed task kept (poll task.future kept.world)))

  -- Round robin: as many rounds of `run` as there are tasks poll every task of the queue exactly
  -- once, in order. The tasks that stay pending are then the queue, in their old order.
  pub run_lem :
      (e : Executor poll)
      → run poll (length e.task_queue) e ≡ pass e.task_queue (record e { task_queue = [] })
  run_lem e =
      let h = run-pass e.task_queue (record e { task_queue = [] }) in rw (++-[] e.task_queue) at h

  -- No task is lost or doubled: the waiting and the completed ones are as many as before.
  tasks : Executor poll → ℕ
  tasks e = length e.task_queue + length e.completed

  after_poll-tasks :
      (task : Task F) (rest : List (Task F)) (completed : List (Task F × R)) (p : Poll R × F × W)
      → tasks (after_poll poll task rest completed p) ≡ suc (length rest) + length completed
  unfolding after_poll tasks
  after_poll-tasks task rest completed (ready result, future, world) = omega arith
  after_poll-tasks task rest completed (pending, future, world) =
      omega (arith, length-append rest (record task { future = future } ∷ []))

  tasks_lem : (e : Executor poll) → tasks e ≡ length e.task_queue + length e.completed
  unfolding tasks
  tasks_lem e = refl

  turn-tasks :
      (q : List (Task F)) (e : Executor poll)
      → e.task_queue ≡ q
      → tasks (turn poll e) ≡ length q + length e.completed
  unfolding turn
  turn-tasks [] e same =
      let t : tasks e ≡ length e.task_queue + length e.completed = tasks_lem e in
      rw same (rw same at t)
  turn-tasks (task ∷ rest) e same =
      rw same (after_poll-tasks task rest e.completed (poll task.future e.world))

  -- The waiting and the completed tasks are together as many after n rounds as before.
  pub run_tasks :
      (n : ℕ) (e : Executor poll)
      → length (run poll n e).task_queue + length (run poll n e).completed
        ≡ length e.task_queue + length e.completed
  unfolding run tasks
  run_tasks zero e = refl
  run_tasks (suc n) e = run_tasks n (turn poll e) ∙ turn-tasks e.task_queue e refl
