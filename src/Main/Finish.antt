-- ===== src/Main/Finish.antt =====
-- The counting tasks of main.rs come to their end under the executor.
use wasabi_os.Common.{
  ℕ, zero, suc, ◌+◌, ◌-◌, ◌*◌, ◌^◌, ◌≢◌, none, ◌≤◌, ◌<◌, ◌≡◌, ap, refl, Result, ok, List, [], ◌∷◌,
  ◌++◌, arith,
}
use wasabi_os.Executor.{ready, pending, Task, Executor, after_poll, turn, run}
use wasabi_os.Executor.Queue.{++-assoc}
use wasabi_os.Serial.{Ports, new_for_com1, loopback_test}
use wasabi_os.Main.{State, Answer, counting, serial, poll, task, three_tasks}
use wasabi_os.Main.Log.{kind}
use wasabi_os.Main.Progress.{distance, distance_later, Below, poll_reads, poll-Below}

module _ {D : Type 0} (now : ℕ → ℕ) (ports : Ports D) (fuel : ℕ) where
  abbrev Machine : Type 0
  Machine = Executor (poll now ports fuel)

  -- After some number of rounds the task k is done, with success.
  pub record Finishes (k : ℕ) (e : Machine) : Type 0 where
    pub rounds : ℕ
    pub task : Task State
    pub others : List (Task State × Result (Unit {0}))
    pub is_k : kind task.future ≡ k
    pub done_last : (run (poll now ports fuel) rounds e).completed ≡ (task, ok tt) ∷ others

  after_turn : (k : ℕ) (e : Machine) → Finishes k (turn (poll now ports fuel) e) → Finishes k e
  unfolding run
  after_turn k e f = record {
    rounds = suc f.rounds;
    task = f.task;
    others = f.others;
    is_k = f.is_k;
    done_last = f.done_last;
  }

  turn_lem :
      (t : Task State) (rest : List (Task State)) (e : Machine)
      → e.task_queue ≡ t ∷ rest
      → turn (poll now ports fuel) e
        ≡ after_poll (poll now ports fuel) t rest e.completed (poll now ports fuel t.future e.world)
  unfolding turn
  turn_lem t rest e same = rw (turn, same) refl

  -- The task t waits in the queue, at a distance below p.
  record Waits (k p : ℕ) (pre : List (Task State)) (t : Task State) (e : Machine) : Type 0 where
    post : List (Task State)
    queue : e.task_queue ≡ pre ++ t ∷ post
    is_k : kind t.future ≡ k
    near : distance t.future (now e.world.reads) < p

  module _ (grows : (i : ℕ) → now i < now (suc i)) where
    later-from : (d i : ℕ) → now i ≤ now (i + d)
    later-from zero i = let e : i + 0 ≡ i = omega arith in rw e (omega arith)
    later-from (suc d) i =
        let e : i + suc d ≡ suc (i + d) = omega arith in
        let h = later-from d i in let g = grows (i + d) in rw e (omega (arith, h, g))

    later : (i j : ℕ) → i ≤ j → now i ≤ now j
    later i j h = let e : i + (j - i) ≡ j = omega arith in let l = later-from (j - i) i in rw e at l

    -- Another task at the front is polled: the task t moves up.
    moves_up :
        (k p : ℕ) (u : Task State) (pre : List (Task State)) (t : Task State) (e : Machine)
        (post : List (Task State)) (a : Answer D)
        → kind t.future ≡ k
        → distance t.future (now e.world.reads) < p
        → e.world.reads ≤ a.2.reads
        → Waits k p pre t (after_poll (poll now ports fuel) u (pre ++ t ∷ post) e.completed a)
    unfolding after_poll
    moves_up k p u pre t e post (ready r, s, w) is_k near h = record {
      post = post;
      queue = refl;
      is_k = is_k;
      near =
          let m = later e.world.reads w.reads h in
          let d = distance_later t.future (now e.world.reads) (now w.reads) m in
          omega (arith, d, near);
    }
    moves_up k p u pre t e post (pending, s, w) is_k near h = record {
      post = post ++ record u { future = s } ∷ [];
      queue = ++-assoc pre (t ∷ post) (record u { future = s } ∷ []);
      is_k = is_k;
      near =
          let m = later e.world.reads w.reads h in
          let d = distance_later t.future (now e.world.reads) (now w.reads) m in
          omega (arith, d, near);
    }

    -- The task at the front is polled: it is done, or it waits at the end, nearer.
    front :
        (k b p : ℕ) (t : Task State) (post : List (Task State)) (e : Machine) (a : Answer D)
        → b ≤ p
        → kind t.future ≡ k
        → Below now ports fuel k b a
        → turn (poll now ports fuel) e ≡ after_poll (poll now ports fuel) t post e.completed a
        → ((t' : Task State)
            → Waits k p post t' (turn (poll now ports fuel) e)
            → Finishes k (turn (poll now ports fuel) e))
        → Finishes k e
    unfolding after_poll run
    front k b p t post e (ready r, s, w) bound is_k below same next = record {
      rounds = 1;
      task = record t { future = s };
      others = e.completed;
      is_k = below.1;
      done_last = rw (same, below.0) refl;
    }
    front k b p t post e (pending, s, w) bound is_k below same next =
        let t' : Task State = record t { future = s } in
        after_turn k e (
          next t' (record {
            post = [];
            queue = ap (λ e. e.task_queue) same;
            is_k = below.0;
            near =
                let here : now (turn (poll now ports fuel) e).world.reads ≡ now w.reads =
                  ap (λ e. now e.world.reads) same in
                rw here (omega (arith, below.1));
          }))

    -- A counting task of the queue comes to its end.
    finishes :
        (p k : ℕ) (pre : List (Task State)) (t : Task State) (e : Machine)
        → 1 ≤ k
        → Waits k p pre t e
        → Finishes k e
    finishes p k (u ∷ pre) t e pos w =
        let same = turn_lem u (pre ++ t ∷ w.post) e w.queue in
        let up =
          moves_up k p u pre t e w.post (poll now ports fuel u.future e.world) w.is_k w.near
            (poll_reads now ports fuel u.future e.world) in
        after_turn k e (finishes p k pre t (turn (poll now ports fuel) e) pos (rw same up))
    finishes zero k [] t e pos w = absurd (omega (arith, w.near))
    finishes (suc p) k [] t e pos w =
        let same = turn_lem t w.post e w.queue in
        let counts : 1 ≤ kind t.future = omega (arith, w.is_k) in
        let below = poll-Below now ports fuel grows t.future e.world counts in
        front k (distance t.future (now e.world.reads)) p t w.post e
          (poll now ports fuel t.future e.world) (omega (arith, w.near)) w.is_k (rw w.is_k at below)
          same (λ t' w'. finishes p k w.post t' (turn (poll now ports fuel) e) pos w')

    -- On a clock that advances between two readings, by at most 20 ms, both counting tasks of `efi_main`
    -- come to their end under the executor, next to a serial task whose loopback test ends within
    -- the fuel: after some number of turns the task is done with success.
    pub three_tasks_finish :
        (reads : ℕ) (device : D)
        → ((i : ℕ) → now (suc i) ≤ now i + 20 * 10 ^ 6)
        → loopback_test ports fuel new_for_com1 device ≢ none
        → let e =
            three_tasks now ports fuel (record { reads = reads; log = []; device = device }) in
          Finishes 1 e × Finishes 2 e
    three_tasks_finish reads device calm ends =
        let e = three_tasks now ports fuel (record { reads = reads; log = []; device = device }) in
        let one = task now ports fuel (counting 1 4 100) 73 in
        let two = task now ports fuel (counting 2 4 200) 81 in
        let last = task now ports fuel serial 88 in
        (
          finishes (suc (distance one.future 0)) 1 [] one e (omega arith)
              (record { post = two ∷ last ∷ []; queue = refl; is_k = refl; near = omega arith }),
          finishes (suc (distance two.future 0)) 2 (one ∷ []) two e (omega arith)
              (record { post = last ∷ []; queue = refl; is_k = refl; near = omega arith }),
        )
