-- ===== src/Main/Spacing.antt =====
-- The tasks of main.rs under the executor.
use wasabi_os.Common.{
  ℕ, zero, suc, ◌≤◌, ◌≡◌, ◌≢◌, ◌∙◌, sym, refl, List, [], ◌∷◌, ◌++◌, All, All-append, All-imp,
  All-zip, arith,
}
use wasabi_os.Executor.{ready, pending, Task, Executor, after_poll, turn, run}
use wasabi_os.Serial.{Ports}
use wasabi_os.Main.{Line, World, State, Answer, poll, three_tasks}
use wasabi_os.Main.Log.{Spaced, kind, Own, Fits, KeepsOthers, Polled}
use wasabi_os.Main.Step.{poll-Polled}

abbrev Differ : Task State → Task State → Type 0
Differ t u = kind u.future ≢ kind t.future

-- No two tasks of the queue are of one kind.
abbrev Distinct : List (Task State) → Type 0
Distinct [] = Unit
Distinct (t ∷ ts) = All (Differ t) ts × Distinct ts

Distinct-append :
    (ts : List (Task State)) (t : Task State)
    → All (Differ t) ts
    → Distinct ts
    → Distinct (ts ++ t ∷ [])
Distinct-append [] t h d = (tt, tt)
Distinct-append (u ∷ ts) t h d =
    (All-append (Differ u) ts (t ∷ []) d.0 (λ e. h.0 (sym e), tt), Distinct-append ts t h.1 d.1)

module _ {D : Type 0} (now : ℕ → ℕ) (ports : Ports D) (fuel : ℕ)
    (mono : (i : ℕ) → now i ≤ now (suc i)) where
  abbrev Machine : Type 0
  Machine = Executor (poll now ports fuel)

  abbrev Sound : List (Task State) → List Line → Type 0
  Sound queue log =
      Spaced log
      × All (λ t. Own t.future) queue
      × All (λ t. Fits log t.future) queue
      × Distinct queue

  others_fit :
      (t : Task State) (ts : List (Task State)) (log log' : List Line)
      → KeepsOthers t.future log log'
      → All (Differ t) ts
      → All (λ u. Fits log u.future) ts
      → All (λ u. Fits log' u.future) ts
  others_fit t ts log log' keeps differ fits =
      All-imp (λ u. Differ t u × Fits log u.future) (λ u. Fits log' u.future) ts
        (λ u both. keeps u.future both.0 both.1)
        (All-zip (Differ t) (λ u. Fits log u.future) ts differ fits)

  after-Sound :
      (t : Task State) (rest : List (Task State)) (w : World D) (completed : List (Task State × _))
      (a : Answer D)
      → Sound (t ∷ rest) w.log
      → Polled t.future w a
      → let e = after_poll (poll now ports fuel) t rest completed a in
        Sound e.task_queue e.world.log
  unfolding after_poll
  after-Sound t rest w completed (ready r, s', w') (spaced, own, fits, distinct) p =
      (p.0, own.1, others_fit t rest w.log w'.log p.1 distinct.0 fits.1, distinct.1)
  after-Sound t rest w completed (pending, s', w') (spaced, own, fits, distinct) p =
      let t' = record t { future = s' } in
      (
        p.0,
        All-append (λ u. Own u.future) rest (t' ∷ []) own.1 (p.3, tt),
        All-append (λ u. Fits w'.log u.future) rest (t' ∷ [])
            (others_fit t rest w.log w'.log p.1 distinct.0 fits.1) (p.4, tt),
        Distinct-append rest t'
            (All-imp (Differ t) (Differ t') rest (λ u d e. d (e ∙ p.2)) distinct.0) distinct.1,
      )

  turn-Sound :
      (q : List (Task State)) (e : Machine)
      → e.task_queue ≡ q
      → Sound e.task_queue e.world.log
      → let e' = turn (poll now ports fuel) e in Sound e'.task_queue e'.world.log
  unfolding turn
  turn-Sound [] e same sound = rw (turn, same) sound
  turn-Sound (t ∷ rest) e same sound =
      let sound' = rw same at sound in
      let p = poll-Polled now ports fuel mono t.future e.world sound'.1.0 sound'.2.0 sound'.0 in
      rw (turn, same)
        (after-Sound t rest e.world e.completed (poll now ports fuel t.future e.world) sound' p)

  run-Sound :
      (rounds : ℕ) (e : Machine)
      → Sound e.task_queue e.world.log
      → let e' = run (poll now ports fuel) rounds e in Sound e'.task_queue e'.world.log
  unfolding run
  run-Sound zero e sound = sound
  run-Sound (suc rounds) e sound =
      run-Sound rounds (turn (poll now ports fuel) e) (turn-Sound e.task_queue e refl sound)

  -- However the executor takes turns between the three tasks of `efi_main`, on a clock that does not run
  -- backwards: each counting task prints its numbers in ascending order and none of them twice, and
  -- always more than its pause, one or two seconds, after each of its earlier ones. The device at
  -- the serial port may do anything.
  pub three_tasks-Spaced :
      (rounds reads : ℕ) (device : D)
      → Spaced
          (run (poll now ports fuel) rounds (
            three_tasks now ports fuel
              (record { reads = reads; log = []; device = device }))).world.log
  three_tasks-Spaced rounds reads device =
      let e = three_tasks now ports fuel (record { reads = reads; log = []; device = device }) in
      let sound : Sound e.task_queue e.world.log = (
        tt,
        (
          (omega arith, omega arith, omega arith),
          ((omega arith, omega arith, omega arith), (tt, tt)),
        ),
        (tt, (tt, (tt, tt))),
        (
          (λ z. absurd (omega arith), (λ z. absurd (omega arith), tt)),
          ((λ z. absurd (omega arith), tt), (tt, tt)),
        ),
      ) in
      (run-Sound rounds e sound).0
