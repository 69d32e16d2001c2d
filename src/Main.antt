-- ===== src/Main.antt =====
-- main.rs: the three tasks that `efi_main` gives to the executor, as the state machines that the async
-- blocks stand for. The clock is a parameter, read by number; what is printed is a log, the
-- newest line first.
pub mod Boot
pub mod Entry
pub mod Load
pub mod Log
pub mod Step
pub mod Progress
pub mod Finish
pub mod Spacing
mod BootTests
mod Tests
use wasabi_os.Common.{
  ℕ, zero, suc, ◌+◌, ◌*◌, ◌^◌, Bool, Option, none, some, List, [], ◌∷◌, String, Result, ok, err,
  ltb, if◌then◌else◌,
}
use wasabi_os.Executor.{Poll, ready, pending, Task, Executor, enqueue}
use wasabi_os.Serial.{Ports, new_for_com1, try_read, loopback_test}

-- The lines: a task's number with the time, and those of the serial task.
pub data Line : Type 0 where
  counted : ℕ → ℕ → Line
  failed : String → Line
  monitoring : Line
  input : ℕ → Line

pub record World (D : Type 0) : Type 0 where
  pub reads : ℕ
  pub log : List Line
  pub device : D

-- A counting task of k seconds that is to print i, with n numbers to go; the same asleep until its
-- deadline; the serial task before its start, and asleep.
pub data State : Type 0 where
  counting : ℕ → ℕ → ℕ → State
  sleeping : ℕ → ℕ → ℕ → ℕ → State
  serial : State
  serial_sleeping : ℕ → State

abbrev pub Answer : Type 0 → Type 0
Answer D = Poll (Result (Unit {0})) × State × World D

abbrev pub seconds : ℕ → ℕ
seconds k = k * 10 ^ 9

abbrev pub tick : {D : Type 0} → World D → World D
tick w = record w { reads = suc w.reads }

abbrev pub print : {D : Type 0} → Line → World D → World D
print line w = record w { log = line ∷ w.log }

module _ {D : Type 0} (now : ℕ → ℕ) (ports : Ports D) (fuel : ℕ) where
  -- The loop of a counting task up to the point where it sleeps: the time is read for the line, for the
  -- deadline, and when the timeout is polled for the first time.
  unfoldable pub count : ℕ → ℕ → ℕ → World D → Answer D
  count k zero i w = (ready (ok tt), counting k 0 i, w)
  count k (suc n) i w =
      let deadline : ℕ = now (suc w.reads) + seconds k in
      let asked : ℕ = now (suc (suc w.reads)) in
      let w' = tick (tick (tick (print (counted i (now w.reads)) w))) in
      let rest = count k n (suc i) w' in
      if ltb deadline asked then rest else (pending, sleeping k n (suc i) deadline, w')

  abbrev heard : Option ℕ × D → World D → World D
  heard (none, d) w = record w { device = d }
  heard (some v, d) w = print (input v) (record w { device = d })

  -- The loop of the serial task, for a number of rounds in which the timeout is over at once.
  unfoldable pub monitor : ℕ → ℕ → World D → Answer D
  monitor zero deadline w = (pending, serial_sleeping deadline, w)
  monitor (suc rounds) deadline w =
      let w1 = heard (try_read ports new_for_com1 w.device) w in
      let deadline' : ℕ = now w1.reads + 20 * 10 ^ 6 in
      let asked : ℕ = now (suc w1.reads) in
      let rest = monitor rounds deadline' (tick (tick w1)) in
      if ltb deadline' asked then rest else (pending, serial_sleeping deadline', tick (tick w1))

  -- A loopback test that does not end is polled again.
  abbrev started : Option (Result (Unit {0}) × D) → World D → Answer D
  started none w = (pending, serial, w)
  started (some (err e, d)) w = (
    ready (err "serial: loopback test failed"),
    serial,
    print (failed e) (record w { device = d }),
  )
  started (some (ok u, d)) w = monitor fuel 0 (print monitoring (record w { device = d }))

  unfoldable pub poll : State → World D → Answer D
  poll (counting k n i) w = count k n i w
  poll (sleeping k n i deadline) w =
      let rest = count k n i (tick w) in
      if ltb deadline (now w.reads) then rest else (pending, sleeping k n i deadline, tick w)
  poll serial w = started (loopback_test ports fuel new_for_com1 w.device) w
  poll (serial_sleeping deadline) w =
      let rest = monitor fuel deadline (tick w) in
      if ltb deadline (now w.reads) then rest else (pending, serial_sleeping deadline, tick w)

  abbrev pub task : State → ℕ → Task State
  task s line = record { future = s; created_at_file = "src/main.rs"; created_at_line = line }

  -- The executor at the end of `efi_main`.
  abbrev pub three_tasks : World D → Executor poll
  three_tasks w = enqueue poll (task serial 88) (
      enqueue poll (task (counting 2 4 200) 81) (
        enqueue poll (task (counting 1 4 100) 73)
          (record { task_queue = []; world = w; completed = [] })))
