-- ===== src/Main/Tests.antt =====
-- The tasks of main.rs on a clock that advances 300 ms with each reading.
use wasabi_os.Common.{ℕ, suc, ◌*◌, ◌^◌, ◌≤◌, ◌<◌, ◌+◌, ◌≢◌, ◌≡◌, ◌∙◌, sym, none, some, [], arith}
use wasabi_os.Executor.{run}
use wasabi_os.Serial.{loopback_test, new_for_com1}
use wasabi_os.Serial.Loopback.{loopback_test-Ended}
use wasabi_os.Serial.Tests.{uart, device, uart_ports}
use wasabi_os.Main.{poll, three_tasks}
use wasabi_os.Main.Log.{Spaced}
use wasabi_os.Main.Finish.{Finishes, three_tasks_finish}
use wasabi_os.Main.Spacing.{three_tasks-Spaced}

abbrev clock : ℕ → ℕ
clock i = i * (3 * 10 ^ 8)

clock_mono : (i : ℕ) → clock i ≤ clock (suc i)
clock_mono i = omega arith

three_tasks-Spaced_example :
    Spaced
      (run (poll clock uart_ports 3) 20 (
        three_tasks clock uart_ports 3 (record { reads = 0; log = []; device = device }))).world.log
three_tasks-Spaced_example = three_tasks-Spaced clock uart_ports 3 clock_mono 20 0 device

-- A clock that advances 1 ms with each reading.
abbrev fine_clock : ℕ → ℕ
fine_clock i = i * 10 ^ 6

fine_clock_grows : (i : ℕ) → fine_clock i < fine_clock (suc i)
fine_clock_grows i = omega arith

fine_clock_calm : (i : ℕ) → fine_clock (suc i) ≤ fine_clock i + 20 * 10 ^ 6
fine_clock_calm i = omega arith

loopback_test_ends : loopback_test uart_ports 3 new_for_com1 device ≢ none
loopback_test_ends e =
    let (r, _, run, _, _, _) =
      loopback_test-Ended uart_ports new_for_com1 uart 3 device (omega arith) in
    let bad : none ≡ some r = sym e ∙ run in absurd cc

three_tasks_finish_example :
    let e = three_tasks fine_clock uart_ports 3 (record { reads = 0; log = []; device = device }) in
    Finishes fine_clock uart_ports 3 1 e × Finishes fine_clock uart_ports 3 2 e
three_tasks_finish_example =
    three_tasks_finish fine_clock uart_ports 3 fine_clock_grows 0 device fine_clock_calm
      loopback_test_ends
