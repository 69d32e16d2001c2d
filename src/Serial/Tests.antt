-- ===== src/Serial/Tests.antt =====
-- A UART to run serial.rs on, and runs.
use wasabi_os.Common.{
  ℕ, suc, ◌+◌, ◌≤◌, ◌≡◌, ◌↔◌, refl, bit_and, Bool, not, true, false, Option, none, some, List, [],
  ◌∷◌, ◌++◌, Result, ok, arith, ◌==◌, if◌then◌else◌,
}
use wasabi_os.Serial.{Ports, new_for_com1, send_str, try_read, loopback_test}
use wasabi_os.Serial.Uart.{IsUart}
use wasabi_os.Serial.Send.{send_str_lem}
use wasabi_os.Serial.Loopback.{Ended, loopback_test-Ended}

-- The transmitter: with a byte to send, about to be empty, empty.
pub data Line : Type 0 where
  full draining free : Line

pub record Device : Type 0 where
  pub line : Line
  pub sent : List ℕ
  pub modem : ℕ
  pub received : Option ℕ

abbrev next_line : Line → Line
next_line full = draining
next_line draining = free
next_line free = free

abbrev ready_bit : Line → ℕ
ready_bit full = 0
ready_bit draining = 0x20
ready_bit free = 0x20

abbrev data_bit : Option ℕ → ℕ
data_bit none = 0
data_bit (some c) = 1

abbrev byte_of : Option ℕ → ℕ
byte_of none = 0
byte_of (some c) = c

abbrev looped : ℕ → ℕ → Option ℕ → Option ℕ
looped modem v received = if modem == 0x1e then some v else received

abbrev pub uart_ports : Ports Device
uart_ports = record {
  read_io_port_u8 = λ port d.
      if port == 0x3fd
      then (ready_bit d.line + data_bit d.received, record d { line = next_line d.line })
      else (byte_of d.received, record d { received = none });
  write_io_port_u8 = λ port v d.
      if port == 0x3f8
      then record d { line = full; sent = d.sent ++ v ∷ []; received = looped d.modem v d.received }
      else if port == 0x3fc
      then record d { modem = v }
      else d;
}

abbrev busy_of : Line → ℕ
busy_of full = 1
busy_of draining = 0
busy_of free = 0

abbrev is_free : Line → Bool
is_free full = false
is_free draining = false
is_free free = true

pub busy_of_bound : (l : Line) → busy_of l ≤ 1
busy_of_bound full = omega arith
busy_of_bound draining = omega arith
busy_of_bound free = omega arith

pub ready_line :
    (l : Line) (r : Option ℕ)
    → busy_of l ≡ 0
    → (bit_and (ready_bit l + data_bit r) 0x20 == 0) ≡ false
ready_line full r e = ground arith
ready_line draining none e = refl
ready_line draining (some c) e = refl
ready_line free none e = refl
ready_line free (some c) e = refl

pub wait_line : (l : Line) (n : ℕ) → busy_of l ≡ suc n → busy_of (next_line l) ≡ n
wait_line full n e = omega arith
wait_line draining n e = ground arith
wait_line free n e = ground arith

pub empty_line :
    (l : Line) (r : Option ℕ)
    → is_free (next_line l) ≡ not (bit_and (ready_bit l + data_bit r) 0x20 == 0)
empty_line full none = refl
empty_line full (some c) = refl
empty_line draining none = refl
empty_line draining (some c) = refl
empty_line free none = refl
empty_line free (some c) = refl

abbrev pub uart : IsUart uart_ports new_for_com1
uart = record {
  sent = λ d. d.sent;
  modem = λ d. d.modem;
  empty = λ d. is_free d.line;
  busy = λ d. busy_of d.line;
  patience = 1;
  busy_bound = λ d. busy_of_bound d.line;
  status_ready = λ d. ready_line d.line d.received;
  status_wait = λ d n. wait_line d.line n;
  status_empty = λ d. empty_line d.line d.received;
  status_sent = λ d. refl;
  status_modem = λ d. refl;
  data_modem = λ d. refl;
  send_sent = λ d v e. refl;
  send_modem = λ d v. refl;
  fifo_modem = λ d v. refl;
  control_modem = λ d v. refl;
}

abbrev pub device : Device
device = record { line = full; sent = 1 ∷ []; modem = 0x0f; received = none }

send_str_lem_example :
    (d' : Device) × (send_str uart_ports 3 new_for_com1 (72 ∷ 300 ∷ []) device ≡ some d')
    × (d'.sent ≡ 1 ∷ 72 ∷ 44 ∷ [])
    × (d'.modem ≡ 0x0f)
send_str_lem_example =
    send_str_lem uart_ports new_for_com1 uart 3 (72 ∷ 300 ∷ []) device (omega arith)

loopback_test-Ended_example :
    (r : Result (Unit {0}) × Device) × (d1 : Device) × (loopback_test uart_ports 3 new_for_com1
        device
      ≡ some r)
    × ((r.0 ≡ ok tt) ↔ ((try_read uart_ports new_for_com1 d1).0 ≡ some 84))
    × (d1.sent ≡ 1 ∷ 84 ∷ [])
    × Ended uart_ports new_for_com1 uart r
loopback_test-Ended_example =
    loopback_test-Ended uart_ports new_for_com1 uart 3 device (omega arith)
