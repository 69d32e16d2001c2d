-- ===== src/Serial.antt =====
-- serial.rs: the serial port. The device behind the input and output ports is a parameter: what a read
-- gives and what reads and writes do to it. Port numbers of COM1 do not overflow, and are plain sums.
pub mod Uart
pub mod Send
pub mod Loopback
pub mod Tests
use wasabi_os.Common.{
  ℕ, zero, suc, ◌+◌, ◌*◌, ◌%◌, ◌/◌, ◌^◌, bit_and, Bool, Option, none, some, List, [], ◌∷◌, Result,
  ok, err, ◌==◌, if◌then◌else◌,
}

-- `read_io_port_u8` and `write_io_port_u8` on a device with the state D.
pub record Ports (D : Type 0) : Type 0 where
  pub read_io_port_u8 : ℕ → D → ℕ × D
  pub write_io_port_u8 : ℕ → ℕ → D → D

pub record SerialPort : Type 0 where
  pub base : ℕ

abbrev pub new_for_com1 : SerialPort
new_for_com1 = record { base = 0x3f8 }

module _ {D : Type 0} (ports : Ports D) where
  abbrev out : ℕ → ℕ → D → D
  out port value d = ports.write_io_port_u8 port value d

  unfoldable pub init : SerialPort → D → D
  init sp d =
      let d1 = out (sp.base + 1) 0x00 d in
      let d2 = out (sp.base + 3) 0x80 d1 in
      let d3 = out sp.base (bit_and 0x0001 0xff) d2 in
      let d4 = out (sp.base + 1) (0x0001 / 2 ^ 8) d3 in
      let d5 = out (sp.base + 3) 0x03 d4 in
      let d6 = out (sp.base + 2) 0xC7 d5 in out (sp.base + 4) 0x0B d6

  -- The loop that waits for the transmitter, for a number of rounds; with none left it still waits.
  unfoldable pub wait : ℕ → SerialPort → D → Option D
  wait zero sp d = none
  wait (suc fuel) sp d =
      let (status, d') = ports.read_io_port_u8 (sp.base + 5) d in
      let again = wait fuel sp d' in if bit_and status 0x20 == 0 then again else some d'

  abbrev after : Option D → (D → Option D) → Option D
  after none k = none
  after (some d) k = k d

  -- `c as u8` keeps the low byte of the character.
  unfoldable pub send_char : ℕ → SerialPort → ℕ → D → Option D
  send_char fuel sp c d = after (wait fuel sp d) (λ d'. some (out sp.base (c % 256) d'))

  unfoldable pub send_str : ℕ → SerialPort → List ℕ → D → Option D
  send_str fuel sp [] d = some d
  send_str fuel sp (c ∷ cs) d = after (send_char fuel sp c d) (λ d'. send_str fuel sp cs d')

  unfoldable pub try_read : SerialPort → D → Option ℕ × D
  try_read sp d =
      let (status, d1) = ports.read_io_port_u8 (sp.base + 5) d in
      if bit_and status 0x01 == 0
      then (none, d1)
      else (let (c, d2) = ports.read_io_port_u8 sp.base d1 in (some c, out (sp.base + 2) 0xC7 d2))

  -- The answer of the device to the letter `T`, and what `loopback_test` makes of it.
  unfoldable pub judge : SerialPort → Option ℕ × D → Result (Unit {0}) × D
  judge sp (none, d) = (err "loopback_test failed: No response", d)
  judge sp (some c, d) =
      if c == 84
      then (ok tt, out (sp.base + 4) 0x0f d)
      else (err "loopback_test failed: wrong data received", d)

  abbrev answer : SerialPort → Option D → Option (Result (Unit {0}) × D)
  answer sp none = none
  answer sp (some d) = some (judge sp (try_read sp d))

  unfoldable pub loopback_test : ℕ → SerialPort → D → Option (Result (Unit {0}) × D)
  loopback_test fuel sp d = answer sp (send_char fuel sp 84 (out (sp.base + 4) 0x1e d))

  -- `fmt::Write::write_str` sends to the default port, whatever the port is.
  unfoldable pub write_str : ℕ → SerialPort → List ℕ → D → Option D
  write_str fuel sp s d = send_str fuel new_for_com1 s d
