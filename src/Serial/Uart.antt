-- ===== src/Serial/Uart.antt =====
-- The device behind serial.rs: what a UART is documented to do.
use wasabi_os.Common.{
  ℕ, suc, ◌+◌, ◌≤◌, ◌≡◌, bit_and, Bool, not, true, false, List, [], ◌∷◌, ◌++◌, ◌==◌,
}
use wasabi_os.Serial.{Ports, SerialPort}

-- What is seen of the device at a port: the bytes that it has sent, the modem control register,
-- whether the transmitter is empty, and for how many reads of its status it stays busy at most.
-- Bit 5 of the status says that the transmitter is empty, and only then a byte that is written is sure
-- to be sent.
pub record IsUart {D : Type 0} (ports : Ports D) (sp : SerialPort) : Type 0 where
  pub sent : D → List ℕ
  pub modem : D → ℕ
  pub empty : D → Bool
  pub busy : D → ℕ
  pub patience : ℕ
  pub busy_bound : (d : D) → busy d ≤ patience
  pub status_ready :
      (d : D) → busy d ≡ 0 → (bit_and (ports.read_io_port_u8 (sp.base + 5) d).0 0x20 == 0) ≡ false
  pub status_wait :
      (d : D) (n : ℕ) → busy d ≡ suc n → busy (ports.read_io_port_u8 (sp.base + 5) d).1 ≡ n
  pub status_empty :
      (d : D)
      → empty (ports.read_io_port_u8 (sp.base + 5) d).1
        ≡ not (bit_and (ports.read_io_port_u8 (sp.base + 5) d).0 0x20 == 0)
  pub status_sent : (d : D) → sent (ports.read_io_port_u8 (sp.base + 5) d).1 ≡ sent d
  pub status_modem : (d : D) → modem (ports.read_io_port_u8 (sp.base + 5) d).1 ≡ modem d
  pub data_modem : (d : D) → modem (ports.read_io_port_u8 sp.base d).1 ≡ modem d
  pub send_sent :
      (d : D) (v : ℕ)
      → empty d ≡ true
      → sent (ports.write_io_port_u8 sp.base v d) ≡ sent d ++ v ∷ []
  pub send_modem : (d : D) (v : ℕ) → modem (ports.write_io_port_u8 sp.base v d) ≡ modem d
  pub fifo_modem : (d : D) (v : ℕ) → modem (ports.write_io_port_u8 (sp.base + 2) v d) ≡ modem d
  pub control_modem : (d : D) (v : ℕ) → modem (ports.write_io_port_u8 (sp.base + 4) v d) ≡ v
