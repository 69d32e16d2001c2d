-- ===== src/Serial/Loopback.antt =====
-- serial.rs: `try_read` and the loopback test.
use wasabi_os.Common.{
  ℕ, ◌+◌, ◌<◌, ◌≡◌, ◌↔◌, ◌∙◌, refl, inl, inr, bit_and, Bool-cases, Option, none, some, [], ◌∷◌,
  ◌++◌, Result, ok, err, ◌==◌, arith,
}
use wasabi_os.Serial.{Ports, SerialPort, try_read, judge, loopback_test}
use wasabi_os.Serial.Uart.{IsUart}
use wasabi_os.Serial.Send.{send_char_lem}

module _ {D : Type 0} (ports : Ports D) (sp : SerialPort) (uart : IsUart ports sp) where
  try_read_modem : (d : D) → uart.modem (try_read ports sp d).1 ≡ uart.modem d
  unfolding try_read
  try_read_modem d =
      let (status, d1) = ports.read_io_port_u8 (sp.base + 5) d in
      elim (Bool-cases (bit_and (ports.read_io_port_u8 (sp.base + 5) d).0 0x01 == 0)) [
        | inl nothing ↦ rw (try_read, nothing) (uart.status_modem d)
        | inr byte ↦
            rw (try_read, byte)
              (uart.fifo_modem (ports.read_io_port_u8 sp.base d1).1 0xC7
                ∙ uart.data_modem d1
                ∙ uart.status_modem d)
      ]

  -- How the test ends: with success the modem control register is back in the normal mode, with an
  -- error it still has the value that turns the loopback on.
  abbrev pub Ended : Result (Unit {0}) × D → Type 0
  Ended (ok u, d) = uart.modem d ≡ 0x0f
  Ended (err e, d) = uart.modem d ≡ 0x1e

  judge-Ended : (o : Option ℕ) (d : D) → uart.modem d ≡ 0x1e → Ended (judge ports sp (o, d))
  unfolding judge
  judge-Ended none d h = h
  judge-Ended (some c) d h = elim (Bool-cases (c == 84)) [
    | inl good ↦ rw good (uart.control_modem d 0x0f)
    | inr bad ↦ rw bad h
  ]

  judge_ok : (o : Option ℕ) (d : D) → ((judge ports sp (o, d)).0 ≡ ok tt) ↔ (o ≡ some 84)
  unfolding judge
  judge_ok none d = (λ h. grind arith, λ h. grind arith)
  judge_ok (some c) d = elim (Bool-cases (c == 84)) [
    | inl good ↦ (λ h. grind arith, λ h. rw good refl)
    | inr bad ↦ (λ h. let h' = rw (judge, bad) at h in grind arith, λ h. grind arith)
  ]

  -- The loopback test comes to an end on a device that empties its transmitter in time. It has sent one
  -- `T`, and succeeds exactly if that is what it reads. Only then the port is set back to
  -- the normal mode; after an error it stays in the loopback mode.
  pub loopback_test-Ended :
      (fuel : ℕ) (d : D)
      → uart.patience < fuel
      → (r : Result (Unit {0}) × D) × (d1 : D) × (loopback_test ports fuel sp d ≡ some r)
        × ((r.0 ≡ ok tt) ↔ ((try_read ports sp d1).0 ≡ some 84))
        × (uart.sent d1 ≡ uart.sent (ports.write_io_port_u8 (sp.base + 4) 0x1e d) ++ 84 ∷ [])
        × Ended r
  unfolding loopback_test
  loopback_test-Ended fuel d h =
      let d0 = ports.write_io_port_u8 (sp.base + 4) 0x1e d in
      let (d1, e, sent, modem) = send_char_lem ports sp uart fuel 84 d0 h in
      let mode = try_read_modem d1 ∙ modem ∙ uart.control_modem d 0x1e in
      (
        judge ports sp (try_read ports sp d1),
        d1,
        rw e refl,
        judge_ok (try_read ports sp d1).0 (try_read ports sp d1).1,
        sent,
        judge-Ended (try_read ports sp d1).0 (try_read ports sp d1).1 mode,
      )
