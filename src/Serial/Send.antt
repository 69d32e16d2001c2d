-- ===== src/Serial/Send.antt =====
-- serial.rs: what is sent arrives, whole and in order.
use wasabi_os.Common.{
  ℕ, zero, suc, ◌+◌, ◌%◌, ◌<◌, ◌≡◌, ◌∙◌, sym, refl, ap, inl, inr, bit_and, Bool-cases, not, true,
  some, List, [], ◌∷◌, ◌++◌, map, ◌==◌, arith,
}
use mathlib.Core.List.{append_assoc, append-nil}
use wasabi_os.Serial.{Ports, SerialPort, wait, send_char, send_str}
use wasabi_os.Serial.Uart.{IsUart}

module _ {D : Type 0} (ports : Ports D) (sp : SerialPort) (uart : IsUart ports sp) where
  abbrev status_of : D → ℕ × D
  status_of d = ports.read_io_port_u8 (sp.base + 5) d

  -- After a status that says busy there are fewer such to come.
  less_busy :
      (fuel n : ℕ) (d : D)
      → uart.busy d ≡ n
      → (bit_and (status_of d).0 0x20 == 0) ≡ true
      → uart.busy d < suc fuel
      → uart.busy (status_of d).1 < fuel
  less_busy fuel zero d e busy h = let ready = uart.status_ready d e in cc
  less_busy fuel (suc n) d e busy h = omega (arith, uart.status_wait d n e)

  -- The loop ends with an empty transmitter, and has only read the status.
  pub wait_lem :
      (fuel : ℕ) (d : D)
      → uart.busy d < fuel
      → (d' : D) × (wait ports fuel sp d ≡ some d')
        × (uart.empty d' ≡ true)
        × (uart.sent d' ≡ uart.sent d)
        × (uart.modem d' ≡ uart.modem d)
  unfolding wait
  wait_lem zero d h = ground arith
  wait_lem (suc fuel) d h =
      let d1 = (status_of d).1 in
      elim (Bool-cases (bit_and (status_of d).0 0x20 == 0)) [
        | inr ready ↦ (
          d1,
          rw (wait, ready) refl,
          uart.status_empty d ∙ ap not ready,
          uart.status_sent d,
          uart.status_modem d,
        )
        | inl busy ↦
            let (d', e, empty, sent, modem) =
              wait_lem fuel d1 (less_busy fuel (uart.busy d) d refl busy h) in
            (d', rw (wait, busy) e, empty, sent ∙ uart.status_sent d, modem ∙ uart.status_modem d)
      ]

  pub send_char_lem :
      (fuel c : ℕ) (d : D)
      → uart.patience < fuel
      → (d' : D) × (send_char ports fuel sp c d ≡ some d')
        × (uart.sent d' ≡ uart.sent d ++ c % 256 ∷ [])
        × (uart.modem d' ≡ uart.modem d)
  unfolding send_char
  send_char_lem fuel c d h =
      let (d1, e, empty, sent, modem) = wait_lem fuel d (omega (arith, uart.busy_bound d)) in
      (
        ports.write_io_port_u8 sp.base (c % 256) d1,
        rw e refl,
        uart.send_sent d1 (c % 256) empty ∙ ap (λ l. l ++ c % 256 ∷ []) sent,
        uart.send_modem d1 (c % 256) ∙ modem,
      )

  -- On a device that empties its transmitter in time, `send_str` ends, and what the device has sent are the
  -- low bytes of the characters, all of them and in order, after what it had sent before.
  pub send_str_lem :
      (fuel : ℕ) (s : List ℕ) (d : D)
      → uart.patience < fuel
      → (d' : D) × (send_str ports fuel sp s d ≡ some d')
        × (uart.sent d' ≡ uart.sent d ++ map (λ c. c % 256) s)
        × (uart.modem d' ≡ uart.modem d)
  unfolding send_str
  send_str_lem fuel [] d h = (d, refl, sym (append-nil (uart.sent d)), refl)
  send_str_lem fuel (c ∷ cs) d h =
      let (d1, e1, sent1, modem1) = send_char_lem fuel c d h in
      let (d', e, sent, modem) = send_str_lem fuel cs d1 h in
      (
        d',
        rw e1 e,
        sent
            ∙ ap (λ l. l ++ map (λ c. c % 256) cs) sent1
            ∙ append_assoc (uart.sent d) (c % 256 ∷ []) (map (λ c. c % 256) cs),
        modem ∙ modem1,
      )
