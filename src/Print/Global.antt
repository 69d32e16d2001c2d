-- ===== src/Print/Global.antt =====
-- `global_print` of print.rs: the same text on the serial port and on the screen.
use wasabi_os.Common.{ℕ, ◌%◌, ◌<◌, ◌≡◌, refl, List, ◌++◌, map, some, none, done, panic}
use wasabi_os.Graphics.{Bitmap}
use wasabi_os.Graphics.Painted.{Sized}
use wasabi_os.Graphics.Font.{newline, split}
use wasabi_os.Graphics.Text.{BitmapTextWriter, write_str as write_text}
use wasabi_os.Graphics.Text.Writer.{writer_at, Written, write_str-Written}
use wasabi_os.Serial.{Ports, new_for_com1, write_str as send_text}
use wasabi_os.Serial.Uart.{IsUart}
use wasabi_os.Serial.Send.{send_str_lem}
use wasabi_os.Print.{Console, set_global_vram, global_print}

-- With a screen set, what is printed is sent whole to COM1 and drawn on the screen from the cursor on, if
-- the wait for the device has enough rounds. `set_global_vram` sets a screen with the cursor at the left
-- upper corner if there is none, and ends the program if there is one.
pub global_print_lem :
    {D : Type 0} (ports : Ports D) (uart : IsUart ports new_for_com1) (fuel : ℕ) (source s : List ℕ)
    (w h k r : ℕ) (vram b : Bitmap) (d : D)
    → uart.patience < fuel
    → Sized w h b
    → (c : Console D) × (global_print ports fuel source s
          (record { device = d; writer = some (writer_at b k r) })
        ≡ some c)
      × (uart.sent c.device ≡ uart.sent d ++ map (λ ch. ch % 256) s)
      × (wr : BitmapTextWriter) × (c.writer ≡ some wr)
      × Written source w h (split newline s) k r b wr
      × (set_global_vram vram c ≡ panic)
      × (set_global_vram vram (record { device = d; writer = none })
          ≡ done (record { device = d; writer = some (writer_at vram 0 0) }))
unfolding global_print set_global_vram send_text
global_print_lem ports uart fuel source s w h k r vram b d patient sized =
    let (d', e, sent, _) = send_str_lem ports new_for_com1 uart fuel s d patient in
    let wr = write_text source s (writer_at b k r) in
    (
      record { device = d'; writer = some wr },
      rw e refl,
      sent,
      wr,
      refl,
      write_str-Written source w h s k r b sized,
      refl,
      refl,
    )
