-- ===== src/Print/Tests.antt =====
-- Dumps and prints of print.rs at concrete inputs.
use wasabi_os.Common.{
  ℕ, ◌≡◌, refl, List, [], ◌∷◌, some, panic, none, done, arith, All, Bool, true, ltb, ◌&&◌, ◌<◌,
}
use wasabi_os.Graphics.{Bitmap}
use wasabi_os.Graphics.Painted.{Sized}
use wasabi_os.Graphics.Font.{newline, split}
use wasabi_os.Graphics.Text.{BitmapTextWriter}
use wasabi_os.Graphics.Text.Writer.{writer_at, Written}
use wasabi_os.Serial.Tests.{Device, device, uart_ports, uart}
use wasabi_os.Print.{Console, hexdump_bytes, global_print, set_global_vram}
use wasabi_os.Print.Chunks.{concat, Chunked}
use wasabi_os.Print.Lines.{dump, hexdump_bytes-dump}
use wasabi_os.Print.Global.{global_print_lem}

abbrev eighteen : List ℕ
eighteen =
    72 ∷ 101 ∷ 108 ∷ 108 ∷ 111 ∷ 44 ∷ 32 ∷ 87 ∷ 97 ∷ 115 ∷ 97 ∷ 98 ∷ 105 ∷ 0 ∷ 200 ∷ 0x7f ∷ 65
    ∷ 0x7f ∷ []

-- Each value is a byte.
abbrev bytes_only : List ℕ → Bool
bytes_only [] = true
bytes_only (b ∷ bs) = ltb b 256 && bytes_only bs

All-bytes_only : (bs : List ℕ) → bytes_only bs ≡ true → All (λ b. b < 256) bs
All-bytes_only [] h = tt
All-bytes_only (b ∷ bs) h =
    let rest : bytes_only bs ≡ true = ground arith in (ground arith, All-bytes_only bs rest)

hexdump_bytes-dump_example :
    (chunks : List (List ℕ)) × (hexdump_bytes eighteen ≡ done (dump 0 chunks))
    × (concat chunks ≡ eighteen)
    × Chunked chunks
hexdump_bytes-dump_example =
    hexdump_bytes-dump eighteen (omega arith) (All-bytes_only eighteen refl)

abbrev screen : Bitmap
screen = record {
  bytes_per_pixel = 4;
  pixels_per_line = 20;
  width = 16;
  height = 32;
  buf = λ at. 0;
}

screen-Sized : Sized 16 32 screen
screen-Sized = record { bytes = omega arith; wide = refl; high = refl }

global_print_lem_example :
    (c : Console Device) × (global_print uart_ports 3 []
        (72 ∷ 105 ∷ [])
        (record { device = device; writer = some (writer_at screen 0 0) })
      ≡ some c)
    × (c.device.sent ≡ 1 ∷ 72 ∷ 105 ∷ [])
    × (wr : BitmapTextWriter) × (c.writer ≡ some wr)
    × Written [] 16 32 (split newline (72 ∷ 105 ∷ [])) 0 0 screen wr
    × (set_global_vram screen c ≡ panic)
    × (set_global_vram screen (record { device = device; writer = none })
        ≡ done (record { device = device; writer = some (writer_at screen 0 0) }))
global_print_lem_example =
    global_print_lem uart_ports uart 3 [] (72 ∷ 105 ∷ []) 16 32 0 0 screen screen device
      (omega arith) screen-Sized
