-- ===== src/Print.antt =====
-- print.rs: printing to the serial port and the screen, and the hexadecimal dump. Text is a list of
-- code points, formatted already. The lock around the global writer is that of mutex.rs.
pub mod Global
pub mod Chunks
pub mod Dump
pub mod Hex
pub mod Lines
mod Tests
use wasabi_os.Common.{
  ℕ, zero, suc, ◌+◌, ◌-◌, ◌*◌, ◌/◌, ◌%◌, ◌&&◌, Bool, Option, none, some, List, [], ◌∷◌, ◌++◌, map,
  leb, ltb, ◌==◌, if◌then◌else◌, Outcome, done, panic, ◌>>=◌, ◌^◌, length, take,
}
use wasabi_os.Graphics.{Bitmap}
use wasabi_os.Graphics.Text.{BitmapTextWriter, new as new_writer, write_str as write_text}
use wasabi_os.Serial.{Ports, new_for_com1, write_str as send_text}

-- The device of the serial port, and `GLOBAL_VRAM_WRITTER`.
pub record Console (D : Type 0) : Type 0 where
  pub device : D
  pub writer : Option BitmapTextWriter

-- The assertion fails if there is a writer.
abbrev no_writer : Option BitmapTextWriter → BitmapTextWriter → Outcome BitmapTextWriter
no_writer none w = done w
no_writer (some old) w = panic

abbrev with_writer : {D : Type 0} → Console D → Outcome BitmapTextWriter → Outcome (Console D)
with_writer c (done w) = done (record c { writer = some w })
with_writer c panic = panic

unfoldable pub set_global_vram : {D : Type 0} → Bitmap → Console D → Outcome (Console D)
set_global_vram vram c = with_writer c (no_writer c.writer (new_writer vram))

abbrev write_global : List ℕ → List ℕ → Option BitmapTextWriter → Option BitmapTextWriter
write_global source s none = none
write_global source s (some w) = some (write_text source s w)

abbrev sent_then : {D : Type 0} → Option D → Option BitmapTextWriter → Option (Console D)
sent_then none w = none
sent_then (some d) w = some (record { device = d; writer = w })

-- `global_print` with rounds to wait for the serial port.
unfoldable pub global_print :
    {D : Type 0} → Ports D → ℕ → List ℕ → List ℕ → Console D → Option (Console D)
global_print ports fuel source s c =
    sent_then (send_text ports fuel new_for_com1 s c.device) (write_global source s c.writer)

-- The formats `{:02X}` and `{:08X}`: capital digits, and zeros in front up to a width. A `usize` has at
-- most sixteen digits.
abbrev pub hex_digit : ℕ → ℕ
hex_digit d = if ltb d 10 then 48 + d else 55 + d

abbrev pub hex_digits : ℕ → ℕ → List ℕ → List ℕ
hex_digits zero n acc = acc
hex_digits (suc fuel) n acc =
    let more = hex_digits fuel (n / 16) (hex_digit (n % 16) ∷ acc) in
    if ltb n 16 then hex_digit n ∷ acc else more

abbrev pub repeat : ℕ → ℕ → List ℕ
repeat zero c = []
repeat (suc n) c = c ∷ repeat n c

unfoldable pub hex : ℕ → ℕ → List ℕ
hex width n = let text = hex_digits 16 n [] in repeat (width - length text) 48 ++ text

-- The characters of a dump: a full line shows 0x20 to 0x7e, the last line 0x7f as well.
abbrev pub shown : ℕ → ℕ → ℕ
shown last c = if leb 0x20 c && leb c last then c else 46

abbrev pub set_elem : ℕ → ℕ → List ℕ → List ℕ
set_elem i v [] = []
set_elem zero v (x ∷ xs) = v ∷ xs
set_elem (suc i) v (x ∷ xs) = x ∷ set_elem i v xs

-- `|`, the characters, `|` and the end of the line.
abbrev pub columns : ℕ → List ℕ → List ℕ
columns last cs = 124 ∷ map (shown last) cs ++ 124 ∷ 10 ∷ []

abbrev pub offset_text : ℕ → List ℕ
offset_text offset = hex 8 offset ++ 58 ∷ 32 ∷ []

abbrev pub byte_text : ℕ → List ℕ
byte_text v = hex 2 v ++ 32 ∷ []

-- After the loop: the rest of a line that has been begun, with four spaces for each byte missing.
abbrev pub finish : ℕ → List ℕ → List ℕ
finish i ascii = if i == 0 then [] else repeat (4 * (16 - i)) 32 ++ columns 0x7f (take i ascii)

-- `offset += 16`: the offset has no suffix, so it is an `i32`.
abbrev pub next_offset : ℕ → Outcome ℕ
next_offset offset = if ltb (offset + 16) (2 ^ 31) then done (offset + 16) else panic

-- The loop of `hexdump_bytes` with its three variables; the text that it prints from there on.
unfoldable pub dump_loop : List ℕ → ℕ → List ℕ → ℕ → Outcome (List ℕ)
dump_loop [] i ascii offset = done (finish i ascii)
dump_loop (v ∷ vs) i ascii offset =
    let full = i + 1 == 16 in
    let ascii' = set_elem i v ascii in
    (if full then next_offset offset else done offset) >>= λ offset'.
    dump_loop vs (if full then 0 else i + 1) ascii' offset' >>= λ rest. done (
      (if i == 0 then offset_text offset else [])
      ++ byte_text v
      ++ (if full then columns 0x7e ascii' else [])
      ++ rest)

unfoldable pub hexdump_bytes : List ℕ → Outcome (List ℕ)
hexdump_bytes bytes = dump_loop bytes 0 (repeat 16 0) 0
