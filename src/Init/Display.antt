-- ===== src/Init/Display.antt =====
-- init.rs, `init_display`: the screen is cleared, and the test pattern is drawn.
use wasabi_os.Common.{
  ℕ, ◌^◌, ◌<◌, ◌≡◌, ◌∙◌, refl, ap, inl, inr, Bool, Bool-cases, true, false, ◌&&◌, List, Result, ok,
  err, Outcome, done, panic, ◌>>=◌, arith, leb, pos, ◌+ℤ◌, ◌-ℤ◌, abs,
}
use wasabi_os.Graphics.{Bitmap, is_in_x_range, is_in_y_range, fill_rect}
use wasabi_os.Graphics.Painted.{Painted}
use wasabi_os.Graphics.Rect.{in_rect, fill_rect-Painted, fill_rect_err}
use wasabi_os.Uefi.Exit.{EfiStatus, success}
use wasabi_os.Uefi.Protocols.{
  EfiGraphicsOutputProtocol, Protocols, checked_status, framebuffer, vram_of, init_vram,
  locate_graphic_protocol,
}
use wasabi_os.Graphics.Text.{expect_ok, draw_test_pattern}
use wasabi_os.Graphics.Text.Pattern.{big_enough, draw_test_pattern_lem}

unfoldable pub init_display : List ℕ → Bitmap → Outcome Bitmap
init_display source vram =
    expect_ok (fill_rect vram 0 (pos 0) (pos 0) (pos vram.width) (pos vram.height)) >>= λ vram'.
    draw_test_pattern source vram'

-- The screen is at least 129 by 256 pixels, and a line holds its width.
abbrev pub is_usable : Bitmap → Bool
is_usable b = leb 129 b.width && leb b.width b.pixels_per_line && leb 256 b.height

cleared :
    (b : Bitmap)
    → 0 < b.bytes_per_pixel
    → b.width < 2 ^ 32
    → b.height < 2 ^ 32
    → (leb 1 b.width && leb b.width b.pixels_per_line && leb 1 b.height) ≡ true
    → (b' : Bitmap) × (expect_ok (fill_rect b 0 (pos 0) (pos 0) (pos b.width) (pos b.height))
        ≡ done b')
      × Painted (in_rect 0 0 b.width b.height) 0 b b'
cleared b bytes wide high fits =
    let (b', e, p) =
      fill_rect-Painted b 0 0 0 b.width b.height bytes wide high (ground arith) (ground arith)
        (ground arith) (omega arith) in
    (b', ap expect_ok e, p)

not_cleared :
    (b : Bitmap)
    → b.width < 2 ^ 32
    → b.height < 2 ^ 32
    → (leb 1 b.width && leb b.width b.pixels_per_line && leb 1 b.height) ≡ false
    → fill_rect b 0 (pos 0) (pos 0) (pos b.width) (pos b.height) ≡ done (err "Out of Range")
unfolding is_in_x_range is_in_y_range abs ◌+ℤ◌ ◌-ℤ◌
not_cleared b wide high small =
    fill_rect_err b 0 (pos 0) (pos 0) (pos b.width) (pos b.height) wide high (omega arith)
      (omega arith) (ground arith)

-- The test pattern after a drawing that keeps the sizes.
pattern :
    {inside : ℕ → ℕ → Bool} (source : List ℕ) (b b' : Bitmap) (color : ℕ)
    → 0 < b.bytes_per_pixel
    → b.width < 2 ^ 32
    → b.height < 2 ^ 32
    → Painted inside color b b'
    → (big_enough b ≡ true → (b2 : Bitmap) × (draw_test_pattern source b' ≡ done b2))
      × (big_enough b ≡ false → draw_test_pattern source b' ≡ panic)
pattern source b b' color bytes wide high p =
    let same : big_enough b' ≡ big_enough b = rw (p.width, p.line, p.height) refl in
    let (drawn, refused) =
      draw_test_pattern_lem source b' (rw p.bytes bytes) (rw p.width wide) (rw p.height high) in
    (λ h. drawn (same ∙ h), λ h. refused (same ∙ h))

-- The display is initialised on a screen that is usable, and on any other screen the program ends.
pub init_display_lem :
    (source : List ℕ) (vram : Bitmap)
    → 0 < vram.bytes_per_pixel
    → vram.width < 2 ^ 32
    → vram.height < 2 ^ 32
    → (is_usable vram ≡ true → (vram' : Bitmap) × (init_display source vram ≡ done vram'))
      × (is_usable vram ≡ false → init_display source vram ≡ panic)
unfolding init_display
init_display_lem source vram bytes wide high = (
  λ usable.
      let (b1, e, p) = cleared vram bytes wide high (ground arith) in
      let (drawn, _) = pattern source vram b1 0 bytes wide high p in
      let (b', e') = drawn (ground arith) in (b', rw e e'),
  λ unusable.
      elim (Bool-cases
        (leb 1 vram.width && leb vram.width vram.pixels_per_line && leb 1 vram.height)) [
          | inr out ↦ rw (not_cleared vram wide high out) refl
          | inl inside ↦
              let (b1, e, p) = cleared vram bytes wide high inside in
              let (_, refused) = pattern source vram b1 0 bytes wide high p in
              rw e (refused (ground arith))
        ],
)

-- What `efi_main` does for the screen: the frame buffer that the firmware names is initialised.
abbrev expect_vram : Result Bitmap → Outcome Bitmap
expect_vram (ok vram) = done vram
expect_vram (err e) = panic

unfoldable pub boot_display : List ℕ → (ℕ → ℕ) → Protocols → Outcome Bitmap
boot_display source memory services =
    expect_vram (init_vram memory services) >>= λ vram. init_display source vram

-- The mode that the firmware's answer leads to can be used.
abbrev pub has_display : EfiGraphicsOutputProtocol → Bool
has_display gp =
    let info = gp.mode.info in
    leb 129 info.horizontal_resolution
    && leb info.horizontal_resolution info.pixels_per_scan_line
    && leb 256 info.vertival_resolution

by_answer :
    (source : List ℕ) (memory : ℕ → ℕ) (answer : EfiStatus × EfiGraphicsOutputProtocol)
    → answer.1.mode.info.horizontal_resolution < 2 ^ 32
    → answer.1.mode.info.vertival_resolution < 2 ^ 32
    → let boot =
        expect_vram (vram_of memory (checked_status answer)) >>= λ vram. init_display source vram in
      (has_display answer.1 ≡ true → (vram : Bitmap) × (boot ≡ done vram))
      × (has_display answer.1 ≡ false → boot ≡ panic)
by_answer source memory (success, gp) wide high =
    init_display_lem source (framebuffer memory gp) (omega arith) wide high

-- The boot passes the display if the firmware's answer for the graphics output protocol leads to a mode of
-- at least 129 by 256 pixels whose lines hold its width, and ends there if it leads to another mode.
-- The resolutions are `u32`.
pub boot_display_lem :
    (source : List ℕ) (memory : ℕ → ℕ) (services : Protocols)
    → services.locate_protocol.1.mode.info.horizontal_resolution < 2 ^ 32
    → services.locate_protocol.1.mode.info.vertival_resolution < 2 ^ 32
    → (has_display services.locate_protocol.1 ≡ true
        → (vram : Bitmap) × (boot_display source memory services ≡ done vram))
      × (has_display services.locate_protocol.1 ≡ false
          → boot_display source memory services ≡ panic)
unfolding boot_display init_vram locate_graphic_protocol
boot_display_lem source memory services wide high =
    by_answer source memory services.locate_protocol wide high

-- The program goes on.
abbrev pub is_done : Outcome Bitmap → Bool
is_done panic = false
is_done (done vram) = true

-- The boot passes the display exactly if the mode that the firmware's answer for the graphics output
-- protocol leads to has at least 129 by 256 pixels and lines that hold its width; with another mode
-- the program ends. The resolutions are `u32`.
pub boot_display-is_done :
    (source : List ℕ) (memory : ℕ → ℕ) (services : Protocols)
    → services.locate_protocol.1.mode.info.horizontal_resolution < 2 ^ 32
    → services.locate_protocol.1.mode.info.vertival_resolution < 2 ^ 32
    → is_done (boot_display source memory services) ≡ has_display services.locate_protocol.1
boot_display-is_done source memory services wide high =
    let (drawn, refused) = boot_display_lem source memory services wide high in
    elim (Bool-cases (has_display services.locate_protocol.1)) [
      | inl usable ↦ let (vram, e) = drawn usable in rw (e, usable) refl
      | inr unusable ↦ rw (refused unusable, unusable) refl
    ]
