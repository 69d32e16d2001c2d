-- ===== src/Uefi/Protocols.antt =====
-- uefi.rs: the protocols that the boot services locate. The firmware's answers are parameters: the
-- status of a call, and what stands where the pointer that it writes leads to.
use wasabi_os.Common.{ℕ, ◌+◌, Result, ok, err, not, if◌then◌else◌}
use wasabi_os.Uefi.Exit.{EfiStatus, success, same_status}
use wasabi_os.Graphics.{Bitmap}

pub record EfiGraphicsOutputProtocolPixelInfo : Type 0 where
  pub version : ℕ
  pub horizontal_resolution : ℕ
  pub vertival_resolution : ℕ
  pub pixels_per_scan_line : ℕ

pub record EfiGraphicsOutputProtocolMode : Type 0 where
  pub mux_mode : ℕ
  pub mode : ℕ
  pub info : EfiGraphicsOutputProtocolPixelInfo
  pub size_of_info : ℕ
  pub frame_buffer_base : ℕ
  pub frame_buffer_size : ℕ

pub record EfiGraphicsOutputProtocol : Type 0 where
  pub mode : EfiGraphicsOutputProtocolMode

pub record EfiLoadedImageProtocol : Type 0 where
  pub image_base : ℕ
  pub image_size : ℕ

-- The two services, asked for the graphics output protocol and for the protocol of a loaded image.
pub record Protocols : Type 0 where
  pub locate_protocol : EfiStatus × EfiGraphicsOutputProtocol
  pub handle_protocol : ℕ → EfiStatus × EfiLoadedImageProtocol

abbrev pub checked_status : {P : Type 0} → EfiStatus × P → Result P
checked_status (status, p) =
    if not (same_status status success)
    then err "Failed to locate graphics output protocol"
    else ok p

unfoldable pub locate_graphic_protocol : Protocols → Result EfiGraphicsOutputProtocol
locate_graphic_protocol services = checked_status services.locate_protocol

unfoldable pub locate_loaded_image_protocol : Protocols → ℕ → Result EfiLoadedImageProtocol
locate_loaded_image_protocol services image_handle =
    checked_status (services.handle_protocol image_handle)

-- `VramBufferInfo`, the frame buffer at an address of the memory; `memory` gives the `u32` there.
abbrev pub framebuffer : (ℕ → ℕ) → EfiGraphicsOutputProtocol → Bitmap
framebuffer memory gp = record {
  bytes_per_pixel = 4;
  pixels_per_line = gp.mode.info.pixels_per_scan_line;
  width = gp.mode.info.horizontal_resolution;
  height = gp.mode.info.vertival_resolution;
  buf = λ at. memory (gp.mode.frame_buffer_base + at);
}

abbrev pub vram_of : (ℕ → ℕ) → Result EfiGraphicsOutputProtocol → Result Bitmap
vram_of memory (err e) = err e
vram_of memory (ok gp) = ok (framebuffer memory gp)

unfoldable pub init_vram : (ℕ → ℕ) → Protocols → Result Bitmap
init_vram memory services = vram_of memory (locate_graphic_protocol services)
