-- ===== src/Video.antt =====
-- The frame buffer's set-up: PainScreen of HtcLeoPkg/PrePi/PrePi.c and
-- HtcLeoPkg/Drivers/SimpleFbDxe/SimpleFbDxe.c. Memory is a function from addresses to bytes; the
-- library for blits and the installation of the protocols are not modelled, the cache is not either.
pub mod Cleared
use lgoptimus_l3pkg.Common.{
  ℕ, zero, suc, ◌+◌, ◌-◌, ◌*◌, ◌/◌, ◌%◌, ◌^◌, Bool, true, false, ◌||◌, Option, none, some, ◌==◌,
  if◌then◌else◌,
}
use lgoptimus_l3pkg.Keypad.Key.{Status, success, device_error, invalid_parameter, out_of_resources}

abbrev pub Bytes : Type 0
Bytes = ℕ → ℕ

-- n bytes from ptr on are set to 0.
unfoldable pub zero_bytes : ℕ → ℕ → Bytes → Bytes
zero_bytes zero ptr mem = mem
zero_bytes (suc n) ptr mem = zero_bytes n (ptr + 1) (λ a. if a == ptr then 0 else mem a)

-- The colour is not used.
unfoldable pub pain_screen : ℕ → Bytes → Bytes
pain_screen colour mem = zero_bytes (0x02ABBB00 - 0x02A00000) 0x02A00000 mem

-- PcdMipiFrameBufferAddress, -Width and -Height of HtcLeoPkg/HtcLeoPkg.dec.
abbrev pub pcd_mipi_frame_buffer_address : ℕ
pcd_mipi_frame_buffer_address = 0x02A00000

abbrev pub pcd_mipi_frame_buffer_width : ℕ
pcd_mipi_frame_buffer_width = 240

abbrev pub pcd_mipi_frame_buffer_height : ℕ
pcd_mipi_frame_buffer_height = 320

-- MipiFrameBufferWidth * VNBYTES(VIDEO_BPP16), a macro without parentheses around it: the product with
-- 1 << 4, a UINT32, comes before the division.
abbrev pub times_bytes : ℕ → ℕ
times_bytes n = n * 2 ^ 4 % 2 ^ 32 / 8

pub data PixelFormat : Type 0 where
  red_green_blue_reserved_8_bit_per_color : PixelFormat

-- EFI_GRAPHICS_OUTPUT_MODE_INFORMATION.
pub record Information : Type 0 where
  pub version : ℕ
  pub horizontal_resolution : ℕ
  pub vertical_resolution : ℕ
  pub pixel_format : PixelFormat
  pub pixels_per_scan_line : ℕ

-- EFI_GRAPHICS_OUTPUT_PROTOCOL_MODE.
pub record Mode : Type 0 where
  pub max_mode : ℕ
  pub mode : ℕ
  pub info : Information
  pub size_of_info : ℕ
  pub frame_buffer_base : ℕ
  pub frame_buffer_size : ℕ

-- What SimpleFbDxeInitialize sets in mDisplay.Mode: 32-bit products. `info_size` is the size of
-- EFI_GRAPHICS_OUTPUT_MODE_INFORMATION.
abbrev pub mode_of : ℕ → ℕ → ℕ → ℕ → Mode
mode_of info_size address width height = record {
  max_mode = 1;
  mode = 0;
  info = record {
    version = 0;
    horizontal_resolution = width;
    vertical_resolution = height;
    pixel_format = red_green_blue_reserved_8_bit_per_color;
    pixels_per_scan_line = width;
  };
  size_of_info = info_size;
  frame_buffer_base = address;
  frame_buffer_size = times_bytes width % 2 ^ 32 * height % 2 ^ 32;
}

-- `allocated` is whether both calls of AllocatePool succeed. The result has the mode that is set up.
unfoldable pub simple_fb_initialize : ℕ → ℕ → ℕ → ℕ → Bool → Bytes → Status × Option Mode × Bytes
simple_fb_initialize info_size address width height allocated mem =
    if (address == 0 || width == 0) || height == 0
    then (device_error, none, mem)
    else if allocated
    then (
      success,
      some (mode_of info_size address width height),
      zero_bytes (mode_of info_size address width height).frame_buffer_size address mem,
    )
    else (out_of_resources, none, mem)

-- AllocatePool is taken to succeed; the fields are copied one by one, and the size stands beside them.
unfoldable pub display_query_mode : ℕ → Mode → ℕ → Status × ℕ × Information
display_query_mode info_size m mode_number = (
  success,
  info_size,
  record {
    version = m.info.version;
    horizontal_resolution = m.info.horizontal_resolution;
    vertical_resolution = m.info.vertical_resolution;
    pixel_format = m.info.pixel_format;
    pixels_per_scan_line = m.info.pixels_per_scan_line;
  },
)

unfoldable pub display_set_mode : ℕ → Status
display_set_mode mode_number = success

-- `blt` is FrameBufferBlt on its arguments: whether it succeeds, and the memory.
unfoldable pub display_blt : (Bytes → Bool × Bytes) → Bytes → Status × Bytes
display_blt blt mem = let (ok, mem') = blt mem in (if ok then success else invalid_parameter, mem')
