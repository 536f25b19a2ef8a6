-- ===== src/Video/Cleared.antt =====
-- What the set-up of the frame buffer (HtcLeoPkg/PrePi/PrePi.c, HtcLeoPkg/Drivers/SimpleFbDxe) clears.
use native.Mathlib.Nat.{mod-eq_of_lt}
use lgoptimus_l3pkg.Common.{
  ℕ, zero, suc, ◌+◌, ◌*◌, ◌%◌, ◌^◌, ◌<◌, ◌≤◌, ◌≡◌, refl, ap, ◌∙◌, Bool, true, false, not, ◌&&◌,
  ◌||◌, some, arith, ltb, leb, ◌==◌, if◌then◌else◌,
}
use lgoptimus_l3pkg.Keypad.Key.{success}
use lgoptimus_l3pkg.Memory.Map.{device_memory_descriptor_ex}
use lgoptimus_l3pkg.Memory.Peim.{regions}
use lgoptimus_l3pkg.Memory.Regions.{region_at}
use lgoptimus_l3pkg.Video.{
  Bytes, zero_bytes, pain_screen, mode_of, simple_fb_initialize, times_bytes,
}

-- Whether a is one of the n addresses from ptr on.
abbrev pub among : ℕ → ℕ → ℕ → Bool
among n ptr a = leb ptr a && ltb a (ptr + n)

zero_bytes_lem :
    (n ptr : ℕ) (mem : Bytes) (a : ℕ)
    → zero_bytes n ptr mem a ≡ (if among n ptr a then 0 else mem a)
unfolding zero_bytes
zero_bytes_lem zero ptr mem a = ground arith
zero_bytes_lem (suc n) ptr mem a =
    zero_bytes_lem n (ptr + 1) (λ x. if x == ptr then 0 else mem x) a ∙ ground arith

-- PainScreen clears what it writes to and nothing else, and all of it is in the region of the display,
-- the fourth of the device's memory map, in either configuration.
pain_screen_lem :
    (colour : ℕ) (serial : Bool) (mem : Bytes) (a : ℕ)
    → (pain_screen colour mem a ≡ (if among 0xBBB00 0x02A00000 a then 0 else mem a))
      × (let display = region_at (regions (device_memory_descriptor_ex serial)) 3 in
          (among 0xBBB00 0x02A00000 a && not (among display.size display.address a)) ≡ false)
unfolding pain_screen
pain_screen_lem colour true mem a = (zero_bytes_lem 0xBBB00 0x02A00000 mem a, ground arith)
pain_screen_lem colour false mem a = (zero_bytes_lem 0xBBB00 0x02A00000 mem a, ground arith)

size_lem :
    (width height : ℕ)
    → width < 2 ^ 28
    → width * 2 * height < 2 ^ 32
    → times_bytes width % 2 ^ 32 * height % 2 ^ 32 ≡ width * 2 * height
size_lem width height narrow fits =
    let line : times_bytes width % 2 ^ 32 ≡ width * 2 = omega arith in rw line (mod-eq_of_lt fits)

-- For an address and a size other than 0, with a width below 2^28 and two bytes for each pixel from the
-- address on within the first 2^32 bytes, SimpleFbDxeInitialize succeeds with memory and clears exactly
-- the two bytes of each pixel, which is what the mode gives as the buffer's size; a pixel of the format
-- that the mode gives has four.
pub simple_fb_initialize_lem :
    (info_size address width height : ℕ) (mem : Bytes) (a : ℕ)
    → 0 < address
    → 0 < width
    → 0 < height
    → width < 2 ^ 28
    → address + width * 2 * height ≤ 2 ^ 32
    → let m = mode_of info_size address width height in
      let r = simple_fb_initialize info_size address width height true mem in
      (r.0 ≡ success)
      × (r.1 ≡ some m)
      × (m.frame_buffer_size ≡ width * 2 * height)
      × (2 * m.frame_buffer_size ≡ m.info.pixels_per_scan_line * m.info.vertical_resolution * 4)
      × (r.2 a ≡ (if among (width * 2 * height) address a then 0 else mem a))
unfolding simple_fb_initialize
simple_fb_initialize_lem info_size address width height mem a p q r narrow fits =
    let size : times_bytes width % 2 ^ 32 * height % 2 ^ 32 ≡ width * 2 * height =
      size_lem width height narrow (omega (arith, fits, p)) in
    let cleared =
      zero_bytes_lem (mode_of info_size address width height).frame_buffer_size address mem a in
    let ready : ((address == 0 || width == 0) || height == 0) ≡ false = ground arith in
    rw ready (
      refl,
      refl,
      size,
      omega (arith, size),
      cleared ∙ ap (λ n. if among n address a then 0 else mem a) size,
    )
