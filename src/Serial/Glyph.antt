-- ===== src/Serial/Glyph.antt =====
-- The drawing loops of HtcLeoPkg/Library/FrameBufferSerialPortLib/FrameBufferSerialPortLib.c:
-- FbConDrawglyph and ResetFb. Memory is a byte for each offset from PcdMipiFrameBufferAddress. The
-- products and differences of `unsigned` numbers are cut to 32 bits; pointers are not.
pub mod Reach
use lgoptimus_l3pkg.Common.{ℕ, zero, suc, ◌+◌, ◌-◌, ◌*◌, ◌/◌, ◌%◌, ◌^◌, ◌==◌, if◌then◌else◌}

abbrev pub Memory : Type 0
Memory = ℕ → ℕ

abbrev pub store : Memory → ℕ → ℕ → Memory
store fb p byte n = if n == p then byte else fb n

-- A pointer into the frame buffer, and what it points into.
pub record Brush : Type 0 where
  pub pixels : ℕ
  pub fb : Memory

abbrev pub times {ℓ} : {A : Type ℓ} → ℕ → (A → A) → A → A
times zero f a = a
times (suc n) f a = times n f (f a)

abbrev pub font_width : ℕ
font_width = 5

abbrev pub font_height : ℕ
font_height = 12

-- PcdMipiFrameBufferWidth, PcdMipiFrameBufferHeight, and PcdMipiFrameBufferPixelBpp / 8.
abbrev pub g_width : ℕ
g_width = 240

abbrev pub g_height : ℕ
g_height = 320

abbrev pub g_bytes : ℕ
g_bytes = 2

abbrev pub skip : ℕ → Brush → Brush
skip n b = record b { pixels = b.pixels + n }

-- The loop over `k`: the bytes of a colour, the low byte first.
unfoldable pub put_pixel : ℕ → ℕ → Brush → Brush
put_pixel zero color b = b
put_pixel (suc bpp) color b =
    put_pixel bpp (color / 256)
      (record { pixels = suc b.pixels; fb = store b.fb b.pixels (color % 256) })

-- Half a glyph's height in the background colour; `stride` is what is left of a line.
unfoldable pub background_half : ℕ → ℕ → ℕ → ℕ → Brush → Brush
background_half stride bpp scale color b =
    times (font_height / 2)
      (times scale (λ b'.
        skip (stride * bpp % 2 ^ 32) (times font_width (times scale (put_pixel bpp color)) b')))
      b

-- One bit of `word`, which the loop then shifts out.
unfoldable pub glyph_pixel : ℕ → ℕ → ℕ → ℕ × Brush → ℕ × Brush
glyph_pixel bpp scale color (word, b) = (
  word / 2,
  if word % 2 == 1 then times scale (put_pixel bpp color) b else times scale (skip bpp) b,
)

-- One line of a glyph: five bits of `temp`.
unfoldable pub glyph_copy : ℕ → ℕ → ℕ → ℕ → ℕ → ℕ × Brush → ℕ × Brush
glyph_copy stride bpp scale color temp (word, b) =
    let (rest, drawn) = times font_width (glyph_pixel bpp scale color) (temp, b) in
    (rest, skip (stride * bpp % 2 ^ 32) drawn)

-- The `scale` copies of a line, each from the same data.
unfoldable pub glyph_line : ℕ → ℕ → ℕ → ℕ → ℕ × Brush → ℕ × Brush
glyph_line stride bpp scale color (word, b) =
    times scale (glyph_copy stride bpp scale color word) (word, b)

-- Half a glyph in the foreground colour.
unfoldable pub foreground_half : ℕ → ℕ → ℕ → ℕ → ℕ → Brush → Brush
foreground_half stride bpp scale color word b =
    (times (font_height / 2) (glyph_line stride bpp scale color) (word, b)).1

-- `glyph` is the pair of words that hold the glyph's two halves.
unfoldable pub draw_glyph : ℕ → ℕ → ℕ → ℕ × ℕ → ℕ → ℕ → ℕ → Memory → Memory
draw_glyph width bpp scale glyph fg bg pixels fb =
    let stride = (width + 2 ^ 32 - font_width * scale % 2 ^ 32) % 2 ^ 32 in
    let half = background_half stride bpp scale bg in
    let cleared = (half (half (record { pixels = pixels; fb = fb }))).fb in
    let top =
      foreground_half stride bpp scale fg glyph.0 (record { pixels = pixels; fb = cleared }) in
    (foreground_half stride bpp scale fg glyph.1 top).fb

-- FB_RGB565_BLACK in every pixel.
unfoldable pub reset_fb : Memory → Memory
reset_fb fb =
    (times g_width (times g_height (put_pixel g_bytes 0)) (record { pixels = 0; fb = fb })).fb
