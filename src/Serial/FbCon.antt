-- ===== src/Serial/FbCon.antt =====
-- The console of HtcLeoPkg/Library/FrameBufferSerialPortLib/FrameBufferSerialPortLib.c: the cursor,
-- the characters and the serial port's functions. The font's table is a parameter, and writing the
-- data cache back (FbConFlush) changes nothing here. Positions are never negative.
pub mod Frame
use lgoptimus_l3pkg.Common.{
  ℕ, zero, suc, ◌+◌, ◌-◌, ◌*◌, ◌/◌, ◌%◌, ◌^◌, Bool, true, false, not, ◌&&◌, ◌||◌, Option, none,
  some, List, [], ◌∷◌, ltb, leb, ◌==◌, if◌then◌else◌,
}
use lgoptimus_l3pkg.Serial.Glyph.{
  Memory, font_width, font_height, g_width, g_height, g_bytes, draw_glyph, reset_fb,
}

-- m_Position, m_MaxPosition, m_Color, m_Initialized, whether interrupts are enabled, and memory.
pub record FbCon : Type 0 where
  pub x : ℕ
  pub y : ℕ
  pub max_x : ℕ
  pub max_y : ℕ
  pub foreground : ℕ
  pub background : ℕ
  pub initialized : Bool
  pub interrupts : Bool
  pub fb : Memory

abbrev pub white : ℕ
white = 0xffff

abbrev pub yellow : ℕ
yellow = 0xffe0

unfoldable pub fb_con_reset : FbCon → FbCon
fb_con_reset s = record s {
  x = 0;
  y = 0;
  max_x = g_width / (font_width + 1);
  max_y = (g_height - 1) / font_height;
  foreground = white;
  background = 0;
}

-- Interrupts are off in between, and as before at the end.
unfoldable pub serial_port_initialize : FbCon → FbCon
serial_port_initialize s =
    if s.initialized then s else record (fb_con_reset s) { initialized = true }

abbrev pub enable_if : Bool → FbCon → FbCon
enable_if intstate s = record s { interrupts = intstate || s.interrupts }

-- FBCON_COMMON_MSG, FBCON_TITLE_MSG and FBCON_SUBTITLE_MSG.
abbrev pub common_msg : ℕ
common_msg = 0

abbrev pub title_msg : ℕ
title_msg = 2

abbrev pub subtitle_msg : ℕ
subtitle_msg = 3

abbrev pub turn_page : Bool → (FbCon → Option FbCon) → Bool → FbCon → Option FbCon
turn_page true paint intstate s =
    paint (enable_if intstate (record s { fb = reset_fb s.fb; y = 0 }))
turn_page false paint intstate s = some (enable_if intstate s)

-- From the label `newline`. At the end of the page the code clears the screen and goes back to the
-- label `paint`, with the same character. The comparison is one of unsigned numbers.
unfoldable pub new_line : (FbCon → Option FbCon) → ℕ → Bool → FbCon → Option FbCon
new_line paint scale intstate s =
    let s' = record s { x = 0; y = s.y + scale } in
    turn_page (leb ((s.max_y + 2 ^ 32 - scale) % 2 ^ 32) s'.y) paint intstate s'

-- The glyph at the cursor, which then moves on by one.
unfoldable pub draw_char : (ℕ → ℕ) → ℕ → ℕ → FbCon → FbCon
draw_char font scale c s =
    let at = s.y * (g_bytes * font_height * g_width) + s.x * scale * (g_bytes * (font_width + 1)) in
    let glyph : ℕ × ℕ = (font ((c - 32) * 2), font ((c - 32) * 2 + 1)) in
    record s {
      fb = draw_glyph g_width g_bytes scale glyph s.foreground s.background at s.fb;
      x = s.x + 1;
      interrupts = false;
    }

abbrev pub end_of_line : Bool → (FbCon → Option FbCon) → ℕ → Bool → FbCon → Option FbCon
end_of_line true paint scale intstate s = new_line paint scale intstate s
end_of_line false paint scale intstate s = some (enable_if intstate s)

unfoldable pub control_char : (FbCon → Option FbCon) → ℕ → Bool → ℕ → FbCon → Option FbCon
control_char paint scale stale c s =
    if c == 10
    then new_line paint scale stale s
    else if c == 13
    then some (record s { x = 0 })
    else some s

unfoldable pub paint_char : (FbCon → Option FbCon) → (ℕ → ℕ) → ℕ → ℕ → ℕ → FbCon → Option FbCon
paint_char paint font type scale c s =
    if s.x == 0 && c == 32 && not (type == subtitle_msg) && not (type == title_msg)
    then some s
    else let s' = draw_char font scale c s in
      end_of_line (leb (s'.max_x / scale) s'.x) paint scale s.interrupts s'

-- FbConPutCharWithFactor of a byte, from the label `paint` on; the fuel counts the passes. `stale`
-- is `intstate` where the jump to `newline` passes its initialisation.
unfoldable pub fb_con_put_char : ℕ → (ℕ → ℕ) → ℕ → ℕ → Bool → ℕ → FbCon → Option FbCon
fb_con_put_char zero font type scale stale c s = none
fb_con_put_char (suc fuel) font type scale stale c s =
    if not s.initialized
    then some s
    else if ltb 127 c
    then some s
    else if ltb c 32
    then control_char (λ s'. fb_con_put_char fuel font type scale stale c s') scale stale c s
    else paint_char (λ s'. fb_con_put_char fuel font type scale stale c s') font type scale c s

abbrev pub then_write : (FbCon → Option FbCon) → Option FbCon → Option FbCon
then_write next none = none
then_write next (some s) = next s

-- Each byte with the scale factor 1 and two passes at most.
unfoldable pub write_bytes : (ℕ → ℕ) → Bool → List ℕ → FbCon → Option FbCon
write_bytes font stale [] s = some s
write_bytes font stale (c ∷ cs) s =
    then_write (λ s'. write_bytes font stale cs s') (fb_con_put_char 2 font common_msg 1 stale c s)

abbrev pub finish_write : FbCon → Option FbCon → Option FbCon
finish_write before none = none
finish_write before (some s) = some (enable_if before.interrupts s)

unfoldable pub serial_port_write : (ℕ → ℕ) → Bool → List ℕ → FbCon → Option FbCon
serial_port_write font stale buffer s =
    finish_write s (write_bytes font stale buffer (record s { interrupts = false }))

abbrev pub finish_critical : FbCon → Option FbCon → Option FbCon
finish_critical before none = none
finish_critical before (some s) =
    some (enable_if before.interrupts (record s { foreground = before.foreground }))

unfoldable pub serial_port_write_critical : (ℕ → ℕ) → Bool → List ℕ → FbCon → Option FbCon
serial_port_write_critical font stale buffer s =
    finish_critical s
      (write_bytes font stale buffer (record s { interrupts = false; foreground = yellow }))
