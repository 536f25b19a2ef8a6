-- ===== src/Serial/FbCon/Frame.antt =====
-- FbConPutCharWithFactor and the serial port's writes (FrameBufferSerialPortLib.c): the cursor on its
-- page, the bytes of the frame, and the passes of a character.
use lgoptimus_l3pkg.Common.{
  ℕ, suc, ◌+◌, ◌-◌, ◌*◌, ◌/◌, ◌%◌, ◌^◌, ◌≤◌, ◌<◌, ◌≡◌, refl, ap, ◌∙◌, inl, inr, Bool, true, false,
  not, ◌&&◌, ◌||◌, Option, some, List, [], ◌∷◌, arith, ltb, leb, ◌==◌, Bool-cases,
}
use lgoptimus_l3pkg.Serial.Glyph.{font_width, font_height, g_width, g_height, g_bytes, reset_fb}
use lgoptimus_l3pkg.Serial.Glyph.Reach.{draw_glyph_lem, reset_fb_lem}
use lgoptimus_l3pkg.Serial.FbCon.{
  FbCon, enable_if, common_msg, title_msg, subtitle_msg, new_line, draw_char, control_char,
  paint_char, fb_con_put_char, then_write, write_bytes, finish_write, serial_port_write,
  finish_critical, serial_port_write_critical, yellow, serial_port_initialize, fb_con_reset,
}

-- The page has 40 columns and 25 lines: its height is 26 lines, of which the last stays empty.
abbrev pub IsValid : FbCon → Type 0
IsValid s = (s.max_x ≡ 40) × (s.max_y ≡ 26) × (s.x < 40) × (s.y < 25)

-- The bytes of the frame: the two of each of 240 * 320 pixels.
abbrev pub frame_bytes : ℕ
frame_bytes = g_width * g_height * g_bytes

-- Nothing beyond the frame changed; interrupts may have been enabled if `on`.
abbrev pub Kept : Bool → FbCon → FbCon → Type 0
Kept on s s' =
    ((n : ℕ) → frame_bytes ≤ n → s'.fb n ≡ s.fb n) × (on ≡ false → s'.interrupts ≡ s.interrupts)

Kept-refl : (on : Bool) (s : FbCon) → Kept on s s
Kept-refl on s = (λ n h. refl, λ h. refl)

Kept-trans : (on : Bool) (a b c : FbCon) → Kept on a b → Kept on b c → Kept on a c
Kept-trans on a b c p q = (λ n h. q.0 n h ∙ p.0 n h, λ h. q.1 h ∙ p.1 h)

-- The step ends, in a valid state.
abbrev pub Ends : Bool → FbCon → Option FbCon → Type 0
Ends on s o = (s' : FbCon) × (o ≡ some s') × IsValid s' × Kept on s s'

-- What a pass that turns the page relies on: the next pass, at the top of the page, ends.
abbrev NextEnds : Bool → (FbCon → Option FbCon) → Type 0
NextEnds on paint = (s : FbCon) → IsValid s → s.y ≡ 0 → Ends on s (paint s)

limit : (s : FbCon) → s.max_y ≡ 26 → (s.max_y + 2 ^ 32 - 1) % 2 ^ 32 ≡ 25
limit s h = rw h refl

-- `before` is the state at the start of the pass, of which `s` is a later one.
new_line-Ends :
    (paint : FbCon → Option FbCon) (on i : Bool) (before s : FbCon)
    → s.max_x ≡ 40
    → s.max_y ≡ 26
    → s.y < 25
    → (s.y ≡ 24 → NextEnds on paint)
    → ((n : ℕ) → frame_bytes ≤ n → s.fb n ≡ before.fb n)
    → (on ≡ false → (enable_if i s).interrupts ≡ before.interrupts)
    → Ends on before (new_line paint 1 i s)
unfolding new_line
new_line-Ends paint on i before s hx hy low next same irq =
    elim (Bool-cases (leb ((s.max_y + 2 ^ 32 - 1) % 2 ^ 32) (s.y + 1))) [
      | inl e ↦
          let last : s.y ≡ 24 = ground (arith, limit s hy) in
          let top : FbCon = enable_if i (record s { x = 0; y = 0; fb = reset_fb s.fb }) in
          let (s', ends, v', kept) = next last top (hx, hy, omega arith, omega arith) refl in
          rw e (
            s',
            ends,
            v',
            (λ n h. kept.0 n h ∙ reset_fb_lem s.fb n h ∙ same n h, λ h. kept.1 h ∙ irq h),
          )
      | inr e ↦
          let more : s.y + 1 < 25 = ground (arith, limit s hy) in
          rw e (
            enable_if i (record s { x = 0; y = s.y + 1 }),
            refl,
            (hx, hy, omega arith, more),
            (same, irq),
          )
    ]

draw_char_lem :
    (font : ℕ → ℕ) (c : ℕ) (s : FbCon)
    → IsValid s
    → (n : ℕ) → frame_bytes ≤ n
    → (draw_char font 1 c s).fb n ≡ s.fb n
unfolding draw_char
draw_char_lem font c s v n h =
    draw_glyph_lem g_width g_bytes 1 s.foreground s.background
      (s.y * (g_bytes * font_height * g_width) + s.x * 1 * (g_bytes * (font_width + 1))) n _ s.fb
      (omega arith) (omega arith) (omega arith) (inr (omega (arith, v.2, v.3)))

restored : (b : Bool) → b || false ≡ b
restored true = refl
restored false = refl

columns : (s : FbCon) → s.max_x ≡ 40 → s.max_x / 1 ≡ 40
columns s h = rw h refl

paint_char-Ends :
    (paint : FbCon → Option FbCon) (font : ℕ → ℕ) (type c : ℕ) (on : Bool) (s : FbCon)
    → IsValid s
    → (s.y ≡ 24 → NextEnds on paint)
    → Ends on s (paint_char paint font type 1 c s)
unfolding paint_char draw_char
paint_char-Ends paint font type c on s v next =
    elim (Bool-cases
      (s.x == 0 && c == 32 && not (type == subtitle_msg) && not (type == title_msg))) [
        | inl e ↦ rw e (s, refl, v, Kept-refl on s)
        | inr e ↦ rw e (elim (Bool-cases (leb (s.max_x / 1) (s.x + 1))) [
          | inl full ↦ rw full (
              new_line-Ends paint on s.interrupts s (draw_char font 1 c s) v.0 v.1 v.3 next
                (draw_char_lem font c s v) (λ h. restored s.interrupts))
          | inr more ↦ rw more (
            enable_if s.interrupts (draw_char font 1 c s),
            refl,
            (v.0, v.1, ground (arith, v.0, columns s v.0), v.3),
            (draw_char_lem font c s v, λ h. restored s.interrupts),
          )
        ])
      ]

control_char-Ends :
    (paint : FbCon → Option FbCon) (stale : Bool) (c : ℕ) (s : FbCon)
    → IsValid s
    → (s.y ≡ 24 → NextEnds stale paint)
    → Ends stale s (control_char paint 1 stale c s)
unfolding control_char
control_char-Ends paint stale c s v next = elim (Bool-cases (c == 10)) [
  | inl e ↦
      rw e (new_line-Ends paint stale stale s s v.0 v.1 v.3 next (λ n h. refl) (λ h. rw h refl))
  | inr e ↦ rw e (elim (Bool-cases (c == 13)) [
    | inl r ↦ rw r (record s { x = 0 }, refl, (v.0, v.1, omega arith, v.3), Kept-refl stale s)
    | inr r ↦ rw r (s, refl, v, Kept-refl stale s)
  ])
]

pass-Ends :
    (fuel : ℕ) (font : ℕ → ℕ) (type c : ℕ) (stale : Bool) (s : FbCon)
    → IsValid s
    → (s.y ≡ 24 → NextEnds stale (λ s'. fb_con_put_char fuel font type 1 stale c s'))
    → Ends stale s (fb_con_put_char (suc fuel) font type 1 stale c s)
unfolding fb_con_put_char
pass-Ends fuel font type c stale s v next = elim (Bool-cases (not s.initialized)) [
  | inl e ↦ rw e (s, refl, v, Kept-refl stale s)
  | inr e ↦ rw e (elim (Bool-cases (ltb 127 c)) [
    | inl h ↦ rw h (s, refl, v, Kept-refl stale s)
    | inr h ↦ rw h (elim (Bool-cases (ltb c 32)) [
      | inl low ↦ rw low (control_char-Ends _ stale c s v next)
      | inr high ↦ rw high (paint_char-Ends _ font type c stale s v next)
    ])
  ])
]

-- FbConPutCharWithFactor at scale 1 ends after at most two passes, whatever the character, leaves
-- the cursor on the page, and changes no byte beyond the frame; interrupts are as before, if the
-- value of `intstate` that a new line reads uninitialised is false.
pub fb_con_put_char-Ends :
    (font : ℕ → ℕ) (type c : ℕ) (stale : Bool) (s : FbCon)
    → IsValid s
    → Ends stale s (fb_con_put_char 2 font type 1 stale c s)
fb_con_put_char-Ends font type c stale s v = pass-Ends 1 font type c stale s v (λ _ s' v' top.
    pass-Ends 0 font type c stale s' v' (λ bottom. absurd (omega (arith, top, bottom))))

write_bytes-Ends :
    (font : ℕ → ℕ) (stale : Bool) (cs : List ℕ) (s : FbCon)
    → IsValid s
    → Ends stale s (write_bytes font stale cs s)
unfolding write_bytes
write_bytes-Ends font stale [] s v = (s, refl, v, Kept-refl stale s)
write_bytes-Ends font stale (c ∷ cs) s v =
    let (s1, first, v1, k1) = fb_con_put_char-Ends font common_msg c stale s v in
    let (s2, rest, v2, k2) = write_bytes-Ends font stale cs s1 v1 in
    (
      s2,
      ap (then_write (λ s'. write_bytes font stale cs s')) first ∙ rest,
      v2,
      Kept-trans stale s s1 s2 k1 k2,
    )

-- SerialPortWrite ends for every buffer, leaves the cursor on the page, and changes no byte beyond
-- the frame; interrupts are as before, if the uninitialised `intstate` is false.
pub serial_port_write-Ends :
    (font : ℕ → ℕ) (stale : Bool) (buffer : List ℕ) (s : FbCon)
    → IsValid s
    → Ends stale s (serial_port_write font stale buffer s)
unfolding serial_port_write
serial_port_write-Ends font stale buffer s v =
    let (s', done, v', k) =
      write_bytes-Ends font stale buffer (record s { interrupts = false }) v in
    (
      enable_if s.interrupts s',
      ap (finish_write s) done,
      v',
      (k.0, λ h. ap (λ b. s.interrupts || b) (k.1 h) ∙ restored s.interrupts),
    )

-- SerialPortWriteCritical, in the same way, and the foreground colour is as before.
pub serial_port_write_critical-Ends :
    (font : ℕ → ℕ) (stale : Bool) (buffer : List ℕ) (s : FbCon)
    → IsValid s
    → (s' : FbCon) × (serial_port_write_critical font stale buffer s ≡ some s')
      × IsValid s'
      × Kept stale s s'
      × (s'.foreground ≡ s.foreground)
unfolding serial_port_write_critical
serial_port_write_critical-Ends font stale buffer s v =
    let (s', done, v', k) =
      write_bytes-Ends font stale buffer (record s { interrupts = false; foreground = yellow }) v in
    (
      enable_if s.interrupts (record s' { foreground = s.foreground }),
      ap (finish_critical s) done,
      v',
      (k.0, λ h. ap (λ b. s.interrupts || b) (k.1 h) ∙ restored s.interrupts),
      refl,
    )

-- A first SerialPortInitialize puts the cursor on the page.
pub serial_port_initialize-IsValid :
    (s : FbCon) → s.initialized ≡ false → IsValid (serial_port_initialize s)
unfolding serial_port_initialize fb_con_reset
serial_port_initialize-IsValid s h = rw h (refl, refl, omega arith, omega arith)
