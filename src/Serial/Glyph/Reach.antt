-- ===== src/Serial/Glyph/Reach.antt =====
-- The bytes that FbConDrawglyph and ResetFb (FrameBufferSerialPortLib.c) can change.
use native.Mathlib.Nat.{mod-eq_of_lt}
use lgoptimus_l3pkg.Common.{
  ℕ, zero, suc, ◌+◌, ◌-◌, ◌*◌, ◌/◌, ◌%◌, ◌^◌, ◌≤◌, ◌<◌, ◌≡◌, refl, sym, ap, ◌∙◌, ◌⊎◌, inl, inr,
  arith, ◌==◌, Bool-cases,
}
use lgoptimus_l3pkg.Serial.Glyph.{
  Memory, Brush, store, times, font_width, g_width, g_height, g_bytes, skip, put_pixel,
  background_half, glyph_pixel, glyph_copy, glyph_line, foreground_half, draw_glyph, reset_fb,
}

-- The pointer went on by `d`, and no byte outside what it passed over changed.
abbrev pub Passes : ℕ → Brush → Brush → Type 0
Passes d b b' =
    (b'.pixels ≡ b.pixels + d) × ((n : ℕ) → (n < b.pixels) ⊎ (b.pixels + d ≤ n) → b'.fb n ≡ b.fb n)

Passes-refl : (b : Brush) → Passes 0 b b
Passes-refl b = (omega arith, λ n h. refl)

Passes-of : (d e : ℕ) (b b' : Brush) → d ≡ e → Passes d b b' → Passes e b b'
Passes-of d e b b' h p = (omega (arith, h, p.0), λ n o. p.1 n (ground (arith, h)))

Passes-trans : (d e : ℕ) (a b c : Brush) → Passes d a b → Passes e b c → Passes (d + e) a c
Passes-trans d e a b c p q =
    (omega (arith, p.0, q.0), λ n h. q.1 n (ground (arith, p.0)) ∙ p.1 n (ground arith))

suc_mul : (n d : ℕ) → d + n * d ≡ suc n * d
suc_mul n d = grind arith

times-Passes {ℓ} :
    {A : Type ℓ} (brush : A → Brush) (f : A → A) (d : ℕ)
    → ((a : A) → Passes d (brush a) (brush (f a)))
    → (n : ℕ) (a : A) → Passes (n * d) (brush a) (brush (times n f a))
times-Passes brush f d h zero a =
    Passes-of 0 (0 * d) (brush a) (brush a) (omega arith) (Passes-refl (brush a))
times-Passes brush f d h (suc n) a =
    Passes-of (d + n * d) (suc n * d) (brush a) (brush (times n f (f a))) (suc_mul n d) (
      Passes-trans d (n * d) (brush a) (brush (f a)) (brush (times n f (f a))) (h a)
        (times-Passes brush f d h n (f a)))

skip-Passes : (d : ℕ) (b : Brush) → Passes d b (skip d b)
skip-Passes d b = (refl, λ n h. refl)

put_pixel-Passes : (bpp color : ℕ) (b : Brush) → Passes bpp b (put_pixel bpp color b)
unfolding put_pixel
put_pixel-Passes zero color b = Passes-refl b
put_pixel-Passes (suc bpp) color b =
    let b' : Brush = record { pixels = suc b.pixels; fb = store b.fb b.pixels (color % 256) } in
    let first : Passes 1 b b' = (omega arith, λ n h. ground arith) in
    Passes-of (1 + bpp) (suc bpp) b (put_pixel bpp (color / 256) b') (omega arith) (
      Passes-trans 1 bpp b b' (put_pixel bpp (color / 256) b') first
        (put_pixel-Passes bpp (color / 256) b'))

-- The bytes from one line of a glyph's cell to the next.
abbrev pub line_bytes : ℕ → ℕ → ℕ → ℕ
line_bytes stride bpp scale = font_width * (scale * bpp) + stride * bpp % 2 ^ 32

background_half-Passes :
    (stride bpp scale color : ℕ) (b : Brush)
    → Passes
        (6 * (scale * line_bytes stride bpp scale))
        b
        (background_half stride bpp scale color b)
unfolding background_half
background_half-Passes stride bpp scale color b =
    times-Passes (λ a. a) _ (scale * line_bytes stride bpp scale)
      (times-Passes (λ a. a) _ (line_bytes stride bpp scale)
        (λ a.
          Passes-trans (font_width * (scale * bpp)) (stride * bpp % 2 ^ 32) a _ _
            (times-Passes (λ c. c) _ (scale * bpp)
              (times-Passes (λ c. c) _ bpp (put_pixel-Passes bpp color) scale) font_width a)
            (skip-Passes (stride * bpp % 2 ^ 32) _))
        scale)
      6 b

glyph_pixel-Passes :
    (bpp scale color : ℕ) (a : ℕ × Brush)
    → Passes (scale * bpp) a.1 (glyph_pixel bpp scale color a).1
unfolding glyph_pixel
glyph_pixel-Passes bpp scale color (word, b) = elim (Bool-cases (word % 2 == 1)) [
  | inl e ↦ rw e (times-Passes (λ c. c) _ bpp (put_pixel-Passes bpp color) scale b)
  | inr e ↦ rw e (times-Passes (λ c. c) _ bpp (skip-Passes bpp) scale b)
]

abbrev brush : ℕ × Brush → Brush
brush a = a.1

glyph_copy-Passes :
    (stride bpp scale color temp : ℕ) (a : ℕ × Brush)
    → Passes (line_bytes stride bpp scale) a.1 (glyph_copy stride bpp scale color temp a).1
unfolding glyph_copy
glyph_copy-Passes stride bpp scale color temp (word, b) =
    let drawn = times font_width (glyph_pixel bpp scale color) (temp, b) in
    Passes-trans (font_width * (scale * bpp)) (stride * bpp % 2 ^ 32) b drawn.1
      (skip (stride * bpp % 2 ^ 32) drawn.1)
      (times-Passes brush (glyph_pixel bpp scale color) (scale * bpp)
        (glyph_pixel-Passes bpp scale color) font_width (temp, b))
      (skip-Passes (stride * bpp % 2 ^ 32) drawn.1)

glyph_line-Passes :
    (stride bpp scale color : ℕ) (a : ℕ × Brush)
    → Passes (scale * line_bytes stride bpp scale) a.1 (glyph_line stride bpp scale color a).1
unfolding glyph_line
glyph_line-Passes stride bpp scale color (word, b) =
    times-Passes brush (glyph_copy stride bpp scale color word) (line_bytes stride bpp scale)
      (glyph_copy-Passes stride bpp scale color word) scale (word, b)

foreground_half-Passes :
    (stride bpp scale color word : ℕ) (b : Brush)
    → Passes
        (6 * (scale * line_bytes stride bpp scale))
        b
        (foreground_half stride bpp scale color word b)
unfolding foreground_half
foreground_half-Passes stride bpp scale color word b =
    times-Passes brush (glyph_line stride bpp scale color) (scale * line_bytes stride bpp scale)
      (glyph_line-Passes stride bpp scale color) 6 (word, b)

parts_of_line :
    (n scale stride bpp : ℕ) → n * (scale * bpp) + stride * bpp ≡ (n * scale + stride) * bpp
parts_of_line n scale stride bpp = grind arith

-- A line of a glyph that fits in the width is a line of the frame.
full_line :
    (width bpp scale : ℕ)
    → font_width * scale ≤ width
    → width < 2 ^ 32
    → width * bpp < 2 ^ 32
    → line_bytes ((width + 2 ^ 32 - font_width * scale % 2 ^ 32) % 2 ^ 32) bpp scale ≡ width * bpp
full_line width bpp scale fits small narrow =
    let stride : ℕ = width - font_width * scale in
    let left : (width + 2 ^ 32 - font_width * scale % 2 ^ 32) % 2 ^ 32 ≡ stride = omega arith in
    let split : width ≡ font_width * scale + stride = omega arith in
    let bytes : font_width * (scale * bpp) + stride * bpp ≡ width * bpp =
      parts_of_line font_width scale stride bpp ∙ ap (λ w. w * bpp) (sym split) in
    let uncut : stride * bpp < 2 ^ 32 = omega (arith, bytes, narrow) in
    rw left (ap (λ n. font_width * (scale * bpp) + n) (mod-eq_of_lt uncut) ∙ bytes)

-- For a glyph at any scale that fits in the width, and lines of less than 2^32 bytes, FbConDrawglyph
-- changes no byte outside the twelve times `scale` lines of the frame that start at its pointer.
pub draw_glyph_lem :
    (width bpp scale fg bg pixels n : ℕ) (glyph : ℕ × ℕ) (fb : Memory)
    → font_width * scale ≤ width
    → width < 2 ^ 32
    → width * bpp < 2 ^ 32
    → (n < pixels) ⊎ (pixels + 12 * (scale * (width * bpp)) ≤ n)
    → draw_glyph width bpp scale glyph fg bg pixels fb n ≡ fb n
unfolding draw_glyph
draw_glyph_lem width bpp scale fg bg pixels n glyph fb fits small narrow h =
    let stride : ℕ = (width + 2 ^ 32 - font_width * scale % 2 ^ 32) % 2 ^ 32 in
    let half : ℕ = 6 * (scale * line_bytes stride bpp scale) in
    let full : half ≡ 6 * (scale * (width * bpp)) =
      ap (λ l. 6 * (scale * l)) (full_line width bpp scale fits small narrow) in
    let b : Brush = record { pixels = pixels; fb = fb } in
    let b' : Brush = background_half stride bpp scale bg b in
    let cleared : Memory = (background_half stride bpp scale bg b').fb in
    let c : Brush = record { pixels = pixels; fb = cleared } in
    let c' : Brush = foreground_half stride bpp scale fg glyph.0 c in
    let back =
      Passes-trans half half b b' _ (background_half-Passes stride bpp scale bg b)
        (background_half-Passes stride bpp scale bg b') in
    let front =
      Passes-trans half half c c' _ (foreground_half-Passes stride bpp scale fg glyph.0 c)
        (foreground_half-Passes stride bpp scale fg glyph.1 c') in
    let outside : (n < pixels) ⊎ (pixels + (half + half) ≤ n) = ground (arith, full, h) in
    front.1 n outside ∙ back.1 n outside

-- ResetFb changes no byte outside the frame.
pub reset_fb_lem : (fb : Memory) (n : ℕ) → g_width * g_height * g_bytes ≤ n → reset_fb fb n ≡ fb n
unfolding reset_fb
reset_fb_lem fb n h =
    (times-Passes (λ b. b) _ (g_height * g_bytes)
        (times-Passes (λ b. b) _ g_bytes (put_pixel-Passes g_bytes 0) g_height) g_width
        (record { pixels = 0; fb = fb })).1
      n (inr h)
