-- ===== src/Tests/Text.antt =====
-- The serial ports, at concrete inputs.
use lgoptimus_l3pkg.Common.{ℕ, ◌≡◌, refl, inl, true, false, [], ◌∷◌, ◌++◌, arith}
use lgoptimus_l3pkg.Serial.Glyph.{Memory, draw_glyph}
use lgoptimus_l3pkg.Serial.Glyph.Reach.{draw_glyph_lem}
use lgoptimus_l3pkg.Serial.FbCon.{FbCon, serial_port_write}
use lgoptimus_l3pkg.Serial.FbCon.Frame.{IsValid, Ends, serial_port_write-Ends}
use lgoptimus_l3pkg.Serial.Memory
use lgoptimus_l3pkg.Serial.Memory.{Log}
use lgoptimus_l3pkg.Serial.Memory.Ring.{place, log_holds_last}

abbrev blank : Memory
blank n = 0

-- A font in which every word is its index.
abbrev font : ℕ → ℕ
font n = n

-- The cursor in the last column of the last line.
abbrev corner : FbCon
corner = record {
  x = 39;
  y = 24;
  max_x = 40;
  max_y = 26;
  foreground = 0xffff;
  background = 0;
  initialized = true;
  interrupts = true;
  fb = blank;
}

corner-IsValid : IsValid corner
corner-IsValid = (refl, refl, omega arith, omega arith)

serial_port_write-Ends_example :
    Ends false corner (serial_port_write font false (72 ∷ 105 ∷ 10 ∷ []) corner)
serial_port_write-Ends_example =
    serial_port_write-Ends font false (72 ∷ 105 ∷ 10 ∷ []) corner corner-IsValid

draw_glyph_lem_example : draw_glyph 240 2 1 (0x1f, 0x1f) 0xffff 0 480 blank 479 ≡ 0
draw_glyph_lem_example =
    draw_glyph_lem 240 2 1 0xffff 0 480 479 (0x1f, 0x1f) blank (omega arith) (omega arith)
      (omega arith) (inl (omega arith))

abbrev log : Log
log = record { offset = 3; base = λ n. 0 }

log_holds_last_example :
    (Memory.serial_port_write 4 ((1 ∷ 2 ∷ 3 ∷ []) ++ (4 ∷ 5 ∷ 6 ∷ 7 ∷ [])) log).base
      (place 4 (Memory.serial_port_write 4 (1 ∷ 2 ∷ 3 ∷ []) log).offset 2)
    ≡ 6
log_holds_last_example =
    log_holds_last 4 (1 ∷ 2 ∷ 3 ∷ []) (4 ∷ 5 ∷ 6 ∷ 7 ∷ []) log 2 (omega arith) (omega arith)
      (omega arith)
