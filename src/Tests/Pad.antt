-- ===== src/Tests/Pad.antt =====
-- The pins and the light of the keypad, at concrete inputs.
use lgoptimus_l3pkg.Common.{
  ℕ, ◌≡◌, if◌then◌else◌, refl, Bool, ◌&&◌, ◌||◌, ◌==◌, true, false, List, [], ◌∷◌, arith,
}
use lgoptimus_l3pkg.Keypad.KeyStatus.{Bitmaps}
use lgoptimus_l3pkg.Keypad.Device.{
  Context, static_context, power_key, matrix_key, key_list, keypad_device_impl_constructor,
  keypad_device_impl_reset,
}
use lgoptimus_l3pkg.Keypad.Device.Poll.Matrix.{
  Levels, IsHigh, matrix, scan, phone_keys-IsWired, get_keys_scans,
}
use lgoptimus_l3pkg.Keypad.Device.Poll.{
  Board, Shared, keypad_device_impl_get_keys, poll_key, enable_keypad_led_with_timer,
  disable_keypad_led,
}
use lgoptimus_l3pkg.Keypad.Device.Poll.Led.{
  LightLaws, WillGoOut, Happening, poll, expiry, notify, pins, turn, happen, happen_all,
  happen_all-WillGoOut,
}

abbrev no_bits : Bitmaps
no_bits = record { scan_codes = λ n. false; unicode_chars = λ n. false }

abbrev shared : Shared ℕ
shared = record {
  pins = 0;
  bitmaps = no_bits;
  callback_timer = 0;
  timer_running = false;
  created = 0;
  armed = λ n. false;
  pending = λ n. false;
}

abbrev two_keys : List Context
two_keys = power_key static_context ∷ matrix_key 31 42 static_context ∷ []

-- Pins that all read low: every key is pressed.
abbrev pins_low : Board ℕ
pins_low = record { gpio_set = λ g n on. n; gpio_get = λ g n. 0 }

-- A board whose state is the level of the light's pin; every key is pressed.
abbrev lamp : Board ℕ
lamp = record { gpio_set = λ g n on. if n == 48 then on else g; gpio_get = λ g n. 0 }

abbrev shines : ℕ → Bool
shines g = g == 1

lamp-LightLaws : LightLaws lamp (λ n g. g) shines
lamp-LightLaws = record {
  on = λ g. refl;
  off = λ g. refl;
  other = λ g n v ne. ground (arith, ne);
  same = λ n g. refl;
}

-- The notification of the first timer runs after the second timer was started.
abbrev late : List Happening
late = poll 5 ∷ expiry 2 ∷ turn 1 7 ∷ notify 2 ∷ pins 3 ∷ poll 9 ∷ []

happen_all-WillGoOut_example :
    WillGoOut shines (happen_all lamp (λ n g. g) late (two_keys, shared)).1
happen_all-WillGoOut_example =
    happen_all-WillGoOut lamp (λ n g. g) shines lamp-LightLaws late two_keys shared
      (omega arith, (omega arith, tt))
      (record { shows = refl; last = refl; waits = λ r. absurd (ground (arith, r)) })

-- Then two timers run: the third, which nothing cancelled, and the fifth.
late_timers :
    let s = (happen_all lamp (λ n g. g) late (two_keys, shared)).1 in
    (s.armed 3 ≡ true) × (s.armed 5 ≡ true) × (s.callback_timer ≡ 5)
unfolding happen_all happen keypad_device_impl_get_keys poll_key enable_keypad_led_with_timer
    disable_keypad_led
late_timers = (refl, refl, refl)

-- The keys home and windows, which share neither line nor input, and the power key are pressed.
abbrev pressed_keys : ℕ → ℕ → Bool
pressed_keys line input = (line == 31 && input == 41) || (line == 32 && input == 42)

abbrev power_pressed : ℕ → Bool
power_pressed pin = pin == 94

abbrev phone_keys : List Context
phone_keys = keypad_device_impl_reset (keypad_device_impl_constructor key_list)

abbrev lines_high : Shared Levels
lines_high = record {
  pins = λ n. 1;
  bitmaps = no_bits;
  callback_timer = 0;
  timer_running = false;
  created = 0;
  armed = λ n. false;
  pending = λ n. false;
}

get_keys_scans_example :
    let (cs', keys, s') =
      keypad_device_impl_get_keys (matrix pressed_keys power_pressed) 5 phone_keys lines_high in
    let (scanned, reports, bitmaps) = scan pressed_keys power_pressed 5 phone_keys no_bits in
    (cs' ≡ scanned) × (keys ≡ reports) × (s'.bitmaps ≡ bitmaps) × IsHigh s'.pins
get_keys_scans_example =
    get_keys_scans pressed_keys power_pressed 5 phone_keys lines_high
      (phone_keys-IsWired pressed_keys power_pressed refl refl) (refl, (refl, refl))
