-- ===== src/Keypad/KeyStatus.antt =====
-- One key of the keypad (HtcLeoPkg/Include/Library/KeypadDeviceHelperLib.h): the bitmaps of pressed
-- keys and the state machine that turns presses and releases into reported keys.
pub mod Repeat
pub mod Press
use lgoptimus_l3pkg.Common.{
  ℕ, ◌+◌, ◌*◌, ◌%◌, ◌^◌, Bool, true, false, not, ◌&&◌, List, [], ◌∷◌, ◌++◌, ltb, leb, ◌==◌,
  if◌then◌else◌,
}
use lgoptimus_l3pkg.Keypad.Key.{KeyData, zero_key, scan_up, scan_down, char_carriage_return}

pub data KeyState : Type 0 where
  released pressed longpress_release : KeyState

pub record KeyContext : Type 0 where
  pub key_data : KeyData
  pub time : ℕ
  pub state : KeyState
  pub repeat : Bool
  pub longpress : Bool

-- The bitmaps, as the sets of the bits that are set (BitmapSet, BitmapClear and BitmapTest of
-- HtcLeoPkg/Include/Library/BitmapLib.h).
pub record Bitmaps : Type 0 where
  pub scan_codes : ℕ → Bool
  pub unicode_chars : ℕ → Bool

abbrev pub bitmap_update : (ℕ → Bool) → ℕ → Bool → ℕ → Bool
bitmap_update m bit v n = if bit == n then v else m n

abbrev pub max_scancode : ℕ
max_scancode = 0x18

abbrev pub max_uncode_char : ℕ
max_uncode_char = 0x7f

abbrev pub in_bitmap : ℕ → ℕ → Bool
in_bitmap code limit = not (code == 0) && ltb code limit

-- The second bitmap is indexed by the scan code, as the source does.
unfoldable pub key_set_state : Bitmaps → ℕ → ℕ → Bool → Bitmaps
key_set_state m scan_code unicode_char value = record {
  scan_codes =
      if in_bitmap scan_code max_scancode
      then bitmap_update m.scan_codes scan_code value
      else m.scan_codes;
  unicode_chars =
      if in_bitmap unicode_char max_uncode_char
      then bitmap_update m.unicode_chars scan_code value
      else m.unicode_chars;
}

unfoldable pub key_get_state : Bitmaps → ℕ → ℕ → Bool
key_get_state m scan_code unicode_char =
    if in_bitmap scan_code max_scancode && not (m.scan_codes scan_code)
    then false
    else if in_bitmap unicode_char max_uncode_char && not (m.unicode_chars scan_code)
    then false
    else true

unfoldable pub initialize_key_context : KeyContext
initialize_key_context = record {
  key_data = zero_key;
  time = 0;
  state = released;
  repeat = false;
  longpress = false;
}

-- gKeyDataPowerDown, gKeyDataPowerUp and gKeyDataPowerLongpress
-- (HtcLeoPkg/Library/KeypadDeviceHelperLib/KeypadDeviceHelperLib.c).
abbrev pub key_data_power_down : KeyData
key_data_power_down = record zero_key { unicode_char = b's' }

abbrev pub key_data_power_up : KeyData
key_data_power_up = record zero_key { unicode_char = b'e' }

abbrev pub key_data_power_longpress : KeyData
key_data_power_longpress = record zero_key { unicode_char = b' ' }

-- Nanoseconds of 200, 500 and 10 milliseconds: MS2NS.
abbrev pub ms2ns : ℕ → ℕ
ms2ns ms = ms * 1000000

-- The keys that are handed to PushEfikeyBufTail, in order, stand beside the new context.
abbrev pub Report : Type 0
Report = KeyContext × List KeyData

abbrev pub reset_to_released : KeyContext → KeyContext
reset_to_released c = record c { time = 0; repeat = false; longpress = false; state = released }

-- The first report of a long press: a combination for the carriage return, else a first repeat.
unfoldable pub first_long_press : Bitmaps → KeyContext → Report
unfolding key_get_state
first_long_press m c =
    if c.key_data.unicode_char == char_carriage_return
    then (
      record c { longpress = true },
      (if key_get_state m scan_down 0
            then key_data_power_down
            else if key_get_state m scan_up 0
            then key_data_power_up
            else key_data_power_longpress)
          ∷ [],
    )
    else if key_get_state m 0 char_carriage_return
    then (record c { longpress = true }, [])
    else (record c { time = 0; repeat = true; longpress = true }, c.key_data ∷ [])

unfoldable pub while_pressed : Bitmaps → KeyContext → Report
unfolding first_long_press
while_pressed m c =
    if c.repeat && leb (ms2ns 200) c.time
    then (record c { time = 0; repeat = true }, c.key_data ∷ [])
    else if not c.longpress && leb (ms2ns 500) c.time
    then first_long_press m c
    else (c, [])

unfoldable pub on_release : KeyContext → Report
on_release c =
    if not c.longpress
    then (record c { state = longpress_release }, c.key_data ∷ [])
    else if leb (ms2ns 10) c.time
    then (reset_to_released c, [])
    else (c, [])

unfoldable pub dispatch_state : KeyState → Bitmaps → KeyContext → Bool → Report
unfolding while_pressed on_release
dispatch_state released m c true = (record c { time = 0; state = pressed }, [])
dispatch_state released m c false = (c, [])
dispatch_state pressed m c true = while_pressed m c
dispatch_state pressed m c false = on_release c
dispatch_state longpress_release m c is_pressed = (reset_to_released c, [])

-- `Time` is a UINT64.
unfoldable pub update_key_status : Bitmaps → KeyContext → Bool → ℕ → Bitmaps × Report
unfolding key_set_state dispatch_state
update_key_status m c is_pressed delta =
    let m' = key_set_state m c.key_data.scan_code c.key_data.unicode_char is_pressed in
    let c' = record c { time = (c.time + delta) % 2 ^ 64 } in
    (m', dispatch_state c'.state m' c' is_pressed)

-- A key that is seen pressed at each of several polls, the time between them given.
unfoldable pub hold : Bitmaps → KeyContext → List ℕ → Bitmaps × Report
hold m c [] = (m, (c, []))
hold m c (d ∷ ds) =
    let first = update_key_status m c true d in
    let rest = hold first.0 first.1.0 ds in (rest.0, (rest.1.0, first.1.1 ++ rest.1.1))
