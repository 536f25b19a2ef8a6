-- ===== src/Keypad/Key.antt =====
-- EFI_KEY_DATA and the status codes that the keypad functions return (declared by UEFI, used by
-- HtcLeoPkg/Drivers/KeypadDxe), with the scan codes and characters that the code names.
use lgoptimus_l3pkg.Common.{ℕ, Bool, ◌==◌, ◌&&◌}

pub record KeyData : Type 0 where
  pub scan_code : ℕ
  pub unicode_char : ℕ
  pub shift_state : ℕ
  pub toggle_state : ℕ

abbrev pub zero_key : KeyData
zero_key = record { scan_code = 0; unicode_char = 0; shift_state = 0; toggle_state = 0 }

pub data Status : Type 0 where
  success not_ready device_error invalid_parameter unsupported out_of_resources : Status

abbrev pub scan_null : ℕ
scan_null = 0

abbrev pub scan_up : ℕ
scan_up = 1

abbrev pub scan_down : ℕ
scan_down = 2

abbrev pub scan_home : ℕ
scan_home = 5

abbrev pub scan_esc : ℕ
scan_esc = 0x17

abbrev pub char_null : ℕ
char_null = 0

abbrev pub char_backspace : ℕ
char_backspace = 8

abbrev pub char_tab : ℕ
char_tab = 9

abbrev pub char_carriage_return : ℕ
char_carriage_return = 13

-- The test by which the readers tell a partial keystroke.
abbrev pub is_partial : KeyData → Bool
is_partial k = k.scan_code == scan_null && k.unicode_char == char_null
