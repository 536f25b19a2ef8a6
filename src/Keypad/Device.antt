-- ===== src/Keypad/Device.antt =====
-- The keys of the phone and their pins: HtcLeoPkg/Library/KeypadDeviceImplLib/KeypadDeviceImplLib.c.
-- The board's pins (gpio_set and gpio_get) are a parameter of Device/Poll.
pub mod Poll
use lgoptimus_l3pkg.Common.{
  ℕ, zero, suc, ◌+◌, ◌%◌, Bool, true, false, not, ◌&&◌, Option, none, some, List, [], ◌∷◌, ◌++◌,
  ◌==◌, if◌then◌else◌, get_or, set, map, replicate,
}
use lgoptimus_l3pkg.Keypad.Key.{
  KeyData, zero_key, scan_up, scan_down, scan_home, scan_esc, char_backspace, char_tab,
  char_carriage_return,
}
use lgoptimus_l3pkg.Keypad.KeyStatus.{
  KeyContext, Bitmaps, initialize_key_context, update_key_status,
}
use lgoptimus_l3pkg.Keypad.Console.{Device}

pub data DeviceType : Type 0 where
  unknown legacy keymatrix tlmm pm8x41 pm8x41_pon : DeviceType

pub record Context : Type 0 where
  pub efi_key_context : KeyContext
  pub is_valid : Bool
  pub device_type : DeviceType
  pub gpio : ℕ
  pub active_low : Bool
  pub gpio_in : ℕ
  pub gpio_out : ℕ
  pub is_volume_key : Bool

unfoldable pub initialize_key_context_private : Context → Context
initialize_key_context_private c = record c {
  is_valid = false;
  gpio = 0;
  gpio_out = 0;
  gpio_in = 0;
  device_type = unknown;
  active_low = false;
  is_volume_key = false;
}

-- Zero memory, as static variables are.
abbrev pub static_context : Context
static_context = record {
  efi_key_context = initialize_key_context;
  is_valid = false;
  device_type = unknown;
  gpio = 0;
  active_low = false;
  gpio_in = 0;
  gpio_out = 0;
  is_volume_key = false;
}

-- KeyList: power, volume up, volume down, back, windows, home, dial.
abbrev pub key_list : List Context
key_list = replicate 7 static_context

-- The place in KeyList of the context that belongs to a key code.
unfoldable pub key_code_to_key_context : ℕ → Option ℕ
key_code_to_key_context key_code =
    if key_code == 114
    then some 2
    else if key_code == 115
    then some 1
    else if key_code == 116
    then some 0
    else if key_code == 117
    then some 3
    else if key_code == 118
    then some 4
    else if key_code == 119
    then some 5
    else if key_code == 120
    then some 6
    else none

abbrev pub change : Option ℕ → (Context → Context) → List Context → List Context
change none f cs = cs
change (some i) f cs = set cs i (f (get_or cs i static_context))

abbrev pub configure : ℕ → (Context → Context) → List Context → List Context
configure key_code f cs = change (key_code_to_key_context key_code) f cs

abbrev pub matrix_key : ℕ → ℕ → Context → Context
matrix_key out inp c = record c {
  device_type = keymatrix;
  gpio_out = out;
  gpio_in = inp;
  active_low = true;
  is_valid = true;
}

abbrev pub volume_key : ℕ → ℕ → Context → Context
volume_key out inp c = record (matrix_key out inp c) { is_volume_key = true }

abbrev pub power_key : Context → Context
power_key c = record c { device_type = legacy; gpio = 94; active_low = true; is_valid = true }

unfoldable pub keypad_device_impl_constructor : List Context → List Context
keypad_device_impl_constructor cs = configure 120 (matrix_key 32 41) (
    configure 119 (matrix_key 31 41) (
      configure 118 (matrix_key 32 42) (
        configure 117 (matrix_key 31 42) (
          configure 114 (volume_key 33 41) (
            configure 115 (volume_key 33 42)
              (configure 116 power_key (map initialize_key_context_private cs)))))))

abbrev pub with_key : KeyData → Context → Context
with_key k c = record c { efi_key_context = record initialize_key_context { key_data = k } }

abbrev pub scan_key : ℕ → KeyData
scan_key n = record zero_key { scan_code = n }

abbrev pub char_key : ℕ → KeyData
char_key n = record zero_key { unicode_char = n }

abbrev pub reset_keys : List KeyData → List Context → List Context
reset_keys [] cs = cs
reset_keys (k ∷ ks) [] = []
reset_keys (k ∷ ks) (c ∷ cs) = with_key k c ∷ reset_keys ks cs

-- KeypadDeviceImplReset.
unfoldable pub keypad_device_impl_reset : List Context → List Context
keypad_device_impl_reset cs =
    reset_keys
      (scan_key scan_esc
        ∷ scan_key scan_up
        ∷ scan_key scan_down
        ∷ char_key char_backspace
        ∷ char_key char_tab
        ∷ scan_key scan_home
        ∷ char_key char_carriage_return
        ∷ [])
      cs
