-- ===== src/Keypad/Device/Poll.antt =====
-- The pins and the light of the keypad, and KeypadDeviceImplGetKeys
-- (HtcLeoPkg/Library/KeypadDeviceImplLib/KeypadDeviceImplLib.c). CreateEvent and SetTimer succeed: an
-- event is the number of its creation, from 1, `armed` are those whose timer runs, and `pending` those
-- whose timer has expired and whose notification, DisableKeyPadLed, waits for TPL_CALLBACK. GetKeys
-- runs at TPL_NOTIFY; cancelling a timer leaves a notification that waits.
pub mod Led
pub mod Idle
pub mod Matrix
use lgoptimus_l3pkg.Common.{
  ℕ, zero, suc, ◌+◌, ◌%◌, Bool, true, false, not, ◌&&◌, Option, none, some, List, [], ◌∷◌, ◌++◌,
  ◌==◌, if◌then◌else◌, get_or, set, map, replicate,
}
use lgoptimus_l3pkg.Keypad.Key.{
  KeyData, zero_key, scan_up, scan_down, scan_home, scan_esc, char_backspace, char_tab,
  char_carriage_return,
}
use lgoptimus_l3pkg.Keypad.KeyStatus.{
  KeyContext, Bitmaps, initialize_key_context, update_key_status,
}
use lgoptimus_l3pkg.Keypad.Console.{Device}
use lgoptimus_l3pkg.Keypad.Device.{
  DeviceType, unknown, legacy, keymatrix, tlmm, pm8x41, pm8x41_pon, Context, static_context,
  initialize_key_context_private, key_list, key_code_to_key_context, keypad_device_impl_constructor,
  keypad_device_impl_reset, with_key, char_key, scan_key, power_key, matrix_key, volume_key,
}

pub record Board (G : Type 0) : Type 0 where
  pub gpio_set : G → ℕ → ℕ → G
  pub gpio_get : G → ℕ → ℕ

abbrev pub htcleo_gpio_kp_led : ℕ
htcleo_gpio_kp_led = 48

-- What the keys share: the pins, the bitmaps, m_CallbackTimer (0 for NULL), timerRunning, and the
-- firmware's events.
pub record Shared (G : Type 0) : Type 0 where
  pub pins : G
  pub bitmaps : Bitmaps
  pub callback_timer : ℕ
  pub timer_running : Bool
  pub created : ℕ
  pub armed : ℕ → Bool
  pub pending : ℕ → Bool

abbrev pub arm : (ℕ → Bool) → ℕ → Bool → ℕ → Bool
arm armed event on n = if n == event then on else armed n

module _ {G : Type 0} (board : Board G) where
  -- DisableKeyPadLed. Its event is not used.
  unfoldable pub disable_keypad_led : Shared G → Shared G
  disable_keypad_led s = record s {
    pins = board.gpio_set s.pins htcleo_gpio_kp_led 0;
    timer_running = false;
  }

  abbrev pub cancel_timer : Shared G → Shared G
  cancel_timer s =
      if s.timer_running
      then record s { armed = arm s.armed s.callback_timer false; timer_running = false }
      else s

  abbrev pub start_timer : Shared G → Shared G
  start_timer s = record s {
    pins = board.gpio_set s.pins htcleo_gpio_kp_led 1;
    created = suc s.created;
    callback_timer = suc s.created;
    armed = arm s.armed (suc s.created) true;
    timer_running = true;
  }

  unfoldable pub enable_keypad_led_with_timer : Shared G → Shared G
  enable_keypad_led_with_timer s = start_timer (cancel_timer s)

  abbrev pub set_pin : Shared G → ℕ → ℕ → Shared G
  set_pin s n on = record s { pins = board.gpio_set s.pins n on }

  abbrev pub xor : Bool → Bool → Bool
  xor true b = not b
  xor false b = b

  abbrev pub is_pressed : Shared G → Context → ℕ → Bool
  is_pressed s c pin = xor (not (board.gpio_get s.pins pin % 256 == 0)) c.active_low

  abbrev pub light : Bool → Context → Shared G → Shared G
  light pressed c s = if pressed && not c.is_volume_key then enable_keypad_led_with_timer s else s

  abbrev pub Polled : Type 0
  Polled = Context × List KeyData × Shared G

  abbrev pub update : ℕ → Bool → Context → Shared G → Polled
  update delta pressed c s =
      let (bitmaps, (key, keys)) = update_key_status s.bitmaps c.efi_key_context pressed delta in
      (record c { efi_key_context = key }, keys, record s { bitmaps = bitmaps })

  abbrev pub poll_type : DeviceType → ℕ → Context → Shared G → Polled
  poll_type legacy delta c s =
      let pressed = is_pressed s c c.gpio in update delta pressed c (light pressed c s)
  poll_type keymatrix delta c s =
      let selected = set_pin s c.gpio_out 0 in
      let pressed = is_pressed selected c c.gpio_in in
      update delta pressed c (set_pin (light pressed c selected) c.gpio_out 1)
  poll_type _ delta c s = (c, [], s)

  -- One turn of the loop of KeypadDeviceImplGetKeys.
  unfoldable pub poll_key : ℕ → Context → Shared G → Polled
  poll_key delta c s = if not c.is_valid then (c, [], s) else poll_type c.device_type delta c s

  unfoldable pub keypad_device_impl_get_keys :
      ℕ → List Context → Shared G → List Context × List KeyData × Shared G
  keypad_device_impl_get_keys delta [] s = ([], [], s)
  keypad_device_impl_get_keys delta (c ∷ cs) s =
      let (c', keys, s') = poll_key delta c s in
      let (cs', keys', s'') = keypad_device_impl_get_keys delta cs s' in
      (c' ∷ cs', keys ++ keys', s'')

  -- The device that the driver of the console uses.
  abbrev pub impl_device : (ℕ → ℕ) → Device (List Context × Shared G)
  impl_device to_ns = record {
    reset = λ (cs, s). (keypad_device_impl_reset cs, s);
    get_keys = λ (cs, s) delta.
        let (cs', keys, s') = keypad_device_impl_get_keys delta cs s in ((cs', s'), keys);
    to_ns = to_ns;
  }
