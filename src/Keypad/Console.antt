-- ===== src/Keypad/Console.antt =====
-- KEYPAD_CONSOLE_IN_DEV and the functions of HtcLeoPkg/Drivers/KeypadDxe that work on it (Keypad.c,
-- KeypadController.c and KeypadTextIn.c). RaiseTPL and RestoreTPL make each of them atomic, and are
-- not modelled. A notification function and a NotifyHandle are numbers.
pub mod Flow
use lgoptimus_l3pkg.Common.{
  ℕ, ◌+◌, ◌-◌, ◌%◌, ◌^◌, Bool, true, false, not, ◌&&◌, ◌||◌, Option, none, some, List, [], ◌∷◌,
  ◌==◌, if◌then◌else◌,
}
use lgoptimus_l3pkg.Keypad.Key.{KeyData, Status, success, not_ready, device_error, is_partial}
use lgoptimus_l3pkg.Keypad.Queue.{KeyQueue, pop_efikey_buf_head, push_efikey_buf_tail}

-- KEYPAD_CONSOLE_IN_EX_NOTIFY; its address is `handle`.
pub record Notification : Type 0 where
  pub key_data : KeyData
  pub key_notification_fn : ℕ
  pub handle : ℕ

pub record Console : Type 0 where
  pub last : ℕ
  pub left_ctrl : Bool
  pub right_ctrl : Bool
  pub left_alt : Bool
  pub right_alt : Bool
  pub left_shift : Bool
  pub right_shift : Bool
  pub left_logo : Bool
  pub right_logo : Bool
  pub menu : Bool
  pub sys_req : Bool
  pub caps_lock : Bool
  pub num_lock : Bool
  pub scroll_lock : Bool
  pub is_support_partial_key : Bool
  pub efi_key_queue : KeyQueue
  pub efi_key_queue_for_notify : KeyQueue
  pub keypad_err : Bool
  pub notify_list : List Notification

unfoldable pub keypad_error : Console → Console
keypad_error c = record c { keypad_err = true }

unfoldable pub is_key_registered : KeyData → KeyData → Bool
is_key_registered registered input =
    if not (registered.scan_code == input.scan_code)
      || not (registered.unicode_char == input.unicode_char)
    then false
    else if not (registered.shift_state == 0) && not (registered.shift_state == input.shift_state)
    then false
    else if not (registered.toggle_state == 0)
        && not (registered.toggle_state == input.toggle_state)
    then false
    else true

-- One push to the notification queue for each registration that fits.
unfoldable pub queue_for_notify : List Notification → KeyData → KeyQueue → KeyQueue
queue_for_notify [] k q = q
queue_for_notify (n ∷ ns) k q =
    queue_for_notify ns k (if is_key_registered n.key_data k then push_efikey_buf_tail q k else q)

-- KeypadReturnApiPushEfikeyBufTail, which the keypad device calls for each key that it reports.
unfoldable pub return_api_push : Console → KeyData → Console
return_api_push c k = if is_partial k && not c.is_support_partial_key then c else record c {
  efi_key_queue_for_notify = queue_for_notify c.notify_list k c.efi_key_queue_for_notify;
  efi_key_queue = push_efikey_buf_tail c.efi_key_queue k;
}

unfoldable pub return_api_pushes : Console → List KeyData → Console
return_api_pushes c [] = c
return_api_pushes c (k ∷ ks) = return_api_pushes (return_api_push c k) ks

-- The keypad device as its driver sees it: a state, what Reset makes of it, and GetKeys, which
-- takes the time since the last poll and reports keys. `to_ns` is GetTimeInNanoSecond.
pub record Device (D : Type 0) : Type 0 where
  pub reset : D → D
  pub get_keys : D → ℕ → D × List KeyData
  pub to_ns : ℕ → ℕ

module _ {D : Type 0} (dev : Device D) where
  -- `now` is what GetPerformanceCounter returns.
  unfoldable pub keypad_timer_handler : ℕ → Console × D → Console × D
  keypad_timer_handler now (c, d) =
      if c.keypad_err
      then (c, d)
      else let delta = (now + 2 ^ 64 - c.last) % 2 ^ 64 in
        let polled = dev.get_keys d (dev.to_ns delta) in
        (return_api_pushes (record c { last = now }) polled.1, polled.0)

  unfoldable pub init_keypad : Console × D → Status × (Console × D)
  init_keypad (c, d) = (
    success,
    (
      record c {
        efi_key_queue = record (c.efi_key_queue) { head = 0; tail = 0 };
        efi_key_queue_for_notify = record (c.efi_key_queue_for_notify) { head = 0; tail = 0 };
        caps_lock = false;
        num_lock = false;
        scroll_lock = false;
        left_ctrl = false;
        right_ctrl = false;
        left_alt = false;
        right_alt = false;
        left_shift = false;
        right_shift = false;
        left_logo = false;
        right_logo = false;
        menu = false;
        sys_req = false;
        is_support_partial_key = false;
      },
      dev.reset d,
    ),
  )

  -- KeypadEfiReset, and KeypadEfiResetEx, which calls it.
  unfoldable pub keypad_efi_reset : Console × D → Status × (Console × D)
  unfolding init_keypad
  keypad_efi_reset (c, d) =
      if c.keypad_err
      then (device_error, (c, d))
      else let done = init_keypad (c, d) in
        elim done.0 [ success ↦ (success, done.1) | _ ↦ (device_error, done.1) ]

  -- The key that comes beside EFI_SUCCESS; with another status `KeyData` is not written.
  abbrev pub take_key : Option KeyData → Console × D → Status × Option KeyData × (Console × D)
  take_key none s = (not_ready, none, s)
  take_key (some k) s = (success, some k, s)

  unfoldable pub read_key_stroke_worker : ℕ → Console × D → Status × Option KeyData × (Console × D)
  read_key_stroke_worker now s =
      let (c, d) = keypad_timer_handler now s in
      if c.keypad_err
      then (device_error, none, (c, d))
      else let popped = pop_efikey_buf_head c.efi_key_queue in
        take_key popped.0 (record c { efi_key_queue = popped.1 }, d)
