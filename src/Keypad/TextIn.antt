-- ===== src/Keypad/TextIn.antt =====
-- The rest of HtcLeoPkg/Drivers/KeypadDxe/KeypadTextIn.c: reading a key, waiting for one, the toggle
-- state, and the notifications. A `none` beside a fuel argument means that the fuel ran out.
pub mod Read
pub mod Notify
pub mod Register
use Prim.Native.Nat.{bit_and, bit_or}
use lgoptimus_l3pkg.Common.{
  ℕ, zero, suc, ◌+◌, ◌-◌, ◌%◌, ◌^◌, Bool, true, false, not, ◌&&◌, ◌||◌, Option, none, some, List,
  [], ◌∷◌, ◌++◌, leb, ◌==◌, if◌then◌else◌, get_or,
}
use lgoptimus_l3pkg.Keypad.Key.{
  KeyData, zero_key, Status, success, not_ready, device_error, invalid_parameter, unsupported,
  out_of_resources, is_partial,
}
use lgoptimus_l3pkg.Keypad.Queue.{
  KeyQueue, is_efikey_buf_empty, pop_efikey_buf_head, push_efikey_buf_tail,
}
use lgoptimus_l3pkg.Keypad.Console.{
  Notification, Console, Device, is_key_registered, keypad_timer_handler, read_key_stroke_worker,
}

-- EFI_LEFT_CONTROL_PRESSED | EFI_RIGHT_CONTROL_PRESSED
abbrev control_pressed : ℕ
control_pressed = bit_or 0x8 0x4

-- The character that a control key makes of a letter; CHAR16 holds the results.
unfoldable pub translate_control : KeyData → KeyData
translate_control k =
    if not (bit_and k.shift_state control_pressed == 0)
    then if leb b'a' k.unicode_char && leb k.unicode_char b'z'
      then record k { unicode_char = k.unicode_char - b'a' + 1 }
      else if leb b'A' k.unicode_char && leb k.unicode_char b'Z'
      then record k { unicode_char = k.unicode_char - b'A' + 1 }
      else k
    else k

module _ {D : Type 0} (dev : Device D) where
  abbrev pub Outcome : Type 0
  Outcome = Status × Option KeyData × (Console × D)

  abbrev pub after_read : Option Outcome → Outcome → Option Outcome
  after_read again (success, some k, s) =
      if is_partial k then again else some (success, some (translate_control k), s)
  after_read again (status, k, s) = some (status, none, s)

  -- `while (1)` over the readings `now` of the performance counter. Only the key's scan code and
  -- character go out; the rest of the returned key data is not part of the result.
  unfoldable pub keypad_read_key_stroke : ℕ → (ℕ → ℕ) → Console × D → Option Outcome
  keypad_read_key_stroke zero now s = none
  keypad_read_key_stroke (suc fuel) now s =
      let read = read_key_stroke_worker dev (now fuel) s in
      let again = keypad_read_key_stroke fuel now read.2 in after_read again read

  -- KeypadReadKeyStrokeEx; `wanted` is false if KeyData is NULL.
  unfoldable pub keypad_read_key_stroke_ex : Bool → ℕ → Console × D → Outcome
  keypad_read_key_stroke_ex wanted now s =
      if wanted then read_key_stroke_worker dev now s else (invalid_parameter, none, s)

-- The loop of KeypadWaitForKey: it drops partial keys at the head, and the result says whether the
-- event is signalled. `buffer[head]` is read, and popped if it is partial.
unfoldable pub skip_partial : ℕ → KeyQueue → Option (Bool × KeyQueue)
skip_partial zero q = none
skip_partial (suc fuel) q =
    let rest = skip_partial fuel (pop_efikey_buf_head q).1 in
    if is_efikey_buf_empty q
    then some (false, q)
    else if is_partial (get_or q.buffer q.head zero_key)
    then rest
    else some (true, q)

abbrev pub with_queue : Console → Option (Bool × KeyQueue) → Option (Bool × Console)
with_queue c none = none
with_queue c (some (signal, q)) = some (signal, record c { efi_key_queue = q })

-- KeypadWaitForKey, which KeypadWaitForKeyEx calls: at most 255 keys wait.
unfoldable pub keypad_wait_for_key :
    {D : Type 0} → Device D → ℕ → Console × D → Option (Bool × Console) × D
keypad_wait_for_key dev now s =
    let (c, d) = keypad_timer_handler dev now s in
    (if c.keypad_err then some (false, c) else with_queue c (skip_partial 256 c.efi_key_queue), d)

abbrev has_flag : ℕ → ℕ → Bool
has_flag state flag = bit_and state flag == flag

-- EFI_TOGGLE_STATE_VALID 0x80, EFI_KEY_STATE_EXPOSED 0x40, and the locks; `none` is NULL.
unfoldable pub keypad_set_state : Option ℕ → Console → Status × Console
keypad_set_state none c = (invalid_parameter, c)
keypad_set_state (some state) c =
    if c.keypad_err
    then (device_error, c)
    else if not (has_flag state 0x80)
    then (unsupported, c)
    else (
      success,
      record c {
        scroll_lock = has_flag state 0x01;
        num_lock = has_flag state 0x02;
        caps_lock = has_flag state 0x04;
        is_support_partial_key = has_flag state 0x40;
      },
    )

-- The first registration of this function whose key data fits.
unfoldable pub find_registered : List Notification → KeyData → ℕ → Option ℕ
find_registered [] k fn = none
find_registered (n ∷ ns) k fn =
    let rest = find_registered ns k fn in
    if is_key_registered n.key_data k && n.key_notification_fn == fn then some n.handle else rest

abbrev pub add_notification : KeyData → ℕ → Option ℕ → Console → Status × Option ℕ × Console
add_notification k fn none c = (out_of_resources, none, c)
add_notification k fn (some handle) c = (
  success,
  some handle,
  record c {
    notify_list =
        c.notify_list ++ (record { key_data = k; key_notification_fn = fn; handle = handle } ∷ []);
  },
)

abbrev pub unless_found :
    Option ℕ → Status × Option ℕ × Console → Console → Status × Option ℕ × Console
unless_found none added c = added
unless_found (some handle) added c = (success, some handle, c)

-- The three pointers are not NULL; `fresh` is what AllocateZeroPool returns.
unfoldable pub keypad_register_key_notify :
    KeyData → ℕ → Option ℕ → Console → Status × Option ℕ × Console
keypad_register_key_notify k fn fresh c =
    unless_found (find_registered c.notify_list k fn) (add_notification k fn fresh c) c

-- The list without its first entry of that handle, if there is one.
unfoldable pub remove_entry : List Notification → ℕ → Option (List Notification)
remove_entry [] handle = none
remove_entry (n ∷ ns) handle =
    let rest = remove_entry ns handle in
    if n.handle == handle then some ns else elim rest [ none ↦ none | some ns' ↦ some (n ∷ ns') ]

abbrev pub with_removed : Option (List Notification) → Console → Status × Console
with_removed none c = (invalid_parameter, c)
with_removed (some ns) c = (success, record c { notify_list = ns })

-- `none` is a NULL handle.
unfoldable pub keypad_unregister_key_notify : Option ℕ → Console → Status × Console
keypad_unregister_key_notify none c = (invalid_parameter, c)
keypad_unregister_key_notify (some handle) c = with_removed (remove_entry c.notify_list handle) c

-- A call of a notification function, with its key.
abbrev pub Call : Type 0
Call = ℕ × KeyData

unfoldable pub notify_calls : List Notification → KeyData → List Call
notify_calls [] k = []
notify_calls (n ∷ ns) k =
    if is_key_registered n.key_data k
    then (n.key_notification_fn, k) ∷ notify_calls ns k
    else notify_calls ns k

abbrev pub add_calls : List Call → Option (List Call × KeyQueue) → Option (List Call × KeyQueue)
add_calls calls none = none
add_calls calls (some (more, q)) = some (calls ++ more, q)

abbrev pub process_next :
    List Notification
    → (KeyQueue → Option (List Call × KeyQueue))
    → Option KeyData × KeyQueue
    → Option (List Call × KeyQueue)
process_next ns again (none, q) = some ([], q)
process_next ns again (some k, q) = add_calls (notify_calls ns k) (again q)

-- The loop of KeyNotifyProcessHandler, with the calls that it makes, in order. The source raises the
-- task priority level only around each pop; here the loop is one step.
unfoldable pub key_notify_process : ℕ → List Notification → KeyQueue → Option (List Call × KeyQueue)
key_notify_process zero ns q = none
key_notify_process (suc fuel) ns q =
    process_next ns (λ q'. key_notify_process fuel ns q') (pop_efikey_buf_head q)
