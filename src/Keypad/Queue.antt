-- ===== src/Keypad/Queue.antt =====
-- EFI_KEY_QUEUE and its operations (HtcLeoPkg/Drivers/KeypadDxe/Keypad.h and KeypadTextIn.c).
-- An operation on `*Queue` returns the new queue.
pub mod Fifo
pub mod Refine
use lgoptimus_l3pkg.Common.{
  ℕ, ◌+◌, ◌%◌, Bool, Option, none, some, List, ◌==◌, if◌then◌else◌, get_or, set,
}
use lgoptimus_l3pkg.Keypad.Key.{KeyData, zero_key}

abbrev pub key_max_count : ℕ
key_max_count = 256

pub record KeyQueue : Type 0 where
  pub buffer : List KeyData
  pub head : ℕ
  pub tail : ℕ

unfoldable pub is_efikey_buf_empty : KeyQueue → Bool
is_efikey_buf_empty q = q.head == q.tail

-- `none` is EFI_NOT_READY; otherwise the key is what CopyMem writes to `KeyData` (if it is not NULL).
unfoldable pub pop_efikey_buf_head : KeyQueue → Option KeyData × KeyQueue
unfolding is_efikey_buf_empty
pop_efikey_buf_head q =
    if is_efikey_buf_empty q
    then (none, q)
    else (some (get_or q.buffer q.head zero_key), record q { head = (q.head + 1) % key_max_count })

-- The pop that makes room in a full queue.
abbrev pub make_room : KeyQueue → KeyQueue
unfolding pop_efikey_buf_head
make_room q = if (q.tail + 1) % key_max_count == q.head then (pop_efikey_buf_head q).1 else q

abbrev pub append_key : KeyQueue → KeyData → KeyQueue
append_key q k = record q { buffer = set q.buffer q.tail k; tail = (q.tail + 1) % key_max_count }

unfoldable pub push_efikey_buf_tail : KeyQueue → KeyData → KeyQueue
unfolding pop_efikey_buf_head
push_efikey_buf_tail q k = append_key (make_room q) k
