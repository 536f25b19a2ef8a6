-- ===== src/Tests/Keys.antt =====
-- The keypad, at concrete inputs.
use lgoptimus_l3pkg.Common.{ℕ, ◌*◌, ◌≡◌, refl, false, some, List, [], ◌∷◌, arith, length, replicate}
use lgoptimus_l3pkg.Keypad.Key.{KeyData, zero_key}
use lgoptimus_l3pkg.Keypad.Queue.{KeyQueue}
use lgoptimus_l3pkg.Keypad.Queue.Fifo
use lgoptimus_l3pkg.Keypad.Queue.Fifo.{Op, put, take}
use lgoptimus_l3pkg.Keypad.Queue.Refine.{IsValid, contents, run, run_refines}
use lgoptimus_l3pkg.Keypad.KeyStatus.{
  KeyContext, Bitmaps, initialize_key_context, update_key_status, hold,
}
use lgoptimus_l3pkg.Keypad.KeyStatus.Repeat.{IsPlainChar, held_char_silent}
use lgoptimus_l3pkg.Keypad.KeyStatus.Press.{short_press}
use lgoptimus_l3pkg.Keypad.Console.{Notification, Console, is_key_registered, return_api_push}
use lgoptimus_l3pkg.Keypad.Console.{Device, read_key_stroke_worker}
use lgoptimus_l3pkg.Keypad.Console.Flow.{Waiting, push_all, status_of, read_key_stroke_worker_lem}
use lgoptimus_l3pkg.Keypad.TextIn.{Call, key_notify_process, skip_partial}
use lgoptimus_l3pkg.Keypad.TextIn.Notify.{
  calls_of, fitting, key_notify_process_lem, notified_squared,
}
use lgoptimus_l3pkg.Keypad.TextIn.Read.{drop_partial, has_keys, skip_partial_lem}
use lgoptimus_l3pkg.Keypad.Device.{char_key}

abbrev queue : KeyQueue
queue = record { buffer = replicate 256 zero_key; head = 250; tail = 252 }

queue-IsValid : IsValid queue
queue-IsValid = record { storage = refl; head_in = omega arith; tail_in = omega arith }

abbrev key_a : KeyData
key_a = char_key 97

run_refines_example :
    run queue (put key_a ∷ take ∷ take ∷ take ∷ take ∷ [])
    ≡ Fifo.run (contents queue) (put key_a ∷ take ∷ take ∷ take ∷ take ∷ [])
run_refines_example = run_refines queue (put key_a ∷ take ∷ take ∷ take ∷ take ∷ []) queue-IsValid

skip_partial_lem_example :
    (q : KeyQueue) × (skip_partial 256 queue ≡ some (has_keys (drop_partial (contents queue)), q))
    × (contents q ≡ drop_partial (contents queue))
    × IsValid q
skip_partial_lem_example = skip_partial_lem 256 queue queue-IsValid (omega arith)

abbrev no_bits : Bitmaps
no_bits = record { scan_codes = λ n. false; unicode_chars = λ n. false }

abbrev tab_key : KeyContext
tab_key = record initialize_key_context { key_data = char_key 9 }

tab_key-IsPlainChar : IsPlainChar tab_key.key_data
unfolding initialize_key_context
tab_key-IsPlainChar = record {
  no_scan = refl;
  char = omega arith;
  in_map = omega arith;
  not_return = λ e. omega (arith, e);
}

held_char_silent_example : (hold no_bits tab_key (replicate 9 300000000)).1.1 ≡ []
unfolding initialize_key_context
held_char_silent_example =
    held_char_silent no_bits tab_key (replicate 9 300000000) tab_key-IsPlainChar refl

short_press_example :
    ((hold no_bits tab_key (5 ∷ 100000000 ∷ [])).1.1 ≡ [])
    × ((update_key_status no_bits (hold no_bits tab_key (5 ∷ 100000000 ∷ [])).1.0 false 7).1.1
        ≡ tab_key.key_data ∷ [])
unfolding initialize_key_context
short_press_example =
    short_press no_bits no_bits tab_key 5 (100000000 ∷ []) 7 refl refl refl (omega arith)

abbrev waiting_for_a : Notification
waiting_for_a = record { key_data = key_a; key_notification_fn = 11; handle = 1 }

abbrev empty_queue : KeyQueue
empty_queue = record { buffer = replicate 256 zero_key; head = 0; tail = 0 }

empty_queue-IsValid : IsValid empty_queue
empty_queue-IsValid = record { storage = refl; head_in = omega arith; tail_in = omega arith }

abbrev console : Console
console = record {
  last = 0;
  left_ctrl = false;
  right_ctrl = false;
  left_alt = false;
  right_alt = false;
  left_shift = false;
  right_shift = false;
  left_logo = false;
  right_logo = false;
  menu = false;
  sys_req = false;
  caps_lock = false;
  num_lock = false;
  scroll_lock = false;
  is_support_partial_key = false;
  efi_key_queue = empty_queue;
  efi_key_queue_for_notify = empty_queue;
  keypad_err = false;
  notify_list = waiting_for_a ∷ record waiting_for_a { handle = 2 } ∷ [];
}

key_notify_process_lem_example :
    (q : KeyQueue) × (key_notify_process 256 (waiting_for_a ∷ []) queue
      ≡ some (calls_of (waiting_for_a ∷ []) (contents queue), q))
    × (contents q ≡ [])
    × IsValid q
key_notify_process_lem_example =
    key_notify_process_lem 256 (waiting_for_a ∷ []) queue queue-IsValid (omega arith)

notified_squared_example :
    let c = return_api_push console key_a in
    let n = fitting console.notify_list key_a in
    (calls : List Call) × (q : KeyQueue) × (key_notify_process 256 c.notify_list
        c.efi_key_queue_for_notify
      ≡ some (calls, q))
    × (length calls ≡ n * n)
unfolding is_key_registered
notified_squared_example =
    notified_squared console key_a empty_queue-IsValid refl refl (omega arith)

-- A device that reports the letter a and a partial key at every poll.
abbrev typist : Device ℕ
typist = record { reset = λ d. d; get_keys = λ d t. (d, key_a ∷ zero_key ∷ []); to_ns = λ t. t }

read_key_stroke_worker_lem_example :
    let all = push_all false (contents empty_queue) (key_a ∷ zero_key ∷ []) in
    let (status, key, s) = read_key_stroke_worker typist 8 (console, 0) in
    (key ≡ (Fifo.pop all).0) × (status ≡ status_of key) × Waiting s.0 (Fifo.pop all).1
read_key_stroke_worker_lem_example =
    read_key_stroke_worker_lem typist 8 console 0 refl empty_queue-IsValid
