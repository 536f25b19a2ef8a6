-- ===== src/Keypad/TextIn/Notify.antt =====
-- Which functions KeyNotifyProcessHandler (HtcLeoPkg/Drivers/KeypadDxe/KeypadTextIn.c) calls.
use mathlib.Core.List.{append-nil, append_assoc}
use lgoptimus_l3pkg.Common.{
  ℕ, zero, suc, ◌+◌, ◌*◌, ◌≤◌, ◌<◌, ◌≡◌, refl, sym, ap, ◌∙◌, inl, inr, true, false, some, List, [],
  ◌∷◌, ◌++◌, arith, ◌==◌, map, if◌then◌else◌, Bool-cases, length, length-append, replicate,
  length-replicate,
}
use lgoptimus_l3pkg.Keypad.Key.{KeyData}
use lgoptimus_l3pkg.Keypad.Queue.{KeyQueue, pop_efikey_buf_head, push_efikey_buf_tail}
use lgoptimus_l3pkg.Keypad.Key.{is_partial}
use lgoptimus_l3pkg.Keypad.Queue.Fifo
use lgoptimus_l3pkg.Keypad.Queue.Refine.{IsValid, contents, push_refines, pop_nil, pop_cons}
use lgoptimus_l3pkg.Keypad.Console.{
  Notification, Console, is_key_registered, queue_for_notify, return_api_push,
}
use lgoptimus_l3pkg.Keypad.TextIn.{Call, notify_calls, add_calls, process_next, key_notify_process}

-- The registrations that fit a key, and the calls that the waiting keys stand for.
abbrev pub fits : List Notification → KeyData → List Notification
fits [] k = []
fits (n ∷ ns) k = if is_key_registered n.key_data k then n ∷ fits ns k else fits ns k

abbrev pub calls_of : List Notification → List KeyData → List Call
calls_of ns [] = []
calls_of ns (k ∷ ks) = map (λ n. (n.key_notification_fn, k)) (fits ns k) ++ calls_of ns ks

notify_calls-map :
    (ns : List Notification) (k : KeyData)
    → notify_calls ns k ≡ map (λ n. (n.key_notification_fn, k)) (fits ns k)
unfolding notify_calls
notify_calls-map [] k = refl
notify_calls-map (n ∷ ns) k = elim (Bool-cases (is_key_registered n.key_data k)) [
  | inl e ↦ rw e (ap (λ l. (n.key_notification_fn, k) ∷ l) (notify_calls-map ns k))
  | inr m ↦ rw m (notify_calls-map ns k)
]

process_keys :
    (fuel : ℕ) (ns : List Notification) (ks : List KeyData) (q : KeyQueue)
    → IsValid q
    → contents q ≡ ks
    → length ks < fuel
    → (q' : KeyQueue) × (key_notify_process fuel ns q ≡ some (calls_of ns ks, q'))
      × (contents q' ≡ [])
      × IsValid q'
unfolding key_notify_process
process_keys zero ns ks q v e h = absurd (omega arith)
process_keys (suc fuel) ns [] q v e h =
    let (none_left, empty, v') = pop_nil q v e in
    let q' = (pop_efikey_buf_head q).1 in
    (q', ap (λ o. process_next ns (λ r. key_notify_process fuel ns r) (o, q')) none_left, empty, v')
process_keys (suc fuel) ns (k ∷ ks) q v e h =
    let (got, rest, v') = pop_cons q k ks v e in
    let q' = (pop_efikey_buf_head q).1 in
    let (last, ends, empty, v'') = process_keys fuel ns ks q' v' rest (omega arith) in
    (
      last,
      ap (λ o. process_next ns (λ r. key_notify_process fuel ns r) (o, q')) got
          ∙ ap (add_calls (notify_calls ns k)) ends
          ∙ ap (λ l. some (l ++ calls_of ns ks, last)) (notify_calls-map ns k),
      empty,
      v'',
    )

-- From a valid queue, with more fuel than keys, KeyNotifyProcessHandler ends with an empty queue,
-- and has called, for each waiting key in order, each registration that fits it, in order.
pub key_notify_process_lem :
    (fuel : ℕ) (ns : List Notification) (q : KeyQueue)
    → IsValid q
    → length (contents q) < fuel
    → (q' : KeyQueue) × (key_notify_process fuel ns q ≡ some (calls_of ns (contents q), q'))
      × (contents q' ≡ [])
      × IsValid q'
key_notify_process_lem fuel ns q v h = process_keys fuel ns (contents q) q v refl h

-- How many registrations fit a key.
abbrev pub fitting : List Notification → KeyData → ℕ
fitting ns k = length (fits ns k)

length-map : (f : Notification → Call) (ns : List Notification) → length (map f ns) ≡ length ns
length-map f [] = refl
length-map f (n ∷ ns) = ap suc (length-map f ns)

queue_fitting :
    (n : Notification) (ns : List Notification) (k : KeyData) (q : KeyQueue)
    → is_key_registered n.key_data k ≡ true
    → queue_for_notify (n ∷ ns) k q ≡ queue_for_notify ns k (push_efikey_buf_tail q k)
unfolding queue_for_notify
queue_fitting n ns k q e =
    ap (λ b. queue_for_notify ns k (if b then push_efikey_buf_tail q k else q)) e

queue_other :
    (n : Notification) (ns : List Notification) (k : KeyData) (q : KeyQueue)
    → is_key_registered n.key_data k ≡ false
    → queue_for_notify (n ∷ ns) k q ≡ queue_for_notify ns k q
unfolding queue_for_notify
queue_other n ns k q e =
    ap (λ b. queue_for_notify ns k (if b then push_efikey_buf_tail q k else q)) e

queue_none : (k : KeyData) (q : KeyQueue) → queue_for_notify [] k q ≡ q
unfolding queue_for_notify
queue_none k q = refl

-- Every fitting registration puts one more copy of the key into the notification queue.
queue_for_notify_lem :
    (ns : List Notification) (k : KeyData) (q : KeyQueue)
    → IsValid q
    → length (contents q) + fitting ns k ≤ 255
    → (contents (queue_for_notify ns k q) ≡ contents q ++ replicate (fitting ns k) k)
      × IsValid (queue_for_notify ns k q)
unfolding Fifo.push
queue_for_notify_lem [] k q v h = rw (queue_none k q) (sym (append-nil (contents q)), v)
queue_for_notify_lem (n ∷ ns) k q v h = elim (Bool-cases (is_key_registered n.key_data k)) [
  | inl e ↦
      let h' : length (contents q) + suc (fitting ns k) ≤ 255 = rw e at h in
      let (same, v') = push_refines q k v in
      let room : (length (contents q) == 255) ≡ false = ground arith in
      let pushed : contents (push_efikey_buf_tail q k) ≡ contents q ++ (k ∷ []) = rw room at same in
      let (rest, v'') =
        queue_for_notify_lem ns k (push_efikey_buf_tail q k) v'
          (omega (arith, ap length pushed, length-append (contents q) (k ∷ []))) in
      rw (queue_fitting n ns k q e, e)
        (
          rest
              ∙ ap (λ l. l ++ replicate (fitting ns k) k) pushed
              ∙ append_assoc (contents q) (k ∷ []) (replicate (fitting ns k) k),
          v'',
        )
  | inr m ↦ rw (queue_other n ns k q m, m) (queue_for_notify_lem ns k q v (rw m at h))
]

length-calls_of :
    (ns : List Notification) (k : KeyData) (n : ℕ)
    → length (calls_of ns (replicate n k)) ≡ n * fitting ns k
length-calls_of ns k zero = omega arith
length-calls_of ns k (suc n) =
    let call : Notification → Call = λ m. (m.key_notification_fn, k) in
    grind (
      arith,
      length-append (map call (fits ns k)) (calls_of ns (replicate n k)),
      length-map call (fits ns k),
      length-calls_of ns k n,
    )

-- One key that is reported while no notification waits, and that fits n registrations (at most
-- 255), leads to n * n calls: each of the n functions is called n times.
pub notified_squared :
    (c : Console) (k : KeyData)
    → IsValid c.efi_key_queue_for_notify
    → contents c.efi_key_queue_for_notify ≡ []
    → is_partial k ≡ false
    → fitting c.notify_list k ≤ 255
    → let c' = return_api_push c k in
      let n = fitting c.notify_list k in
      (calls : List Call) × (q : KeyQueue) × (key_notify_process 256 c'.notify_list
          c'.efi_key_queue_for_notify
        ≡ some (calls, q))
      × (length calls ≡ n * n)
unfolding return_api_push
notified_squared c k v empty full few =
    let ns = c.notify_list in
    let (queued, v') =
      queue_for_notify_lem ns k c.efi_key_queue_for_notify v (omega (arith, ap length empty)) in
    let copies = queued ∙ ap (λ l. l ++ replicate (fitting ns k) k) empty in
    let (q, ends, rest, v'') =
      process_keys 256 ns (replicate (fitting ns k) k)
        (queue_for_notify ns k c.efi_key_queue_for_notify) v' copies
        (omega (arith, length-replicate (fitting ns k) k)) in
    (calls_of ns (replicate (fitting ns k) k), q, rw full ends, length-calls_of ns k (fitting ns k))
