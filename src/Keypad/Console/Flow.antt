-- ===== src/Keypad/Console/Flow.antt =====
-- The way of a key from the device to a reader: KeypadReturnApiPushEfikeyBufTail, KeypadTimerHandler
-- and KeypadReadKeyStrokeWorker together.
use mathlib.Core.Path.{subst}
use lgoptimus_l3pkg.Common.{
  ℕ, ◌+◌, ◌-◌, ◌%◌, ◌^◌, ◌≡◌, refl, sym, ap, ◌∙◌, inl, inr, Bool, true, false, not, ◌&&◌, Option,
  none, some, List, [], ◌∷◌, if◌then◌else◌, Bool-cases,
}
use lgoptimus_l3pkg.Keypad.Key.{KeyData, Status, success, not_ready, is_partial}
use lgoptimus_l3pkg.Keypad.Queue.{pop_efikey_buf_head, push_efikey_buf_tail}
use lgoptimus_l3pkg.Keypad.Queue.Fifo
use lgoptimus_l3pkg.Keypad.Queue.Refine.{IsValid, contents, pop_refines, push_refines}
use lgoptimus_l3pkg.Keypad.Console.{
  Console, Device, queue_for_notify, return_api_push, return_api_pushes, keypad_timer_handler,
  read_key_stroke_worker, take_key,
}

-- A list with the reported keys pushed that are not partial, or all if partial keys are supported.
abbrev pub push_all : Bool → List KeyData → List KeyData → List KeyData
push_all partial held [] = held
push_all partial held (k ∷ ks) =
    if is_partial k && not partial
    then push_all partial held ks
    else push_all partial (Fifo.push held k) ks

abbrev pub Waiting : Console → List KeyData → Type 0
Waiting c ks = IsValid c.efi_key_queue × (contents c.efi_key_queue ≡ ks)

return_api_push-dropped :
    (c : Console) (k : KeyData)
    → (is_partial k && not c.is_support_partial_key) ≡ true
    → return_api_push c k ≡ c
unfolding return_api_push
return_api_push-dropped c k e = rw e refl

return_api_push-kept :
    (c : Console) (k : KeyData)
    → (is_partial k && not c.is_support_partial_key) ≡ false
    → return_api_push c k ≡ record c {
      efi_key_queue_for_notify = queue_for_notify c.notify_list k c.efi_key_queue_for_notify;
      efi_key_queue = push_efikey_buf_tail c.efi_key_queue k;
    }
unfolding return_api_push
return_api_push-kept c k e = rw e refl

pushes_nil : (c : Console) → return_api_pushes c [] ≡ c
unfolding return_api_pushes
pushes_nil c = refl

pushes_cons :
    (c c' : Console) (k : KeyData) (keys : List KeyData)
    → return_api_push c k ≡ c'
    → return_api_pushes c (k ∷ keys) ≡ return_api_pushes c' keys
unfolding return_api_pushes
pushes_cons c c' k keys e = ap (λ x. return_api_pushes x keys) e

return_api_pushes_lem :
    (keys ks : List KeyData) (c : Console)
    → Waiting c ks
    → let c' = return_api_pushes c keys in
      Waiting c' (push_all c.is_support_partial_key ks keys) × (c'.keypad_err ≡ c.keypad_err)
return_api_pushes_lem [] ks c w = rw (pushes_nil c) (w, refl)
return_api_pushes_lem (k ∷ keys) ks c w =
    elim (Bool-cases (is_partial k && not c.is_support_partial_key)) [
      | inl e ↦
          rw (pushes_cons c c k keys (return_api_push-dropped c k e), e)
            (return_api_pushes_lem keys ks c w)
      | inr e ↦
          let (same, v) = push_refines c.efi_key_queue k w.0 in
          rw (pushes_cons c _ k keys (return_api_push-kept c k e), e)
            (return_api_pushes_lem keys (Fifo.push ks k) _ (v, same ∙ ap (λ l. Fifo.push l k) w.1))
    ]

abbrev pub status_of : Option KeyData → Status
status_of none = not_ready
status_of (some k) = success

module _ {D : Type 0} (dev : Device D) where
  take_key_lem :
      (o : Option KeyData) (s : Console × D)
      → let r = take_key dev o s in (r.1 ≡ o) × (r.0 ≡ status_of r.1) × (r.2 ≡ s)
  take_key_lem none s = (refl, refl, refl)
  take_key_lem (some k) s = (refl, refl, refl)

  abbrev reported : ℕ → Console → D → List KeyData
  reported now c d = (dev.get_keys d (dev.to_ns ((now + 2 ^ 64 - c.last) % 2 ^ 64))).1

  abbrev polled : ℕ → Console → D → Console
  polled now c d = return_api_pushes (record c { last = now }) (reported now c d)

  timer_fine :
      (now : ℕ) (c : Console) (d : D)
      → c.keypad_err ≡ false
      → (keypad_timer_handler dev now (c, d)).0 ≡ polled now c d
  unfolding keypad_timer_handler
  timer_fine now c d fine = rw fine refl

  worker_fine :
      (now : ℕ) (c : Console) (d : D) (c' : Console)
      → (keypad_timer_handler dev now (c, d)).0 ≡ c'
      → c'.keypad_err ≡ false
      → let popped = pop_efikey_buf_head c'.efi_key_queue in
        read_key_stroke_worker dev now (c, d)
        ≡ take_key dev popped.0
            (record c' { efi_key_queue = popped.1 }, (keypad_timer_handler dev now (c, d)).1)
  unfolding read_key_stroke_worker
  worker_fine now c d c' e fine = rw (e, fine) refl

  -- A reader of a keypad without error gets the oldest of the keys that waited and of those that the
  -- device reports at this poll, partial keys left out unless they are supported; EFI_NOT_READY
  -- says that there is none, and the others wait, in a valid queue.
  pub read_key_stroke_worker_lem :
      (now : ℕ) (c : Console) (d : D)
      → c.keypad_err ≡ false
      → IsValid c.efi_key_queue
      → let delta = (now + 2 ^ 64 - c.last) % 2 ^ 64 in
        let keys = (dev.get_keys d (dev.to_ns delta)).1 in
        let all = push_all c.is_support_partial_key (contents c.efi_key_queue) keys in
        let (status, key, s) = read_key_stroke_worker dev now (c, d) in
        (key ≡ (Fifo.pop all).0) × (status ≡ status_of key) × Waiting s.0 (Fifo.pop all).1
  read_key_stroke_worker_lem now c d fine v =
      let c' = polled now c d in
      let all = push_all c.is_support_partial_key (contents c.efi_key_queue) (reported now c d) in
      let (w, ok) =
        return_api_pushes_lem (reported now c d) (contents c.efi_key_queue)
          (record c { last = now }) (v, refl) in
      let (popped, v') = pop_refines c'.efi_key_queue w.0 in
      let now_popped = popped ∙ ap Fifo.pop w.1 in
      let rest = pop_efikey_buf_head c'.efi_key_queue in
      let (key, status, s) =
        take_key_lem rest.0
          (record c' { efi_key_queue = rest.1 }, (keypad_timer_handler dev now (c, d)).1) in
      rw (worker_fine now c d c' (timer_fine now c d fine) (ok ∙ fine)) (
        key ∙ ap (λ p. p.0) now_popped,
        status,
        subst (λ (x : Console × D). Waiting x.0 (Fifo.pop all).1) (sym s)
            (v', ap (λ p. p.1) now_popped),
      )
