-- ===== src/Keypad/TextIn/Register.antt =====
-- KeypadRegisterKeyNotify and KeypadUnregisterKeyNotify.
use lgoptimus_l3pkg.Common.{
  ℕ, ◌≡◌, ◌≢◌, refl, ap, ◌⊎◌, inl, inr, true, Option, none, some, List, [], ◌∷◌, ◌++◌, arith, All,
}
use lgoptimus_l3pkg.Keypad.Key.{KeyData, success}
use lgoptimus_l3pkg.Keypad.Console.{Notification, Console, is_key_registered}
use lgoptimus_l3pkg.Keypad.TextIn.{
  find_registered, remove_entry, keypad_register_key_notify, keypad_unregister_key_notify,
  unless_found, add_notification, with_removed,
}

is_key_registered_refl : (k : KeyData) → is_key_registered k k ≡ true
unfolding is_key_registered
is_key_registered_refl k = ground arith

find_registered-append :
    (ns : List Notification) (k : KeyData) (fn h : ℕ)
    → find_registered ns k fn ≡ none
    → find_registered
        (ns ++ (record { key_data = k; key_notification_fn = fn; handle = h } ∷ []))
        k
        fn
      ≡ some h
unfolding find_registered
find_registered-append [] k fn h e = ground (arith, is_key_registered_refl k)
find_registered-append (n ∷ ns) k fn h e = ground (arith, find_registered-append ns k fn h)

Option-cases : (o : Option ℕ) → (o ≡ none) ⊎ ((h : ℕ) × (o ≡ some h))
Option-cases none = inl refl
Option-cases (some h) = inr (h, refl)

register_new :
    (k : KeyData) (fn : ℕ) (fresh : Option ℕ) (c : Console)
    → find_registered c.notify_list k fn ≡ none
    → keypad_register_key_notify k fn fresh c ≡ add_notification k fn fresh c
unfolding keypad_register_key_notify
register_new k fn fresh c e = ap (λ o. unless_found o (add_notification k fn fresh c) c) e

register_old :
    (k : KeyData) (fn : ℕ) (fresh : Option ℕ) (c : Console) (h : ℕ)
    → find_registered c.notify_list k fn ≡ some h
    → keypad_register_key_notify k fn fresh c ≡ (success, some h, c)
unfolding keypad_register_key_notify
register_old k fn fresh c h e = ap (λ o. unless_found o (add_notification k fn fresh c) c) e

after_new :
    (k : KeyData) (fn h : ℕ) (fresh : Option ℕ) (c : Console)
    → find_registered c.notify_list k fn ≡ none
    → let once = keypad_register_key_notify k fn (some h) c in
      keypad_register_key_notify k fn fresh once.2 ≡ (success, once.1, once.2)
after_new k fn h fresh c e = rw (register_new k fn (some h) c e) (
    register_old k fn fresh (add_notification k fn (some h) c).2 h
      (find_registered-append c.notify_list k fn h e))

after_old :
    (k : KeyData) (fn h : ℕ) (fresh : Option ℕ) (c : Console) (h' : ℕ)
    → find_registered c.notify_list k fn ≡ some h'
    → let once = keypad_register_key_notify k fn (some h) c in
      keypad_register_key_notify k fn fresh once.2 ≡ (success, once.1, once.2)
after_old k fn h fresh c h' e =
    rw (register_old k fn (some h) c h' e) (register_old k fn fresh c h' e)

-- Registering a function for a key twice is registering it once: the second call succeeds, returns
-- the handle of the first and leaves the console, whatever its allocation would return.
pub register_idempotent :
    (k : KeyData) (fn h : ℕ) (fresh : Option ℕ) (c : Console)
    → let once = keypad_register_key_notify k fn (some h) c in
      keypad_register_key_notify k fn fresh once.2 ≡ (success, once.1, once.2)
register_idempotent k fn h fresh c = elim (Option-cases (find_registered c.notify_list k fn)) [
  | inl e ↦ after_new k fn h fresh c e
  | inr (h', e) ↦ after_old k fn h fresh c h' e
]

abbrev pub NotHandle : ℕ → Notification → Type 0
NotHandle h n = n.handle ≢ h

remove_entry-append :
    (ns : List Notification) (n : Notification)
    → All (NotHandle n.handle) ns
    → remove_entry (ns ++ (n ∷ [])) n.handle ≡ some ns
unfolding remove_entry
remove_entry-append [] n h = ground arith
remove_entry-append (m ∷ ns) n h = ground (arith, remove_entry-append ns n, h.0)

-- Unregistering the handle that a new registration returned, which no other registration has,
-- gives the console back.
pub unregister-register :
    (k : KeyData) (fn h : ℕ) (c : Console)
    → find_registered c.notify_list k fn ≡ none
    → All (NotHandle h) c.notify_list
    → keypad_unregister_key_notify (some h) (keypad_register_key_notify k fn (some h) c).2
      ≡ (success, c)
unfolding keypad_unregister_key_notify
unregister-register k fn h c new apart = rw (register_new k fn (some h) c new) (
    ap (λ o. with_removed o (add_notification k fn (some h) c).2)
      (remove_entry-append c.notify_list _ apart))
