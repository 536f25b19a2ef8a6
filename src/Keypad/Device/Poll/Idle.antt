-- ===== src/Keypad/Device/Poll/Idle.antt =====
-- KeypadDeviceImplGetKeys while no key is pressed.
use lgoptimus_l3pkg.Common.{
  ℕ, ◌%◌, ◌≡◌, refl, ap₂, ◌∙◌, inl, inr, true, false, not, List, [], ◌∷◌, ◌++◌, ◌==◌, Bool-cases,
  All,
}
use lgoptimus_l3pkg.Keypad.Key.{KeyData}
use lgoptimus_l3pkg.Keypad.KeyStatus.{
  KeyContext, Bitmaps, released, dispatch_state, update_key_status,
}
use lgoptimus_l3pkg.Keypad.Device.{
  DeviceType, unknown, legacy, keymatrix, tlmm, pm8x41, pm8x41_pon, Context,
}
use lgoptimus_l3pkg.Keypad.Device.Poll.{
  Board, Shared, update, poll_type, poll_key, keypad_device_impl_get_keys, is_pressed, set_pin,
}

-- A key of an active-low pin that has been let go.
abbrev pub IsIdle : Context → Type 0
IsIdle c = (c.efi_key_context.state ≡ released) × (c.active_low ≡ true)

update_released :
    (m : Bitmaps) (k : KeyContext) (delta : ℕ)
    → k.state ≡ released
    → ((update_key_status m k false delta).1.1 ≡ [])
      × ((update_key_status m k false delta).1.0.state ≡ released)
unfolding update_key_status dispatch_state
update_released m k delta h = rw h (refl, refl)

module _ {G : Type 0} (board : Board G)
    (high : (g : G) (n : ℕ) → (board.gpio_get g n % 256 == 0) ≡ false) where
  -- The light's state, and the events, which stay as they are.
  abbrev pub SameLight : Shared G → Shared G → Type 0
  SameLight s s' =
      (s'.callback_timer ≡ s.callback_timer)
      × (s'.timer_running ≡ s.timer_running)
      × (s'.created ≡ s.created)
      × (s'.armed ≡ s.armed)

  not_pressed : (c : Context) (s : Shared G) (pin : ℕ) → IsIdle c → is_pressed board s c pin ≡ false
  not_pressed c s pin h = rw (high s.pins pin, h.1) refl

  abbrev pub IdlePoll : Shared G → Context × List KeyData × Shared G → Type 0
  IdlePoll s polled = (polled.1 ≡ []) × IsIdle polled.0 × SameLight s polled.2

  update_silent :
      (delta : ℕ) (c : Context) (s : Shared G)
      → IsIdle c
      → IdlePoll s (update board delta false c s)
  update_silent delta c s h =
      let (keys, state) = update_released s.bitmaps c.efi_key_context delta h.0 in
      (keys, (state, h.1), (refl, refl, refl, refl))

  poll_type_silent :
      (t : DeviceType) (delta : ℕ) (c : Context) (s : Shared G)
      → IsIdle c
      → IdlePoll s (poll_type board t delta c s)
  poll_type_silent legacy delta c s h = rw (not_pressed c s c.gpio h) (update_silent delta c s h)
  poll_type_silent keymatrix delta c s h =
      let selected = set_pin board s c.gpio_out 0 in
      rw (not_pressed c selected c.gpio_in h)
        (update_silent delta c (set_pin board selected c.gpio_out 1) h)
  poll_type_silent unknown delta c s h = (refl, h, (refl, refl, refl, refl))
  poll_type_silent tlmm delta c s h = (refl, h, (refl, refl, refl, refl))
  poll_type_silent pm8x41 delta c s h = (refl, h, (refl, refl, refl, refl))
  poll_type_silent pm8x41_pon delta c s h = (refl, h, (refl, refl, refl, refl))

  poll_key_silent :
      (delta : ℕ) (c : Context) (s : Shared G) → IsIdle c → IdlePoll s (poll_key board delta c s)
  unfolding poll_key
  poll_key_silent delta c s h = elim (Bool-cases (not c.is_valid)) [
    | inl e ↦ rw e (refl, h, (refl, refl, refl, refl))
    | inr e ↦ rw e (poll_type_silent c.device_type delta c s h)
  ]

  -- While every pin reads high, a poll of keys that are let go, whose pins are active low, reports
  -- no key, leaves the keys let go, and neither lights the keypad nor touches a timer.
  pub get_keys_silent :
      (delta : ℕ) (cs : List Context) (s : Shared G)
      → All IsIdle cs
      → let (cs', keys, s') = keypad_device_impl_get_keys board delta cs s in
        (keys ≡ []) × All IsIdle cs' × SameLight s s'
  unfolding keypad_device_impl_get_keys
  get_keys_silent delta [] s h = (refl, tt, (refl, refl, refl, refl))
  get_keys_silent delta (c ∷ cs) s h =
      let (none, idle, same) = poll_key_silent delta c s h.0 in
      let (none', idle', same') = get_keys_silent delta cs (poll_key board delta c s).2 h.1 in
      (
        ap₂ (λ a b. a ++ b) none none',
        (idle, idle'),
        (same'.0 ∙ same.0, same'.1 ∙ same.1, same'.2 ∙ same.2, same'.3 ∙ same.3),
      )
