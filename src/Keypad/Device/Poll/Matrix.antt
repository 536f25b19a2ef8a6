-- ===== src/Keypad/Device/Poll/Matrix.antt =====
-- KeypadDeviceImplGetKeys (HtcLeoPkg/Library/KeypadDeviceImplLib/KeypadDeviceImplLib.c) on the phone's
-- matrix: three lines that it pulls low one after another, inputs that a pressed key connects to its line,
-- and pins of their own for other keys. Keys are wired so that one does not show on another's line.
use mathlib.Core.Path.{subst}
use lgoptimus_l3pkg.Common.{
  ℕ, ◌≡◌, refl, sym, ap, ap₂, ◌∙◌, ◌⊎◌, inl, inr, Bool, true, false, not, ◌&&◌, ◌||◌, List, [], ◌∷◌,
  ◌++◌, arith, All, ◌==◌, if◌then◌else◌, Bool-cases,
}
use lgoptimus_l3pkg.Keypad.Key.{KeyData}
use lgoptimus_l3pkg.Keypad.KeyStatus.{Bitmaps, update_key_status}
use lgoptimus_l3pkg.Keypad.Device.{
  Context, DeviceType, legacy, keymatrix, key_list, keypad_device_impl_constructor,
  keypad_device_impl_reset, key_code_to_key_context,
}
use lgoptimus_l3pkg.Keypad.Device.Poll.{
  Board, Shared, enable_keypad_led_with_timer, set_pin, is_pressed, light, update, poll_type,
  poll_key, keypad_device_impl_get_keys,
}

abbrev pub Levels : Type 0
Levels = ℕ → ℕ

-- The lines of the matrix that the keys of the phone use.
abbrev pub IsLine : ℕ → Type 0
IsLine n = (n ≡ 31) ⊎ ((n ≡ 32) ⊎ (n ≡ 33))

-- No line is pulled low.
abbrev pub IsHigh : Levels → Type 0
IsHigh g = (g 31 ≡ 1) × ((g 32 ≡ 1) × (g 33 ≡ 1))

-- `down` tells the pressed keys of the matrix by line and input, and `direct` the pins of other keys.
module _ (down : ℕ → ℕ → Bool) (direct : ℕ → Bool) where
  abbrev pub pulled : Levels → ℕ → ℕ → Bool
  pulled g line n = g line == 0 && down line n

  abbrev pub matrix : Board Levels
  matrix = record {
    gpio_set = λ g n on m. if m == n then on else g m;
    gpio_get =
        λ g n. if direct n || (pulled g 31 n || (pulled g 32 n || pulled g 33 n)) then 0 else 1;
  }

  -- A key of the matrix with an input that is no other key's pin, or a key with a pin of its own.
  abbrev pub IsWired : Context → Type 0
  IsWired c =
      (c.is_valid ≡ true)
      × (c.active_low ≡ true)
      × ((c.device_type ≡ legacy)
          ⊎ ((c.device_type ≡ keymatrix) × (IsLine c.gpio_out × (direct c.gpio_in ≡ false))))

  abbrev pub is_down : DeviceType → Context → Bool
  is_down legacy c = direct c.gpio
  is_down _ c = down c.gpio_out c.gpio_in

  -- The keys one after another, each by itself.
  unfoldable pub scan : ℕ → List Context → Bitmaps → List Context × List KeyData × Bitmaps
  scan delta [] m = ([], [], m)
  scan delta (c ∷ cs) m =
      let (m', (key, keys)) =
        update_key_status m c.efi_key_context (is_down c.device_type c) delta in
      let (cs', keys', m'') = scan delta cs m' in
      (record c { efi_key_context = key } ∷ cs', keys ++ keys', m'')

  light_same :
      (pressed : Bool) (c : Context) (s : Shared Levels)
      → let s' = light matrix pressed c s in
        (s'.bitmaps ≡ s.bitmaps)
        × ((s'.pins 31 ≡ s.pins 31) × ((s'.pins 32 ≡ s.pins 32) × (s'.pins 33 ≡ s.pins 33)))
  unfolding enable_keypad_led_with_timer
  light_same pressed c s = elim (Bool-cases (pressed && not c.is_volume_key)) [
    | inl e ↦ rw e (elim (Bool-cases s.timer_running) [
      | inl r ↦ rw r (refl, (refl, (refl, refl)))
      | inr r ↦ rw r (refl, (refl, (refl, refl)))
    ])
    | inr e ↦ rw e (refl, (refl, (refl, refl)))
  ]

  direct_pressed :
      (c : Context) (s : Shared Levels)
      → c.active_low ≡ true
      → IsHigh s.pins
      → is_pressed matrix s c c.gpio ≡ direct c.gpio
  direct_pressed c s low high = ground (arith, low, high.0, high.1.0, high.1.1)

  -- With one line pulled low, an input shows the key of that line.
  selected_level :
      (g : Levels) (o n : ℕ)
      → IsLine o
      → direct n ≡ false
      → IsHigh g
      → matrix.gpio_get (matrix.gpio_set g o 0) n ≡ (if down o n then 0 else 1)
  selected_level g o n (inl e) apart high = rw (e, apart, high.1.0, high.1.1) (ground arith)
  selected_level g o n (inr (inl e)) apart high = rw (e, apart, high.0, high.1.1) (ground arith)
  selected_level g o n (inr (inr e)) apart high = rw (e, apart, high.0, high.1.0) refl

  selected_pressed :
      (c : Context) (s : Shared Levels)
      → c.active_low ≡ true
      → IsLine c.gpio_out
      → direct c.gpio_in ≡ false
      → IsHigh s.pins
      → is_pressed matrix (set_pin matrix s c.gpio_out 0) c c.gpio_in ≡ down c.gpio_out c.gpio_in
  selected_pressed c s low line apart high =
      let level = selected_level s.pins c.gpio_out c.gpio_in line apart high in
      rw (level, low) (ground arith)

  -- One key was updated as by itself, and all lines are high.
  abbrev IsScanned : ℕ → Bool → Context → Bitmaps → Context × List KeyData × Shared Levels → Type 0
  IsScanned delta pressed c m r =
      let (m', (key, keys)) = update_key_status m c.efi_key_context pressed delta in
      (r.0 ≡ record c { efi_key_context = key })
      × ((r.1 ≡ keys) × ((r.2.bitmaps ≡ m') × IsHigh r.2.pins))

  update-IsScanned :
      (delta : ℕ) (pressed : Bool) (c : Context) (m : Bitmaps) (s : Shared Levels)
      → s.bitmaps ≡ m
      → IsHigh s.pins
      → IsScanned delta pressed c m (update matrix delta pressed c s)
  update-IsScanned delta pressed c m s same high = rw same (refl, (refl, (refl, high)))

  raised :
      (g : Levels) (o : ℕ) (s : Shared Levels)
      → IsLine o
      → IsHigh g
      → (s.pins 31 ≡ (if 31 == o then 0 else g 31))
      → (s.pins 32 ≡ (if 32 == o then 0 else g 32))
      → (s.pins 33 ≡ (if 33 == o then 0 else g 33))
      → IsHigh (set_pin matrix s o 1).pins
  raised g o s (inl e) high a b c =
      let still2 : s.pins 32 ≡ 1 = b ∙ rw e (high.1.0) in
      let still3 : s.pins 33 ≡ 1 = c ∙ rw e (high.1.1) in rw e (refl, (still2, still3))
  raised g o s (inr (inl e)) high a b c =
      let still1 : s.pins 31 ≡ 1 = a ∙ rw e (high.0) in
      let still3 : s.pins 33 ≡ 1 = c ∙ rw e (high.1.1) in rw e (still1, (refl, still3))
  raised g o s (inr (inr e)) high a b c =
      let still1 : s.pins 31 ≡ 1 = a ∙ rw e (high.0) in
      let still2 : s.pins 32 ≡ 1 = b ∙ rw e (high.1.0) in rw e (still1, (still2, refl))

  poll_legacy-IsScanned :
      (delta : ℕ) (c : Context) (s : Shared Levels)
      → c.active_low ≡ true
      → IsHigh s.pins
      → IsScanned delta (direct c.gpio) c s.bitmaps (poll_type matrix legacy delta c s)
  poll_legacy-IsScanned delta c s low high =
      let (same, (a, (b, d))) = light_same (direct c.gpio) c s in
      rw (direct_pressed c s low high) (
        update-IsScanned delta (direct c.gpio) c s.bitmaps (light matrix (direct c.gpio) c s) same
          (a ∙ high.0, (b ∙ high.1.0, d ∙ high.1.1)))

  poll_keymatrix-IsScanned :
      (delta : ℕ) (c : Context) (s : Shared Levels)
      → c.active_low ≡ true
      → IsLine c.gpio_out
      → direct c.gpio_in ≡ false
      → IsHigh s.pins
      → IsScanned delta
          (down c.gpio_out c.gpio_in)
          c
          s.bitmaps
          (poll_type matrix keymatrix delta c s)
  poll_keymatrix-IsScanned delta c s low line apart high =
      let pressed = down c.gpio_out c.gpio_in in
      let selected = set_pin matrix s c.gpio_out 0 in
      let (same, (a, (b, d))) = light_same pressed c selected in
      rw (selected_pressed c s low line apart high) (
        update-IsScanned delta pressed c s.bitmaps
          (set_pin matrix (light matrix pressed c selected) c.gpio_out 1) same
          (raised s.pins c.gpio_out (light matrix pressed c selected) line high a b d))

  poll_type-IsScanned :
      (delta : ℕ) (c : Context) (s : Shared Levels)
      → IsWired c
      → IsHigh s.pins
      → IsScanned delta
          (is_down c.device_type c)
          c
          s.bitmaps
          (poll_type matrix c.device_type delta c s)
  poll_type-IsScanned delta c s (valid, low, inl e) high =
      subst (λ t. IsScanned delta (is_down t c) c s.bitmaps (poll_type matrix t delta c s)) (sym e)
        (poll_legacy-IsScanned delta c s low high)
  poll_type-IsScanned delta c s (valid, low, inr (e, (line, apart))) high =
      subst (λ t. IsScanned delta (is_down t c) c s.bitmaps (poll_type matrix t delta c s)) (sym e)
        (poll_keymatrix-IsScanned delta c s low line apart high)

  poll_key-IsScanned :
      (delta : ℕ) (c : Context) (s : Shared Levels)
      → IsWired c
      → IsHigh s.pins
      → IsScanned delta (is_down c.device_type c) c s.bitmaps (poll_key matrix delta c s)
  unfolding poll_key
  poll_key-IsScanned delta c s wired high =
      let polled = poll_type matrix c.device_type delta c s in
      subst (IsScanned delta (is_down c.device_type c) c s.bitmaps)
        (sym (ap (λ v. if not v then (c, [], s) else polled) wired.0))
        (poll_type-IsScanned delta c s wired high)

  -- The keys of the phone, as the constructor and the reset set them up.
  pub phone_keys-IsWired :
      direct 41 ≡ false
      → direct 42 ≡ false
      → All IsWired (keypad_device_impl_reset (keypad_device_impl_constructor key_list))
  unfolding keypad_device_impl_constructor keypad_device_impl_reset key_code_to_key_context
  phone_keys-IsWired a b =
      let first : IsLine 31 = inl refl in
      let second : IsLine 32 = inr (inl refl) in
      let third : IsLine 33 = inr (inr refl) in
      (
        (refl, refl, inl refl),
        (
          (refl, refl, inr (refl, (third, b))),
          (
            (refl, refl, inr (refl, (third, a))),
            (
              (refl, refl, inr (refl, (first, b))),
              (
                (refl, refl, inr (refl, (second, b))),
                ((refl, refl, inr (refl, (first, a))), ((refl, refl, inr (refl, (second, a))), tt)),
              ),
            ),
          ),
        ),
      )

  -- On keys that are wired so, and with all lines high, a poll updates every key by whether it is
  -- pressed itself, whichever other keys are pressed and whether or not the light goes on in between:
  -- the keys, their reports in order and the bitmaps are those of looking at each key alone, and all
  -- lines are high again.
  pub get_keys_scans :
      (delta : ℕ) (cs : List Context) (s : Shared Levels)
      → All IsWired cs
      → IsHigh s.pins
      → let (cs', keys, s') = keypad_device_impl_get_keys matrix delta cs s in
        let (scanned, reports, bitmaps) = scan delta cs s.bitmaps in
        (cs' ≡ scanned) × (keys ≡ reports) × (s'.bitmaps ≡ bitmaps) × IsHigh s'.pins
  unfolding keypad_device_impl_get_keys scan
  get_keys_scans delta [] s wired high = (refl, refl, refl, high)
  get_keys_scans delta (c ∷ cs) s wired high =
      let polled = poll_key matrix delta c s in
      let (key, (keys, (bits, high'))) = poll_key-IsScanned delta c s wired.0 high in
      let (keys_of, keys', bits', high'') = get_keys_scans delta cs polled.2 wired.1 high' in
      (
        ap₂ (λ k ks. k ∷ ks) key (keys_of ∙ ap (λ m. (scan delta cs m).0) bits),
        ap₂ (λ a b. a ++ b) keys (keys' ∙ ap (λ m. (scan delta cs m).1) bits),
        bits' ∙ ap (λ m. (scan delta cs m).2) bits,
        high'',
      )
