-- ===== src/Keypad/Device/Poll/Led.antt =====
-- The timer of the keypad's light: EnableKeypadLedWithTimer and DisableKeyPadLed, over any course of
-- polls, expiring timers, notifications and changes at the pins.
use lgoptimus_l3pkg.Common.{
  ℕ, zero, suc, ◌≡◌, ◌≢◌, refl, ◌∙◌, ◌⊎◌, inl, inr, Bool, true, false, not, ◌&&◌, List, [], ◌∷◌,
  arith, All, ◌==◌, if◌then◌else◌, Bool-cases,
}
use lgoptimus_l3pkg.Keypad.Device.{
  DeviceType, unknown, legacy, keymatrix, tlmm, pm8x41, pm8x41_pon, Context,
}
use lgoptimus_l3pkg.Keypad.Device.Poll.{
  Board, Shared, htcleo_gpio_kp_led, arm, disable_keypad_led, enable_keypad_led_with_timer, light,
  update, poll_type, poll_key, keypad_device_impl_get_keys, is_pressed, set_pin,
}

pub data Happening : Type 0 where
  -- GetKeys after that many nanoseconds; a timer that expires; a notification that runs; a change at the
  -- pins from outside.
  poll expiry notify pins : ℕ → Happening
  -- The turn for one key of the loop of GetKeys: a timer can expire between two of them.
  turn : ℕ → ℕ → Happening

-- The keys of the matrix do not select by the light's pin.
abbrev pub IsApart : Context → Type 0
IsApart c = c.gpio_out ≢ htcleo_gpio_kp_led

-- What is asked of the pins: `lit` tells whether the light is on, and `press` changes keys.
pub record LightLaws {G : Type 0} (board : Board G) (press : ℕ → G → G) (lit : G → Bool)
    : Type 0 where
  pub on : (g : G) → lit (board.gpio_set g htcleo_gpio_kp_led 1) ≡ true
  pub off : (g : G) → lit (board.gpio_set g htcleo_gpio_kp_led 0) ≡ false
  pub other : (g : G) (n v : ℕ) → n ≢ htcleo_gpio_kp_led → lit (board.gpio_set g n v) ≡ lit g
  pub same : (n : ℕ) (g : G) → lit (press n g) ≡ lit g

-- The light is on exactly while timerRunning is set, and then the timer created last, which is the one
-- in m_CallbackTimer, runs, or its notification waits.
pub record WillGoOut {G : Type 0} (lit : G → Bool) (s : Shared G) : Type 0 where
  pub shows : lit s.pins ≡ s.timer_running
  pub last : s.callback_timer ≡ s.created
  pub waits : s.timer_running ≡ true → (s.armed s.created ≡ true) ⊎ (s.pending s.created ≡ true)

-- The timer of an event expires: its notification waits from then on.
abbrev pub expire : {G : Type 0} → ℕ → Shared G → Shared G
expire event s =
    if s.armed event
    then record s { armed = arm s.armed event false; pending = arm s.pending event true }
    else s

module _ {G : Type 0} (board : Board G) (press : ℕ → G → G) where
  abbrev pub run_notification : ℕ → Shared G → Shared G
  run_notification event s =
      if s.pending event
      then disable_keypad_led board (record s { pending = arm s.pending event false })
      else s

  abbrev pub take_turn : ℕ → ℕ → List Context → Shared G → List Context × Shared G
  take_turn i delta [] s = ([], s)
  take_turn zero delta (c ∷ cs) s = let (c', keys, s') = poll_key board delta c s in (c' ∷ cs, s')
  take_turn (suc i) delta (c ∷ cs) s = let (cs', s') = take_turn i delta cs s in (c ∷ cs', s')

  unfoldable pub happen : Happening → List Context × Shared G → List Context × Shared G
  happen (poll delta) (cs, s) =
      let (cs', keys, s') = keypad_device_impl_get_keys board delta cs s in (cs', s')
  happen (turn i delta) (cs, s) = take_turn i delta cs s
  happen (expiry event) (cs, s) = (cs, expire event s)
  happen (notify event) (cs, s) = (cs, run_notification event s)
  happen (pins n) (cs, s) = (cs, record s { pins = press n s.pins })

  unfoldable pub happen_all : List Happening → List Context × Shared G → List Context × Shared G
  happen_all [] s = s
  happen_all (h ∷ hs) s = happen_all hs (happen h s)

  module _ (lit : G → Bool) (laws : LightLaws board press lit) where
    enable-WillGoOut : (s : Shared G) → WillGoOut lit (enable_keypad_led_with_timer board s)
    unfolding enable_keypad_led_with_timer
    enable-WillGoOut s = record { shows = laws.on _; last = refl; waits = λ r. inl (ground arith) }

    light-WillGoOut :
        (pressed : Bool) (c : Context) (s : Shared G)
        → WillGoOut lit s
        → WillGoOut lit (light board pressed c s)
    light-WillGoOut pressed c s o = elim (Bool-cases (pressed && not c.is_volume_key)) [
      | inl e ↦ rw e (enable-WillGoOut s)
      | inr e ↦ rw e o
    ]

    set_pin-WillGoOut :
        (s : Shared G) (n v : ℕ)
        → n ≢ htcleo_gpio_kp_led
        → WillGoOut lit s
        → WillGoOut lit (set_pin board s n v)
    set_pin-WillGoOut s n v ne o = record {
      shows = laws.other s.pins n v ne ∙ o.shows;
      last = o.last;
      waits = o.waits;
    }

    update-WillGoOut :
        (delta : ℕ) (pressed : Bool) (c : Context) (s : Shared G)
        → WillGoOut lit s
        → WillGoOut lit (update board delta pressed c s).2
    update-WillGoOut delta pressed c s o = record {
      shows = o.shows;
      last = o.last;
      waits = o.waits;
    }

    poll_type-WillGoOut :
        (t : DeviceType) (delta : ℕ) (c : Context) (s : Shared G)
        → IsApart c
        → WillGoOut lit s
        → let (c', keys, s') = poll_type board t delta c s in IsApart c' × WillGoOut lit s'
    poll_type-WillGoOut legacy delta c s ne o =
        let pressed = is_pressed board s c c.gpio in
        (ne, update-WillGoOut delta pressed c _ (light-WillGoOut pressed c s o))
    poll_type-WillGoOut keymatrix delta c s ne o =
        let s' = set_pin board s c.gpio_out 0 in
        let pressed = is_pressed board s' c c.gpio_in in
        let selected = set_pin-WillGoOut s c.gpio_out 0 ne o in
        (
          ne,
          update-WillGoOut delta pressed c _
              (set_pin-WillGoOut _ c.gpio_out 1 ne (light-WillGoOut pressed c s' selected)),
        )
    poll_type-WillGoOut unknown delta c s ne o = (ne, o)
    poll_type-WillGoOut tlmm delta c s ne o = (ne, o)
    poll_type-WillGoOut pm8x41 delta c s ne o = (ne, o)
    poll_type-WillGoOut pm8x41_pon delta c s ne o = (ne, o)

    poll_key-WillGoOut :
        (delta : ℕ) (c : Context) (s : Shared G)
        → IsApart c
        → WillGoOut lit s
        → let (c', keys, s') = poll_key board delta c s in IsApart c' × WillGoOut lit s'
    unfolding poll_key
    poll_key-WillGoOut delta c s ne o = elim (Bool-cases (not c.is_valid)) [
      | inl e ↦ rw e (ne, o)
      | inr e ↦ rw e (poll_type-WillGoOut c.device_type delta c s ne o)
    ]

    get_keys-WillGoOut :
        (delta : ℕ) (cs : List Context) (s : Shared G)
        → All IsApart cs
        → WillGoOut lit s
        → let (cs', keys, s') = keypad_device_impl_get_keys board delta cs s in
          All IsApart cs' × WillGoOut lit s'
    unfolding keypad_device_impl_get_keys
    get_keys-WillGoOut delta [] s ne o = (tt, o)
    get_keys-WillGoOut delta (c ∷ cs) s ne o =
        let (ne1, o1) = poll_key-WillGoOut delta c s ne.0 o in
        let (ne2, o2) = get_keys-WillGoOut delta cs (poll_key board delta c s).2 ne.1 o1 in
        ((ne1, ne2), o2)

    still_waits :
        (event : ℕ) (s : Shared G)
        → (s.armed s.created ≡ true) ⊎ (s.pending s.created ≡ true)
        → (arm s.armed event false s.created ≡ true) ⊎ (arm s.pending event true s.created ≡ true)
    still_waits event s w = elim (Bool-cases (s.created == event)) [
      | inl same ↦ inr (rw same refl)
      | inr other ↦ rw other w
    ]

    expire-WillGoOut : (event : ℕ) (s : Shared G) → WillGoOut lit s → WillGoOut lit (expire event s)
    expire-WillGoOut event s o = elim (Bool-cases (s.armed event)) [
      | inl e ↦
          rw e (record {
            shows = o.shows;
            last = o.last;
            waits = λ r. still_waits event s (o.waits r);
          })
      | inr e ↦ rw e o
    ]

    notification-WillGoOut :
        (event : ℕ) (s : Shared G) → WillGoOut lit s → WillGoOut lit (run_notification event s)
    unfolding disable_keypad_led
    notification-WillGoOut event s o = elim (Bool-cases (s.pending event)) [
      | inl e ↦ rw e (record {
        shows = laws.off s.pins;
        last = o.last;
        waits = λ r. absurd (ground (arith, r));
      })
      | inr e ↦ rw e o
    ]

    turn-WillGoOut :
        (i delta : ℕ) (cs : List Context) (s : Shared G)
        → All IsApart cs
        → WillGoOut lit s
        → let (cs', s') = take_turn i delta cs s in All IsApart cs' × WillGoOut lit s'
    turn-WillGoOut zero delta [] s ne o = (tt, o)
    turn-WillGoOut (suc i) delta [] s ne o = (tt, o)
    turn-WillGoOut zero delta (c ∷ cs) s ne o =
        let (ne', o') = poll_key-WillGoOut delta c s ne.0 o in ((ne', ne.1), o')
    turn-WillGoOut (suc i) delta (c ∷ cs) s ne o =
        let (ne', o') = turn-WillGoOut i delta cs s ne.1 o in ((ne.0, ne'), o')

    happen-WillGoOut :
        (h : Happening) (cs : List Context) (s : Shared G)
        → All IsApart cs
        → WillGoOut lit s
        → let (cs', s') = happen h (cs, s) in All IsApart cs' × WillGoOut lit s'
    unfolding happen
    happen-WillGoOut (poll delta) cs s ne o = get_keys-WillGoOut delta cs s ne o
    happen-WillGoOut (turn i delta) cs s ne o = turn-WillGoOut i delta cs s ne o
    happen-WillGoOut (expiry event) cs s ne o = (ne, expire-WillGoOut event s o)
    happen-WillGoOut (notify event) cs s ne o = (ne, notification-WillGoOut event s o)
    happen-WillGoOut (pins n) cs s ne o =
        (ne, record { shows = laws.same n s.pins ∙ o.shows; last = o.last; waits = o.waits })

    -- If no key of the matrix selects by the light's pin: over any course of polls, turns, expiring timers,
    -- waiting notifications and changes at the pins, the light is on exactly while timerRunning is set,
    -- and then the timer created last runs or its notification waits, so that the light is never left on.
    pub happen_all-WillGoOut :
        (hs : List Happening) (cs : List Context) (s : Shared G)
        → All IsApart cs
        → WillGoOut lit s
        → WillGoOut lit (happen_all hs (cs, s)).1
    unfolding happen_all
    happen_all-WillGoOut [] cs s ne o = o
    happen_all-WillGoOut (h ∷ hs) cs s ne o =
        let (ne', o') = happen-WillGoOut h cs s ne o in
        happen_all-WillGoOut hs (happen h (cs, s)).0 (happen h (cs, s)).1 ne' o'
