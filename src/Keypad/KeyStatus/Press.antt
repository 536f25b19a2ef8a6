-- ===== src/Keypad/KeyStatus/Press.antt =====
-- A short press of a key, and the way back to the released state.
use lgoptimus_l3pkg.Common.{ℕ, ◌+◌, ◌<◌, ◌≡◌, refl, true, false, List, [], ◌∷◌, arith}
use lgoptimus_l3pkg.Keypad.Key.{KeyData}
use lgoptimus_l3pkg.Keypad.KeyStatus.{
  released, pressed, KeyContext, Bitmaps, update_key_status, hold,
}

abbrev pub total : List ℕ → ℕ
total [] = 0
total (d ∷ ds) = d + total ds

-- A key that has been down for `time`, without a report so far.
record IsDown (k : KeyData) (c : KeyContext) : Type 0 where
  same_key : c.key_data ≡ k
  down : c.state ≡ pressed
  quiet : c.longpress ≡ false
  no_repeat : c.repeat ≡ false

held_short_once :
    (m : Bitmaps) (k : KeyData) (c : KeyContext) (d : ℕ)
    → IsDown k c
    → c.time + d < 500000000
    → let r = update_key_status m c true d in
      (r.1.1 ≡ []) × (r.1.0.time ≡ c.time + d) × IsDown k r.1.0
unfolding update_key_status
held_short_once m k c d h short = ground arith

held_short :
    (m : Bitmaps) (k : KeyData) (c : KeyContext) (ds : List ℕ)
    → IsDown k c
    → c.time + total ds < 500000000
    → ((hold m c ds).1.1 ≡ []) × IsDown k (hold m c ds).1.0
unfolding hold
held_short m k c [] h short = (refl, h)
held_short m k c (d ∷ ds) h short =
    let (none_now, t, h') = held_short_once m k c d h (omega arith) in
    let next = update_key_status m c true d in
    rw none_now (held_short next.0 k next.1.0 ds h' (omega arith))

press_once :
    (m : Bitmaps) (c : KeyContext) (d : ℕ)
    → c.state ≡ released
    → c.longpress ≡ false
    → c.repeat ≡ false
    → let r = update_key_status m c true d in
      (r.1.1 ≡ []) × (r.1.0.time ≡ 0) × IsDown c.key_data r.1.0
unfolding update_key_status
press_once m c d s l n = ground arith

release_once :
    (m : Bitmaps) (k : KeyData) (c : KeyContext) (d : ℕ)
    → IsDown k c
    → (update_key_status m c false d).1.1 ≡ k ∷ []
unfolding update_key_status
release_once m k c d h = ground arith

-- A key that was released, is then seen pressed at any polls within less than 500 ms of the first,
-- and is then seen released, has been reported once, at the release.
pub short_press :
    (m m' : Bitmaps) (c : KeyContext) (d : ℕ) (ds : List ℕ) (d' : ℕ)
    → c.state ≡ released
    → c.longpress ≡ false
    → c.repeat ≡ false
    → total ds < 500000000
    → ((hold m c (d ∷ ds)).1.1 ≡ [])
      × ((update_key_status m' (hold m c (d ∷ ds)).1.0 false d').1.1 ≡ c.key_data ∷ [])
unfolding hold
short_press m m' c d ds d' s l r short =
    let (none_now, t, h) = press_once m c d s l r in
    let next = update_key_status m c true d in
    let (none_then, h') = held_short next.0 c.key_data next.1.0 ds h (omega arith) in
    (rw (none_now, none_then), release_once m' c.key_data _ d' h')
