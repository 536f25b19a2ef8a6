-- ===== src/Keypad/KeyStatus/Repeat.antt =====
-- Held keys in LibKeyUpdateKeyStatus (HtcLeoPkg/Include/Library/KeypadDeviceHelperLib.h).
use lgoptimus_l3pkg.Common.{ℕ, ◌<◌, ◌≡◌, ◌≢◌, refl, sym, true, false, List, [], ◌∷◌, arith}
use mathlib.Core.Path.{subst}
use lgoptimus_l3pkg.Keypad.Key.{KeyData}
use lgoptimus_l3pkg.Keypad.KeyStatus.{KeyContext, Bitmaps, update_key_status, hold}

-- A key that is a character, without scan code, and not the carriage return.
pub record IsPlainChar (k : KeyData) : Type 0 where
  pub no_scan : k.scan_code ≡ 0
  pub char : 0 < k.unicode_char
  pub in_map : k.unicode_char < 0x7f
  pub not_return : k.unicode_char ≢ 13

-- What stays true while such a key is held.
record IsHeld (k : KeyData) (c : KeyContext) : Type 0 where
  same_key : c.key_data ≡ k
  no_repeat : c.repeat ≡ false

-- One poll: the key's own bit is taken for that of the carriage return, so it does not repeat.
held_once :
    (m : Bitmaps) (c : KeyContext) (delta : ℕ)
    → IsPlainChar c.key_data
    → c.repeat ≡ false
    → let r = update_key_status m c true delta in
      (r.1.1 ≡ []) × (r.1.0.repeat ≡ false) × (r.1.0.key_data ≡ c.key_data)
unfolding update_key_status
held_once m c delta p r = ground arith

-- A plain character key that is held reports nothing, at whatever polls: it never starts to repeat.
pub held_char_silent :
    (m : Bitmaps) (c : KeyContext) (deltas : List ℕ)
    → IsPlainChar c.key_data
    → c.repeat ≡ false
    → (hold m c deltas).1.1 ≡ []
unfolding hold
held_char_silent m c [] p r = refl
held_char_silent m c (d ∷ ds) p r =
    let (none_now, r', k') = held_once m c d p r in
    let next = update_key_status m c true d in
    rw (none_now) (held_char_silent next.0 next.1.0 ds (subst IsPlainChar (sym k') p) r')
