-- ===== src/Keypad/TextIn/Read.antt =====
-- KeypadWaitForKey: dropping the partial keys at the head of the queue.
use lgoptimus_l3pkg.Common.{
  ℕ, zero, suc, ◌<◌, ◌≡◌, refl, sym, ap, ◌∙◌, inl, inr, Bool, true, false, some, List, [], ◌∷◌,
  arith, ◌==◌, if◌then◌else◌, Bool-cases, length, get_or,
}
use lgoptimus_l3pkg.Keypad.Key.{KeyData, zero_key, is_partial}
use lgoptimus_l3pkg.Keypad.Queue.{KeyQueue, is_efikey_buf_empty, pop_efikey_buf_head}
use lgoptimus_l3pkg.Keypad.Queue.Refine.{IsValid, contents, contents-pop, contents-empty, pop_cons}
use lgoptimus_l3pkg.Keypad.TextIn.{skip_partial}

-- The keys from the first that is not partial on, and whether there are any.
abbrev pub drop_partial : List KeyData → List KeyData
drop_partial [] = []
drop_partial (k ∷ ks) = if is_partial k then drop_partial ks else k ∷ ks

abbrev pub has_keys : List KeyData → Bool
has_keys [] = false
has_keys (k ∷ ks) = true

empty_nil : (q : KeyQueue) → IsValid q → contents q ≡ [] → is_efikey_buf_empty q ≡ true
unfolding is_efikey_buf_empty
empty_nil q v e = elim (Bool-cases (q.head == q.tail)) [
  | inl h ↦ h
  | inr h ↦ absurd (omega (arith, ap length (contents-pop q v (ground (arith, h))), ap length e))
]

empty_cons :
    (q : KeyQueue) (k : KeyData) (ks : List KeyData)
    → IsValid q
    → contents q ≡ k ∷ ks
    → (is_efikey_buf_empty q ≡ false) × (get_or q.buffer q.head zero_key ≡ k)
unfolding is_efikey_buf_empty
empty_cons q k ks v e = elim (Bool-cases (q.head == q.tail)) [
  | inl h ↦ absurd (omega (arith, ap length (contents-empty q v (ground (arith, h))), ap length e))
  | inr h ↦ (h, ap (λ l. get_or l 0 zero_key) (sym (contents-pop q v (ground (arith, h))) ∙ e))
]

skip_keys :
    (fuel : ℕ) (ks : List KeyData) (q : KeyQueue)
    → IsValid q
    → contents q ≡ ks
    → length ks < fuel
    → (q' : KeyQueue) × (skip_partial fuel q ≡ some (has_keys (drop_partial ks), q'))
      × (contents q' ≡ drop_partial ks)
      × IsValid q'
unfolding skip_partial
skip_keys zero ks q v e h = absurd (omega arith)
skip_keys (suc fuel) [] q v e h = rw (empty_nil q v e) (q, refl, e, v)
skip_keys (suc fuel) (k ∷ ks) q v e h =
    let (more, first) = empty_cons q k ks v e in
    let (got, rest, v') = pop_cons q k ks v e in
    rw (more, first)
      (elim (Bool-cases (is_partial k)) [
        | inl p ↦ rw p (skip_keys fuel ks (pop_efikey_buf_head q).1 v' rest (omega arith))
        | inr p ↦ rw p (q, refl, e, v)
      ])

-- From a valid queue, with more fuel than keys, the loop of KeypadWaitForKey ends with the keys from
-- the first that is not partial on, and signals the event exactly if there is such a key.
pub skip_partial_lem :
    (fuel : ℕ) (q : KeyQueue)
    → IsValid q
    → length (contents q) < fuel
    → (q' : KeyQueue) × (skip_partial fuel q ≡ some (has_keys (drop_partial (contents q)), q'))
      × (contents q' ≡ drop_partial (contents q))
      × IsValid q'
skip_partial_lem fuel q v h = skip_keys fuel (contents q) q v refl h
