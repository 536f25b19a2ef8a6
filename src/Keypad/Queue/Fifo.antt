-- ===== src/Keypad/Queue/Fifo.antt =====
-- What EFI_KEY_QUEUE promises: a first-in first-out list of at most 255 keys, where a push into a
-- full list forgets the oldest key.
use lgoptimus_l3pkg.Common.{ℕ, Option, none, some, List, [], ◌∷◌, ◌++◌, ◌==◌, if◌then◌else◌, length}
use lgoptimus_l3pkg.Keypad.Key.{KeyData}

abbrev pub capacity : ℕ
capacity = 255

abbrev pub drop_first : List KeyData → List KeyData
drop_first [] = []
drop_first (k ∷ ks) = ks

unfoldable pub push : List KeyData → KeyData → List KeyData
push ks k = (if length ks == capacity then drop_first ks else ks) ++ (k ∷ [])

unfoldable pub pop : List KeyData → Option KeyData × List KeyData
pop [] = (none, [])
pop (k ∷ ks) = (some k, ks)

-- A client's calls, and the keys that its pops return.
pub data Op : Type 0 where
  put : KeyData → Op
  take : Op

unfoldable pub run : List KeyData → List Op → List (Option KeyData)
run ks [] = []
run ks (put k ∷ ops) = run (push ks k) ops
run ks (take ∷ ops) = (pop ks).0 ∷ run (pop ks).1 ops
