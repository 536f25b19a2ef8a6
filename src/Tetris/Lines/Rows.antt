-- ===== src/Tetris/Lines/Rows.antt =====
-- The row operations of `checkAndRemoveLines` on fields whose rows have ten columns.
use mathlib.Core.List.{append_assoc}
use lgoptimus_l3pkg.Common.{
  ℕ, zero, suc, ◌+◌, ◌-◌, ◌≤◌, ◌<◌, ◌≡◌, refl, sym, ap, ◌∙◌, Bool, true, false, List, [], ◌∷◌, ◌++◌,
  arith, ◌==◌, if◌then◌else◌, length, get_or, set, length-set, get_or-set_self, get_or-set_ne,
  length-append,
}
use lgoptimus_l3pkg.Tetris.Board.{Fields, row, field, set_field, redraw_field, empty_field}
use lgoptimus_l3pkg.Tetris.Lines.{line_was_full, blacken_row, copy_row}

-- A row with no empty field.
abbrev pub is_full : List ℕ → Bool
is_full [] = true
is_full (c ∷ cs) = if c == empty_field then false else is_full cs

module _ {ℓ} {A : Type ℓ} where
  get_or-append :
      (p : List A) (c : A) (s : List A) (d : A) (k : ℕ)
      → k ≡ length p
      → get_or (p ++ (c ∷ s)) k d ≡ c
  get_or-append [] c s d k e = rw e
  get_or-append (x ∷ p) c s d k e = rw e (get_or-append p c s d (length p) refl)

  set-append :
      (p : List A) (c : A) (s : List A) (v : A) (k : ℕ)
      → k ≡ length p
      → set (p ++ (c ∷ s)) k v ≡ p ++ (v ∷ s)
  set-append [] c s v k e = rw e
  set-append (x ∷ p) c s v k e = rw e (ap (λ l. x ∷ l) (set-append p c s v (length p) refl))

  set-set : (xs : List A) (i : ℕ) (v w : A) → set (set xs i v) i w ≡ set xs i w
  set-set [] i v w = refl
  set-set (x ∷ xs) zero v w = refl
  set-set (x ∷ xs) (suc i) v w = ap (λ l. x ∷ l) (set-set xs i v w)

  set-get_or : (xs : List A) (i : ℕ) (v d : A) → i < length xs → get_or xs i d ≡ v → set xs i v ≡ xs
  set-get_or [] i v d h e = refl
  set-get_or (x ∷ xs) zero v d h e = ap (λ y. y ∷ xs) (sym e)
  set-get_or (x ∷ xs) (suc i) v d h e = ap (λ l. x ∷ l) (set-get_or xs i v d (omega arith) e)

-- The scan finds the row full exactly if it has no empty field.
pub line_was_full-eq :
    (fs : Fields) (i j n : ℕ) (p s : List ℕ)
    → row fs i ≡ p ++ s
    → j ≡ length p
    → n ≡ length s
    → line_was_full fs i j n ≡ is_full s
unfolding line_was_full
line_was_full-eq fs i j zero p [] e k m = refl
line_was_full-eq fs i j zero p (c ∷ s) e k m = absurd (omega arith)
line_was_full-eq fs i j (suc n) p [] e k m = absurd (omega arith)
line_was_full-eq fs i j (suc n) p (c ∷ s) e k m =
    let here : field fs i j ≡ c = ap (λ r. get_or r j 0) e ∙ get_or-append p c s 0 j k in
    let rest =
      line_was_full-eq fs i (j + 1) n (p ++ (c ∷ [])) s (e ∙ sym (append_assoc p (c ∷ []) s))
        (omega (arith, length-append p (c ∷ []))) (omega arith) in
    rw (here, rest)

redraw_field_lem : (fs : Fields) (x y c : ℕ) → 2 ≤ y → redraw_field fs x y c ≡ set_field fs y x c
unfolding redraw_field
redraw_field_lem fs x y c h = ground arith

-- One round of the inner loop: column `k` of row `j` takes the value above it.
copy_step :
    (fs : Fields) (j k : ℕ) (p : List ℕ) (c x : ℕ) (s d : List ℕ)
    → 2 ≤ j
    → row fs (j - 1) ≡ p ++ (c ∷ s)
    → row fs j ≡ p ++ (x ∷ d)
    → k ≡ length p
    → redraw_field fs k j (field fs (j - 1) k) ≡ set fs j (p ++ (c ∷ d))
copy_step fs j k p c x s d two above here e =
    let value : field fs (j - 1) k ≡ c = ap (λ r. get_or r k 0) above ∙ get_or-append p c s 0 k e in
    redraw_field_lem fs k j (field fs (j - 1) k) two
    ∙ ap (λ v. set fs j (set (row fs j) k v)) value
    ∙ ap (λ r. set fs j (set r k c)) here
    ∙ ap (set fs j) (set-append p x d c k e)

-- Copying the row above makes the two rows equal.
pub copy_row_lem :
    (fs : Fields) (j k n : ℕ) (p s d : List ℕ)
    → 2 ≤ j
    → j < length fs
    → row fs (j - 1) ≡ p ++ s
    → row fs j ≡ p ++ d
    → k ≡ length p
    → n ≡ length s
    → n ≡ length d
    → copy_row fs j k n ≡ set fs j (p ++ s)
unfolding copy_row
copy_row_lem fs j k zero p [] [] two inside above here e m m' =
    sym (set-get_or fs j (p ++ []) [] inside here)
copy_row_lem fs j k zero p (c ∷ s) d two inside above here e m m' = absurd (omega arith)
copy_row_lem fs j k zero p [] (c ∷ d) two inside above here e m m' = absurd (omega arith)
copy_row_lem fs j k (suc n) p [] d two inside above here e m m' = absurd (omega arith)
copy_row_lem fs j k (suc n) p (c ∷ s) [] two inside above here e m m' = absurd (omega arith)
copy_row_lem fs j k (suc n) p (c ∷ s) (x ∷ d) two inside above here e m m' =
    let next = set fs j (p ++ (c ∷ d)) in
    let k' : k + 1 ≡ length (p ++ (c ∷ [])) = omega (arith, length-append p (c ∷ [])) in
    let above' : row next (j - 1) ≡ (p ++ (c ∷ [])) ++ s =
      get_or-set_ne fs j (j - 1) (p ++ (c ∷ d)) [] (omega arith)
      ∙ above
      ∙ sym (append_assoc p (c ∷ []) s) in
    let here' : row next j ≡ (p ++ (c ∷ [])) ++ d =
      get_or-set_self fs j (p ++ (c ∷ d)) [] inside ∙ sym (append_assoc p (c ∷ []) d) in
    ap (λ f. copy_row f j (k + 1) n) (copy_step fs j k p c x s d two above here e)
    ∙ copy_row_lem next j (k + 1) n (p ++ (c ∷ [])) s d two
        (rw (length-set fs j (p ++ (c ∷ d))) inside) above' here' k' (omega arith) (omega arith)
    ∙ set-set fs j (p ++ (c ∷ d)) ((p ++ (c ∷ [])) ++ s)
    ∙ ap (set fs j) (append_assoc p (c ∷ []) s)

-- Blackening a row replaces it by some row of the same length.
pub blacken_row_lem :
    (fs : Fields) (i j n : ℕ)
    → 2 ≤ i
    → i < length fs
    → (z : List ℕ) × (length z ≡ length (row fs i)) × (blacken_row fs i j n ≡ set fs i z)
unfolding blacken_row
blacken_row_lem fs i j zero two inside =
    (row fs i, refl, sym (set-get_or fs i (row fs i) [] inside refl))
blacken_row_lem fs i j (suc n) two inside =
    let z = set (row fs i) j 0 in
    let next = set fs i z in
    let (w, same, e) = blacken_row_lem next i (j + 1) n two (rw (length-set fs i z) inside) in
    (
      w,
      same ∙ ap length (get_or-set_self fs i z [] inside) ∙ length-set (row fs i) j 0,
      ap (λ f. blacken_row f i (j + 1) n) (redraw_field_lem fs j i 0 two) ∙ e ∙ set-set fs i z w,
    )
