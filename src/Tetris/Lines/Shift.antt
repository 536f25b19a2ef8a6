-- ===== src/Tetris/Lines/Shift.antt =====
-- Removing a row of the fields moves the rows above it down (`checkAndRemoveLines`).
use lgoptimus_l3pkg.Common.{
  ℕ, zero, suc, ◌+◌, ◌-◌, ◌≤◌, ◌<◌, ◌≡◌, refl, sym, ap, ◌∙◌, List, [], ◌∷◌, ◌++◌, arith, length,
  get_or, set, All,
}
use lgoptimus_l3pkg.Tetris.Board.{Fields, row, redraw_field}
use lgoptimus_l3pkg.Tetris.Lines.{line_was_full, copy_row, shift_rows, remove_line}
use lgoptimus_l3pkg.Tetris.Lines.Rows.{is_full, copy_row_lem, blacken_row_lem, line_was_full-eq}

-- The rows above the examined one are kept nearest first: `onto up below` puts them back.
abbrev pub onto {ℓ} : {A : Type ℓ} → List A → List A → List A
onto [] below = below
onto (x ∷ up) below = onto up (x ∷ below)

module _ {ℓ} {A : Type ℓ} where
  pub get_or-onto :
      (up t : List A) (k : ℕ) (d : A) → get_or (onto up t) (length up + k) d ≡ get_or t k d
  get_or-onto [] t k d = ap (λ i. get_or t i d) (omega arith)
  get_or-onto (x ∷ up) t k d =
      ap (λ i. get_or (onto up (x ∷ t)) i d) (omega arith) ∙ get_or-onto up (x ∷ t) (suc k) d

  set-onto :
      (up t : List A) (k : ℕ) (v : A) → set (onto up t) (length up + k) v ≡ onto up (set t k v)
  set-onto [] t k v = ap (λ i. set t i v) (omega arith)
  set-onto (x ∷ up) t k v =
      ap (λ i. set (onto up (x ∷ t)) i v) (omega arith) ∙ set-onto up (x ∷ t) (suc k) v

  pub length-onto : (up t : List A) → length (onto up t) ≡ length up + length t
  length-onto [] t = omega arith
  length-onto (x ∷ up) t = omega (arith, length-onto up (x ∷ t))

  onto-append : (up t : List A) (b : A) → onto (up ++ (b ∷ [])) t ≡ b ∷ onto up t
  onto-append [] t b = refl
  onto-append (x ∷ up) t b = onto-append up (x ∷ t) b

abbrev pub IsRow : List ℕ → Type 0
IsRow r = length r ≡ 10

copy_whole_row :
    (fs : Fields) (j : ℕ) (s d : List ℕ)
    → 2 ≤ j
    → j < length fs
    → row fs (j - 1) ≡ s
    → row fs j ≡ d
    → IsRow s
    → IsRow d
    → copy_row fs j 0 10 ≡ set fs j s
copy_whole_row fs j s d two inside above here hs hd =
    copy_row_lem fs j 0 10 [] s d two inside above here refl (sym hs) (sym hd)

-- The invisible rows are not redrawn.
copy_row_invisible : (fs : Fields) (k n : ℕ) → copy_row fs 1 k n ≡ fs
unfolding copy_row redraw_field
copy_row_invisible fs k zero = refl
copy_row_invisible fs k (suc n) = copy_row_invisible fs (k + 1) n

-- Shifting down to the examined row drops that row and repeats row 1 below itself.
shift_rows_lem :
    (a b : List ℕ) (up : Fields) (x : List ℕ) (t : Fields)
    → IsRow b
    → All IsRow up
    → IsRow x
    → shift_rows (a ∷ b ∷ onto up (x ∷ t)) (suc (suc (length up))) ≡ a ∷ b ∷ b ∷ onto up t
unfolding shift_rows
shift_rows_lem a b [] x t hb hu hx =
    ap (λ f. copy_row f 1 0 10)
      (copy_whole_row (a ∷ b ∷ x ∷ t) 2 b x (omega arith) (omega arith) refl refl hb hx)
    ∙ copy_row_invisible (a ∷ b ∷ b ∷ t) 0 10
shift_rows_lem a b (y ∷ up) x t hb hu hx =
    let fs = a ∷ b ∷ onto up (y ∷ x ∷ t) in
    let above : row fs (suc (suc (length up))) ≡ y =
      ap (λ i. get_or (onto up (y ∷ x ∷ t)) i []) (omega arith) ∙ get_or-onto up (y ∷ x ∷ t) 0 [] in
    let here : row fs (suc (suc (suc (length up)))) ≡ x =
      ap (λ i. get_or (onto up (y ∷ x ∷ t)) i []) (omega arith) ∙ get_or-onto up (y ∷ x ∷ t) 1 [] in
    let written : set fs (suc (suc (suc (length up)))) y ≡ a ∷ b ∷ onto up (y ∷ y ∷ t) =
      ap (λ l. a ∷ b ∷ l)
        (ap (λ i. set (onto up (y ∷ x ∷ t)) i y) (omega arith) ∙ set-onto up (y ∷ x ∷ t) 1 y) in
    ap (λ f. shift_rows f (suc (suc (length up))))
      (copy_whole_row fs (suc (suc (suc (length up)))) y x (omega arith)
          (omega (arith, length-onto up (y ∷ x ∷ t)))
          (ap (row fs) {y = suc (suc (length up))} (omega arith) ∙ above) here hu.0 hx
        ∙ written)
    ∙ shift_rows_lem a b up y (y ∷ t) hb hu.1 hu.0

-- Removing a row drops it and repeats row 1 at the top of the visible rows.
pub remove_line_lem :
    (a b : List ℕ) (up : Fields) (x : List ℕ) (t : Fields)
    → IsRow b
    → All IsRow up
    → IsRow x
    → remove_line (a ∷ b ∷ onto up (x ∷ t)) (suc (suc (length up)))
      ≡ a ∷ b ∷ onto (up ++ (b ∷ [])) t
unfolding remove_line
remove_line_lem a b up x t hb hu hx =
    let fs = a ∷ b ∷ onto up (x ∷ t) in
    let i = suc (suc (length up)) in
    let here : row fs i ≡ x =
      ap (λ j. get_or (onto up (x ∷ t)) j []) (omega arith) ∙ get_or-onto up (x ∷ t) 0 [] in
    let (z, same, e) =
      blacken_row_lem fs i 0 10 (omega arith) (omega (arith, length-onto up (x ∷ t))) in
    let written : set fs i z ≡ a ∷ b ∷ onto up (z ∷ t) =
      ap (λ l. a ∷ b ∷ l)
        (ap (λ j. set (onto up (x ∷ t)) j z) (omega arith) ∙ set-onto up (x ∷ t) 0 z) in
    ap (λ f. shift_rows f i) (e ∙ written)
    ∙ shift_rows_lem a b up z t hb hu (same ∙ ap length here ∙ hx)
    ∙ ap (λ l. a ∷ b ∷ l) (sym (onto-append up t b))

-- The scan of a whole row.
pub line_was_full_lem :
    (fs : Fields) (i : ℕ) (r : List ℕ)
    → row fs i ≡ r
    → IsRow r
    → line_was_full fs i 0 10 ≡ is_full r
line_was_full_lem fs i r e h = line_was_full-eq fs i 0 10 [] r e refl (sym h)
