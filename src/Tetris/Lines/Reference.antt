-- ===== src/Tetris/Lines/Reference.antt =====
-- `checkAndRemoveLines` (HtcLeoPkg/Application/TetrisApp/Board.c) against a description by lists of
-- rows.
use mathlib.Core.List.{append_assoc, append-nil}
use lgoptimus_l3pkg.Common.{
  ℕ, zero, suc, ◌+◌, ◌≤◌, ◌<◌, ◌≡◌, refl, sym, ap, ap₂, ◌∙◌, true, false, some, List, [], ◌∷◌, ◌++◌,
  arith, if◌then◌else◌, length, get_or, replicate, All, All-append, ltb, All-replicate,
  length-append, length-replicate, Bool-cases, inl, inr,
}
use lgoptimus_l3pkg.Tetris.Board.{Board, Fields, row}
use lgoptimus_l3pkg.Tetris.Lines.{lines_loop, check_and_remove_lines, with_lines, finish_lines}
use lgoptimus_l3pkg.Tetris.Lines.Rows.{is_full}
use lgoptimus_l3pkg.Tetris.Lines.Shift.{
  onto, IsRow, remove_line_lem, line_was_full_lem, get_or-onto, length-onto,
}

abbrev pub kept : Fields → Fields
kept [] = []
kept (r ∷ rs) = if is_full r then kept rs else r ∷ kept rs

abbrev pub full_lines : Fields → ℕ
full_lines [] = 0
full_lines (r ∷ rs) = if is_full r then suc (full_lines rs) else full_lines rs

replicate-append {ℓ} :
    {A : Type ℓ} (n : ℕ) (a : A) → replicate n a ++ (a ∷ []) ≡ replicate (suc n) a
replicate-append zero a = refl
replicate-append (suc n) a = ap (λ l. a ∷ l) (replicate-append n a)

module _ (a b : List ℕ) (hb : IsRow b) (open_row : is_full b ≡ false) where
  -- One round at a row that is not full, and one at a full row.
  round_kept :
      (fuel : ℕ) (up : Fields) (x : List ℕ) (t : Fields) (c : ℕ)
      → IsRow x
      → is_full x ≡ false
      → lines_loop (suc fuel) (suc (suc (length up))) (a ∷ b ∷ onto up (x ∷ t)) c
        ≡ lines_loop fuel (suc (length up)) (a ∷ b ∷ onto up (x ∷ t)) c
  unfolding lines_loop
  round_kept fuel up x t c hx e =
      let here : row (a ∷ b ∷ onto up (x ∷ t)) (suc (suc (length up))) ≡ x =
        ap (λ j. get_or (onto up (x ∷ t)) j []) (omega arith) ∙ get_or-onto up (x ∷ t) 0 [] in
      let test =
        line_was_full_lem (a ∷ b ∷ onto up (x ∷ t)) (suc (suc (length up))) x here hx ∙ e in
      let visible : ltb (suc (suc (length up))) 2 ≡ false = ground arith in
      rw (visible, test) (ap (λ i. lines_loop fuel i (a ∷ b ∷ onto up (x ∷ t)) c) (omega arith))

  round_removed :
      (fuel : ℕ) (up : Fields) (x : List ℕ) (t : Fields) (c : ℕ)
      → All IsRow up
      → IsRow x
      → is_full x ≡ true
      → lines_loop (suc fuel) (suc (suc (length up))) (a ∷ b ∷ onto up (x ∷ t)) c
        ≡ lines_loop fuel (suc (suc (length up))) (a ∷ b ∷ onto (up ++ (b ∷ [])) t) (c + 1)
  unfolding lines_loop
  round_removed fuel up x t c hu hx e =
      let here : row (a ∷ b ∷ onto up (x ∷ t)) (suc (suc (length up))) ≡ x =
        ap (λ j. get_or (onto up (x ∷ t)) j []) (omega arith) ∙ get_or-onto up (x ∷ t) 0 [] in
      let test =
        line_was_full_lem (a ∷ b ∷ onto up (x ∷ t)) (suc (suc (length up))) x here hx ∙ e in
      let visible : ltb (suc (suc (length up))) 2 ≡ false = ground arith in
      rw (visible, test)
        (ap (λ f. lines_loop fuel (suc (suc (length up))) f (c + 1))
          (remove_line_lem a b up x t hb hu hx))

  -- With nothing but copies of row 1 above, no row is removed any more.
  rounds_blank :
      (n fuel : ℕ) (t : Fields) (c : ℕ)
      → n < fuel
      → lines_loop fuel (suc n) (a ∷ b ∷ onto (replicate n b) t) c
        ≡ some (a ∷ b ∷ onto (replicate n b) t, c)
  rounds_blank n zero t c h = absurd (omega arith)
  rounds_blank zero (suc fuel) t c h = unfold lines_loop in refl
  rounds_blank (suc n) (suc fuel) t c h =
      ap (λ i. lines_loop (suc fuel) (suc (suc i)) (a ∷ b ∷ onto (replicate n b) (b ∷ t)) c)
        (sym (length-replicate n b))
      ∙ round_kept fuel (replicate n b) b t c hb open_row
      ∙ ap (λ i. lines_loop fuel (suc i) (a ∷ b ∷ onto (replicate n b) (b ∷ t)) c)
          (length-replicate n b)
      ∙ rounds_blank n fuel (b ∷ t) c (omega arith)

  -- The loop over the rows `up` that are left to examine, nearest first, above `n` copies of row 1.
  rounds :
      (up : Fields) (n fuel i : ℕ) (t : Fields) (c : ℕ)
      → All IsRow up
      → length up + n + full_lines up < fuel
      → i ≡ suc (length up + n)
      → lines_loop fuel i (a ∷ b ∷ onto (up ++ replicate n b) t) c
        ≡ some (a ∷ b ∷ onto (kept up ++ replicate (n + full_lines up) b) t, c + full_lines up)
  rounds [] n fuel i t c hu h e =
      let start : i ≡ suc n = omega arith in
      let blanks : n ≡ n + 0 = omega arith in
      let none_removed : c ≡ c + 0 = omega arith in
      ap (λ j. lines_loop fuel j (a ∷ b ∷ onto (replicate n b) t) c) start
      ∙ rounds_blank n fuel t c (omega arith)
      ∙ ap₂ (λ m k. some (a ∷ b ∷ onto (replicate m b) t, k)) blanks none_removed
  rounds (x ∷ up) n zero i t c hu h e = absurd (omega arith)
  rounds (x ∷ up) n (suc fuel) i t c hu h e =
      let above = up ++ replicate n b in
      let here : i ≡ suc (suc (length above)) =
        omega (arith, length-append up (replicate n b), length-replicate n b) in
      let start = ap (λ j. lines_loop (suc fuel) j (a ∷ b ∷ onto above (x ∷ t)) c) here in
      elim (Bool-cases (is_full x)) [
        | inl full ↦
            let h' : suc (length up) + n + suc (full_lines up) < suc fuel = rw full at h in
            let more : n + suc (full_lines up) ≡ suc n + full_lines up = omega arith in
            let counted : c + suc (full_lines up) ≡ c + 1 + full_lines up = omega arith in
            rw (full, more, counted)
              (start
                ∙ round_removed fuel above x t c
                    (All-append IsRow up (replicate n b) hu.1 (All-replicate IsRow n b hb)) hu.0
                    full
                ∙ ap (λ u. lines_loop fuel (suc (suc (length above))) (a ∷ b ∷ onto u t) (c + 1))
                    (append_assoc up (replicate n b) (b ∷ [])
                      ∙ ap (λ l. up ++ l) (replicate-append n b))
                ∙ rounds up (suc n) fuel (suc (suc (length above))) t (c + 1) hu.1 (omega arith)
                    (omega (arith, length-append up (replicate n b), length-replicate n b)))
        | inr not_full ↦
            let h' : suc (length up) + n + full_lines up < suc fuel = rw not_full at h in
            rw not_full (
              start
              ∙ round_kept fuel above x t c hu.0 not_full
              ∙ rounds up n fuel (suc (length above)) (x ∷ t) c hu.1 (omega arith)
                  (omega (arith, length-append up (replicate n b), length-replicate n b)))
      ]

-- Reversing the rows, to examine them from the bottom.
onto-onto : (xs ys zs : Fields) → onto (onto xs ys) zs ≡ onto ys (xs ++ zs)
onto-onto [] ys zs = refl
onto-onto (x ∷ xs) ys zs = onto-onto xs (x ∷ ys) zs

kept-onto : (xs ys : Fields) → kept (onto xs ys) ≡ onto (kept xs) (kept ys)
kept-onto [] ys = refl
kept-onto (x ∷ xs) ys = elim (Bool-cases (is_full x)) [
  | inl full ↦ kept-onto xs (x ∷ ys) ∙ rw full
  | inr not_full ↦ kept-onto xs (x ∷ ys) ∙ rw not_full
]

full_lines-onto : (xs ys : Fields) → full_lines (onto xs ys) ≡ full_lines xs + full_lines ys
full_lines-onto [] ys = omega arith
full_lines-onto (x ∷ xs) ys = ground (arith, full_lines-onto xs (x ∷ ys))

All-onto : (xs ys : Fields) → All IsRow xs → All IsRow ys → All IsRow (onto xs ys)
All-onto [] ys hx hy = hy
All-onto (x ∷ xs) ys hx hy = All-onto xs (x ∷ ys) hx.1 (hx.0, hy)

onto-replicate :
    (up : Fields) (n : ℕ) (b : List ℕ) (t : Fields)
    → onto (up ++ replicate n b) t ≡ replicate n b ++ onto up t
onto-replicate [] zero b t = refl
onto-replicate [] (suc n) b t = onto-replicate [] n b (b ∷ t) ∙ snoc n
  where
    snoc : (n : ℕ) → replicate n b ++ (b ∷ t) ≡ b ∷ (replicate n b ++ t)
    snoc zero = refl
    snoc (suc n) = ap (λ l. b ∷ l) (snoc n)
onto-replicate (x ∷ up) n b t = onto-replicate up n b (x ∷ t)

full_lines-le : (rows : Fields) → full_lines rows ≤ length rows
full_lines-le [] = omega arith
full_lines-le (r ∷ rows) = ground (arith, full_lines-le rows)

-- On fields of 22 rows and ten columns whose row 1 has an empty field, `checkAndRemoveLines`
-- ends within its fuel. It keeps the two invisible rows; below them come as many copies of row 1
-- as visible rows were full, then the visible rows that were not full, in their order. The number
-- of full rows is added to `lines` and, by its score, to `score`; nothing else changes.
pub check_and_remove_lines_lem :
    (brd : Board) (a b : List ℕ) (rows : Fields)
    → brd.fields ≡ a ∷ b ∷ rows
    → length rows ≡ 20
    → All IsRow (b ∷ rows)
    → is_full b ≡ false
    → check_and_remove_lines brd
      ≡ some
          (with_lines brd (a ∷ b ∷ (replicate (full_lines rows) b ++ kept rows), full_lines rows))
unfolding check_and_remove_lines
check_and_remove_lines_lem brd a b rows e len all_rows open_row =
    let up = onto rows [] in
    let before : onto (up ++ replicate 0 b) [] ≡ rows =
      onto-replicate up 0 b [] ∙ onto-onto rows [] [] ∙ append-nil rows in
    let counted : 0 + full_lines up ≡ full_lines rows = omega (arith, full_lines-onto rows []) in
    let after : onto (kept up) [] ≡ kept rows =
      ap (λ l. onto l []) (kept-onto rows [])
      ∙ onto-onto (kept rows) [] []
      ∙ append-nil (kept rows) in
    let ran =
      rounds a b all_rows.0 open_row up 0 41 21 [] 0 (All-onto rows [] all_rows.1 tt)
        (omega (arith, length-onto rows [], full_lines-le rows, full_lines-onto rows []))
        (omega (arith, length-onto rows [])) in
    let result =
      ap (λ l. lines_loop 41 21 (a ∷ b ∷ l) 0) (sym before)
      ∙ ran
      ∙ ap (λ l. some (a ∷ b ∷ l, 0 + full_lines up))
          (onto-replicate (kept up) (0 + full_lines up) b []
            ∙ ap (λ l. replicate (0 + full_lines up) b ++ l) after)
      ∙ ap (λ m. some (a ∷ b ∷ (replicate m b ++ kept rows), m)) counted in
    ap (finish_lines brd) (ap (λ f. lines_loop 41 21 f 0) e ∙ result)
