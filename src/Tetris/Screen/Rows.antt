-- ===== src/Tetris/Screen/Rows.antt =====
-- Removing lines (`checkAndRemoveLines` of HtcLeoPkg/Application/TetrisApp/Board.c) keeps the console in
-- step with the fields.
use lgoptimus_l3pkg.Common.{
  ℕ, zero, suc, ◌+◌, ◌-◌, ◌<◌, ◌≤◌, ◌≡◌, inl, inr, some, arith, ltb, Bool-cases,
}
use mathlib.Core.Path.{subst}
use lgoptimus_l3pkg.Tetris.Board.{Fields as BoardFields, field, redraw_field}
use lgoptimus_l3pkg.Tetris.Lines.{
  line_was_full, blacken_row, copy_row, shift_rows, remove_line, lines_loop,
}
use lgoptimus_l3pkg.Tetris.Moves.Cells.{HasSize}
use lgoptimus_l3pkg.Tetris.Screen.{
  Console, put_field, put_black_row, put_copied_row, put_shifted_rows, put_removed, put_lines,
}
use lgoptimus_l3pkg.Tetris.Screen.Fields.{Shows, redraw_field-HasSize, redraw_field-Shows}

-- The fields have their size and the console shows them.
abbrev pub InStep : BoardFields → Console → Type 0
InStep fs k = HasSize fs × Shows fs k

redraw-InStep :
    (fs : BoardFields) (k : Console) (x y c : ℕ)
    → y < 22
    → x < 10
    → InStep fs k
    → InStep (redraw_field fs x y c) (put_field x y c k)
redraw-InStep fs k x y c hy hx s =
    (redraw_field-HasSize fs x y c s.0 hy, redraw_field-Shows fs k x y c s.0 hy hx s.1)

black-InStep :
    (fs : BoardFields) (k : Console) (i j n : ℕ)
    → i < 22
    → j + n ≤ 10
    → InStep fs k
    → InStep (blacken_row fs i j n) (put_black_row i j n k)
unfolding blacken_row put_black_row
black-InStep fs k i j zero hi h s = s
black-InStep fs k i j (suc n) hi h s =
    black-InStep (redraw_field fs j i 0) (put_field j i 0 k) i (j + 1) n hi (omega arith)
      (redraw-InStep fs k j i 0 hi (omega arith) s)

copy-InStep :
    (fs : BoardFields) (k : Console) (j col n : ℕ)
    → j < 22
    → col + n ≤ 10
    → InStep fs k
    → InStep (copy_row fs j col n) (put_copied_row fs j col n k)
unfolding copy_row put_copied_row
copy-InStep fs k j col zero hj h s = s
copy-InStep fs k j col (suc n) hj h s =
    let c = field fs (j - 1) col in
    copy-InStep (redraw_field fs col j c) (put_field col j c k) j (col + 1) n hj (omega arith)
      (redraw-InStep fs k col j c hj (omega arith) s)

shift-InStep :
    (fs : BoardFields) (k : Console) (j : ℕ)
    → j < 22
    → InStep fs k
    → InStep (shift_rows fs j) (put_shifted_rows fs j k)
unfolding shift_rows put_shifted_rows
shift-InStep fs k zero hj s = s
shift-InStep fs k (suc j) hj s =
    shift-InStep (copy_row fs (suc j) 0 10) (put_copied_row fs (suc j) 0 10 k) j (omega arith)
      (copy-InStep fs k (suc j) 0 10 hj (omega arith) s)

remove-InStep :
    (fs : BoardFields) (k : Console) (i : ℕ)
    → i < 22
    → InStep fs k
    → InStep (remove_line fs i) (put_removed fs i k)
unfolding remove_line put_removed
remove-InStep fs k i hi s =
    shift-InStep (blacken_row fs i 0 10) (put_black_row i 0 10 k) i hi
      (black-InStep fs k i 0 10 hi (omega arith) s)

-- Where the loop over the lines ends, the console shows its fields.
pub lines-InStep :
    (fuel i : ℕ) (fs fs' : BoardFields) (counter counter' : ℕ) (k : Console)
    → i < 22
    → InStep fs k
    → lines_loop fuel i fs counter ≡ some (fs', counter')
    → InStep fs' (put_lines fuel i fs k)
unfolding lines_loop put_lines
lines-InStep zero i fs fs' counter counter' k hi s e = cc
lines-InStep (suc fuel) i fs fs' counter counter' k hi s e = elim (Bool-cases (ltb i 2)) [
  | inl over ↦
      let same : fs ≡ fs' = ground (arith, over, e) in rw over (subst (λ f. InStep f k) same s)
  | inr below ↦ elim (Bool-cases (line_was_full fs i 0 10)) [
    | inl full ↦
        let rest : lines_loop fuel i (remove_line fs i) (counter + 1) ≡ some (fs', counter') =
          rw (below, full) at e in
        rw (below, full)
          (lines-InStep fuel i (remove_line fs i) fs' (counter + 1) counter' (put_removed fs i k) hi
            (remove-InStep fs k i hi s) rest)
    | inr part ↦
        let rest : lines_loop fuel (i - 1) fs counter ≡ some (fs', counter') =
          rw (below, part) at e in
        rw (below, part) (lines-InStep fuel (i - 1) fs fs' counter counter' k (omega arith) s rest)
  ]
]
