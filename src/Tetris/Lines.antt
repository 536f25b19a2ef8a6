-- ===== src/Tetris/Lines.antt =====
-- `checkAndRemoveLines` (HtcLeoPkg/Application/TetrisApp/Board.c). Its outer loop re-examines a row
-- after it has removed it, so it is a recursion on fuel, and `none` means that the fuel ran out.
pub mod Rows
pub mod Shift
pub mod Reference
use lgoptimus_l3pkg.Common.{
  ℕ, zero, suc, ◌+◌, ◌-◌, ◌*◌, ◌^◌, Bool, true, false, Option, none, some, ltb, ◌==◌, if◌then◌else◌,
}
use lgoptimus_l3pkg.Tetris.Board.{
  Board, Fields, board_height, board_width, invisible_rows_count, empty_field, field, redraw_field,
}

-- The scan of row `i` from column `j` on, with `n` columns left.
unfoldable pub line_was_full : Fields → ℕ → ℕ → ℕ → Bool
line_was_full fs i j zero = true
line_was_full fs i j (suc n) =
    let rest = line_was_full fs i (j + 1) n in if field fs i j == empty_field then false else rest

unfoldable pub blacken_row : Fields → ℕ → ℕ → ℕ → Fields
blacken_row fs i j zero = fs
blacken_row fs i j (suc n) = blacken_row (redraw_field fs j i empty_field) i (j + 1) n

-- The inner loop over `k`: row `j` becomes the row above it.
unfoldable pub copy_row : Fields → ℕ → ℕ → ℕ → Fields
copy_row fs j k zero = fs
copy_row fs j k (suc n) = copy_row (redraw_field fs k j (field fs (j - 1) k)) j (k + 1) n

unfoldable pub shift_rows : Fields → ℕ → Fields
shift_rows fs zero = fs
shift_rows fs (suc j) = shift_rows (copy_row fs (suc j) 0 board_width) j

unfoldable pub remove_line : Fields → ℕ → Fields
remove_line fs i = shift_rows (blacken_row fs i 0 board_width) i

unfoldable pub lines_loop : ℕ → ℕ → Fields → ℕ → Option (Fields × ℕ)
lines_loop zero i fs counter = none
lines_loop (suc fuel) i fs counter =
    let again = lines_loop fuel i (remove_line fs i) (counter + 1) in
    let above = lines_loop fuel (i - 1) fs counter in
    if ltb i invisible_rows_count
    then some (fs, counter)
    else if line_was_full fs i 0 board_width
    then again
    else above

abbrev pub line_score : ℕ → ℕ → ℕ
line_score counter level = if counter == 0 then 0 else 100 * 2 ^ (counter - 1) + 50 * level

-- 20 rows are examined, and each may be removed once more: 41 rounds.
abbrev pub lines_fuel : ℕ
lines_fuel = 41

abbrev pub with_lines : Board → Fields × ℕ → Board
with_lines b (fs, counter) = record b {
  fields = fs;
  lines = b.lines + counter;
  score = b.score + line_score counter b.level;
}

abbrev pub finish_lines : Board → Option (Fields × ℕ) → Option Board
finish_lines b none = none
finish_lines b (some r) = some (with_lines b r)

unfoldable pub check_and_remove_lines : Board → Option Board
check_and_remove_lines b = finish_lines b (lines_loop lines_fuel (board_height - 1) b.fields 0)
