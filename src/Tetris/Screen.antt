-- ===== src/Tetris/Screen.antt =====
-- What the moves of HtcLeoPkg/Application/TetrisApp/Board.c print: `redrawField` writes a field and its
-- two characters on the console at once, so each function of Board.c that calls it has a function here
-- for its characters. CommonHeader.c is putcharx and setTextColor. The console keeps a character and
-- its colour for each column and row; the background is always black.
pub mod Fields
pub mod Rows
pub mod Follow
pub mod Moves
pub mod Settle
pub mod Play
pub mod Text
pub mod Beside
pub mod Window
pub mod Step
pub mod Game
use lgoptimus_l3pkg.Common.{
  ℕ, zero, suc, ◌+◌, ◌-◌, ◌*◌, Bool, true, false, ◌&&◌, Option, none, some, List, [], ◌∷◌, ltb, leb,
  ◌==◌, if◌then◌else◌,
}
use lgoptimus_l3pkg.Common.Int.{ℤ, pos, negsuc, ◌+ℤ◌}
use lgoptimus_l3pkg.Tetris.Piece.{Point, Body, Piece, current_body, rotate_cw, rotate_ccw}
use lgoptimus_l3pkg.Tetris.Board.{
  Board, Fields as BoardFields, board_width, invisible_rows_count, empty_field, field, redraw_field,
  is_move_possible, mark_fields_occupied_by_piece,
}
use lgoptimus_l3pkg.Tetris.Lines.{line_was_full, blacken_row, copy_row, remove_line, lines_fuel}
use lgoptimus_l3pkg.Tetris.Moves.{with_active, shifted, is_game_over, move_piece_down, drop_fuel}

-- A character and its colour.
pub record Cell : Type 0 where
  pub char : ℕ
  pub color : ℕ

-- The current text colour, and the cells by column and row.
pub record Console : Type 0 where
  pub text_color : ℕ
  pub cells : ℕ → ℕ → Cell

abbrev pub full_block : ℕ
full_block = 0x2588

unfoldable pub set_text_color : ℕ → Console → Console
set_text_color c k = record k { text_color = c }

unfoldable pub putcharx : ℕ → ℕ → ℕ → Console → Console
putcharx x y ch k = record k {
  cells =
      λ a b. if a == x && b == y then record { char = ch; color = k.text_color } else k.cells a b;
}

abbrev pub board_top_x : ℕ
board_top_x = 25

abbrev pub board_top_y : ℕ
board_top_y = 3

-- The console's part of `redrawField`.
unfoldable pub put_field : ℕ → ℕ → ℕ → Console → Console
unfolding set_text_color putcharx
put_field x y color k =
    if leb invisible_rows_count y
    then putcharx (board_top_x + 1 + 2 * x + 1) (board_top_y - invisible_rows_count + y) full_block
        (putcharx (board_top_x + 1 + 2 * x) (board_top_y - invisible_rows_count + y) full_block
          (set_text_color color k))
    else k

abbrev pub put_at : ℤ → ℤ → ℕ → Console → Console
put_at (pos x) (pos y) c k = put_field x y c k
put_at _ _ c k = k

-- `drawFieldsOccupiedByPiece`.
unfoldable pub put_body : Point → ℕ → Body → Console → Console
put_body at_pos c [] k = k
put_body at_pos c (p ∷ ps) k = put_body at_pos c ps (put_at (p.x +ℤ at_pos.x) (p.y +ℤ at_pos.y) c k)

abbrev pub put_piece : Piece → ℕ → Console → Console
put_piece p c k = put_body p.pos c (current_body p) k

-- A shifting move: the piece in black, and in its colour where it is then.
unfoldable pub put_shifted : Piece → ℤ → ℤ → Console → Console
put_shifted p dx dy k =
    let moved = shifted p dx dy in put_piece moved moved.color (put_piece p empty_field k)

abbrev pub show_sideways : ℤ → Board → Console → Console
show_sideways dx b k =
    if is_move_possible (mark_fields_occupied_by_piece b empty_field) dx (pos 0)
    then put_shifted b.active_piece dx (pos 0) k
    else k

unfoldable pub show_rotate_piece : Board → Console → Console
show_rotate_piece b k =
    let p = b.active_piece in
    let turned = with_active (mark_fields_occupied_by_piece b empty_field) (rotate_cw p) in
    let back = rotate_ccw (rotate_cw p) in
    let again = rotate_cw back in
    if is_move_possible turned (pos 0) (pos 0)
    then put_piece again again.color (put_piece back empty_field k)
    else k

unfoldable pub show_move_piece_left : Board → Console → Console
show_move_piece_left b k = show_sideways (negsuc 0) b k

unfoldable pub show_move_piece_right : Board → Console → Console
show_move_piece_right b k = show_sideways (pos 1) b k

-- `checkAndRemoveLines`, loop by loop; the fields change along with the characters.
unfoldable pub put_black_row : ℕ → ℕ → ℕ → Console → Console
put_black_row i j zero k = k
put_black_row i j (suc n) k = put_black_row i (j + 1) n (put_field j i empty_field k)

unfoldable pub put_copied_row : BoardFields → ℕ → ℕ → ℕ → Console → Console
put_copied_row fs j col zero k = k
put_copied_row fs j col (suc n) k =
    let c = field fs (j - 1) col in
    put_copied_row (redraw_field fs col j c) j (col + 1) n (put_field col j c k)

unfoldable pub put_shifted_rows : BoardFields → ℕ → Console → Console
put_shifted_rows fs zero k = k
put_shifted_rows fs (suc j) k =
    put_shifted_rows (copy_row fs (suc j) 0 board_width) j
      (put_copied_row fs (suc j) 0 board_width k)

unfoldable pub put_removed : BoardFields → ℕ → Console → Console
put_removed fs i k =
    put_shifted_rows (blacken_row fs i 0 board_width) i (put_black_row i 0 board_width k)

unfoldable pub put_lines : ℕ → ℕ → BoardFields → Console → Console
put_lines zero i fs k = k
put_lines (suc fuel) i fs k =
    let again = put_lines fuel i (remove_line fs i) (put_removed fs i k) in
    let above = put_lines fuel (i - 1) fs k in
    if ltb i invisible_rows_count
    then k
    else if line_was_full fs i 0 board_width
    then again
    else above

unfoldable pub show_place_piece : Board → Console → Console
show_place_piece b k = if is_game_over b then k else put_lines lines_fuel 21 b.fields k

unfoldable pub show_move_piece_down : Board → Console → Console
show_move_piece_down b k =
    let b0 = mark_fields_occupied_by_piece b empty_field in
    if is_move_possible b0 (pos 0) (pos 1)
    then put_shifted b.active_piece (pos 0) (pos 1) k
    else show_place_piece (mark_fields_occupied_by_piece b0 b0.active_piece.color) k

abbrev pub show_next : (Board → Console → Console) → Option (Bool × Board) → Console → Console
show_next again none k = k
show_next again (some (true, b)) k = again b k
show_next again (some (false, b)) k = k

-- The loop of `dropPiece`.
unfoldable pub show_drop_loop : ℕ → Board → Console → Console
show_drop_loop zero b k = k
show_drop_loop (suc fuel) b k =
    show_next (λ b' k'. show_drop_loop fuel b' k') (move_piece_down b) (show_move_piece_down b k)

unfoldable pub show_drop_piece : Board → Console → Console
show_drop_piece b k = show_drop_loop drop_fuel b k
