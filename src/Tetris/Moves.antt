-- ===== src/Tetris/Moves.antt =====
-- The moves of the board (HtcLeoPkg/Application/TetrisApp/Board.c), from `rotatePiece` to `dropPiece`,
-- and what happens when a piece has come to rest. `none` means that a loop ran out of fuel.
pub mod Cells
pub mod Clear
pub mod Settle
pub mod Sound
pub mod Level
use lgoptimus_l3pkg.Common.{
  ℕ, zero, suc, ◌+◌, ◌*◌, Bool, true, false, Option, none, some, List, [], ◌∷◌, if◌then◌else◌,
  replicate,
}
use lgoptimus_l3pkg.Common.Int.{ℤ, pos, negsuc, ◌+ℤ◌, lt_ℤ}
use lgoptimus_l3pkg.Tetris.Piece.{
  Point, Body, Piece, Rand, randomize, rotate_cw, rotate_ccw, construct_piece, current_body, at,
}
use lgoptimus_l3pkg.Tetris.Board.{
  Board, board_height, board_width, invisible_rows_count, empty_field, is_move_possible,
  mark_fields_occupied_by_piece, draw_fields_occupied_by_piece,
}
use lgoptimus_l3pkg.Tetris.Lines.{check_and_remove_lines}

abbrev pub with_active : Board → Piece → Board
with_active b p = record b { active_piece = p }

-- The piece moved by (dx, dy): `pos.x--`, `pos.x++` or `pos.y++`.
abbrev pub shifted : Piece → ℤ → ℤ → Piece
shifted p dx dy = record p { pos = record { x = p.pos.x +ℤ dx; y = p.pos.y +ℤ dy } }

unfoldable pub rotate_piece : Board → Board
unfolding rotate_cw rotate_ccw
rotate_piece b =
    let b0 = mark_fields_occupied_by_piece b empty_field in
    let turned = with_active b0 (rotate_cw b0.active_piece) in
    let back = with_active turned (rotate_ccw turned.active_piece) in
    let erased = draw_fields_occupied_by_piece back empty_field in
    let turned' = with_active erased (rotate_cw erased.active_piece) in
    if is_move_possible turned (pos 0) (pos 0)
    then draw_fields_occupied_by_piece turned' turned'.active_piece.color
    else mark_fields_occupied_by_piece back back.active_piece.color

-- The part that the three shifting moves share: erase, shift, draw.
unfoldable pub redraw_shifted : Board → ℤ → ℤ → Board
redraw_shifted b dx dy =
    let erased = draw_fields_occupied_by_piece b empty_field in
    let moved = with_active erased (shifted erased.active_piece dx dy) in
    draw_fields_occupied_by_piece moved moved.active_piece.color

unfoldable pub move_piece_left : Board → Board
move_piece_left b =
    let b0 = mark_fields_occupied_by_piece b empty_field in
    let b1 =
      if is_move_possible b0 (negsuc 0) (pos 0) then redraw_shifted b0 (negsuc 0) (pos 0) else b0 in
    mark_fields_occupied_by_piece b1 b1.active_piece.color

unfoldable pub move_piece_right : Board → Board
move_piece_right b =
    let b0 = mark_fields_occupied_by_piece b empty_field in
    let b1 =
      if is_move_possible b0 (pos 1) (pos 0) then redraw_shifted b0 (pos 1) (pos 0) else b0 in
    mark_fields_occupied_by_piece b1 b1.active_piece.color

-- A field of the piece lies in the invisible rows.
unfoldable pub is_above : Point → Body → Bool
is_above at_pos [] = false
is_above at_pos (p ∷ ps) =
    let rest = is_above at_pos ps in
    if lt_ℤ (p.y +ℤ at_pos.y) (pos invisible_rows_count) then true else rest

unfoldable pub is_game_over : Board → Bool
unfolding is_above
is_game_over b = is_above b.active_piece.pos (current_body b.active_piece)

-- The two pieces change places; the old one becomes the next, at random, and the new one starts.
unfoldable pub load_next_piece : Board → Board
load_next_piece b =
    let drawn = randomize b.random b.active_piece in
    record b {
      active_piece = record (b.next_piece) { pos = at 4 0 };
      next_piece = drawn.0;
      random = drawn.1;
    }

abbrev pub then_load : Option Board → Option Board
then_load none = none
then_load (some b) = some (load_next_piece b)

unfoldable pub place_piece : Board → Option Board
place_piece b =
    if is_game_over b
    then some (record b { blocked = true })
    else then_load (check_and_remove_lines b)

abbrev pub stopped : Option Board → Option (Bool × Board)
stopped none = none
stopped (some b) = some (false, b)

unfoldable pub move_piece_down : Board → Option (Bool × Board)
move_piece_down b =
    let b0 = mark_fields_occupied_by_piece b empty_field in
    if is_move_possible b0 (pos 0) (pos 1)
    then some (true, redraw_shifted b0 (pos 0) (pos 1))
    else stopped (place_piece (mark_fields_occupied_by_piece b0 b0.active_piece.color))

-- What the loop does with the result of `movePieceDown`.
abbrev pub drop_next : (Board → Option (Board × ℕ)) → ℕ → Option (Bool × Board) → Option (Board × ℕ)
drop_next again height none = none
drop_next again height (some (true, b)) = again b
drop_next again height (some (false, b)) = some (b, height)

-- `while (movePieceDown(this)) height++;`
unfoldable pub drop_loop : ℕ → Board → ℕ → Option (Board × ℕ)
drop_loop zero b height = none
drop_loop (suc fuel) b height =
    drop_next (λ b'. drop_loop fuel b' (height + 1)) height (move_piece_down b)

-- A piece can move down at most 22 times.
abbrev pub drop_fuel : ℕ
drop_fuel = 24

abbrev pub with_bonus : Option (Board × ℕ) → Option Board
with_bonus none = none
with_bonus (some (b, height)) = some (record b { score = b.score + 2 * height })

unfoldable pub drop_piece : Board → Option Board
drop_piece b = with_bonus (drop_loop drop_fuel b 0)

unfoldable pub construct_board : Rand → Board
unfolding load_next_piece
construct_board r =
    let (next, r') = construct_piece r in
    let (active, r'') = construct_piece r' in
    load_next_piece (record {
      next_piece = next;
      active_piece = active;
      fields = replicate board_height (replicate board_width empty_field);
      blocked = false;
      level = 1;
      lines = 0;
      score = 0;
      random = r'';
    })
