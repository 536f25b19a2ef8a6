-- ===== src/Tetris/Board.antt =====
-- The board (HtcLeoPkg/Application/TetrisApp/Board.h and Board.c): its fields, its pieces and the
-- moves, on the fields that they write. What they print is in Tetris/Screen.
-- A write or read outside the fields is left without effect or reads an empty field.
use lgoptimus_l3pkg.Common.{
  ℕ, Bool, true, false, ◌&&◌, List, [], ◌∷◌, leb, ◌==◌, if◌then◌else◌, get_or, set,
}
use lgoptimus_l3pkg.Common.Int.{ℤ, pos, pos_part, ◌+ℤ◌, in_range}
use lgoptimus_l3pkg.Tetris.Piece.{Point, Body, Piece, Rand, current_body}

abbrev pub board_height : ℕ
board_height = 22

abbrev pub board_width : ℕ
board_width = 10

abbrev pub invisible_rows_count : ℕ
invisible_rows_count = 2

abbrev pub empty_field : ℕ
empty_field = 0

abbrev pub Fields : Type 0
Fields = List (List ℕ)

pub record Board : Type 0 where
  pub next_piece : Piece
  pub active_piece : Piece
  pub fields : Fields
  pub blocked : Bool
  pub level : ℕ
  pub lines : ℕ
  pub score : ℕ
  pub random : Rand

abbrev pub row : Fields → ℕ → List ℕ
row fs y = get_or fs y []

abbrev pub field : Fields → ℕ → ℕ → ℕ
field fs y x = get_or (row fs y) x empty_field

abbrev pub set_field : Fields → ℕ → ℕ → ℕ → Fields
set_field fs y x c = set fs y (set (row fs y) x c)

-- The fields part of `redrawField`: the invisible rows are left alone.
unfoldable pub redraw_field : Fields → ℕ → ℕ → ℕ → Fields
redraw_field fs x y color = if leb invisible_rows_count y then set_field fs y x color else fs

-- The condition of `isMovePossible` for one field of the piece, at C's `int` coordinates.
unfoldable pub is_free : Fields → ℤ → ℤ → Bool
is_free fs fx fy =
    in_range fx board_width
    && in_range fy board_height
    && field fs (pos_part fy) (pos_part fx) == empty_field

unfoldable pub are_free : Fields → Point → ℤ → ℤ → Body → Bool
unfolding is_free
are_free fs at_pos x y [] = true
are_free fs at_pos x y (p ∷ ps) =
    let rest = are_free fs at_pos x y ps in
    if is_free fs (p.x +ℤ at_pos.x +ℤ x) (p.y +ℤ at_pos.y +ℤ y) then rest else false

unfoldable pub is_move_possible : Board → ℤ → ℤ → Bool
unfolding are_free
is_move_possible b x y = are_free b.fields b.active_piece.pos x y (current_body b.active_piece)

-- A write at a negative coordinate would lie outside `fields`.
abbrev pub mark_at : Fields → ℤ → ℤ → ℕ → Fields
mark_at fs (pos x) (pos y) c = set_field fs y x c
mark_at fs _ _ c = fs

unfoldable pub mark_body : Fields → Point → ℕ → Body → Fields
mark_body fs at_pos c [] = fs
mark_body fs at_pos c (p ∷ ps) =
    mark_body (mark_at fs (p.x +ℤ at_pos.x) (p.y +ℤ at_pos.y) c) at_pos c ps

unfoldable pub mark_fields_occupied_by_piece : Board → ℕ → Board
unfolding mark_body
mark_fields_occupied_by_piece b c = record b {
  fields = mark_body b.fields b.active_piece.pos c (current_body b.active_piece);
}

abbrev pub redraw_at : Fields → ℤ → ℤ → ℕ → Fields
unfolding redraw_field
redraw_at fs (pos x) (pos y) c = redraw_field fs x y c
redraw_at fs _ _ c = fs

unfoldable pub draw_body : Fields → Point → ℕ → Body → Fields
unfolding redraw_field
draw_body fs at_pos c [] = fs
draw_body fs at_pos c (p ∷ ps) =
    draw_body (redraw_at fs (p.x +ℤ at_pos.x) (p.y +ℤ at_pos.y) c) at_pos c ps

unfoldable pub draw_fields_occupied_by_piece : Board → ℕ → Board
unfolding draw_body
draw_fields_occupied_by_piece b c = record b {
  fields = draw_body b.fields b.active_piece.pos c (current_body b.active_piece);
}
