-- ===== src/Tetris/Moves/Level.antt =====
-- The level of a board under its operations (HtcLeoPkg/Application/TetrisApp/Board.c).
use lgoptimus_l3pkg.Common.{
  ℕ, zero, suc, ◌+◌, ◌≡◌, refl, sym, ap, ◌∙◌, Bool, true, false, Option, none, some, arith,
}
use lgoptimus_l3pkg.Tetris.Board.{
  Board, mark_fields_occupied_by_piece, draw_fields_occupied_by_piece,
}
use lgoptimus_l3pkg.Tetris.Lines.{check_and_remove_lines}
use lgoptimus_l3pkg.Tetris.Moves.{
  drop_next, rotate_piece, redraw_shifted, move_piece_left, move_piece_right, load_next_piece,
  place_piece, move_piece_down, drop_loop, drop_piece, with_bonus,
}

pub level-place_piece : (b b' : Board) → place_piece b ≡ some b' → b'.level ≡ b.level
unfolding place_piece check_and_remove_lines load_next_piece
level-place_piece b b' h = ground arith

pub level-move_piece_down :
    (b b' : Board) (m : Bool) → move_piece_down b ≡ some (m, b') → b'.level ≡ b.level
unfolding move_piece_down redraw_shifted mark_fields_occupied_by_piece draw_fields_occupied_by_piece
level-move_piece_down b b' m h =
    let b0 = mark_fields_occupied_by_piece b 0 in
    let rested = mark_fields_occupied_by_piece b0 b0.active_piece.color in
    ground (arith, level-place_piece rested b')

pub level-rotate_piece : (b : Board) → (rotate_piece b).level ≡ b.level
unfolding rotate_piece mark_fields_occupied_by_piece draw_fields_occupied_by_piece
level-rotate_piece b = ground arith

pub level-move_piece_left : (b : Board) → (move_piece_left b).level ≡ b.level
unfolding move_piece_left redraw_shifted mark_fields_occupied_by_piece draw_fields_occupied_by_piece
level-move_piece_left b = ground arith

pub level-move_piece_right : (b : Board) → (move_piece_right b).level ≡ b.level
unfolding move_piece_right redraw_shifted mark_fields_occupied_by_piece
    draw_fields_occupied_by_piece
level-move_piece_right b = ground arith

abbrev board_level : Option Board → ℕ
board_level none = 0
board_level (some b) = b.level

abbrev level_of : Option (Board × ℕ) → ℕ
level_of none = 0
level_of (some (b, height)) = b.level

pub level-drop_loop :
    (fuel : ℕ) (b b' : Board) (height height' : ℕ)
    → drop_loop fuel b height ≡ some (b', height')
    → b'.level ≡ b.level
unfolding drop_loop
level-drop_loop zero b b' height height' h = cc
level-drop_loop (suc fuel) b b' height height' h =
    go (λ b1. level-drop_loop fuel b1 b' (height + 1) height') (move_piece_down b) refl h
  where
    go :
        ((b1 : Board) → drop_loop fuel b1 (height + 1) ≡ some (b', height') → b'.level ≡ b1.level)
        → (r : Option (Bool × Board)) → move_piece_down b ≡ r
        → drop_next (λ b1. drop_loop fuel b1 (height + 1)) height r ≡ some (b', height')
        → b'.level ≡ b.level
    go rec none e h = cc
    go rec (some (true, b1)) e h = rec b1 h ∙ level-move_piece_down b b1 true e
    go rec (some (false, b1)) e h = ap level_of (sym h) ∙ level-move_piece_down b b1 false e

pub level-drop_piece : (b b' : Board) → drop_piece b ≡ some b' → b'.level ≡ b.level
unfolding drop_piece
level-drop_piece b b' h = go (drop_loop 24 b 0) refl h
  where
    go :
        (r : Option (Board × ℕ))
        → drop_loop 24 b 0 ≡ r
        → with_bonus r ≡ some b'
        → b'.level ≡ b.level
    go none e h = cc
    go (some (b1, height)) e h = ap board_level (sym h) ∙ level-drop_loop 24 b b1 0 height e
