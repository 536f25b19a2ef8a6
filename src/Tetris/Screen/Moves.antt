-- ===== src/Tetris/Screen/Moves.antt =====
-- The console shows the board after every move of HtcLeoPkg/Application/TetrisApp/Board.c.
use mathlib.Core.Path.{subst}
use lgoptimus_l3pkg.Common.{◌≡◌, sym, inl, inr, true, if◌then◌else◌, Bool-cases}
use lgoptimus_l3pkg.Common.Int.{ℤ, pos, negsuc}
use lgoptimus_l3pkg.Tetris.Piece.{Piece, current_body, rotate_cw, rotate_ccw}
use lgoptimus_l3pkg.Tetris.Board.{
  Board, is_move_possible, mark_body, mark_fields_occupied_by_piece, draw_fields_occupied_by_piece,
}
use lgoptimus_l3pkg.Tetris.Moves.{
  with_active, shifted, redraw_shifted, move_piece_left, move_piece_right, rotate_piece,
}
use lgoptimus_l3pkg.Tetris.Moves.Cells.{HasSize, mark_body_lem}
use lgoptimus_l3pkg.Tetris.Moves.Clear.{
  IsSound, Fits, erase-IsClear, redraw_shifted-IsClear, possible-Fits, possible_here-Fits,
  rotate_ccw-rotate_cw,
}
use lgoptimus_l3pkg.Tetris.Screen.{
  Console, put_piece, put_shifted, show_sideways, show_move_piece_left, show_move_piece_right,
  show_rotate_piece,
}
use lgoptimus_l3pkg.Tetris.Screen.Fields.{Shows}
use lgoptimus_l3pkg.Tetris.Screen.Follow.{
  Colored, replaced-Shows, replaced-Colored, mark-Shows, mark-Colored, restored-Shows,
}

-- The console shows the board's visible fields, and the active piece is drawn in its colour.
pub record IsShown (b : Board) (k : Console) : Type 0 where
  pub shown : Shows b.fields k
  pub drawn : Colored b.fields b.active_piece.pos (current_body b.active_piece) b.active_piece.color

-- The fields of a shifted piece.
pub shifted-IsShown :
    (b : Board) (k : Console) (dx dy : ℤ)
    → IsSound b
    → IsShown b k
    → let b0 = mark_fields_occupied_by_piece b 0 in
      is_move_possible b0 dx dy ≡ true
      → IsShown (redraw_shifted b0 dx dy) (put_shifted b.active_piece dx dy k)
unfolding redraw_shifted put_shifted draw_fields_occupied_by_piece mark_fields_occupied_by_piece
shifted-IsShown b k dx dy s sh e =
    let p = b.active_piece in
    let q = shifted p dx dy in
    let fits : Fits q = possible-Fits (mark_fields_occupied_by_piece b 0) dx dy e in
    record {
      shown =
          replaced-Shows b.fields k p.pos (current_body p) s.size s.fits sh.shown q.pos
            (current_body q) p.color fits;
      drawn =
          replaced-Colored b.fields k p.pos (current_body p) s.size s.fits sh.shown q.pos
            (current_body q) p.color fits;
    }

-- A piece that cannot move is marked again.
pub marked_again-IsShown :
    (b : Board) (k : Console)
    → IsSound b
    → IsShown b k
    → let b0 = mark_fields_occupied_by_piece b 0 in
      IsShown (mark_fields_occupied_by_piece b0 b0.active_piece.color) k
unfolding mark_fields_occupied_by_piece
marked_again-IsShown b k s sh =
    let p = b.active_piece in
    let size0 = (mark_body_lem b.fields p.pos 0 (current_body p) 0 0 s.size s.fits).0 in
    record {
      shown =
          restored-Shows b.fields k p.pos (current_body p) s.size s.fits sh.shown p.color sh.drawn;
      drawn =
          mark-Colored (mark_body b.fields p.pos 0 (current_body p)) p.pos (current_body p) p.color
            size0 s.fits;
    }

-- A board is sound and shown, and its active piece marked in its colour: nothing changes on the console.
pub mark-IsShown :
    (b : Board) (k : Console)
    → HasSize b.fields
    → Fits b.active_piece
    → IsShown b k
    → IsShown (mark_fields_occupied_by_piece b b.active_piece.color) k
unfolding mark_fields_occupied_by_piece
mark-IsShown b k size fits sh =
    let p = b.active_piece in
    record {
      shown = mark-Shows b.fields k p.pos (current_body p) size fits sh.shown p.color sh.drawn;
      drawn = mark-Colored b.fields p.pos (current_body p) p.color size fits;
    }

sideways-IsShown :
    (b : Board) (k : Console) (dx : ℤ)
    → IsSound b
    → IsShown b k
    → let b0 = mark_fields_occupied_by_piece b 0 in
      let b1 = if is_move_possible b0 dx (pos 0) then redraw_shifted b0 dx (pos 0) else b0 in
      IsShown (mark_fields_occupied_by_piece b1 b1.active_piece.color) (show_sideways dx b k)
sideways-IsShown b k dx s sh =
    let b0 = mark_fields_occupied_by_piece b 0 in
    let s0 = erase-IsClear b s in
    elim (Bool-cases (is_move_possible b0 dx (pos 0))) [
      | inl e ↦
          let clear = redraw_shifted-IsClear b0 dx (pos 0) s0 e in
          rw e (
            mark-IsShown (redraw_shifted b0 dx (pos 0)) (put_shifted b.active_piece dx (pos 0) k)
              clear.size clear.fits (shifted-IsShown b k dx (pos 0) s sh e))
      | inr n ↦ rw n (marked_again-IsShown b k s sh)
    ]

pub move_piece_left-IsShown :
    (b : Board) (k : Console)
    → IsSound b
    → IsShown b k
    → IsShown (move_piece_left b) (show_move_piece_left b k)
unfolding move_piece_left show_move_piece_left
move_piece_left-IsShown b k s sh = sideways-IsShown b k (negsuc 0) s sh

pub move_piece_right-IsShown :
    (b : Board) (k : Console)
    → IsSound b
    → IsShown b k
    → IsShown (move_piece_right b) (show_move_piece_right b k)
unfolding move_piece_right show_move_piece_right
move_piece_right-IsShown b k s sh = sideways-IsShown b k (pos 1) s sh

-- What `rotatePiece` leaves, with the piece that it has turned there and back written out.
abbrev AfterTurn : Board → Console → Piece → Type 0
AfterTurn b k back =
    let turned = rotate_cw back in
    let b0 = mark_fields_occupied_by_piece b 0 in
    let erased = draw_fields_occupied_by_piece (with_active b0 back) 0 in
    let drawn = draw_fields_occupied_by_piece (with_active erased turned) turned.color in
    (Fits turned → IsShown drawn (put_piece turned turned.color (put_piece back 0 k)))
    × IsShown (mark_fields_occupied_by_piece (with_active b0 back) back.color) k

turned-IsShown : (b : Board) (k : Console) → IsSound b → IsShown b k → AfterTurn b k b.active_piece
unfolding draw_fields_occupied_by_piece mark_fields_occupied_by_piece rotate_cw
turned-IsShown b k s sh =
    let p = b.active_piece in
    let q = rotate_cw p in
    (
      λ fits. record {
        shown =
            replaced-Shows b.fields k p.pos (current_body p) s.size s.fits sh.shown q.pos
              (current_body q) p.color fits;
        drawn =
            replaced-Colored b.fields k p.pos (current_body p) s.size s.fits sh.shown q.pos
              (current_body q) p.color fits;
      },
      marked_again-IsShown b k s sh,
    )

-- The console shows the board after a rotation, whether or not the turned piece has room.
pub rotate_piece-IsShown :
    (b : Board) (k : Console)
    → IsSound b
    → IsShown b k
    → IsShown (rotate_piece b) (show_rotate_piece b k)
unfolding rotate_piece show_rotate_piece is_move_possible draw_fields_occupied_by_piece
    mark_fields_occupied_by_piece
rotate_piece-IsShown b k s sh =
    let p = b.active_piece in
    let back = rotate_ccw (rotate_cw p) in
    let b0 = mark_fields_occupied_by_piece b 0 in
    let turned = with_active b0 (rotate_cw p) in
    let same : back ≡ p = rotate_ccw-rotate_cw p s.turned in
    let after : AfterTurn b k back = subst (AfterTurn b k) (sym same) (turned-IsShown b k s sh) in
    elim (Bool-cases (is_move_possible turned (pos 0) (pos 0))) [
      | inl e ↦
          rw e (after.0 (subst (λ q. Fits (rotate_cw q)) (sym same) (possible_here-Fits turned e)))
      | inr n ↦ rw n after.1
    ]
