-- ===== src/Tetris/Screen/Text.antt =====
-- What HtcLeoPkg/Application/TetrisApp/Board.c prints beside the fields: frames, texts, numbers and the
-- next piece. `decimal` is what Print makes of a number for %d.
use lgoptimus_l3pkg.Common.{
  ℕ, zero, suc, ◌+◌, ◌-◌, ◌*◌, ◌/◌, ◌||◌, List, [], ◌∷◌, ◌++◌, ◌==◌, if◌then◌else◌,
}
use lgoptimus_l3pkg.Common.Int.{ℤ, pos}
use lgoptimus_l3pkg.Tetris.Piece.{Body, Piece, current_body}
use lgoptimus_l3pkg.Tetris.Board.{Board, board_width}
use lgoptimus_l3pkg.Tetris.Screen.{
  Console, full_block, set_text_color, putcharx, board_top_x, board_top_y,
}

-- NEXT_PIECE_FRAME_TOP_X and NEXT_PIECE_FRAME_TOP_Y.
abbrev pub frame_x : ℕ
frame_x = board_top_x + 2 * board_width + 4

abbrev pub frame_y : ℕ
frame_y = board_top_y + 1

abbrev pub light_gray : ℕ
light_gray = 7

abbrev pub red : ℕ
red = 4

-- Print of characters other than controls, from a position on.
unfoldable pub print : ℕ → ℕ → List ℕ → Console → Console
print x y [] k = k
print x y (c ∷ cs) k = print (x + 1) y cs (putcharx x y c k)

-- Lines below one another, each from the first column on.
unfoldable pub print_lines : ℕ → List (List ℕ) → Console → Console
print_lines y [] k = k
print_lines y (l ∷ ls) k = print_lines (y + 1) ls (print 0 y l k)

-- n columns from x on in two rows, and n rows from y on in two columns: the loops of the frames.
unfoldable pub put_rows : ℕ → ℕ → ℕ → ℕ → ℕ → Console → Console
put_rows zero x y y' c k = k
put_rows (suc n) x y y' c k = put_rows n (x + 1) y y' c (putcharx x y' c (putcharx x y c k))

unfoldable pub put_columns : ℕ → ℕ → ℕ → ℕ → ℕ → Console → Console
put_columns zero x x' y c k = k
put_columns (suc n) x x' y c k = put_columns n x x' (y + 1) c (putcharx x' y c (putcharx x y c k))

-- The box-drawing characters of a double frame.
abbrev pub horizontal : ℕ
horizontal = 0x2550

abbrev pub vertical : ℕ
vertical = 0x2551

abbrev pub down_right : ℕ
down_right = 0x2554

abbrev pub down_left : ℕ
down_left = 0x2557

abbrev pub up_right : ℕ
up_right = 0x255A

abbrev pub up_left : ℕ
up_left = 0x255D

abbrev pub put_next_frame : Console → Console
put_next_frame k =
    let rows = put_rows 8 (frame_x + 1) frame_y (frame_y + 2 + 1) horizontal k in
    let sides = put_columns 2 frame_x (frame_x + 8 + 1) (frame_y + 1) vertical rows in
    putcharx frame_x (frame_y + 2 + 1) up_right (
      putcharx (frame_x + 8 + 1) (frame_y + 2 + 1) up_left
        (putcharx (frame_x + 8 + 1) frame_y down_left (putcharx frame_x frame_y down_right sides)))

abbrev pub put_board_frame : Console → Console
put_board_frame k =
    let bottom = board_top_y + 22 - 2 in
    let last = board_top_x + 2 * board_width + 1 in
    let rows = put_rows (2 * board_width + 2) board_top_x (board_top_y - 1) bottom horizontal k in
    let sides = put_columns 20 board_top_x last board_top_y vertical rows in
    putcharx last bottom up_left (
      putcharx board_top_x bottom up_right (
        putcharx last (board_top_y - 1) down_left
          (putcharx board_top_x (board_top_y - 1) down_right sides)))

-- `texts` are the lines of STATIC_TEXT, and the four headings.
unfoldable pub draw_static_elements :
    List (List ℕ) → List ℕ → List ℕ → List ℕ → List ℕ → Console → Console
draw_static_elements texts next_up level lines score k =
    let k1 = print_lines 8 texts (set_text_color light_gray k) in
    let k2 = print (frame_x + 8 / 2 - 3) (frame_y + 2 + 2) next_up k1 in
    let k3 = print frame_x (frame_y + 2 + 4) level k2 in
    let k4 = print frame_x (frame_y + 2 + 5) lines k3 in
    let k5 = print frame_x (frame_y + 2 + 6) score k4 in
    put_board_frame (put_next_frame (set_text_color red k5))

-- The two characters of each point of the next piece. Its bodies have no negative coordinates.
abbrev pub put_pair : ℕ → ℤ → ℤ → Console → Console
put_pair margin (pos x) (pos y) k =
    putcharx (frame_x + margin + 2 * x + 1) (frame_y + 1 + y) full_block
      (putcharx (frame_x + margin + 2 * x) (frame_y + 1 + y) full_block k)
put_pair margin _ _ k = k

unfoldable pub put_next : ℕ → Body → Console → Console
put_next margin [] k = k
put_next margin (p ∷ ps) k = put_next margin ps (put_pair margin p.x p.y k)

-- The loop over the columns inside the frame; the inner one has two rounds.
unfoldable pub clear_frame : ℕ → ℕ → Console → Console
clear_frame zero x k = k
clear_frame (suc n) x k =
    clear_frame n (x + 1) (putcharx x (frame_y + 2) 0x20 (putcharx x (frame_y + 1) 0x20 k))

-- The static previousPieceColor is passed along with the console. The colours of the pieces I and O.
unfoldable pub draw_next_up : Piece → ℕ → Console → ℕ × Console
draw_next_up next previous k =
    if next.color == previous
    then (previous, k)
    else let blank = clear_frame 8 (frame_x + 1) (set_text_color 0 k) in
      let margin = if next.color == 0x0b || next.color == 0x0e then 1 else 2 in
      (next.color, put_next margin (current_body next) (set_text_color next.color blank))

-- The level is followed by a blank.
unfoldable pub draw_board : (ℕ → List ℕ) → Board → ℕ → Console → ℕ × Console
draw_board decimal b previous k =
    let (previous', k1) = draw_next_up b.next_piece previous k in
    let k2 = set_text_color light_gray k1 in
    let k3 = print (frame_x + 8) (frame_y + 2 + 4) (decimal b.level ++ (0x20 ∷ [])) k2 in
    let k4 = print (frame_x + 8) (frame_y + 2 + 5) (decimal b.lines) k3 in
    (previous', print (frame_x + 8) (frame_y + 2 + 6) (decimal b.score) k4)
