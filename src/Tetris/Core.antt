-- ===== src/Tetris/Core.antt =====
-- The game (HtcLeoPkg/Application/TetrisApp/Core.h, Core.c and main.c): the key handler, the frame,
-- the timer, and the main loop over what happens. What they print is in Tetris/Screen/Window.
pub mod Game
use lgoptimus_l3pkg.Common.{
  ℕ, ◌+◌, ◌-◌, ◌*◌, ◌/◌, Bool, true, false, not, ◌&&◌, ◌||◌, Option, none, some, List, [], ◌∷◌,
  ◌==◌, if◌then◌else◌,
}
use lgoptimus_l3pkg.Tetris.Piece.{Rand}
use lgoptimus_l3pkg.Tetris.Board.{Board}
use lgoptimus_l3pkg.Tetris.Moves.{
  rotate_piece, move_piece_left, move_piece_right, move_piece_down, drop_piece, construct_board,
}

pub data GameState : Type 0 where
  waiting_for_start running paused over exited : GameState

pub record Core : Type 0 where
  pub game_state : GameState
  pub board : Board
  pub tick_counter : ℕ

pub record Key : Type 0 where
  pub scan_code : ℕ
  pub unicode_char : ℕ

abbrev pub is_running : GameState → Bool
is_running running = true
is_running _ = false

abbrev pub is_waiting : GameState → Bool
is_waiting waiting_for_start = true
is_waiting _ = false

abbrev pub is_exited : GameState → Bool
is_exited exited = true
is_exited _ = false

abbrev pub refresh_period : ℕ
refresh_period = 35

-- `level` stays far below 11, so the subtraction is exact.
unfoldable pub reset_tick_counter : Core → Core
reset_tick_counter c = record c { tick_counter = (refresh_period * (11 - c.board.level)) / 10 }

unfoldable pub start_game : Core → Core
start_game c = record c { game_state = running }

unfoldable pub game_over : Core → Core
game_over c = record c { game_state = over }

abbrev pub toggled : GameState → GameState
toggled paused = running
toggled _ = paused

unfoldable pub toggle_pause : Core → Core
toggle_pause c = record c { game_state = toggled c.game_state }

abbrev pub is_running_or_paused : GameState → Bool
is_running_or_paused running = true
is_running_or_paused paused = true
is_running_or_paused _ = false

unfoldable pub timer_callback : Core → Core
timer_callback c =
    if is_running c.game_state && not (c.tick_counter == 0)
    then record c { tick_counter = c.tick_counter - 1 }
    else c

abbrev pub on_board : Core → Option Board → Option Core
on_board c none = none
on_board c (some b) = some (record c { board = b })

abbrev pub reset_after : Option Core → Option Core
reset_after none = none
reset_after (some c) = some (reset_tick_counter c)

-- The carriage return key resets the counter only when the piece has come to rest.
abbrev pub after_down : Core → Option (Bool × Board) → Option Core
after_down c none = none
after_down c (some (true, b)) = some (record c { board = b })
after_down c (some (false, b)) = some (reset_tick_counter (record c { board = b }))

unfoldable pub handle_char : Core → ℕ → Option Core
handle_char c ch =
    if ch == 13
    then if is_running c.game_state then after_down c (move_piece_down c.board) else some c
    else if ch == 9
    then if is_running c.game_state
      then some (record c { board = rotate_piece c.board })
      else some c
    else if ch == 8
    then if is_running_or_paused c.game_state then some (toggle_pause c) else some c
    else some c

unfoldable pub handle_key : Core → Key → Option Core
handle_key c k =
    if k.scan_code == 5
    then if is_running c.game_state then reset_after (on_board c (drop_piece c.board)) else some c
    else if k.scan_code == 1
    then if is_running c.game_state
      then some (record c { board = move_piece_left c.board })
      else some c
    else if k.scan_code == 2
    then if is_running c.game_state
      then some (record c { board = move_piece_right c.board })
      else some c
    else if k.scan_code == 0x17
    then some (record c { game_state = exited })
    else handle_char c k.unicode_char

-- `none` is EFI_NOT_READY from ReadKeyStroke; a read never fails otherwise (the code asserts it).
unfoldable pub handle_input : Core → Option Key → Option Core
handle_input c none = some c
handle_input c (some k) = if is_waiting c.game_state then some (start_game c) else handle_key c k

abbrev pub ignore_result : Option (Bool × Board) → Option Board
ignore_result none = none
ignore_result (some (moved, b)) = some b

unfoldable pub draw_window : Core → Option Core
draw_window c =
    let c' = if is_running c.game_state && c.board.blocked then game_over c else c in
    if c'.tick_counter == 0
    then reset_after (on_board c' (ignore_result (move_piece_down c'.board)))
    else some c'

unfoldable pub construct_core : Rand → Core
construct_core r = record {
  game_state = waiting_for_start;
  board = construct_board r;
  tick_counter = refresh_period;
}

-- What can happen to a game: the timer fires, or the main loop makes a round, which reads a key.
pub data Happening : Type 0 where
  tick : Happening
  frame : Option Key → Happening

abbrev pub then_draw : Option Core → Option Core
then_draw none = none
then_draw (some c) = draw_window c

-- The loop of UefiMain stops at the exit state: a later round does nothing.
unfoldable pub step : Core → Happening → Option Core
step c tick = some (timer_callback c)
step c (frame k) = if is_exited c.game_state then some c else then_draw (handle_input c k)

unfoldable pub run : Option Core → List Happening → Option Core
run c [] = c
run none (h ∷ hs) = none
run (some c) (h ∷ hs) = run (step c h) hs
