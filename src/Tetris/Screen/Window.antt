-- ===== src/Tetris/Screen/Window.antt =====
-- What HtcLeoPkg/Application/TetrisApp/Core.c prints, along with the steps of the game: each function
-- here is the console's part of the function of Core.c with its name. The red and green background of the
-- messages above the board is not modelled. `decimal` is what Print makes of a number.
use lgoptimus_l3pkg.Common.{
  ℕ, ◌+◌, ◌-◌, ◌&&◌, Option, none, some, List, [], ◌∷◌, ◌==◌, if◌then◌else◌,
}
use lgoptimus_l3pkg.Tetris.Board.{board_width}
use lgoptimus_l3pkg.Tetris.Core.{
  GameState, paused, toggled, is_running, is_running_or_paused, is_waiting, is_exited, Core, Key,
  Happening, tick, frame, handle_input, draw_window, game_over, step,
}
use lgoptimus_l3pkg.Tetris.Screen.{
  Console, set_text_color, board_top_x, show_move_piece_left, show_move_piece_right,
  show_rotate_piece, show_move_piece_down, show_drop_piece,
}
use lgoptimus_l3pkg.Tetris.Screen.Text.{print, draw_static_elements, draw_board}

-- The texts of the program.
pub record Texts : Type 0 where
  pub controls : List (List ℕ)
  pub next_up : List ℕ
  pub level : List ℕ
  pub lines : List ℕ
  pub score : List ℕ
  pub press_any_key : List ℕ
  pub blank_24 : List ℕ
  pub game_paused : List ℕ
  pub blank_13 : List ℕ
  pub game_over_text : List ℕ

abbrev pub white : ℕ
white = 15

-- The console, and the static previousPieceColor of drawNextUp.
pub record Display : Type 0 where
  pub previous : ℕ
  pub console : Console

module _ (texts : Texts) (decimal : ℕ → List ℕ) where
  unfoldable pub show_start_game : Console → Console
  show_start_game k = print board_top_x 1 texts.blank_24 (set_text_color 0 k)

  abbrev pub show_state : GameState → Console → Console
  show_state paused k =
      print (board_top_x + board_width - 6) 1 texts.game_paused (set_text_color white k)
  show_state _ k = print (board_top_x + board_width - 6) 1 texts.blank_13 (set_text_color 0 k)

  unfoldable pub show_toggle_pause : Core → Console → Console
  show_toggle_pause c k = show_state (toggled c.game_state) k

  unfoldable pub show_game_over : Console → Console
  show_game_over k =
      print (board_top_x + board_width - 6) 1 texts.game_over_text (set_text_color white k)

  unfoldable pub show_char : Core → ℕ → Console → Console
  show_char c ch k =
      if ch == 13
      then if is_running c.game_state then show_move_piece_down c.board k else k
      else if ch == 9
      then if is_running c.game_state then show_rotate_piece c.board k else k
      else if ch == 8
      then if is_running_or_paused c.game_state then show_toggle_pause c k else k
      else k

  unfoldable pub show_key : Core → Key → Console → Console
  show_key c key k =
      if key.scan_code == 5
      then if is_running c.game_state then show_drop_piece c.board k else k
      else if key.scan_code == 1
      then if is_running c.game_state then show_move_piece_left c.board k else k
      else if key.scan_code == 2
      then if is_running c.game_state then show_move_piece_right c.board k else k
      else if key.scan_code == 0x17
      then k
      else show_char c key.unicode_char k

  unfoldable pub show_input : Core → Option Key → Console → Console
  show_input c none k = k
  show_input c (some key) k =
      if is_waiting c.game_state then show_start_game k else show_key c key k

  -- drawBoard, on the board that the frame ends with.
  abbrev pub and_draw : Option Core → ℕ → Console → Display
  and_draw none previous k = record { previous = previous; console = k }
  and_draw (some c) previous k =
      let (previous', k') = draw_board decimal c.board previous k in
      record { previous = previous'; console = k' }

  unfoldable pub show_window : Core → ℕ → Console → Display
  show_window c previous k =
      let ends = is_running c.game_state && c.board.blocked in
      let c' = if ends then game_over c else c in
      let k1 = if ends then show_game_over k else k in
      let k2 = if c'.tick_counter == 0 then show_move_piece_down c'.board k1 else k1 in
      and_draw (draw_window c) previous k2

  abbrev pub then_show : Option Core → ℕ → Console → Display
  then_show none previous k = record { previous = previous; console = k }
  then_show (some c) previous k = show_window c previous k

  unfoldable pub show_step : Core → Happening → Display → Display
  show_step c tick d = d
  show_step c (frame key) d =
      if is_exited c.game_state
      then d
      else then_show (handle_input c key) d.previous (show_input c key d.console)

  -- The display after the happenings, which run makes of the core.
  unfoldable pub show_run : Option Core → List Happening → Display → Display
  show_run none hs d = d
  show_run (some c) [] d = d
  show_run (some c) (h ∷ hs) d = show_run (step c h) hs (show_step c h d)

  -- The static elements of ConstructBoard, and the message of ConstructCore. The console was cleared.
  unfoldable pub show_construct_core : Console → Display
  show_construct_core k =
      let k1 =
        draw_static_elements texts.controls texts.next_up texts.level texts.lines texts.score k in
      record {
        previous = 0;
        console = print board_top_x 1 texts.press_any_key (set_text_color white k1);
      }
