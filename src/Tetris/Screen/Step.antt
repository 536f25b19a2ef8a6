-- ===== src/Tetris/Screen/Step.antt =====
-- What a key does to board and console (HtcLeoPkg/Application/TetrisApp/Core.c).
use lgoptimus_l3pkg.Common.{
  ℕ, ◌≡◌, refl, ap, ◌∙◌, inl, inr, Bool, true, false, Option, none, some, List, arith, ◌==◌,
  if◌then◌else◌, Bool-cases,
}
use lgoptimus_l3pkg.Tetris.Board.{Board}
use lgoptimus_l3pkg.Tetris.Moves.{
  move_piece_left, move_piece_right, rotate_piece, move_piece_down, drop_piece,
}
use lgoptimus_l3pkg.Tetris.Core.{
  GameState, toggled, is_running, is_running_or_paused, is_waiting, Core, Key, handle_char,
  handle_key, handle_input, start_game, toggle_pause, reset_tick_counter, after_down, reset_after,
  on_board, ignore_result,
}
use lgoptimus_l3pkg.Tetris.Screen.{
  Console, set_text_color, show_move_piece_left, show_move_piece_right, show_rotate_piece,
  show_move_piece_down, show_drop_piece,
}
use lgoptimus_l3pkg.Tetris.Screen.Text.{print}
use lgoptimus_l3pkg.Tetris.Screen.Settle.{Follows}
use lgoptimus_l3pkg.Tetris.Screen.Play.{
  left-Follows, right-Follows, rotate-Follows, down-Follows, drop_piece-Follows,
}
use lgoptimus_l3pkg.Tetris.Screen.Beside.{Keeps, Keeps-Shows, color-Keeps, print_above-Keeps}
use lgoptimus_l3pkg.Tetris.Screen.Window.{
  Texts, show_start_game, show_state, show_toggle_pause, show_char, show_key, show_input,
}

pub Follows-Keeps : (b : Board) (k k' : Console) → Keeps k k' → Follows b k → Follows b k'
Follows-Keeps b k k' a f = record {
  sound = f.sound;
  shown = record { shown = Keeps-Shows b.fields k k' a f.shown.shown; drawn = f.shown.drawn };
  high = f.high;
}

-- The game goes on, with a board that the console shows.
abbrev pub Goes : Option Core → Console → Type 0
Goes o k = (c : Core) × (o ≡ some c) × Follows c.board k

pub message-Keeps :
    (c x : ℕ) (cs : List ℕ) (k : Console) → Keeps k (print x 1 cs (set_text_color c k))
message-Keeps c x cs k =
    print_above-Keeps x 1 cs k (set_text_color c k) (color-Keeps c k) (omega arith)

down-Goes :
    (c : Core) (k : Console)
    → Follows c.board k
    → Goes (after_down c (move_piece_down c.board)) (show_move_piece_down c.board k)
unfolding reset_tick_counter
down-Goes c k f =
    let (moved, b, e, f', deep) = down-Follows c.board k f in
    elim (Bool-cases moved) [
      | inl m ↦ (record c { board = b }, ap (after_down c) (e ∙ ap (λ t. some (t, b)) m), f')
      | inr n ↦ (
        reset_tick_counter (record c { board = b }),
        ap (after_down c) (e ∙ ap (λ t. some (t, b)) n),
        f',
      )
    ]

drop-Goes :
    (c : Core) (k : Console)
    → Follows c.board k
    → Goes (reset_after (on_board c (drop_piece c.board))) (show_drop_piece c.board k)
unfolding reset_tick_counter
drop-Goes c k f =
    let (b, e, f') = drop_piece-Follows c.board k f in
    (reset_tick_counter (record c { board = b }), ap (λ o. reset_after (on_board c o)) e, f')

pub falling-Goes :
    (c : Core) (k : Console)
    → Follows c.board k
    → Goes
        (reset_after (on_board c (ignore_result (move_piece_down c.board))))
        (show_move_piece_down c.board k)
unfolding reset_tick_counter
falling-Goes c k f =
    let (moved, b, e, f', deep) = down-Follows c.board k f in
    (
      reset_tick_counter (record c { board = b }),
      ap (λ o. reset_after (on_board c (ignore_result o))) e,
      f',
    )

pub if-Goes :
    (t : Bool) (x y : Option Core) (k k' : Console)
    → Goes x k
    → Goes y k'
    → Goes (if t then x else y) (if t then k else k')
if-Goes true x y k k' g g' = g
if-Goes false x y k k' g g' = g'

module _ (texts : Texts) (decimal : ℕ → List ℕ) where
  state-Keeps : (s : GameState) (k : Console) → Keeps k (show_state texts decimal s k)
  state-Keeps GameState.paused k = message-Keeps 15 29 texts.game_paused k
  state-Keeps GameState.running k = message-Keeps 0 29 texts.blank_13 k
  state-Keeps GameState.waiting_for_start k = message-Keeps 0 29 texts.blank_13 k
  state-Keeps GameState.over k = message-Keeps 0 29 texts.blank_13 k
  state-Keeps GameState.exited k = message-Keeps 0 29 texts.blank_13 k

  module _ (c : Core) (k : Console) (f : Follows c.board k) where
    same-Goes : Goes (some c) k
    same-Goes = (c, refl, f)

    pause-Goes : Goes (some (toggle_pause c)) (show_toggle_pause texts decimal c k)
    unfolding toggle_pause show_toggle_pause
    pause-Goes =
        (toggle_pause c, refl, Follows-Keeps c.board k _ (state-Keeps (toggled c.game_state) k) f)

    rotate-Goes :
        Goes (some (record c { board = rotate_piece c.board })) (show_rotate_piece c.board k)
    rotate-Goes = (record c { board = rotate_piece c.board }, refl, rotate-Follows c.board k f)

    left-Goes :
        Goes (some (record c { board = move_piece_left c.board })) (show_move_piece_left c.board k)
    left-Goes = (record c { board = move_piece_left c.board }, refl, left-Follows c.board k f)

    right-Goes :
        Goes
          (some (record c { board = move_piece_right c.board }))
          (show_move_piece_right c.board k)
    right-Goes = (record c { board = move_piece_right c.board }, refl, right-Follows c.board k f)

    start-Goes : Goes (some (start_game c)) (show_start_game texts decimal k)
    unfolding start_game show_start_game
    start-Goes =
        (start_game c, refl, Follows-Keeps c.board k _ (message-Keeps 0 25 texts.blank_24 k) f)

    char-Goes : (ch : ℕ) → Goes (handle_char c ch) (show_char texts decimal c ch k)
    unfolding handle_char show_char
    char-Goes ch =
        if-Goes (ch == 13) _ _ _ _
          (if-Goes (is_running c.game_state) _ _ _ _ (down-Goes c k f) same-Goes)
          (if-Goes (ch == 9) _ _ _ _
            (if-Goes (is_running c.game_state) _ _ _ _ rotate-Goes same-Goes)
            (if-Goes (ch == 8) _ _ _ _
              (if-Goes (is_running_or_paused c.game_state) _ _ _ _ pause-Goes same-Goes) same-Goes))

    key-Goes : (key : Key) → Goes (handle_key c key) (show_key texts decimal c key k)
    unfolding handle_key show_key
    key-Goes key =
        if-Goes (key.scan_code == 5) _ _ _ _
          (if-Goes (is_running c.game_state) _ _ _ _ (drop-Goes c k f) same-Goes)
          (if-Goes (key.scan_code == 1) _ _ _ _
            (if-Goes (is_running c.game_state) _ _ _ _ left-Goes same-Goes)
            (if-Goes (key.scan_code == 2) _ _ _ _
              (if-Goes (is_running c.game_state) _ _ _ _ right-Goes same-Goes)
              (if-Goes (key.scan_code == 0x17) _ _ _ _
                (record c { game_state = GameState.exited }, refl, f)
                (char-Goes key.unicode_char))))

    pub input-Goes :
        (key : Option Key) → Goes (handle_input c key) (show_input texts decimal c key k)
    unfolding handle_input show_input
    input-Goes none = same-Goes
    input-Goes (some key) = if-Goes (is_waiting c.game_state) _ _ _ _ start-Goes (key-Goes key)
