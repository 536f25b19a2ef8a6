-- ===== src/Tetris/Screen/Game.antt =====
-- The console shows the board's fields throughout a game (HtcLeoPkg/Application/TetrisApp).
use mathlib.Core.Path.{subst}
use lgoptimus_l3pkg.Common.{
  ℕ, ◌-◌, ◌≤◌, ◌≡◌, refl, sym, inl, inr, Bool, true, false, not, ◌&&◌, Option, none, some, List, [],
  ◌∷◌, arith, length, All, ◌==◌, if◌then◌else◌, Bool-cases,
}
use lgoptimus_l3pkg.Tetris.Piece.{Rand}
use lgoptimus_l3pkg.Tetris.Board.{Board}
use lgoptimus_l3pkg.Tetris.Moves.{move_piece_down, construct_board}
use lgoptimus_l3pkg.Tetris.Core.{
  is_running, is_exited, Core, Happening, tick, frame, draw_window, game_over, timer_callback,
  construct_core, reset_after, on_board, ignore_result, then_draw, step, run,
}
use lgoptimus_l3pkg.Tetris.Screen.{Console, show_move_piece_down}
use lgoptimus_l3pkg.Tetris.Screen.Fields.{Shows}
use lgoptimus_l3pkg.Tetris.Screen.Text.{draw_board}
use lgoptimus_l3pkg.Tetris.Screen.Settle.{Follows}
use lgoptimus_l3pkg.Tetris.Screen.Play.{construct_board-Follows, IsBlank}
use lgoptimus_l3pkg.Tetris.Screen.Beside.{
  print_above-Keeps, draw_board-Keeps, draw_static_elements-Keeps, then_color,
}
use lgoptimus_l3pkg.Tetris.Screen.Window.{
  Texts, Display, show_game_over, show_input, and_draw, show_window, then_show, show_step, show_run,
  show_construct_core,
}
use lgoptimus_l3pkg.Tetris.Screen.Step.{
  Goes, Follows-Keeps, message-Keeps, falling-Goes, if-Goes, input-Goes,
}

module _ (texts : Texts) (decimal : ℕ → List ℕ) where
  drawn-Follows :
      (b : Board) (previous : ℕ) (k : Console)
      → Follows b k
      → Follows b (draw_board decimal b previous k).1
  drawn-Follows b previous k f = Follows-Keeps b k _ (draw_board-Keeps decimal b previous k) f

  and_draw-Goes :
      (o : Option Core) (previous : ℕ) (k : Console)
      → Goes o k
      → Goes o (and_draw texts decimal o previous k).console
  and_draw-Goes none previous k g = g
  and_draw-Goes (some c') previous k (c, e, f) = (
    c',
    refl,
    drawn-Follows c'.board previous k (subst (λ o. Follows (board_of c o) k) (sym e) f),
  )
    where
      board_of : Core → Option Core → Board
      board_of d none = d.board
      board_of d (some c) = c.board

  ended-Goes :
      (c : Core) (previous : ℕ) (k : Console)
      → Follows c.board k
      → Goes
          (if c.tick_counter == 0
            then reset_after (on_board c (ignore_result (move_piece_down c.board)))
            else some c)
          (and_draw texts decimal
            (if c.tick_counter == 0
              then reset_after (on_board c (ignore_result (move_piece_down c.board)))
              else some c)
            previous
            (if c.tick_counter == 0 then show_move_piece_down c.board k else k)).console
  ended-Goes c previous k f =
      and_draw-Goes _ previous _
        (if-Goes (c.tick_counter == 0) _ _ _ _ (falling-Goes c k f) (c, refl, f))

  window-Goes :
      (c : Core) (previous : ℕ) (k : Console)
      → Follows c.board k
      → Goes (draw_window c) (show_window texts decimal c previous k).console
  unfolding draw_window show_window show_game_over game_over
  window-Goes c previous k f = elim (Bool-cases (is_running c.game_state && c.board.blocked)) [
    | inl e ↦ rw e (
        ended-Goes (game_over c) previous _
          (Follows-Keeps c.board k _ (message-Keeps 15 29 texts.game_over_text k) f))
    | inr n ↦ rw n (ended-Goes c previous k f)
  ]

  step-Goes :
      (c : Core) (h : Happening) (d : Display)
      → Follows c.board d.console
      → Goes (step c h) (show_step texts decimal c h d).console
  unfolding step show_step timer_callback
  step-Goes c tick d f = if-kept (is_running c.game_state && not (c.tick_counter == 0))
    where
      if-kept :
          (t : Bool)
          → Goes (some (if t then record c { tick_counter = c.tick_counter - 1 } else c)) d.console
      if-kept true = (record c { tick_counter = c.tick_counter - 1 }, refl, f)
      if-kept false = (c, refl, f)
  step-Goes c (frame key) d f = elim (Bool-cases (is_exited c.game_state)) [
    | inl e ↦ rw e (c, refl, f)
    | inr n ↦
        let k' = show_input texts decimal c key d.console in
        let (c', ends, f') = input-Goes texts decimal c d.console f key in
        rw n (
          subst (λ o. Goes (then_draw o) (then_show texts decimal o d.previous k').console)
            (sym ends) (window-Goes c' d.previous k' f'))
  ]

  run-Goes :
      (c : Core) (hs : List Happening) (d : Display)
      → Follows c.board d.console
      → Goes (run (some c) hs) (show_run texts decimal (some c) hs d).console
  unfolding run show_run
  run-Goes c [] d f = (c, refl, f)
  run-Goes c (h ∷ hs) d f =
      let d' = show_step texts decimal c h d in
      let (c', ends, f') = step-Goes c h d f in
      subst (λ o. Goes (run o hs) (show_run texts decimal o hs d').console) (sym ends)
        (run-Goes c' hs d' f')

-- From a console that shows nothing, and with lines of help that end before the board: after any
-- happenings of a new game, timer ticks and keys in any order, the game goes on, and both characters of
-- every visible field of the board have the field's colour on the console, whatever the other texts
-- and the printed numbers are.
pub show_run-Shows :
    (texts : Texts) (decimal : ℕ → List ℕ) (r : Rand) (k : Console) (hs : List Happening)
    → IsBlank k
    → All (λ l. length l ≤ 26) texts.controls
    → (c : Core) × (run (some (construct_core r)) hs ≡ some c)
      × Shows c.board.fields
          (show_run texts decimal
            (some (construct_core r))
            hs
            (show_construct_core texts decimal k)).console
unfolding construct_core show_construct_core
show_run-Shows texts decimal r k hs blank short =
    let static =
      draw_static_elements-Keeps texts.controls texts.next_up texts.level texts.lines texts.score k
        short in
    let first =
      print_above-Keeps 25 1 texts.press_any_key k _ (then_color 15 static) (omega arith) in
    let start = Follows-Keeps (construct_board r) k _ first (construct_board-Follows r k blank) in
    let (c, ends, f) =
      run-Goes texts decimal (construct_core r) hs (show_construct_core texts decimal k) start in
    (c, ends, f.shown.shown)
