-- ===== src/Tetris/Core/Game.antt =====
-- A whole game (HtcLeoPkg/Application/TetrisApp/Core.c and main.c), over any happenings.
use lgoptimus_l3pkg.Common.{
  ℕ, zero, suc, ◌<◌, ◌≤◌, ◌≡◌, refl, sym, ap, ◌∙◌, inl, inr, Bool, true, false, not, ◌&&◌, Option,
  none, some, List, [], ◌∷◌, arith, ◌==◌, if◌then◌else◌, Bool-cases, get_or, replicate, length,
}
use mathlib.Core.Path.{subst}
use lgoptimus_l3pkg.Tetris.Piece.{Rand, construct_piece}
use lgoptimus_l3pkg.Tetris.Board.{Board}
use lgoptimus_l3pkg.Tetris.Moves.{
  rotate_piece, move_piece_left, move_piece_right, load_next_piece, move_piece_down, drop_piece,
  construct_board,
}
use lgoptimus_l3pkg.Tetris.Moves.Clear.{IsSound}
use lgoptimus_l3pkg.Tetris.Moves.Settle.{load-IsSound, construct_piece-IsReady}
use lgoptimus_l3pkg.Tetris.Moves.Level.{
  level-move_piece_down, level-drop_piece, level-rotate_piece, level-move_piece_left,
  level-move_piece_right,
}
use lgoptimus_l3pkg.Tetris.Moves.Sound.{
  move_piece_left-IsSound, move_piece_right-IsSound, rotate_piece-IsSound, move_piece_down-IsSound,
  drop_piece-IsSound,
}
use lgoptimus_l3pkg.Tetris.Core.{
  GameState, running, exited, toggled, is_running, is_running_or_paused, is_waiting, is_exited,
  Core, Key, Happening, tick, frame, handle_char, handle_key, handle_input, draw_window,
  timer_callback, construct_core, step, after_down, reset_after, on_board, ignore_result, then_draw,
  run, reset_tick_counter, start_game, toggle_pause, game_over,
}

pub record IsLive (c : Core) : Type 0 where
  pub sound : IsSound c.board
  pub level : c.board.level ≡ 1
  pub ticks : c.tick_counter ≤ 35

abbrev Continues : Option Core → Type 0
Continues o = (c : Core) × (o ≡ some c) × IsLive c

module _ (c : Core) (live : IsLive c) where
  with_board : (b : Board) → IsSound b → b.level ≡ 1 → IsLive (record c { board = b })
  with_board b s l = record { sound = s; level = l; ticks = live.ticks }

  reset-IsLive : IsLive (reset_tick_counter c)
  unfolding reset_tick_counter
  reset-IsLive = record {
    sound = live.sound;
    level = live.level;
    ticks = omega (arith, live.level);
  }

-- The three ways to move the piece down.
module _ (c : Core) (live : IsLive c) where
  after_down-Continues : Continues (after_down c (move_piece_down c.board))
  after_down-Continues =
      let (m, b, e, s, deep) = move_piece_down-IsSound c.board live.sound in
      let l = level-move_piece_down c.board b m e ∙ live.level in
      let next = with_board c live b s l in
      elim (Bool-cases m) [
        | inl y ↦ (record c { board = b }, ap (after_down c) (e ∙ ap (λ k. some (k, b)) y), next)
        | inr n ↦ (
          reset_tick_counter (record c { board = b }),
          ap (after_down c) (e ∙ ap (λ k. some (k, b)) n),
          reset-IsLive (record c { board = b }) next,
        )
      ]

  drop-Continues : Continues (reset_after (on_board c (drop_piece c.board)))
  drop-Continues =
      let (b, e, s) = drop_piece-IsSound c.board live.sound in
      let next = with_board c live b s (level-drop_piece c.board b e ∙ live.level) in
      (
        reset_tick_counter (record c { board = b }),
        ap (λ o. reset_after (on_board c o)) e,
        reset-IsLive (record c { board = b }) next,
      )

  falling-Continues : Continues (reset_after (on_board c (ignore_result (move_piece_down c.board))))
  falling-Continues =
      let (m, b, e, s, deep) = move_piece_down-IsSound c.board live.sound in
      let next = with_board c live b s (level-move_piece_down c.board b m e ∙ live.level) in
      (
        reset_tick_counter (record c { board = b }),
        ap (λ o. reset_after (on_board c (ignore_result o))) e,
        reset-IsLive (record c { board = b }) next,
      )

if-Continues :
    (t : Bool) (x y : Option Core) → Continues x → Continues y → Continues (if t then x else y)
if-Continues true x y hx hy = hx
if-Continues false x y hx hy = hy

-- A change of the state of the game alone.
module _ (c : Core) (live : IsLive c) where
  in_state-Continues : (g : GameState) → Continues (some (record c { game_state = g }))
  in_state-Continues g = (
    record c { game_state = g },
    refl,
    record { sound = live.sound; level = live.level; ticks = live.ticks },
  )

  handle_char-Continues : (ch : ℕ) → Continues (handle_char c ch)
  unfolding handle_char toggle_pause
  handle_char-Continues ch =
      let same : Continues (some c) = (c, refl, live) in
      let turned : Continues (some (record c { board = rotate_piece c.board })) = (
        record c { board = rotate_piece c.board },
        refl,
        with_board c live (rotate_piece c.board) (rotate_piece-IsSound c.board live.sound)
            (level-rotate_piece c.board ∙ live.level),
      ) in
      if-Continues (ch == 13) _ _
        (if-Continues (is_running c.game_state) _ _ (after_down-Continues c live) same)
        (if-Continues (ch == 9) _ _ (if-Continues (is_running c.game_state) _ _ turned same) (
          if-Continues (ch == 8) _ _
            (if-Continues (is_running_or_paused c.game_state) _ _
              (in_state-Continues (toggled c.game_state)) same)
            same))

  handle_key-Continues : (k : Key) → Continues (handle_key c k)
  unfolding handle_key
  handle_key-Continues k =
      let same : Continues (some c) = (c, refl, live) in
      let left : Continues (some (record c { board = move_piece_left c.board })) = (
        record c { board = move_piece_left c.board },
        refl,
        with_board c live (move_piece_left c.board) (move_piece_left-IsSound c.board live.sound)
            (level-move_piece_left c.board ∙ live.level),
      ) in
      let right : Continues (some (record c { board = move_piece_right c.board })) = (
        record c { board = move_piece_right c.board },
        refl,
        with_board c live (move_piece_right c.board) (move_piece_right-IsSound c.board live.sound)
            (level-move_piece_right c.board ∙ live.level),
      ) in
      if-Continues (k.scan_code == 5) _ _
        (if-Continues (is_running c.game_state) _ _ (drop-Continues c live) same)
        (if-Continues (k.scan_code == 1) _ _ (if-Continues (is_running c.game_state) _ _ left same)
          (if-Continues (k.scan_code == 2) _ _
            (if-Continues (is_running c.game_state) _ _ right same)
            (if-Continues (k.scan_code == 0x17) _ _ (in_state-Continues exited)
              (handle_char-Continues k.unicode_char))))

  handle_input-Continues : (k : Option Key) → Continues (handle_input c k)
  unfolding handle_input start_game
  handle_input-Continues none = (c, refl, live)
  handle_input-Continues (some k) =
      if-Continues (is_waiting c.game_state) _ _ (in_state-Continues running)
        (handle_key-Continues k)

draw_window-Continues : (c : Core) → IsLive c → Continues (draw_window c)
unfolding draw_window game_over
draw_window-Continues c live = elim (Bool-cases (is_running c.game_state && c.board.blocked)) [
  | inl e ↦
      rw e (
        ended (game_over c) (record { sound = live.sound; level = live.level; ticks = live.ticks }))
  | inr n ↦ rw n (ended c live)
]
  where
    ended :
        (c' : Core)
        → IsLive c'
        → Continues (
            if c'.tick_counter == 0
            then reset_after (on_board c' (ignore_result (move_piece_down c'.board)))
            else some c')
    ended c' l = if-Continues (c'.tick_counter == 0) _ _ (falling-Continues c' l) (c', refl, l)

timer_callback-IsLive : (c : Core) → IsLive c → IsLive (timer_callback c)
unfolding timer_callback
timer_callback-IsLive c live =
    elim (Bool-cases (is_running c.game_state && not (c.tick_counter == 0))) [
      | inl e ↦ rw e (record { sound = live.sound; level = live.level; ticks = omega arith })
      | inr n ↦ rw n live
    ]

step-Continues : (c : Core) (h : Happening) → IsLive c → Continues (step c h)
unfolding step
step-Continues c tick live = (timer_callback c, refl, timer_callback-IsLive c live)
step-Continues c (frame k) live =
    let (c', e, live') = handle_input-Continues c live k in
    if-Continues (is_exited c.game_state) _ _ (c, refl, live)
      (subst (λ o. Continues (then_draw o)) (sym e) (draw_window-Continues c' live'))

run-Continues : (c : Core) (hs : List Happening) → IsLive c → Continues (run (some c) hs)
unfolding run
run-Continues c [] live = (c, refl, live)
run-Continues c (h ∷ hs) live =
    let (c', e, live') = step-Continues c h live in
    subst (λ o. Continues (run o hs)) (sym e) (run-Continues c' hs live')

pub get_or-replicate {ℓ} : {A : Type ℓ} (n i : ℕ) (a d : A) → i < n → get_or (replicate n a) i d ≡ a
get_or-replicate zero i a d h = absurd (omega arith)
get_or-replicate (suc n) zero a d h = refl
get_or-replicate (suc n) (suc i) a d h = get_or-replicate n i a d (omega arith)

pub construct_board-IsSound : (r : Rand) → IsSound (construct_board r)
unfolding construct_board
construct_board-IsSound r =
    let seeded = (construct_piece r).1 in
    load-IsSound _
      (record {
        height = refl;
        width = λ y hy. ap length (get_or-replicate 22 y (replicate 10 0) [] hy);
      })
      (λ y x hy hx.
        ap (λ l. get_or l x 0) (get_or-replicate 22 y (replicate 10 0) [] (omega arith))
        ∙ get_or-replicate 10 x 0 0 hx)
      (construct_piece-IsReady r)

level-construct_board : (r : Rand) → (construct_board r).level ≡ 1
unfolding construct_board load_next_piece
level-construct_board r = refl

pub construct_core-IsLive : (r : Rand) → IsLive (construct_core r)
unfolding construct_core
construct_core-IsLive r = record {
  sound = construct_board-IsSound r;
  level = level-construct_board r;
  ticks = omega arith;
}

-- Whatever keys are pressed and however often the timer fires, a new game goes on: no loop of a
-- move runs out of fuel, and the board stays sound, which says that the active piece lies on the
-- board and that nothing else occupies the invisible rows. The level is still 1, and the tick
-- counter is at most 35.
pub run-IsLive :
    (r : Rand) (hs : List Happening)
    → (c : Core) × (run (some (construct_core r)) hs ≡ some c) × IsLive c
run-IsLive r hs = run-Continues (construct_core r) hs (construct_core-IsLive r)
