-- ===== src/Tetris/Screen/Play.antt =====
-- Each move of HtcLeoPkg/Application/TetrisApp/Board.c, and a new board, with the console.
use mathlib.Core.Path.{subst}
use lgoptimus_l3pkg.Common.{
  ℕ, zero, suc, ◌+◌, ◌-◌, ◌*◌, ◌<◌, ◌≡◌, sym, ap, ◌∙◌, inl, inr, Bool, true, false, Option, some,
  [], arith, Bool-cases, get_or, replicate, get_or-replicate_self,
}
use lgoptimus_l3pkg.Tetris.Piece.{Rand, construct_piece, rand}
use lgoptimus_l3pkg.Tetris.Board.{
  Board, draw_fields_occupied_by_piece, mark_fields_occupied_by_piece,
}
use lgoptimus_l3pkg.Tetris.Moves.{
  move_piece_left, move_piece_right, rotate_piece, move_piece_down, drop_next, drop_loop,
  drop_piece, with_bonus, redraw_shifted, construct_board,
}
use lgoptimus_l3pkg.Tetris.Moves.Sound.{
  move_piece_left-IsSound, move_piece_right-IsSound, rotate_piece-IsSound, move_piece_down-IsSound,
  depth, depth-lt,
}
use lgoptimus_l3pkg.Tetris.Core.Game.{construct_board-IsSound, get_or-replicate}
use lgoptimus_l3pkg.Tetris.Screen.{
  Console, show_move_piece_left, show_move_piece_right, show_rotate_piece, show_move_piece_down,
  show_next, show_drop_loop, show_drop_piece,
}
use lgoptimus_l3pkg.Tetris.Screen.Fields.{looks}
use lgoptimus_l3pkg.Tetris.Screen.Moves.{
  move_piece_left-IsShown, move_piece_right-IsShown, rotate_piece-IsShown,
}
use lgoptimus_l3pkg.Tetris.Screen.Settle.{
  IsHigh, Follows, randomize-IsHigh, load-IsShown, move_piece_down-IsShown,
}

left-IsHigh : (b : Board) → IsHigh b.next_piece → IsHigh (move_piece_left b).next_piece
unfolding move_piece_left redraw_shifted mark_fields_occupied_by_piece draw_fields_occupied_by_piece
left-IsHigh b high =
    let same : (move_piece_left b).next_piece ≡ b.next_piece = ground arith in
    subst IsHigh (sym same) high

right-IsHigh : (b : Board) → IsHigh b.next_piece → IsHigh (move_piece_right b).next_piece
unfolding move_piece_right redraw_shifted mark_fields_occupied_by_piece
    draw_fields_occupied_by_piece
right-IsHigh b high =
    let same : (move_piece_right b).next_piece ≡ b.next_piece = ground arith in
    subst IsHigh (sym same) high

rotate-IsHigh : (b : Board) → IsHigh b.next_piece → IsHigh (rotate_piece b).next_piece
unfolding rotate_piece mark_fields_occupied_by_piece draw_fields_occupied_by_piece
rotate-IsHigh b high =
    let same : (rotate_piece b).next_piece ≡ b.next_piece = ground arith in
    subst IsHigh (sym same) high

pub down-Follows :
    (b : Board) (k : Console)
    → Follows b k
    → (moved : Bool) × (b' : Board) × (move_piece_down b ≡ some (moved, b'))
      × Follows b' (show_move_piece_down b k)
      × (moved ≡ true → depth b' ≡ suc (depth b))
down-Follows b k f =
    let (moved, b', ends, sound, deep) = move_piece_down-IsSound b f.sound in
    let (shown, high) = move_piece_down-IsShown b b' moved k f.sound f.shown f.high ends in
    (moved, b', ends, record { sound = sound; shown = shown; high = high }, deep)

drop_loop-Follows :
    (fuel : ℕ) (b : Board) (height : ℕ) (k : Console)
    → Follows b k
    → 22 - depth b < fuel
    → (b' : Board) × (height' : ℕ) × (drop_loop fuel b height ≡ some (b', height'))
      × Follows b' (show_drop_loop fuel b k)
unfolding drop_loop show_drop_loop
drop_loop-Follows zero b height k f h = absurd (omega arith)
drop_loop-Follows (suc fuel) b height k f h =
    let again = drop_next (λ b1. drop_loop fuel b1 (height + 1)) height in
    let draws = λ (r : Option (Bool × Board)).
      show_next (λ b1 k1. show_drop_loop fuel b1 k1) r (show_move_piece_down b k) in
    let (moved, b', e, f', deep) = down-Follows b k f in
    elim (Bool-cases moved) [
      | inl m ↦
          let step : move_piece_down b ≡ some (true, b') = e ∙ ap (λ c. some (c, b')) m in
          let (b'', height', ends, f'') =
            drop_loop-Follows fuel b' (height + 1) (show_move_piece_down b k) f'
              (omega (arith, deep m, depth-lt b f.sound)) in
          (b'', height', ap again step ∙ ends, subst (Follows b'') (sym (ap draws step)) f'')
      | inr n ↦
          let step : move_piece_down b ≡ some (false, b') = e ∙ ap (λ c. some (c, b')) n in
          (b', height, ap again step, subst (Follows b') (sym (ap draws step)) f')
    ]

pub drop_piece-Follows :
    (b : Board) (k : Console)
    → Follows b k
    → (b' : Board) × (drop_piece b ≡ some b') × Follows b' (show_drop_piece b k)
unfolding drop_piece show_drop_piece
drop_piece-Follows b k f =
    let (b', height, e, f') = drop_loop-Follows 24 b 0 k f (omega arith) in
    let s = f'.sound in
    (
      record b' { score = b'.score + 2 * height },
      ap with_bonus e,
      record {
        sound = record {
          size = s.size;
          top = s.top;
          fits = s.fits;
          turned = s.turned;
          next = s.next;
        };
        shown = record { shown = f'.shown.shown; drawn = f'.shown.drawn };
        high = f'.high;
      },
    )

pub left-Follows :
    (b : Board) (k : Console) → Follows b k → Follows (move_piece_left b) (show_move_piece_left b k)
left-Follows b k f = record {
  sound = move_piece_left-IsSound b f.sound;
  shown = move_piece_left-IsShown b k f.sound f.shown;
  high = left-IsHigh b f.high;
}

pub right-Follows :
    (b : Board) (k : Console)
    → Follows b k
    → Follows (move_piece_right b) (show_move_piece_right b k)
right-Follows b k f = record {
  sound = move_piece_right-IsSound b f.sound;
  shown = move_piece_right-IsShown b k f.sound f.shown;
  high = right-IsHigh b f.high;
}

pub rotate-Follows :
    (b : Board) (k : Console) → Follows b k → Follows (rotate_piece b) (show_rotate_piece b k)
rotate-Follows b k f = record {
  sound = rotate_piece-IsSound b f.sound;
  shown = rotate_piece-IsShown b k f.sound f.shown;
  high = rotate-IsHigh b f.high;
}

-- The console shows nothing anywhere.
abbrev pub IsBlank : Console → Type 0
IsBlank k = (x y : ℕ) → looks (k.cells x y) ≡ 0

construct_piece-IsHigh : (r : Rand) → IsHigh (construct_piece r).0
unfolding construct_piece
construct_piece-IsHigh r = randomize-IsHigh (rand r).1 _

pub construct_board-Follows : (r : Rand) (k : Console) → IsBlank k → Follows (construct_board r) k
unfolding construct_board
construct_board-Follows r k blank =
    let first = construct_piece r in
    let second = construct_piece first.1 in
    let empty : Board = record {
      next_piece = first.0;
      active_piece = second.0;
      fields = replicate 22 (replicate 10 0);
      blocked = false;
      level = 1;
      lines = 0;
      score = 0;
      random = second.1;
    } in
    let (shown, high) =
      load-IsShown empty k
        (record {
          shows = λ h y x small low high wide.
              blank (26 + 2 * x + h) (1 + y)
              ∙ sym (
                  ap (λ l. get_or l x 0) (get_or-replicate 22 y (replicate 10 0) [] high)
                  ∙ get_or-replicate_self 10 x 0);
        })
        (construct_piece-IsHigh r) in
    record { sound = construct_board-IsSound r; shown = shown; high = high }
