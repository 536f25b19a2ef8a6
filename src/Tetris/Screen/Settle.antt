-- ===== src/Tetris/Screen/Settle.antt =====
-- The console shows the board when a piece comes to rest (HtcLeoPkg/Application/TetrisApp/Board.c), and
-- after any moves of a game.
use lgoptimus_l3pkg.Common.{
  ℕ, zero, suc, ◌%◌, ◌<◌, ◌≤◌, ◌≡◌, refl, inl, inr, Bool, true, false, Option, none, some, [],
  arith, Bool-cases, get_or,
}
use mathlib.Core.Path.{subst}
use lgoptimus_l3pkg.Common.Int.{ℤ, pos, ◌+ℤ◌}
use lgoptimus_l3pkg.Tetris.Piece.{
  Bodies, Piece, Rand, current_body, at, randomize, target, rand, tetrimino_i, tetrimino_j,
  tetrimino_l, tetrimino_o, tetrimino_s, tetrimino_t, tetrimino_z,
}
use lgoptimus_l3pkg.Tetris.Board.{
  Board, Fields as BoardFields, is_move_possible, mark_fields_occupied_by_piece,
  draw_fields_occupied_by_piece,
}
use lgoptimus_l3pkg.Tetris.Lines.{lines_loop, check_and_remove_lines, finish_lines, with_lines}
use lgoptimus_l3pkg.Tetris.Moves.{
  is_game_over, load_next_piece, then_load, place_piece, move_piece_down, stopped, redraw_shifted,
}
use lgoptimus_l3pkg.Tetris.Moves.Cells.{HasSize, covers}
use lgoptimus_l3pkg.Tetris.Moves.Clear.{IsSound, erase-IsClear, mark-IsSound}
use lgoptimus_l3pkg.Tetris.Screen.{
  Console, put_lines, put_shifted, show_place_piece, show_move_piece_down,
}
use lgoptimus_l3pkg.Tetris.Screen.Fields.{Shows}
use lgoptimus_l3pkg.Tetris.Screen.Rows.{lines-InStep}
use lgoptimus_l3pkg.Tetris.Screen.Moves.{IsShown, shifted-IsShown, marked_again-IsShown}

-- A piece that starts covers no visible field.
abbrev pub IsHigh : Piece → Type 0
IsHigh p = (y x : ℕ) → 2 ≤ y → covers (at 4 0) (current_body p) y x ≡ false

target-IsHigh :
    (n : ℕ)
    → n < 7
    → (shape : Bodies) × (c : ℕ) × (target n ≡ some (shape, c))
      × ((y x : ℕ) → 2 ≤ y → covers (at 4 0) (get_or shape 0 []) y x ≡ false)
unfolding target covers ◌+ℤ◌
target-IsHigh zero h = (tetrimino_i, 0x0b, refl, λ y x low. ground arith)
target-IsHigh (suc zero) h = (tetrimino_j, 0x09, refl, λ y x low. ground arith)
target-IsHigh (suc (suc zero)) h = (tetrimino_l, 0x02, refl, λ y x low. ground arith)
target-IsHigh (suc (suc (suc zero))) h = (tetrimino_o, 0x0e, refl, λ y x low. ground arith)
target-IsHigh (suc (suc (suc (suc zero)))) h = (tetrimino_s, 0x0a, refl, λ y x low. ground arith)
target-IsHigh (suc (suc (suc (suc (suc zero))))) h =
    (tetrimino_t, 0x05, refl, λ y x low. ground arith)
target-IsHigh (suc (suc (suc (suc (suc (suc zero)))))) h =
    (tetrimino_z, 0x0d, refl, λ y x low. ground arith)
target-IsHigh (suc (suc (suc (suc (suc (suc (suc n))))))) h = absurd (omega arith)

pub randomize-IsHigh : (r : Rand) (p : Piece) → IsHigh (randomize r p).0
unfolding randomize
randomize-IsHigh r p =
    let (shape, c, e, high) = target-IsHigh ((rand r).0 % 7) (omega arith) in rw (e, randomize) high

-- The board is sound, the console shows it, and the next piece starts above what is visible.
pub record Follows (b : Board) (k : Console) : Type 0 where
  pub sound : IsSound b
  pub shown : IsShown b k
  pub high : IsHigh b.next_piece

-- The next piece comes in.
pub load-IsShown :
    (b : Board) (k : Console)
    → Shows b.fields k
    → IsHigh b.next_piece
    → IsShown (load_next_piece b) k × IsHigh (load_next_piece b).next_piece
unfolding load_next_piece
load-IsShown b k sh high = (
  record {
    shown = record { shows = sh.shows };
    drawn = λ y x low high' wide cov. absurd (contradiction (high y x low) cov);
  },
  randomize-IsHigh b.random b.active_piece,
)
  where
    contradiction : {c : Bool} → c ≡ false → c ≡ true → ⊥
    contradiction e e' = cc

-- The board after the loop over the lines, and the next piece.
settled-IsShown :
    (b : Board) (k : Console) (r : Option (BoardFields × ℕ))
    → HasSize b.fields
    → Shows b.fields k
    → IsHigh b.next_piece
    → lines_loop 41 21 b.fields 0 ≡ r
    → (b' : Board) → then_load (finish_lines b r) ≡ some b'
    → IsShown b' (put_lines 41 21 b.fields k) × IsHigh b'.next_piece
settled-IsShown b k none size sh high e b' ends = cc
settled-IsShown b k (some (fs, counter)) size sh high e b' ends =
    let step = lines-InStep 41 21 b.fields fs 0 counter k (omega arith) (size, sh) e in
    let same : load_next_piece (with_lines b (fs, counter)) ≡ b' = ground (arith, ends) in
    subst (λ c. IsShown c (put_lines 41 21 b.fields k) × IsHigh c.next_piece) same
      (load-IsShown (with_lines b (fs, counter)) (put_lines 41 21 b.fields k) step.1 high)

place_piece-IsShown :
    (b b' : Board) (k : Console)
    → IsSound b
    → IsShown b k
    → IsHigh b.next_piece
    → place_piece b ≡ some b'
    → IsShown b' (show_place_piece b k) × IsHigh b'.next_piece
unfolding place_piece show_place_piece check_and_remove_lines
place_piece-IsShown b b' k s sh high ends = elim (Bool-cases (is_game_over b)) [
  | inl over ↦
      let same : record b { blocked = true } ≡ b' = ground (arith, over, ends) in
      rw over (
        subst (λ c. IsShown c k × IsHigh c.next_piece) same
          (record { shown = sh.shown; drawn = sh.drawn }, high))
  | inr rests ↦
      let ends' : then_load (finish_lines b (lines_loop 41 21 b.fields 0)) ≡ some b' =
        rw rests at ends in
      rw rests
        (settled-IsShown b k (lines_loop 41 21 b.fields 0) s.size sh.shown high refl b' ends')
]

stopped-some :
    (o : Option Board) (moved : Bool) (b' : Board) → stopped o ≡ some (moved, b') → o ≡ some b'
stopped-some none moved b' e = cc
stopped-some (some b) moved b' e = ground (arith, e)

shifted-IsHigh :
    (b : Board) (dx dy : ℤ)
    → IsHigh b.next_piece
    → IsHigh (redraw_shifted (mark_fields_occupied_by_piece b 0) dx dy).next_piece
unfolding redraw_shifted draw_fields_occupied_by_piece mark_fields_occupied_by_piece
shifted-IsHigh b dx dy high = high

marked-IsHigh :
    (b : Board) (c : ℕ)
    → IsHigh b.next_piece
    → IsHigh (mark_fields_occupied_by_piece (mark_fields_occupied_by_piece b 0) c).next_piece
unfolding mark_fields_occupied_by_piece
marked-IsHigh b c high = high

-- The console shows the board after the piece has moved down or come to rest.
pub move_piece_down-IsShown :
    (b b' : Board) (moved : Bool) (k : Console)
    → IsSound b
    → IsShown b k
    → IsHigh b.next_piece
    → move_piece_down b ≡ some (moved, b')
    → IsShown b' (show_move_piece_down b k) × IsHigh b'.next_piece
unfolding move_piece_down show_move_piece_down
move_piece_down-IsShown b b' moved k s sh high ends =
    let b0 = mark_fields_occupied_by_piece b 0 in
    let b1 = mark_fields_occupied_by_piece b0 b0.active_piece.color in
    let s0 = erase-IsClear b s in
    elim (Bool-cases (is_move_possible b0 (pos 0) (pos 1))) [
      | inl e ↦
          let same : redraw_shifted b0 (pos 0) (pos 1) ≡ b' = ground (arith, e, ends) in
          rw e (
            subst
              (λ c. IsShown c (put_shifted b.active_piece (pos 0) (pos 1) k) × IsHigh c.next_piece)
              same
              (shifted-IsShown b k (pos 0) (pos 1) s sh e, shifted-IsHigh b (pos 0) (pos 1) high))
      | inr n ↦
          let placed : stopped (place_piece b1) ≡ some (moved, b') = rw n at ends in
          rw n (
            place_piece-IsShown b1 b' k (mark-IsSound b0 b0.active_piece.color s0)
              (marked_again-IsShown b k s sh) (marked-IsHigh b b0.active_piece.color high)
              (stopped-some (place_piece b1) moved b' placed))
    ]
