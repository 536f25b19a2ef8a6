-- ===== src/Tests/Game.antt =====
-- The game, at concrete inputs.
use lgoptimus_l3pkg.Common.{
  ℕ, ◌≡◌, refl, false, some, List, [], ◌∷◌, ◌++◌, replicate, All, All-append, All-replicate,
}
use lgoptimus_l3pkg.Tetris.Piece.{Rand}
use lgoptimus_l3pkg.Tetris.Board.{Board, Fields}
use lgoptimus_l3pkg.Tetris.Lines.{check_and_remove_lines, with_lines}
use lgoptimus_l3pkg.Tetris.Lines.Shift.{IsRow}
use lgoptimus_l3pkg.Tetris.Lines.Reference.{full_lines, kept, check_and_remove_lines_lem}
use lgoptimus_l3pkg.Tetris.Moves.{construct_board}
use lgoptimus_l3pkg.Tetris.Core.{Core, Key, tick, frame, construct_core, run}
use lgoptimus_l3pkg.Tetris.Core.Game.{IsLive, run-IsLive}

abbrev clock : Rand
clock = record { second = 42; previous_value = 0; initialized = false }

abbrev fresh : Board
fresh = construct_board clock

abbrev empty_row : List ℕ
empty_row = replicate 10 0

abbrev full_row : List ℕ
full_row = replicate 10 5

abbrev stack : Fields
stack = replicate 17 empty_row ++ (full_row ∷ (5 ∷ replicate 9 0) ∷ full_row ∷ [])

abbrev piled : Board
piled = record fresh { fields = empty_row ∷ empty_row ∷ stack }

stack-rows : All IsRow (empty_row ∷ stack)
stack-rows = (
  refl,
  All-append IsRow (replicate 17 empty_row) (full_row ∷ (5 ∷ replicate 9 0) ∷ full_row ∷ [])
      (All-replicate IsRow 17 empty_row refl) (refl, (refl, (refl, tt))),
)

check_and_remove_lines_lem_example :
    check_and_remove_lines piled
    ≡ some (
        with_lines piled (
          empty_row ∷ empty_row ∷ (replicate (full_lines stack) empty_row ++ kept stack),
          full_lines stack,
        ))
check_and_remove_lines_lem_example =
    check_and_remove_lines_lem piled empty_row empty_row stack refl refl stack-rows refl

-- Two rows were full.
two_full : full_lines stack ≡ 2
two_full = refl

abbrev home : Key
home = record { scan_code = 5; unicode_char = 0 }

run-IsLive_example :
    (c : Core) × (run
        (some (construct_core clock))
        (frame (some home) ∷ tick ∷ frame (some home) ∷ [])
      ≡ some c)
    × IsLive c
run-IsLive_example = run-IsLive clock (frame (some home) ∷ tick ∷ frame (some home) ∷ [])
