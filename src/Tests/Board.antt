-- ===== src/Tests/Board.antt =====
-- The game's console, at a concrete game.
use lgoptimus_l3pkg.Common.{ℕ, ◌≡◌, refl, false, none, some, List, [], ◌∷◌, arith}
use lgoptimus_l3pkg.Tetris.Piece.{Rand}
use lgoptimus_l3pkg.Tetris.Core.{Core, Happening, tick, frame, construct_core, run}
use lgoptimus_l3pkg.Tetris.Screen.{Console}
use lgoptimus_l3pkg.Tetris.Screen.Fields.{Shows}
use lgoptimus_l3pkg.Tetris.Screen.Window.{Texts, show_run, show_construct_core}
use lgoptimus_l3pkg.Tetris.Screen.Game.{show_run-Shows}

abbrev noon : Rand
noon = record { second = 12; previous_value = 0; initialized = false }

abbrev cleared : Console
cleared = record { text_color = 7; cells = λ x y. record { char = 0x20; color = 7 } }

-- Every text is one letter here.
abbrev letters : Texts
letters =
    let a : List ℕ = 0x41 ∷ [] in
    record {
      controls = a ∷ a ∷ [];
      next_up = a;
      level = a;
      lines = a;
      score = a;
      press_any_key = a;
      blank_24 = a;
      game_paused = a;
      blank_13 = a;
      game_over_text = a;
    }

abbrev digit : ℕ → List ℕ
digit n = 0x30 ∷ []

abbrev key : ℕ → ℕ → Happening
key scan char = frame (some (record { scan_code = scan; unicode_char = char }))

-- A key that starts the game, left, rotate, a frame without a key, and drop.
abbrev game : List Happening
game = key 0 0x20 ∷ tick ∷ key 1 0 ∷ key 0 9 ∷ frame none ∷ tick ∷ key 5 0 ∷ []

show_run-Shows_example :
    (c : Core) × (run (some (construct_core noon)) game ≡ some c)
    × Shows c.board.fields
        (show_run letters digit
          (some (construct_core noon))
          game
          (show_construct_core letters digit cleared)).console
show_run-Shows_example =
    show_run-Shows letters digit noon cleared game (λ x y. refl) (omega arith, (omega arith, tt))
