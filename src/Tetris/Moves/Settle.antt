-- ===== src/Tetris/Moves/Settle.antt =====
-- A piece comes to rest: `placePiece`, the game-over test and the next piece.
use lgoptimus_l3pkg.Common.{
  ℕ, zero, suc, ◌+◌, ◌%◌, ◌<◌, ◌≡◌, refl, sym, ap, ◌∙◌, inl, inr, true, false, some, List, [], ◌∷◌,
  ◌++◌, arith, Bool-cases, length, get_or, All, All-append, All-replicate, replicate, length-append,
  length-replicate,
}
use lgoptimus_l3pkg.Common.Int.{◌+ℤ◌}
use lgoptimus_l3pkg.Tetris.Piece.{
  Point, Body, Bodies, Piece, Rand, current_body, at, randomize, construct_piece, target, rand,
  tetrimino_i, tetrimino_j, tetrimino_l, tetrimino_o, tetrimino_s, tetrimino_t, tetrimino_z,
}
use lgoptimus_l3pkg.Tetris.Board.{Board, Fields, field, row}
use lgoptimus_l3pkg.Tetris.Lines.{check_and_remove_lines, with_lines}
use lgoptimus_l3pkg.Tetris.Lines.Rows.{is_full}
use lgoptimus_l3pkg.Tetris.Lines.Shift.{IsRow}
use lgoptimus_l3pkg.Tetris.Lines.Reference.{kept, full_lines, check_and_remove_lines_lem}
use lgoptimus_l3pkg.Tetris.Moves.{is_above, is_game_over, load_next_piece, place_piece}
use lgoptimus_l3pkg.Tetris.Moves.Cells.{HasSize, IsInside, covers}
use lgoptimus_l3pkg.Tetris.Moves.Clear.{IsReady, IsSound}

four_solid :
    (a b c d : Point) (ka kb kc kd : Body) (r : ℕ)
    → r < 4
    → (q : Point) × (qs : Body) × (get_or ((a ∷ ka) ∷ (b ∷ kb) ∷ (c ∷ kc) ∷ (d ∷ kd) ∷ []) r []
        ≡ q ∷ qs)
four_solid a b c d ka kb kc kd zero h = (a, ka, refl)
four_solid a b c d ka kb kc kd (suc zero) h = (b, kb, refl)
four_solid a b c d ka kb kc kd (suc (suc zero)) h = (c, kc, refl)
four_solid a b c d ka kb kc kd (suc (suc (suc zero))) h = (d, kd, refl)
four_solid a b c d ka kb kc kd (suc (suc (suc (suc r)))) h = absurd (omega arith)

-- Every body that `randomize` selects can start at the top, and has no empty rotation.
target_lem :
    (n : ℕ)
    → n < 7
    → (shape : Bodies) × (c : ℕ) × (target n ≡ some (shape, c))
      × All (IsInside (at 4 0)) (get_or shape 0 [])
      × ((r : ℕ) → r < 4 → (q : Point) × (qs : Body) × (get_or shape r [] ≡ q ∷ qs))
unfolding target ◌+ℤ◌
target_lem zero h = (
  tetrimino_i,
  0x0b,
  refl,
  ((refl, refl), ((refl, refl), ((refl, refl), ((refl, refl), tt)))),
  four_solid _ _ _ _ _ _ _ _,
)
target_lem (suc zero) h = (
  tetrimino_j,
  0x09,
  refl,
  ((refl, refl), ((refl, refl), ((refl, refl), ((refl, refl), tt)))),
  four_solid _ _ _ _ _ _ _ _,
)
target_lem (suc (suc zero)) h = (
  tetrimino_l,
  0x02,
  refl,
  ((refl, refl), ((refl, refl), ((refl, refl), ((refl, refl), tt)))),
  four_solid _ _ _ _ _ _ _ _,
)
target_lem (suc (suc (suc zero))) h = (
  tetrimino_o,
  0x0e,
  refl,
  ((refl, refl), ((refl, refl), ((refl, refl), ((refl, refl), tt)))),
  four_solid _ _ _ _ _ _ _ _,
)
target_lem (suc (suc (suc (suc zero)))) h = (
  tetrimino_s,
  0x0a,
  refl,
  ((refl, refl), ((refl, refl), ((refl, refl), ((refl, refl), tt)))),
  four_solid _ _ _ _ _ _ _ _,
)
target_lem (suc (suc (suc (suc (suc zero))))) h = (
  tetrimino_t,
  0x05,
  refl,
  ((refl, refl), ((refl, refl), ((refl, refl), ((refl, refl), tt)))),
  four_solid _ _ _ _ _ _ _ _,
)
target_lem (suc (suc (suc (suc (suc (suc zero)))))) h = (
  tetrimino_z,
  0x0d,
  refl,
  ((refl, refl), ((refl, refl), ((refl, refl), ((refl, refl), tt)))),
  four_solid _ _ _ _ _ _ _ _,
)
target_lem (suc (suc (suc (suc (suc (suc (suc n))))))) h = absurd (omega arith)

-- Whatever piece it is given, `randomize` makes it one that can start.
pub randomize-IsReady : (r : Rand) (p : Piece) → IsReady (randomize r p).0
unfolding randomize
randomize-IsReady r p =
    let (shape, c, e, inside, solid) = target_lem ((rand r).0 % 7) (omega arith) in
    rw (e, randomize)
      (record {
        turned = record { in_turn = omega arith; at_turn = refl; solid = solid };
        fits = inside;
      })

pub construct_piece-IsReady : (r : Rand) → IsReady (construct_piece r).0
unfolding construct_piece
construct_piece-IsReady r = randomize-IsReady (rand r).1 _

-- With an empty top, the next piece comes in.
pub load-IsSound :
    (b : Board)
    → HasSize b.fields
    → ((y x : ℕ) → y < 2 → x < 10 → field b.fields y x ≡ 0)
    → IsReady b.next_piece
    → IsSound (load_next_piece b)
unfolding load_next_piece
load-IsSound b size top ready = record {
  size = size;
  top = λ y x hy hx n. top y x hy hx;
  fits = ready.fits;
  turned = record {
    in_turn = ready.turned.in_turn;
    at_turn = ready.turned.at_turn;
    solid = ready.turned.solid;
  };
  next = randomize-IsReady b.random b.active_piece;
}

-- If no field of the piece is in the invisible rows, it covers none of theirs.
covers_of_not_above :
    (at_pos : Point) (ps : Body) (y x : ℕ)
    → is_above at_pos ps ≡ false
    → y < 2
    → covers at_pos ps y x ≡ false
unfolding covers is_above
covers_of_not_above at_pos [] y x h hy = refl
covers_of_not_above at_pos (p ∷ ps) y x h hy = ground (arith, covers_of_not_above at_pos ps y x)

-- Fields of the right size, as the list that the line removal takes apart.
All-IsRow : (fs : Fields) → ((y : ℕ) → y < length fs → length (row fs y) ≡ 10) → All IsRow fs
All-IsRow [] h = tt
All-IsRow (r ∷ fs) h = (h 0 (omega arith), All-IsRow fs (λ y hy. h (suc y) (omega arith)))

row-IsRow : (fs : Fields) (y : ℕ) → All IsRow fs → y < length fs → IsRow (row fs y)
row-IsRow [] y h hy = absurd (omega arith)
row-IsRow (r ∷ fs) zero h hy = h.0
row-IsRow (r ∷ fs) (suc y) h hy = row-IsRow fs y h.1 (omega arith)

kept-All : (fs : Fields) → All IsRow fs → All IsRow (kept fs)
kept-All [] h = tt
kept-All (r ∷ fs) h = elim (Bool-cases (is_full r)) [
  | inl e ↦ rw e (kept-All fs h.1)
  | inr n ↦ rw n (h.0, kept-All fs h.1)
]

length-kept : (fs : Fields) → full_lines fs + length (kept fs) ≡ length fs
length-kept [] = omega arith
length-kept (r ∷ fs) = ground (arith, length-kept fs)

first_empty : (r : List ℕ) → IsRow r → get_or r 0 0 ≡ 0 → is_full r ≡ false
first_empty [] h e = absurd (omega arith)
first_empty (c ∷ r) h e = ground arith

three_parts :
    (fs : Fields) → length fs ≡ 22 → (a b : List ℕ) × (rest : Fields) × (fs ≡ a ∷ b ∷ rest)
three_parts [] h = absurd (omega arith)
three_parts (a ∷ []) h = absurd (omega arith)
three_parts (a ∷ b ∷ rest) h = (a, b, rest, refl)

same_top :
    (r0 r1 : List ℕ) (xs ys : Fields) (y x : ℕ)
    → y < 2
    → field (r0 ∷ r1 ∷ xs) y x ≡ field (r0 ∷ r1 ∷ ys) y x
same_top r0 r1 xs ys zero x h = refl
same_top r0 r1 xs ys (suc zero) x h = refl
same_top r0 r1 xs ys (suc (suc y)) x h = absurd (omega arith)

-- Removing lines below an empty top ends, and keeps the size and the empty top.
lines-clear :
    (b : Board)
    → HasSize b.fields
    → ((y x : ℕ) → y < 2 → x < 10 → field b.fields y x ≡ 0)
    → (r : Fields × ℕ) × (check_and_remove_lines b ≡ some (with_lines b r))
      × HasSize r.0
      × ((y x : ℕ) → y < 2 → x < 10 → field r.0 y x ≡ 0)
lines-clear b size top =
    let (r0, r1, rest, e) = three_parts b.fields size.height in
    let all : All IsRow (r0 ∷ r1 ∷ rest) =
      rw e at (All-IsRow b.fields (λ y hy. size.width y (omega (arith, size.height)))) in
    let len : length rest ≡ 20 = omega (arith, ap length e, size.height) in
    let top' : (y x : ℕ) → y < 2 → x < 10 → field (r0 ∷ r1 ∷ rest) y x ≡ 0 =
      λ y x hy hx. ap (λ f. field f y x) (sym e) ∙ top y x hy hx in
    let open_row = first_empty r1 all.1.0 (top' 1 0 (omega arith) (omega arith)) in
    let k = full_lines rest in
    let below = replicate k r1 ++ kept rest in
    let height : length (r0 ∷ r1 ∷ below) ≡ 22 = omega (
      arith,
      length-append (replicate k r1) (kept rest),
      length-replicate k r1,
      length-kept rest,
    ) in
    let rows : All IsRow (r0 ∷ r1 ∷ below) = (
      all.0,
      (
        all.1.0,
        All-append IsRow (replicate k r1) (kept rest) (All-replicate IsRow k r1 all.1.0)
            (kept-All rest all.1.1),
      ),
    ) in
    (
      (r0 ∷ r1 ∷ below, k),
      check_and_remove_lines_lem b r0 r1 rest e len all.1 open_row,
      record { height = height; width = λ y hy. row-IsRow (r0 ∷ r1 ∷ below) y rows (omega arith) },
      λ y x hy hx. same_top r0 r1 below rest y x hy ∙ top' y x hy hx,
    )

-- A sound board on which a piece has come to rest: `placePiece` ends, on a sound board.
pub place_piece-IsSound :
    (b : Board) → IsSound b → (b' : Board) × (place_piece b ≡ some b') × IsSound b'
unfolding place_piece is_game_over
place_piece-IsSound b s =
    let at_pos = b.active_piece.pos in
    let body = current_body b.active_piece in
    elim (Bool-cases (is_above at_pos body)) [
      | inl over ↦ (
        record b { blocked = true },
        rw over,
        record { size = s.size; top = s.top; fits = s.fits; turned = s.turned; next = s.next },
      )
      | inr rests ↦
          let (r, e, size, top) =
            lines-clear b s.size
              (λ y x hy hx. s.top y x hy hx (covers_of_not_above at_pos body y x rests hy)) in
          (
            load_next_piece (with_lines b r),
            rw (rests, e),
            load-IsSound (with_lines b r) size top s.next,
          )
    ]
