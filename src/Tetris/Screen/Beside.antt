-- ===== src/Tetris/Screen/Beside.antt =====
-- What HtcLeoPkg/Application/TetrisApp/Board.c prints beside the fields leaves them alone.
use lgoptimus_l3pkg.Common.{
  ℕ, zero, suc, ◌+◌, ◌*◌, ◌<◌, ◌≤◌, ◌≡◌, refl, ◌∙◌, ◌⊎◌, inl, inr, ◌||◌, List, [], ◌∷◌, ◌++◌, arith,
  length, All, ◌==◌, if◌then◌else◌, Bool-cases,
}
use lgoptimus_l3pkg.Common.Int.{ℤ, pos, negsuc}
use lgoptimus_l3pkg.Tetris.Piece.{Body, Piece, current_body}
use lgoptimus_l3pkg.Tetris.Board.{Board, Fields as BoardFields}
use lgoptimus_l3pkg.Tetris.Screen.{Console, set_text_color, putcharx}
use lgoptimus_l3pkg.Tetris.Screen.Fields.{Shows, seen}
use lgoptimus_l3pkg.Tetris.Screen.Text.{
  print, print_lines, put_rows, put_columns, put_next_frame, put_board_frame, draw_static_elements,
  put_pair, put_next, clear_frame, draw_next_up, draw_board,
}

-- A place where no field of the board is.
abbrev pub IsBeside : ℕ → ℕ → Type 0
IsBeside x y = ((x < 26) ⊎ (45 < x)) ⊎ ((y < 3) ⊎ (22 < y))

-- The fields look as before.
pub record Keeps (k k' : Console) : Type 0 where
  pub same : (h y x : ℕ) → h < 2 → 2 ≤ y → y < 22 → x < 10 → seen k' h y x ≡ seen k h y x

pub Keeps-trans : {k k' k'' : Console} → Keeps k k' → Keeps k' k'' → Keeps k k''
Keeps-trans a b = record {
  same = λ h y x small low high wide.
      b.same h y x small low high wide ∙ a.same h y x small low high wide;
}

pub Keeps-Shows : (fs : BoardFields) (k k' : Console) → Keeps k k' → Shows fs k → Shows fs k'
Keeps-Shows fs k k' a sh = record {
  shows = λ h y x small low high wide.
      a.same h y x small low high wide ∙ sh.shows h y x small low high wide;
}

pub color-Keeps : (c : ℕ) (k : Console) → Keeps k (set_text_color c k)
unfolding set_text_color
color-Keeps c k = record { same = λ h y x small low high wide. refl }

putcharx-Keeps : (x y c : ℕ) (k : Console) → IsBeside x y → Keeps k (putcharx x y c k)
unfolding putcharx
putcharx-Keeps x y c k beside = record { same = λ h y' x' small low high wide. ground arith }

then_putcharx :
    {k k' : Console} (x y c : ℕ) → Keeps k k' → IsBeside x y → Keeps k (putcharx x y c k')
then_putcharx {k' = k'} x y c a beside = Keeps-trans a (putcharx-Keeps x y c k' beside)

pub then_color : {k k' : Console} (c : ℕ) → Keeps k k' → Keeps k (set_text_color c k')
then_color {k' = k'} c a = Keeps-trans a (color-Keeps c k')

-- A text above the board.
pub print_above-Keeps :
    (x y : ℕ) (cs : List ℕ) (k k' : Console) → Keeps k k' → y < 3 → Keeps k (print x y cs k')
unfolding print
print_above-Keeps x y [] k k' a above = a
print_above-Keeps x y (c ∷ cs) k k' a above =
    print_above-Keeps (x + 1) y cs k (putcharx x y c k') (then_putcharx x y c a (inr (inl above)))
      above

-- A text that ends before the board, or begins behind it.
print-Keeps :
    (x y : ℕ) (cs : List ℕ) (k k' : Console)
    → Keeps k k'
    → (x + length cs ≤ 26) ⊎ (45 < x)
    → Keeps k (print x y cs k')
unfolding print
print-Keeps x y [] k k' a fits = a
print-Keeps x y (c ∷ cs) k k' a (inl before) =
    print-Keeps (x + 1) y cs k (putcharx x y c k') (then_putcharx x y c a (inl (inl (omega arith))))
      (inl (omega arith))
print-Keeps x y (c ∷ cs) k k' a (inr behind) =
    print-Keeps (x + 1) y cs k (putcharx x y c k') (then_putcharx x y c a (inl (inr behind)))
      (inr (omega arith))

print_lines-Keeps :
    (y : ℕ) (ls : List (List ℕ)) (k k' : Console)
    → Keeps k k'
    → All (λ l. length l ≤ 26) ls
    → Keeps k (print_lines y ls k')
unfolding print_lines
print_lines-Keeps y [] k k' a short = a
print_lines-Keeps y (l ∷ ls) k k' a short =
    print_lines-Keeps (y + 1) ls k (print 0 y l k')
      (print-Keeps 0 y l k k' a (inl (omega (arith, short.0)))) short.1

put_rows-Keeps :
    (n x y y' c : ℕ) (k k' : Console)
    → Keeps k k'
    → ((i : ℕ) → i < n → IsBeside (x + i) y × IsBeside (x + i) y')
    → Keeps k (put_rows n x y y' c k')
unfolding put_rows
put_rows-Keeps zero x y y' c k k' a beside = a
put_rows-Keeps (suc n) x y y' c k k' a beside =
    let here : x + 0 ≡ x = omega arith in
    let first = beside 0 (omega arith) in
    put_rows-Keeps n (x + 1) y y' c k (putcharx x y' c (putcharx x y c k'))
      (then_putcharx x y' c (then_putcharx x y c a (rw here at (first.0))) (rw here at (first.1)))
      (λ i lt.
        let next : x + suc i ≡ x + 1 + i = omega arith in
        let other = beside (suc i) (omega arith) in (rw next at (other.0), rw next at (other.1)))

put_columns-Keeps :
    (n x x' y c : ℕ) (k k' : Console)
    → Keeps k k'
    → (x < 26) ⊎ (45 < x)
    → (x' < 26) ⊎ (45 < x')
    → Keeps k (put_columns n x x' y c k')
unfolding put_columns
put_columns-Keeps zero x x' y c k k' a h h' = a
put_columns-Keeps (suc n) x x' y c k k' a h h' =
    put_columns-Keeps n x x' (y + 1) c k (putcharx x' y c (putcharx x y c k'))
      (then_putcharx x' y c (then_putcharx x y c a (inl h)) (inl h')) h h'

next_frame-Keeps : (k k' : Console) → Keeps k k' → Keeps k (put_next_frame k')
next_frame-Keeps k k' a =
    let rows =
      put_rows-Keeps 8 50 4 7 0x2550 k k' a
        (λ i lt. (inl (inr (omega arith)), inl (inr (omega arith)))) in
    let sides =
      put_columns-Keeps 2 49 58 5 0x2551 k _ rows (inr (omega arith)) (inr (omega arith)) in
    then_putcharx 49 7 0x255A
      (then_putcharx 58 7 0x255D
        (then_putcharx 58 4 0x2557 (then_putcharx 49 4 0x2554 sides (inl (inr (omega arith))))
          (inl (inr (omega arith))))
        (inl (inr (omega arith))))
      (inl (inr (omega arith)))

board_frame-Keeps : (k k' : Console) → Keeps k k' → Keeps k (put_board_frame k')
board_frame-Keeps k k' a =
    let rows =
      put_rows-Keeps 22 25 2 23 0x2550 k k' a
        (λ i lt. (inr (inl (omega arith)), inr (inr (omega arith)))) in
    let sides =
      put_columns-Keeps 20 25 46 3 0x2551 k _ rows (inl (omega arith)) (inr (omega arith)) in
    then_putcharx 46 23 0x255D
      (then_putcharx 25 23 0x255A
        (then_putcharx 46 2 0x2557 (then_putcharx 25 2 0x2554 sides (inr (inl (omega arith))))
          (inr (inl (omega arith))))
        (inr (inr (omega arith))))
      (inr (inr (omega arith)))

-- The static elements leave the fields alone, if the lines of the text end before the board.
pub draw_static_elements-Keeps :
    (texts : List (List ℕ)) (next_up level lines score : List ℕ) (k : Console)
    → All (λ l. length l ≤ 26) texts
    → Keeps k (draw_static_elements texts next_up level lines score k)
unfolding draw_static_elements
draw_static_elements-Keeps texts next_up level lines score k short =
    let far : (45 < 49) × (45 < 50) = (omega arith, omega arith) in
    let k0 = color-Keeps 7 k in
    let k1 = print_lines-Keeps 8 texts k _ k0 short in
    let k2 = print-Keeps 50 8 next_up k _ k1 (inr far.1) in
    let k3 = print-Keeps 49 10 level k _ k2 (inr far.0) in
    let k4 = print-Keeps 49 11 lines k _ k3 (inr far.0) in
    let k5 = print-Keeps 49 12 score k _ k4 (inr far.0) in
    board_frame-Keeps k _ (next_frame-Keeps k _ (then_color 4 k5))

put_pair-Keeps :
    (margin : ℕ) (x y : ℤ) (k k' : Console) → Keeps k k' → Keeps k (put_pair margin x y k')
put_pair-Keeps margin (pos x) (pos y) k k' a =
    then_putcharx (49 + margin + 2 * x + 1) (4 + 1 + y) 0x2588
      (then_putcharx (49 + margin + 2 * x) (4 + 1 + y) 0x2588 a (inl (inr (omega arith))))
      (inl (inr (omega arith)))
put_pair-Keeps margin (pos x) (negsuc y) k k' a = a
put_pair-Keeps margin (negsuc x) y k k' a = a

put_next-Keeps :
    (margin : ℕ) (body : Body) (k k' : Console) → Keeps k k' → Keeps k (put_next margin body k')
unfolding put_next
put_next-Keeps margin [] k k' a = a
put_next-Keeps margin (p ∷ ps) k k' a =
    put_next-Keeps margin ps k (put_pair margin p.x p.y k') (put_pair-Keeps margin p.x p.y k k' a)

clear_frame-Keeps : (n x : ℕ) (k k' : Console) → Keeps k k' → 45 < x → Keeps k (clear_frame n x k')
unfolding clear_frame
clear_frame-Keeps zero x k k' a h = a
clear_frame-Keeps (suc n) x k k' a h =
    clear_frame-Keeps n (x + 1) k _
      (then_putcharx x 6 0x20 (then_putcharx x 5 0x20 a (inl (inr h))) (inl (inr h))) (omega arith)

draw_next_up-Keeps :
    (next : Piece) (previous : ℕ) (k : Console) → Keeps k (draw_next_up next previous k).1
unfolding draw_next_up
draw_next_up-Keeps next previous k =
    let margin : ℕ = if next.color == 0x0b || next.color == 0x0e then 1 else 2 in
    let blank = clear_frame-Keeps 8 50 k _ (color-Keeps 0 k) (omega arith) in
    elim (Bool-cases (next.color == previous)) [
      | inl e ↦ rw e (record { same = λ h y x small low high wide. refl })
      | inr n ↦ rw n (put_next-Keeps margin (current_body next) k _ (then_color next.color blank))
    ]

-- drawBoard leaves the fields alone, whatever the numbers look like.
pub draw_board-Keeps :
    (decimal : ℕ → List ℕ) (b : Board) (previous : ℕ) (k : Console)
    → Keeps k (draw_board decimal b previous k).1
unfolding draw_board
draw_board-Keeps decimal b previous k =
    let far : 45 < 57 = omega arith in
    let k2 = then_color 7 (draw_next_up-Keeps b.next_piece previous k) in
    let k3 = print-Keeps 57 10 (decimal b.level ++ (0x20 ∷ [])) k _ k2 (inr far) in
    let k4 = print-Keeps 57 11 (decimal b.lines) k _ k3 (inr far) in
    print-Keeps 57 12 (decimal b.score) k _ k4 (inr far)
