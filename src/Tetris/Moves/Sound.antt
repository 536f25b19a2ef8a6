-- ===== src/Tetris/Moves/Sound.antt =====
-- The moves of HtcLeoPkg/Application/TetrisApp/Board.c and the invariant of the board.
use lgoptimus_l3pkg.Common.{
  ℕ, zero, suc, ◌+◌, ◌-◌, ◌*◌, ◌<◌, ◌≡◌, refl, sym, ap, ◌∙◌, ◌⊎◌, inl, inr, Bool, true, false, some,
  [], ◌∷◌, arith, if◌then◌else◌, Bool-cases, get_or, All,
}
use mathlib.Core.Path.{subst}
use lgoptimus_l3pkg.Common.Int.{ℤ, pos, negsuc, pos_part, neg_part, ◌+ℤ◌, +ℤ_parts, in_range}
use lgoptimus_l3pkg.Tetris.Piece.{Point, Body, Piece, current_body, rotate_cw, rotate_ccw}
use lgoptimus_l3pkg.Tetris.Board.{
  Board, is_move_possible, mark_fields_occupied_by_piece, draw_fields_occupied_by_piece,
}
use lgoptimus_l3pkg.Tetris.Moves.{
  with_active, rotate_piece, redraw_shifted, move_piece_left, move_piece_right, move_piece_down,
  drop_next, drop_loop, drop_piece, with_bonus,
}
use lgoptimus_l3pkg.Tetris.Moves.Cells.{IsInside}
use lgoptimus_l3pkg.Tetris.Moves.Clear.{
  IsTurned, IsClear, IsSound, Fits, IsClear-IsSound, erase-IsClear, mark-IsSound, draw-IsClear,
  with_active-IsClear, redraw_shifted-IsClear, rotate_ccw-rotate_cw, rotate_cw-IsTurned,
  possible_here-Fits,
}
use lgoptimus_l3pkg.Tetris.Moves.Settle.{place_piece-IsSound}

-- A sideways move, possible or not.
sideways-IsSound :
    (b : Board) (dx : ℤ)
    → IsSound b
    → let b0 = mark_fields_occupied_by_piece b 0 in
      let b1 = if is_move_possible b0 dx (pos 0) then redraw_shifted b0 dx (pos 0) else b0 in
      IsSound (mark_fields_occupied_by_piece b1 b1.active_piece.color)
sideways-IsSound b dx s =
    let b0 = mark_fields_occupied_by_piece b 0 in
    let s0 = erase-IsClear b s in
    elim (Bool-cases (is_move_possible b0 dx (pos 0))) [
      | inl e ↦ rw e (
          mark-IsSound (redraw_shifted b0 dx (pos 0)) _ (redraw_shifted-IsClear b0 dx (pos 0) s0 e))
      | inr n ↦ rw n (mark-IsSound b0 _ s0)
    ]

pub move_piece_left-IsSound : (b : Board) → IsSound b → IsSound (move_piece_left b)
unfolding move_piece_left
move_piece_left-IsSound b s = sideways-IsSound b (negsuc 0) s

pub move_piece_right-IsSound : (b : Board) → IsSound b → IsSound (move_piece_right b)
unfolding move_piece_right
move_piece_right-IsSound b s = sideways-IsSound b (pos 1) s

-- Rotating keeps a board sound, whether or not the turned piece has room.
pub rotate_piece-IsSound : (b : Board) → IsSound b → IsSound (rotate_piece b)
unfolding rotate_piece draw_fields_occupied_by_piece
rotate_piece-IsSound b s =
    let b0 = mark_fields_occupied_by_piece b 0 in
    let s0 = erase-IsClear b s in
    let p = b0.active_piece in
    let back : rotate_ccw (rotate_cw p) ≡ p = rotate_ccw-rotate_cw p s0.turned in
    let turned = with_active b0 (rotate_cw p) in
    let returned = with_active b0 (rotate_ccw (rotate_cw p)) in
    let r0 : IsClear returned =
      subst (λ q. IsClear (with_active b0 q)) (sym back)
        (with_active-IsClear b0 p s0 s0.fits s0.turned) in
    let erased = draw_fields_occupied_by_piece returned 0 in
    let again = with_active erased (rotate_cw (rotate_ccw (rotate_cw p))) in
    elim (Bool-cases (is_move_possible turned (pos 0) (pos 0))) [
      | inl e ↦ rw e (
          IsClear-IsSound _ (
            draw-IsClear again _ (
              subst (λ q. IsClear (with_active erased (rotate_cw q))) (sym back)
                (with_active-IsClear erased (rotate_cw p) (draw-IsClear returned 0 r0)
                  (possible_here-Fits turned e) (rotate_cw-IsTurned p s0.turned)))))
      | inr n ↦ rw n (mark-IsSound returned _ r0)
    ]

-- The row of the piece's first field.
abbrev head_y : Body → ℤ
head_y [] = pos 0
head_y (q ∷ qs) = q.y

abbrev pub depth : Board → ℕ
depth b = pos_part (head_y (current_body b.active_piece) +ℤ b.active_piece.pos.y)

in_range_parts : (a : ℤ) (n : ℕ) → in_range a n ≡ true → (neg_part a ≡ 0) × (pos_part a < n)
in_range_parts (pos a) n h = ground arith
in_range_parts (negsuc a) n h = cc

head_inside :
    (at_pos : Point) (body : Body) (q : Point) (qs : Body)
    → body ≡ q ∷ qs
    → All (IsInside at_pos) body
    → in_range (head_y body +ℤ at_pos.y) 22 ≡ true
head_inside at_pos [] q qs e h = cc
head_inside at_pos (p ∷ ps) q qs e h = h.0.1

-- The first field of a piece that fits lies in a row of the board.
first_row :
    (p : Piece)
    → IsTurned p
    → Fits p
    → (neg_part (head_y (current_body p) +ℤ p.pos.y) ≡ 0)
      × (pos_part (head_y (current_body p) +ℤ p.pos.y) < 22)
first_row p t f =
    let (q, qs, e) = t.solid p.rotation t.in_turn in
    in_range_parts (head_y (current_body p) +ℤ p.pos.y) 22
      (head_inside p.pos (current_body p) q qs (ap (λ r. get_or p.bodies r []) t.at_turn ∙ e) f)

pub depth-lt : (b : Board) → IsSound b → depth b < 22
depth-lt b s = (first_row b.active_piece s.turned s.fits).1

one_part : (a : ℤ) → (pos_part a ≡ 0) ⊎ (neg_part a ≡ 0)
one_part (pos n) = inr refl
one_part (negsuc n) = inl refl

deeper :
    (p : Piece)
    → IsTurned p
    → Fits p
    → pos_part (head_y (current_body p) +ℤ (p.pos.y +ℤ pos 1))
      ≡ suc (pos_part (head_y (current_body p) +ℤ p.pos.y))
deeper p t f =
    omega
      (arith, +ℤ_parts, one_part (head_y (current_body p) +ℤ (p.pos.y +ℤ pos 1)), first_row p t f)

-- Moving down ends on a sound board; a piece that moved is one row deeper.
pub move_piece_down-IsSound :
    (b : Board)
    → IsSound b
    → (moved : Bool) × (b' : Board) × (move_piece_down b ≡ some (moved, b'))
      × IsSound b'
      × (moved ≡ true → depth b' ≡ suc (depth b))
unfolding move_piece_down redraw_shifted draw_fields_occupied_by_piece mark_fields_occupied_by_piece
move_piece_down-IsSound b s =
    let b0 = mark_fields_occupied_by_piece b 0 in
    let s0 = erase-IsClear b s in
    elim (Bool-cases (is_move_possible b0 (pos 0) (pos 1))) [
      | inl e ↦ (
        true,
        redraw_shifted b0 (pos 0) (pos 1),
        rw e refl,
        IsClear-IsSound (redraw_shifted b0 (pos 0) (pos 1))
            (redraw_shifted-IsClear b0 (pos 0) (pos 1) s0 e),
        λ h. deeper b.active_piece s.turned s.fits,
      )
      | inr n ↦
          let (b', ends, sound) =
            place_piece-IsSound (mark_fields_occupied_by_piece b0 b0.active_piece.color)
              (mark-IsSound b0 b0.active_piece.color s0) in
          (false, b', rw (n, ends) refl, sound, λ h. cc)
    ]

drop_loop-IsSound :
    (fuel : ℕ) (b : Board) (height : ℕ)
    → IsSound b
    → 22 - depth b < fuel
    → (b' : Board) × (height' : ℕ) × (drop_loop fuel b height ≡ some (b', height')) × IsSound b'
unfolding drop_loop
drop_loop-IsSound zero b height s h = absurd (omega arith)
drop_loop-IsSound (suc fuel) b height s h =
    let again = drop_next (λ b1. drop_loop fuel b1 (height + 1)) height in
    let (moved, b', e, s', deep) = move_piece_down-IsSound b s in
    elim (Bool-cases moved) [
      | inl m ↦
          let (b'', height', ends, sound) =
            drop_loop-IsSound fuel b' (height + 1) s' (omega (arith, deep m, depth-lt b s)) in
          (b'', height', ap again (e ∙ ap (λ k. some (k, b')) m) ∙ ends, sound)
      | inr n ↦ (b', height, ap again (e ∙ ap (λ k. some (k, b')) n), s')
    ]

-- Dropping ends within its fuel, on a sound board.
pub drop_piece-IsSound :
    (b : Board) → IsSound b → (b' : Board) × (drop_piece b ≡ some b') × IsSound b'
unfolding drop_piece
drop_piece-IsSound b s =
    let (b', height, e, s') = drop_loop-IsSound 24 b 0 s (omega arith) in
    (
      record b' { score = b'.score + 2 * height },
      ap with_bonus e,
      record { size = s'.size; top = s'.top; fits = s'.fits; turned = s'.turned; next = s'.next },
    )
