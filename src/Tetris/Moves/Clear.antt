-- ===== src/Tetris/Moves/Clear.antt =====
-- The invariant of the board: while a piece is on it, and after the piece has been erased.
use lgoptimus_l3pkg.Common.{
  ℕ, ◌<◌, ◌≡◌, refl, sym, ap, ◌∙◌, inl, inr, true, false, [], ◌∷◌, arith, Bool-cases, get_or, All,
}
use mathlib.Core.Path.{subst}
use lgoptimus_l3pkg.Common.Int.{ℤ, pos, ◌+ℤ◌, +ℤ_parts, eq_of_parts, in_range}
use lgoptimus_l3pkg.Tetris.Piece.{Point, Body, Piece, current_body, at, rotate_cw, rotate_ccw}
use lgoptimus_l3pkg.Tetris.Board.{
  Board, Fields, field, are_free, is_free, is_move_possible, mark_fields_occupied_by_piece,
  draw_fields_occupied_by_piece,
}
use lgoptimus_l3pkg.Tetris.Moves.{with_active, shifted, redraw_shifted}
use lgoptimus_l3pkg.Tetris.Moves.Cells.{HasSize, IsInside, covers, mark_body_lem, draw_body_lem}

-- `body` points at the current rotation, and no rotation of the piece is without fields.
pub record IsTurned (p : Piece) : Type 0 where
  pub in_turn : p.rotation < 4
  pub at_turn : p.body ≡ p.rotation
  pub solid : (r : ℕ) → r < 4 → (q : Point) × (qs : Body) × (get_or p.bodies r [] ≡ q ∷ qs)

abbrev pub Fits : Piece → Type 0
Fits p = All (IsInside p.pos) (current_body p)

-- The next piece can start at the top of the board.
pub record IsReady (p : Piece) : Type 0 where
  pub turned : IsTurned p
  pub fits : All (IsInside (at 4 0)) (current_body p)

-- The fields, with the active piece erased: the invisible rows are empty.
pub record IsClear (b : Board) : Type 0 where
  pub size : HasSize b.fields
  pub top : (y x : ℕ) → y < 2 → x < 10 → field b.fields y x ≡ 0
  pub fits : Fits b.active_piece
  pub turned : IsTurned b.active_piece
  pub next : IsReady b.next_piece

-- Between two calls: in the invisible rows at most the active piece's fields are occupied.
pub record IsSound (b : Board) : Type 0 where
  pub size : HasSize b.fields
  pub top :
      (y x : ℕ)
      → y < 2
      → x < 10
      → covers b.active_piece.pos (current_body b.active_piece) y x ≡ false
      → field b.fields y x ≡ 0
  pub fits : Fits b.active_piece
  pub turned : IsTurned b.active_piece
  pub next : IsReady b.next_piece

pub IsClear-IsSound : (b : Board) → IsClear b → IsSound b
IsClear-IsSound b c = record {
  size = c.size;
  top = λ y x hy hx n. c.top y x hy hx;
  fits = c.fits;
  turned = c.turned;
  next = c.next;
}

pub erase-IsClear : (b : Board) → IsSound b → IsClear (mark_fields_occupied_by_piece b 0)
unfolding mark_fields_occupied_by_piece
erase-IsClear b s =
    let at_pos = b.active_piece.pos in
    let body = current_body b.active_piece in
    record {
      size = (mark_body_lem b.fields at_pos 0 body 0 0 s.size s.fits).0;
      top = λ y x hy hx.
          (mark_body_lem b.fields at_pos 0 body y x s.size s.fits).1
          ∙ elim (Bool-cases (covers at_pos body y x)) [
            | inl e ↦ rw e
            | inr n ↦ rw n (s.top y x hy hx n)
          ];
      fits = s.fits;
      turned = s.turned;
      next = s.next;
    }

pub mark-IsSound : (b : Board) (c : ℕ) → IsClear b → IsSound (mark_fields_occupied_by_piece b c)
unfolding mark_fields_occupied_by_piece
mark-IsSound b c s =
    let at_pos = b.active_piece.pos in
    let body = current_body b.active_piece in
    record {
      size = (mark_body_lem b.fields at_pos c body 0 0 s.size s.fits).0;
      top = λ y x hy hx n.
          (mark_body_lem b.fields at_pos c body y x s.size s.fits).1 ∙ rw n (s.top y x hy hx);
      fits = s.fits;
      turned = s.turned;
      next = s.next;
    }

pub draw-IsClear : (b : Board) (c : ℕ) → IsClear b → IsClear (draw_fields_occupied_by_piece b c)
unfolding draw_fields_occupied_by_piece
draw-IsClear b c s =
    let at_pos = b.active_piece.pos in
    let body = current_body b.active_piece in
    record {
      size = (draw_body_lem b.fields at_pos c body 0 0 s.size s.fits).0;
      top = λ y x hy hx.
          (draw_body_lem b.fields at_pos c body y x s.size s.fits).1 hy ∙ s.top y x hy hx;
      fits = s.fits;
      turned = s.turned;
      next = s.next;
    }

pub with_active-IsClear :
    (b : Board) (p : Piece) → IsClear b → Fits p → IsTurned p → IsClear (with_active b p)
with_active-IsClear b p s f t = record {
  size = s.size;
  top = s.top;
  fits = f;
  turned = t;
  next = s.next;
}

+ℤ_regroup : (a b c : ℤ) → a +ℤ b +ℤ c ≡ a +ℤ (b +ℤ c)
+ℤ_regroup a b c = omega (arith, +ℤ_parts, eq_of_parts)

is_free-inside :
    (fs : Fields) (fx fy : ℤ)
    → is_free fs fx fy ≡ true
    → (in_range fx 10 ≡ true) × (in_range fy 22 ≡ true)
unfolding is_free
is_free-inside fs fx fy h = ground arith

-- What `isMovePossible` accepts lies on the board.
are_free-fits :
    (fs : Fields) (at_pos : Point) (x y : ℤ) (ps : Body)
    → are_free fs at_pos x y ps ≡ true
    → All (IsInside (record { x = at_pos.x +ℤ x; y = at_pos.y +ℤ y })) ps
unfolding are_free
are_free-fits fs at_pos x y [] h = tt
are_free-fits fs at_pos x y (p ∷ ps) h =
    let free : is_free fs (p.x +ℤ at_pos.x +ℤ x) (p.y +ℤ at_pos.y +ℤ y) ≡ true = ground arith in
    let rest : are_free fs at_pos x y ps ≡ true = ground arith in
    let inside = is_free-inside fs (p.x +ℤ at_pos.x +ℤ x) (p.y +ℤ at_pos.y +ℤ y) free in
    (
      (
        ap (λ a. in_range a 10) (sym (+ℤ_regroup p.x at_pos.x x)) ∙ inside.0,
        ap (λ a. in_range a 22) (sym (+ℤ_regroup p.y at_pos.y y)) ∙ inside.1,
      ),
      are_free-fits fs at_pos x y ps rest,
    )

pub possible-Fits :
    (b : Board) (dx dy : ℤ) → is_move_possible b dx dy ≡ true → Fits (shifted b.active_piece dx dy)
unfolding is_move_possible
possible-Fits b dx dy h =
    are_free-fits b.fields b.active_piece.pos dx dy (current_body b.active_piece) h

pub redraw_shifted-IsClear :
    (b : Board) (dx dy : ℤ)
    → IsClear b
    → is_move_possible b dx dy ≡ true
    → IsClear (redraw_shifted b dx dy)
unfolding redraw_shifted draw_fields_occupied_by_piece
redraw_shifted-IsClear b dx dy s h =
    let moved = shifted b.active_piece dx dy in
    let erased = draw_fields_occupied_by_piece b 0 in
    draw-IsClear (with_active erased moved) moved.color (
      with_active-IsClear erased moved (draw-IsClear b 0 s) (possible-Fits b dx dy h)
        (record { in_turn = s.turned.in_turn; at_turn = s.turned.at_turn; solid = s.turned.solid }))

-- Turning back undoes turning.
pub rotate_ccw-rotate_cw : (p : Piece) → IsTurned p → rotate_ccw (rotate_cw p) ≡ p
unfolding rotate_cw rotate_ccw
rotate_ccw-rotate_cw p t = ground arith

pub rotate_cw-IsTurned : (p : Piece) → IsTurned p → IsTurned (rotate_cw p)
unfolding rotate_cw
rotate_cw-IsTurned p t = record { in_turn = omega arith; at_turn = refl; solid = t.solid }

+ℤ_zero : (a : ℤ) → a +ℤ pos 0 ≡ a
+ℤ_zero a = omega (arith, +ℤ_parts, eq_of_parts)

pub possible_here-Fits :
    (b : Board) → is_move_possible b (pos 0) (pos 0) ≡ true → Fits b.active_piece
possible_here-Fits b h =
    subst (λ q. All (IsInside q) (current_body b.active_piece))
      (λ i. record { x = +ℤ_zero b.active_piece.pos.x i; y = +ℤ_zero b.active_piece.pos.y i })
      (possible-Fits b (pos 0) (pos 0) h)
