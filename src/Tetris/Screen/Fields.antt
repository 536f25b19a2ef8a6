-- ===== src/Tetris/Screen/Fields.antt =====
-- The visible fields of the board and the console (HtcLeoPkg/Application/TetrisApp/Board.c) after the
-- functions that draw a piece.
use lgoptimus_l3pkg.Common.{
  ℕ, ◌+◌, ◌*◌, ◌<◌, ◌≤◌, ◌≡◌, refl, sym, ap, ◌∙◌, inl, inr, Bool, true, false, ◌&&◌, ◌||◌, [], ◌∷◌,
  arith, leb, ◌==◌, if◌then◌else◌, Bool-cases, All,
}
use lgoptimus_l3pkg.Common.Int.{ℤ, pos, negsuc, ◌+ℤ◌, in_range}
use lgoptimus_l3pkg.Tetris.Piece.{Point, Body}
use lgoptimus_l3pkg.Tetris.Board.{Fields as BoardFields, field, redraw_at, redraw_field, draw_body}
use lgoptimus_l3pkg.Tetris.Moves.Cells.{
  HasSize, IsInside, covers, is_at, field-set_field, set_field-HasSize, redraw_at_lem,
}
use lgoptimus_l3pkg.Tetris.Screen.{
  Cell, Console, full_block, set_text_color, putcharx, put_field, put_at, put_body,
}

-- The colour that a cell shows: a block shows its own, and a blank the background.
abbrev pub looks : Cell → ℕ
looks c = if c.char == full_block then c.color else 0

-- What the first (h = 0) or second (h = 1) character of the field in row y and column x shows.
abbrev pub seen : Console → ℕ → ℕ → ℕ → ℕ
seen k h y x = looks (k.cells (26 + 2 * x + h) (1 + y))

-- The console shows the visible fields.
pub record Shows (fs : BoardFields) (k : Console) : Type 0 where
  pub shows : (h y x : ℕ) → h < 2 → 2 ≤ y → y < 22 → x < 10 → seen k h y x ≡ field fs y x

pub seen-put_field :
    (x y c : ℕ) (k : Console) (h y' x' : ℕ)
    → h < 2
    → 2 ≤ y'
    → seen (put_field x y c k) h y' x' ≡ (if y == y' && x == x' then c else seen k h y' x')
unfolding put_field putcharx set_text_color
seen-put_field x y c k h y' x' small low = ground arith

pub field-redraw_field :
    (fs : BoardFields) (x y c y' x' : ℕ)
    → HasSize fs
    → y < 22
    → x < 10
    → 2 ≤ y'
    → field (redraw_field fs x y c) y' x' ≡ (if y == y' && x == x' then c else field fs y' x')
unfolding redraw_field
field-redraw_field fs x y c y' x' s hy hx low = elim (Bool-cases (leb 2 y)) [
  | inl e ↦ rw e (field-set_field fs y x c y' x' s hy hx)
  | inr n ↦ let other : (y == y' && x == x') ≡ false = ground arith in rw (n, other) refl
]

pub redraw_field-HasSize :
    (fs : BoardFields) (x y c : ℕ) → HasSize fs → y < 22 → HasSize (redraw_field fs x y c)
unfolding redraw_field
redraw_field-HasSize fs x y c s hy = elim (Bool-cases (leb 2 y)) [
  | inl e ↦ rw e (set_field-HasSize fs y x c s hy)
  | inr n ↦ rw n s
]

-- `redrawField` keeps the console in step with the fields.
pub redraw_field-Shows :
    (fs : BoardFields) (k : Console) (x y c : ℕ)
    → HasSize fs
    → y < 22
    → x < 10
    → Shows fs k
    → Shows (redraw_field fs x y c) (put_field x y c k)
redraw_field-Shows fs k x y c s hy hx sh = record {
  shows = λ h y' x' small low high wide.
      seen-put_field x y c k h y' x' small low
      ∙ ap (λ v. if y == y' && x == x' then c else v) (sh.shows h y' x' small low high wide)
      ∙ sym (field-redraw_field fs x y c y' x' s hy hx low);
}

seen-put_at :
    (fx fy : ℤ) (c : ℕ) (k : Console) (h y x : ℕ)
    → in_range fx 10 ≡ true
    → in_range fy 22 ≡ true
    → h < 2
    → 2 ≤ y
    → seen (put_at fx fy c k) h y x ≡ (if is_at fy y && is_at fx x then c else seen k h y x)
seen-put_at (pos a) (pos b) c k h y x hx hy small low = seen-put_field a b c k h y x small low
seen-put_at (pos a) (negsuc b) c k h y x hx hy small low = cc
seen-put_at (negsuc a) fy c k h y x hx hy small low = cc

field-redraw_at :
    (fs : BoardFields) (fx fy : ℤ) (c y x : ℕ)
    → HasSize fs
    → in_range fx 10 ≡ true
    → in_range fy 22 ≡ true
    → 2 ≤ y
    → field (redraw_at fs fx fy c) y x ≡ (if is_at fy y && is_at fx x then c else field fs y x)
unfolding redraw_field
field-redraw_at fs (pos a) (pos b) c y x s hx hy low =
    field-redraw_field fs a b c y x s (ground arith) (ground arith) low
field-redraw_at fs (pos a) (negsuc b) c y x s hx hy low = cc
field-redraw_at fs (negsuc a) fy c y x s hx hy low = cc

-- Writing c where `here` holds, and then where `rest` holds.
write_twice :
    (here rest : Bool) (c v : ℕ)
    → (if rest then c else if here then c else v) ≡ (if here || rest then c else v)
write_twice true true c v = refl
write_twice true false c v = refl
write_twice false true c v = refl
write_twice false false c v = refl

-- Drawing a body on the console changes what the fields that it covers show, and nothing else.
pub seen-put_body :
    (at_pos : Point) (c : ℕ) (body : Body) (k : Console) (h y x : ℕ)
    → All (IsInside at_pos) body
    → h < 2
    → 2 ≤ y
    → seen (put_body at_pos c body k) h y x ≡ (if covers at_pos body y x then c else seen k h y x)
unfolding put_body covers
seen-put_body at_pos c [] k h y x inside small low = refl
seen-put_body at_pos c (p ∷ ps) k h y x inside small low =
    let fx = p.x +ℤ at_pos.x in
    let fy = p.y +ℤ at_pos.y in
    seen-put_body at_pos c ps (put_at fx fy c k) h y x inside.1 small low
    ∙ ap (λ v. if covers at_pos ps y x then c else v)
        (seen-put_at fx fy c k h y x inside.0.0 inside.0.1 small low)
    ∙ write_twice (is_at fy y && is_at fx x) (covers at_pos ps y x) c (seen k h y x)

pub field-draw_body :
    (fs : BoardFields) (at_pos : Point) (c : ℕ) (body : Body) (y x : ℕ)
    → HasSize fs
    → All (IsInside at_pos) body
    → 2 ≤ y
    → field (draw_body fs at_pos c body) y x ≡ (if covers at_pos body y x then c else field fs y x)
unfolding draw_body covers
field-draw_body fs at_pos c [] y x s inside low = refl
field-draw_body fs at_pos c (p ∷ ps) y x s inside low =
    let fx = p.x +ℤ at_pos.x in
    let fy = p.y +ℤ at_pos.y in
    let s' = (redraw_at_lem fs fx fy c y x s inside.0.0 inside.0.1).0 in
    field-draw_body (redraw_at fs fx fy c) at_pos c ps y x s' inside.1 low
    ∙ ap (λ v. if covers at_pos ps y x then c else v)
        (field-redraw_at fs fx fy c y x s inside.0.0 inside.0.1 low)
    ∙ write_twice (is_at fy y && is_at fx x) (covers at_pos ps y x) c (field fs y x)
