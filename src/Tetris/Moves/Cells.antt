-- ===== src/Tetris/Moves/Cells.antt =====
-- What the piece-drawing functions of Board.c write, field by field.
use lgoptimus_l3pkg.Common.{
  ℕ, ◌<◌, ◌≡◌, refl, sym, ap, ◌∙◌, inl, inr, Bool, true, false, ◌&&◌, ◌||◌, List, [], ◌∷◌, arith,
  leb, ◌==◌, if◌then◌else◌, Bool-cases, length, get_or, set, All, length-set, get_or-set_self,
  get_or-set_ne,
}
use lgoptimus_l3pkg.Common.Int.{ℤ, pos, negsuc, ◌+ℤ◌, in_range}
use lgoptimus_l3pkg.Tetris.Piece.{Point, Body}
use lgoptimus_l3pkg.Tetris.Board.{
  Fields, row, field, set_field, mark_at, mark_body, redraw_at, redraw_field, draw_body,
}

pub record HasSize (fs : Fields) : Type 0 where
  pub height : length fs ≡ 22
  pub width : (y : ℕ) → y < 22 → length (row fs y) ≡ 10

get_or-set {ℓ} :
    {A : Type ℓ} (xs : List A) (i j : ℕ) (v d : A)
    → i < length xs
    → get_or (set xs i v) j d ≡ (if i == j then v else get_or xs j d)
get_or-set xs i j v d h = elim (Bool-cases (i == j)) [
  | inl e ↦
      let e' : i ≡ j = ground arith in
      rw e (ap (λ k. get_or (set xs i v) k d) (sym e') ∙ get_or-set_self xs i v d h)
  | inr n ↦ rw n (get_or-set_ne xs i j v d (ground arith))
]

row-set_field :
    (fs : Fields) (y x c y' : ℕ)
    → HasSize fs
    → y < 22
    → row (set_field fs y x c) y' ≡ (if y == y' then set (row fs y) x c else row fs y')
row-set_field fs y x c y' s hy =
    get_or-set fs y y' (set (row fs y) x c) [] (omega (arith, s.height))

pub field-set_field :
    (fs : Fields) (y x c y' x' : ℕ)
    → HasSize fs
    → y < 22
    → x < 10
    → field (set_field fs y x c) y' x' ≡ (if y == y' && x == x' then c else field fs y' x')
field-set_field fs y x c y' x' s hy hx =
    ap (λ r. get_or r x' 0) (row-set_field fs y x c y' s hy) ∙ elim (Bool-cases (y == y')) [
      | inl e ↦
          let e' : y ≡ y' = ground arith in
          rw e (rw (← e') (get_or-set (row fs y) x x' c 0 (omega (arith, s.width y hy))))
      | inr n ↦ rw n
    ]

pub set_field-HasSize :
    (fs : Fields) (y x c : ℕ) → HasSize fs → y < 22 → HasSize (set_field fs y x c)
set_field-HasSize fs y x c s hy = record {
  height = length-set fs y (set (row fs y) x c) ∙ s.height;
  width = λ y' h. ap length (row-set_field fs y x c y' s hy) ∙ elim (Bool-cases (y == y')) [
    | inl e ↦ rw e (length-set (row fs y) x c ∙ s.width y hy)
    | inr n ↦ rw n (s.width y' h)
  ];
}

-- The point `p` of a body, at `at_pos`, lies on the board.
abbrev pub IsInside : Point → Point → Type 0
IsInside at_pos p = (in_range (p.x +ℤ at_pos.x) 10 ≡ true) × (in_range (p.y +ℤ at_pos.y) 22 ≡ true)

abbrev pub is_at : ℤ → ℕ → Bool
is_at (pos a) n = a == n
is_at (negsuc a) n = false

-- The body at `at_pos` covers the field in row `y` and column `x`.
unfoldable pub covers : Point → Body → ℕ → ℕ → Bool
covers at_pos [] y x = false
covers at_pos (p ∷ ps) y x =
    (is_at (p.y +ℤ at_pos.y) y && is_at (p.x +ℤ at_pos.x) x) || covers at_pos ps y x

mark_at_lem :
    (fs : Fields) (fx fy : ℤ) (c y x : ℕ)
    → HasSize fs
    → in_range fx 10 ≡ true
    → in_range fy 22 ≡ true
    → HasSize (mark_at fs fx fy c)
      × (field (mark_at fs fx fy c) y x ≡ (if is_at fy y && is_at fx x then c else field fs y x))
mark_at_lem fs (pos a) (pos b) c y x s hx hy = (
  set_field-HasSize fs b a c s (ground arith),
  field-set_field fs b a c y x s (ground arith) (ground arith),
)
mark_at_lem fs (pos a) (negsuc b) c y x s hx hy = cc
mark_at_lem fs (negsuc a) fy c y x s hx hy = cc

pub redraw_at_lem :
    (fs : Fields) (fx fy : ℤ) (c y x : ℕ)
    → HasSize fs
    → in_range fx 10 ≡ true
    → in_range fy 22 ≡ true
    → HasSize (redraw_at fs fx fy c) × (y < 2 → field (redraw_at fs fx fy c) y x ≡ field fs y x)
unfolding redraw_field
redraw_at_lem fs (pos a) (pos b) c y x s hx hy = elim (Bool-cases (leb 2 b)) [
  | inl e ↦ rw e (
    set_field-HasSize fs b a c s (ground arith),
    λ top. ground (arith, field-set_field fs b a c y x s),
  )
  | inr n ↦ rw n (s, λ top. refl)
]
redraw_at_lem fs (pos a) (negsuc b) c y x s hx hy = cc
redraw_at_lem fs (negsuc a) fy c y x s hx hy = cc

-- Marking writes the colour into the fields that the body covers, and into no other.
pub mark_body_lem :
    (fs : Fields) (at_pos : Point) (c : ℕ) (body : Body) (y x : ℕ)
    → HasSize fs
    → All (IsInside at_pos) body
    → HasSize (mark_body fs at_pos c body)
      × (field (mark_body fs at_pos c body) y x
          ≡ (if covers at_pos body y x then c else field fs y x))
unfolding mark_body covers
mark_body_lem fs at_pos c [] y x s h = (s, refl)
mark_body_lem fs at_pos c (p ∷ ps) y x s h =
    let fx = p.x +ℤ at_pos.x in
    let fy = p.y +ℤ at_pos.y in
    let (s', here) = mark_at_lem fs fx fy c y x s h.0.0 h.0.1 in
    let (s'', rest) = mark_body_lem (mark_at fs fx fy c) at_pos c ps y x s' h.1 in
    (
      s'',
      rest ∙ elim (Bool-cases (covers at_pos ps y x)) [
        | inl e ↦ elim (Bool-cases (is_at fy y && is_at fx x)) [
          | inl e' ↦ rw (e, e')
          | inr n' ↦ rw (e, n')
        ]
        | inr n ↦ rw n (
            here ∙ elim (Bool-cases (is_at fy y && is_at fx x)) [ inl e' ↦ rw e' | inr n' ↦ rw n' ])
      ],
    )

-- Drawing keeps the size of the fields and leaves the invisible rows alone.
pub draw_body_lem :
    (fs : Fields) (at_pos : Point) (c : ℕ) (body : Body) (y x : ℕ)
    → HasSize fs
    → All (IsInside at_pos) body
    → HasSize (draw_body fs at_pos c body)
      × (y < 2 → field (draw_body fs at_pos c body) y x ≡ field fs y x)
unfolding draw_body
draw_body_lem fs at_pos c [] y x s h = (s, λ top. refl)
draw_body_lem fs at_pos c (p ∷ ps) y x s h =
    let fx = p.x +ℤ at_pos.x in
    let fy = p.y +ℤ at_pos.y in
    let (s', here) = redraw_at_lem fs fx fy c y x s h.0.0 h.0.1 in
    let (s'', rest) = draw_body_lem (redraw_at fs fx fy c) at_pos c ps y x s' h.1 in
    (s'', λ top. rest top ∙ here top)
