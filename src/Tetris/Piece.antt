-- ===== src/Tetris/Piece.antt =====
-- The pieces (HtcLeoPkg/Application/TetrisApp/Piece.h and Piece.c). `body`, a pointer into `bodies`,
-- is the index that it points to.
use lgoptimus_l3pkg.Common.{
  ℕ, zero, suc, ◌+◌, ◌-◌, ◌*◌, ◌%◌, ◌^◌, Bool, true, Option, none, some, List, [], ◌∷◌, ◌==◌,
  if◌then◌else◌, get_or,
}
use lgoptimus_l3pkg.Common.Int.{ℤ, pos}

pub record Point : Type 0 where
  pub x : ℤ
  pub y : ℤ

abbrev pub Body : Type 0
Body = List Point

abbrev pub Bodies : Type 0
Bodies = List Body

abbrev pub at : ℕ → ℕ → Point
at x y = record { x = pos x; y = pos y }

abbrev body_of : Point → Point → Point → Point → Body
body_of a b c d = a ∷ b ∷ c ∷ d ∷ []

abbrev bodies_of : Body → Body → Body → Body → Bodies
bodies_of a b c d = a ∷ b ∷ c ∷ d ∷ []

abbrev pub tetrimino_i : Bodies
tetrimino_i =
    bodies_of (body_of (at 0 1) (at 1 1) (at 2 1) (at 3 1))
      (body_of (at 2 0) (at 2 1) (at 2 2) (at 2 3)) (body_of (at 0 2) (at 1 2) (at 2 2) (at 3 2))
      (body_of (at 1 0) (at 1 1) (at 1 2) (at 1 3))

abbrev pub tetrimino_j : Bodies
tetrimino_j =
    bodies_of (body_of (at 0 0) (at 0 1) (at 1 1) (at 2 1))
      (body_of (at 1 2) (at 1 1) (at 1 0) (at 2 0)) (body_of (at 0 1) (at 1 1) (at 2 1) (at 2 2))
      (body_of (at 0 2) (at 1 2) (at 1 1) (at 1 0))

abbrev pub tetrimino_l : Bodies
tetrimino_l =
    bodies_of (body_of (at 0 1) (at 1 1) (at 2 1) (at 2 0))
      (body_of (at 1 2) (at 1 1) (at 1 0) (at 2 2)) (body_of (at 0 1) (at 1 1) (at 2 1) (at 0 2))
      (body_of (at 0 0) (at 1 2) (at 1 1) (at 1 0))

abbrev pub tetrimino_o : Bodies
tetrimino_o =
    bodies_of (body_of (at 1 0) (at 1 1) (at 2 0) (at 2 1))
      (body_of (at 1 0) (at 1 1) (at 2 0) (at 2 1)) (body_of (at 1 0) (at 1 1) (at 2 0) (at 2 1))
      (body_of (at 1 0) (at 1 1) (at 2 0) (at 2 1))

abbrev pub tetrimino_s : Bodies
tetrimino_s =
    bodies_of (body_of (at 0 1) (at 1 1) (at 1 0) (at 2 0))
      (body_of (at 1 0) (at 1 1) (at 2 1) (at 2 2)) (body_of (at 0 2) (at 1 2) (at 1 1) (at 2 1))
      (body_of (at 0 0) (at 0 1) (at 1 1) (at 1 2))

abbrev pub tetrimino_t : Bodies
tetrimino_t =
    bodies_of (body_of (at 0 1) (at 1 1) (at 2 1) (at 1 0))
      (body_of (at 1 0) (at 1 1) (at 1 2) (at 2 1)) (body_of (at 0 1) (at 1 1) (at 2 1) (at 1 2))
      (body_of (at 1 0) (at 1 1) (at 1 2) (at 0 1))

abbrev pub tetrimino_z : Bodies
tetrimino_z =
    bodies_of (body_of (at 2 1) (at 1 1) (at 1 0) (at 0 0))
      (body_of (at 1 2) (at 1 1) (at 2 1) (at 2 0)) (body_of (at 2 2) (at 1 2) (at 1 1) (at 0 1))
      (body_of (at 0 2) (at 0 1) (at 1 1) (at 1 0))

pub record Piece : Type 0 where
  pub bodies : Bodies
  pub body : ℕ
  pub rotation : ℕ
  pub color : ℕ
  pub pos : Point

-- The static variables of `rand`; `second` is what GetTime reports in the first call.
pub record Rand : Type 0 where
  pub second : ℕ
  pub previous_value : ℕ
  pub initialized : Bool

-- `unsigned` arithmetic: `a * previousValue + c` wraps at 2^32, and M, the int 1 << 31, converts to
-- the unsigned 2^31.
unfoldable pub rand : Rand → ℕ × Rand
rand r =
    let seed = if r.initialized then r.previous_value else r.second in
    let value = ((69069 * seed + 1) % 2 ^ 32) % 2 ^ 31 in
    (value, record r { previous_value = value; initialized = true })

-- The bodies and the colour that the switch of `randomize` selects; `none` is its `default`.
unfoldable pub target : ℕ → Option (Bodies × ℕ)
target zero = some (tetrimino_i, 0x0b)
target (suc zero) = some (tetrimino_j, 0x09)
target (suc (suc zero)) = some (tetrimino_l, 0x02)
target (suc (suc (suc zero))) = some (tetrimino_o, 0x0e)
target (suc (suc (suc (suc zero)))) = some (tetrimino_s, 0x0a)
target (suc (suc (suc (suc (suc zero))))) = some (tetrimino_t, 0x05)
target (suc (suc (suc (suc (suc (suc zero)))))) = some (tetrimino_z, 0x0d)
target _ = none

-- `none`, the ASSERT of the default case, cannot be reached and leaves the piece.
unfoldable pub randomize : Rand → Piece → Piece × Rand
unfolding rand target
randomize r p =
    let (value, r') = rand r in
    (
      elim (target (value % 7)) [
        | none ↦ p
        | some (shape, c) ↦ record p { bodies = shape; color = c; rotation = 0; body = 0 }
      ],
      r',
    )

unfoldable pub rotate_cw : Piece → Piece
rotate_cw p = let turned = (p.rotation + 1) % 4 in record p { rotation = turned; body = turned }

unfoldable pub rotate_ccw : Piece → Piece
rotate_ccw p =
    let turned = if p.rotation == 0 then 3 else p.rotation - 1 in
    record p { rotation = turned; body = turned }

abbrev zero_piece : Piece
zero_piece = record { bodies = []; body = 0; rotation = 0; color = 0; pos = at 0 0 }

-- The first `rand` is the call that only seeds.
unfoldable pub construct_piece : Rand → Piece × Rand
unfolding rand randomize
construct_piece r = randomize (rand r).1 zero_piece

abbrev pub current_body : Piece → Body
current_body p = get_or p.bodies p.body []
