-- ===== src/Tetris/Screen/Follow.antt =====
-- The console follows the board through the moves of HtcLeoPkg/Application/TetrisApp/Board.c.
use lgoptimus_l3pkg.Common.{
  ℕ, ◌<◌, ◌≤◌, ◌≡◌, refl, sym, ap, ◌∙◌, inl, inr, Bool, true, false, if◌then◌else◌, Bool-cases, All,
}
use lgoptimus_l3pkg.Tetris.Piece.{Point, Body}
use lgoptimus_l3pkg.Tetris.Board.{Fields as BoardFields, field, mark_body, draw_body}
use lgoptimus_l3pkg.Tetris.Moves.Cells.{HasSize, IsInside, covers, mark_body_lem, draw_body_lem}
use lgoptimus_l3pkg.Tetris.Screen.{Console, put_body}
use lgoptimus_l3pkg.Tetris.Screen.Fields.{Shows, seen-put_body, field-draw_body}

-- The visible fields that the body covers have the colour c.
abbrev pub Colored : BoardFields → Point → Body → ℕ → Type 0
Colored fs at_pos body c =
    (y x : ℕ) → 2 ≤ y → y < 22 → x < 10 → covers at_pos body y x ≡ true → field fs y x ≡ c

-- The first body is erased, and then both are drawn, the first in black and the second in c.
abbrev replaced : BoardFields → Point → Body → Point → Body → ℕ → BoardFields
replaced fs p ps q qs c = draw_body (draw_body (mark_body fs p 0 ps) p 0 ps) q c qs

chosen : (b : Bool) (c v : ℕ) → b ≡ true → (if b then c else v) ≡ c
chosen true c v e = refl
chosen false c v e = cc

-- Erasing twice is erasing once.
erased_twice :
    (b b' : Bool) (c v : ℕ)
    → (if b' then c else if b then 0 else v)
      ≡ (if b' then c else if b then 0 else if b then 0 else v)
erased_twice true true c v = refl
erased_twice true false c v = refl
erased_twice false true c v = refl
erased_twice false false c v = refl

pub mark-Colored :
    (fs : BoardFields) (p : Point) (ps : Body) (c : ℕ)
    → HasSize fs
    → All (IsInside p) ps
    → Colored (mark_body fs p c ps) p ps c
mark-Colored fs p ps c size inside y x low high wide cov =
    (mark_body_lem fs p c ps y x size inside).1 ∙ chosen (covers p ps y x) c (field fs y x) cov

module _ (fs : BoardFields) (k : Console) (p : Point) (ps : Body) (size : HasSize fs)
    (inside : All (IsInside p) ps) (sh : Shows fs k) where
  -- The fields of `replaced`, one by one.
  field-replaced :
      (q : Point) (qs : Body) (c y x : ℕ)
      → All (IsInside q) qs
      → 2 ≤ y
      → field (replaced fs p ps q qs c) y x ≡ (
          if covers q qs y x
          then c
          else if covers p ps y x
          then 0
          else if covers p ps y x
          then 0
          else field fs y x)
  field-replaced q qs c y x inside' low =
      let marked = mark_body_lem fs p 0 ps y x size inside in
      let drawn = (draw_body_lem (mark_body fs p 0 ps) p 0 ps y x marked.0 inside).0 in
      field-draw_body (draw_body (mark_body fs p 0 ps) p 0 ps) q c qs y x drawn inside' low
      ∙ ap (λ v. if covers q qs y x then c else v)
          (field-draw_body (mark_body fs p 0 ps) p 0 ps y x marked.0 inside low
            ∙ ap (λ v. if covers p ps y x then 0 else v) marked.1)

  pub replaced-Shows :
      (q : Point) (qs : Body) (c : ℕ)
      → All (IsInside q) qs
      → Shows (replaced fs p ps q qs c) (put_body q c qs (put_body p 0 ps k))
  replaced-Shows q qs c inside' = record {
    shows = λ h y x small low high wide.
        seen-put_body q c qs (put_body p 0 ps k) h y x inside' small low
        ∙ ap (λ v. if covers q qs y x then c else v)
            (seen-put_body p 0 ps k h y x inside small low
              ∙ ap (λ v. if covers p ps y x then 0 else v) (sh.shows h y x small low high wide))
        ∙ erased_twice (covers p ps y x) (covers q qs y x) c (field fs y x)
        ∙ sym (field-replaced q qs c y x inside' low);
  }

  pub replaced-Colored :
      (q : Point) (qs : Body) (c : ℕ)
      → All (IsInside q) qs
      → Colored (replaced fs p ps q qs c) q qs c
  replaced-Colored q qs c inside' y x low high wide cov =
      field-replaced q qs c y x inside' low ∙ chosen (covers q qs y x) c _ cov

  -- Marking a body in the colour that it has already changes nothing that is shown.
  pub mark-Shows : (c : ℕ) → Colored fs p ps c → Shows (mark_body fs p c ps) k
  mark-Shows c col = record {
    shows = λ h y x small low high wide.
        sh.shows h y x small low high wide ∙ elim (Bool-cases (covers p ps y x)) [
          | inl e ↦
              col y x low high wide e
              ∙ sym (chosen (covers p ps y x) c (field fs y x) e)
              ∙ sym (mark_body_lem fs p c ps y x size inside).1
          | inr n ↦ sym ((mark_body_lem fs p c ps y x size inside).1 ∙ rw n refl)
        ];
  }

  -- Erasing a body and marking it again in the colour that it had.
  pub restored-Shows :
      (c : ℕ) → Colored fs p ps c → Shows (mark_body (mark_body fs p 0 ps) p c ps) k
  restored-Shows c col = record {
    shows = λ h y x small low high wide.
        let first = mark_body_lem fs p 0 ps y x size inside in
        let again = mark_body_lem (mark_body fs p 0 ps) p c ps y x first.0 inside in
        sh.shows h y x small low high wide ∙ elim (Bool-cases (covers p ps y x)) [
          | inl e ↦ col y x low high wide e ∙ sym (again.1 ∙ chosen (covers p ps y x) c _ e)
          | inr n ↦ sym (again.1 ∙ rw n (first.1 ∙ rw n refl))
        ];
  }
