-- ===== src/Timer/Period.antt =====
-- What SetTimerPeriod (HtcLeoPkg/Drivers/TimerDxe/Timer.c) does to the timer and to the sources that
-- the interrupt controller has enabled, and that the start leaves the timer running.
use lgoptimus_l3pkg.Common.{
  ℕ, ◌*◌, ◌/◌, ◌%◌, ◌^◌, ◌<◌, ◌≡◌, ◌≢◌, refl, ap, ◌∙◌, inl, inr, Bool, true, false, not, ◌&&◌, ◌||◌,
  none, some, arith, ltb, ◌==◌, if◌then◌else◌, Bool-cases, length, get_or, get_or-set_self,
}
use lgoptimus_l3pkg.Common.Io.{Io}
use lgoptimus_l3pkg.Interrupt.{
  success, nr_irqs, Vic, Irqs, enable_interrupt_source, disable_interrupt_source,
}
use lgoptimus_l3pkg.Interrupt.Table.{register_by, put}
use lgoptimus_l3pkg.Interrupt.Enable.{EnableLaws, enable_lem}
use lgoptimus_l3pkg.Timer.{
  dgt_match_val, dgt_enable, dgt_clear, dgt_hz, int_debug_timer_exp, timer_period, Timer, write32,
  timer_driver_set_timer_period, timer_initialize,
}

-- The timer's registers hold what was written to them, and the controller and the timer do not
-- touch each other.
pub record TimerLaws {V : Type 0} (io : Io V) (vic : Vic V) (enabled : V → ℕ → Bool)
    (peek : V → ℕ → ℕ) : Type 0 where
  pub own : (v : V) (x addr : ℕ) → peek (io.writel x addr v).1 addr ≡ x
  pub other : (v : V) (x addr reg : ℕ) → reg ≢ addr → peek (io.writel x addr v).1 reg ≡ peek v reg
  pub quiet : (v : V) (x addr n : ℕ) → enabled (io.writel x addr v).1 n ≡ enabled v n
  pub apart : (v : V) (x addr reg : ℕ) → peek (vic.write v addr x) reg ≡ peek v reg

module _ {V : Type 0} (io : Io V) (vic : Vic V) (enabled : V → ℕ → Bool) (peek : V → ℕ → ℕ)
    (laws : EnableLaws vic enabled) (timer : TimerLaws io vic enabled peek) where
  -- A set source over an unset one.
  over : (a b : Bool) → a || (not a && b) ≡ a || b
  over true b = refl
  over false b = refl

  enable_peek :
      (source reg : ℕ) (v : V)
      → source < 64
      → peek (enable_interrupt_source vic source v).1 reg ≡ peek v reg
  unfolding enable_interrupt_source
  enable_peek source reg v h =
      let low : ltb nr_irqs source ≡ false = ground arith in rw low (timer.apart v _ _ reg)

  disable_peek :
      (source reg : ℕ) (v : V)
      → source < 64
      → peek (disable_interrupt_source vic source v).1 reg ≡ peek v reg
  unfolding disable_interrupt_source
  disable_peek source reg v h =
      let low : ltb nr_irqs source ≡ false = ground arith in rw low (timer.apart v _ _ reg)

  abbrev stopped : ℕ → V → V
  stopped vector v =
      (disable_interrupt_source vic vector
        (write32 io vic dgt_clear 0 (write32 io vic dgt_enable 0 v))).1

  abbrev started : ℕ → ℕ → V → V
  started period vector v =
      let v1 = (disable_interrupt_source vic vector v).1 in
      let v2 = write32 io vic dgt_match_val (period / 10000 * (dgt_hz / 1000)) v1 in
      (enable_interrupt_source vic vector
        (write32 io vic dgt_enable 3 (write32 io vic dgt_clear 0 v2))).1

  stopped_lem :
      (vector n : ℕ) (v : V)
      → vector < 64
      → (peek (stopped vector v) dgt_enable ≡ 0)
        × (peek (stopped vector v) dgt_match_val ≡ peek v dgt_match_val)
        × (enabled (stopped vector v) n ≡ not (n == vector) && enabled v n)
  stopped_lem vector n v h = (
    disable_peek vector dgt_enable _ h
        ∙ timer.other _ _ _ _ (λ e. omega (arith, e))
        ∙ timer.own _ _ _,
    disable_peek vector dgt_match_val _ h
        ∙ timer.other _ _ _ _ (λ e. omega (arith, e))
        ∙ timer.other _ _ _ _ (λ e. omega (arith, e)),
    (enable_lem vic enabled laws vector n _ h).3
        ∙ ap (λ b. not (n == vector) && b) (timer.quiet _ _ _ n ∙ timer.quiet _ _ _ n),
  )

  started_lem :
      (period vector n : ℕ) (v : V)
      → vector < 64
      → let v' = started period vector v in
        (peek v' dgt_enable ≡ 3)
        × (peek v' dgt_match_val ≡ period / 10000 * 4800 % 2 ^ 32)
        × (enabled v' n ≡ (n == vector) || enabled v n)
  started_lem period vector n v h = (
    enable_peek vector dgt_enable _ h ∙ timer.own _ _ _,
    enable_peek vector dgt_match_val _ h
        ∙ timer.other _ _ _ _ (λ e. omega (arith, e))
        ∙ timer.other _ _ _ _ (λ e. omega (arith, e))
        ∙ timer.own _ _ _,
    (enable_lem vic enabled laws vector n _ h).2
        ∙ ap (λ b. (n == vector) || b)
            (timer.quiet _ _ _ n
              ∙ timer.quiet _ _ _ n
              ∙ timer.quiet _ _ _ n
              ∙ (enable_lem vic enabled laws vector n v h).3)
        ∙ over (n == vector) (enabled v n),
  )

  choose_off : (a b : Bool) → not a && b ≡ (if a then false else b)
  choose_off true b = refl
  choose_off false b = refl

  choose_on : (a b : Bool) → a || b ≡ (if a then true else b)
  choose_on true b = refl
  choose_on false b = refl

  -- SetTimerPeriod succeeds and keeps the period. With a period it starts the timer, with a match
  -- value of 4800 for each whole millisecond, and enables the timer's source; with none it stops
  -- the timer and disables the source. It leaves the other sources.
  pub set_timer_period_lem :
      (period n : ℕ) (s : Timer V)
      → s.vector < 64
      → let (status, s') = timer_driver_set_timer_period io vic period s in
        let v = s.irqs.hw in
        let v' = s'.irqs.hw in
        let stop = period == 0 in
        (status ≡ success)
        × (s'.period ≡ period)
        × (peek v' dgt_enable ≡ (if stop then 0 else 3))
        × (peek v' dgt_match_val
            ≡ (if stop then peek v dgt_match_val else period / 10000 * 4800 % 2 ^ 32))
        × (enabled v' n ≡ (if n == s.vector then not stop else enabled v n))
  unfolding timer_driver_set_timer_period
  set_timer_period_lem period n s h =
      let v = s.irqs.hw in
      let on =
        (enable_lem vic enabled laws s.vector n
          (write32 io vic dgt_enable 3 (
            write32 io vic dgt_clear 0 (
              write32 io vic dgt_match_val (period / 10000 * (dgt_hz / 1000))
                (disable_interrupt_source vic s.vector v).1)))
          h).0 in
      let off =
        (enable_lem vic enabled laws s.vector n
          (write32 io vic dgt_clear 0 (write32 io vic dgt_enable 0 v)) h).1 in
      elim (Bool-cases (period == 0)) [
        | inl e ↦
            let (a, b, c) = stopped_lem s.vector n v h in
            rw e (off, refl, a, b, c ∙ choose_off (n == s.vector) (enabled v n))
        | inr e ↦
            let (a, b, c) = started_lem period s.vector n v h in
            rw e (on, refl, a, b, c ∙ choose_on (n == s.vector) (enabled v n))
      ]

  -- With a free table entry, TimerInitialize leaves its handler registered, the timer running with a
  -- match value for one millisecond, and its source enabled.
  pub timer_initialize_lem :
      (self : ℕ) (s : Timer V)
      → length s.irqs.handlers ≡ nr_irqs
      → get_or s.irqs.handlers int_debug_timer_exp none ≡ none
      → let s' = timer_initialize io vic self s in
        (s'.period ≡ timer_period)
        × (get_or s'.irqs.handlers int_debug_timer_exp none ≡ some self)
        × (peek s'.irqs.hw dgt_enable ≡ 3)
        × (peek s'.irqs.hw dgt_match_val ≡ dgt_hz / 1000)
        × (enabled s'.irqs.hw int_debug_timer_exp ≡ true)
  unfolding timer_initialize timer_driver_set_timer_period
  timer_initialize_lem self s len free =
      let t : Irqs V = record s.irqs { hw = stopped int_debug_timer_exp s.irqs.hw } in
      let registered = register_by vic t int_debug_timer_exp none (some self) (omega arith) free in
      let (a, b, c) =
        started_lem timer_period int_debug_timer_exp int_debug_timer_exp
          (put vic t int_debug_timer_exp (some self)).hw (omega arith) in
      rw registered (
        refl,
        get_or-set_self s.irqs.handlers int_debug_timer_exp (some self) none (omega (arith, len)),
        a,
        b,
        c,
      )
