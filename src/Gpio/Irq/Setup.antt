-- ===== src/Gpio/Irq/Setup.antt =====
-- What msm_gpio_init (HtcLeoPkg/Library/MsmTargetGpioLib/qcom_qsd8250_gpio.c) does to the enabled
-- sources of the interrupt controller, through Interrupts.c and InterruptDxe.c.
use lgoptimus_l3pkg.Common.{
  ℕ, ◌≡◌, refl, ap, ◌∙◌, Bool, true, false, ◌||◌, none, some, List, [], ◌∷◌, arith, ◌==◌, length,
  get_or, get_or-set_ne,
}
use lgoptimus_l3pkg.Common.Io.{Io}
use lgoptimus_l3pkg.Interrupt.{nr_irqs, Vic, Irqs, enable_interrupt_source}
use lgoptimus_l3pkg.Interrupt.Table.{register_by, put}
use lgoptimus_l3pkg.Interrupt.Enable.{EnableLaws, enable_aliases, enable_lem}
use lgoptimus_l3pkg.InterruptsLib.{Lib, unmask_interrupt, register_int_handler}
use lgoptimus_l3pkg.Gpio.{Gpioregs, gpio_regs}
use lgoptimus_l3pkg.Gpio.Irq.{int_gpio_group1, int_gpio_group2, ones, quiet_banks, msm_gpio_init}

module _ {V : Type 0} (io : Io V) (vic : Vic V) (enabled : V → ℕ → Bool)
    (laws : EnableLaws vic enabled)
    (quiet : (v : V) (x addr n : ℕ) → enabled (io.writel x addr v).1 n ≡ enabled v n) where
  quiet_banks-enabled :
      (rs : List Gpioregs) (v : V) (n : ℕ) → enabled (quiet_banks io rs v).1 n ≡ enabled v n
  quiet_banks-enabled [] v n = refl
  quiet_banks-enabled (r ∷ rs) v n =
      quiet_banks-enabled rs _ n ∙ quiet _ 0 r.int_en n ∙ quiet v ones r.int_clear n

  group1 :
      (v : V) (n : ℕ)
      → enabled (enable_interrupt_source vic int_gpio_group1 v).1 n ≡ (n == 41) || enabled v n
  group1 v n =
      ap (λ r. enabled r.1 n) ((enable_aliases vic int_gpio_group1 v (omega arith) (omega arith)).0)
      ∙ (enable_lem vic enabled laws 41 n v (omega arith)).2

  group2 :
      (v : V) (n : ℕ)
      → enabled (enable_interrupt_source vic int_gpio_group2 v).1 n ≡ (n == 42) || enabled v n
  group2 v n =
      ap (λ r. enabled r.1 n) ((enable_aliases vic int_gpio_group2 v (omega arith) (omega arith)).0)
      ∙ (enable_lem vic enabled laws 42 n v (omega arith)).2

  twice : (a b c : Bool) → b || (a || (b || (a || c))) ≡ a || (b || c)
  twice true true c = refl
  twice true false c = refl
  twice false true c = refl
  twice false false c = refl

  -- msm_gpio_init, with a table that is free for the pins' two interrupts 73 and 74, enables the
  -- sources 41 and 42 of the controller, which are other devices', and no source more.
  pub msm_gpio_init_lem :
      (self isr n : ℕ) (s : Lib V)
      → length s.irqs.handlers ≡ nr_irqs
      → get_or s.irqs.handlers int_gpio_group1 none ≡ none
      → get_or s.irqs.handlers int_gpio_group2 none ≡ none
      → enabled (msm_gpio_init io vic self isr s).irqs.hw n
        ≡ (n == 41) || ((n == 42) || enabled s.irqs.hw n)
  unfolding msm_gpio_init register_int_handler unmask_interrupt
  msm_gpio_init_lem self isr n s len free1 free2 =
      let t : Irqs V = record s.irqs { hw = (quiet_banks io gpio_regs s.irqs.hw).1 } in
      let u : Irqs V = put vic t int_gpio_group1 (some self) in
      let first = register_by vic t int_gpio_group1 none (some self) (omega arith) free1 in
      let still_free =
        get_or-set_ne t.handlers int_gpio_group1 int_gpio_group2 (some self) none
          (λ e. omega (arith, e))
        ∙ free2 in
      let second = register_by vic u int_gpio_group2 none (some self) (omega arith) still_free in
      rw (first, second)
        (group2 _ n
          ∙ ap (λ b. (n == 42) || b) (group1 _ n)
          ∙ ap (λ b. (n == 42) || ((n == 41) || b)) (group2 _ n)
          ∙ ap (λ b. (n == 42) || ((n == 41) || ((n == 42) || b))) (group1 _ n)
          ∙ ap (λ b. (n == 42) || ((n == 41) || ((n == 42) || ((n == 41) || b))))
              (quiet_banks-enabled gpio_regs s.irqs.hw n)
          ∙ twice (n == 41) (n == 42) (enabled s.irqs.hw n))
