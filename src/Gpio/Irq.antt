-- ===== src/Gpio/Irq.antt =====
-- The interrupts of the pins, of HtcLeoPkg/Library/MsmTargetGpioLib/qcom_qsd8250_gpio.c, on the
-- interrupt library.
pub mod Setup
use Prim.Native.Nat.{bit_and, bit_or, bit_xor}
use lgoptimus_l3pkg.Common.{
  ℕ, zero, suc, ◌+◌, ◌-◌, ◌^◌, Bool, true, false, not, ◌&&◌, Option, none, some, List, [], ◌∷◌,
  ◌==◌, if◌then◌else◌, get_or, set,
}
use lgoptimus_l3pkg.Common.Words.{complement}
use lgoptimus_l3pkg.Common.Io.{Action, pure, ◌>>=◌, ◌>>◌, Io}
use lgoptimus_l3pkg.Interrupt.{Vic, Irqs}
use lgoptimus_l3pkg.InterruptsLib.{Lib, mask_interrupt, unmask_interrupt, register_int_handler}
use lgoptimus_l3pkg.Gpio.{Gpioregs, gpio_regs, find_gpio, any, update_bit, on_bank}

abbrev pub ones : ℕ
ones = 0xffffffff

abbrev pub nr_msm_gpios : ℕ
nr_msm_gpios = 164

abbrev pub int_gpio_group1 : ℕ
int_gpio_group1 = 73

abbrev pub int_gpio_group2 : ℕ
int_gpio_group2 = 74

abbrev pub irqf_rising : ℕ
irqf_rising = 1

abbrev pub irqf_falling : ℕ
irqf_falling = 2

module _ {V : Type 0} (io : Io V) where
  -- The passes that are left of the do-while loop.
  abbrev pub settle_edges : ℕ → Gpioregs → Action V Unit
  settle_edges zero r = pure tt
  settle_edges (suc n) r = do
    val ← io.readl r.inp
    pol ← io.readl r.int_pos
    io.writel (bit_or pol (complement val)) r.int_pos
    intstat ← io.readl r.int_status
    val2 ← io.readl r.inp
    if bit_and (bit_xor val val2) (complement intstat) == 0 then pure tt else settle_edges n r

  -- loop_limit-- > 0 with loop_limit = 100 allows 101 passes.
  unfoldable pub msm_gpio_update_both_edge_detect : ℕ → Action V Unit
  msm_gpio_update_both_edge_detect gpio = on_bank (find_gpio gpio) tt (λ r b. settle_edges 101 r)

  -- Whether it returned 0, else -1.
  unfoldable pub msm_gpio_irq_clear : ℕ → Action V Bool
  msm_gpio_irq_clear gpio =
      on_bank (find_gpio gpio) false (λ r b. do io.writel b r.int_clear; pure true)

  unfoldable pub msm_gpio_irq_ack : ℕ → Action V Unit
  msm_gpio_irq_ack gpio = do msm_gpio_irq_clear gpio; msm_gpio_update_both_edge_detect gpio

  unfoldable pub msm_set_gpio_irq_trigger : ℕ → ℕ → Action V Unit
  msm_set_gpio_irq_trigger gpio flags = on_bank (find_gpio gpio) tt (λ r b. do
    update_bit io (any flags 3) b r.int_edge
    if bit_and flags 3 == 3
        then msm_gpio_update_both_edge_detect gpio
        else update_bit io (any flags irqf_rising) b r.int_pos)

  -- msm_gpio_irq_mask and msm_gpio_irq_unmask differ in the bit's new value.
  abbrev pub switch_irq : Bool → ℕ → Action V Unit
  switch_irq on gpio = on_bank (find_gpio gpio) tt (λ r b. do
    v ← io.readl r.int_edge
    if any v b then pure tt else (do msm_gpio_irq_clear gpio; pure tt)
    update_bit io on b r.int_en)

  unfoldable pub msm_gpio_irq_mask : ℕ → Action V Unit
  msm_gpio_irq_mask gpio = switch_irq false gpio

  unfoldable pub msm_gpio_irq_unmask : ℕ → Action V Unit
  msm_gpio_irq_unmask gpio = switch_irq true gpio

  unfoldable pub mask_gpio_interrupt : ℕ → Action V ℕ
  mask_gpio_interrupt gpio = do msm_gpio_irq_mask gpio; pure 0

  unfoldable pub unmask_gpio_interrupt : ℕ → ℕ → Action V ℕ
  unmask_gpio_interrupt gpio detect = do
    msm_set_gpio_irq_trigger gpio detect
    msm_gpio_irq_unmask gpio
    pure 0

  -- The loop over the banks in msm_gpio_init and msm_gpio_deinit.
  abbrev pub quiet_banks : List Gpioregs → Action V Unit
  quiet_banks [] = pure tt
  quiet_banks (r ∷ rs) = do io.writel ones r.int_clear; io.writel 0 r.int_en; quiet_banks rs

-- msm_gpio_isr_handler: a handler, NULL being none, its argument, and whether it is to be called.
pub record PinHandler : Type 0 where
  pub handler : Option ℕ
  pub arg : ℕ
  pub pending : Bool

abbrev pub no_handler : PinHandler
no_handler = record { handler = none; arg = 0; pending = false }

-- gpio_irq_handlers, the interrupt library and the machine.
pub record Pins (V : Type 0) : Type 0 where
  pub pins : List PinHandler
  pub lib : Lib V

module _ {V : Type 0} (io : Io V) (vic : Vic V) where
  -- A register access of the code that has the whole state.
  abbrev pub on_machine : {A : Type 0} → Action V A → Lib V → A × Lib V
  on_machine f s =
      let done = f s.irqs.hw in (done.0, record s { irqs = record s.irqs { hw = done.1 } })

  -- `self` is InterruptsLibIrqHandler and `isr` is msm_gpio_isr.
  unfoldable pub msm_gpio_init : ℕ → ℕ → Lib V → Lib V
  msm_gpio_init self isr s =
      let s1 = (on_machine (quiet_banks io gpio_regs) s).1 in
      let s2 = register_int_handler vic self int_gpio_group1 isr 0 s1 in
      let s3 = register_int_handler vic self int_gpio_group2 isr 0 s2 in
      let s4 = (unmask_interrupt vic int_gpio_group1 s3).1 in
      (unmask_interrupt vic int_gpio_group2 s4).1

  unfoldable pub msm_gpio_deinit : Lib V → Lib V
  msm_gpio_deinit s =
      let s1 = (on_machine (quiet_banks io gpio_regs) s).1 in
      let s2 = (mask_interrupt vic int_gpio_group1 s1).1 in
      (mask_interrupt vic int_gpio_group2 s2).1

  -- The range test has no effect. With a pin past the table the code writes behind it; the model
  -- then writes nothing.
  unfoldable pub register_gpio_int_handler : ℕ → Option ℕ → ℕ → Pins V → Pins V
  register_gpio_int_handler gpio handler arg s =
      let p = get_or s.pins gpio no_handler in
      record s { pins = set s.pins gpio (record p { handler = handler; arg = arg }) }

  abbrev pub set_pending : ℕ → Bool → Pins V → Pins V
  set_pending gpio value s =
      let p = get_or s.pins gpio no_handler in
      record s { pins = set s.pins gpio (record p { pending = value }) }

  -- `for (int j = 32 - n; j < 32; j++)` with the bits of e & s.
  abbrev pub ack_bits : ℕ → ℕ → Gpioregs → Pins V → Pins V
  ack_bits zero active r s = s
  ack_bits (suc n) active r s =
      let gpio = r.start + (31 - n) in
      let acked = record s { lib = (on_machine (msm_gpio_irq_ack io gpio) s.lib).1 } in
      ack_bits n active r (if any active (2 ^ (31 - n)) then set_pending gpio true acked else s)

  abbrev pub ack_banks : List Gpioregs → Pins V → Pins V
  ack_banks [] s = s
  ack_banks (r ∷ rs) s =
      let status = on_machine (io.readl r.int_status) s.lib in
      let enabled = on_machine (io.readl r.int_en) status.1 in
      ack_banks rs (ack_bits 32 (bit_and enabled.0 status.0) r (record s { lib = enabled.1 }))

  -- `call handler arg` is the effect of a handler.
  module _ (call : ℕ → ℕ → Pins V → Pins V) where
    abbrev pub call_pin : Option ℕ → ℕ → Pins V → Pins V
    call_pin none arg s = s
    call_pin (some h) arg s = call h arg s

    -- n pins are left.
    abbrev pub call_pending : ℕ → ℕ → Pins V → Pins V
    call_pending zero i s = s
    call_pending (suc n) i s =
        let p = get_or s.pins i no_handler in
        let s1 = set_pending i false s in
        call_pending n (suc i) (if p.pending then call_pin p.handler p.arg s1 else s)

    unfoldable pub msm_gpio_isr : Pins V → Pins V
    msm_gpio_isr s = call_pending nr_msm_gpios 0 (ack_banks gpio_regs s)
