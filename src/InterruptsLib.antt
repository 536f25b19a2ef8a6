-- ===== src/InterruptsLib.antt =====
-- HtcLeoPkg/Library/InterruptsLib/Interrupts.c: handlers with an argument, over the table of the
-- interrupt controller driver (Interrupt). A handler is a number. The read of VIC_IRQ_VEC_RD in the
-- handler, whose value is not used, is left out: reads of the controller change nothing.
pub mod Dispatch
use lgoptimus_l3pkg.Common.{
  ℕ, Bool, true, false, Option, none, some, List, [], ◌∷◌, ◌++◌, ◌==◌, if◌then◌else◌,
}
use lgoptimus_l3pkg.Interrupt.{
  Status, success, unsupported, invalid_parameter, already_started, vic_int_clear0, vic_int_clear1,
  vic_irq_vec_wr, irq_bit, by_source, Vic, Irqs, enable_interrupt_source, disable_interrupt_source,
  register_interrupt_source,
}

abbrev pub vic_irq_vec_pend_rd : ℕ
vic_irq_vec_pend_rd = 0xD4

-- HANDLER_ENTRY.
pub record Entry : Type 0 where
  pub vector : ℕ
  pub handler : ℕ
  pub arg : ℕ

-- mHandlers, and the driver's table with the controller.
pub record Lib (V : Type 0) : Type 0 where
  pub entries : List Entry
  pub irqs : Irqs V

unfoldable pub get_interrupt_handler_entry : ℕ → List Entry → Option Entry
get_interrupt_handler_entry vector [] = none
get_interrupt_handler_entry vector (e ∷ es) =
    if e.vector == vector then some e else get_interrupt_handler_entry vector es

-- `Status==EFI_SUCCESS?0:-1`: whether it is 0.
abbrev pub is_success : Status → Bool
is_success success = true
is_success unsupported = false
is_success invalid_parameter = false
is_success already_started = false

module _ {V : Type 0} (vic : Vic V) where
  abbrev pub on_hw : (V → Status × V) → Lib V → Bool × Lib V
  on_hw f s =
      let done = f s.irqs.hw in
      (is_success done.0, record s { irqs = record s.irqs { hw = done.1 } })

  unfoldable pub mask_interrupt : ℕ → Lib V → Bool × Lib V
  mask_interrupt vector s = on_hw (disable_interrupt_source vic vector) s

  unfoldable pub unmask_interrupt : ℕ → Lib V → Bool × Lib V
  unmask_interrupt vector s = on_hw (enable_interrupt_source vic vector) s

  -- `self` is InterruptsLibIrqHandler. The asserts are compiled out: a second entry for a vector is
  -- appended too, and the status of the driver is not looked at. The allocation succeeds.
  unfoldable pub register_int_handler : ℕ → ℕ → ℕ → ℕ → Lib V → Lib V
  register_int_handler self vector handler arg s = record {
    entries = s.entries ++ (record { vector = vector; handler = handler; arg = arg } ∷ []);
    irqs = (register_interrupt_source vic vector (some self) s.irqs).1;
  }

  -- `call handler arg` is the effect of a handler.
  module _ (call : ℕ → ℕ → Irqs V → Irqs V) where
    -- Without an entry the code calls through a null pointer; the model then does nothing.
    abbrev pub call_entry : Option Entry → Irqs V → Irqs V
    call_entry none s = s
    call_entry (some e) s = call e.handler e.arg s

    -- The first read, of VIC_IRQ_VEC_RD, is not used.
    unfoldable pub interrupts_lib_irq_handler : List Entry → Irqs V → Irqs V
    interrupts_lib_irq_handler entries s =
        let source = vic.read s.hw vic_irq_vec_pend_rd in
        let s1 = record s {
          hw = vic.write s.hw (by_source source vic_int_clear0 vic_int_clear1) (irq_bit source);
        } in
        let s2 = call_entry (get_interrupt_handler_entry source entries) s1 in
        record s2 { hw = vic.write s2.hw vic_irq_vec_wr 0 }
