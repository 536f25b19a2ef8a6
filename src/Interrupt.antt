-- ===== src/Interrupt.antt =====
-- HtcLeoPkg/Drivers/InterruptDxe/InterruptDxe.c: the table of interrupt handlers and the vectored
-- interrupt controller (VIC), whose register offsets Include/Chipset/interrupts.h gives. The
-- controller is a parameter: a state with reads and writes of 32-bit registers.
pub mod Table
pub mod Enable
use Prim.Native.Nat.{bit_and}
use lgoptimus_l3pkg.Common.{
  ℕ, zero, suc, ◌+◌, ◌%◌, ◌^◌, Bool, true, false, not, ◌&&◌, Option, none, some, List, [], ◌∷◌, ltb,
  ◌==◌, if◌then◌else◌, get_or, set,
}

pub data Status : Type 0 where
  success unsupported invalid_parameter already_started : Status

-- The sum of irqs.h: 64 + 23 + 165 + 64 + 16.
abbrev pub nr_irqs : ℕ
nr_irqs = 332

abbrev pub vic_int_select0 : ℕ
vic_int_select0 = 0x00

abbrev pub vic_int_select1 : ℕ
vic_int_select1 = 0x04

abbrev pub vic_int_en0 : ℕ
vic_int_en0 = 0x10

abbrev pub vic_int_en1 : ℕ
vic_int_en1 = 0x14

abbrev pub vic_int_enclear0 : ℕ
vic_int_enclear0 = 0x20

abbrev pub vic_int_enclear1 : ℕ
vic_int_enclear1 = 0x24

abbrev pub vic_int_enset0 : ℕ
vic_int_enset0 = 0x30

abbrev pub vic_int_enset1 : ℕ
vic_int_enset1 = 0x34

abbrev pub vic_int_type0 : ℕ
vic_int_type0 = 0x40

abbrev pub vic_int_type1 : ℕ
vic_int_type1 = 0x44

abbrev pub vic_int_masteren : ℕ
vic_int_masteren = 0x68

abbrev pub vic_config : ℕ
vic_config = 0x6C

abbrev pub vic_int_clear0 : ℕ
vic_int_clear0 = 0xB0

abbrev pub vic_int_clear1 : ℕ
vic_int_clear1 = 0xB4

abbrev pub vic_irq_vec_rd : ℕ
vic_irq_vec_rd = 0xD0

abbrev pub vic_irq_vec_wr : ℕ
vic_irq_vec_wr = 0xD8

abbrev pub ones : ℕ
ones = 0xffffffff

-- `1 << (Source & 31)`.
abbrev pub irq_bit : ℕ → ℕ
irq_bit source = 2 ^ (source % 32)

abbrev pub by_source : ℕ → ℕ → ℕ → ℕ
by_source source reg0 reg1 = if ltb 31 source then reg1 else reg0

pub record Vic (V : Type 0) : Type 0 where
  pub read : V → ℕ → ℕ
  pub write : V → ℕ → ℕ → V

-- gRegisteredInterruptHandlers, a handler being a number and `none` NULL, and the controller.
pub record Irqs (V : Type 0) : Type 0 where
  pub handlers : List (Option ℕ)
  pub hw : V

module _ {V : Type 0} (vic : Vic V) where
  abbrev pub writes : V → List (ℕ × ℕ) → V
  writes v [] = v
  writes v (w ∷ ws) = writes (vic.write v w.0 w.1) ws

  unfoldable pub init_interrupts : V → V
  init_interrupts v = writes v (
      (vic_int_clear0, ones)
      ∷ (vic_int_clear1, ones)
      ∷ (vic_int_select0, 0)
      ∷ (vic_int_select1, 0)
      ∷ (vic_int_type0, ones)
      ∷ (vic_int_type1, ones)
      ∷ (vic_config, 0)
      ∷ (vic_int_en0, 1)
      ∷ (vic_int_en1, 1)
      ∷ (vic_int_masteren, 1)
      ∷ [])

  unfoldable pub deinit_interupts : V → V
  deinit_interupts v = writes v (
      (vic_int_masteren, 0)
      ∷ (vic_int_en0, 0)
      ∷ (vic_int_en1, 0)
      ∷ (vic_int_clear0, ones)
      ∷ (vic_int_clear1, ones)
      ∷ (vic_int_select0, 0)
      ∷ (vic_int_select1, 0)
      ∷ (vic_int_type0, ones)
      ∷ (vic_int_type1, ones)
      ∷ (vic_config, 0)
      ∷ [])

  -- ASSERT is compiled out, so that the guard returns its status.
  unfoldable pub enable_interrupt_source : ℕ → V → Status × V
  enable_interrupt_source source v =
      if ltb nr_irqs source
      then (unsupported, v)
      else (success, vic.write v (by_source source vic_int_enset0 vic_int_enset1) (irq_bit source))

  unfoldable pub disable_interrupt_source : ℕ → V → Status × V
  disable_interrupt_source source v = if ltb nr_irqs source then (unsupported, v) else (
    success,
    vic.write v (by_source source vic_int_enclear0 vic_int_enclear1) (irq_bit source),
  )

  abbrev pub is_null : Option ℕ → Bool
  is_null none = true
  is_null (some h) = false

  -- With Source = NR_IRQS the access is one past the table: the model reads NULL and writes
  -- nothing there.
  unfoldable pub register_interrupt_source : ℕ → Option ℕ → Irqs V → Status × Irqs V
  register_interrupt_source source handler s =
      let old = get_or s.handlers source none in
      if ltb nr_irqs source
      then (unsupported, s)
      else if is_null handler && is_null old
      then (invalid_parameter, s)
      else if not (is_null handler) && not (is_null old)
      then (already_started, s)
      else let done = enable_interrupt_source source s.hw in
        (done.0, record { handlers = set s.handlers source handler; hw = done.1 })

  -- The result beside the status is *InterruptState, if it is written.
  unfoldable pub get_interrupt_source_state : ℕ → V → Status × Option Bool
  get_interrupt_source_state source v =
      if ltb nr_irqs source
      then (unsupported, none)
      else if bit_and (vic.read v (by_source source vic_int_enclear0 vic_int_enclear1))
            (irq_bit source)
          == irq_bit source
      then (success, some false)
      else (success, some true)

  unfoldable pub end_of_interrupt : ℕ → V → Status × V
  end_of_interrupt source v =
      if ltb nr_irqs source then (unsupported, v) else (success, vic.write v vic_irq_vec_wr 0)

  -- `for (Index = 0; Index < n; Index++) DisableInterruptSource(NULL, Index)`.
  abbrev pub disable_below : ℕ → V → V
  disable_below zero v = v
  disable_below (suc n) v = (disable_interrupt_source n (disable_below n v)).1

  unfoldable pub exit_boot_services_event : V → V
  exit_boot_services_event v = deinit_interupts (disable_below nr_irqs v)

  -- `handle h vector` is the effect of the registered handler h.
  module _ (handle : ℕ → ℕ → Irqs V → Irqs V) where
    abbrev pub call_handler : Option ℕ → ℕ → Irqs V → Irqs V
    call_handler none vector s = s
    call_handler (some h) vector s = handle h vector s

    unfoldable pub irq_interrupt_handler : Irqs V → Irqs V
    irq_interrupt_handler s =
        let vector = vic.read s.hw vic_irq_vec_rd in
        let s1 = record s {
          hw = vic.write s.hw (by_source vector vic_int_clear0 vic_int_clear1) (irq_bit vector);
        } in
        let s2 = call_handler (get_or s.handlers vector none) vector s1 in
        record s2 { hw = vic.write s2.hw vic_irq_vec_wr 0 }
