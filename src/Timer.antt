-- ===== src/Timer.antt =====
-- HtcLeoPkg/Drivers/TimerDxe/Timer.c: the timer interrupt, on the interrupt controller driver
-- (Interrupt). The timer's registers are a parameter. Priority levels make the handler atomic.
pub mod Period
use lgoptimus_l3pkg.Common.{
  ℕ, ◌*◌, ◌/◌, ◌%◌, ◌^◌, Bool, true, false, not, ◌&&◌, Option, none, some, ◌==◌, if◌then◌else◌,
}
use lgoptimus_l3pkg.Common.Io.{Io}
use lgoptimus_l3pkg.Interrupt.{
  Status, success, unsupported, invalid_parameter, already_started, Vic, Irqs, is_null,
  enable_interrupt_source, disable_interrupt_source, register_interrupt_source, end_of_interrupt,
}

-- Registers of Include/Chipset/iomap.h.
abbrev pub dgt_match_val : ℕ
dgt_match_val = 0xAC100010

abbrev pub dgt_enable : ℕ
dgt_enable = 0xAC100018

abbrev pub dgt_clear : ℕ
dgt_clear = 0xAC10001C

abbrev pub dgt_hz : ℕ
dgt_hz = 4800000

abbrev pub int_debug_timer_exp : ℕ
int_debug_timer_exp = 8

-- PcdTimerPeriod.
abbrev pub timer_period : ℕ
timer_period = 10000

-- mTimerNotifyFunction, mTimerPeriod, gVector, and the interrupt driver's table with the machine.
pub record Timer (V : Type 0) : Type 0 where
  pub notify : Option ℕ
  pub period : ℕ
  pub vector : ℕ
  pub irqs : Irqs V

module _ {V : Type 0} (io : Io V) (vic : Vic V) where
  unfoldable pub timer_driver_register_handler : Option ℕ → Timer V → Status × Timer V
  timer_driver_register_handler notify s =
      if is_null vic notify && is_null vic s.notify
      then (invalid_parameter, s)
      else if not (is_null vic notify) && not (is_null vic s.notify)
      then (already_started, s)
      else (success, record s { notify = notify })

  -- MmioWrite32 keeps the lower 32 bits of a value.
  abbrev pub write32 : ℕ → ℕ → V → V
  write32 reg value v = (io.writel (value % 2 ^ 32) reg v).1

  abbrev pub set_timer : ℕ → ℕ → V → Status × V
  set_timer period vector v =
      if period == 0
      then disable_interrupt_source vic vector (write32 dgt_clear 0 (write32 dgt_enable 0 v))
      else let v1 = (disable_interrupt_source vic vector v).1 in
        let timer_count = period / 10000 in
        let v2 = write32 dgt_match_val (timer_count * (dgt_hz / 1000)) v1 in
        let v3 = write32 dgt_enable 3 (write32 dgt_clear 0 v2) in
        enable_interrupt_source vic vector v3

  unfoldable pub timer_driver_set_timer_period : ℕ → Timer V → Status × Timer V
  timer_driver_set_timer_period period s =
      let done = set_timer period s.vector s.irqs.hw in
      (done.0, record s { period = period; irqs = record s.irqs { hw = done.1 } })

  -- The pointer is given or NULL; the result beside the status is *TimerPeriod, if it is written.
  unfoldable pub timer_driver_get_timer_period : Bool → Timer V → Status × Option ℕ
  timer_driver_get_timer_period given s =
      if given then (success, some s.period) else (invalid_parameter, none)

  unfoldable pub timer_driver_generate_soft_interrupt : Timer V → Status
  timer_driver_generate_soft_interrupt s = unsupported

  unfoldable pub exit_boot_services_event : Timer V → Timer V
  exit_boot_services_event s = (timer_driver_set_timer_period 0 s).1

  -- `self` is TimerInterruptHandler. The asserts are compiled out, and the protocol is installed.
  unfoldable pub timer_initialize : ℕ → Timer V → Timer V
  timer_initialize self s =
      let s1 = (timer_driver_set_timer_period 0 (record s { vector = int_debug_timer_exp })).1 in
      let s2 = record s1 {
        irqs = (register_interrupt_source vic s1.vector (some self) s1.irqs).1;
      } in
      (timer_driver_set_timer_period timer_period s2).1

  -- `call notify period` is the effect of the notification function.
  module _ (call : ℕ → ℕ → Timer V → Timer V) where
    abbrev pub call_notify : Option ℕ → Timer V → Timer V
    call_notify none s = s
    call_notify (some f) s = call f s.period s

    unfoldable pub timer_interrupt_handler : ℕ → Timer V → Timer V
    timer_interrupt_handler source s =
        let s1 = call_notify s.notify s in
        record s1 { irqs = record s1.irqs { hw = (end_of_interrupt vic source s1.irqs.hw).1 } }
