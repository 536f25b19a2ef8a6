-- ===== src/Tests/Ticks.antt =====
-- The counter and the timer, at concrete inputs.
use lgoptimus_l3pkg.Common.{
  ℕ, suc, ◌+◌, ◌*◌, ◌/◌, ◌%◌, ◌^◌, ◌≡◌, refl, not, none, some, arith, ◌==◌, if◌then◌else◌,
}
use lgoptimus_l3pkg.Common.Io.{Io}
use lgoptimus_l3pkg.GptTimer.{Gpt, micro_second_delay, ticks_of}
use lgoptimus_l3pkg.GptTimer.Delay.{IsClock, IsCounter, micro_second_delay_lem}
use lgoptimus_l3pkg.Interrupt.{Vic, success}
use lgoptimus_l3pkg.Interrupt.Enable.{EnableLaws}
use lgoptimus_l3pkg.Timer.{Timer, dgt_enable, dgt_match_val, timer_driver_set_timer_period}
use lgoptimus_l3pkg.Timer.Period.{TimerLaws, set_timer_period_lem}
use lgoptimus_l3pkg.Tests.Irq.{Bits, bits, bits-laws, empty_table, no_sources}

-- A machine that is the number of reads so far, with a tick every three reads.
abbrev counter : Io ℕ
counter = record { readl = λ addr v. (v / 3 % 2 ^ 32, suc v); writel = λ x addr v. (tt, v) }

abbrev gpt : Gpt
gpt = record { count_val = 4; enable = 8; clear = 12 }

thirds-IsClock : IsClock 3 (λ n. n / 3)
thirds-IsClock = record { no_jump = λ n. ground arith; runs = λ n. omega arith }

counter-IsCounter : IsCounter counter gpt (λ n. n / 3) (λ v. v)
counter-IsCounter = record { value = λ v. refl; counts = λ v. refl }

-- The counter wraps during this delay.
micro_second_delay_lem_example :
    (last : ℕ) × (v' : ℕ) × (micro_second_delay counter gpt 400 3000 12884901700 ≡ some (3000, v'))
    × (v' ≡ suc last)
    × (last / 3 ≡ 12884901700 / 3 + ticks_of 3000)
micro_second_delay_lem_example =
    micro_second_delay_lem counter gpt 3 (λ n. n / 3) (λ v. v) thirds-IsClock counter-IsCounter 400
      3000 12884901700 (omega arith) (omega arith)

-- A machine with the controller's sources and the timer's registers.
abbrev Machine : Type 0
Machine = Bits × (ℕ → ℕ)

abbrev regs : Io Machine
regs = record {
  readl = λ addr v. (v.1 addr, v);
  writel = λ x addr v. (tt, (v.0, λ a. if a == addr then x else v.1 a));
}

abbrev controller : Vic Machine
controller = record {
  read = λ v reg. bits.read v.0 reg;
  write = λ v reg x. (bits.write v.0 reg x, v.1);
}

controller-laws : EnableLaws controller (λ v n. v.0 n)
controller-laws = record {
  set0 = λ v. bits-laws.set0 v.0;
  set1 = λ v. bits-laws.set1 v.0;
  clear0 = λ v. bits-laws.clear0 v.0;
  clear1 = λ v. bits-laws.clear1 v.0;
  zero0 = λ v. bits-laws.zero0 v.0;
  zero1 = λ v. bits-laws.zero1 v.0;
  other = λ v. bits-laws.other v.0;
}

regs-laws : TimerLaws regs controller (λ v n. v.0 n) (λ v a. v.1 a)
regs-laws = record {
  own = λ v x addr. ground arith;
  other = λ v x addr reg ne. ground arith;
  quiet = λ v x addr n. refl;
  apart = λ v x addr reg. refl;
}

abbrev still : Timer Machine
still = record {
  notify = none;
  period = 0;
  vector = 8;
  irqs = record { handlers = empty_table.handlers; hw = (no_sources, λ a. 0) };
}

set_timer_period_lem_example :
    let (status, s') = timer_driver_set_timer_period regs controller 25000 still in
    let v = still.irqs.hw in
    let v' = s'.irqs.hw in
    let stop = 25000 == 0 in
    (status ≡ success)
    × (s'.period ≡ 25000)
    × (v'.1 dgt_enable ≡ (if stop then 0 else 3))
    × (v'.1 dgt_match_val ≡ (if stop then v.1 dgt_match_val else 25000 / 10000 * 4800 % 2 ^ 32))
    × (v'.0 8 ≡ (if 8 == 8 then not stop else v.0 8))
set_timer_period_lem_example =
    set_timer_period_lem regs controller (λ v n. v.0 n) (λ v a. v.1 a) controller-laws regs-laws
      25000 8 still (omega arith)
