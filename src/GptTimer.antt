-- ===== src/GptTimer.antt =====
-- HtcLeoPkg/Library/GPTTimerLib/GPTTimerLib.c: delays and times on a 32-bit counter of 32 kHz, whose
-- registers are a parameter. A loop that polls is a recursion on fuel.
pub mod Delay
use lgoptimus_l3pkg.Common.{
  ℕ, zero, suc, ◌+◌, ◌-◌, ◌*◌, ◌/◌, ◌%◌, ◌^◌, Bool, true, false, not, ◌&&◌, Option, none, some, ltb,
  leb, ◌==◌, if◌then◌else◌,
}
use lgoptimus_l3pkg.Common.Io.{Io}

-- The registers' addresses, which the platform description gives.
pub record Gpt : Type 0 where
  pub count_val : ℕ
  pub enable : ℕ
  pub clear : ℕ

-- MicroSeconds * 33 + 1000 - 33 fits in 64 bits, as UINTN has 32.
abbrev pub ticks_of : ℕ → ℕ
ticks_of micro_seconds = (micro_seconds * 33 + 1000 - 33) / 1000

module _ {V : Type 0} (io : Io V) (gpt : Gpt) where
  -- `while (go (Count)) Count = MmioRead32 (GPT_COUNT_VAL);`.
  unfoldable pub poll : (ℕ → Bool) → ℕ → ℕ → V → Option (ℕ × V)
  poll go zero count v = none
  poll go (suc fuel) count v =
      let (count', v') = io.readl gpt.count_val v in
      let rest = poll go fuel count' v' in if go count then rest else some (count, v)

  abbrev pub and_poll : (ℕ → Bool) → ℕ → Option (ℕ × V) → Option (ℕ × V)
  and_poll go fuel none = none
  and_poll go fuel (some (count, v)) = poll go fuel count v

  abbrev pub finish : {A : Type 0} → (V → A × V) → Option (ℕ × V) → Option (A × V)
  finish f none = none
  finish f (some (count, v)) = some (f v)

  unfoldable pub timer_early_init : ℕ → V → Option (Unit {0} × V)
  timer_early_init fuel v =
      let v1 = (io.writel 0 gpt.clear v).1 in
      let v2 = (io.writel 0 gpt.enable v1).1 in
      let (count, v3) = io.readl gpt.count_val v2 in
      finish (io.writel 1 gpt.enable) (poll (λ c. not (c == 0)) fuel count v3)

  unfoldable pub micro_second_delay : ℕ → ℕ → V → Option (ℕ × V)
  micro_second_delay fuel micro_seconds v =
      let (init, v1) = io.readl gpt.count_val v in
      let timeout = (init + ticks_of micro_seconds) % 2 ^ 32 in
      finish (λ v'. (micro_seconds, v'))
        (and_poll (λ c. ltb c timeout) fuel (poll (λ c. ltb timeout c && leb init c) fuel init v1))

  unfoldable pub nano_second_delay : ℕ → ℕ → V → Option (ℕ × V)
  nano_second_delay fuel nano_seconds v =
      let micro_seconds = nano_seconds / 1000 + (if nano_seconds % 1000 == 0 then 0 else 1) in
      elim (micro_second_delay fuel micro_seconds v) [
        | none ↦ none
        | some (us, v') ↦ some (nano_seconds, v')
      ]

  unfoldable pub get_performance_counter : V → ℕ × V
  get_performance_counter v = io.readl gpt.count_val v

-- The start, the end and the frequency.
unfoldable pub get_performance_counter_properties : ℕ × ℕ × ℕ
get_performance_counter_properties = (0, 0xffffffff, 32765)

-- 64-bit products and sums.
unfoldable pub get_time_in_nano_second : ℕ → ℕ
unfolding get_performance_counter_properties
get_time_in_nano_second ticks =
    let frequency = get_performance_counter_properties.2 in
    let seconds = ticks / frequency * 1000000000 % 2 ^ 64 in
    let remainder = ticks % frequency * 1000000000 % 2 ^ 64 in
    (seconds + remainder / frequency) % 2 ^ 64
