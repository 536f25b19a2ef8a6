-- ===== src/VirtualClock/Elapsed.antt =====
-- The times that HtcLeoPkg/Library/VirtualRealTimeClockLib/VirtualRealTimeClockLib.c reports.
use lgoptimus_l3pkg.Common.{
  ℕ, ◌+◌, ◌*◌, ◌/◌, ◌%◌, ◌^◌, ◌≤◌, ◌<◌, ◌≡◌, refl, false, Option, some, arith, ◌==◌,
}
use lgoptimus_l3pkg.Common.Io.{Io}
use lgoptimus_l3pkg.Keypad.Key.{success}
use lgoptimus_l3pkg.GptTimer.{Gpt, get_performance_counter, get_performance_counter_properties}
use lgoptimus_l3pkg.VirtualClock.{
  Time, Capabilities, pcd_timer_freq_in_hz, time_of, set_capabilities, lib_get_time,
}

abbrev pub seconds_of : Time → ℕ
seconds_of t = t.day * 86400 + t.hour * 3600 + t.minute * 60 + t.second

time_of_lem :
    (base : Time) (elapsed : ℕ)
    → let t = time_of base elapsed in
      (t.hour < 24)
      × (t.minute < 60)
      × (t.second < 60)
      × (t.year ≡ base.year)
      × (t.month ≡ base.month)
      × (seconds_of t ≡ elapsed % (256 * 86400))
unfolding time_of
time_of_lem base elapsed = (omega arith, omega arith, omega arith, refl, refl, omega arith)

module _ {V : Type 0} (io : Io V) (gpt : Gpt) where
  -- With a frequency, LibGetTime fills in the time: hour, minute and second are in range, year and month
  -- are those of the base time, and the fields add up to the counter divided by the frequency, rounded
  -- down, modulo 256 days.
  pub lib_get_time_lem :
      (freq : ℕ) (base time : Time) (capabilities : Option Capabilities) (v : V)
      → 0 < freq
      → let count = (get_performance_counter io gpt v).0 in
        (t : Time) × ((lib_get_time io gpt freq base (some time) capabilities v).0
          ≡ (success, some t, set_capabilities freq capabilities))
        × (t.hour < 24)
        × (t.minute < 60)
        × (t.second < 60)
        × (t.year ≡ base.year)
        × (t.month ≡ base.month)
        × (seconds_of t ≡ count / freq % (256 * 86400))
  unfolding lib_get_time
  lib_get_time_lem freq base time capabilities v h =
      let some_freq : (freq == 0) ≡ false = ground arith in
      let elapsed = (get_performance_counter io gpt v).0 / freq in
      let (hours, minutes, seconds, year, month, sum) = time_of_lem base elapsed in
      (time_of base elapsed, rw some_freq refl, hours, minutes, seconds, year, month, sum)

  -- With the frequency of the platform and the timer's counter of 32 bits, LibGetTime never reports
  -- an hour, the day is always 0, and the seconds that it shows are at most one of 146 that have passed
  -- by the frequency that the timer library gives for the same counter.
  pub lib_get_time_stays :
      (base time : Time) (capabilities : Option Capabilities) (v : V)
      → (get_performance_counter io gpt v).0 < 2 ^ 32
      → (t : Time) × ((lib_get_time io gpt pcd_timer_freq_in_hz base (some time) capabilities v).0
          ≡ (success, some t, set_capabilities pcd_timer_freq_in_hz capabilities))
        × (t.day ≡ 0)
        × (t.hour ≡ 0)
        × (t.minute < 15)
        × (146 * seconds_of t * get_performance_counter_properties.2
            ≤ (get_performance_counter io gpt v).0)
  unfolding lib_get_time time_of get_performance_counter_properties
  lib_get_time_stays base time capabilities v h =
      let elapsed = (get_performance_counter io gpt v).0 / 4800000 in
      (time_of base elapsed, refl, omega arith, omega arith, omega arith, omega arith)
