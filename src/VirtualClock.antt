-- ===== src/VirtualClock.antt =====
-- HtcLeoPkg/Library/VirtualRealTimeClockLib/VirtualRealTimeClockLib.c: the time since the start, from the
-- counter of the timer library. ASSERTs are taken to be off, and a field of EFI_TIME is cut to the 16 or
-- 8 bits that it has.
pub mod Elapsed
use lgoptimus_l3pkg.Common.{
  ℕ, ◌*◌, ◌/◌, ◌%◌, Bool, true, false, Option, none, some, ◌==◌, if◌then◌else◌,
}
use lgoptimus_l3pkg.Common.Io.{Action, pure, Io}
use lgoptimus_l3pkg.Keypad.Key.{Status, success, device_error, invalid_parameter, unsupported}
use lgoptimus_l3pkg.GptTimer.{Gpt, get_performance_counter}

-- EFI_TIME.
pub record Time : Type 0 where
  pub year : ℕ
  pub month : ℕ
  pub day : ℕ
  pub hour : ℕ
  pub minute : ℕ
  pub second : ℕ
  pub nanosecond : ℕ
  pub time_zone : ℕ
  pub daylight : ℕ

-- EFI_TIME_CAPABILITIES.
pub record Capabilities : Type 0 where
  pub resolution : ℕ
  pub accuracy : ℕ
  pub sets_to_zero : Bool

-- PcdTimerFreqInHz of HtcLeoPkg/HtcLeoPkg.dec.
abbrev pub pcd_timer_freq_in_hz : ℕ
pcd_timer_freq_in_hz = 4800000

-- LibRtcInitialize leaves the other fields of BaseTime, which are zero.
unfoldable pub lib_rtc_initialize : Time → Status × Time
lib_rtc_initialize base = (success, record base { year = 2019; month = 1 })

-- The fields for the elapsed seconds.
unfoldable pub time_of : Time → ℕ → Time
time_of base elapsed =
    let in_day = elapsed % 86400 in
    let in_hour = in_day % 3600 in
    record {
      year = base.year;
      month = base.month;
      day = elapsed / 86400 % 256;
      hour = in_day / 3600 % 256;
      minute = in_hour / 60 % 256;
      second = in_hour % 60 % 256;
      nanosecond = 0;
      time_zone = 0;
      daylight = 0;
    }

abbrev pub set_capabilities : ℕ → Option Capabilities → Option Capabilities
set_capabilities freq none = none
set_capabilities freq (some c) =
    some (record { accuracy = 0; resolution = freq; sets_to_zero = false })

module _ {V : Type 0} (io : Io V) (gpt : Gpt) where
  -- Both pointers may be NULL; the result has what they point to.
  unfoldable pub lib_get_time :
      ℕ
      → Time
      → Option Time
      → Option Capabilities
      → Action V (Status × Option Time × Option Capabilities)
  lib_get_time freq base none capabilities v = pure (invalid_parameter, none, capabilities) v
  lib_get_time freq base (some time) capabilities v =
      if freq == 0
      then pure (device_error, some time, capabilities) v
      else let (count, v') = get_performance_counter io gpt v in
        ((success, some (time_of base (count / freq)), set_capabilities freq capabilities), v')

-- LibSetTime, LibGetWakeupTime and LibSetWakeupTime.
unfoldable pub lib_set_time : Time → Status
lib_set_time time = unsupported
