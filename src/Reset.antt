-- ===== src/Reset.antt =====
-- HtcLeoPkg/Library/HtcLeoPlatformResetLib/HtcLeoPlatformResetLib.c: restarts and shut-down by the
-- modem. The reason of a restart is left in two words of memory for the boot loader.
pub mod Restart
use Prim.Native.Nat.{bit_xor}
use lgoptimus_l3pkg.Common.{ℕ, ◌+◌, Option, none, some}
use lgoptimus_l3pkg.Common.Io.{Io}
use lgoptimus_l3pkg.Pcom.{Modem, Reply, msm_proc_comm}

abbrev pub lk_bootreason_addr : ℕ
lk_bootreason_addr = 0x2FFB0000

abbrev pub mark_lk_tag : ℕ
mark_lk_tag = 0x004B4C63

-- Include/Library/BootReason.h.
abbrev pub andrboot_mode : ℕ
andrboot_mode = 0x77665501

-- Commands of Include/Library/pcom.h.
abbrev pub pcom_reset_chip : ℕ
pcom_reset_chip = 3

abbrev pub pcom_power_down : ℕ
pcom_power_down = 10

-- EFI_RESET_TYPE, with any other number.
pub data ResetType : Type 0 where
  cold warm shutdown platform_specific : ResetType
  other : ℕ → ResetType

-- How a reset goes: it reaches its endless loop, it returns EFI_INVALID_PARAMETER, or it still waits
-- for the modem when the fuel is spent.
pub data Outcome (V : Type 0) : Type 0 where
  halts : V → Outcome V
  refused : V → Outcome V
  waits : Outcome V

module _ {V : Type 0} (modem : Modem V) (io : Io V) (fuel : ℕ) where
  abbrev pub halt_after : Option (Reply V) → Outcome V
  halt_after none = waits
  halt_after (some (ok, word1, word2, v)) = halts v

  unfoldable pub reboot : ℕ → V → Outcome V
  reboot reason v = halt_after (msm_proc_comm modem fuel pcom_reset_chip (some reason) none v)

  -- The two words before a restart.
  abbrev pub mark : ℕ → V → V
  mark reason v =
      let v1 = (io.writel reason lk_bootreason_addr v).1 in
      (io.writel (bit_xor reason mark_lk_tag) (lk_bootreason_addr + 4) v1).1

  unfoldable pub htcleo_reboot : ℕ → V → Outcome V
  htcleo_reboot reason v = reboot reason (mark reason v)

  unfoldable pub htcleo_shutdown : V → Outcome V
  htcleo_shutdown v = halt_after (msm_proc_comm modem fuel pcom_power_down none none v)

  unfoldable pub reset_cold : V → Outcome V
  reset_cold v = htcleo_reboot andrboot_mode v

  unfoldable pub reset_warm : V → Outcome V
  reset_warm v = reset_cold v

  unfoldable pub reset_shutdown : V → Outcome V
  reset_shutdown v = htcleo_shutdown v

  unfoldable pub reset_platform_specific : V → Outcome V
  reset_platform_specific v = htcleo_reboot andrboot_mode v

  -- What follows a reset that returns is EFI_DEVICE_ERROR; none of them returns.
  unfoldable pub lib_reset_system : ResetType → V → Outcome V
  lib_reset_system cold v = reset_cold v
  lib_reset_system warm v = reset_warm v
  lib_reset_system shutdown v = reset_shutdown v
  lib_reset_system platform_specific v = reset_platform_specific v
  lib_reset_system (other n) v = refused v
