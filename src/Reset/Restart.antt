-- ===== src/Reset/Restart.antt =====
-- What a reset (HtcLeoPkg/Library/HtcLeoPlatformResetLib/HtcLeoPlatformResetLib.c) asks the modem for.
use lgoptimus_l3pkg.Common.{
  ℕ, ◌≤◌, ◌≡◌, refl, ap, ◌∙◌, inl, inr, Option, none, some, ◌==◌, Bool-cases,
}
use lgoptimus_l3pkg.Common.Io.{Io}
use lgoptimus_l3pkg.Pcom.{
  app_command, pcom_cmd_idle, pcom_cmd_fail, Modem, value_or_0, send, msm_proc_comm,
}
use lgoptimus_l3pkg.Pcom.Call.{Answer, delays, IsServer, reply, msm_proc_comm-sends}
use lgoptimus_l3pkg.Reset.{
  andrboot_mode, pcom_reset_chip, pcom_power_down, ResetType, Outcome, cold, warm, shutdown,
  platform_specific, other, halts, refused, halt_after, mark, reboot, htcleo_reboot,
  htcleo_shutdown, reset_cold, reset_warm, reset_shutdown, reset_platform_specific,
  lib_reset_system,
}

module _ {V : Type 0} (modem : Modem V) (io : Io V) (fuel : ℕ) where
  -- The command and its word are sent to the modem after some waiting, and after the answer, success
  -- or not, the command word is idle and the code stays in its endless loop.
  abbrev pub AsksFor : ℕ → Option ℕ → V → Outcome V → Type 0
  AsksFor cmd word v o =
      (n m : ℕ) × (o
        ≡ halts (
            modem.writel (delays modem m (send modem cmd word none (delays modem n v))) app_command
              pcom_cmd_idle))

  -- A type that is not known only returns a status; the others end in the modem.
  abbrev pub IsReset : ResetType → V → Outcome V → Type 0
  IsReset shutdown v o = AsksFor pcom_power_down none v o
  IsReset (other n) v o = o ≡ refused v
  IsReset cold v o =
      AsksFor pcom_reset_chip (some andrboot_mode) (mark modem io fuel andrboot_mode v) o
  IsReset warm v o =
      AsksFor pcom_reset_chip (some andrboot_mode) (mark modem io fuel andrboot_mode v) o
  IsReset platform_specific v o =
      AsksFor pcom_reset_chip (some andrboot_mode) (mark modem io fuel andrboot_mode v) o

  halt_after-reply :
      (a : Answer) (word : Option ℕ) (v : V)
      → halt_after modem io fuel (some (reply modem a word none v)) ≡ halts v
  halt_after-reply a word v = elim (Bool-cases (a.status == pcom_cmd_fail)) [
    | inl e ↦ rw e refl
    | inr e ↦ rw e refl
  ]

  module _ (limit : ℕ) (answer : ℕ → ℕ → ℕ → Answer) (server : IsServer modem limit answer)
      (enough : limit ≤ fuel) where
    asks :
        (cmd : ℕ) (word : Option ℕ) (v : V)
        → AsksFor cmd word v (halt_after modem io fuel (msm_proc_comm modem fuel cmd word none v))
    asks cmd word v =
        let (n, m, called) =
          msm_proc_comm-sends modem limit fuel answer server enough cmd word none v in
        (
          n,
          m,
          ap (halt_after modem io fuel) called
              ∙ halt_after-reply (answer cmd (value_or_0 word) (value_or_0 none)) word _,
        )

    -- With a modem that answers within the fuel, LibResetSystem leaves the two words of the boot
    -- reason and has the chip reset with the reason, for a cold, warm or platform specific reset,
    -- has the power switched off for a shut-down, and in both cases does not return; for any other
    -- type it returns EFI_INVALID_PARAMETER and does nothing.
    pub lib_reset_system_lem :
        (t : ResetType) (v : V) → IsReset t v (lib_reset_system modem io fuel t v)
    unfolding lib_reset_system reset_cold reset_warm reset_shutdown reset_platform_specific
        htcleo_reboot htcleo_shutdown reboot
    lib_reset_system_lem cold v =
        asks pcom_reset_chip (some andrboot_mode) (mark modem io fuel andrboot_mode v)
    lib_reset_system_lem warm v =
        asks pcom_reset_chip (some andrboot_mode) (mark modem io fuel andrboot_mode v)
    lib_reset_system_lem platform_specific v =
        asks pcom_reset_chip (some andrboot_mode) (mark modem io fuel andrboot_mode v)
    lib_reset_system_lem shutdown v = asks pcom_power_down none v
    lib_reset_system_lem (other n) v = refl
