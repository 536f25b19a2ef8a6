-- ===== src/SdCard/Start.antt =====
-- The start of the driver of HtcLeoPkg/GPLDrivers/SdCardDxe/SdCardDxe.c: controller, card, and the
-- search for a boot record. Clocks and pins are set by the modem's clients. The values of two
-- registers that SDCn_init saves are read nowhere and left out.
pub mod Mbr
use Prim.Native.Nat.{bit_and, bit_or, min}
use lgoptimus_l3pkg.Common.{
  ℕ, zero, suc, ◌+◌, ◌*◌, ◌/◌, ◌%◌, ◌^◌, Bool, true, false, not, ◌&&◌, Option, none, some, ◌==◌,
  if◌then◌else◌,
}
use lgoptimus_l3pkg.Common.Words.{complement}
use lgoptimus_l3pkg.Common.Io.{Action, Io}
use lgoptimus_l3pkg.GptTimer.{Gpt, micro_second_delay}
use lgoptimus_l3pkg.Gpio.{gpio_get}
use lgoptimus_l3pkg.Pcom.{Modem}
use lgoptimus_l3pkg.Pcom.Clients.{pcom_set_sdcard_clk, pcom_sdcard_gpio_config}
use lgoptimus_l3pkg.SdCard.{
  Card, Outcome, ok, failed, stuck, Run, pure, ◌>>=◌, ◌>>◌, has, read, write, delay, finished,
  mci_clear, card_set_block_size,
}
use lgoptimus_l3pkg.SdCard.Setup.{
  card_identification_selection, card_transfer_init, read_sd_status, switch_mode, mmc_decode_csd,
}
use lgoptimus_l3pkg.SdCard.Block.{attempt, mmc_bread}

abbrev pub mci_power : ℕ
mci_power = 0xA0400000

abbrev pub mci_clk : ℕ
mci_clk = 0xA0400004

abbrev pub mci_int_mask0 : ℕ
mci_int_mask0 = 0xA040003C

abbrev pub glbl_clk_ena : ℕ
glbl_clk_ena = 0xA8600000

abbrev pub adm_reg_ch8_rslt_conf : ℕ
adm_reg_ch8_rslt_conf = 0xA9700F20

abbrev pub gpio_sd_status : ℕ
gpio_sd_status = 153

-- How SdCardInitialize ends: with the block protocol, with EFI_DEVICE_ERROR, or in CpuDeadLoop.
pub data Start : Type 0 where
  published no_card dead_loop : Start

-- The bytes 510 and 511 of the block in the buffer.
abbrev pub is_mbr : (ℕ → ℕ) → Bool
is_mbr buffer = (buffer 508 / 2 ^ 16 % 256 == 0x55) && (buffer 508 / 2 ^ 24 % 256 == 0xAA)

module _ {V : Type 0} (io : Io V) (gpt : Gpt) (modem : Modem V) where
  abbrev pub ended : Card V → Option V → Outcome Unit × Card V
  ended c none = (stuck, c)
  ended c (some v) = (ok tt, record c { hw = v })

  abbrev pub sd_mclk_set : ℕ → ℕ → Run V Unit
  sd_mclk_set fuel speed c = ended c (pcom_set_sdcard_clk modem fuel 2 speed c.hw)

  abbrev pub config_gpios : ℕ → Run V Unit
  config_gpios fuel c = ended c (pcom_sdcard_gpio_config modem fuel 2 c.hw)

  abbrev pub wait_micro : ℕ → ℕ → Run V Unit
  wait_micro fuel us c = finished io gpt c (micro_second_delay io gpt fuel us c.hw) tt

  -- SDCn_init of the instance 2.
  unfoldable pub sdcn_init : ℕ → Run V Unit
  sdcn_init fuel = do
    initial ← read io gpt glbl_clk_ena
    if has initial 0x100
        then pure tt
        else (do ena ← read io gpt glbl_clk_ena; write io gpt glbl_clk_ena (bit_or ena 0x100))
    sd_mclk_set fuel 400000
    read io gpt adm_reg_ch8_rslt_conf
    config_gpios fuel
    write io gpt mci_clear 0x07FFFFFF
    write io gpt mci_int_mask0 0
    write io gpt (mci_int_mask0 + 4) 0
    write io gpt mci_power 3
    write io gpt mci_clk 0x100
    wait_micro fuel 1000

  -- The faster clock after switch_mode.
  abbrev pub high_speed : ℕ → Run V Unit
  high_speed fuel = do
    delay io gpt fuel 1000
    sd_mclk_set fuel 48000000
    temp ← read io gpt mci_clk
    write io gpt mci_clk (bit_or (bit_and temp (complement 0xC000)) 0x8000)
    delay io gpt fuel 1000

  unfoldable pub sd_card_init : ℕ → Run V Unit
  sd_card_init fuel = do
    sdcn_init fuel
    identified ← card_identification_selection io gpt fuel
    clk ← read io gpt mci_clk
    write io gpt mci_clk (bit_or clk 0x1200)
    registers ← card_transfer_init io gpt fuel identified.1
    temp ← read io gpt mci_clk
    write io gpt mci_clk (bit_or (bit_and temp (complement 0xC00)) 0x800)
    read_sd_status io gpt fuel identified.1
    sd_mclk_set fuel 25000000
    switched ← attempt (switch_mode io gpt fuel)
    if switched then high_speed fuel else pure tt
    card_set_block_size io gpt fuel 512
    (λ c. (ok tt, mmc_decode_csd registers.0 c))

  -- A round of the loop over the blocks: whether block i can be read and is a boot record.
  abbrev pub try_block : ℕ → ℕ → Run V Bool
  try_block fuel i = do
    blk ← mmc_bread io gpt fuel i 1 0
    (λ c. (ok (not (blk == 0) && is_mbr c.buffer), c))

  -- The loop, with n blocks left.
  unfoldable pub find_mbr : ℕ → ℕ → ℕ → Run V Bool
  find_mbr fuel zero i = pure false
  find_mbr fuel (suc n) i = do
    found ← try_block fuel i
    if found then pure true else find_mbr fuel n (suc i)

  abbrev pub lift : {A : Type 0} → Action V A → Run V A
  lift f c = let (a, v) = f c.hw in (ok a, record c { hw = v })

  -- The result of SdCardInit is not used. The dump is zeroed and the protocol is installed.
  unfoldable pub sd_card_initialize : ℕ → Run V Start
  sd_card_initialize fuel = do
    level ← lift (gpio_get io gpio_sd_status)
    if not (level == 0) then pure no_card else (do
      attempt (sd_card_init fuel)
      last ← (λ c. (ok c.last_block, record c { buffer = λ a. 0 }))
      found ← find_mbr fuel (min last 50 + 1) 0
      pure (if found then published else dead_loop))
