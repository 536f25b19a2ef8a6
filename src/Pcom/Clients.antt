-- ===== src/Pcom/Clients.antt =====
-- HtcLeoPkg/Library/MsmPcomClientLib/pcom_clients.c: power, pins and clocks by commands to the modem.
-- A loop that repeats a command is a recursion on the same fuel as the command's waiting loops.
pub mod Sdcard
use Prim.Native.Nat.{bit_and, bit_or}
use lgoptimus_l3pkg.Common.{
  ℕ, zero, suc, ◌-◌, ◌*◌, ◌^◌, Bool, true, false, not, Option, none, some, List, [], ◌∷◌, ◌==◌,
  if◌then◌else◌,
}
use lgoptimus_l3pkg.Pcom.{
  app_status, pcom_vreg_switch, pcom_vreg_set_level_cmd, Modem, value_or_0, Reply, msm_proc_comm,
  pcom_clock_get_rate, pcom_clock_set_rate, pcom_clock_enable, pcom_clock_disable,
  pcom_clock_is_enabled, pcom_set_clock_flags, pcom_gpio_tlmm_config,
}

-- Commands, statuses and numbers of Include/Library/pcom.h.
abbrev pub pcom_cmd_success : ℕ
pcom_cmd_success = 3

abbrev pub pcom_pm_mpp_config : ℕ
pcom_pm_mpp_config = 38

abbrev pub pcom_msm_hsusb_phy_reset : ℕ
pcom_msm_hsusb_phy_reset = 102

abbrev pub pm_vreg_pdown_gp6_id : ℕ
pm_vreg_pdown_gp6_id = 22

abbrev pub pm_mpp_16 : ℕ
pm_mpp_16 = 15

abbrev pub pcom_usb_hs_clk : ℕ
pcom_usb_hs_clk = 36

abbrev pub pcom_mdp_lcdc_pclk_clk : ℕ
pcom_mdp_lcdc_pclk_clk = 42

abbrev pub pcom_mdp_lcdc_pad_pclk_clk : ℕ
pcom_mdp_lcdc_pad_pclk_clk = 43

abbrev pub proc_comm_end_cmds : ℕ
proc_comm_end_cmds = 0xFFFF

-- MSM_GPIO_CFG of Include/Chipset/gpio.h.
unfoldable pub msm_gpio_cfg : ℕ → ℕ → ℕ → ℕ → ℕ → ℕ
msm_gpio_cfg gpio func dir pull drvstr =
    bit_or
      (bit_or
        (bit_or (bit_or (bit_and gpio (2 ^ 10 - 1) * 2 ^ 4) (bit_and func (2 ^ 4 - 1)))
          (bit_and dir (2 ^ 1 - 1) * 2 ^ 14))
        (bit_and pull (2 ^ 2 - 1) * 2 ^ 15))
      (bit_and drvstr (2 ^ 4 - 1) * 2 ^ 17)

-- The switches over the instance: PCOM_SDC1_CLK to PCOM_SDC4_CLK, and their bus clocks.
abbrev pub sdc_clk : ℕ → Option ℕ
sdc_clk instance_number =
    if instance_number == 1
    then some 19
    else if instance_number == 2
    then some 21
    else if instance_number == 3
    then some 23
    else if instance_number == 4
    then some 25
    else none

abbrev pub sdc_pclk : ℕ → Option ℕ
sdc_pclk instance_number =
    if instance_number == 1
    then some 20
    else if instance_number == 2
    then some 22
    else if instance_number == 3
    then some 24
    else if instance_number == 4
    then some 26
    else none

-- Pin, function, pull and drive strength of an instance's pins; the direction is output.
abbrev pub sdc_pins : ℕ → List (ℕ × ℕ × ℕ × ℕ)
sdc_pins instance_number =
    if instance_number == 1
    then (51, 1, 3, 7)
      ∷ (52, 1, 3, 7)
      ∷ (53, 1, 3, 7)
      ∷ (54, 1, 3, 7)
      ∷ (55, 1, 3, 7)
      ∷ (56, 1, 0, 7)
      ∷ []
    else if instance_number == 2
    then (62, 1, 0, 3)
      ∷ (63, 1, 3, 3)
      ∷ (64, 1, 3, 3)
      ∷ (65, 1, 3, 3)
      ∷ (66, 1, 3, 3)
      ∷ (67, 1, 3, 3)
      ∷ []
    else if instance_number == 3
    then (88, 1, 0, 3)
      ∷ (89, 1, 3, 3)
      ∷ (90, 1, 3, 3)
      ∷ (91, 1, 3, 3)
      ∷ (92, 1, 3, 3)
      ∷ (93, 1, 3, 3)
      ∷ (158, 1, 3, 3)
      ∷ (159, 1, 3, 3)
      ∷ (160, 1, 3, 3)
      ∷ (161, 1, 3, 3)
      ∷ []
    else if instance_number == 4
    then (142, 3, 0, 3)
      ∷ (143, 3, 3, 3)
      ∷ (144, 2, 3, 3)
      ∷ (145, 2, 3, 3)
      ∷ (146, 3, 3, 3)
      ∷ (147, 3, 3, 3)
      ∷ []
    else []

module _ {V : Type 0} (modem : Modem V) where
  abbrev pub next : {A : Type 0} → Option (Reply V) → (Reply V → Option A) → Option A
  next none f = none
  next (some r) f = f r

  -- The machine after a call whose result is not used.
  abbrev pub done : Option (Reply V) → Option V
  done none = none
  done (some (ok, word1, word2, v)) = some v

  abbrev pub and_done : Option V → (V → Option V) → Option V
  and_done none f = none
  and_done (some v) f = f v

  -- `do msm_proc_comm(cmd, &a, &b); while (PCOM_CMD_SUCCESS != readl(APP_STATUS));`: the words of an
  -- answer are the words of the next try.
  abbrev pub until_success : ℕ → ℕ → ℕ → ℕ → ℕ → V → Option (ℕ × ℕ × V)
  until_success zero fuel cmd a b v = none
  until_success (suc tries) fuel cmd a b v =
      next (msm_proc_comm modem fuel cmd (some a) (some b) v) (λ (ok, word1, word2, v').
        let rest = until_success tries fuel cmd (value_or_0 word1) (value_or_0 word2) v' in
        if modem.readl v' app_status == pcom_cmd_success
        then some (value_or_0 word1, value_or_0 word2, v')
        else rest)

  abbrev pub then_switch : ℕ → ℕ → Option (ℕ × ℕ × V) → Option (ℕ × ℕ × V)
  then_switch fuel s none = none
  then_switch fuel s (some (vreg, level, v)) = until_success fuel fuel pcom_vreg_switch vreg s v

  unfoldable pub pcom_vreg_control : ℕ → ℕ → ℕ → Bool → V → Option (ℕ × ℕ × V)
  pcom_vreg_control fuel vreg level state v =
      if state
      then then_switch fuel 1 (until_success fuel fuel pcom_vreg_set_level_cmd vreg level v)
      else until_success fuel fuel pcom_vreg_switch vreg 0 v

  unfoldable pub pcom_sdcard_power : ℕ → Bool → V → Option (ℕ × ℕ × V)
  pcom_sdcard_power fuel state v =
      until_success fuel fuel pcom_vreg_switch pm_vreg_pdown_gp6_id (if state then 1 else 0) v

  abbrev pub config_pins : ℕ → List (ℕ × ℕ × ℕ × ℕ) → V → Option V
  config_pins fuel [] v = some v
  config_pins fuel (p ∷ ps) v =
      and_done (done (pcom_gpio_tlmm_config modem fuel (msm_gpio_cfg p.0 p.1 1 p.2 p.3) 0 v))
        (λ v'. config_pins fuel ps v')

  unfoldable pub pcom_sdcard_gpio_config : ℕ → ℕ → V → Option V
  pcom_sdcard_gpio_config fuel instance_number v = config_pins fuel (sdc_pins instance_number) v

  -- LVL_VDD is 4, CTRL_HIGH 1 and CTRL_LOW 0.
  unfoldable pub pcom_usb_vbus_power : ℕ → Bool → V → Option V
  pcom_usb_vbus_power fuel state v =
      let s = bit_or (4 * 2 ^ 16) (if state then 1 else 0) in
      done (msm_proc_comm modem fuel pcom_pm_mpp_config (some pm_mpp_16) (some s) v)

  -- Both branches end the loop.
  unfoldable pub pcom_usb_reset_phy : ℕ → V → Option V
  pcom_usb_reset_phy fuel v = done (msm_proc_comm modem fuel pcom_msm_hsusb_phy_reset none none v)

  unfoldable pub pcom_enable_hsusb_clk : ℕ → V → Option V
  pcom_enable_hsusb_clk fuel v = done (pcom_clock_enable modem fuel pcom_usb_hs_clk v)

  unfoldable pub pcom_disable_hsusb_clk : ℕ → V → Option V
  pcom_disable_hsusb_clk fuel v = done (pcom_clock_disable modem fuel pcom_usb_hs_clk v)

  -- A switch whose case passes a clock on, and which does nothing without a case.
  abbrev pub on_clock : {A : Type 0} → Option ℕ → (ℕ → Option A) → Option A → Option A
  on_clock none f other = other
  on_clock (some id) f other = f id

  unfoldable pub pcom_set_sdcard_clk_flags : ℕ → ℕ → ℕ → V → Option V
  pcom_set_sdcard_clk_flags fuel instance_number flags v =
      on_clock (sdc_clk instance_number) (λ id. done (pcom_set_clock_flags modem fuel id flags v))
        (some v)

  unfoldable pub pcom_set_sdcard_clk : ℕ → ℕ → ℕ → V → Option V
  pcom_set_sdcard_clk fuel instance_number rate v =
      on_clock (sdc_clk instance_number) (λ id. done (pcom_clock_set_rate modem fuel id rate v))
        (some v)

  -- The rate as a word: -1 is 0xffffffff.
  abbrev pub rate_word : Option (Option ℕ × V) → Option (ℕ × V)
  rate_word none = none
  rate_word (some (none, v)) = some (0xffffffff, v)
  rate_word (some (some rate, v)) = some (rate, v)

  unfoldable pub pcom_get_sdcard_clk : ℕ → ℕ → V → Option (ℕ × V)
  pcom_get_sdcard_clk fuel instance_number v =
      on_clock (sdc_clk instance_number) (λ id. rate_word (pcom_clock_get_rate modem fuel id v))
        (some (0, v))

  unfoldable pub pcom_enable_sdcard_clk : ℕ → ℕ → V → Option V
  pcom_enable_sdcard_clk fuel instance_number v =
      on_clock (sdc_clk instance_number) (λ id. done (pcom_clock_enable modem fuel id v)) (some v)

  unfoldable pub pcom_disable_sdcard_clk : ℕ → ℕ → V → Option V
  pcom_disable_sdcard_clk fuel instance_number v =
      on_clock (sdc_clk instance_number) (λ id. done (pcom_clock_disable modem fuel id v)) (some v)

  unfoldable pub pcom_enable_sdcard_pclk : ℕ → ℕ → V → Option V
  pcom_enable_sdcard_pclk fuel instance_number v =
      on_clock (sdc_pclk instance_number) (λ id. done (pcom_clock_enable modem fuel id v)) (some v)

  unfoldable pub pcom_disable_sdcard_pclk : ℕ → ℕ → V → Option V
  pcom_disable_sdcard_pclk fuel instance_number v =
      on_clock (sdc_pclk instance_number) (λ id. done (pcom_clock_disable modem fuel id v)) (some v)

  -- The result of msm_proc_comm as a word: 0, or -1.
  abbrev pub result_word : Option (Reply V) → Option (ℕ × V)
  result_word none = none
  result_word (some (true, word1, word2, v)) = some (0, v)
  result_word (some (false, word1, word2, v)) = some (0xffffffff, v)

  unfoldable pub pcom_is_sdcard_clk_enabled : ℕ → ℕ → V → Option (ℕ × V)
  pcom_is_sdcard_clk_enabled fuel instance_number v =
      on_clock (sdc_clk instance_number) (λ id. result_word (pcom_clock_is_enabled modem fuel id v))
        (some (0, v))

  unfoldable pub pcom_is_sdcard_pclk_enabled : ℕ → ℕ → V → Option (ℕ × V)
  pcom_is_sdcard_pclk_enabled fuel instance_number v =
      on_clock (sdc_pclk instance_number)
        (λ id. result_word (pcom_clock_is_enabled modem fuel id v)) (some (0, v))

  -- MSM_UART1_BASE to MSM_UART3_BASE, and their clocks.
  abbrev pub uart_clk : ℕ → Option ℕ
  uart_clk base =
      if base == 0xA9A00000
      then some 31
      else if base == 0xA9B00000
      then some 32
      else if base == 0xA9C00000
      then some 33
      else none

  unfoldable pub pcom_get_uart_clk : ℕ → ℕ → V → Option (ℕ × V)
  pcom_get_uart_clk fuel base v =
      on_clock (uart_clk base) (λ id. rate_word (pcom_clock_get_rate modem fuel id v)) (some (0, v))

  unfoldable pub pcom_set_lcdc_clk : ℕ → ℕ → V → Option V
  pcom_set_lcdc_clk fuel rate v =
      done (pcom_clock_set_rate modem fuel pcom_mdp_lcdc_pclk_clk rate v)

  unfoldable pub pcom_enable_lcdc_pad_clk : ℕ → V → Option V
  pcom_enable_lcdc_pad_clk fuel v = done (pcom_clock_enable modem fuel pcom_mdp_lcdc_pad_pclk_clk v)

  unfoldable pub pcom_enable_lcdc_clk : ℕ → V → Option V
  pcom_enable_lcdc_clk fuel v = done (pcom_clock_enable modem fuel pcom_mdp_lcdc_pclk_clk v)

  unfoldable pub pcom_get_lcdc_clk : ℕ → V → Option (ℕ × V)
  pcom_get_lcdc_clk fuel v = rate_word (pcom_clock_get_rate modem fuel pcom_mdp_lcdc_pclk_clk v)

  unfoldable pub pcom_end_cmds : ℕ → V → Option V
  pcom_end_cmds fuel v = done (msm_proc_comm modem fuel proc_comm_end_cmds none none v)
