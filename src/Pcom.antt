-- ===== src/Pcom.antt =====
-- HtcLeoPkg/Library/MsmPcomLib/pcom.c: commands to the modem by shared memory. The modem and the
-- memory are a parameter: reads and writes, the interrupt that notifies the modem, and what becomes
-- of them in the 5 ns between two reads of a waiting loop. A loop that waits is a recursion on fuel.
pub mod Call
pub mod Clients
use lgoptimus_l3pkg.Common.{
  ℕ, zero, suc, Bool, true, false, not, Option, none, some, ◌==◌, if◌then◌else◌,
}

-- Offsets in the shared memory.
abbrev pub app_command : ℕ
app_command = 0x00

abbrev pub app_status : ℕ
app_status = 0x04

abbrev pub app_data1 : ℕ
app_data1 = 0x08

abbrev pub app_data2 : ℕ
app_data2 = 0x0C

abbrev pub mdm_status : ℕ
mdm_status = 0x14

abbrev pub pcom_cmd_idle : ℕ
pcom_cmd_idle = 0

abbrev pub pcom_cmd_done : ℕ
pcom_cmd_done = 1

abbrev pub pcom_invalid_status : ℕ
pcom_invalid_status = 0

abbrev pub pcom_ready : ℕ
pcom_ready = 1

abbrev pub pcom_cmd_fail : ℕ
pcom_cmd_fail = 4

-- Commands, by their places in the enumeration of Include/Library/pcom.h.
abbrev pub pcom_clkctl_rpc_enable : ℕ
pcom_clkctl_rpc_enable = 20

abbrev pub pcom_clkctl_rpc_disable : ℕ
pcom_clkctl_rpc_disable = 21

abbrev pub pcom_clkctl_rpc_set_flags : ℕ
pcom_clkctl_rpc_set_flags = 23

abbrev pub pcom_clkctl_rpc_set_rate : ℕ
pcom_clkctl_rpc_set_rate = 24

abbrev pub pcom_clkctl_rpc_rate : ℕ
pcom_clkctl_rpc_rate = 27

abbrev pub pcom_clkctl_rpc_enabled : ℕ
pcom_clkctl_rpc_enabled = 29

abbrev pub pcom_vreg_switch : ℕ
pcom_vreg_switch = 30

abbrev pub pcom_vreg_set_level_cmd : ℕ
pcom_vreg_set_level_cmd = 31

abbrev pub pcom_rpc_gpio_tlmm_config_ex : ℕ
pcom_rpc_gpio_tlmm_config_ex = 37

pub record Modem (V : Type 0) : Type 0 where
  pub readl : V → ℕ → ℕ
  pub writel : V → ℕ → ℕ → V
  pub notify : V → V
  pub delay : V → V

abbrev pub value_or_0 : Option ℕ → ℕ
value_or_0 none = 0
value_or_0 (some n) = n

abbrev pub overwrite : Option ℕ → ℕ → Option ℕ
overwrite none n = none
overwrite (some old) n = some n

-- What msm_proc_comm leaves: whether it returned 0 (else -1), *data1 and *data2, and the machine.
abbrev pub Reply : Type 0 → Type 0
Reply V = Bool × Option ℕ × Option ℕ × V

module _ {V : Type 0} (modem : Modem V) where
  unfoldable pub pcom_wait_for : ℕ → ℕ → ℕ → V → Option V
  pcom_wait_for zero addr value v = none
  pcom_wait_for (suc fuel) addr value v =
      let rest = pcom_wait_for fuel addr value (modem.delay v) in
      if modem.readl v addr == value then some v else rest

  -- The three words of a command, and the interrupt.
  abbrev pub send : ℕ → Option ℕ → Option ℕ → V → V
  send cmd data1 data2 v =
      let v1 = modem.writel v app_command cmd in
      let v2 = modem.writel v1 app_data1 (value_or_0 data1) in
      modem.notify (modem.writel v2 app_data2 (value_or_0 data2))

  abbrev pub receive : Option ℕ → Option ℕ → V → Reply V
  receive data1 data2 v =
      let idle = modem.writel v app_command pcom_cmd_idle in
      if not (modem.readl v app_status == pcom_cmd_fail)
      then (
        true,
        overwrite data1 (modem.readl v app_data1),
        overwrite data2 (modem.readl v app_data2),
        idle,
      )
      else (false, data1, data2, idle)

  abbrev pub and_then {ℓ} : {A : Type ℓ} → Option V → (V → Option A) → Option A
  and_then none next = none
  and_then (some v) next = next v

  unfoldable pub msm_proc_comm : ℕ → ℕ → Option ℕ → Option ℕ → V → Option (Reply V)
  msm_proc_comm fuel cmd data1 data2 v =
      and_then (pcom_wait_for fuel mdm_status pcom_ready v) (λ v1.
        and_then (pcom_wait_for fuel app_command pcom_cmd_done (send cmd data1 data2 v1))
          (λ v2. some (receive data1 data2 v2)))

  unfoldable pub msm_pcom_init : V → V
  msm_pcom_init v =
      modem.writel (modem.writel v app_command pcom_cmd_idle) app_status pcom_invalid_status

  -- pcom_clock_get_rate: the rate, or none for -1.
  abbrev pub rate_of : Option (Reply V) → Option (Option ℕ × V)
  rate_of none = none
  rate_of (some (true, data1, data2, v)) = some (data1, v)
  rate_of (some (false, data1, data2, v)) = some (none, v)

  unfoldable pub pcom_clock_get_rate : ℕ → ℕ → V → Option (Option ℕ × V)
  pcom_clock_get_rate fuel id v = rate_of (msm_proc_comm fuel pcom_clkctl_rpc_rate (some id) none v)

  unfoldable pub pcom_clock_set_rate : ℕ → ℕ → ℕ → V → Option (Reply V)
  pcom_clock_set_rate fuel id rate v =
      msm_proc_comm fuel pcom_clkctl_rpc_set_rate (some id) (some rate) v

  unfoldable pub pcom_clock_enable : ℕ → ℕ → V → Option (Reply V)
  pcom_clock_enable fuel id v = msm_proc_comm fuel pcom_clkctl_rpc_enable (some id) none v

  unfoldable pub pcom_clock_disable : ℕ → ℕ → V → Option (Reply V)
  pcom_clock_disable fuel id v = msm_proc_comm fuel pcom_clkctl_rpc_disable (some id) none v

  unfoldable pub pcom_clock_is_enabled : ℕ → ℕ → V → Option (Reply V)
  pcom_clock_is_enabled fuel id v = msm_proc_comm fuel pcom_clkctl_rpc_enabled (some id) none v

  unfoldable pub pcom_set_clock_flags : ℕ → ℕ → ℕ → V → Option (Reply V)
  pcom_set_clock_flags fuel id flags v =
      msm_proc_comm fuel pcom_clkctl_rpc_set_flags (some id) (some flags) v

  unfoldable pub pcom_vreg_set_level : ℕ → ℕ → ℕ → V → Option (Reply V)
  pcom_vreg_set_level fuel id mv v =
      msm_proc_comm fuel pcom_vreg_set_level_cmd (some id) (some mv) v

  unfoldable pub pcom_vreg_enable : ℕ → ℕ → V → Option (Reply V)
  pcom_vreg_enable fuel id v = msm_proc_comm fuel pcom_vreg_switch (some id) (some 1) v

  unfoldable pub pcom_vreg_disable : ℕ → ℕ → V → Option (Reply V)
  pcom_vreg_disable fuel id v = msm_proc_comm fuel pcom_vreg_switch (some id) (some 0) v

  unfoldable pub pcom_gpio_tlmm_config : ℕ → ℕ → ℕ → V → Option (Reply V)
  pcom_gpio_tlmm_config fuel config disable v =
      msm_proc_comm fuel pcom_rpc_gpio_tlmm_config_ex (some config) (some disable) v
