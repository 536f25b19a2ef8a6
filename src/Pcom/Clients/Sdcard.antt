-- ===== src/Pcom/Clients/Sdcard.antt =====
-- What the clients of HtcLeoPkg/Library/MsmPcomClientLib/pcom_clients.c make of the modem's answers,
-- and the pin configurations that they send.
use Prim.Native.Nat.{bit_and}
use lgoptimus_l3pkg.Common.{
  ℕ, ◌+◌, ◌-◌, ◌*◌, ◌/◌, ◌^◌, ◌≤◌, ◌<◌, ◌≡◌, refl, ap, ◌∙◌, inl, inr, none, some, arith, ◌==◌,
  if◌then◌else◌, Bool-cases,
}
use lgoptimus_l3pkg.Common.Words.{bit_and-mask, bit_or-apart, bit_or-above}
use lgoptimus_l3pkg.Pcom.{
  app_command, pcom_cmd_idle, pcom_cmd_fail, pcom_clkctl_rpc_enabled, Modem, pcom_clock_is_enabled,
}
use lgoptimus_l3pkg.Pcom.Call.{Answer, IsServer, msm_proc_comm_lem}
use lgoptimus_l3pkg.Pcom.Clients.{
  msm_gpio_cfg, sdc_clk, on_clock, result_word, pcom_is_sdcard_clk_enabled,
}
use lgoptimus_l3pkg.Gpio.{field}

module _ {V : Type 0} (modem : Modem V) (limit fuel : ℕ) (answer : ℕ → ℕ → ℕ → Answer)
    (server : IsServer modem limit answer) (enough : limit ≤ fuel) where
  -- pcom_is_sdcard_clk_enabled returns 0 if the modem answers, whatever its answer says of the clock,
  -- and -1 if the command fails.
  pub pcom_is_sdcard_clk_enabled_lem :
      (instance_number id : ℕ) (v : V)
      → sdc_clk instance_number ≡ some id
      → let a = answer pcom_clkctl_rpc_enabled id 0 in
        (w : V) × (pcom_is_sdcard_clk_enabled modem fuel instance_number v
          ≡ some (if a.status == pcom_cmd_fail then 0xffffffff else 0, w))
  unfolding pcom_is_sdcard_clk_enabled pcom_clock_is_enabled
  pcom_is_sdcard_clk_enabled_lem instance_number id v e =
      let a : Answer = answer pcom_clkctl_rpc_enabled id 0 in
      let (w, called) =
        msm_proc_comm_lem modem limit fuel answer server enough pcom_clkctl_rpc_enabled (some id)
          none v in
      (
        modem.writel w app_command pcom_cmd_idle,
        ap
              (λ o.
                on_clock modem o (λ id'. result_word modem (pcom_clock_is_enabled modem fuel id' v))
                  (some (0, v)))
              e
            ∙ ap (result_word modem) called
            ∙ elim (Bool-cases (a.status == pcom_cmd_fail)) [
              | inl t ↦ rw t refl
              | inr f ↦ rw f refl
            ],
      )

-- The number that MSM_GPIO_CFG packs.
abbrev packed : ℕ → ℕ → ℕ → ℕ → ℕ → ℕ
packed gpio func dir pull drvstr =
    gpio * 2 ^ 4 + func + dir * 2 ^ 14 + pull * 2 ^ 15 + drvstr * 2 ^ 17

msm_gpio_cfg-packed :
    (gpio func dir pull drvstr : ℕ)
    → gpio < 1024
    → func < 16
    → dir < 2
    → pull < 4
    → drvstr < 16
    → msm_gpio_cfg gpio func dir pull drvstr ≡ packed gpio func dir pull drvstr
unfolding msm_gpio_cfg
msm_gpio_cfg-packed gpio func dir pull drvstr g f d p s =
    let g' : bit_and gpio (2 ^ 10 - 1) ≡ gpio = bit_and-mask 10 gpio ∙ omega arith in
    let f' : bit_and func (2 ^ 4 - 1) ≡ func = bit_and-mask 4 func ∙ omega arith in
    let d' : bit_and dir (2 ^ 1 - 1) ≡ dir = bit_and-mask 1 dir ∙ omega arith in
    let p' : bit_and pull (2 ^ 2 - 1) ≡ pull = bit_and-mask 2 pull ∙ omega arith in
    let s' : bit_and drvstr (2 ^ 4 - 1) ≡ drvstr = bit_and-mask 4 drvstr ∙ omega arith in
    rw (g', f', d', p', s', bit_or-above 4 func gpio f)
      (rw (bit_or-apart 14 (gpio * 2 ^ 4 + func) dir (omega arith)) (
        rw (bit_or-apart 15 (gpio * 2 ^ 4 + func + dir * 2 ^ 14) pull (omega arith)) (
          bit_or-apart 17 (gpio * 2 ^ 4 + func + dir * 2 ^ 14 + pull * 2 ^ 15) drvstr
            (omega arith))))

-- The fields that MSM_GPIO_PIN, _FUNC, _DIR, _PULL and _DRVSTR take from a configuration are those
-- that MSM_GPIO_CFG put there.
pub field-msm_gpio_cfg :
    (gpio func dir pull drvstr : ℕ)
    → gpio < 1024
    → func < 16
    → dir < 2
    → pull < 4
    → drvstr < 16
    → let config = msm_gpio_cfg gpio func dir pull drvstr in
      (field config 4 0x3ff ≡ gpio)
      × (field config 0 0xf ≡ func)
      × (field config 14 0x1 ≡ dir)
      × (field config 15 0x3 ≡ pull)
      × (field config 17 0xf ≡ drvstr)
field-msm_gpio_cfg gpio func dir pull drvstr g f d p s =
    let n = packed gpio func dir pull drvstr in
    rw (msm_gpio_cfg-packed gpio func dir pull drvstr g f d p s) (
      bit_and-mask 10 (n / 2 ^ 4) ∙ omega arith,
      bit_and-mask 4 (n / 2 ^ 0) ∙ omega arith,
      bit_and-mask 1 (n / 2 ^ 14) ∙ omega arith,
      bit_and-mask 2 (n / 2 ^ 15) ∙ omega arith,
      bit_and-mask 4 (n / 2 ^ 17) ∙ omega arith,
    )
