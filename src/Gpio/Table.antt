-- ===== src/Gpio/Table.antt =====
-- config_gpio_table of HtcLeoPkg/Library/MsmTargetGpioLib/qcom_qsd8250_gpio.c: a table of pin
-- configurations is passed to the modem.
use lgoptimus_l3pkg.Common.{
  ℕ, ◌≤◌, ◌≡◌, refl, ap, ◌∙◌, inl, inr, Option, none, some, List, [], ◌∷◌, ◌==◌, Bool-cases,
}
use lgoptimus_l3pkg.Pcom.{
  app_command, pcom_cmd_idle, pcom_cmd_fail, pcom_rpc_gpio_tlmm_config_ex, Modem, send,
  msm_proc_comm,
}
use lgoptimus_l3pkg.Pcom.Call.{Answer, delays, IsServer, reply, msm_proc_comm-sends}
use lgoptimus_l3pkg.Pcom.Clients.{done, and_done}

module _ {V : Type 0} (modem : Modem V) (fuel : ℕ) where
  unfoldable pub config_gpio_table : List ℕ → V → Option V
  config_gpio_table [] v = some v
  config_gpio_table (id ∷ table) v =
      and_done modem
        (done modem (msm_proc_comm modem fuel pcom_rpc_gpio_tlmm_config_ex (some id) none v))
        (λ v'. config_gpio_table table v')

  -- Every entry is sent in order, with some waiting before and after, and the command word is idle
  -- after each.
  abbrev pub Sent : List ℕ → V → V → Type 0
  Sent [] v v' = v' ≡ v
  Sent (id ∷ table) v v' =
      (n m : ℕ) × Sent table
        (modem.writel
          (delays modem m
            (send modem pcom_rpc_gpio_tlmm_config_ex (some id) none (delays modem n v)))
          app_command pcom_cmd_idle)
        v'

  done-reply :
      (a : Answer) (word : Option ℕ) (v : V)
      → done modem (some (reply modem a word none v)) ≡ some v
  done-reply a word v = elim (Bool-cases (a.status == pcom_cmd_fail)) [
    | inl e ↦ rw e refl
    | inr e ↦ rw e refl
  ]

  -- With a modem that answers within the fuel, config_gpio_table ends and has sent every entry of its
  -- table in order, also when the modem fails on some.
  pub config_gpio_table_lem :
      (limit : ℕ) (answer : ℕ → ℕ → ℕ → Answer)
      → IsServer modem limit answer
      → limit ≤ fuel
      → (table : List ℕ) (v : V)
      → (v' : V) × (config_gpio_table table v ≡ some v') × Sent table v v'
  unfolding config_gpio_table
  config_gpio_table_lem limit answer server enough [] v = (v, refl, refl)
  config_gpio_table_lem limit answer server enough (id ∷ table) v =
      let cmd = pcom_rpc_gpio_tlmm_config_ex in
      let (n, m, called) =
        msm_proc_comm-sends modem limit fuel answer server enough cmd (some id) none v in
      let v1 =
        modem.writel (delays modem m (send modem cmd (some id) none (delays modem n v))) app_command
          pcom_cmd_idle in
      let (v', ends, sent) = config_gpio_table_lem limit answer server enough table v1 in
      (
        v',
        ap (λ r. and_done modem r (λ w. config_gpio_table table w))
              (ap (done modem) called ∙ done-reply (answer cmd id 0) (some id) v1)
            ∙ ends,
        (n, m, sent),
      )
