-- ===== src/Pcom/Call.antt =====
-- Commands of HtcLeoPkg/Library/MsmPcomLib/pcom.c against a modem that answers them.
use lgoptimus_l3pkg.Common.{
  ℕ, zero, suc, ◌<◌, ◌≤◌, ◌≡◌, refl, ap, ◌∙◌, inl, inr, true, false, not, Option, none, some, arith,
  ◌==◌, if◌then◌else◌, Bool-cases,
}
use lgoptimus_l3pkg.Pcom.{
  app_command, app_status, app_data1, app_data2, mdm_status, pcom_cmd_idle, pcom_cmd_done,
  pcom_ready, pcom_cmd_fail, pcom_clkctl_rpc_rate, Modem, value_or_0, overwrite, Reply,
  pcom_wait_for, send, receive, msm_proc_comm, rate_of, pcom_clock_get_rate,
}

-- The modem's answer to a command and its two words: a status and two words.
pub record Answer : Type 0 where
  pub status : ℕ
  pub word1 : ℕ
  pub word2 : ℕ

module _ {V : Type 0} (modem : Modem V) where
  abbrev pub delays : ℕ → V → V
  delays zero v = v
  delays (suc n) v = delays n (modem.delay v)

  pcom_wait_for_lem :
      (n fuel addr value : ℕ) (v : V)
      → n < fuel
      → modem.readl (delays n v) addr ≡ value
      → (m : ℕ) × (pcom_wait_for modem fuel addr value v ≡ some (delays m v))
        × (modem.readl (delays m v) addr ≡ value)
  unfolding pcom_wait_for
  pcom_wait_for_lem n zero addr value v h e = absurd (omega arith)
  pcom_wait_for_lem zero (suc fuel) addr value v h e =
      let now : (modem.readl v addr == value) ≡ true = ground (arith, e) in (0, rw now refl, e)
  pcom_wait_for_lem (suc n) (suc fuel) addr value v h e =
      elim (Bool-cases (modem.readl v addr == value)) [
        | inl now ↦ (0, rw now refl, ground (arith, now))
        | inr later ↦
            let (m, ends, r) =
              pcom_wait_for_lem n fuel addr value (modem.delay v) (omega arith) e in
            (suc m, rw later ends, r)
      ]

  -- What the modem is taken to do: it gets ready, and once it is, it answers every command that it
  -- is sent, within `limit` delays, and leaves the answer in memory as long as the command is done.
  pub record IsServer (limit : ℕ) (answer : ℕ → ℕ → ℕ → Answer) : Type 0 where
    pub gets_ready :
        (v : V) → (n : ℕ) × (n < limit) × (modem.readl (delays n v) mdm_status ≡ pcom_ready)
    pub gets_done :
        (v : V) (cmd : ℕ) (data1 data2 : Option ℕ)
        → modem.readl v mdm_status ≡ pcom_ready
        → (n : ℕ) × (n < limit)
          × (modem.readl (delays n (send modem cmd data1 data2 v)) app_command ≡ pcom_cmd_done)
    pub answers :
        (v : V) (cmd : ℕ) (data1 data2 : Option ℕ) (m : ℕ)
        → modem.readl v mdm_status ≡ pcom_ready
        → let w = delays m (send modem cmd data1 data2 v) in
          let a = answer cmd (value_or_0 data1) (value_or_0 data2) in
          modem.readl w app_command ≡ pcom_cmd_done
          → (modem.readl w app_status ≡ a.status)
            × (modem.readl w app_data1 ≡ a.word1)
            × (modem.readl w app_data2 ≡ a.word2)

  -- The reply to a command: a call fails exactly with the status PCOM_CMD_FAIL, and then leaves the
  -- caller's words.
  abbrev pub reply : Answer → Option ℕ → Option ℕ → V → Reply V
  reply a data1 data2 v =
      if not (a.status == pcom_cmd_fail)
      then (true, overwrite data1 a.word1, overwrite data2 a.word2, v)
      else (false, data1, data2, v)

  receive_lem :
      (a : Answer) (data1 data2 : Option ℕ) (w : V)
      → modem.readl w app_status ≡ a.status
      → modem.readl w app_data1 ≡ a.word1
      → modem.readl w app_data2 ≡ a.word2
      → receive modem data1 data2 w ≡ reply a data1 data2 (modem.writel w app_command pcom_cmd_idle)
  receive_lem a data1 data2 w s d e = rw (s, d, e) refl

  module _ (limit fuel : ℕ) (answer : ℕ → ℕ → ℕ → Answer) (server : IsServer limit answer)
      (enough : limit ≤ fuel) where
    -- With a modem that answers within the fuel, msm_proc_comm waits, sends its command, waits, ends
    -- with the reply, and makes the command word idle.
    pub msm_proc_comm-sends :
        (cmd : ℕ) (data1 data2 : Option ℕ) (v : V)
        → (n m : ℕ) × (msm_proc_comm modem fuel cmd data1 data2 v
            ≡ some (
                reply (answer cmd (value_or_0 data1) (value_or_0 data2)) data1 data2 (
                  modem.writel
                    (delays m (send modem cmd data1 data2 (delays n v)))
                    app_command
                    pcom_cmd_idle)))
    unfolding msm_proc_comm
    msm_proc_comm-sends cmd data1 data2 v =
        let (n, few, r) = server.gets_ready v in
        let (m, waited, ready) =
          pcom_wait_for_lem n fuel mdm_status pcom_ready v (omega (arith, few, enough)) r in
        let v1 = delays m v in
        let (n', few', d) = server.gets_done v1 cmd data1 data2 ready in
        let sent = send modem cmd data1 data2 v1 in
        let (m', waited', done) =
          pcom_wait_for_lem n' fuel app_command pcom_cmd_done sent (omega (arith, few', enough))
            d in
        let (s, d1, d2) = server.answers v1 cmd data1 data2 m' ready done in
        (
          m,
          m',
          rw (waited, waited')
              (ap some (
                receive_lem (answer cmd (value_or_0 data1) (value_or_0 data2)) data1 data2
                  (delays m' sent) s d1 d2)),
        )

    -- With a modem that answers within the fuel, msm_proc_comm ends with the reply to its command,
    -- and its last write makes the command word idle.
    pub msm_proc_comm_lem :
        (cmd : ℕ) (data1 data2 : Option ℕ) (v : V)
        → (w : V) × (msm_proc_comm modem fuel cmd data1 data2 v
            ≡ some (
                reply
                  (answer cmd (value_or_0 data1) (value_or_0 data2))
                  data1
                  data2
                  (modem.writel w app_command pcom_cmd_idle)))
    msm_proc_comm_lem cmd data1 data2 v =
        let (n, m, called) = msm_proc_comm-sends cmd data1 data2 v in
        (delays m (send modem cmd data1 data2 (delays n v)), called)

    -- pcom_clock_get_rate ends with the first word of the answer, or with -1 exactly if the status
    -- is PCOM_CMD_FAIL.
    pub pcom_clock_get_rate_lem :
        (id : ℕ) (v : V)
        → let a = answer pcom_clkctl_rpc_rate id 0 in
          (v' : V) × (pcom_clock_get_rate modem fuel id v
            ≡ some (if not (a.status == pcom_cmd_fail) then some a.word1 else none, v'))
    unfolding pcom_clock_get_rate
    pcom_clock_get_rate_lem id v =
        let a : Answer = answer pcom_clkctl_rpc_rate id 0 in
        let (w, called) = msm_proc_comm_lem pcom_clkctl_rpc_rate (some id) none v in
        (
          modem.writel w app_command pcom_cmd_idle,
          ap (rate_of modem) called ∙ elim (Bool-cases (not (a.status == pcom_cmd_fail))) [
            | inl e ↦ rw e refl
            | inr e ↦ rw e refl
          ],
        )
