-- ===== src/Clock/Serve.antt =====
-- The clock requests of HtcLeoPkg/GPLDrivers/ClockDxe/ClockDxe.c, against a modem that answers.
use lgoptimus_l3pkg.Clock.Speed.{ranked_speed}
use lgoptimus_l3pkg.Common.{
  Bool, ℕ, zero, suc, ◌≤◌, ◌<◌, ◌≡◌, refl, ap, ◌∙◌, inl, inr, false, not, Option, none, some, List,
  [], ◌∷◌, arith, ◌==◌, if◌then◌else◌, Bool-cases, length, get_or, set, get_or-set_self, ◌≢◌,
}
use lgoptimus_l3pkg.Pcom.{Modem, value_or_0, overwrite, pcom_cmd_idle, pcom_cmd_fail, app_command}
use lgoptimus_l3pkg.Pcom.Call.{Answer, IsServer, msm_proc_comm_lem}
use lgoptimus_l3pkg.Clock.{
  minus_one, Choice, speed, result, Clocks, number_of, stored, clk_command, returning, clk_set_rate,
  clk_get_rate, clk_enable, clk_disable, clk_regime_sec_enable, clk_regime_sec_disable,
  clk_regime_sec_sel_speed, clk_regime_sec_msm_get_clk_freq_khz, sdc4_pclk,
}

-- Writing to an entry what it holds changes nothing, also past the end.
set-get_or : (xs : List ℕ) (i d : ℕ) → set xs i (get_or xs i d) ≡ xs
set-get_or [] i d = refl
set-get_or (x ∷ xs) zero d = refl
set-get_or (x ∷ xs) (suc i) d = ap (λ ys. x ∷ ys) (set-get_or xs i d)

-- What a client asks for.
pub data Request : Type 0 where
  set_rate : ℕ → ℕ → Request
  get_rate enable disable : ℕ → Request

-- The table's own account of the requests: what the answers of a modem make of the numbers. It tells
-- which command a request sends, with which second word, and what the caller gets.
module _ (answer : ℕ → ℕ → ℕ → Answer) where
  -- A command on the clock: an answer other than a failure puts its first word in the table, and its
  -- second word in place of the one that was sent.
  abbrev pub asked : ℕ → ℕ → ℕ → List ℕ → ℕ × List ℕ
  asked cmd id word table =
      let a = answer cmd (get_or table id minus_one) word in
      if not (a.status == pcom_cmd_fail) then (a.word2, set table id a.word1) else (word, table)

  abbrev pub sped : ℕ → Choice → List ℕ → ℕ × List ℕ
  sped id (speed s) table = (0, (asked clk_regime_sec_sel_speed id s table).1)
  sped id (result r) table = (r, table)

  abbrev pub has_number : List ℕ → ℕ → Bool
  has_number table id = not (get_or table id minus_one == minus_one)

  unfoldable pub respond : Request → List ℕ → ℕ × List ℕ
  respond (set_rate id freq) table = sped id (ranked_speed id freq) table
  respond (get_rate id) table =
      if has_number table id
      then asked clk_regime_sec_msm_get_clk_freq_khz id 0 table
      else (if id == sdc4_pclk then 64000000 else minus_one, table)
  respond (enable id) table =
      let table' =
        if has_number table id then (asked clk_regime_sec_enable id 0 table).1 else table in
      (get_or table' id minus_one, table')
  respond (disable id) table =
      (0, if has_number table id then (asked clk_regime_sec_disable id 0 table).1 else table)

  unfoldable pub respond_all : List Request → List ℕ → List ℕ × List ℕ
  respond_all [] table = ([], table)
  respond_all (q ∷ qs) table =
      let (r, table') = respond q table in
      let (rs, table'') = respond_all qs table' in (r ∷ rs, table'')

module _ {V : Type 0} (modem : Modem V) where
  abbrev pub serve : ℕ → Request → Clocks V → Option (ℕ × Clocks V)
  serve fuel (set_rate id freq) c = clk_set_rate modem fuel id freq c
  serve fuel (get_rate id) c = clk_get_rate modem fuel id c
  serve fuel (enable id) c = clk_enable modem fuel id c
  serve fuel (disable id) c = clk_disable modem fuel id c

  abbrev pub push_result : ℕ → Option (List ℕ × Clocks V) → Option (List ℕ × Clocks V)
  push_result r none = none
  push_result r (some (rs, c)) = some (r ∷ rs, c)

  abbrev pub and_serve :
      Option (ℕ × Clocks V) → (Clocks V → Option (List ℕ × Clocks V)) → Option (List ℕ × Clocks V)
  and_serve none next = none
  and_serve (some (r, c)) next = push_result r (next c)

  unfoldable pub serve_all : ℕ → List Request → Clocks V → Option (List ℕ × Clocks V)
  serve_all fuel [] c = some ([], c)
  serve_all fuel (q ∷ qs) c = and_serve (serve fuel q c) (λ c'. serve_all fuel qs c')

  module _ (limit fuel : ℕ) (answer : ℕ → ℕ → ℕ → Answer) (server : IsServer modem limit answer)
      (enough : limit ≤ fuel) where
    -- The reply to a command on a clock: its first word replaces the clock's number, if the call
    -- does not fail.
    abbrev pub after : Answer → ℕ → Option ℕ → Clocks V → V → ℕ × Clocks V
    after a id data2 c w =
        if not (a.status == pcom_cmd_fail)
        then (
          value_or_0 (overwrite data2 a.word2),
          record { lookup = set c.lookup id a.word1; hw = w },
        )
        else (value_or_0 data2, record { lookup = c.lookup; hw = w })

    clk_command_lem :
        (cmd id : ℕ) (data2 : Option ℕ) (c : Clocks V)
        → (w : V) × (clk_command modem fuel cmd id data2 c
            ≡ some (after (answer cmd (number_of c id) (value_or_0 data2)) id data2 c w))
    unfolding clk_command
    clk_command_lem cmd id data2 c =
        let a : Answer = answer cmd (number_of c id) (value_or_0 data2) in
        let (w, called) =
          msm_proc_comm_lem modem limit fuel answer server enough cmd (some (number_of c id)) data2
            c.hw in
        (
          modem.writel w app_command pcom_cmd_idle,
          ap (stored modem id c) called ∙ elim (Bool-cases (not (a.status == pcom_cmd_fail))) [
            | inl e ↦ rw e refl
            | inr e ↦ rw (e, set-get_or c.lookup id minus_one) refl
          ],
        )

    abbrev Responds : Option (ℕ × Clocks V) → ℕ × List ℕ → Type 0
    Responds o r = (w : V) × (o ≡ some (r.0, record { lookup = r.1; hw = w }))

    -- ClkEnable of a clock that the modem has: the entry of the table becomes the first word of the
    -- answer, which is returned; if the call fails, the clock's number is returned.
    pub clk_enable_lem :
        (id : ℕ) (c : Clocks V)
        → id < length c.lookup
        → number_of c id ≢ minus_one
        → let a = answer clk_regime_sec_enable (number_of c id) 0 in
          let n = if a.status == pcom_cmd_fail then number_of c id else a.word1 in
          (w : V) × (clk_enable modem fuel id c
            ≡ some (n, record { lookup = set c.lookup id n; hw = w }))
    unfolding clk_enable
    clk_enable_lem id c inside known =
        let a : Answer = answer clk_regime_sec_enable (number_of c id) 0 in
        let named : number_of c id == minus_one ≡ false = ground arith in
        let (w, e) = clk_command_lem clk_regime_sec_enable id none c in
        (
          w,
          rw named (
              ap (returning modem (λ c'. number_of c' id)) e
              ∙ elim (Bool-cases (a.status == pcom_cmd_fail)) [
                | inl f ↦ rw (f, set-get_or c.lookup id minus_one) refl
                | inr f ↦ rw (f, get_or-set_self c.lookup id a.word1 minus_one inside) refl
              ]),
        )
