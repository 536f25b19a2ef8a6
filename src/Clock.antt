-- ===== src/Clock.antt =====
-- HtcLeoPkg/GPLDrivers/ClockDxe/ClockDxe.c: the modem's numbers of the clocks, and the requests that
-- set, read and switch a clock by a command to the modem (Pcom). A machine word is 32 bits.
pub mod Speed
pub mod Serve
use lgoptimus_l3pkg.Common.{
  ℕ, Bool, true, false, not, Option, none, some, List, [], ◌∷◌, ltb, ◌==◌, if◌then◌else◌, get_or,
  set, replicate,
}
use lgoptimus_l3pkg.Pcom.{Modem, value_or_0, Reply, msm_proc_comm}

-- (UINTN)-1.
abbrev pub minus_one : ℕ
minus_one = 0xffffffff

abbrev pub nr_clks : ℕ
nr_clks = 100

-- Clock numbers of Include/Chipset/clock.h.
abbrev pub adm_clk : ℕ
adm_clk = 1

abbrev pub ecodec_clk : ℕ
ecodec_clk = 5

abbrev pub grp_clk : ℕ
grp_clk = 8

abbrev pub icodec_rx_clk : ℕ
icodec_rx_clk = 10

abbrev pub icodec_tx_clk : ℕ
icodec_tx_clk = 11

abbrev pub imem_clk : ℕ
imem_clk = 12

abbrev pub mdc_clk : ℕ
mdc_clk = 13

abbrev pub mdp_clk : ℕ
mdp_clk = 14

abbrev pub sdc1_clk : ℕ
sdc1_clk = 19

abbrev pub sdc1_pclk : ℕ
sdc1_pclk = 20

abbrev pub sdc2_clk : ℕ
sdc2_clk = 21

abbrev pub sdc2_pclk : ℕ
sdc2_pclk = 22

abbrev pub sdc3_clk : ℕ
sdc3_clk = 23

abbrev pub sdc4_clk : ℕ
sdc4_clk = 25

abbrev pub sdc4_pclk : ℕ
sdc4_pclk = 26

abbrev pub uart1dm_clk : ℕ
uart1dm_clk = 34

abbrev pub uart2dm_clk : ℕ
uart2dm_clk = 35

abbrev pub vfe_mdc_clk : ℕ
vfe_mdc_clk = 40

abbrev pub vfe_clk : ℕ
vfe_clk = 41

abbrev pub spi_clk : ℕ
spi_clk = 45

abbrev pub vfe_axi_clk : ℕ
vfe_axi_clk = 46

abbrev pub sdac_mclk : ℕ
sdac_mclk = 87

-- Commands of Include/Library/pcom.h.
abbrev pub clk_regime_sec_enable : ℕ
clk_regime_sec_enable = 50

abbrev pub clk_regime_sec_disable : ℕ
clk_regime_sec_disable = 51

abbrev pub clk_regime_sec_sel_speed : ℕ
clk_regime_sec_sel_speed = 58

abbrev pub clk_regime_sec_msm_get_clk_freq_khz : ℕ
clk_regime_sec_msm_get_clk_freq_khz = 67

abbrev pub assign_all : List ℕ → List (ℕ × ℕ) → List ℕ
assign_all table [] = table
assign_all table (p ∷ ps) = assign_all (set table p.0 p.1) ps

unfoldable pub fill_clocks_lookup : List ℕ
fill_clocks_lookup = assign_all (replicate nr_clks minus_one) (
    (icodec_rx_clk, 50)
    ∷ (icodec_tx_clk, 52)
    ∷ (ecodec_clk, 42)
    ∷ (sdac_mclk, 64)
    ∷ (imem_clk, 55)
    ∷ (grp_clk, 56)
    ∷ (adm_clk, 19)
    ∷ (uart1dm_clk, 78)
    ∷ (uart2dm_clk, 80)
    ∷ (vfe_axi_clk, 24)
    ∷ (vfe_mdc_clk, 40)
    ∷ (vfe_clk, 41)
    ∷ (mdc_clk, 53)
    ∷ (spi_clk, 95)
    ∷ (mdp_clk, 9)
    ∷ (sdc1_clk, 66)
    ∷ (sdc2_clk, 67)
    ∷ (sdc1_pclk, 17)
    ∷ (sdc2_pclk, 16)
    ∷ [])

-- The chains of tests on Rate, from the first to the last: `if (Rate > limit) Speed = speed; else`,
-- with Speed = 1 at the end, and `if (Rate == limit) Speed = speed; else`, with `return 0` at the end.
abbrev pub icodec_limits : List (ℕ × ℕ)
icodec_limits =
    (11289600, 9)
    ∷ (8192000, 8)
    ∷ (6144000, 7)
    ∷ (5644800, 6)
    ∷ (4096000, 5)
    ∷ (3072000, 4)
    ∷ (2822400, 3)
    ∷ (2048000, 2)
    ∷ []

abbrev pub sdac_limits : List (ℕ × ℕ)
sdac_limits =
    (1411200, 9)
    ∷ (1024000, 8)
    ∷ (768000, 7)
    ∷ (705600, 6)
    ∷ (512000, 5)
    ∷ (384000, 4)
    ∷ (352800, 3)
    ∷ (256000, 2)
    ∷ []

abbrev pub uart_limits : List (ℕ × ℕ)
uart_limits =
    (61440000, 15)
    ∷ (58982400, 14)
    ∷ (56000000, 13)
    ∷ (51200000, 12)
    ∷ (48000000, 11)
    ∷ (40000000, 10)
    ∷ (32000000, 9)
    ∷ (24000000, 8)
    ∷ (16000000, 7)
    ∷ (15360000, 6)
    ∷ (14745600, 5)
    ∷ (7680000, 4)
    ∷ (7372800, 3)
    ∷ (3840000, 2)
    ∷ []

abbrev pub ecodec_limits : List (ℕ × ℕ)
ecodec_limits = (2048000, 3) ∷ (128000, 2) ∷ []

abbrev pub vfe_mdc_rates : List (ℕ × ℕ)
vfe_mdc_rates =
    (96000000, 37)
    ∷ (48000000, 32)
    ∷ (24000000, 22)
    ∷ (12000000, 14)
    ∷ (6000000, 6)
    ∷ (3000000, 1)
    ∷ []

abbrev pub vfe_rates : List (ℕ × ℕ)
vfe_rates = (36000000, 1) ∷ (48000000, 2) ∷ (64000000, 3) ∷ (78000000, 4) ∷ (96000000, 5) ∷ []

abbrev pub spi_limits : List (ℕ × ℕ)
spi_limits = (15360000, 5) ∷ (9600000, 4) ∷ (4800000, 3) ∷ (960000, 2) ∷ []

abbrev pub sdc_limits : List (ℕ × ℕ)
sdc_limits =
    (50000000, 14)
    ∷ (49152000, 13)
    ∷ (45000000, 12)
    ∷ (40000000, 11)
    ∷ (35000000, 10)
    ∷ (30000000, 9)
    ∷ (25000000, 8)
    ∷ (20000000, 7)
    ∷ (15000000, 6)
    ∷ (10000000, 5)
    ∷ (5000000, 4)
    ∷ (400000, 3)
    ∷ (144000, 2)
    ∷ []

-- A case of the switch: a chain, `return 0` or `return -1`.
pub data Case : Type 0 where
  above : List (ℕ × ℕ) → Case
  exactly : List (ℕ × ℕ) → Case
  ignored unknown : Case

abbrev pub case_of : ℕ → Case
case_of id =
    if id == icodec_rx_clk
    then above icodec_limits
    else if id == icodec_tx_clk
    then above icodec_limits
    else if id == sdac_mclk
    then above sdac_limits
    else if id == uart1dm_clk
    then above uart_limits
    else if id == uart2dm_clk
    then above uart_limits
    else if id == ecodec_clk
    then above ecodec_limits
    else if id == vfe_mdc_clk
    then exactly vfe_mdc_rates
    else if id == vfe_clk
    then exactly vfe_rates
    else if id == spi_clk
    then above spi_limits
    else if id == sdc1_clk
    then above sdc_limits
    else if id == sdc2_clk
    then above sdc_limits
    else if id == sdc1_pclk
    then ignored
    else if id == sdc2_pclk
    then ignored
    else unknown

-- Where a case ends: the command with a speed, or a result without one.
pub data Choice : Type 0 where
  speed : ℕ → Choice
  result : ℕ → Choice

abbrev pub first_above : List (ℕ × ℕ) → ℕ → ℕ
first_above [] rate = 1
first_above (p ∷ ps) rate = if ltb p.0 rate then p.1 else first_above ps rate

abbrev pub first_equal : List (ℕ × ℕ) → ℕ → Choice
first_equal [] rate = result 0
first_equal (p ∷ ps) rate = if rate == p.0 then speed p.1 else first_equal ps rate

abbrev pub choose : Case → ℕ → Choice
choose (above ps) rate = speed (first_above ps rate)
choose (exactly ps) rate = first_equal ps rate
choose ignored rate = result 0
choose unknown rate = result minus_one

-- The switch of CotullaClkSetRate.
unfoldable pub clk_speed : ℕ → ℕ → Choice
clk_speed id rate = choose (case_of id) rate

-- ClocksLookup and the machine.
pub record Clocks (V : Type 0) : Type 0 where
  pub lookup : List ℕ
  pub hw : V

-- ClocksLookup[Id]. No caller checks Id: for one past the table the model reads -1.
abbrev pub number_of : {V : Type 0} → Clocks V → ℕ → ℕ
number_of c id = get_or c.lookup id minus_one

module _ {V : Type 0} (modem : Modem V) where
  -- msm_proc_comm with &ClocksLookup[Id]: the modem's first word replaces the entry. The result is
  -- *data2. It is none if the modem leaves a waiting loop running.
  abbrev pub stored : ℕ → Clocks V → Option (Reply V) → Option (ℕ × Clocks V)
  stored id c none = none
  stored id c (some (ok, word1, word2, v)) =
      some (value_or_0 word2, record { lookup = set c.lookup id (value_or_0 word1); hw = v })

  unfoldable pub clk_command : ℕ → ℕ → ℕ → Option ℕ → Clocks V → Option (ℕ × Clocks V)
  clk_command fuel cmd id data2 c =
      stored id c (msm_proc_comm modem fuel cmd (some (number_of c id)) data2 c.hw)

  -- `return value;` after a command.
  abbrev pub returning : (Clocks V → ℕ) → Option (ℕ × Clocks V) → Option (ℕ × Clocks V)
  returning value none = none
  returning value (some (word, c)) = some (value c, c)

  abbrev pub set_speed : ℕ → ℕ → Clocks V → Choice → Option (ℕ × Clocks V)
  set_speed fuel id c (speed s) =
      returning (λ _. 0) (clk_command fuel clk_regime_sec_sel_speed id (some s) c)
  set_speed fuel id c (result r) = some (r, c)

  unfoldable pub cotulla_clk_set_rate : ℕ → ℕ → ℕ → Clocks V → Option (ℕ × Clocks V)
  cotulla_clk_set_rate fuel id rate c = set_speed fuel id c (clk_speed id rate)

  -- Both branches on Retval return it.
  unfoldable pub clk_set_rate : ℕ → ℕ → ℕ → Clocks V → Option (ℕ × Clocks V)
  clk_set_rate fuel id freq c = cotulla_clk_set_rate fuel id freq c

  unfoldable pub clk_get_rate : ℕ → ℕ → Clocks V → Option (ℕ × Clocks V)
  clk_get_rate fuel id c =
      if not (number_of c id == minus_one)
      then clk_command fuel clk_regime_sec_msm_get_clk_freq_khz id (some 0) c
      else if id == sdc4_pclk
      then some (64000000, c)
      else some (minus_one, c)

  unfoldable pub clk_enable : ℕ → ℕ → Clocks V → Option (ℕ × Clocks V)
  clk_enable fuel id c =
      if not (number_of c id == minus_one)
      then returning (λ c'. number_of c' id) (clk_command fuel clk_regime_sec_enable id none c)
      else some (minus_one, c)

  -- It returns nothing, written here as 0.
  unfoldable pub clk_disable : ℕ → ℕ → Clocks V → Option (ℕ × Clocks V)
  clk_disable fuel id c =
      if not (number_of c id == minus_one)
      then returning (λ _. 0) (clk_command fuel clk_regime_sec_disable id none c)
      else some (0, c)

  abbrev pub clocks_on : List ℕ
  clocks_on = sdc1_clk ∷ sdc2_clk ∷ sdc3_clk ∷ sdc4_clk ∷ []

  abbrev pub and_next : Option (ℕ × Clocks V) → (Clocks V → Option (Clocks V)) → Option (Clocks V)
  and_next none next = none
  and_next (some (r, c)) next = next c

  abbrev pub enable_all : ℕ → List ℕ → Clocks V → Option (Clocks V)
  enable_all fuel [] c = some c
  enable_all fuel (id ∷ ids) c = and_next (clk_enable fuel id c) (λ c'. enable_all fuel ids c')

  -- MsmClockInit, which returns EFI_SUCCESS whatever ClkEnable does.
  unfoldable pub msm_clock_init : ℕ → Clocks V → Option (Clocks V)
  msm_clock_init fuel c = enable_all fuel clocks_on c

  unfoldable pub clock_dxe_initialize : ℕ → V → Option (Clocks V)
  clock_dxe_initialize fuel v = msm_clock_init fuel (record { lookup = fill_clocks_lookup; hw = v })
