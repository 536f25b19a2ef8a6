-- ===== src/Clock/Speed.antt =====
-- The speeds that CotullaClkSetRate (HtcLeoPkg/GPLDrivers/ClockDxe/ClockDxe.c) chooses.
use lgoptimus_l3pkg.Common.{
  ℕ, ◌+◌, ◌^◌, ◌<◌, length, ◌≤◌, ◌≡◌, refl, ap, inl, inr, Bool, true, false, ◌&&◌, List, [], ◌∷◌,
  arith, ltb, leb, ◌==◌, if◌then◌else◌, Bool-cases,
}
use lgoptimus_l3pkg.Clock.{
  Case, above, exactly, ignored, unknown, case_of, Choice, speed, result, first_above, choose,
  minus_one, first_equal, clk_speed, vfe_rates, vfe_mdc_rates, icodec_limits, uart_limits,
  sdc_limits, sdac_limits, ecodec_limits, spi_limits, icodec_rx_clk, icodec_tx_clk, sdac_mclk,
  uart1dm_clk, uart2dm_clk, ecodec_clk, vfe_mdc_clk, vfe_clk, spi_clk, sdc1_clk, sdc2_clk,
  sdc1_pclk, sdc2_pclk,
}

-- A higher rate does not choose a lower speed, if both rates choose one; and a speed is at least 1.
abbrev pub IsMonotone : Case → Type 0
IsMonotone c =
    (rate rate' s s' : ℕ)
    → rate ≤ rate'
    → choose c rate ≡ speed s
    → choose c rate' ≡ speed s'
    → (1 ≤ s) × (s ≤ s')

-- The speeds of a chain fall from `bound` towards its end, and stay over 1.
abbrev falls : ℕ → List (ℕ × ℕ) → Bool
falls bound [] = leb 1 bound
falls bound (p ∷ ps) = leb p.1 bound && falls p.1 ps

both : (a b : Bool) → a && b ≡ true → (a ≡ true) × (b ≡ true)
both true b h = (refl, h)
both false b h = ground arith

first_above_bounds :
    (bound : ℕ) (ps : List (ℕ × ℕ)) (rate : ℕ)
    → falls bound ps ≡ true
    → (1 ≤ first_above ps rate) × (first_above ps rate ≤ bound)
first_above_bounds bound [] rate h = (omega arith, ground arith)
first_above_bounds bound (p ∷ ps) rate h =
    let (less, lower) = both (leb p.1 bound) (falls p.1 ps) h in
    let (low, high) = first_above_bounds p.1 ps rate lower in
    let head_le : p.1 ≤ bound = ground arith in
    elim (Bool-cases (ltb p.0 rate)) [
      | inl e ↦ rw e (omega (arith, low, high), head_le)
      | inr e ↦ rw e (low, omega (arith, high, head_le))
    ]

first_above_mono :
    (bound : ℕ) (ps : List (ℕ × ℕ)) (rate rate' : ℕ)
    → falls bound ps ≡ true
    → rate ≤ rate'
    → first_above ps rate ≤ first_above ps rate'
first_above_mono bound [] rate rate' h le = omega arith
first_above_mono bound (p ∷ ps) rate rate' h le =
    let lower = (both (leb p.1 bound) (falls p.1 ps) h).1 in
    elim (Bool-cases (ltb p.0 rate')) [
      | inl e' ↦ elim (Bool-cases (ltb p.0 rate)) [
        | inl e ↦ rw (e, e') (omega arith)
        | inr e ↦ rw (e, e') ((first_above_bounds p.1 ps rate lower).1)
      ]
      | inr e' ↦
          let e : ltb p.0 rate ≡ false = ground arith in
          rw (e, e') (first_above_mono p.1 ps rate rate' lower le)
    ]

speed_of : Choice → ℕ
speed_of (speed n) = n
speed_of (result n) = 0

above-IsMonotone : (bound : ℕ) (ps : List (ℕ × ℕ)) → falls bound ps ≡ true → IsMonotone (above ps)
unfolding speed_of
above-IsMonotone bound ps h rate rate' s s' le e e' =
    let same : first_above ps rate ≡ s = ap speed_of e in
    let same' : first_above ps rate' ≡ s' = ap speed_of e' in
    (
      omega (arith, same, first_above_bounds bound ps rate h),
      omega (arith, same, same', first_above_mono bound ps rate rate' h le),
    )

vfe-IsMonotone : IsMonotone (exactly vfe_rates)
vfe-IsMonotone rate rate' s s' le e e' = ground arith

mdc-IsMonotone : IsMonotone (exactly vfe_mdc_rates)
mdc-IsMonotone rate rate' s s' le e e' = ground arith

if_lem {ℓ κ} :
    {A : Type ℓ} (P : A → Type κ) (b : Bool) (x y : A) → P x → P y → P (if b then x else y)
if_lem P true x y px py = px
if_lem P false x y px py = py

-- The switch's cases, in its order.
case_of-IsMonotone : (id : ℕ) → IsMonotone (case_of id)
case_of-IsMonotone id =
    let icodec : IsMonotone (above icodec_limits) = above-IsMonotone 9 icodec_limits refl in
    let uart : IsMonotone (above uart_limits) = above-IsMonotone 15 uart_limits refl in
    let sdc : IsMonotone (above sdc_limits) = above-IsMonotone 14 sdc_limits refl in
    let sdac : IsMonotone (above sdac_limits) = above-IsMonotone 9 sdac_limits refl in
    let ecodec : IsMonotone (above ecodec_limits) = above-IsMonotone 3 ecodec_limits refl in
    let spi : IsMonotone (above spi_limits) = above-IsMonotone 5 spi_limits refl in
    let none_set : IsMonotone ignored = λ rate rate' s s' le e e'. ground arith in
    let none_known : IsMonotone unknown = λ rate rate' s s' le e e'. ground arith in
    if_lem IsMonotone (id == icodec_rx_clk) _ _ icodec (
      if_lem IsMonotone (id == icodec_tx_clk) _ _ icodec (
        if_lem IsMonotone (id == sdac_mclk) _ _ sdac (
          if_lem IsMonotone (id == uart1dm_clk) _ _ uart (
            if_lem IsMonotone (id == uart2dm_clk) _ _ uart (
              if_lem IsMonotone (id == ecodec_clk) _ _ ecodec (
                if_lem IsMonotone (id == vfe_mdc_clk) _ _ mdc-IsMonotone (
                  if_lem IsMonotone (id == vfe_clk) _ _ vfe-IsMonotone (
                    if_lem IsMonotone (id == spi_clk) _ _ spi (
                      if_lem IsMonotone (id == sdc1_clk) _ _ sdc (
                        if_lem IsMonotone (id == sdc2_clk) _ _ sdc (
                          if_lem IsMonotone (id == sdc1_pclk) _ _ none_set
                            (if_lem IsMonotone (id == sdc2_pclk) _ _ none_set none_known))))))))))))

-- If CotullaClkSetRate chooses a speed for each of two rates of a clock, then the higher rate does
-- not get the lower speed, and no speed is 0.
pub clk_speed_mono :
    (id rate rate' s s' : ℕ)
    → rate ≤ rate'
    → clk_speed id rate ≡ speed s
    → clk_speed id rate' ≡ speed s'
    → (1 ≤ s) × (s ≤ s')
unfolding clk_speed
clk_speed_mono id rate rate' s s' le e e' = case_of-IsMonotone id rate rate' s s' le e e'

-- The limits below a rate.
abbrev pub passed : List (ℕ × ℕ) → ℕ → ℕ
passed [] rate = 0
passed (p ∷ ps) rate = (if ltb p.0 rate then 1 else 0) + passed ps rate

-- The speed of a clock by how many of its limits a rate passes, counted from 1.
abbrev pub ranked : Case → ℕ → Choice
ranked (above ps) rate = speed (1 + passed ps rate)
ranked (exactly ps) rate = first_equal ps rate
ranked ignored rate = result 0
ranked unknown rate = result minus_one

abbrev pub ranked_speed : ℕ → ℕ → Choice
ranked_speed id rate = ranked (case_of id) rate

-- Limits fall from below `bound`, and each speed is one more than the number of limits from it on.
abbrev IsRanking : ℕ → List (ℕ × ℕ) → Type 0
IsRanking bound [] = Unit
IsRanking bound (p ∷ ps) = (p.0 < bound) × ((p.1 ≡ 2 + length ps) × IsRanking p.0 ps)

passed_all :
    (bound : ℕ) (ps : List (ℕ × ℕ)) (rate : ℕ)
    → IsRanking bound ps
    → bound ≤ rate
    → passed ps rate ≡ length ps
passed_all bound [] rate h le = refl
passed_all bound (p ∷ ps) rate h le =
    let now : ltb p.0 rate ≡ true = ground (arith, h.0) in
    rw now (omega (arith, passed_all p.0 ps rate h.1.1 (omega (arith, h.0))))

first_above-passed :
    (bound : ℕ) (ps : List (ℕ × ℕ)) (rate : ℕ)
    → IsRanking bound ps
    → first_above ps rate ≡ 1 + passed ps rate
first_above-passed bound [] rate h = refl
first_above-passed bound (p ∷ ps) rate h = elim (Bool-cases (ltb p.0 rate)) [
  | inl e ↦
      let below : p.0 ≤ rate = ground arith in
      rw e (omega (arith, h.1.0, passed_all p.0 ps rate h.1.1 below))
  | inr e ↦ rw e (omega (arith, first_above-passed p.0 ps rate h.1.1))
]

abbrev IsCounted : Case → Type 0
IsCounted c = (rate : ℕ) → choose c rate ≡ ranked c rate

above-IsCounted : (ps : List (ℕ × ℕ)) → IsRanking (2 ^ 32) ps → IsCounted (above ps)
above-IsCounted ps h rate = ap speed (first_above-passed (2 ^ 32) ps rate h)

case_of-IsCounted : (id : ℕ) → IsCounted (case_of id)
case_of-IsCounted id =
    let icodec : IsCounted (above icodec_limits) = above-IsCounted icodec_limits (omega arith) in
    let uart : IsCounted (above uart_limits) = above-IsCounted uart_limits (omega arith) in
    let sdc : IsCounted (above sdc_limits) = above-IsCounted sdc_limits (omega arith) in
    let sdac : IsCounted (above sdac_limits) = above-IsCounted sdac_limits (omega arith) in
    let ecodec : IsCounted (above ecodec_limits) = above-IsCounted ecodec_limits (omega arith) in
    let spi : IsCounted (above spi_limits) = above-IsCounted spi_limits (omega arith) in
    if_lem IsCounted (id == icodec_rx_clk) _ _ icodec (
      if_lem IsCounted (id == icodec_tx_clk) _ _ icodec (
        if_lem IsCounted (id == sdac_mclk) _ _ sdac (
          if_lem IsCounted (id == uart1dm_clk) _ _ uart (
            if_lem IsCounted (id == uart2dm_clk) _ _ uart (
              if_lem IsCounted (id == ecodec_clk) _ _ ecodec (
                if_lem IsCounted (id == vfe_mdc_clk) _ _ (λ rate. refl)
                  (if_lem IsCounted (id == vfe_clk) _ _ (λ rate. refl)
                    (if_lem IsCounted (id == spi_clk) _ _ spi (
                      if_lem IsCounted (id == sdc1_clk) _ _ sdc (
                        if_lem IsCounted (id == sdc2_clk) _ _ sdc (
                          if_lem IsCounted (id == sdc1_pclk) _ _ (λ rate. refl)
                            (if_lem IsCounted (id == sdc2_pclk) _ _ (λ rate. refl)
                              (λ rate. refl)))))))))))))

-- CotullaClkSetRate chooses the speed by how many of the clock's limits the rate passes.
pub clk_speed-ranked : (id rate : ℕ) → clk_speed id rate ≡ ranked_speed id rate
unfolding clk_speed
clk_speed-ranked id rate = case_of-IsCounted id rate
