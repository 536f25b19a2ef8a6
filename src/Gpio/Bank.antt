-- ===== src/Gpio/Bank.antt =====
-- Which bank and bit find_gpio (HtcLeoPkg/Library/MsmTargetGpioLib/qcom_qsd8250_gpio.c) finds for a
-- pin, and that the banks' registers are apart.
use lgoptimus_l3pkg.Common.{
  ℕ, zero, suc, ◌+◌, ◌-◌, ◌^◌, ◌≤◌, ◌<◌, ◌≡◌, refl, sym, ap, ◌∙◌, ◌≢◌, inl, inr, Bool, true, false,
  ◌&&◌, Option, none, some, List, [], ◌∷◌, arith, ltb, leb, ◌==◌, if◌then◌else◌, Bool-cases, get_or,
  length,
}
use lgoptimus_l3pkg.Gpio.{Gpioregs, gpio_regs, search, find_gpio}

abbrev pub no_bank : Gpioregs
no_bank = record {
  out = 0;
  inp = 0;
  int_status = 0;
  int_clear = 0;
  int_en = 0;
  int_edge = 0;
  int_pos = 0;
  oe = 0;
  owner = 0;
  start = 0;
  end = 0;
}

abbrev pub bank : ℕ → Gpioregs
bank i = get_or gpio_regs i no_bank

-- Each bank has at most 32 pins, and starts after the last pin of the one before.
abbrev follow : ℕ → List Gpioregs → ℕ → Bool
follow low [] high = low == suc high
follow low (r ∷ rs) high =
    (r.start == low)
    && (leb r.start r.end && (ltb (r.end - r.start) 32 && follow (suc r.end) rs high))

pub and_both : (a b : Bool) → a && b ≡ true → (a ≡ true) × (b ≡ true)
and_both true b h = (refl, h)
and_both false b h = ground arith

-- The bank with index i of the list, and bit k of it, are the n-th pin's.
abbrev Found : List Gpioregs → ℕ → Option (Gpioregs × ℕ) → Type 0
Found rs n o =
    (i : ℕ) × (k : ℕ) × (i < length rs)
    × (k < 32)
    × (n ≡ (get_or rs i no_bank).start + k)
    × (o ≡ some (get_or rs i no_bank, 2 ^ k))

search_lem :
    (rs : List Gpioregs) (low high n : ℕ) (ret : Option (Gpioregs × ℕ))
    → follow low rs high ≡ true
    → low ≤ n
    → n ≤ high
    → Found rs n (search rs n ret)
search_lem [] low high n ret h le le' = absurd (ground arith)
search_lem (r ∷ rs) low high n ret h le le' =
    let (h1, h') = and_both (r.start == low) _ h in
    let (h2, h'') = and_both (leb r.start r.end) _ h' in
    let (h3, h4) = and_both (ltb (r.end - r.start) 32) _ h'' in
    let begin : r.start ≡ low = ground arith in
    let few : r.end - r.start < 32 = ground arith in
    elim (Bool-cases (leb r.start n && leb n r.end)) [
      | inl e ↦
          let (e1, e2) = and_both (leb r.start n) (leb n r.end) e in
          let above : r.start ≤ n = ground arith in
          let below : n ≤ r.end = ground arith in
          (0, n - r.start, omega arith, omega (arith, few, below), omega (arith, above), rw e refl)
      | inr e ↦
          let past : suc r.end ≤ n = ground arith in
          let (i, k, inside, small, place, found) =
            search_lem rs (suc r.end) high n (some (r, 0)) h4 past le' in
          (suc i, k, omega (arith, inside), small, place, rw e found)
    ]

-- For each of the 165 pins find_gpio finds a bank and one of its 32 bits, and the pin's number is
-- the bank's first and the number of the bit.
pub find_gpio_lem :
    (n : ℕ)
    → n ≤ 164
    → (i : ℕ) × (k : ℕ) × (i < 8)
      × (k < 32)
      × (n ≡ (bank i).start + k)
      × (find_gpio n ≡ some (bank i, 2 ^ k))
unfolding find_gpio
find_gpio_lem n h =
    let low : ltb 164 n ≡ false = ground arith in
    rw low (search_lem gpio_regs 0 164 n none refl (omega arith) h)

pub find_gpio-none : (n : ℕ) → 164 < n → find_gpio n ≡ none
unfolding find_gpio
find_gpio-none n h = ground arith

below_8 : (P : ℕ → Type 0) → P 0 → P 1 → P 2 → P 3 → P 4 → P 5 → P 6 → P 7 → (i : ℕ) → i < 8 → P i
below_8 P a b c d e f g h zero lt = a
below_8 P a b c d e f g h (suc zero) lt = b
below_8 P a b c d e f g h (suc (suc zero)) lt = c
below_8 P a b c d e f g h (suc (suc (suc zero))) lt = d
below_8 P a b c d e f g h (suc (suc (suc (suc zero)))) lt = e
below_8 P a b c d e f g h (suc (suc (suc (suc (suc zero))))) lt = f
below_8 P a b c d e f g h (suc (suc (suc (suc (suc (suc zero)))))) lt = g
below_8 P a b c d e f g h (suc (suc (suc (suc (suc (suc (suc zero))))))) lt = h
below_8 P a b c d e f g h (suc (suc (suc (suc (suc (suc (suc (suc i)))))))) lt =
    absurd (omega arith)

-- The bank of an output register, and 8 more for an output enable register.
abbrev index_of_from : List Gpioregs → ℕ → ℕ → ℕ
index_of_from [] i addr = i
index_of_from (r ∷ rs) i addr =
    if addr == r.out then i else if addr == r.oe then 8 + i else index_of_from rs (suc i) addr

abbrev index_of : ℕ → ℕ
index_of addr = index_of_from gpio_regs 0 addr

index_of-out : (i : ℕ) → i < 8 → index_of (bank i).out ≡ i
index_of-out = below_8 (λ i. index_of (bank i).out ≡ i) refl refl refl refl refl refl refl refl

index_of-oe : (i : ℕ) → i < 8 → index_of (bank i).oe ≡ 8 + i
index_of-oe = below_8 (λ i. index_of (bank i).oe ≡ 8 + i) refl refl refl refl refl refl refl refl

-- The output and output enable registers of the banks are 16 registers.
pub out_inj : (i j : ℕ) → i < 8 → j < 8 → (bank i).out ≡ (bank j).out → i ≡ j
out_inj i j hi hj e = sym (index_of-out i hi) ∙ ap index_of e ∙ index_of-out j hj

pub oe_inj : (i j : ℕ) → i < 8 → j < 8 → (bank i).oe ≡ (bank j).oe → i ≡ j
oe_inj i j hi hj e =
    let same : 8 + i ≡ 8 + j = sym (index_of-oe i hi) ∙ ap index_of e ∙ index_of-oe j hj in
    omega (arith, same)

pub out_ne_oe : (i j : ℕ) → i < 8 → j < 8 → (bank i).out ≢ (bank j).oe
out_ne_oe i j hi hj e =
    let same : i ≡ 8 + j = sym (index_of-out i hi) ∙ ap index_of e ∙ index_of-oe j hj in
    omega (arith, same)
