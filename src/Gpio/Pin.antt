-- ===== src/Gpio/Pin.antt =====
-- What the operations of HtcLeoPkg/Library/MsmTargetGpioLib/qcom_qsd8250_gpio.c do to the output
-- registers, seen as one output and one output enable bit for each pin.
use mathlib.Core.Path.{subst}
use lgoptimus_l3pkg.Common.{
  ℕ, ◌+◌, ◌^◌, ◌≤◌, ◌<◌, ◌≡◌, ◌≢◌, refl, sym, ap, ◌∙◌, ◌⊎◌, inl, inr, Bool, true, false, not, some,
  arith, ◌==◌, if◌then◌else◌, Bool-cases,
}
use lgoptimus_l3pkg.Common.Words.{bit, bit-set_self, bit-set_ne, bit-reset_self, bit-reset_ne}
use lgoptimus_l3pkg.Common.Io.{Io}
use lgoptimus_l3pkg.Gpio.{find_gpio, with_bit, update_bit, gpio_config, gpio_set}
use lgoptimus_l3pkg.Gpio.Bank.{bank, find_gpio_lem, out_inj, oe_inj, out_ne_oe}

-- The registers that a pin's output needs.
abbrev pub IsOutput : ℕ → Type 0
IsOutput addr = (i : ℕ) × (i < 8) × ((addr ≡ (bank i).out) ⊎ (addr ≡ (bank i).oe))

-- An output register holds what was written to it last, and no read changes it.
pub record OutputLaws {V : Type 0} (io : Io V) (peek : V → ℕ → ℕ) : Type 0 where
  pub read_value : (v : V) (addr : ℕ) → IsOutput addr → (io.readl addr v).0 ≡ peek v addr
  pub read_keeps : (v : V) (addr other : ℕ) → peek (io.readl addr v).1 other ≡ peek v other
  pub write_value : (v : V) (x addr : ℕ) → IsOutput addr → peek (io.writel x addr v).1 addr ≡ x
  pub write_other :
      (v : V) (x addr other : ℕ) → other ≢ addr → peek (io.writel x addr v).1 other ≡ peek v other

bit-with_bit_self :
    (on : Bool) (v k : ℕ) → k < 32 → bit (with_bit on v (2 ^ k)) k ≡ (if on then 1 else 0)
bit-with_bit_self true v k h = bit-set_self v k
bit-with_bit_self false v k h = bit-reset_self v k h

bit-with_bit_ne :
    (on : Bool) (v k j : ℕ) → k < 32 → j < 32 → j ≢ k → bit (with_bit on v (2 ^ k)) j ≡ bit v j
bit-with_bit_ne true v k j h h' ne = bit-set_ne v k j ne
bit-with_bit_ne false v k j h h' ne = bit-reset_ne v k j h h' ne

-- A pin by its bank and bit, in the number that it has.
abbrev pub IsAt : ℕ → ℕ → ℕ → Type 0
IsAt n i k = (i < 8) × (k < 32) × (n ≡ (bank i).start + k)

module _ {V : Type 0} (io : Io V) (peek : V → ℕ → ℕ) (laws : OutputLaws io peek) where
  update_bit_self :
      (on : Bool) (k reg : ℕ) (v : V)
      → k < 32
      → IsOutput reg
      → bit (peek (update_bit io on (2 ^ k) reg v).1 reg) k ≡ (if on then 1 else 0)
  update_bit_self on k reg v h o =
      let r = io.readl reg v in
      ap (λ x. bit x k) (laws.write_value r.1 (with_bit on r.0 (2 ^ k)) reg o)
      ∙ bit-with_bit_self on r.0 k h

  update_bit_ne :
      (on : Bool) (k j reg : ℕ) (v : V)
      → k < 32
      → j < 32
      → j ≢ k
      → IsOutput reg
      → bit (peek (update_bit io on (2 ^ k) reg v).1 reg) j ≡ bit (peek v reg) j
  update_bit_ne on k j reg v h h' ne o =
      let r = io.readl reg v in
      ap (λ x. bit x j) (laws.write_value r.1 (with_bit on r.0 (2 ^ k)) reg o)
      ∙ bit-with_bit_ne on r.0 k j h h' ne
      ∙ ap (λ x. bit x j) (laws.read_value v reg o)

  update_bit_other :
      (on : Bool) (b reg other : ℕ) (v : V)
      → other ≢ reg
      → peek (update_bit io on b reg v).1 other ≡ peek v other
  update_bit_other on b reg other v ne =
      let r = io.readl reg v in
      laws.write_other r.1 (with_bit on r.0 b) reg other ne ∙ laws.read_keeps v reg other

  -- The output of the pin at bank i and bit k, and whether it is driven.
  abbrev pub output : V → ℕ → ℕ → ℕ
  output v i k = bit (peek v (bank i).out) k

  abbrev pub driven : V → ℕ → ℕ → ℕ
  driven v i k = bit (peek v (bank i).oe) k

  gpio_set_by :
      (n i k on : ℕ) (v : V)
      → find_gpio n ≡ some (bank i, 2 ^ k)
      → gpio_set io n on v
        ≡ update_bit io
            (not (on == 0))
            (2 ^ k)
            (bank i).out
            (update_bit io true (2 ^ k) (bank i).oe v).1
  unfolding gpio_set gpio_config
  gpio_set_by n i k on v e = rw e refl

  apart : (n i k m j l : ℕ) → IsAt n i k → IsAt m j l → m ≢ n → (j ≢ i) ⊎ ((j ≡ i) × (l ≢ k))
  apart n i k m j l p q ne = elim (Bool-cases (j == i)) [
    | inl e ↦
        let same : j ≡ i = ground arith in
        inr (
          same,
          λ e'. ne (
              q.2
              ∙ ap (λ x. (bank x).start + l) same
              ∙ ap (λ x. (bank i).start + x) e'
              ∙ sym (p.2)),
        )
    | inr e ↦ inl (λ same. ground arith)
  ]

  -- One bit is set or reset in a bank's register; another pin's bit is another bit or in another bank.
  update_bit_apart :
      (reg : ℕ → ℕ) (on : Bool) (n i k m j l : ℕ) (v : V)
      → ((a : ℕ) → a < 8 → IsOutput (reg a))
      → ((a b : ℕ) → a < 8 → b < 8 → reg a ≡ reg b → a ≡ b)
      → IsAt n i k
      → IsAt m j l
      → m ≢ n
      → bit (peek (update_bit io on (2 ^ k) (reg i) v).1 (reg j)) l ≡ bit (peek v (reg j)) l
  update_bit_apart reg on n i k m j l v o inj p q ne = elim (apart n i k m j l p q ne) [
    | inl banks ↦
        ap (λ x. bit x l)
          (update_bit_other on (2 ^ k) (reg i) (reg j) v (λ e. banks (inj j i q.0 p.0 e)))
    | inr (same, bits) ↦
        subst
          (λ a.
            bit (peek (update_bit io on (2 ^ k) (reg i) v).1 (reg a)) l ≡ bit (peek v (reg a)) l)
          (sym same) (update_bit_ne on k l (reg i) v p.1 q.1 bits (o i p.0))
  ]

  -- gpio_set drives the pin to the value, and changes the output and the direction of no other pin.
  pub gpio_set_lem :
      (n on : ℕ) (v : V)
      → n ≤ 164
      → let v' = (gpio_set io n on v).1 in
        (i : ℕ) × (k : ℕ) × IsAt n i k
        × (output v' i k ≡ (if not (on == 0) then 1 else 0))
        × (driven v' i k ≡ 1)
        × ((m j l : ℕ)
            → IsAt m j l
            → m ≢ n
            → (output v' j l ≡ output v j l) × (driven v' j l ≡ driven v j l))
  gpio_set_lem n on v h =
      let (i, k, low, small, place, found) = find_gpio_lem n h in
      let at : IsAt n i k = (low, small, place) in
      let s = not (on == 0) in
      let v1 = (update_bit io true (2 ^ k) (bank i).oe v).1 in
      let is_out : (a : ℕ) → a < 8 → IsOutput (bank a).out = λ a lt. (a, lt, inl refl) in
      let is_oe : (a : ℕ) → a < 8 → IsOutput (bank a).oe = λ a lt. (a, lt, inr refl) in
      rw (gpio_set_by n i k on v found) (
        i,
        k,
        at,
        update_bit_self s k (bank i).out v1 small (is_out i low),
        ap (λ x. bit x k)
              (update_bit_other s (2 ^ k) (bank i).out (bank i).oe v1
                (λ e. out_ne_oe i i low low (sym e)))
            ∙ update_bit_self true k (bank i).oe v small (is_oe i low),
        λ m j l q ne. (
          update_bit_apart (λ a. (bank a).out) s n i k m j l v1 is_out out_inj at q ne
              ∙ ap (λ x. bit x l)
                  (update_bit_other true (2 ^ k) (bank i).oe (bank j).out v
                    (out_ne_oe j i q.0 low)),
          ap (λ x. bit x l)
                (update_bit_other s (2 ^ k) (bank i).out (bank j).oe v1
                  (λ e. out_ne_oe i j low q.0 (sym e)))
              ∙ update_bit_apart (λ a. (bank a).oe) true n i k m j l v is_oe oe_inj at q ne,
        ),
      )
