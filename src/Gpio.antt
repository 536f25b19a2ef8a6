-- ===== src/Gpio.antt =====
-- HtcLeoPkg/Library/MsmTargetGpioLib/qcom_qsd8250_gpio.c: the pins' registers, from the table
-- GPIO_REGS with the addresses of Include/Chipset/gpio.h, and the operations on a pin. The registers
-- are a parameter; a word is 32 bits.
pub mod Bank
pub mod Pin
pub mod Irq
pub mod Table
use Prim.Native.Nat.{bit_and, bit_or}
use lgoptimus_l3pkg.Common.{
  ℕ, zero, suc, ◌+◌, ◌-◌, ◌*◌, ◌/◌, ◌%◌, ◌^◌, Bool, true, false, not, ◌&&◌, ◌||◌, Option, none,
  some, List, [], ◌∷◌, ltb, leb, ◌==◌, if◌then◌else◌,
}
use lgoptimus_l3pkg.Common.Words.{complement}
use lgoptimus_l3pkg.Common.Io.{Action, pure, ◌>>=◌, ◌>>◌, Io}

pub record Gpioregs : Type 0 where
  pub out : ℕ
  pub inp : ℕ
  pub int_status : ℕ
  pub int_clear : ℕ
  pub int_en : ℕ
  pub int_edge : ℕ
  pub int_pos : ℕ
  pub oe : ℕ
  pub owner : ℕ
  pub start : ℕ
  pub end : ℕ

abbrev pub gpio_regs : List Gpioregs
gpio_regs =
    record {
      out = 0xA9000800;
      inp = 0xA9000850;
      int_status = 0xA90008F0;
      int_clear = 0xA90008D0;
      int_en = 0xA90008B0;
      int_edge = 0xA9000870;
      int_pos = 0xA9000890;
      oe = 0xA9000820;
      owner = 0xA8E00100;
      start = 0;
      end = 15;
    }
    ∷ record {
      out = 0xA9100C00;
      inp = 0xA9100C20;
      int_status = 0xA9100C70;
      int_clear = 0xA9100C68;
      int_en = 0xA9100C60;
      int_edge = 0xA9100C50;
      int_pos = 0xA9100C58;
      oe = 0xA9100C08;
      owner = 0xA8F00504;
      start = 16;
      end = 42;
    }
    ∷ record {
      out = 0xA9000804;
      inp = 0xA9000854;
      int_status = 0xA90008F4;
      int_clear = 0xA90008D4;
      int_en = 0xA90008B4;
      int_edge = 0xA9000874;
      int_pos = 0xA9000894;
      oe = 0xA9000824;
      owner = 0xA8E00108;
      start = 43;
      end = 67;
    }
    ∷ record {
      out = 0xA9000808;
      inp = 0xA9000858;
      int_status = 0xA90008F8;
      int_clear = 0xA90008D8;
      int_en = 0xA90008B8;
      int_edge = 0xA9000878;
      int_pos = 0xA9000898;
      oe = 0xA9000828;
      owner = 0xA8E0010C;
      start = 68;
      end = 94;
    }
    ∷ record {
      out = 0xA900080C;
      inp = 0xA900085C;
      int_status = 0xA90008FC;
      int_clear = 0xA90008DC;
      int_en = 0xA90008BC;
      int_edge = 0xA900087C;
      int_pos = 0xA900089C;
      oe = 0xA900082C;
      owner = 0xA8E00110;
      start = 95;
      end = 103;
    }
    ∷ record {
      out = 0xA9000810;
      inp = 0xA9000860;
      int_status = 0xA9000900;
      int_clear = 0xA90008E0;
      int_en = 0xA90008C0;
      int_edge = 0xA9000880;
      int_pos = 0xA90008A0;
      oe = 0xA9000830;
      owner = 0xA8E00114;
      start = 104;
      end = 121;
    }
    ∷ record {
      out = 0xA9000814;
      inp = 0xA9000864;
      int_status = 0xA9000903;
      int_clear = 0xA90008E4;
      int_en = 0xA90008C4;
      int_edge = 0xA9000884;
      int_pos = 0xA90008A4;
      oe = 0xA9000834;
      owner = 0xA8E00118;
      start = 122;
      end = 152;
    }
    ∷ record {
      out = 0xA9000818;
      inp = 0xA9000868;
      int_status = 0xA9000908;
      int_clear = 0xA90008E8;
      int_en = 0xA90008C8;
      int_edge = 0xA9000888;
      int_pos = 0xA90008A8;
      oe = 0xA9000838;
      owner = 0xA8E0011C;
      start = 153;
      end = 164;
    }
    ∷ []

-- What find_gpio leaves: the bank, or NULL, and *bit, which the callers set to 0 before.
abbrev pub search : List Gpioregs → ℕ → Option (Gpioregs × ℕ) → Option (Gpioregs × ℕ)
search [] n ret = ret
search (r ∷ rs) n ret =
    if leb r.start n && leb n r.end then some (r, 2 ^ (n - r.start)) else search rs n (some (r, 0))

unfoldable pub find_gpio : ℕ → Option (Gpioregs × ℕ)
find_gpio n = if ltb 164 n then none else search gpio_regs n none

-- The interrupt lines of the pins, none for -1.
abbrev pub irq2gpio : List (Option ℕ)
irq2gpio =
    none
    ∷ none
    ∷ none
    ∷ none
    ∷ none
    ∷ none
    ∷ some 0
    ∷ some 1
    ∷ none
    ∷ none
    ∷ none
    ∷ none
    ∷ none
    ∷ none
    ∷ none
    ∷ none
    ∷ none
    ∷ none
    ∷ none
    ∷ some 2
    ∷ some 3
    ∷ some 4
    ∷ some 5
    ∷ some 6
    ∷ some 7
    ∷ some 8
    ∷ some 9
    ∷ some 10
    ∷ some 11
    ∷ some 12
    ∷ none
    ∷ none
    ∷ []

abbrev pub is_line : Option ℕ → ℕ → Bool
is_line none gpio = false
is_line (some g) gpio = g == gpio

-- The first line of a pin from line `irq` on, none for -2.
abbrev pub first_line : List (Option ℕ) → ℕ → ℕ → Option ℕ
first_line [] irq gpio = none
first_line (l ∷ ls) irq gpio = if is_line l gpio then some irq else first_line ls (suc irq) gpio

unfoldable pub gpio_to_irq : ℕ → Option ℕ
gpio_to_irq gpio = first_line irq2gpio 0 gpio

abbrev pub gpio_input : ℕ
gpio_input = 0

abbrev pub gpio_output : ℕ
gpio_output = 1

-- `flags & mask`, as a condition.
abbrev pub any : ℕ → ℕ → Bool
any flags mask = not (bit_and flags mask == 0)

-- `if (on) writel(v | b, reg); else writel(v & (~b), reg);`.
abbrev pub with_bit : Bool → ℕ → ℕ → ℕ
with_bit on v b = if on then bit_or v b else bit_and v (complement b)

-- MSM_GPIO_PIN and its kin.
abbrev pub field : ℕ → ℕ → ℕ → ℕ
field config shift mask = bit_and (config / 2 ^ shift) mask

-- `if ((r = find_gpio(n, &b)) == 0) return value;` before the rest.
abbrev pub on_bank :
    {V A : Type 0} → Option (Gpioregs × ℕ) → A → (Gpioregs → ℕ → Action V A) → Action V A
on_bank none value rest = pure value
on_bank (some (r, b)) value rest = rest r b

module _ {V : Type 0} (io : Io V) where
  abbrev pub update_bit : Bool → ℕ → ℕ → Action V Unit
  update_bit on b reg = do v ← io.readl reg; io.writel (with_bit on v b) reg

  -- The result is whether it returned 0, else -1.
  unfoldable pub gpio_config : ℕ → ℕ → Action V Bool
  gpio_config n flags =
      on_bank (find_gpio n) false (λ r b. do update_bit (any flags gpio_output) b r.oe; pure true)

  unfoldable pub gpio_set : ℕ → ℕ → Action V Unit
  gpio_set n on =
      on_bank (find_gpio n) tt
        (λ r b. do gpio_config n gpio_output; update_bit (not (on == 0)) b r.out)

  unfoldable pub gpio_get : ℕ → Action V ℕ
  gpio_get n =
      on_bank (find_gpio n) 0
        (λ r b. do gpio_config n gpio_input; v ← io.readl r.inp; pure (if any v b then 1 else 0))

  abbrev pub owner_arm11 : ℕ
  owner_arm11 = 1

  unfoldable pub msm_gpio_set_owner : ℕ → ℕ → Action V Unit
  msm_gpio_set_owner gpio owner =
      on_bank (find_gpio gpio) tt (λ r b. update_bit (owner == owner_arm11) b r.owner)

  -- The alternative function's registers, then the direction. The register read back is not used.
  unfoldable pub msm_gpio_config : ℕ → ℕ → Action V Unit
  msm_gpio_config config disable =
      let gpio = field config 4 0x3ff in
      let cfg =
        bit_or (bit_or (field config 17 0xf * 64) (field config 0 0xf * 4)) (field config 15 0x3) in
      let base = if ltb gpio 16 || ltb 42 gpio then 0xA8E00020 else 0xA8F00410 in
      do
        io.writel gpio base
        io.writel cfg (base + 4)
        io.readl base
        if any (field config 14 1) 1
            then gpio_set gpio (if disable == 0 then 1 else 0)
            else (do gpio_config gpio gpio_input; pure tt)

  unfoldable pub msm_gpio_configure : ℕ → ℕ → Action V Bool
  msm_gpio_configure gpio flags = on_bank (find_gpio gpio) false (λ r b. do
    if any flags 0x00180000 then gpio_set gpio (bit_and flags 0x00100000) else pure tt
    if any flags 0x00060000 then update_bit (any flags 0x00040000) b r.oe else pure tt
    pure true)
