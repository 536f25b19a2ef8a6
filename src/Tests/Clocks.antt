-- ===== src/Tests/Clocks.antt =====
-- Clock requests to a modem, at concrete inputs.
use lgoptimus_l3pkg.Common.{ℕ, ◌≡◌, refl, List, [], ◌∷◌}
use lgoptimus_l3pkg.Pcom.{Modem}
use lgoptimus_l3pkg.Pcom.Call.{Answer}
use lgoptimus_l3pkg.Clock.{sdc1_clk, spi_clk, fill_clocks_lookup}
use lgoptimus_l3pkg.Clock.Serve.{set_rate, get_rate, enable, disable, Request, respond, respond_all}
use lgoptimus_l3pkg.Tests.Phone.{Words, read_word, write_word}

-- A modem that answers at once: it gives the first word back, and 48000 as the second.
abbrev echo : Modem Words
echo = record {
  readl = read_word;
  writel = write_word;
  notify = λ w. record w { command = 1; status = 3; data2 = 48000 };
  delay = λ w. w;
}

abbrev say_again : ℕ → ℕ → ℕ → Answer
say_again cmd a b = record { status = 3; word1 = a; word2 = 48000 }

abbrev requests : List Request
requests = set_rate sdc1_clk 400000 ∷ get_rate sdc1_clk ∷ enable spi_clk ∷ disable spi_clk ∷ []

-- 400 kHz is speed 2, a rate of 48000 is read, and the two switches give the number back.
results_of : (respond_all say_again requests fill_clocks_lookup).0 ≡ 0 ∷ 48000 ∷ 95 ∷ 0 ∷ []
unfolding respond_all respond fill_clocks_lookup
results_of = refl
