-- ===== src/Common/Io.antt =====
-- Code that reads and writes device registers: a state monad, for do blocks, and the registers as an
-- interface. A read may change the device, as a counter or a queue does.
use lgoptimus_l3pkg.Common.{ℕ}

abbrev pub Action : Type 0 → Type 0 → Type 0
Action V A = V → A × V

abbrev pub pure : {V A : Type 0} → A → Action V A
pure a v = (a, v)

infixl 5 ◌>>=◌ ◌>>◌
abbrev pub ◌>>=◌ : {V A B : Type 0} → Action V A → (A → Action V B) → Action V B
◌>>=◌ m f v = let (a, v') = m v in f a v'

abbrev pub ◌>>◌ : {V A B : Type 0} → Action V A → Action V B → Action V B
m >> k = m >>= λ _. k

pub record Io (V : Type 0) : Type 0 where
  pub readl : ℕ → Action V ℕ
  pub writel : ℕ → ℕ → Action V Unit
