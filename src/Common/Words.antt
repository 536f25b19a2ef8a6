-- ===== src/Common/Words.antt =====
-- The bits of machine words.
use native.Mathlib.Nat.{pow-suc}
use Prim.Native.Nat.{min, max, bit_and, bit_or, digits, bitwise, bit_and-bitwise, bit_or-bitwise}
use lgoptimus_l3pkg.Common.{
  ℕ, zero, suc, ◌+◌, ◌-◌, ◌*◌, ◌/◌, ◌%◌, ◌^◌, ◌≤◌, ◌<◌, ◌≡◌, ◌≢◌, refl, sym, ap, ◌∙◌, arith,
}

-- Bit k of a number.
abbrev pub bit : ℕ → ℕ → ℕ
bit a zero = a % 2
bit a (suc k) = bit (a / 2) k

-- ~b, for a 32-bit word b.
abbrev pub complement : ℕ → ℕ
complement b = 0xffffffff - b

-- The library computes `bit_or` and its kin digit by digit; the count of digits only has to be large
-- enough.
module _ (z : ℕ → ℕ) (f : ℕ → ℕ → ℕ) where
  digits-zero : (count b : ℕ) → digits z f count 0 b ≡ z b
  digits-zero zero b = refl
  digits-zero (suc count) b = refl

  digits_by :
      (count other a b : ℕ)
      → (a ≤ count) × (a ≤ other)
      → digits z f count a b ≡ digits z f other a b
  digits_by count other zero b le = digits-zero count b ∙ sym (digits-zero other b)
  digits_by (suc count) (suc other) (suc a) b le =
      ap (λ d. d * 2 + f (suc a % 2) (b % 2))
        (digits_by count other (suc a / 2) (b / 2) (omega (arith, le), omega (arith, le)))
  digits_by zero other (suc a) b le = absurd (omega (arith, le))
  digits_by (suc count) zero (suc a) b le = absurd (omega (arith, le))

  bitwise_step :
      ((b : ℕ) → z b ≡ z (b / 2) * 2 + f 0 (b % 2))
      → (a b : ℕ) → bitwise z f a b ≡ bitwise z f (a / 2) (b / 2) * 2 + f (a % 2) (b % 2)
  bitwise_step done zero b = done b
  bitwise_step done (suc a) b =
      ap (λ d. d * 2 + f (suc a % 2) (b % 2))
        (digits_by a (suc a / 2) (suc a / 2) (b / 2) (omega arith, omega arith))

bit_or_halves : (a b : ℕ) → bit_or a b ≡ bit_or (a / 2) (b / 2) * 2 + max (a % 2) (b % 2)
bit_or_halves a b =
    bit_or-bitwise a b
    ∙ bitwise_step (λ n. n) max (λ n. omega arith) a b
    ∙ ap (λ d. d * 2 + max (a % 2) (b % 2)) (sym (bit_or-bitwise (a / 2) (b / 2)))

bit_and_halves : (a b : ℕ) → bit_and a b ≡ bit_and (a / 2) (b / 2) * 2 + min (a % 2) (b % 2)
bit_and_halves a b =
    bit_and-bitwise a b
    ∙ bitwise_step (λ n. 0) min (λ n. omega arith) a b
    ∙ ap (λ d. d * 2 + min (a % 2) (b % 2)) (sym (bit_and-bitwise (a / 2) (b / 2)))

pub bit-bit_or : (k a b : ℕ) → bit (bit_or a b) k ≡ max (bit a k) (bit b k)
bit-bit_or zero a b = omega (arith, bit_or_halves a b)
bit-bit_or (suc k) a b =
    let half : bit_or a b / 2 ≡ bit_or (a / 2) (b / 2) = omega (arith, bit_or_halves a b) in
    ap (λ n. bit n k) half ∙ bit-bit_or k (a / 2) (b / 2)

pub bit-bit_and : (k a b : ℕ) → bit (bit_and a b) k ≡ min (bit a k) (bit b k)
bit-bit_and zero a b = omega (arith, bit_and_halves a b)
bit-bit_and (suc k) a b =
    let half : bit_and a b / 2 ≡ bit_and (a / 2) (b / 2) = omega (arith, bit_and_halves a b) in
    ap (λ n. bit n k) half ∙ bit-bit_and k (a / 2) (b / 2)

pub bit-zero : (k : ℕ) → bit 0 k ≡ 0
bit-zero zero = refl
bit-zero (suc k) = bit-zero k

pub bit_le : (a k : ℕ) → bit a k ≤ 1
bit_le a zero = omega arith
bit_le a (suc k) = bit_le (a / 2) k

pub bit-pow_self : (k : ℕ) → bit (2 ^ k) k ≡ 1
bit-pow_self zero = refl
bit-pow_self (suc k) =
    let half : 2 ^ suc k / 2 ≡ 2 ^ k = omega (arith, pow-suc 2 k) in
    ap (λ n. bit n k) half ∙ bit-pow_self k

pub bit-pow_ne : (k j : ℕ) → j ≢ k → bit (2 ^ k) j ≡ 0
bit-pow_ne zero zero h = absurd (h refl)
bit-pow_ne zero (suc j) h = bit-zero j
bit-pow_ne (suc k) zero h = omega (arith, pow-suc 2 k)
bit-pow_ne (suc k) (suc j) h =
    let half : 2 ^ suc k / 2 ≡ 2 ^ k = omega (arith, pow-suc 2 k) in
    ap (λ n. bit n j) half ∙ bit-pow_ne k j (λ e. h (ap suc e))

-- n ones less b, below n.
bit_sub : (n b j : ℕ) → b < 2 ^ n → j < n → bit (2 ^ n - 1 - b) j + bit b j ≡ 1
bit_sub zero b j h lt = absurd (omega arith)
bit_sub (suc n) b zero h lt = omega (arith, h, pow-suc 2 n)
bit_sub (suc n) b (suc j) h lt =
    let half : (2 ^ suc n - 1 - b) / 2 ≡ 2 ^ n - 1 - b / 2 = omega (arith, h, pow-suc 2 n) in
    ap (λ m. bit m j + bit (b / 2) j) half
    ∙ bit_sub n (b / 2) j (omega (arith, h, pow-suc 2 n)) (omega arith)

pub bit-complement : (b j : ℕ) → b < 2 ^ 32 → j < 32 → bit (complement b) j + bit b j ≡ 1
bit-complement b j h lt = bit_sub 32 b j h lt

-- What `v | 1 << k` and `v & ~(1 << k)` do to the bits below 32.
pub bit-set_self : (v k : ℕ) → bit (bit_or v (2 ^ k)) k ≡ 1
bit-set_self v k = omega (arith, bit-bit_or k v (2 ^ k), bit-pow_self k, bit_le v k)

pub bit-set_ne : (v k j : ℕ) → j ≢ k → bit (bit_or v (2 ^ k)) j ≡ bit v j
bit-set_ne v k j h = omega (arith, bit-bit_or j v (2 ^ k), bit-pow_ne k j h)

pow_le : (k n : ℕ) → k ≤ n → 2 ^ k ≤ 2 ^ n
pow_le zero zero h = omega arith
pow_le zero (suc n) h = omega (arith, pow_le zero n (omega arith), pow-suc 2 n)
pow_le (suc k) zero h = absurd (omega arith)
pow_le (suc k) (suc n) h = omega (arith, pow_le k n (omega arith), pow-suc 2 k, pow-suc 2 n)

pub pow_lt_word : (k : ℕ) → k < 32 → 2 ^ k < 2 ^ 32
pow_lt_word k h = omega (arith, pow_le k 31 (omega arith))

pub bit-reset_self : (v k : ℕ) → k < 32 → bit (bit_and v (complement (2 ^ k))) k ≡ 0
bit-reset_self v k h = omega (
  arith,
  bit-bit_and k v (complement (2 ^ k)),
  bit-complement (2 ^ k) k (pow_lt_word k h) h,
  bit-pow_self k,
)

pub bit-reset_ne :
    (v k j : ℕ) → k < 32 → j < 32 → j ≢ k → bit (bit_and v (complement (2 ^ k))) j ≡ bit v j
bit-reset_ne v k j h h' ne = omega (
  arith,
  bit-bit_and j v (complement (2 ^ k)),
  bit-complement (2 ^ k) j (pow_lt_word k h) h',
  bit-pow_ne k j ne,
  bit_le v j,
)

-- The lower k bits of a number.
abbrev pub low : ℕ → ℕ → ℕ
low a zero = 0
low a (suc k) = low (a / 2) k * 2 + a % 2

digits-none : (count a : ℕ) → digits (λ n. 0) min count a 0 ≡ 0
digits-none zero a = refl
digits-none (suc count) zero = refl
digits-none (suc count) (suc a) = omega (arith, digits-none count (suc a / 2))

pub bit_and-mask : (k a : ℕ) → bit_and a (2 ^ k - 1) ≡ low a k
bit_and-mask zero a = bit_and-bitwise a 0 ∙ digits-none a a
bit_and-mask (suc k) a =
    let positive = pow_le 0 k (omega arith) in
    let half : (2 ^ suc k - 1) / 2 ≡ 2 ^ k - 1 = omega (arith, pow-suc 2 k, positive) in
    let last : (2 ^ suc k - 1) % 2 ≡ 1 = omega (arith, pow-suc 2 k, positive) in
    let rest = ap (λ n. bit_and (a / 2) n) half ∙ bit_and-mask k (a / 2) in
    omega (arith, bit_and_halves a (2 ^ suc k - 1), last, rest)

double : (b y x : ℕ) → y ≡ x * 2 → b * y ≡ b * x * 2
double b y x e = ap (λ n. b * n) e ∙ grind arith

-- Two numbers without common bits, the one below 2 ^ k and the other a multiple of it.
pub bit_or-apart : (k a b : ℕ) → a < 2 ^ k → bit_or a (b * 2 ^ k) ≡ a + b * 2 ^ k
bit_or-apart zero zero b h =
    let none_here : bit_or 0 (b * 2 ^ 0) ≡ b * 2 ^ 0 = bit_or-bitwise 0 (b * 2 ^ 0) in
    omega (arith, none_here)
bit_or-apart zero (suc a) b h = absurd (omega arith)
bit_or-apart (suc k) a b h =
    let twice : b * 2 ^ suc k ≡ b * 2 ^ k * 2 =
      double b (2 ^ suc k) (2 ^ k) (omega (arith, pow-suc 2 k)) in
    let half : b * 2 ^ suc k / 2 ≡ b * 2 ^ k = omega (arith, twice) in
    let rest =
      ap (λ n. bit_or (a / 2) n) half ∙ bit_or-apart k (a / 2) b (omega (arith, h, pow-suc 2 k)) in
    omega (arith, bit_or_halves a (b * 2 ^ suc k), rest, twice)

digits-right : (count a : ℕ) → a ≤ count → digits (λ n. n) max count a 0 ≡ a
digits-right zero zero h = refl
digits-right zero (suc a) h = absurd (omega arith)
digits-right (suc count) zero h = refl
digits-right (suc count) (suc a) h = omega (arith, digits-right count (suc a / 2) (omega arith))

-- The same, with the multiple first.
pub bit_or-above : (k a b : ℕ) → a < 2 ^ k → bit_or (b * 2 ^ k) a ≡ b * 2 ^ k + a
bit_or-above zero zero b h =
    let all_here : bit_or (b * 2 ^ 0) 0 ≡ b * 2 ^ 0 =
      bit_or-bitwise (b * 2 ^ 0) 0 ∙ digits-right (b * 2 ^ 0) (b * 2 ^ 0) (omega arith) in
    omega (arith, all_here)
bit_or-above zero (suc a) b h = absurd (omega arith)
bit_or-above (suc k) a b h =
    let twice : b * 2 ^ suc k ≡ b * 2 ^ k * 2 =
      double b (2 ^ suc k) (2 ^ k) (omega (arith, pow-suc 2 k)) in
    let half : b * 2 ^ suc k / 2 ≡ b * 2 ^ k = omega (arith, twice) in
    let rest =
      ap (λ n. bit_or n (a / 2)) half ∙ bit_or-above k (a / 2) b (omega (arith, h, pow-suc 2 k)) in
    omega (arith, bit_or_halves (b * 2 ^ suc k) a, rest, twice)
