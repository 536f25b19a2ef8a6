-- ===== src/Tests/Irq.antt =====
-- The interrupt controller, at concrete inputs.
use native.Mathlib.Nat.{pow-suc}
use lgoptimus_l3pkg.Common.{
  ℕ, zero, suc, ◌+◌, ◌-◌, ◌%◌, ◌^◌, ◌≡◌, refl, sym, ap, ◌∙◌, inl, inr, Bool, true, false, not, ◌&&◌,
  ◌||◌, Option, none, some, List, [], ◌∷◌, arith, ltb, ◌==◌, if◌then◌else◌, Bool-cases, get_or, set,
  replicate, All,
}
use lgoptimus_l3pkg.Interrupt.{
  success, Vic, Irqs, enable_interrupt_source, disable_interrupt_source, register_interrupt_source,
}
use lgoptimus_l3pkg.Interrupt.Table.{
  Request, InTable, Implements, register_all, registry_run, registry_refines,
}
use lgoptimus_l3pkg.Interrupt.Enable.{EnableLaws, enable_aliases, unregister_enables}

-- A controller that is its 64 enable bits. It reads 5 everywhere.
abbrev pub Bits : Type 0
Bits = ℕ → Bool

abbrev second_bit : ℕ → ℕ → Bool
second_bit n x = ltb 31 n && 2 ^ (n - 32) == x

abbrev write_bits : Bits → ℕ → ℕ → Bits
write_bits v reg x n =
    if reg == 0x30
    then (2 ^ n == x) || v n
    else if reg == 0x34
    then second_bit n x || v n
    else if reg == 0x20
    then not (2 ^ n == x) && v n
    else if reg == 0x24
    then not (second_bit n x) && v n
    else if reg == 0x10 && x == 0
    then not (ltb n 32) && v n
    else if reg == 0x14 && x == 0
    then ltb n 32 && v n
    else v n

abbrev pub bits : Vic Bits
bits = record { read = λ v reg. 5; write = write_bits }

pow_inj : (k n : ℕ) → 2 ^ k ≡ 2 ^ n → k ≡ n
pow_inj zero zero e = refl
pow_inj zero (suc n) e = absurd (omega (arith, pow-suc 2 n, e))
pow_inj (suc k) zero e = absurd (omega (arith, pow-suc 2 k, e))
pow_inj (suc k) (suc n) e = ap suc (pow_inj k n (omega (arith, pow-suc 2 k, pow-suc 2 n, e)))

same_bit : (n k : ℕ) → (2 ^ n == 2 ^ k) ≡ (n == k)
same_bit n k = elim (Bool-cases (n == k)) [
  | inl e ↦ let h : n ≡ k = ground arith in rw h (ground arith)
  | inr e ↦ elim (Bool-cases (2 ^ n == 2 ^ k)) [
    | inl s ↦ let h : n ≡ k = pow_inj n k (ground (arith, s)) in absurd (ground (arith, h, e))
    | inr s ↦ s ∙ sym e
  ]
]

same_second_bit : (n k : ℕ) → second_bit n (2 ^ k) ≡ (n == 32 + k)
same_second_bit n k = rw (same_bit (n - 32) k) (ground arith)

pub bits-laws : EnableLaws bits (λ v n. v n)
bits-laws = record {
  set0 = λ v k n h. ap (λ b. b || v n) (same_bit n k);
  set1 = λ v k n h. ap (λ b. b || v n) (same_second_bit n k);
  clear0 = λ v k n h. ap (λ b. not b && v n) (same_bit n k);
  clear1 = λ v k n h. ap (λ b. not b && v n) (same_second_bit n k);
  zero0 = λ v n. refl;
  zero1 = λ v n. refl;
  other = λ v reg x n h. ground (arith, h);
}

abbrev pub no_sources : Bits
no_sources n = false

abbrev pub empty_table : Irqs Bits
empty_table = record { handlers = replicate 332 none; hw = no_sources }

abbrev requests : List Request
requests = (5, some 9) ∷ (5, some 8) ∷ (5, none) ∷ (7, none) ∷ (400, some 1) ∷ []

requests-InTable : All InTable requests
requests-InTable = (
  (λ e. omega (arith, e)),
  (
    (λ e. omega (arith, e)),
    ((λ e. omega (arith, e)), ((λ e. omega (arith, e)), ((λ e. omega (arith, e)), tt))),
  ),
)

pub get_or-none : (n i : ℕ) → get_or (replicate {A = Option ℕ} n none) i none ≡ none
get_or-none zero i = refl
get_or-none (suc n) zero = refl
get_or-none (suc n) (suc i) = get_or-none n i

empty_table-Implements : Implements bits empty_table (λ n. none)
empty_table-Implements = (refl, λ n h. get_or-none 332 n)

registry_refines_example :
    let (statuses, s) = register_all bits empty_table requests in
    let (statuses', r) = registry_run (λ n. none) requests in
    (statuses ≡ statuses') × Implements bits s r
registry_refines_example =
    registry_refines bits empty_table (λ n. none) requests requests-InTable empty_table-Implements

abbrev busy_table : Irqs Bits
busy_table = record empty_table { handlers = set (replicate 332 none) 5 (some 9) }

unregister_enables_example :
    let (status, s) = register_interrupt_source bits 5 none busy_table in
    (status ≡ success) × (get_or s.handlers 5 none ≡ none) × (s.hw 5 ≡ true)
unregister_enables_example =
    unregister_enables bits (λ v n. v n) bits-laws busy_table 5 9 refl (omega arith) refl

enable_aliases_example :
    (enable_interrupt_source bits 70 no_sources
      ≡ enable_interrupt_source bits (32 + 70 % 32) no_sources)
    × (disable_interrupt_source bits 70 no_sources
        ≡ disable_interrupt_source bits (32 + 70 % 32) no_sources)
enable_aliases_example = enable_aliases bits 70 no_sources (omega arith) (omega arith)
