-- ===== src/Interrupt/Enable.antt =====
-- What enabling, disabling and unregistering (HtcLeoPkg/Drivers/InterruptDxe/InterruptDxe.c) do to the
-- sources that the controller has enabled.
use lgoptimus_l3pkg.Common.{
  ℕ, ◌+◌, ◌%◌, ◌^◌, ◌≤◌, ◌<◌, ◌≡◌, refl, ap, ◌∙◌, ◌⊎◌, inl, inr, Bool, true, false, not, ◌&&◌, ◌||◌,
  none, some, arith, ltb, ◌==◌, Bool-cases, length, get_or, get_or-set_self,
}
use lgoptimus_l3pkg.Interrupt.{
  success, nr_irqs, vic_int_en0, vic_int_en1, vic_int_enclear0, vic_int_enclear1, vic_int_enset0,
  vic_int_enset1, Vic, Irqs, enable_interrupt_source, disable_interrupt_source,
  register_interrupt_source, deinit_interupts, exit_boot_services_event,
}
use lgoptimus_l3pkg.Interrupt.Table.{register_by}

mod_lt : (n : ℕ) → n % 32 < 32
mod_lt n = omega arith

-- A source over 31 that the guard lets through enables the source of the second register whose bit
-- it shares: sources from 64 on enable one of 32 to 63, with success.
pub enable_aliases :
    {V : Type 0} (vic : Vic V) (source : ℕ) (v : V)
    → 32 ≤ source
    → source ≤ nr_irqs
    → (enable_interrupt_source vic source v ≡ enable_interrupt_source vic (32 + source % 32) v)
      × (disable_interrupt_source vic source v ≡ disable_interrupt_source vic (32 + source % 32) v)
unfolding enable_interrupt_source disable_interrupt_source
enable_aliases vic source v low high =
    let bits : (32 + source % 32) % 32 ≡ source % 32 = omega arith in
    let in_range : ltb nr_irqs source ≡ false = ground arith in
    let in_range' : ltb nr_irqs (32 + source % 32) ≡ false = ground (arith, mod_lt source) in
    let second : ltb 31 source ≡ true = ground arith in
    let second' : ltb 31 (32 + source % 32) ≡ true = ground arith in
    rw (bits, in_range, in_range', second, second') (refl, refl)

own_bit : (n : ℕ) (b : Bool) → (n == n) || b ≡ true
own_bit n b = ground arith

-- The controller's enable bits: a write of one bit to ENSET or ENCLEAR sets or clears it, a zero
-- written to EN clears a register's, and the other registers do not touch them.
pub record EnableLaws {V : Type 0} (vic : Vic V) (enabled : V → ℕ → Bool) : Type 0 where
  pub set0 :
      (v : V) (k n : ℕ)
      → k < 32
      → enabled (vic.write v vic_int_enset0 (2 ^ k)) n ≡ (n == k) || enabled v n
  pub set1 :
      (v : V) (k n : ℕ)
      → k < 32
      → enabled (vic.write v vic_int_enset1 (2 ^ k)) n ≡ (n == 32 + k) || enabled v n
  pub clear0 :
      (v : V) (k n : ℕ)
      → k < 32
      → enabled (vic.write v vic_int_enclear0 (2 ^ k)) n ≡ not (n == k) && enabled v n
  pub clear1 :
      (v : V) (k n : ℕ)
      → k < 32
      → enabled (vic.write v vic_int_enclear1 (2 ^ k)) n ≡ not (n == 32 + k) && enabled v n
  pub zero0 :
      (v : V) (n : ℕ) → enabled (vic.write v vic_int_en0 0) n ≡ not (ltb n 32) && enabled v n
  pub zero1 : (v : V) (n : ℕ) → enabled (vic.write v vic_int_en1 0) n ≡ ltb n 32 && enabled v n
  pub other :
      (v : V) (reg x n : ℕ)
      → (reg < vic_int_en0) ⊎ (vic_int_enset1 < reg)
      → enabled (vic.write v reg x) n ≡ enabled v n

module _ {V : Type 0} (vic : Vic V) (enabled : V → ℕ → Bool) (laws : EnableLaws vic enabled) where
  -- For the 64 sources that the controller has, EnableInterruptSource and DisableInterruptSource
  -- succeed, and change whether that source is enabled and no other.
  pub enable_lem :
      (source n : ℕ) (v : V)
      → source < 64
      → let (status, on) = enable_interrupt_source vic source v in
        let (status', off) = disable_interrupt_source vic source v in
        (status ≡ success)
        × (status' ≡ success)
        × (enabled on n ≡ (n == source) || enabled v n)
        × (enabled off n ≡ not (n == source) && enabled v n)
  unfolding enable_interrupt_source disable_interrupt_source
  enable_lem source n v h = elim (Bool-cases (ltb 31 source)) [
    | inl e ↦
        let same : 32 + source % 32 ≡ source = ground arith in
        let in_range : ltb nr_irqs source ≡ false = ground arith in
        rw (in_range, e)
          (
            refl,
            refl,
            laws.set1 v (source % 32) n (mod_lt source) ∙ ap (λ x. (n == x) || enabled v n) same,
            laws.clear1 v (source % 32) n (mod_lt source)
                ∙ ap (λ x. not (n == x) && enabled v n) same,
          )
    | inr e ↦
        let same : source % 32 ≡ source = ground arith in
        let in_range : ltb nr_irqs source ≡ false = ground arith in
        rw (in_range, e)
          (
            refl,
            refl,
            laws.set0 v (source % 32) n (mod_lt source) ∙ ap (λ x. (n == x) || enabled v n) same,
            laws.clear0 v (source % 32) n (mod_lt source)
                ∙ ap (λ x. not (n == x) && enabled v n) same,
          )
  ]

  -- Unregistering the handler of one of the 64 sources succeeds and empties its entry, and leaves
  -- the source enabled.
  pub unregister_enables :
      (s : Irqs V) (source h : ℕ)
      → length s.handlers ≡ nr_irqs
      → source < 64
      → get_or s.handlers source none ≡ some h
      → let (status, s') = register_interrupt_source vic source none s in
        (status ≡ success) × (get_or s'.handlers source none ≡ none) × (enabled s'.hw source ≡ true)
  unregister_enables s source h len low busy =
      rw (register_by vic s source (some h) none (omega arith) busy) (
        refl,
        get_or-set_self s.handlers source none none (omega (arith, len)),
        (enable_lem source source s.hw low).2 ∙ own_bit source (enabled s.hw source),
      )

  none_left : (n : ℕ) (b : Bool) → ltb n 32 && (not (ltb n 32) && b) ≡ false
  none_left n b = ground arith

  -- After ExitBootServices no source is enabled, whatever was enabled before.
  pub exit_masks : (v : V) (n : ℕ) → enabled (exit_boot_services_event vic v) n ≡ false
  unfolding exit_boot_services_event deinit_interupts
  exit_masks v n =
      laws.other _ _ _ n (inr (omega arith))
      ∙ laws.other _ _ _ n (inr (omega arith))
      ∙ laws.other _ _ _ n (inr (omega arith))
      ∙ laws.other _ _ _ n (inl (omega arith))
      ∙ laws.other _ _ _ n (inl (omega arith))
      ∙ laws.other _ _ _ n (inr (omega arith))
      ∙ laws.other _ _ _ n (inr (omega arith))
      ∙ laws.zero1 _ n
      ∙ ap (λ b. ltb n 32 && b) (laws.zero0 _ n)
      ∙ none_left n _
