-- ===== src/SdCard/Setup/Csd.antt =====
-- mmc_decode_csd (HtcLeoPkg/GPLDrivers/SdCardDxe/SdCardDxe.c) against the CSD register as one number of
-- 128 bits.
use Prim.Native.Nat.{bit_and, bit_or}
use lgoptimus_l3pkg.Common.{
  ℕ, ◌+◌, ◌-◌, ◌*◌, ◌/◌, ◌%◌, ◌^◌, ◌<◌, ◌≡◌, refl, sym, ap, ◌∙◌, false, arith, ◌==◌, if◌then◌else◌,
}
use lgoptimus_l3pkg.Common.Words.{bit_and-mask, bit_or-apart}
use lgoptimus_l3pkg.SdCard.{Card, Response}
use lgoptimus_l3pkg.SdCard.Setup.{unstuff_bits, mmc_decode_csd}

-- The words of a response, the first one highest.
abbrev pub number : Response → ℕ
number r = r.r0 * 2 ^ 96 + r.r1 * 2 ^ 64 + r.r2 * 2 ^ 32 + r.r3

abbrev pub field : ℕ → ℕ → ℕ → ℕ
field n start size = n / 2 ^ start % 2 ^ size

abbrev pub AreWords : Response → Type 0
AreWords r = (r.r0 < 2 ^ 32) × (r.r1 < 2 ^ 32) × (r.r2 < 2 ^ 32) × (r.r3 < 2 ^ 32)

module _ (r : Response) (words : AreWords r) where
  structure : unstuff_bits r 126 2 ≡ field (number r) 126 2
  unfolding unstuff_bits
  structure = bit_and-mask 2 (r.r0 / 2 ^ 30) ∙ omega (arith, words)

  read_bl_len : unstuff_bits r 80 4 ≡ field (number r) 80 4
  unfolding unstuff_bits
  read_bl_len = bit_and-mask 4 (r.r1 / 2 ^ 16) ∙ omega (arith, words)

  c_size_mult : unstuff_bits r 47 3 ≡ field (number r) 47 3
  unfolding unstuff_bits
  c_size_mult = bit_and-mask 3 (r.r2 / 2 ^ 15) ∙ omega (arith, words)

  c_size_2 : unstuff_bits r 48 16 ≡ field (number r) 48 16
  unfolding unstuff_bits
  c_size_2 = bit_and-mask 16 (r.r2 / 2 ^ 16) ∙ omega (arith, words)

  c_size : unstuff_bits r 62 12 ≡ field (number r) 62 12
  unfolding unstuff_bits
  c_size =
      let shifted : r.r1 * 2 ^ 2 % 2 ^ 32 ≡ r.r1 % 2 ^ 30 * 2 ^ 2 = omega arith in
      let joined : bit_or (r.r2 / 2 ^ 30) (r.r1 * 2 ^ 2 % 2 ^ 32)
          ≡ r.r2 / 2 ^ 30 + r.r1 * 2 ^ 2 % 2 ^ 32 =
        ap (bit_or (r.r2 / 2 ^ 30)) shifted
        ∙ bit_or-apart 2 (r.r2 / 2 ^ 30) (r.r1 % 2 ^ 30) (omega (arith, words))
        ∙ ap (λ n. r.r2 / 2 ^ 30 + n) (sym shifted) in
      ap (λ n. bit_and n (2 ^ 12 - 1)) joined
      ∙ bit_and-mask 12 (r.r2 / 2 ^ 30 + r.r1 * 2 ^ 2 % 2 ^ 32)
      ∙ omega (arith, words)

  decode_words :
      {V : Type 0} (c : Card V)
      → mmc_decode_csd r c ≡ (
          let n = number r in
          let size = 2 ^ field n 80 4 in
          if field n 126 2 == 0
          then record c {
            block_size = size;
            last_block = (1 + field n 62 12) * 2 ^ (field n 47 3 + 2);
          }
          else if field n 126 2 == 1
          then record c { block_size = size; last_block = (1 + field n 48 16) * 1024 }
          else c)
  unfolding mmc_decode_csd
  decode_words c = rw (structure, read_bl_len, c_size, c_size_mult, c_size_2) refl

-- mmc_decode_csd reads the fields of the CSD register: with version 1 of it, the block length from
-- bit 80 and the number of blocks from C_SIZE and C_SIZE_MULT; with version 2 the number of blocks
-- from the lower 16 bits of C_SIZE; with another version it leaves the media. LastBlock is the number
-- of the blocks, not that of the last one.
pub mmc_decode_csd_lem :
    {V : Type 0} (r : Response) (c : Card V)
    → AreWords r
    → let n = number r in
      let c' = mmc_decode_csd r c in
      (field n 126 2 ≡ 0
        → (c'.block_size ≡ 2 ^ field n 80 4)
          × (c'.last_block ≡ (1 + field n 62 12) * 2 ^ (field n 47 3 + 2)))
      × (field n 126 2 ≡ 1
          → (c'.block_size ≡ 2 ^ field n 80 4) × (c'.last_block ≡ (1 + field n 48 16) * 1024))
      × (1 < field n 126 2 → c' ≡ c)
mmc_decode_csd_lem r c words = (
  λ v. rw (decode_words r words c, v) (refl, refl),
  λ v. rw (decode_words r words c, v) (refl, refl),
  λ v.
      let not_0 : (field (number r) 126 2 == 0) ≡ false = ground arith in
      let not_1 : (field (number r) 126 2 == 1) ≡ false = ground arith in
      rw (decode_words r words c, not_0, not_1) refl,
)
