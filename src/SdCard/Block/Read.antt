-- ===== src/SdCard/Block/Read.antt =====
-- What a read of blocks (HtcLeoPkg/GPLDrivers/SdCardDxe/SdCardDxe.c) leaves in the buffer and reports.
use lgoptimus_l3pkg.Common.{
  ℕ, zero, suc, ◌+◌, ◌-◌, ◌*◌, ◌/◌, ◌%◌, ◌^◌, ◌≤◌, ◌<◌, ◌≡◌, refl, ap, ◌∙◌, ◌⊎◌, inl, Bool, true,
  false, arith, ltb, ◌==◌, if◌then◌else◌,
}
use lgoptimus_l3pkg.Common.Io.{Io}
use lgoptimus_l3pkg.GptTimer.{Gpt}
use lgoptimus_l3pkg.SdCard.{Card, ok, failed, Run, pure, follow, ◌>>=◌}
use lgoptimus_l3pkg.SdCard.Block.{
  success, read_a_block, bread_loop, mmc_bread, transfer, mmc_read_internal, status_of,
  mmchs_read_blocks, attempt, attempted,
}

module _ {V : Type 0} (io : Io V) (gpt : Gpt) (fuel : ℕ) where
  -- The buffer has the words of block n at dst, and outside of it what it had.
  abbrev pub Holds : (ℕ → ℕ → ℕ) → ℕ → ℕ → Card V → Card V → Type 0
  Holds content n dst c c' =
      ((i : ℕ) → i < 128 → c'.buffer (dst + 4 * i) ≡ content n i)
      × ((a : ℕ) → (a < dst) ⊎ (dst + 512 ≤ a) → c'.buffer a ≡ c.buffer a)

  -- A card whose blocks below `limit` can be read while it is in a state of `IsReady`.
  pub record Serves (IsReady : Card V → Type 0) (limit : ℕ) (content : ℕ → ℕ → ℕ) : Type 0 where
    pub serves :
        (n dst : ℕ) (c : Card V)
        → n < limit
        → IsReady c
        → (c' : Card V) × (read_a_block io gpt fuel n dst c ≡ (ok tt, c'))
          × IsReady c'
          × (c'.block_size ≡ c.block_size)
          × Holds content n dst c c'

  pub bind-ok :
      {A B : Type 0} (m : Run V A) (f : A → Run V B) (a : A) (c c' : Card V)
      → m c ≡ (ok a, c')
      → (m >>= f) c ≡ f a c'
  bind-ok m f a c c' e = ap (λ r. follow r f) e

  pub bread_by :
      (start cnt n dst : ℕ) (c c' : Card V) (done : Bool)
      → start ≡ n
      → cnt ≡ 1
      → attempt (read_a_block io gpt fuel n dst) c ≡ (ok done, c')
      → mmc_bread io gpt fuel start cnt dst c ≡ (ok (if done then 1 else 0), c')
  unfolding mmc_bread
  bread_by start cnt n dst c c' true e e' reads =
      rw (e, e')
        (bind-ok (bread_loop io gpt fuel 1 n dst) (λ done. pure (if done then 1 else 0)) true c c'
          (bind-ok (attempt (read_a_block io gpt fuel n dst)) _ true c c' reads))
  bread_by start cnt n dst c c' false e e' reads =
      rw (e, e')
        (bind-ok (bread_loop io gpt fuel 1 n dst) (λ done. pure (if done then 1 else 0)) false c c'
          (bind-ok (attempt (read_a_block io gpt fuel n dst)) _ false c c' reads))

  transfer_last :
      (size m addr len dst r : ℕ) (c c' : Card V)
      → ltb size len ≡ false
      → (len == 0) ≡ false
      → mmc_bread io gpt fuel (addr / size) (len / size) dst c ≡ (ok r, c')
      → transfer io gpt fuel size (suc m) addr len dst c ≡ (ok 1, c')
  transfer_last size m addr len dst r c c' e e' reads =
      rw (e, e') (bind-ok (mmc_bread io gpt fuel (addr / size) (len / size) dst) _ r c c' reads)

  transfer_more :
      (size m addr len dst r : ℕ) (c c' : Card V)
      → ltb size len ≡ true
      → (r == 0) ≡ false
      → mmc_bread io gpt fuel (addr / size) (size / size) dst c ≡ (ok r, c')
      → transfer io gpt fuel size (suc m) addr len dst c
        ≡ transfer io gpt fuel size m ((addr + size) % 2 ^ 32) (len - size) (dst + size) c'
  transfer_more size m addr len dst r c c' e more reads = rw e (
      bind-ok (mmc_bread io gpt fuel (addr / size) (size / size) dst) _ r c c' reads ∙ rw more refl)

  read_internal_by :
      (addr len : ℕ) (c : Card V)
      → c.block_size ≡ 512
      → mmc_read_internal io gpt fuel addr len c ≡ transfer io gpt fuel 512 (suc len) addr len 0 c
  unfolding mmc_read_internal
  read_internal_by addr len c size = ap (λ s. transfer io gpt fuel s (suc len) addr len 0 c) size

  -- A request that passes the guards ends with the status for what mmc_read_internal returns.
  read_blocks_by :
      (lba len r : ℕ) (c c' : Card V)
      → (len % c.block_size == 0) ≡ true
      → (len == 0) ≡ false
      → mmc_read_internal io gpt fuel (lba * 512 % 2 ^ 32) len c ≡ (ok r, c')
      → mmchs_read_blocks io gpt fuel lba len true c ≡ status_of io gpt fuel r c'
  unfolding mmchs_read_blocks
  read_blocks_by lba len r c c' whole more reads =
      rw (whole, more)
        (bind-ok (mmc_read_internal io gpt fuel (lba * 512 % 2 ^ 32) len) (status_of io gpt fuel) r
          c c' reads)

  -- The buffer has the words of `count` blocks from block n on at dst.
  abbrev pub HoldsAll : (ℕ → ℕ → ℕ) → ℕ → ℕ → ℕ → Card V → Type 0
  HoldsAll content n count dst c =
      (b i : ℕ) → b < count → i < 128 → c.buffer (dst + 512 * b + 4 * i) ≡ content (n + b) i

  module _ (IsReady : Card V → Type 0) (limit : ℕ) (content : ℕ → ℕ → ℕ)
      (card : Serves IsReady limit content) where
    -- A first block, and the others behind it.
    Holds-more :
        (n count dst : ℕ) (c c1 c2 : Card V)
        → Holds content n dst c c1
        → HoldsAll content (suc n) count (dst + 512) c2
        → ((a : ℕ) → a < dst + 512 → c2.buffer a ≡ c1.buffer a)
        → HoldsAll content n (suc count) dst c2
    Holds-more n count dst c c1 c2 first rest below zero i lt small =
        let place : dst + 512 * 0 + 4 * i ≡ dst + 4 * i = omega arith in
        let block : n + 0 ≡ n = omega arith in
        rw (place, block) (below (dst + 4 * i) (omega arith) ∙ first.0 i small)
    Holds-more n count dst c c1 c2 first rest below (suc b) i lt small =
        let place : dst + 512 * suc b + 4 * i ≡ dst + 512 + 512 * b + 4 * i = omega arith in
        let block : n + suc b ≡ suc n + b = omega arith in
        rw (place, block) (rest b i (omega arith) small)

    -- The loop over `suc count` blocks.
    transfer_lem :
        (count m n addr len dst : ℕ) (c : Card V)
        → count < m
        → addr ≡ n * 512
        → len ≡ suc count * 512
        → n + count < limit
        → n + count < 2 ^ 23
        → IsReady c
        → (c' : Card V) × (transfer io gpt fuel 512 m addr len dst c ≡ (ok 1, c'))
          × HoldsAll content n (suc count) dst c'
          × ((a : ℕ) → a < dst → c'.buffer a ≡ c.buffer a)
    transfer_lem count zero n addr len dst c h e e' low word ready = absurd (omega arith)
    transfer_lem zero (suc m) n addr len dst c h e e' low word ready =
        let (c1, reads, ready1, size1, holds) = card.serves n dst c (omega (arith, low)) ready in
        (
          c1,
          transfer_last 512 m addr len dst 1 c c1 (ground (arith, e')) (ground (arith, e')) (
              bread_by (addr / 512) (len / 512) n dst c c1 true (omega (arith, e))
                (omega (arith, e')) (ap attempted reads)),
          λ b i lt small.
              let place : dst + 512 * b + 4 * i ≡ dst + 4 * i = omega arith in
              let block : n + b ≡ n = omega arith in rw (place, block) (holds.0 i small),
          λ a lt. holds.1 a (inl lt),
        )
    transfer_lem (suc count) (suc m) n addr len dst c h e e' low word ready =
        let (c1, reads, ready1, size1, holds) = card.serves n dst c (omega (arith, low)) ready in
        let (c2, ends, rest, below) =
          transfer_lem count m (suc n) ((addr + 512) % 2 ^ 32) (len - 512) (dst + 512) c1
            (omega arith) (omega (arith, e, word)) (omega (arith, e')) (omega (arith, low))
            (omega (arith, word)) ready1 in
        (
          c2,
          transfer_more 512 m addr len dst 1 c c1 (ground (arith, e')) refl (
                bread_by (addr / 512) (512 / 512) n dst c c1 true (omega (arith, e)) refl
                  (ap attempted reads))
              ∙ ends,
          Holds-more n (suc count) dst c c1 c2 holds rest below,
          λ a lt. below a (omega arith) ∙ holds.1 a (inl lt),
        )

    -- A read of whole blocks of 512 bytes, which the card serves and whose byte addresses fit in 32
    -- bits, succeeds, and the buffer has the words of the blocks in order.
    pub mmchs_read_blocks_lem :
        (lba count : ℕ) (c : Card V)
        → c.block_size ≡ 512
        → IsReady c
        → lba + count < limit
        → lba + count < 2 ^ 23
        → (c' : Card V) × (mmchs_read_blocks io gpt fuel lba (suc count * 512) true c
            ≡ (ok success, c'))
          × HoldsAll content lba (suc count) 0 c'
    mmchs_read_blocks_lem lba count c size ready low word =
        let len = suc count * 512 in
        let (c', ends, holds, below) =
          transfer_lem count (suc len) lba (lba * 512 % 2 ^ 32) len 0 c (omega arith)
            (omega (arith, word)) refl low word ready in
        let whole : (len % c.block_size == 0) ≡ true = ap (λ s. len % s == 0) size ∙ ground arith in
        (
          c',
          read_blocks_by lba len 1 c c' whole (ground arith)
              (read_internal_by (lba * 512 % 2 ^ 32) len c size ∙ ends),
          holds,
        )

  -- A request for one block reports success also if the block cannot be read: MmcReadInternal
  -- returns 1 in both cases after its last call.
  pub one_block_succeeds :
      (lba : ℕ) (c c' : Card V)
      → c.block_size ≡ 512
      → read_a_block io gpt fuel (lba % 2 ^ 23) 0 c ≡ (failed, c')
      → mmchs_read_blocks io gpt fuel lba 512 true c ≡ (ok success, c')
  one_block_succeeds lba c c' size fails =
      let whole : (512 % c.block_size == 0) ≡ true = ap (λ s. 512 % s == 0) size in
      let addr = lba * 512 % 2 ^ 32 in
      read_blocks_by lba 512 1 c c' whole refl (
        read_internal_by addr 512 c size
        ∙ transfer_last 512 512 addr 512 0 0 c c' refl refl (
            bread_by (addr / 512) 1 (lba % 2 ^ 23) 0 c c' false (omega arith) refl
              (ap attempted fails)))

  -- The address of a block is cut to 32 bits: a request for block 2 ^ 23 or a later one, which a card
  -- of more than 4 GB has, reads the block with the lower 23 bits of its number.
  pub mmchs_read_blocks_wraps :
      (lba len : ℕ) (given : Bool) (c : Card V)
      → mmchs_read_blocks io gpt fuel lba len given c
        ≡ mmchs_read_blocks io gpt fuel (lba % 2 ^ 23) len given c
  unfolding mmchs_read_blocks
  mmchs_read_blocks_wraps lba len given c =
      let same : lba * 512 % 2 ^ 32 ≡ (lba % 2 ^ 23) * 512 % 2 ^ 32 = omega arith in rw same refl
