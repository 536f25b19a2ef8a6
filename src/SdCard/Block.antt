-- ===== src/SdCard/Block.antt =====
-- Reading blocks, of HtcLeoPkg/GPLDrivers/SdCardDxe/SdCardDxe.c: from the block protocol down to the
-- controller's queue. A pointer into the caller's buffer is its byte offset.
pub mod Read
use lgoptimus_l3pkg.Common.{
  ℕ, zero, suc, ◌+◌, ◌-◌, ◌*◌, ◌/◌, ◌%◌, ◌^◌, Bool, true, false, not, Option, none, some, ltb, ◌==◌,
  if◌then◌else◌,
}
use lgoptimus_l3pkg.Common.Io.{Io}
use lgoptimus_l3pkg.GptTimer.{Gpt, micro_second_delay}
use lgoptimus_l3pkg.SdCard.{
  Card, Outcome, ok, failed, stuck, Run, pure, ◌>>=◌, ◌>>◌, write, finished, send, data_control,
  check_clear_read_status, respond, mci_data_timer, mci_data_length, rd_data_timeout,
}
use lgoptimus_l3pkg.SdCard.Setup.{poll_word, words_left}

pub data BlockStatus : Type 0 where
  success bad_buffer_size invalid_parameter device_error : BlockStatus

-- `*read_buffer = x`.
abbrev pub store : {V : Type 0} → ℕ → Option ℕ → Card V → Card V
store dst none c = c
store dst (some x) c = record c { buffer = λ a. if a == dst then x else c.buffer a }

abbrev pub moved : ℕ → Option ℕ → ℕ
moved dst none = dst
moved dst (some x) = dst + 4

abbrev pub word_of : Outcome (Option ℕ) → Option ℕ
word_of (ok w) = w
word_of failed = none
word_of stuck = none

abbrev pub never : {V A : Type 0} → Run V A
never c = (stuck, c)

-- Whether a function that returns 0 or 1 returned 1.
abbrev pub attempted : {V A : Type 0} → Outcome A × Card V → Outcome Bool × Card V
attempted (ok a, c) = (ok true, c)
attempted (failed, c) = (ok false, c)
attempted (stuck, c) = (stuck, c)

abbrev pub attempt : {V A : Type 0} → Run V A → Run V Bool
attempt m c = attempted (m c)

module _ {V : Type 0} (io : Io V) (gpt : Gpt) where
  -- `while (byte_count < BLOCK_SIZE)`, with n words left.
  abbrev pub fill : ℕ → ℕ → ℕ → Run V Unit
  fill fuel zero dst c = (ok tt, c)
  fill zero (suc n) dst c = (stuck, c)
  fill (suc fuel) (suc n) dst c =
      let (o, c1) = poll_word io gpt c in
      let w = word_of o in
      let rest = fill fuel (words_left io gpt n o) (moved dst w) (store dst w c1) in
      elim o [ ok x ↦ rest | failed ↦ (failed, c1) | stuck ↦ (stuck, c1) ]

  abbrev pub address_of : ℕ → Card V → ℕ
  address_of block_number c = if c.high_capacity then block_number else block_number * 512 % 2 ^ 32

  unfoldable pub read_a_block : ℕ → ℕ → ℕ → Run V Unit
  read_a_block fuel block_number dst = do
    address ← (λ c. (ok (address_of block_number c), c))
    write io gpt mci_data_timer rd_data_timeout
    write io gpt mci_data_length 512
    data_control io gpt 512
    send io gpt fuel (17 + respond) address
    fill fuel 128 dst
    check_clear_read_status io gpt fuel

  -- The do-while loop, with the rounds that blocks_todo leaves.
  abbrev pub bread_loop : ℕ → ℕ → ℕ → ℕ → Run V Bool
  bread_loop fuel zero start dst = pure true
  bread_loop fuel (suc rounds) start dst = do
    done ← attempt (read_a_block fuel start dst)
    if done then bread_loop fuel rounds ((start + 1) % 2 ^ 32) (dst + 512) else pure false

  -- blocks_todo counts down from blkcnt as a word, after the first round.
  unfoldable pub mmc_bread : ℕ → ℕ → ℕ → ℕ → Run V ℕ
  mmc_bread fuel start blkcnt dst = do
    done ← bread_loop fuel (if blkcnt == 0 then 2 ^ 32 else blkcnt) start dst
    pure (if done then blkcnt else 0)

  -- The while loop over DataLen and what follows it. `rounds` bounds the loop; a block size that is
  -- not 0 needs no more than DataLen.
  abbrev pub transfer : ℕ → ℕ → ℕ → ℕ → ℕ → ℕ → Run V ℕ
  transfer fuel size zero data_addr data_len dst = never
  transfer fuel size (suc rounds) data_addr data_len dst =
      let rest =
        transfer fuel size rounds ((data_addr + size) % 2 ^ 32) (data_len - size) (dst + size) in
      if ltb size data_len
      then (do
        ret ← mmc_bread fuel (data_addr / size) (size / size) dst
        if ret == 0 then pure 0 else rest)
      else if data_len == 0
      then pure 1
      else (do mmc_bread fuel (data_addr / size) (data_len / size) dst; pure 1)

  -- The asserts are compiled out, and the cache is not modelled.
  unfoldable pub mmc_read_internal : ℕ → ℕ → ℕ → Run V ℕ
  mmc_read_internal fuel data_addr data_len c =
      transfer fuel c.block_size (suc data_len) data_addr data_len 0 c

  -- MicroSecondDelay(5000) before an error is returned.
  abbrev pub after_delay : ℕ → BlockStatus → Run V BlockStatus
  after_delay fuel status c = finished io gpt c (micro_second_delay io gpt fuel 5000 c.hw) status

  abbrev pub status_of : ℕ → ℕ → Run V BlockStatus
  status_of fuel ret = if ret == 1 then pure success else after_delay fuel device_error

  -- Lba * 512 is passed as a 32-bit DataAddr.
  unfoldable pub mmchs_read_blocks : ℕ → ℕ → ℕ → Bool → Run V BlockStatus
  mmchs_read_blocks fuel lba buffer_size given c =
      let read = (do
        ret ← mmc_read_internal fuel (lba * 512 % 2 ^ 32) buffer_size
        status_of fuel ret) in
      if not (buffer_size % c.block_size == 0)
      then after_delay fuel bad_buffer_size c
      else if not given
      then after_delay fuel invalid_parameter c
      else if buffer_size == 0
      then after_delay fuel success c
      else read c

-- MMCHSWriteBlocks writes nothing.
unfoldable pub mmchs_write_blocks : {V : Type 0} → Run V BlockStatus
mmchs_write_blocks = pure success
