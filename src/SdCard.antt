-- ===== src/SdCard.antt =====
-- HtcLeoPkg/GPLDrivers/SdCardDxe/SdCardDxe.c: the state of the driver, its access to the controller,
-- and the commands to the card. Registers are those of Include/Library/Sdcard.h, for the instance 2
-- that the driver uses. A loop that polls is a recursion on fuel.
pub mod Setup
pub mod Block
pub mod Start
use Prim.Native.Nat.{bit_and}
use lgoptimus_l3pkg.Common.{
  ℕ, zero, suc, ◌+◌, ◌*◌, ◌/◌, ◌%◌, ◌^◌, Bool, true, false, not, ◌&&◌, ◌||◌, Option, none, some,
  ◌==◌, if◌then◌else◌,
}
use lgoptimus_l3pkg.Common.Io.{Io}
use lgoptimus_l3pkg.GptTimer.{Gpt, nano_second_delay}

abbrev pub mci_argument : ℕ
mci_argument = 0xA0400008

abbrev pub mci_cmd : ℕ
mci_cmd = 0xA040000C

abbrev pub mci_resp0 : ℕ
mci_resp0 = 0xA0400014

abbrev pub mci_data_timer : ℕ
mci_data_timer = 0xA0400024

abbrev pub mci_data_length : ℕ
mci_data_length = 0xA0400028

abbrev pub mci_data_ctl : ℕ
mci_data_ctl = 0xA040002C

abbrev pub mci_status : ℕ
mci_status = 0xA0400034

abbrev pub mci_clear : ℕ
mci_clear = 0xA0400038

abbrev pub mci_fifo : ℕ
mci_fifo = 0xA0400080

-- Bits of the status register.
abbrev pub rxdata_avlbl : ℕ
rxdata_avlbl = 0x00200000

abbrev pub rxactive : ℕ
rxactive = 0x00002000

abbrev pub data_blk_end : ℕ
data_blk_end = 0x00000400

abbrev pub start_bit_err : ℕ
start_bit_err = 0x00000200

abbrev pub dataend : ℕ
dataend = 0x00000100

abbrev pub cmd_sent : ℕ
cmd_sent = 0x00000080

abbrev pub cmd_response_end : ℕ
cmd_response_end = 0x00000040

abbrev pub rx_overrun : ℕ
rx_overrun = 0x00000020

abbrev pub data_timeout : ℕ
data_timeout = 0x00000008

abbrev pub cmd_timeout : ℕ
cmd_timeout = 0x00000004

abbrev pub data_crc_fail : ℕ
data_crc_fail = 0x00000002

abbrev pub cmd_crc_fail : ℕ
cmd_crc_fail = 0x00000001

-- Bits of the command register: enable, response, long response.
abbrev pub enable : ℕ
enable = 0x400

abbrev pub respond : ℕ
respond = 0x440

abbrev pub respond_long : ℕ
respond_long = 0x4C0

-- RD_DATA_TIMEOUT.
abbrev pub rd_data_timeout : ℕ
rd_data_timeout = 2000000

-- high_capacity, scr, scr_valid, the media's BlockSize and LastBlock, the caller's buffer as words by
-- their byte offsets, and the machine.
pub record Card (V : Type 0) : Type 0 where
  pub high_capacity : Bool
  pub scr0 : ℕ
  pub scr1 : ℕ
  pub scr_valid : Bool
  pub block_size : ℕ
  pub last_block : ℕ
  pub buffer : ℕ → ℕ
  pub hw : V

-- How a function ends: with a result, by `return(0)`, or not within the fuel.
pub data Outcome (A : Type 0) : Type 0 where
  ok : A → Outcome A
  failed : Outcome A
  stuck : Outcome A

abbrev pub Run : Type 0 → Type 0 → Type 0
Run V A = Card V → Outcome A × Card V

abbrev pub pure : {V A : Type 0} → A → Run V A
pure a c = (ok a, c)

abbrev pub fail : {V A : Type 0} → Run V A
fail c = (failed, c)

abbrev pub follow : {V A B : Type 0} → Outcome A × Card V → (A → Run V B) → Outcome B × Card V
follow (ok a, c) f = f a c
follow (failed, c) f = (failed, c)
follow (stuck, c) f = (stuck, c)

infixl 5 ◌>>=◌ ◌>>◌
abbrev pub ◌>>=◌ : {V A B : Type 0} → Run V A → (A → Run V B) → Run V B
◌>>=◌ m f c = follow (m c) f

abbrev pub ◌>>◌ : {V A B : Type 0} → Run V A → Run V B → Run V B
m >> k = m >>= λ _. k

-- `if (...) return(0);`.
abbrev pub fail_if : {V : Type 0} → Bool → Run V Unit
fail_if b = if b then fail else pure tt

-- `word & mask`, as a condition.
abbrev pub has : ℕ → ℕ → Bool
has word mask = not (bit_and word mask == 0)

abbrev pub byte_swap32 : ℕ → ℕ
byte_swap32 value =
    value / 2 ^ 24 % 256
    + value / 2 ^ 16 % 256 * 2 ^ 8
    + value / 2 ^ 8 % 256 * 2 ^ 16
    + value % 256 * 2 ^ 24

-- The four response registers.
pub record Response : Type 0 where
  pub r0 : ℕ
  pub r1 : ℕ
  pub r2 : ℕ
  pub r3 : ℕ

abbrev pub no_response : Response
no_response = record { r0 = 0; r1 = 0; r2 = 0; r3 = 0 }

module _ {V : Type 0} (io : Io V) (gpt : Gpt) where
  abbrev pub read : ℕ → Run V ℕ
  read reg c = let (x, v) = io.readl reg c.hw in (ok x, record c { hw = v })

  abbrev pub write : ℕ → ℕ → Run V Unit
  write reg x c = (ok tt, record c { hw = (io.writel x reg c.hw).1 })

  abbrev pub finished : {A : Type 0} → Card V → Option (ℕ × V) → A → Outcome A × Card V
  finished c none a = (stuck, c)
  finished c (some (n, v)) a = (ok a, record c { hw = v })

  -- NanoSecondDelay of the timer library.
  abbrev pub delay : ℕ → ℕ → Run V Unit
  delay fuel ns c = finished c (nano_second_delay io gpt fuel ns c.hw) tt

  -- Reads of the status until one of `mask` is set, or none is.
  abbrev pub wait_status : ℕ → Bool → ℕ → Run V ℕ
  wait_status zero set mask c = (stuck, c)
  wait_status (suc fuel) set mask c =
      let (o, c1) = read mci_status c in
      let rest = wait_status fuel set mask c1 in
      elim o [
        | ok status ↦ if (if has status mask then set else not set) then (ok status, c1) else rest
        | failed ↦ (failed, c1)
        | stuck ↦ (stuck, c1)
      ]

  abbrev pub is_index : ℕ → ℕ → Bool
  is_index cmd index = bit_and cmd 0x3F == index

  -- The result of a command with a response, from the last status.
  abbrev pub accepted : ℕ → ℕ → ℕ → Bool
  accepted cmd arg status =
      let open_drain = is_index cmd 5 || (is_index cmd 41 || is_index cmd 1) in
      let timed_out = not (has cmd 0x100) && has status cmd_timeout in
      has status cmd_response_end
      || ((has status cmd_crc_fail && open_drain)
          || ((is_index cmd 5 || is_index cmd 55) && ((arg == 0) && timed_out)))

  -- The result, and `response`, which without a response the function does not write and no caller
  -- then reads.
  unfoldable pub mmc_send_cmd : ℕ → ℕ → ℕ → Run V (Bool × Response)
  mmc_send_cmd fuel cmd arg = do
    write mci_argument arg
    write mci_cmd cmd
    if has cmd 0x40
        then (do
          status ← wait_status fuel true (
              if has cmd 0x100
              then cmd_crc_fail + cmd_response_end
              else cmd_crc_fail + cmd_response_end + cmd_timeout)
          write mci_clear cmd_response_end
          wait_status fuel false cmd_response_end
          write mci_clear cmd_timeout
          write mci_clear cmd_crc_fail
          a ← read mci_resp0
          b ← read (mci_resp0 + 4)
          c ← read (mci_resp0 + 8)
          d ← read (mci_resp0 + 12)
          pure (accepted cmd arg status, record { r0 = a; r1 = b; r2 = c; r3 = d }))
        else (do
          wait_status fuel true cmd_sent
          write mci_clear cmd_sent
          wait_status fuel false cmd_sent
          pure (true, no_response))

  -- `if (!mmc_send_cmd(cmd, arg, response)) return(0);`.
  abbrev pub send : ℕ → ℕ → ℕ → Run V Response
  send fuel cmd arg = do done ← mmc_send_cmd fuel cmd arg; fail_if (not done.0); pure done.1

  unfoldable pub card_set_block_size : ℕ → ℕ → Run V Unit
  card_set_block_size fuel size = do send fuel (16 + respond) size; pure tt

  -- The registers for a transfer of `size` bytes from the card.
  abbrev pub data_control : ℕ → Run V Unit
  data_control size = write mci_data_ctl (3 + size * 16)

  unfoldable pub check_clear_read_status_bits : ℕ → Run V Unit
  check_clear_read_status_bits status = fail_if (
      has status data_crc_fail
      || (has status data_timeout || (has status rx_overrun || has status start_bit_err)))

  -- The do-while loop.
  abbrev pub wait_block_end : ℕ → Run V Unit
  wait_block_end zero c = (stuck, c)
  wait_block_end (suc fuel) c =
      let step = (do
        status ← read mci_status
        check_clear_read_status_bits status
        pure (has status data_blk_end)) in
      let (o, c1) = step c in
      let rest = wait_block_end fuel c1 in
      elim o [
        | ok ended ↦ if ended then (ok tt, c1) else rest
        | failed ↦ (failed, c1)
        | stuck ↦ (stuck, c1)
      ]

  unfoldable pub check_clear_read_status : ℕ → Run V Unit
  check_clear_read_status fuel = do
    wait_block_end fuel
    write mci_clear data_blk_end
    write mci_clear 0x22A
    wait_status fuel true dataend
    write mci_clear dataend
    wait_status fuel false dataend
    write mci_clear data_blk_end
