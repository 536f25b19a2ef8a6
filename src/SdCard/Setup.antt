-- ===== src/SdCard/Setup.antt =====
-- The card's way to the transfer state, of HtcLeoPkg/GPLDrivers/SdCardDxe/SdCardDxe.c: identification,
-- its registers, the high-speed mode, and the decoding of the CSD register.
pub mod Csd
use Prim.Native.Nat.{bit_and, bit_or}
use lgoptimus_l3pkg.Common.{
  ℕ, zero, suc, ◌+◌, ◌-◌, ◌*◌, ◌/◌, ◌%◌, ◌^◌, Bool, true, false, not, Option, none, some, List, [],
  ◌∷◌, map, get_or, ltb, ◌==◌, if◌then◌else◌,
}
use lgoptimus_l3pkg.Common.Io.{Io}
use lgoptimus_l3pkg.GptTimer.{Gpt}
use lgoptimus_l3pkg.SdCard.{
  Card, Outcome, ok, failed, stuck, Run, pure, fail, ◌>>=◌, ◌>>◌, fail_if, has, byte_swap32,
  Response, no_response, read, write, delay, mmc_send_cmd, send, card_set_block_size, data_control,
  check_clear_read_status, enable, respond, respond_long, mci_data_timer, mci_data_length,
  mci_status, mci_fifo, rxdata_avlbl, rxactive, rd_data_timeout,
}

module _ {V : Type 0} (io : Io V) (gpt : Gpt) where
  abbrev pub response_of : Outcome Response → Response
  response_of (ok r) = r
  response_of failed = no_response
  response_of stuck = no_response

  -- CMD55 and ACMD41 again until the card is not busy; `rounds` bounds the repetitions.
  abbrev pub power_up : ℕ → ℕ → ℕ → Response → Run V Response
  power_up fuel arg zero response c =
      if has response.r0 0x80000000 then (ok response, c) else (stuck, c)
  power_up fuel arg (suc rounds) response c =
      let again = (do
        delay io gpt fuel 1000
        send io gpt fuel (55 + respond) 0
        send io gpt fuel (41 + respond) arg) in
      let (o, c1) = again c in
      let rest = power_up fuel arg rounds (response_of o) c1 in
      if has response.r0 0x80000000
      then (ok response, c)
      else elim o [ ok r ↦ rest | failed ↦ (failed, c1) | stuck ↦ (stuck, c1) ]

  -- The card's CID and address.
  unfoldable pub card_identification_selection : ℕ → Run V (Response × ℕ)
  card_identification_selection fuel = do
    send io gpt fuel (0 + enable) 0
    present ← mmc_send_cmd io gpt fuel (8 + respond) 0x1AA
    delay io gpt fuel 1000
    send io gpt fuel (55 + respond) 0
    let hc_support = if present.0 then 2 ^ 30 else 0
    first ← send io gpt fuel (41 + respond) (bit_or 0x00FF8000 hc_support)
    response ← power_up fuel (bit_or 0x00FF8000 hc_support) fuel first
    (λ c. (ok tt, if has response.r0 hc_support then record c { high_capacity = true } else c))
    delay io gpt fuel 1000
    cid ← send io gpt fuel (2 + respond_long) 0
    relative ← send io gpt fuel (3 + respond) 0
    pure (cid, relative.r0 / 2 ^ 16)

  abbrev pub wait_data : ℕ → Run V Unit
  wait_data zero c = (stuck, c)
  wait_data (suc fuel) c =
      let (o, c1) = read io gpt mci_status c in
      let rest = wait_data fuel c1 in
      elim o [
        | ok status ↦ if has status rxdata_avlbl then (ok tt, c1) else rest
        | failed ↦ (failed, c1)
        | stuck ↦ (stuck, c1)
      ]

  unfoldable pub read_scr_register : ℕ → ℕ → Run V Unit
  read_scr_register fuel rca = do
    write io gpt mci_data_timer rd_data_timeout
    write io gpt mci_data_length 8
    card_set_block_size io gpt fuel 8
    data_control io gpt 8
    send io gpt fuel (55 + respond) (rca * 2 ^ 16)
    send io gpt fuel (51 + respond) 0
    wait_data fuel
    a ← read io gpt mci_fifo
    b ← read io gpt mci_fifo
    (λ c. (ok tt, record c { scr0 = byte_swap32 a; scr1 = byte_swap32 b; scr_valid = true }))

  -- The card's CSD and CID.
  unfoldable pub card_transfer_init : ℕ → ℕ → Run V (Response × Response)
  card_transfer_init fuel rca = do
    csd ← send io gpt fuel (9 + respond_long) (rca * 2 ^ 16)
    cid ← send io gpt fuel (10 + respond_long) (rca * 2 ^ 16)
    send io gpt fuel (7 + respond) (rca * 2 ^ 16)
    read_scr_register fuel rca
    send io gpt fuel (55 + respond) (rca * 2 ^ 16)
    send io gpt fuel (6 + respond) 2
    send io gpt fuel (13 + respond) (rca * 2 ^ 16)
    pure (csd, cid)

  abbrev pub push_word : ℕ → Outcome (List ℕ) × Card V → Outcome (List ℕ) × Card V
  push_word w (ok ws, c) = (ok (w ∷ ws), c)
  push_word w (failed, c) = (failed, c)
  push_word w (stuck, c) = (stuck, c)

  -- A round of `while (i < 16)`: a word, or none yet.
  abbrev pub poll_word : Run V (Option ℕ)
  poll_word = do
    status ← read io gpt mci_status
    if has status rxdata_avlbl
        then (do x ← read io gpt mci_fifo; pure (some x))
        else if has status rxactive
        then pure none
        else fail

  -- The words that are left after a round.
  abbrev pub words_left : ℕ → Outcome (Option ℕ) → ℕ
  words_left n (ok none) = suc n
  words_left n (ok (some x)) = n
  words_left n failed = n
  words_left n stuck = n

  -- The loop, with n words left.
  abbrev pub read_words : ℕ → ℕ → Run V (List ℕ)
  read_words fuel zero c = (ok [], c)
  read_words zero (suc n) c = (stuck, c)
  read_words (suc fuel) (suc n) c =
      let (o, c1) = poll_word c in
      let rest = read_words fuel (words_left n o) c1 in
      elim o [
        | ok w ↦ elim w [ none ↦ rest | some x ↦ push_word x rest ]
        | failed ↦ (failed, c1)
        | stuck ↦ (stuck, c1)
      ]

  -- 16 words of the card's answer, with the bytes in order.
  abbrev pub read_answer : ℕ → Run V (List ℕ)
  read_answer fuel = do
    data_words ← read_words fuel 16
    check_clear_read_status io gpt fuel
    pure (map byte_swap32 data_words)

  unfoldable pub read_sd_status : ℕ → ℕ → Run V Unit
  read_sd_status fuel rca = do
    write io gpt mci_data_timer rd_data_timeout
    write io gpt mci_data_length 64
    card_set_block_size io gpt fuel 64
    data_control io gpt 64
    send io gpt fuel (55 + respond) (rca * 2 ^ 16)
    send io gpt fuel (13 + respond) 0
    read_answer fuel
    pure tt

  unfoldable pub switch_mode : ℕ → Run V Unit
  switch_mode fuel = do
    valid ← (λ c. (ok c.scr_valid, c))
    fail_if (not valid)
    scr ← (λ c. (ok c.scr0, c))
    fail_if (bit_and scr 0x0F000000 / 2 ^ 24 == 0)
    write io gpt mci_data_timer rd_data_timeout
    write io gpt mci_data_length 64
    card_set_block_size io gpt fuel 64
    data_control io gpt 64
    send io gpt fuel (6 + respond) 0x00FFFFF1
    checked ← read_answer fuel
    fail_if (not (has (get_or checked 3 0) 0x00020000))
    fail_if (not (bit_and (get_or checked 4 0) 0x0F000000 == 0x01000000))
    data_control io gpt 64
    send io gpt fuel (6 + respond) 0x80FFFFF1
    switched ← read_answer fuel
    fail_if (not (bit_and (get_or switched 4 0) 0x0F000000 == 0x01000000))

-- resp[i].
abbrev pub resp : Response → ℕ → ℕ
resp r i = if i == 0 then r.r0 else if i == 1 then r.r1 else if i == 2 then r.r2 else r.r3

-- UNSTUFF_BITS, for sizes below 32.
unfoldable pub unstuff_bits : Response → ℕ → ℕ → ℕ
unstuff_bits r start size =
    let off = 3 - start / 32 in
    let shft = start % 32 in
    let low = resp r off / 2 ^ shft in
    let high = resp r (off - 1) * 2 ^ (32 - shft) % 2 ^ 32 in
    bit_and (if ltb 32 (size + shft) then bit_or low high else low) (2 ^ size - 1)

-- mmc_decode_csd, which changes the media; the message that it prints is left out.
abbrev pub decode : {V : Type 0} → ℕ → Response → Card V → Card V
decode version csd c =
    let size = 2 ^ unstuff_bits csd 80 4 in
    let mult = 2 ^ (unstuff_bits csd 47 3 + 2) in
    if version == 0
    then record c { block_size = size; last_block = (1 + unstuff_bits csd 62 12) * mult }
    else if version == 1
    then record c { block_size = size; last_block = (1 + unstuff_bits csd 48 16) * 1024 }
    else c

unfoldable pub mmc_decode_csd : {V : Type 0} → Response → Card V → Card V
mmc_decode_csd csd c = decode (unstuff_bits csd 126 2) csd c
