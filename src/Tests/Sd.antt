-- ===== src/Tests/Sd.antt =====
-- Cards and blocks, at concrete inputs.
use mathlib.Core.Path.{subst}
use lgoptimus_l3pkg.Common.{
  ℕ, zero, suc, ◌+◌, ◌*◌, ◌%◌, ◌^◌, ◌<◌, ◌≤◌, ◌≡◌, refl, sym, ap, ◌∙◌, inl, inr, Bool, true, false,
  not, ◌&&◌, arith, ◌==◌, if◌then◌else◌,
}
use lgoptimus_l3pkg.Common.Io.{Io}
use lgoptimus_l3pkg.Pcom.{Modem}
use lgoptimus_l3pkg.SdCard.Start.{find_mbr}
use lgoptimus_l3pkg.SdCard.Start.Mbr.{any_signed, find_mbr_lem}
use lgoptimus_l3pkg.GptTimer.{Gpt}
use lgoptimus_l3pkg.SdCard.{
  Card, ok, follow, Response, has, mmc_send_cmd, check_clear_read_status,
  check_clear_read_status_bits,
}
use lgoptimus_l3pkg.SdCard.Setup.{mmc_decode_csd}
use lgoptimus_l3pkg.SdCard.Setup.Csd.{number, field, mmc_decode_csd_lem}
use lgoptimus_l3pkg.SdCard.Block.{success, fill, mmchs_read_blocks, read_a_block}
use lgoptimus_l3pkg.SdCard.Block.Read.{
  Serves, HoldsAll, mmchs_read_blocks_lem, one_block_succeeds, mmchs_read_blocks_wraps,
}

abbrev gpt : Gpt
gpt = record { count_val = 4; enable = 8; clear = 12 }

-- A controller with a card whose every word of a block is the number of the block.
record Mci : Type 0 where
  arg : ℕ
  resp : Bool
  ended : Bool

abbrev status_word : Mci → ℕ
status_word v = (if v.resp then 0x200440 else 0x200400) + (if v.ended then 0x100 else 0)

abbrev mci : Io Mci
mci = record {
  readl = λ addr v.
      (if addr == 0xA0400034 then status_word v else if addr == 0xA0400080 then v.arg else 0, v);
  writel = λ x addr v. (
    tt,
    if addr == 0xA0400008
        then record v { arg = x }
        else if addr == 0xA040000C
        then record v { resp = true; ended = true }
        else if addr == 0xA0400038
        then record v { resp = v.resp && not (has x 0x40); ended = v.ended && not (has x 0x100) }
        else v,
  );
}

-- n words from dst on.
abbrev filled : ℕ → ℕ → ℕ → (ℕ → ℕ) → ℕ → ℕ
filled zero dst x old = old
filled (suc n) dst x old = filled n (dst + 4) x (λ a. if a == dst then x else old a)

filled_below : (n dst x : ℕ) (old : ℕ → ℕ) (a : ℕ) → a < dst → filled n dst x old a ≡ old a
filled_below zero dst x old a lt = refl
filled_below (suc n) dst x old a lt = filled_below n (dst + 4) x _ a (omega arith) ∙ ground arith

filled_above : (n dst x : ℕ) (old : ℕ → ℕ) (a : ℕ) → dst + 4 * n ≤ a → filled n dst x old a ≡ old a
filled_above zero dst x old a le = refl
filled_above (suc n) dst x old a le = filled_above n (dst + 4) x _ a (omega arith) ∙ ground arith

filled_at : (n dst x i : ℕ) (old : ℕ → ℕ) → i < n → filled n dst x old (dst + 4 * i) ≡ x
filled_at zero dst x i old lt = absurd (omega arith)
filled_at (suc n) dst x zero old lt =
    filled_below n (dst + 4) x _ (dst + 4 * 0) (omega arith) ∙ ground arith
filled_at (suc n) dst x (suc i) old lt =
    let place : dst + 4 * suc i ≡ dst + 4 + 4 * i = omega arith in
    ap (filled n (dst + 4) x (λ a. if a == dst then x else old a)) place
    ∙ filled_at n (dst + 4) x i _ (omega arith)

fill_lem :
    (fuel n dst arg : ℕ) (c : Card Mci)
    → n ≤ fuel
    → c.hw ≡ record { arg = arg; resp = false; ended = true }
    → fill mci gpt fuel n dst c ≡ (ok tt, record c { buffer = filled n dst arg c.buffer })
fill_lem fuel zero dst arg c le e = refl
fill_lem zero (suc n) dst arg c le e = absurd (omega arith)
fill_lem (suc fuel) (suc n) dst arg c le e = rw e (
    fill_lem fuel n (dst + 4) arg
      (record c {
        buffer = λ a. if a == dst then arg else c.buffer a;
        hw = record { arg = arg; resp = false; ended = true };
      })
      (omega arith) refl)

abbrev IsLarge : Card Mci → Type 0
IsLarge c = c.high_capacity ≡ true

abbrev after_block : ℕ → ℕ → Card Mci → Card Mci
after_block n dst c = record c {
  buffer = filled 128 dst n c.buffer;
  hw = record { arg = n; resp = false; ended = false };
}

reads_large :
    (n dst : ℕ) (c : Card Mci)
    → read_a_block mci gpt 200 n dst (record c { high_capacity = true })
      ≡ (ok tt, after_block n dst (record c { high_capacity = true }))
unfolding read_a_block mmc_send_cmd check_clear_read_status check_clear_read_status_bits
reads_large n dst c =
    ap (λ r. follow r (λ u. check_clear_read_status mci gpt 200))
      (fill_lem 200 128 dst n
        (record c { high_capacity = true; hw = record { arg = n; resp = false; ended = true } })
        (omega arith) refl)

reads :
    (n dst : ℕ) (c : Card Mci)
    → IsLarge c
    → read_a_block mci gpt 200 n dst c ≡ (ok tt, after_block n dst c)
reads n dst c large =
    subst
      (λ h.
        read_a_block mci gpt 200 n dst (record c { high_capacity = h })
        ≡ (ok tt, after_block n dst (record c { high_capacity = h })))
      (sym large) (reads_large n dst c)

mci-Serves : Serves mci gpt 200 IsLarge 1000 (λ n i. n)
mci-Serves = record {
  serves = λ n dst c lt large. (
    after_block n dst c,
    reads n dst c large,
    large,
    refl,
    (
      λ i small. filled_at 128 dst n i c.buffer small,
      λ a outside. elim outside [
        | inl below ↦ filled_below 128 dst n c.buffer a below
        | inr above ↦ filled_above 128 dst n c.buffer a above
      ],
    ),
  );
}

abbrev large_card : Card Mci
large_card = record {
  high_capacity = true;
  scr0 = 0;
  scr1 = 0;
  scr_valid = false;
  block_size = 512;
  last_block = 1000;
  buffer = λ a. 0;
  hw = record { arg = 0; resp = false; ended = false };
}

mmchs_read_blocks_lem_example :
    (c' : Card Mci) × (mmchs_read_blocks mci gpt 200 7 (suc 2 * 512) true large_card
      ≡ (ok success, c'))
    × HoldsAll mci gpt 200 (λ n i. n) 7 (suc 2) 0 c'
mmchs_read_blocks_lem_example =
    mmchs_read_blocks_lem mci gpt 200 IsLarge 1000 (λ n i. n) mci-Serves 7 2 large_card refl refl
      (omega arith) (omega arith)

-- A modem that the search does not use.
abbrev quiet : Modem Mci
quiet = record { readl = λ v addr. 0; writel = λ v addr x. v; notify = λ v. v; delay = λ v. v }

find_mbr_lem_example :
    (c' : Card Mci) × (find_mbr mci gpt quiet 200 3 5 large_card
      ≡ (ok (any_signed (λ n i. n) 3 5), c'))
find_mbr_lem_example =
    find_mbr_lem mci gpt quiet 200 IsLarge 1000 (λ n i. n) mci-Serves 3 5 large_card (omega arith)
      refl

-- A card that never answers: every status is a timeout.
abbrev dead : Io Unit
dead = record { readl = λ addr v. (4, v); writel = λ x addr v. (tt, v) }

abbrev dead_card : Card Unit
dead_card = record {
  high_capacity = true;
  scr0 = 0;
  scr1 = 0;
  scr_valid = false;
  block_size = 512;
  last_block = 1000;
  buffer = λ a. 0;
  hw = tt;
}

one_block_succeeds_example :
    mmchs_read_blocks dead gpt 5 7 512 true dead_card ≡ (ok success, dead_card)
unfolding read_a_block mmc_send_cmd
one_block_succeeds_example = one_block_succeeds dead gpt 5 7 dead_card dead_card refl refl

mmchs_read_blocks_wraps_example :
    mmchs_read_blocks mci gpt 200 8388609 1024 true large_card
    ≡ mmchs_read_blocks mci gpt 200 (8388609 % 2 ^ 23) 1024 true large_card
mmchs_read_blocks_wraps_example = mmchs_read_blocks_wraps mci gpt 200 8388609 1024 true large_card

-- A register of version 2 with a C_SIZE of 7579.
abbrev csd : Response
csd = record { r0 = 0x40000000; r1 = 0x00090000; r2 = 0x1D9B0000; r3 = 1 }

mmc_decode_csd_lem_example :
    let n = number csd in
    let c' = mmc_decode_csd csd dead_card in
    (field n 126 2 ≡ 0
      → (c'.block_size ≡ 2 ^ field n 80 4)
        × (c'.last_block ≡ (1 + field n 62 12) * 2 ^ (field n 47 3 + 2)))
    × (field n 126 2 ≡ 1
        → (c'.block_size ≡ 2 ^ field n 80 4) × (c'.last_block ≡ (1 + field n 48 16) * 1024))
    × (1 < field n 126 2 → c' ≡ dead_card)
mmc_decode_csd_lem_example =
    mmc_decode_csd_lem csd dead_card (omega arith, omega arith, omega arith, omega arith)
