-- ===== src/SdCard/Start/Mbr.antt =====
-- The search for a boot record (HtcLeoPkg/GPLDrivers/SdCardDxe/SdCardDxe.c) on a card that serves its
-- blocks.
use lgoptimus_l3pkg.Common.{
  ℕ, zero, suc, ◌+◌, ◌/◌, ◌%◌, ◌^◌, ◌≤◌, ◌<◌, ◌≡◌, refl, ap, ◌∙◌, inl, inr, Bool, true, false, ◌&&◌,
  ◌||◌, arith, ◌==◌, if◌then◌else◌, Bool-cases,
}
use lgoptimus_l3pkg.Common.Io.{Io}
use lgoptimus_l3pkg.GptTimer.{Gpt}
use lgoptimus_l3pkg.Pcom.{Modem}
use lgoptimus_l3pkg.SdCard.{Card, ok, pure}
use lgoptimus_l3pkg.SdCard.Block.{mmc_bread, attempted}
use lgoptimus_l3pkg.SdCard.Block.Read.{Serves, bread_by, bind-ok}
use lgoptimus_l3pkg.SdCard.Start.{try_block, find_mbr}

-- The last word of a block ends with the bytes 55 and AA.
abbrev pub signed : (ℕ → ℕ → ℕ) → ℕ → Bool
signed content i = (content i 127 / 2 ^ 16 % 256 == 0x55) && (content i 127 / 2 ^ 24 % 256 == 0xAA)

-- One of the n blocks from block i on is signed.
abbrev pub any_signed : (ℕ → ℕ → ℕ) → ℕ → ℕ → Bool
any_signed content zero i = false
any_signed content (suc n) i = signed content i || any_signed content n (suc i)

module _ {V : Type 0} (io : Io V) (gpt : Gpt) (modem : Modem V) (fuel : ℕ)
    (IsReady : Card V → Type 0) (limit : ℕ) (content : ℕ → ℕ → ℕ)
    (card : Serves io gpt fuel IsReady limit content) where
  try_block_lem :
      (i : ℕ) (c : Card V)
      → i < limit
      → IsReady c
      → (c' : Card V) × (try_block io gpt modem fuel i c ≡ (ok (signed content i), c')) × IsReady c'
  try_block_lem i c lt ready =
      let (c', reads, ready', size, holds) = card.serves i 0 c lt ready in
      let last : c'.buffer 508 ≡ content i 127 = holds.0 127 (omega arith) in
      (
        c',
        bind-ok io gpt fuel (mmc_bread io gpt fuel i 1 0) _ 1 c c'
              (bread_by io gpt fuel i 1 i 0 c c' true refl refl (ap attempted reads))
            ∙ ap (λ w. (ok ((w / 2 ^ 16 % 256 == 0x55) && (w / 2 ^ 24 % 256 == 0xAA)), c')) last,
        ready',
      )

  -- The search for a boot record among n blocks from block i on, all of which the card serves, ends
  -- and finds one exactly if one of them ends with the bytes 55 and AA.
  pub find_mbr_lem :
      (n i : ℕ) (c : Card V)
      → i + n ≤ limit
      → IsReady c
      → (c' : Card V) × (find_mbr io gpt modem fuel n i c ≡ (ok (any_signed content n i), c'))
  unfolding find_mbr
  find_mbr_lem zero i c le ready = (c, refl)
  find_mbr_lem (suc n) i c le ready =
      let (c1, tried, ready1) = try_block_lem i c (omega arith) ready in
      let first =
        bind-ok io gpt fuel (try_block io gpt modem fuel i)
          (λ found. if found then pure true else find_mbr io gpt modem fuel n (suc i))
          (signed content i) c c1 tried in
      elim (Bool-cases (signed content i)) [
        | inl e ↦ (c1, first ∙ rw e refl)
        | inr e ↦
            let (c2, rest) = find_mbr_lem n (suc i) c1 (omega arith) ready1 in
            (c2, first ∙ rw e rest)
      ]
