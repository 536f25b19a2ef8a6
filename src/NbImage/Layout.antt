-- ===== src/NbImage/Layout.antt =====
-- The layout of the image that ImageResources/Tools/nbgen.c writes.
use lgoptimus_l3pkg.Common.{
  ℕ, zero, suc, ◌+◌, ◌-◌, ◌*◌, ◌/◌, ◌%◌, ◌≤◌, ◌<◌, ◌≡◌, refl, sym, ap, ap₂, ◌∙◌, inl, inr, Bool,
  true, some, List, [], ◌∷◌, ◌++◌, arith, length, get_or, drop, length-drop, length-append,
  length-replicate, get_or-append_right, get_or-append_left, get_or-replicate_self, ltb, leb, ◌==◌,
  if◌then◌else◌, Bool-cases,
}
use lgoptimus_l3pkg.NbImage.{
  Written, blocks, sector_size, sector_of, second_sector, first_sector_of, partition_of,
  empty_written, empty_sectors, write_sector, write_file, and_more, then_fill, save_part, then_part,
  save, the_part, image, tagged, any_differs,
}

drop_nil : (n : ℕ) → drop {A = ℕ} n [] ≡ []
drop_nil zero = refl
drop_nil (suc n) = refl

drop_add : (n m : ℕ) (xs : List ℕ) → drop n (drop m xs) ≡ drop (m + n) xs
drop_add n zero xs = ap (λ k. drop k xs) (omega arith)
drop_add n (suc m) [] = drop_nil n ∙ sym (drop_nil (suc m + n))
drop_add n (suc m) (x ∷ xs) =
    let more : suc (m + n) ≡ suc m + n = omega arith in
    drop_add n m xs ∙ ap (λ k. drop k (x ∷ xs)) more

-- The part of a file from its k-th sector on.
abbrev pub from_sector : ℕ → List ℕ → List ℕ
from_sector k file = drop (k * sector_size) file

module _ (is_signed nb : Bool) where
  abbrev pub at_sector : List Written → ℕ → Written
  at_sector ws k = get_or ws k (empty_written nb)

  -- The sectors, numbered from n on, are those of the file.
  abbrev pub AreSectors : ℕ → ℕ → List ℕ → List Written → Type 0
  AreSectors i n file ws =
      (k : ℕ)
      → k ≤ length file / sector_size
      → at_sector ws k ≡ write_sector is_signed nb i (n + k) (sector_of (from_sector k file))

  AreSectors-one :
      (i n : ℕ) (file : List ℕ)
      → length file < sector_size
      → AreSectors i n file (write_sector is_signed nb i n (sector_of file) ∷ [])
  AreSectors-one i n file short zero le =
      ap (λ m. write_sector is_signed nb i m (sector_of file)) (omega arith)
  AreSectors-one i n file short (suc k) le = absurd (omega arith)

  AreSectors-more :
      (i n : ℕ) (file : List ℕ) (ws : List Written)
      → sector_size ≤ length file
      → AreSectors i (suc n) (drop sector_size file) ws
      → AreSectors i n file (write_sector is_signed nb i n (sector_of file) ∷ ws)
  AreSectors-more i n file ws long each zero le =
      ap (λ m. write_sector is_signed nb i m (sector_of file)) (omega arith)
  AreSectors-more i n file ws long each (suc k) le =
      let rest_len = length-drop sector_size file in
      let place : sector_size + k * sector_size ≡ suc k * sector_size = omega arith in
      let number : suc n + k ≡ n + suc k = omega arith in
      each k (omega (arith, rest_len))
      ∙ ap₂ (λ m xs. write_sector is_signed nb i m (sector_of xs)) number
          (drop_add (k * sector_size) sector_size file ∙ ap (λ m. drop m file) place)

  write_file_lem :
      (fuel i n : ℕ) (file : List ℕ)
      → length file < fuel * sector_size
      → (ws : List Written) × (write_file is_signed nb fuel i n file
          ≡ some (ws, n + length file / sector_size + 1))
        × (length ws ≡ length file / sector_size + 1)
        × AreSectors i n file ws
  unfolding write_file
  write_file_lem zero i n file h = absurd (omega arith)
  write_file_lem (suc fuel) i n file h =
      let w = write_sector is_signed nb i n (sector_of file) in
      elim (Bool-cases (ltb (length file) sector_size)) [
        | inl e ↦
            let short : length file < sector_size = ground arith in
            (
              w ∷ [],
              rw e (ap (λ m. some (w ∷ [], m)) (omega arith)),
              omega arith,
              AreSectors-one i n file short,
            )
        | inr e ↦
            let left = drop sector_size file in
            let long : sector_size ≤ length file = ground arith in
            let rest_len : length left ≡ length file - sector_size = length-drop sector_size file in
            let (ws, writes, len, each) = write_file_lem fuel i (suc n) left (omega arith) in
            let next : suc n + length left / sector_size + 1 ≡ n + length file / sector_size + 1 =
              omega arith in
            (
              w ∷ ws,
              rw e (ap (and_more is_signed nb w) writes ∙ ap (λ m. some (w ∷ ws, m)) next),
              omega arith,
              AreSectors-more i n file ws long each,
            )
      ]

after_head : (k : ℕ) → 2 + k ≡ suc (suc k)
after_head k = omega arith

past : (k n : ℕ) → n ≤ k → k ≡ n + (k - n)
past k n le = omega arith

-- The last sector of the partition, as main computes it from the file's length.
abbrev pub end_of : List ℕ → ℕ
end_of file = (the_part file).end_sector

-- The image has its two header sectors, the sectors of the file with the last one filled up with FF, and
-- behind them empty sectors up to the end of the partition, which is the end of a block of 64 sectors;
-- but if file and header fill their blocks exactly, one sector more than the partition is written.
pub image_lem :
    (is_signed nb : Bool) (file : List ℕ)
    → (ws : List Written) × (image is_signed nb file ≡ some ws)
      × (length ws ≡ end_of file + (if (length file + 4096) % 0x20000 == 0 then 1 else 0))
      × ((at_sector is_signed nb ws 0).bytes ≡ first_sector_of (partition_of (the_part file)))
      × ((at_sector is_signed nb ws 1).bytes ≡ second_sector)
      × ((k : ℕ)
          → at_sector is_signed nb ws (2 + k) ≡ (
              if leb k (length file / sector_size)
              then write_sector is_signed nb 0 (2 + k) (sector_of (from_sector k file))
              else empty_written nb))
unfolding image save save_part blocks
image_lem is_signed nb file =
    let (ws, writes, len, each) =
      write_file_lem is_signed nb (suc (length file)) 0 2 file (omega arith) in
    let first = first_sector_of (partition_of (the_part file)) in
    let used = 2 + length file / sector_size + 1 in
    let behind = empty_sectors nb (end_of file - used) in
    let head : List Written =
      record { bytes = first; tag = tagged nb 0 0xFFFBFFFD }
      ∷ record { bytes = second_sector; tag = tagged nb 1 0xFFFBFFFD }
      ∷ [] in
    let behind_len : length behind ≡ end_of file - used = length-replicate (end_of file - used) _ in
    let all_len : length (ws ++ behind) ≡ length ws + length behind = length-append ws behind in
    let total : length file / sector_size + 1 + (end_of file - used) + 2
        ≡ end_of file + (if (length file + 4096) % 0x20000 == 0 then 1 else 0) =
      ground arith in
    (
      head ++ (ws ++ behind),
      ap (λ r. then_part is_signed nb head (then_fill is_signed nb (end_of file) [] r)) writes,
      omega (arith, total, behind_len, all_len, len),
      refl,
      refl,
      λ k. elim (Bool-cases (leb k (length file / sector_size))) [
        | inl e ↦
            let le : k ≤ length file / sector_size = ground arith in
            rw e (
              ap (λ m. at_sector is_signed nb (head ++ (ws ++ behind)) m) (after_head k)
              ∙ get_or-append_left ws behind k (empty_written nb) (omega (arith, len))
              ∙ each k le)
        | inr e ↦
            let lt : length file / sector_size < k = ground arith in
            rw e (
              ap (λ m. at_sector is_signed nb (head ++ (ws ++ behind)) m) (after_head k)
              ∙ ap (λ m. get_or (ws ++ behind) m (empty_written nb))
                  (past k (length ws) (omega (arith, len)))
              ∙ get_or-append_right ws behind (k - length ws) (empty_written nb)
              ∙ get_or-replicate_self (end_of file - used) (k - length ws) (empty_written nb))
      ],
    )

any_differs-signed : (nb : Bool) (file : List ℕ) → any_differs true nb (sector_of file) ≡ true
unfolding any_differs
any_differs-signed nb [] = refl
any_differs-signed nb (b ∷ bs) = refl

-- Where char is signed, every sector of the file is tagged with its number as in use, also one that
-- only has the byte FF, which is how empty sectors are told.
image_tags_signed :
    (file : List ℕ) (k : ℕ)
    → k ≤ length file / sector_size
    → (ws : List Written) × (image true true file ≡ some ws)
      × ((at_sector true true ws (2 + k)).tag ≡ some (2 + k, 0xFFFBFFFD))
unfolding write_sector
image_tags_signed file k le =
    let (ws, writes, len, first, second, each) = image_lem true true file in
    let is_there : leb k (length file / sector_size) ≡ true = ground arith in
    (
      ws,
      writes,
      ap (λ w. w.tag)
            (each k
              ∙ ap
                  (λ d.
                    if d
                    then write_sector true true 0 (2 + k) (sector_of (from_sector k file))
                    else empty_written true)
                  is_there)
          ∙ ap (λ d. if d then some (2 + k, 0xFFFBFFFD) else some (0xFFFFFFFF, 0xFFFFFFFF))
              (any_differs-signed true (from_sector k file)),
    )
