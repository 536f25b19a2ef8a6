-- ===== src/NbImage.antt =====
-- ImageResources/Tools/nbgen.c: the tool that packs the boot loader into a flash image. Files are lists
-- of bytes, fopen and stat are taken to work on a file that is there, and the machine that the tool runs
-- on writes its integers with the low byte first. Whether `char` is signed is a parameter.
pub mod Chs
pub mod Layout
use lgoptimus_l3pkg.Common.{
  ℕ, zero, suc, ◌+◌, ◌-◌, ◌*◌, ◌/◌, ◌%◌, ◌^◌, Bool, true, false, not, ◌||◌, ◌&&◌, Option, none,
  some, List, [], ◌∷◌, ◌++◌, length, take, drop, set, replicate, ltb, leb, ◌==◌, if◌then◌else◌,
}

-- struct PartEntry, 16 bytes.
pub record PartEntry : Type 0 where
  pub boot_ind : ℕ
  pub first_head : ℕ
  pub first_sector : ℕ
  pub first_track : ℕ
  pub file_system : ℕ
  pub last_head : ℕ
  pub last_sector : ℕ
  pub last_track : ℕ
  pub start_sector : ℕ
  pub total_sectors : ℕ

-- struct NbgPart.
pub record NbgPart : Type 0 where
  pub file : List ℕ
  pub start : ℕ
  pub end_sector : ℕ

-- One call of fwrite for a sector, with the number and the tag of writetag behind it, if any.
pub record Written : Type 0 where
  pub bytes : List ℕ
  pub tag : Option (ℕ × ℕ)

unfoldable pub blocks : ℕ → ℕ
blocks bytes = bytes / 0x20000 + (if not (bytes % 0x20000 == 0) then 1 else 0)

-- A uint32_t may wrap at the end of the last sector's number.
unfoldable pub part_set_chs : PartEntry → PartEntry
part_set_chs part =
    let first = part.start_sector in
    let last = (part.start_sector + part.total_sectors + 2 ^ 32 - 1) % 2 ^ 32 in
    record part {
      first_head = first % 0x40 % 256;
      first_track = first / 0x40 % 256;
      first_sector = (first / 0x40 / 2 ^ 8 * 2 ^ 6 % 256 + 1) % 256;
      last_head = last % 0x40 % 256;
      last_track = last / 0x40 % 256;
      last_sector = (last / 40 / 2 ^ 8 * 2 ^ 6 % 256 + 1) % 256;
    }

-- The bytes of a uint32_t.
abbrev pub bytes32 : ℕ → List ℕ
bytes32 n = n % 256 ∷ n / 2 ^ 8 % 256 ∷ n / 2 ^ 16 % 256 ∷ n / 2 ^ 24 % 256 ∷ []

abbrev pub bytes_of : PartEntry → List ℕ
bytes_of p =
    (p.boot_ind ∷ p.first_head ∷ p.first_sector ∷ p.first_track ∷ p.file_system ∷ p.last_head
      ∷ p.last_sector ∷ p.last_track ∷ [])
    ++ (bytes32 p.start_sector ++ bytes32 p.total_sectors)

abbrev pub sector_size : ℕ
sector_size = 0x800

-- The two sectors of the header that main fills in.
unfoldable pub first_sector_of : PartEntry → List ℕ
first_sector_of p =
    (0xE9 ∷ 0xFD ∷ 0xFF ∷ [])
    ++ (replicate (0x1BE - 3) 0
        ++ (bytes_of p
            ++ (replicate (510 - (0x1BE + 16)) 0
                ++ (0x55 ∷ 0xAA ∷ [] ++ replicate (sector_size - 512) 0))))

-- "MSFLSH50".
abbrev pub msflsh50 : List ℕ
msflsh50 = 0x4D ∷ 0x53 ∷ 0x46 ∷ 0x4C ∷ 0x53 ∷ 0x48 ∷ 0x35 ∷ 0x30 ∷ []

unfoldable pub second_sector : List ℕ
second_sector = msflsh50 ++ (replicate (0x64 - 8) 0 ++ replicate (sector_size - 0x64) 0xFF)

abbrev pub empty_sector : List ℕ
empty_sector = replicate sector_size 0xFF

abbrev pub tagged : Bool → ℕ → ℕ → Option (ℕ × ℕ)
tagged nb sector_no tag = if nb then some (sector_no, tag) else none

abbrev pub empty_written : Bool → Written
empty_written nb = record { bytes = empty_sector; tag = tagged nb 0xFFFFFFFF 0xFFFFFFFF }

-- `for (int is = sectorNo; is < bound; is++)`: n rounds.
abbrev pub empty_sectors : Bool → ℕ → List Written
empty_sectors nb n = replicate n (empty_written nb)

-- The sector buffer after memset and the reads from what is left of the file.
abbrev pub sector_of : List ℕ → List ℕ
sector_of file =
    take sector_size file ++ replicate (sector_size - length (take sector_size file)) 0xFF

module _ (is_signed : Bool) (nb : Bool) where
  -- `sector[ib] != 0xFF`: a signed char is never 255.
  abbrev pub differs_from_ff : ℕ → Bool
  differs_from_ff b = is_signed || not (b == 0xFF)

  -- The loop over ib.
  unfoldable pub any_differs : List ℕ → Bool
  any_differs [] = false
  any_differs (b ∷ bs) = differs_from_ff b || any_differs bs

  abbrev pub tag_of : ℕ → ℕ
  tag_of i = if i == 0 then 0xFFFBFFFD else 0xFFFBFFFF

  unfoldable pub write_sector : ℕ → ℕ → List ℕ → Written
  write_sector i sector_no sector = record {
    bytes = sector;
    tag =
        if any_differs sector
        then tagged nb sector_no (tag_of i)
        else tagged nb 0xFFFFFFFF 0xFFFFFFFF;
  }

  abbrev pub and_more : Written → Option (List Written × ℕ) → Option (List Written × ℕ)
  and_more w none = none
  and_more w (some (ws, sector_no)) = some (w ∷ ws, sector_no)

  -- `while (!feof(in))`: the end of the file is seen by the read that gets less than it asked for.
  unfoldable pub write_file : ℕ → ℕ → ℕ → List ℕ → Option (List Written × ℕ)
  write_file zero i sector_no file = none
  write_file (suc fuel) i sector_no file =
      let rest = write_file fuel i (suc sector_no) (drop sector_size file) in
      let w = write_sector i sector_no (sector_of file) in
      if ltb (length file) sector_size then some (w ∷ [], suc sector_no) else and_more w rest

  abbrev pub then_fill : ℕ → List Written → Option (List Written × ℕ) → Option (List Written × ℕ)
  then_fill end_sector before none = none
  then_fill end_sector before (some (ws, sector_no)) = some (
    before ++ (ws ++ empty_sectors nb (end_sector - sector_no)),
    sector_no + (end_sector - sector_no),
  )

  -- A part: empty sectors before it, its file, empty sectors after it.
  unfoldable pub save_part : ℕ → ℕ → NbgPart → Option (List Written × ℕ)
  save_part i sector_no p =
      then_fill p.end_sector (empty_sectors nb (p.start - sector_no))
        (write_file (suc (length p.file)) i (sector_no + (p.start - sector_no)) p.file)

  abbrev pub then_part : List Written → Option (List Written × ℕ) → Option (List Written)
  then_part ws none = none
  then_part ws (some (ws', sector_no)) = some (ws ++ ws')

  -- The header's two sectors, and the one part that main sets up.
  unfoldable pub save : List ℕ → List ℕ → NbgPart → Option (List Written)
  save first second p =
      then_part
        (record { bytes = first; tag = tagged nb 0 0xFFFBFFFD }
          ∷ record { bytes = second; tag = tagged nb 1 0xFFFBFFFD }
          ∷ [])
        (save_part 0 2 p)

-- The numbers of sectors are `int`, and do not overflow for a file below 4 TB.
abbrev pub the_part : List ℕ → NbgPart
the_part file = record {
  file = file;
  start = 2;
  end_sector = blocks (length file + 0x800 * 2) * 64;
}

abbrev pub partition_of : NbgPart → PartEntry
partition_of p = part_set_chs (record {
  boot_ind = 0;
  first_head = 0;
  first_sector = 0;
  first_track = 0;
  file_system = 0x23;
  last_head = 0;
  last_sector = 0;
  last_track = 0;
  start_sector = p.start;
  total_sectors = p.end_sector - p.start;
})

-- The image that main writes for lk.bin; `nb` is whether the file's name ends in .nb.
unfoldable pub image : Bool → Bool → List ℕ → Option (List Written)
image is_signed nb file =
    save is_signed nb (first_sector_of (partition_of (the_part file))) second_sector (the_part file)
