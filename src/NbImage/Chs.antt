-- ===== src/NbImage/Chs.antt =====
-- The addresses by cylinder, head and sector that PartSetCHS (ImageResources/Tools/nbgen.c) writes.
use lgoptimus_l3pkg.Common.{ℕ, ◌+◌, ◌-◌, ◌*◌, ◌/◌, ◌^◌, ◌<◌, ◌≡◌, arith, ltb, if◌then◌else◌}
use lgoptimus_l3pkg.NbImage.{PartEntry, part_set_chs}

-- The sector that a head, a track and the upper two bits of the sector's byte stand for, at 64 heads.
abbrev pub address_of : ℕ → ℕ → ℕ → ℕ
address_of head track sector = ((sector - 1) / 2 ^ 6 * 256 + track) * 64 + head

-- For a first sector below 65536 PartSetCHS writes its address.
part_set_chs-first :
    (part : PartEntry)
    → part.start_sector < 65536
    → let p = part_set_chs part in
      address_of p.first_head p.first_track p.first_sector ≡ part.start_sector
unfolding part_set_chs
part_set_chs-first part h = omega arith

-- Of a last sector below 16384 PartSetCHS writes the address if it is below 10240, and from there on the
-- address of a sector 16384 behind it, since it divides by 40 in place of 64.
pub part_set_chs-last :
    (part : PartEntry)
    → let last = part.start_sector + part.total_sectors - 1 in
      0 < part.total_sectors
      → last < 16384
      → let p = part_set_chs part in
        address_of p.last_head p.last_track p.last_sector
        ≡ (if ltb last 10240 then last else last + 16384)
unfolding part_set_chs
part_set_chs-last part some_sectors small = ground arith
