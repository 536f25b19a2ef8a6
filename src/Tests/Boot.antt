-- ===== src/Tests/Boot.antt =====
-- The set-up of memory and screen, the clock and the image tool, at concrete inputs.
use lgoptimus_l3pkg.Common.{
  ℕ, suc, ◌+◌, ◌-◌, ◌*◌, ◌/◌, ◌%◌, ◌^◌, ◌≡◌, ◌≤◌, ◌<◌, true, false, none, some, List, [], ◌∷◌, ◌++◌,
  arith, length, ltb, leb, ◌==◌, if◌then◌else◌,
}
use lgoptimus_l3pkg.Common.Io.{Io}
use lgoptimus_l3pkg.Keypad.Key.{success}
use lgoptimus_l3pkg.GptTimer.{Gpt, get_performance_counter, get_performance_counter_properties}
use lgoptimus_l3pkg.Memory.{assertion_failed, memory_peim}
use lgoptimus_l3pkg.Memory.Descriptors.{
  Region, region, terminator, hob_only_no_cache_setting, add_mem, system_memory, sys_mem_cap,
  conventional, write_back,
}
use lgoptimus_l3pkg.Memory.Map.{device_memory_descriptor_ex}
use lgoptimus_l3pkg.Memory.Peim.{
  ending, mapped, regions, all_blocks, memory_peim_lem, device_map_overflows,
}
use lgoptimus_l3pkg.VirtualClock.{Time, pcd_timer_freq_in_hz, lib_get_time}
use lgoptimus_l3pkg.VirtualClock.Elapsed.{seconds_of, lib_get_time_lem, lib_get_time_stays}
use lgoptimus_l3pkg.Video.{mode_of, simple_fb_initialize}
use lgoptimus_l3pkg.Video.Cleared.{among, simple_fb_initialize_lem}
use lgoptimus_l3pkg.NbImage.{
  PartEntry, Written, part_set_chs, image, first_sector_of, second_sector, partition_of, the_part,
  sector_size, sector_of, write_sector, empty_written,
}
use lgoptimus_l3pkg.NbImage.Chs.{address_of, part_set_chs-last}
use lgoptimus_l3pkg.NbImage.Layout.{at_sector, end_of, from_sector, image_lem}

abbrev small_map : List Region
small_map =
    region 0x1000 0x2000 add_mem system_memory sys_mem_cap conventional write_back
    ∷ region 0x8000 0x1000 hob_only_no_cache_setting system_memory sys_mem_cap conventional
        write_back
    ∷ terminator
    ∷ []

memory_peim_lem_example :
    memory_peim 0x30000000 true small_map []
    ≡ ending true
        (length (mapped (regions small_map)))
        ([] ++ all_blocks (regions small_map))
        (mapped (regions small_map))
memory_peim_lem_example = memory_peim_lem 0x30000000 true small_map []

device_map_overflows_example :
    (length (mapped (regions (device_memory_descriptor_ex false))) ≡ 32)
    × (memory_peim 0x30000000 true (device_memory_descriptor_ex false) [] ≡ assertion_failed)
device_map_overflows_example = device_map_overflows 0x30000000 true false []

-- A counter that shows the number of reads.
abbrev reads : Io ℕ
reads = record { readl = λ addr v. (v % 2 ^ 32, suc v); writel = λ x addr v. (tt, v) }

abbrev gpt_regs : Gpt
gpt_regs = record { count_val = 4; enable = 8; clear = 12 }

abbrev january : Time
january = record {
  year = 2019;
  month = 1;
  day = 0;
  hour = 0;
  minute = 0;
  second = 0;
  nanosecond = 0;
  time_zone = 0;
  daylight = 0;
}

lib_get_time_lem_example :
    (t : Time) × ((lib_get_time reads gpt_regs 32765 january (some january) none 500000000).0
      ≡ (success, some t, none))
    × (t.hour < 24)
    × (t.minute < 60)
    × (t.second < 60)
    × (t.year ≡ 2019)
    × (t.month ≡ 1)
    × (seconds_of t ≡ (get_performance_counter reads gpt_regs 500000000).0 / 32765 % (256 * 86400))
lib_get_time_lem_example =
    lib_get_time_lem reads gpt_regs 32765 january january none 500000000 (omega arith)

lib_get_time_stays_example :
    (t : Time) × ((lib_get_time reads gpt_regs pcd_timer_freq_in_hz january
        (some january)
        none
        500000000).0
      ≡ (success, some t, none))
    × (t.day ≡ 0)
    × (t.hour ≡ 0)
    × (t.minute < 15)
    × (146 * seconds_of t * get_performance_counter_properties.2
        ≤ (get_performance_counter reads gpt_regs 500000000).0)
unfolding get_performance_counter
lib_get_time_stays_example =
    lib_get_time_stays reads gpt_regs january january none 500000000 (omega arith)

simple_fb_initialize_lem_example :
    let m = mode_of 36 0x02A00000 240 320 in
    let r = simple_fb_initialize 36 0x02A00000 240 320 true (λ a. 1) in
    (r.0 ≡ success)
    × (r.1 ≡ some m)
    × (m.frame_buffer_size ≡ 240 * 2 * 320)
    × (2 * m.frame_buffer_size ≡ m.info.pixels_per_scan_line * m.info.vertical_resolution * 4)
    × (r.2 0x02A00005 ≡ (if among (240 * 2 * 320) 0x02A00000 0x02A00005 then 0 else 1))
simple_fb_initialize_lem_example =
    simple_fb_initialize_lem 36 0x02A00000 240 320 (λ a. 1) 0x02A00005 (omega arith) (omega arith)
      (omega arith) (omega arith) (omega arith)

abbrev big_part : PartEntry
big_part = record {
  boot_ind = 0;
  first_head = 0;
  first_sector = 0;
  first_track = 0;
  file_system = 0x23;
  last_head = 0;
  last_sector = 0;
  last_track = 0;
  start_sector = 2;
  total_sectors = 12000;
}

part_set_chs-last_example :
    let p = part_set_chs big_part in
    address_of p.last_head p.last_track p.last_sector
    ≡ (if ltb (2 + 12000 - 1) 10240 then 2 + 12000 - 1 else 2 + 12000 - 1 + 16384)
part_set_chs-last_example = part_set_chs-last big_part (omega arith) (omega arith)

abbrev two_bytes : List ℕ
two_bytes = 0x41 ∷ 0x42 ∷ []

image_lem_example :
    (ws : List Written) × (image true true two_bytes ≡ some ws)
    × (length ws ≡ end_of two_bytes + (if (length two_bytes + 4096) % 0x20000 == 0 then 1 else 0))
    × ((at_sector true true ws 0).bytes ≡ first_sector_of (partition_of (the_part two_bytes)))
    × ((at_sector true true ws 1).bytes ≡ second_sector)
    × ((k : ℕ)
        → at_sector true true ws (2 + k) ≡ (
            if leb k (length two_bytes / sector_size)
            then write_sector true true 0 (2 + k) (sector_of (from_sector k two_bytes))
            else empty_written true))
image_lem_example = image_lem true true two_bytes
