-- ===== src/Memory/Map.antt =====
-- The regions of HtcLeoPkg/Include/Configuration/DeviceMemoryMap.h, in its order and without their
-- names, with or without a region for the log of the serial port in memory.
use lgoptimus_l3pkg.Common.{Bool, true, false, List, [], ◌∷◌, ◌++◌}
use lgoptimus_l3pkg.Memory.Descriptors.{
  Region, region, add_mem, add_dev, system_memory, memory_mapped_io, memory_reserved, uncacheable,
  write_through_attribute, sys_mem_cap, reserved, conventional, boot_services_code, mapped_io,
  max_memory_type, uncached_unbuffered, device, write_through, write_back, terminator,
}

abbrev first_regions : List Region
first_regions =
    region 0x00000000 0x00100000 add_mem memory_reserved uncacheable reserved uncached_unbuffered
    ∷ region 0x00100000 0x00100000 add_mem memory_reserved uncacheable reserved uncached_unbuffered
    ∷ region 0x00200000 0x02800000 add_mem system_memory sys_mem_cap reserved device
    ∷ region 0x02A00000 0x000C0000 add_mem memory_reserved write_through_attribute max_memory_type
        write_through
    ∷ region 0x02AC0000 0x0ED40000 add_mem system_memory sys_mem_cap reserved device
    ∷ region 0x11800000 0x1A800000 add_mem system_memory sys_mem_cap conventional write_back
    ∷ region 0x2C000000 0x00200000 add_mem system_memory sys_mem_cap boot_services_code write_back
    ∷ []

-- USE_MEMORY_FOR_SERIAL_OUTPUT.
abbrev last_regions : Bool → List Region
last_regions true =
    region 0x2C200000 0x03C00000 add_mem system_memory sys_mem_cap conventional write_back
    ∷ region 0x2FE00000 0x00200000 add_mem memory_reserved sys_mem_cap reserved write_through
    ∷ []
last_regions false =
    region 0x2C200000 0x03E00000 add_mem system_memory sys_mem_cap conventional write_back ∷ []

abbrev peripheral_regions : List Region
peripheral_regions =
    region 0xA0300000 0x00100000 add_dev memory_mapped_io uncacheable mapped_io device
    ∷ region 0xA0400000 0x00100000 add_dev memory_mapped_io uncacheable mapped_io device
    ∷ region 0xA0500000 0x00100000 add_dev memory_mapped_io uncacheable mapped_io device
    ∷ region 0xA0600000 0x00100000 add_dev memory_mapped_io uncacheable mapped_io device
    ∷ region 0xA0800000 0x00100000 add_dev memory_mapped_io uncacheable mapped_io device
    ∷ region 0xA0F00000 0x00100000 add_dev memory_mapped_io uncacheable mapped_io device
    ∷ region 0xA8100000 0x00100000 add_dev memory_mapped_io uncacheable mapped_io device
    ∷ region 0xA8200000 0x00100000 add_dev memory_mapped_io uncacheable mapped_io device
    ∷ region 0xA8500000 0x00100000 add_dev memory_mapped_io uncacheable mapped_io device
    ∷ region 0xA8600000 0x00100000 add_dev memory_mapped_io uncacheable mapped_io device
    ∷ region 0xA8800000 0x00100000 add_dev memory_mapped_io uncacheable mapped_io device
    ∷ region 0xA8E00000 0x00100000 add_dev memory_mapped_io uncacheable mapped_io device
    ∷ region 0xA8F00000 0x00100000 add_dev memory_mapped_io uncacheable mapped_io device
    ∷ region 0xA9000000 0x00100000 add_dev memory_mapped_io uncacheable mapped_io device
    ∷ region 0xA9100000 0x00100000 add_dev memory_mapped_io uncacheable mapped_io device
    ∷ region 0xA9700000 0x00100000 add_dev memory_mapped_io uncacheable mapped_io device
    ∷ region 0xA9900000 0x00100000 add_dev memory_mapped_io uncacheable mapped_io device
    ∷ region 0xA9A00000 0x00100000 add_dev memory_mapped_io uncacheable mapped_io device
    ∷ region 0xA9B00000 0x00100000 add_dev memory_mapped_io uncacheable mapped_io device
    ∷ region 0xA9C00000 0x00100000 add_dev memory_mapped_io uncacheable mapped_io device
    ∷ region 0xAA200000 0x00100000 add_dev memory_mapped_io uncacheable mapped_io device
    ∷ region 0xABA01000 0x00100000 add_dev memory_mapped_io uncacheable mapped_io device
    ∷ region 0xAC000000 0x00100000 add_dev memory_mapped_io uncacheable mapped_io device
    ∷ region 0xAC100000 0x00100000 add_dev memory_mapped_io uncacheable mapped_io device
    ∷ []

abbrev pub device_memory_descriptor_ex : Bool → List Region
device_memory_descriptor_ex serial =
    first_regions ++ (last_regions serial ++ (peripheral_regions ++ terminator ∷ []))
