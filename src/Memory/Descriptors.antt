-- ===== src/Memory/Descriptors.antt =====
-- The descriptors of HtcLeoPkg/Include/Configuration/DeviceMemoryMap.h: a data type for each of its
-- enumerations and families of constants, as far as the table uses them.
use lgoptimus_l3pkg.Common.{ℕ}

-- DeviceMemoryAddHob.
pub data HobOption : Type 0 where
  no_hob add_mem add_dev hob_only_no_cache_setting : HobOption

pub data ResourceType : Type 0 where
  system_memory memory_mapped_io memory_reserved : ResourceType

pub data ResourceAttribute : Type 0 where
  no_attribute uncacheable write_through_attribute sys_mem_cap : ResourceAttribute

pub data MemoryType : Type 0 where
  reserved conventional boot_services_code runtime_services_data mapped_io max_memory_type :
      MemoryType

pub data ArmAttributes : Type 0 where
  uncached_unbuffered device write_through write_back : ArmAttributes

-- ARM_MEMORY_REGION_DESCRIPTOR_EX.
pub record Region : Type 0 where
  pub address : ℕ
  pub size : ℕ
  pub hob_option : HobOption
  pub resource_type : ResourceType
  pub resource_attribute : ResourceAttribute
  pub memory_type : MemoryType
  pub arm_attributes : ArmAttributes

abbrev pub region :
    ℕ → ℕ → HobOption → ResourceType → ResourceAttribute → MemoryType → ArmAttributes → Region
region address size option resource attribute memory arm = record {
  address = address;
  size = size;
  hob_option = option;
  resource_type = resource;
  resource_attribute = attribute;
  memory_type = memory;
  arm_attributes = arm;
}

-- The last entry, all 0.
abbrev pub terminator : Region
terminator = region 0 0 no_hob system_memory no_attribute reserved uncached_unbuffered
