-- ===== src/Memory.antt =====
-- HtcLeoPkg/Library/MemoryInitPeiLib/MemoryInitPeiLib.c: the hand-off blocks and the table for the
-- memory management unit, from the device's memory map. An ASSERT that fails is an outcome.
pub mod Descriptors
pub mod Map
pub mod Peim
pub mod Regions
use lgoptimus_l3pkg.Common.{
  ℕ, zero, suc, Bool, true, false, ◌||◌, Option, none, some, List, [], ◌∷◌, ◌++◌, ltb, ◌==◌,
  if◌then◌else◌,
}
use lgoptimus_l3pkg.Memory.Descriptors.{
  HobOption, no_hob, add_mem, add_dev, hob_only_no_cache_setting, ResourceType, system_memory,
  ResourceAttribute, MemoryType, runtime_services_data, ArmAttributes, Region,
}

abbrev pub max_arm_memory_region_descriptor_count : ℕ
max_arm_memory_region_descriptor_count = 32

-- The blocks that BuildResourceDescriptorHob, BuildMemoryAllocationHob and
-- BuildMemoryTypeInformationHob add.
pub data Hob : Type 0 where
  resource_descriptor : ResourceType → ResourceAttribute → ℕ → ℕ → Hob
  memory_allocation : ℕ → ℕ → MemoryType → Hob
  memory_type_information : Hob

-- ARM_MEMORY_REGION_DESCRIPTOR.
pub record Descriptor : Type 0 where
  pub physical_base : ℕ
  pub virtual_base : ℕ
  pub size : ℕ
  pub attributes : Option ArmAttributes

-- EFI_SUCCESS with the blocks and the table that was handed to ArmConfigureMmu, or a failed ASSERT.
pub data Outcome : Type 0 where
  configured : List Hob → List Descriptor → Outcome
  assertion_failed : Outcome

abbrev pub is_system_memory : ResourceType → Bool
is_system_memory system_memory = true
is_system_memory _ = false

abbrev pub is_runtime_data : MemoryType → Bool
is_runtime_data runtime_services_data = true
is_runtime_data _ = false

unfoldable pub add_hob : Region → List Hob → List Hob
add_hob r hobs =
    let described =
      hobs ++ resource_descriptor r.resource_type r.resource_attribute r.address r.size ∷ [] in
    if is_system_memory r.resource_type || is_runtime_data r.memory_type
    then described ++ memory_allocation r.address r.size r.memory_type ∷ []
    else described

-- The cases of the switch that build blocks.
abbrev pub builds_hob : HobOption → Bool
builds_hob no_hob = false
builds_hob _ = true

abbrev pub is_hob_only : HobOption → Bool
is_hob_only hob_only_no_cache_setting = true
is_hob_only _ = false

abbrev pub descriptor : Region → Descriptor
descriptor r = record {
  physical_base = r.address;
  virtual_base = r.address;
  size = r.size;
  attributes = some r.arm_attributes;
}

abbrev pub end_descriptor : Descriptor
end_descriptor = record { physical_base = 0; virtual_base = 0; size = 0; attributes = none }

-- The terminator of the table and what follows the loop. The result of InitMmu is only printed.
abbrev pub finish : Bool → ℕ → List Hob → List Descriptor → Outcome
finish information index hobs table =
    if ltb index max_arm_memory_region_descriptor_count
    then configured (if information then hobs ++ memory_type_information ∷ [] else hobs)
        (table ++ end_descriptor ∷ [])
    else assertion_failed

-- The loop over the regions up to one of length 0, which the end of the list stands for too.
unfoldable pub peim_loop : Bool → List Region → ℕ → List Hob → List Descriptor → Outcome
peim_loop information [] index hobs table = finish information index hobs table
peim_loop information (r ∷ rs) index hobs table =
    let hobs' = if builds_hob r.hob_option then add_hob r hobs else hobs in
    let skipped = peim_loop information rs index hobs' table in
    let updated = peim_loop information rs (suc index) hobs' (table ++ descriptor r ∷ []) in
    if r.size == 0
    then finish information index hobs table
    else if is_hob_only r.hob_option
    then skipped
    else if ltb index max_arm_memory_region_descriptor_count
    then updated
    else assertion_failed

-- `memory_size` is PcdSystemMemorySize, and `information` PcdPrePiProduceMemoryTypeInformationHob.
unfoldable pub memory_peim : ℕ → Bool → List Region → List Hob → Outcome
memory_peim memory_size information regions hobs =
    if memory_size == 0 then assertion_failed else peim_loop information regions 0 hobs []
