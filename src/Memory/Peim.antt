-- ===== src/Memory/Peim.antt =====
-- What MemoryPeim (HtcLeoPkg/Library/MemoryInitPeiLib/MemoryInitPeiLib.c) makes of a memory map.
use mathlib.Core.List.{append_assoc, append-nil}
use native.Mathlib.Nat.{add-zero, zero-add}
use lgoptimus_l3pkg.Common.{
  ℕ, suc, ◌+◌, ◌≡◌, refl, sym, ap, ◌∙◌, inl, inr, Bool, true, false, ◌||◌, List, [], ◌∷◌, ◌++◌,
  arith, length, ltb, ◌==◌, if◌then◌else◌, Bool-cases,
}
use lgoptimus_l3pkg.Memory.Descriptors.{Region}
use lgoptimus_l3pkg.Memory.Map.{device_memory_descriptor_ex}
use lgoptimus_l3pkg.Memory.{
  max_arm_memory_region_descriptor_count, Hob, resource_descriptor, memory_allocation,
  memory_type_information, Descriptor, Outcome, configured, assertion_failed, is_system_memory,
  is_runtime_data, add_hob, builds_hob, is_hob_only, descriptor, end_descriptor, finish, peim_loop,
  memory_peim,
}

-- The regions before the first one of length 0.
abbrev pub regions : List Region → List Region
regions [] = []
regions (r ∷ rs) = if r.size == 0 then [] else r ∷ regions rs

-- The regions that the memory management unit is told of, and the hand-off blocks of all.
abbrev pub mapped : List Region → List Descriptor
mapped [] = []
mapped (r ∷ rs) = if is_hob_only r.hob_option then mapped rs else descriptor r ∷ mapped rs

abbrev pub blocks : Region → List Hob
blocks r =
    resource_descriptor r.resource_type r.resource_attribute r.address r.size
    ∷ (if is_system_memory r.resource_type || is_runtime_data r.memory_type
        then memory_allocation r.address r.size r.memory_type ∷ []
        else [])

abbrev pub all_blocks : List Region → List Hob
all_blocks [] = []
all_blocks (r ∷ rs) = (if builds_hob r.hob_option then blocks r else []) ++ all_blocks rs

add_hob_lem : (r : Region) (hobs : List Hob) → add_hob r hobs ≡ hobs ++ blocks r
unfolding add_hob
add_hob_lem r hobs =
    elim (Bool-cases (is_system_memory r.resource_type || is_runtime_data r.memory_type)) [
      | inl e ↦ rw e (append_assoc hobs _ _)
      | inr e ↦ rw e refl
    ]

-- The end of MemoryPeim after n descriptors with the blocks hs and the descriptors ts.
abbrev pub ending : Bool → ℕ → List Hob → List Descriptor → Outcome
ending information n hs ts =
    if ltb n max_arm_memory_region_descriptor_count
    then configured (hs ++ (if information then memory_type_information ∷ [] else []))
        (ts ++ end_descriptor ∷ [])
    else assertion_failed

finish-ending :
    (information : Bool) (n : ℕ) (hs : List Hob) (ts : List Descriptor)
    → finish information n hs ts ≡ ending information n hs ts
finish-ending true n hs ts = refl
finish-ending false n hs ts = simp (append-nil)

-- What is left to do for the regions.
abbrev result : Bool → List Region → ℕ → List Hob → List Descriptor → Outcome
result information rs n hs ts =
    ending information (n + length (mapped rs)) (hs ++ all_blocks rs) (ts ++ mapped rs)

built :
    (r : Region) (hs : List Hob)
    → (if builds_hob r.hob_option then add_hob r hs else hs)
      ≡ hs ++ (if builds_hob r.hob_option then blocks r else [])
built r hs = elim (Bool-cases (builds_hob r.hob_option)) [
  | inl e ↦ rw e (add_hob_lem r hs)
  | inr e ↦ rw e (sym (append-nil hs))
]

peim_loop_lem :
    (information : Bool) (rs : List Region) (n : ℕ) (hs : List Hob) (ts : List Descriptor)
    → peim_loop information rs n hs ts ≡ result information (regions rs) n hs ts
unfolding peim_loop
peim_loop_lem information [] n hs ts =
    finish-ending information n hs ts ∙ simp (append-nil, add-zero)
peim_loop_lem information (r ∷ rs) n hs ts =
    let hs' = if builds_hob r.hob_option then add_hob r hs else hs in
    let left = regions rs in
    let kept : hs' ++ all_blocks left ≡ hs ++ all_blocks (r ∷ left) =
      ap (λ h. h ++ all_blocks left) (built r hs) ∙ append_assoc hs _ (all_blocks left) in
    elim (Bool-cases (r.size == 0)) [
      | inl e ↦ rw e (finish-ending information n hs ts ∙ simp (append-nil, add-zero))
      | inr e ↦ rw e (elim (Bool-cases (is_hob_only r.hob_option)) [
        | inl only ↦ rw only (
            peim_loop_lem information rs n hs' ts
            ∙ ap (λ h. ending information (n + length (mapped left)) h (ts ++ mapped left)) kept)
        | inr both ↦ rw both (elim (Bool-cases (ltb n 32)) [
          | inl room ↦
              let more : suc n + length (mapped left) ≡ n + suc (length (mapped left)) =
                omega arith in
              rw room (
                peim_loop_lem information rs (suc n) hs' (ts ++ descriptor r ∷ [])
                ∙ ap
                    (λ h.
                      ending information (suc n + length (mapped left)) h
                        ((ts ++ descriptor r ∷ []) ++ mapped left))
                    kept
                ∙ ap
                    (λ t.
                      ending information (suc n + length (mapped left))
                        (hs ++ all_blocks (r ∷ left)) t)
                    (append_assoc ts (descriptor r ∷ []) (mapped left))
                ∙ ap
                    (λ m.
                      ending information m (hs ++ all_blocks (r ∷ left))
                        (ts ++ descriptor r ∷ mapped left))
                    more)
          | inr full ↦
              let past : ltb (n + suc (length (mapped left))) 32 ≡ false = ground (arith, full) in
              rw (full, past) refl
        ])
      ])
    ]

-- With memory, MemoryPeim succeeds if its map has fewer than 32 regions for the memory management unit
-- up to the first of length 0: it adds the blocks of all regions that ask for them in order, and hands
-- on the regions in order with a terminator. With 32 or more an ASSERT fails, and without memory too.
pub memory_peim_lem :
    (memory_size : ℕ) (information : Bool) (rs : List Region) (hobs : List Hob)
    → memory_peim memory_size information rs hobs ≡ (
        if memory_size == 0
        then assertion_failed
        else ending information
            (length (mapped (regions rs)))
            (hobs ++ all_blocks (regions rs))
            (mapped (regions rs)))
unfolding memory_peim
memory_peim_lem memory_size information rs hobs =
    ap (λ o. if memory_size == 0 then assertion_failed else o)
      (peim_loop_lem information rs 0 hobs []
        ∙ ap (λ n. ending information n (hobs ++ all_blocks (regions rs)) (mapped (regions rs)))
            (zero-add (length (mapped (regions rs)))))

-- Of the device's own map 32 regions are for the memory management unit, and 33 with the log of the
-- serial port in memory, where the array has 32 entries with the terminator: the ASSERT fails in both
-- configurations.
pub device_map_overflows :
    (memory_size : ℕ) (information serial : Bool) (hobs : List Hob)
    → (length (mapped (regions (device_memory_descriptor_ex serial))) ≡ (if serial then 33 else 32))
      × (memory_peim memory_size information (device_memory_descriptor_ex serial) hobs
          ≡ assertion_failed)
device_map_overflows memory_size information true hobs = (
  refl,
  memory_peim_lem memory_size information (device_memory_descriptor_ex true) hobs ∙ ground arith,
)
device_map_overflows memory_size information false hobs = (
  refl,
  memory_peim_lem memory_size information (device_memory_descriptor_ex false) hobs ∙ ground arith,
)
