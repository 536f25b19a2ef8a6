-- ===== src/Memory/Regions.antt =====
-- The regions of HtcLeoPkg/Include/Configuration/DeviceMemoryMap.h by the addresses that they have.
use lgoptimus_l3pkg.Common.{
  ℕ, zero, suc, ◌+◌, ◌≤◌, ◌<◌, ◌≡◌, refl, ap, Bool, true, false, List, [], ◌∷◌, arith, get_or,
}
use lgoptimus_l3pkg.Memory.Descriptors.{Region, terminator}
use lgoptimus_l3pkg.Memory.Map.{device_memory_descriptor_ex}
use lgoptimus_l3pkg.Memory.Peim.{regions}

abbrev pub region_at : List Region → ℕ → Region
region_at rs i = get_or rs i terminator

abbrev pub Has : Region → ℕ → Type 0
Has r a = (r.address ≤ a) × (a < r.address + r.size)

-- The regions stand in the order of their addresses, from e on.
abbrev Ordered : ℕ → List Region → Type 0
Ordered e [] = Unit
Ordered e (r ∷ rs) = (e ≤ r.address) × Ordered (r.address + r.size) rs

device_map-Ordered : (serial : Bool) → Ordered 0 (regions (device_memory_descriptor_ex serial))
device_map-Ordered true = omega arith
device_map-Ordered false = omega arith

Ordered-above : (e i a : ℕ) (rs : List Region) → Ordered e rs → Has (region_at rs i) a → e ≤ a
Ordered-above e i a [] o h = absurd (omega arith)
Ordered-above e zero a (r ∷ rs) o h = omega arith
Ordered-above e (suc i) a (r ∷ rs) o h =
    let above : r.address + r.size ≤ a = Ordered-above (r.address + r.size) i a rs o.1 h in
    omega arith

Ordered-apart :
    (e i j a : ℕ) (rs : List Region)
    → Ordered e rs
    → Has (region_at rs i) a
    → Has (region_at rs j) a
    → i ≡ j
Ordered-apart e i j a [] o h k = absurd (omega arith)
Ordered-apart e zero zero a (r ∷ rs) o h k = refl
Ordered-apart e zero (suc j) a (r ∷ rs) o h k =
    let above : r.address + r.size ≤ a = Ordered-above (r.address + r.size) j a rs o.1 k in
    absurd (omega arith)
Ordered-apart e (suc i) zero a (r ∷ rs) o h k =
    let above : r.address + r.size ≤ a = Ordered-above (r.address + r.size) i a rs o.1 h in
    absurd (omega arith)
Ordered-apart e (suc i) (suc j) a (r ∷ rs) o h k =
    ap suc (Ordered-apart (r.address + r.size) i j a rs o.1 h k)

-- No address is in two regions of the device's memory map, in either configuration.
device_map_disjoint :
    (serial : Bool) (i j a : ℕ)
    → let rs = regions (device_memory_descriptor_ex serial) in
      Has (region_at rs i) a → Has (region_at rs j) a → i ≡ j
device_map_disjoint serial i j a h k =
    Ordered-apart 0 i j a (regions (device_memory_descriptor_ex serial)) (device_map-Ordered serial)
      h k
