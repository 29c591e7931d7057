-- ===== src/Memory/Mapping.antt =====
-- `VmarMapping` of library/core/src/memory/vmar.rs. A mapping holds its VMO by reference: here by
-- its number in `vmos`, the state of all VMOs at the time of the call.
pub mod Laws
use akarin.Base.{ℕ, ◌+◌, ◌-◌, Bool, true, false, not, ◌&&◌, Option, none, some, leb, if◌then◌else◌}
use mathlib.Core.Logic.{ite}
use akarin.Base.Bits.{Bits, contains as has}
use akarin.Memory.Flags.{Flags, global, device, allows_mmu, from_mmu_flags}
use akarin.Memory.Range.{VmRange, len, contains, checked_add, saturating_add}
use akarin.Memory.Layout.{VmLayoutSegment, classify_range, is_guard, is_user, max_flags}
use akarin.Memory.Purpose.{RegionPurpose, is_resident, is_device}
use akarin.Memory.Vmo.{Vmo, VmoFaultPolicy, VmFaultResolution, can_map}
use akarin.Memory.Vmo

pub record VmarMapping : Type 0 where
  pub range : VmRange
  pub flags : Flags
  pub purpose : RegionPurpose
  pub vmo : ℕ
  pub vmo_offset : ℕ

module _ (vmos : ℕ → Vmo) where
  -- The tests of `validate_layout` once the segment is known.
  validate_in : VmarMapping → VmLayoutSegment → Bool
  validate_in m segment =
      if is_guard segment
      then false
      else if not (allows_mmu (max_flags segment) m.flags)
      then false
      else if has m.flags global && not (is_user segment) && not (is_resident m.purpose)
      then false
      else if has m.flags device && not (is_device m.purpose)
      then false
      else if not (can_map (vmos m.vmo) m.flags)
      then false
      else leb (saturating_add m.vmo_offset (len m.range)) (vmos m.vmo).size

  validate_found : VmarMapping → Option VmLayoutSegment → Bool
  unfolding validate_in
  validate_found m none = false
  validate_found m (some segment) = validate_in m segment

  unfoldable pub validate_layout : VmarMapping → Bool
  unfolding validate_found
  validate_layout m = validate_found m (classify_range m.range)

  unfoldable pub fault_policy : VmarMapping → VmoFaultPolicy
  fault_policy m = Vmo.fault_policy (vmos m.vmo)

  unfoldable pub vmo_offset_for_addr : VmarMapping → ℕ → Option ℕ
  vmo_offset_for_addr m addr =
      if not (contains m.range addr) then none else checked_add m.vmo_offset (addr - m.range.start)

  resolve_at : VmarMapping → Bits → Option ℕ → VmFaultResolution
  resolve_at m access none = VmFaultResolution.invalid_range
  resolve_at m access (some offset) = Vmo.resolve_fault (vmos m.vmo) offset access

  unfoldable pub resolve_fault : VmarMapping → ℕ → Bits → VmFaultResolution
  unfolding resolve_at
  resolve_fault m addr access =
      if not (allows_mmu m.flags (from_mmu_flags access))
      then VmFaultResolution.protection_denied
      else resolve_at m access (vmo_offset_for_addr m addr)
