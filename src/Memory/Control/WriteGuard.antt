-- ===== src/Memory/Control/WriteGuard.antt =====
-- The methods of `VmarWriteGuard` (library/core/src/memory/vmar.rs), with the suffix `_vm` for those
-- that keep the VM's errors.
use akarin.Base.{ℕ, not, Option, none, some, if◌then◌else◌}
use akarin.Base.Bits.{Bits}
use akarin.Memory.Flags.{Flags}
use akarin.Memory.Range.{VmRange, same_range}
use akarin.Memory.Purpose.{RegionPurpose}
use akarin.Memory.Vmo.{Vmo}
use akarin.Memory.Mapping.{VmarMapping}
use akarin.Memory.Vmar.{VmarEntry, Outcome}
use akarin.Memory.Vmar as Region
use akarin.Memory.Space.{Store, mapping_at}
use akarin.Memory.Space as Tree
use akarin.Memory.Control.{
  ObjectError, VmError, Control, done, object, vm, panic, object_not_found, vm_allocate, vm_map,
  vm_protect, vm_unmap, on_vmar, or_object, or_vm, guarded,
}

-- A result of the store, with its errors mapped.
abbrev mapped : {A B : Type 0} → (Outcome A → Control B) → Store × Outcome A → Store × Control B
mapped f r = (r.0, f r.1)

unfoldable pub allocate_child : Bits → Store → ℕ → VmRange → Store × Control ℕ
allocate_child caps s id range =
    guarded caps vm_allocate s
      (mapped (or_object ObjectError.invalid_argument) (Tree.allocate_child s id range))

unfoldable pub allocate_child_vm : Bits → Store → ℕ → VmRange → Store × Control ℕ
allocate_child_vm caps s id range =
    guarded caps vm_allocate s (mapped or_vm (Tree.allocate_child s id range))

unfoldable pub allocate_child_any : Bits → Store → ℕ → ℕ → Store × Control ℕ
allocate_child_any caps s id size =
    guarded caps vm_allocate s
      (mapped (or_object ObjectError.invalid_argument) (Tree.allocate_child_any s id size))

unfoldable pub allocate_child_any_vm : Bits → Store → ℕ → ℕ → Store × Control ℕ
allocate_child_any_vm caps s id size =
    guarded caps vm_allocate s (mapped or_vm (Tree.allocate_child_any s id size))

unfoldable pub unmap : Bits → Store → ℕ → ℕ → Store × Control VmarEntry
unmap caps s id start =
    guarded caps vm_unmap s
      (mapped (or_object object_not_found) (on_vmar s id (λ v. Region.unmap v start)))

unfoldable pub unmap_vm : Bits → Store → ℕ → ℕ → Store × Control VmarEntry
unmap_vm caps s id start =
    guarded caps vm_unmap s (mapped or_vm (on_vmar s id (λ v. Region.unmap v start)))

abbrev Changed : Type 0
Changed = Control (VmarMapping × VmarMapping)

-- The last lookup of `protect`: the mapping with its new flags.
then_new : Changed → VmarMapping → ℕ → VmRange → Store × Control (Unit {0}) → Store × Changed
then_new missing old id range (s, done tt) = elim (mapping_at s id range.start) [
  | none ↦ (s, missing)
  | some new ↦ (s, done (old, new))
]
then_new missing old id range (s, object e) = (s, object e)
then_new missing old id range (s, vm e) = (s, vm e)
then_new missing old id range (s, panic) = (s, panic)

module _ (vmos : ℕ → Vmo) where
  unfoldable pub map_vmo :
      Bits → Store → ℕ → VmRange → ℕ → ℕ → Flags → RegionPurpose → Store × Control (Unit {0})
  map_vmo caps s id range vmo vmo_offset flags purpose = guarded caps vm_map s (
      mapped (or_object ObjectError.invalid_argument)
        (on_vmar s id (λ v. Region.map_vmo vmos v range vmo vmo_offset flags purpose)))

  unfoldable pub map_vmo_vm :
      Bits → Store → ℕ → VmRange → ℕ → ℕ → Flags → RegionPurpose → Store × Control (Unit {0})
  map_vmo_vm caps s id range vmo vmo_offset flags purpose =
      guarded caps vm_map s (
        mapped or_vm (on_vmar s id (λ v. Region.map_vmo vmos v range vmo vmo_offset flags purpose)))

  -- The body of both forms of `protect`: `missing` is the error for a mapping that is not there, and
  -- `f` maps the others.
  protect_old :
      Changed
      → (Outcome (Unit {0}) → Control (Unit {0}))
      → Store
      → ℕ
      → VmRange
      → Flags
      → Option VmarMapping
      → Store × Changed
  unfolding then_new
  protect_old missing f s id range flags none = (s, missing)
  protect_old missing f s id range flags (some old) =
      if not (same_range old.range range)
      then (s, missing)
      else then_new missing old id range
          (mapped f (on_vmar s id (λ v. Region.protect vmos v range flags)))

  unfoldable pub protect : Bits → Store → ℕ → VmRange → Flags → Store × Changed
  unfolding protect_old
  protect caps s id range flags = guarded caps vm_protect s (
      protect_old (object object_not_found) (or_object ObjectError.invalid_argument) s id range
        flags (mapping_at s id range.start))

  unfoldable pub protect_vm : Bits → Store → ℕ → VmRange → Flags → Store × Changed
  unfolding protect_old
  protect_vm caps s id range flags =
      guarded caps vm_protect s
        (protect_old (vm VmError.not_mapped) or_vm s id range flags (mapping_at s id range.start))
