-- ===== src/Memory/Control.antt =====
-- The control plane of VMARs (library/core/src/memory/vmar.rs and mod.rs): what a guard lets its
-- holder do. A guard is a VMAR's number and the interface rights of the handle it came from. The
-- errors are those of object.rs and vm.rs in library/syscall/src/errno.
pub mod WriteGuard
pub mod Dispatch
use akarin.Base.{
  ℕ, Bool, true, false, not, ◌&&◌, ◌||◌, Option, none, some, List, get_elem?, set, ltb, ◌==◌, ◌≡◌,
  ap, if◌then◌else◌,
}
use akarin.Base.Bits.{Bits, bit, ◌∪◌, contains, equal}
use akarin.Memory.Flags.{Flags}
use akarin.Memory.Range.{VmRange, same_range}
use akarin.Memory.Purpose.{RegionPurpose}
use akarin.Memory.Vmo.{Vmo}
use akarin.Memory.Mapping.{VmarMapping}
use akarin.Memory.Vmar.{Vmar, VmarEntry, VmarError, Outcome, map_vmo, protect, unmap}
use akarin.Memory.Vmar as Region
use akarin.Memory.Space.{Store, allocate_child, allocate_child_any, mapping_at}

pub data ObjectError : Type 0 where
  object_destroyed insufficient_capabilities invalid_argument object_not_found : ObjectError
  dangerous_name duplicate_child_name agent_handle_already_exists : ObjectError

pub data VmError : Type 0 where
  invalid_argument invalid_range already_mapped permission_denied not_mapped : VmError
  buffer_too_small fault : VmError

unfoldable pub vm_error_of : VmarError → VmError
vm_error_of VmarError.invalid_range = VmError.invalid_range
vm_error_of VmarError.already_mapped = VmError.already_mapped
vm_error_of VmarError.permission_denied = VmError.permission_denied
vm_error_of VmarError.not_mapped = VmError.not_mapped

-- `Result<A, VmControlError>`, in which `Result<A, ObjectError>` has no `vm`; or a failed `expect`.
pub data Control (A : Type 0) : Type 0 where
  done : A → Control A
  object : ObjectError → Control A
  vm : VmError → Control A
  panic : Control A

pub data VmarMethod : Type 0 where
  allocate destroy map map_clock map_iob op_range protect_method unmap_method : VmarMethod

unfoldable pub method_code : VmarMethod → ℕ
method_code allocate = 0
method_code destroy = 1
method_code map = 2
method_code map_clock = 3
method_code map_iob = 4
method_code op_range = 5
method_code protect_method = 6
method_code unmap_method = 7

-- `VmarMethod::try_from`
unfoldable pub method_of : ℕ → Option VmarMethod
unfolding method_code
method_of value =
    if value == method_code allocate
    then some allocate
    else if value == method_code destroy
    then some destroy
    else if value == method_code map
    then some map
    else if value == method_code map_clock
    then some map_clock
    else if value == method_code map_iob
    then some map_iob
    else if value == method_code op_range
    then some op_range
    else if value == method_code protect_method
    then some protect_method
    else if value == method_code unmap_method
    then some unmap_method
    else none

abbrev pub vm_allocate : Bits
vm_allocate = bit 0

abbrev pub vm_map : Bits
vm_map = bit 1

abbrev pub vm_protect : Bits
vm_protect = bit 2

abbrev pub vm_unmap : Bits
vm_unmap = bit 3

abbrev pub vm_destroy : Bits
vm_destroy = bit 4

abbrev pub vm_query : Bits
vm_query = bit 5

abbrev pub vmar_default_interface_caps : Bits
vmar_default_interface_caps = vm_allocate ∪ vm_map ∪ vm_protect ∪ vm_unmap ∪ vm_query

abbrev pub vmar_admin_interface_caps : Bits
vmar_admin_interface_caps = vm_destroy

-- `u32::MAX`
abbrev pub all_caps : Bits
all_caps i = ltb i 32

unfoldable pub allow_interface : Bits → Bits → Bool
allow_interface interface_caps required =
    equal interface_caps all_caps || contains interface_caps required

-- A method of one VMAR of the store, run in its place.
at_vmar : {A : Type 0} → Store → ℕ → (Vmar → Vmar × Outcome A) → Option Vmar → Store × Outcome A
at_vmar s id f none = (s, Outcome.panic)
at_vmar s id f (some v) = (set s id (f v).0, (f v).1)

unfoldable pub on_vmar : {A : Type 0} → Store → ℕ → (Vmar → Vmar × Outcome A) → Store × Outcome A
unfolding at_vmar
on_vmar s id f = at_vmar s id f (get_elem? s id)

-- `map_err`, to one error of the object layer, or to the VM error.
abbrev pub or_object : {A : Type 0} → ObjectError → Outcome A → Control A
or_object e (Outcome.ok a) = done a
or_object e (Outcome.err x) = object e
or_object e Outcome.panic = panic

abbrev pub or_vm : {A : Type 0} → Outcome A → Control A
or_vm (Outcome.ok a) = done a
or_vm (Outcome.err x) = vm (vm_error_of x)
or_vm Outcome.panic = panic

-- `allow_interface(..)?` before a call.
abbrev pub guarded : {A : Type 0} → Bits → Bits → Store → Store × Control A → Store × Control A
guarded caps required s r =
    if allow_interface caps required then r else (s, object insufficient_capabilities)

-- `VmarReadGuard::range`
unfoldable pub read_range : Store → ℕ → Bits → Control VmRange
read_range s id caps = elim (get_elem? s id) [
  | none ↦ panic
  | some v ↦
      if allow_interface caps vm_query then done v.range else object insufficient_capabilities
]

-- `VmarAdminGuard::destroy_allowed`
unfoldable pub destroy_allowed : Bits → Control (Unit {0})
destroy_allowed caps =
    if allow_interface caps vm_destroy then done tt else object insufficient_capabilities

pub on_vmar-some :
    {A : Type 0} (s : Store) (id : ℕ) (f : Vmar → Vmar × Outcome A) (v : Vmar)
    → get_elem? s id ≡ some v
    → on_vmar s id f ≡ (set s id (f v).0, (f v).1)
unfolding on_vmar
on_vmar-some s id f v at = ap (at_vmar s id f) at
