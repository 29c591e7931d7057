-- ===== src/Memory/Control/Dispatch.antt =====
-- `SyscallDispatch` of the guards (library/core/src/memory/vmar.rs): a system call on a VMAR handle,
-- from the numbers that userspace passes. The caller is what the dispatch asks of
-- `ObjectSyscallContext`; its slots and its memory are no part of the store of VMARs.
pub mod Safety
use akarin.Base.{
  ℕ, Bool, not, Option, none, some, ◌⊎◌, inl, inr, get_elem?, ◌==◌, ◌%◌, ◌^◌, if◌then◌else◌,
}
use akarin.Base.Bits.{Bits}
use akarin.Memory.Flags.{from_bits}
use akarin.Memory.Range.{VmRange, range_of, len, checked_add, same_range}
use akarin.Memory.Purpose.{RegionPurpose, purpose_of}
use akarin.Memory.Vmo.{Vmo}
use akarin.Memory.Mapping.{VmarMapping}
use akarin.Memory.Vmar.{Vmar, VmarEntry, entry_range, Outcome, map_vmo, protect, unmap}
use akarin.Memory.Vmar as Region
use akarin.Memory.Space.{Store, allocate_child, allocate_child_any, mapping_at}
use akarin.Memory.Control.{
  ObjectError, VmError, insufficient_capabilities, vm_error_of, VmarMethod, method_of,
  allow_interface, vm_allocate, vm_map, vm_protect, vm_unmap, vm_destroy, on_vmar,
}
use akarin.Memory.Control as Plane

pub record VmarMapSlowArgs : Type 0 where
  pub base : ℕ
  pub size : ℕ
  pub vmo_offset : ℕ
  pub flags : Bits
  pub purpose : ℕ

pub record VmarProtectSlowArgs : Type 0 where
  pub base : ℕ
  pub size : ℕ
  pub flags : Bits

-- What the calling task answers: the arguments that it holds at an address (`read_syscall_pod`,
-- `none` if the copy fails), the VMO of a handle, a slot for a new child, and the destruction of an
-- object.
pub record Caller : Type 0 where
  pub map_args : ℕ → Option VmarMapSlowArgs
  pub protect_args : ℕ → Option VmarProtectSlowArgs
  pub share_vmo : ℕ → ObjectError ⊎ ℕ
  pub create_object : ℕ → ObjectError ⊎ ℕ
  pub destroy_object : ℕ → ObjectError ⊎ Unit {0}

-- `Result<SyscallResult, ObjectError>`: a frame of values, of which the first three are used, or an
-- error of the VM in a frame, or an error of the object layer; or a failed `expect`.
pub data Reply : Type 0 where
  values : ℕ → ℕ → ℕ → Reply
  vm_error : VmError → Reply
  object_error : ObjectError → Reply
  panic : Reply

abbrev pub empty_ok : Reply
empty_ok = values 0 0 0

-- `VmRange::new(base, base.checked_add(size)?)`
abbrev pub range_at : ℕ → ℕ → Option VmRange
range_at base size = elim (checked_add base size) [ none ↦ none | some end ↦ range_of base end ]

module _ (caller : Caller) where
  -- The child gets a slot of the caller; if it gets none, the region stays in its parent.
  slot_for : Store → ℕ → Option Vmar → ObjectError ⊎ ℕ → Store × Reply
  slot_for s child none slot = (s, panic)
  slot_for s child (some v) (inl e) = (s, object_error e)
  slot_for s child (some v) (inr slot) = (s, values slot v.range.start (len v.range))

  created : Store × Outcome ℕ → Store × Reply
  unfolding slot_for
  created (s, Outcome.ok child) = slot_for s child (get_elem? s child) (caller.create_object child)
  created (s, Outcome.err e) = (s, vm_error (vm_error_of e))
  created (s, Outcome.panic) = (s, panic)

  create_in : Store → ℕ → Option VmRange → Store × Reply
  unfolding created
  create_in s id none = (s, vm_error VmError.invalid_argument)
  create_in s id (some range) = created (allocate_child s id range)

  do_allocate : Bits → Store → ℕ → ℕ → ℕ → Store × Reply
  unfolding create_in created
  do_allocate caps s id arg1 arg2 =
      if arg2 == 0
      then (s, vm_error VmError.invalid_argument)
      else if not (allow_interface caps vm_allocate)
      then (s, object_error insufficient_capabilities)
      else if arg1 == 0
      then created (allocate_child_any s id arg2)
      else create_in s id (range_at arg1 arg2)

  replied : {A : Type 0} → (A → Reply) → Store × Outcome A → Store × Reply
  replied f (s, Outcome.ok a) = (s, f a)
  replied f (s, Outcome.err e) = (s, vm_error (vm_error_of e))
  replied f (s, Outcome.panic) = (s, panic)

  module _ (vmos : ℕ → Vmo) where
    map_shared :
        Store
        → ℕ
        → VmarMapSlowArgs
        → Bits
        → VmRange
        → Option RegionPurpose
        → ObjectError ⊎ ℕ
        → Store × Reply
    unfolding replied
    map_shared s id args flags range none vmo = (s, vm_error VmError.invalid_argument)
    map_shared s id args flags range (some purpose) (inl e) = (s, object_error e)
    map_shared s id args flags range (some purpose) (inr vmo) =
        replied (λ _. values range.start (len range) 0)
          (on_vmar s id (λ v. Region.map_vmo vmos v range vmo args.vmo_offset flags purpose))

    -- The flags, the purpose and the range have one error, so that their order cannot be seen.
    map_read : Store → ℕ → ℕ → VmarMapSlowArgs → Option Bits → Option VmRange → Store × Reply
    unfolding map_shared
    map_read s id arg2 args (some flags) (some range) =
        map_shared s id args flags range (purpose_of args.purpose)
          (caller.share_vmo (arg2 % 2 ^ 32))
    map_read s id arg2 args _ _ = (s, vm_error VmError.invalid_argument)

    map_args_read : Store → ℕ → ℕ → Option VmarMapSlowArgs → Store × Reply
    unfolding map_read
    map_args_read s id arg2 none = (s, vm_error VmError.fault)
    map_args_read s id arg2 (some args) =
        map_read s id arg2 args (from_bits args.flags) (range_at args.base args.size)

    do_map : Bits → Store → ℕ → ℕ → ℕ → Store × Reply
    unfolding map_args_read
    do_map caps s id arg1 arg2 =
        if not (allow_interface caps vm_map)
        then (s, object_error insufficient_capabilities)
        else map_args_read s id arg2 (caller.map_args arg1)

    protect_old : Store → ℕ → Bits → VmRange → Option VmarMapping → Store × Reply
    unfolding replied
    protect_old s id flags range none = (s, vm_error VmError.not_mapped)
    protect_old s id flags range (some old) =
        if not (same_range old.range range)
        then (s, vm_error VmError.not_mapped)
        else replied (λ _. empty_ok) (on_vmar s id (λ v. Region.protect vmos v range flags))

    protect_read : Store → ℕ → Option Bits → Option VmRange → Store × Reply
    unfolding protect_old
    protect_read s id (some flags) (some range) =
        protect_old s id flags range (mapping_at s id range.start)
    protect_read s id _ _ = (s, vm_error VmError.invalid_argument)

    protect_args_read : Store → ℕ → Option VmarProtectSlowArgs → Store × Reply
    unfolding protect_read
    protect_args_read s id none = (s, vm_error VmError.fault)
    protect_args_read s id (some args) =
        protect_read s id (from_bits args.flags) (range_at args.base args.size)

    do_protect : Bits → Store → ℕ → ℕ → Store × Reply
    unfolding protect_args_read
    do_protect caps s id arg1 =
        if not (allow_interface caps vm_protect)
        then (s, object_error insufficient_capabilities)
        else protect_args_read s id (caller.protect_args arg1)

    do_unmap : Bits → Store → ℕ → ℕ → Store × Reply
    unfolding replied
    do_unmap caps s id arg1 =
        if not (allow_interface caps vm_unmap)
        then (s, object_error insufficient_capabilities)
        else replied (λ entry. values (len (entry_range entry)) 0 0)
            (on_vmar s id (λ v. Region.unmap v arg1))

    dispatch_write : Bits → Store → ℕ → ℕ → ℕ → Option VmarMethod → Store × Reply
    unfolding do_allocate do_map do_protect do_unmap
    dispatch_write caps s id arg1 arg2 none = (s, vm_error VmError.invalid_argument)
    dispatch_write caps s id arg1 arg2 (some VmarMethod.allocate) = do_allocate caps s id arg1 arg2
    dispatch_write caps s id arg1 arg2 (some VmarMethod.map) = do_map caps s id arg1 arg2
    dispatch_write caps s id arg1 arg2 (some VmarMethod.protect_method) = do_protect caps s id arg1
    dispatch_write caps s id arg1 arg2 (some VmarMethod.unmap_method) = do_unmap caps s id arg1
    dispatch_write caps s id arg1 arg2 (some _) = (s, object_error insufficient_capabilities)

    -- The dispatch of `VmarWriteGuard`.
    unfoldable pub write : Bits → Store → ℕ → ℕ → ℕ → ℕ → Store × Reply
    unfolding dispatch_write
    write caps s id method_id arg1 arg2 = dispatch_write caps s id arg1 arg2 (method_of method_id)

  destroyed : ObjectError ⊎ Unit {0} → Reply
  destroyed (inl e) = object_error e
  destroyed (inr done) = empty_ok

  dispatch_admin : Bits → ℕ → Option VmarMethod → Reply
  unfolding destroyed
  dispatch_admin caps arg1 none = vm_error VmError.invalid_argument
  dispatch_admin caps arg1 (some VmarMethod.destroy) =
      if not (allow_interface caps vm_destroy)
      then object_error insufficient_capabilities
      else destroyed (caller.destroy_object (arg1 % 2 ^ 32))
  dispatch_admin caps arg1 (some _) = object_error insufficient_capabilities

  -- The dispatch of `VmarAdminGuard`.
  unfoldable pub admin : Bits → ℕ → ℕ → Reply
  unfolding dispatch_admin
  admin caps method_id arg1 = dispatch_admin caps arg1 (method_of method_id)

dispatch_read : Option VmarMethod → Reply
dispatch_read none = vm_error VmError.invalid_argument
dispatch_read (some VmarMethod.op_range) = vm_error VmError.invalid_argument
dispatch_read (some _) = object_error insufficient_capabilities

-- The dispatch of `VmarReadGuard`, and of `VmarDeniedGuard`.
unfoldable pub read : ℕ → Reply
unfolding dispatch_read
read method_id = dispatch_read (method_of method_id)

abbrev pub denied : ℕ → Reply
denied method_id = object_error insufficient_capabilities
