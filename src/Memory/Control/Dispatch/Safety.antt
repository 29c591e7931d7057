-- ===== src/Memory/Control/Dispatch/Safety.antt =====
-- A system call on a VMAR handle keeps the store a tree, and does nothing without the right.
use akarin.Base.{
  ℕ, ◌≡◌, refl, sym, subst, ◌⊎◌, inl, inr, ◌↔◌, Option, none, some, get_elem?, ◌==◌, ◌%◌, ◌^◌,
  arith, Bool-cases,
}
use akarin.Base.Bits.{Bits}
use akarin.Memory.Flags.{from_bits}
use akarin.Memory.Range.{VmRange, IsProper, range_of, same_range}
use akarin.Memory.Purpose.{RegionPurpose, purpose_of}
use akarin.Memory.Vmo.{Vmo}
use akarin.Memory.Mapping.{VmarMapping}
use akarin.Memory.Vmar.{Vmar, Outcome, map_vmo, protect, unmap}
use akarin.Memory.Space.{Store, allocate_child, allocate_child_any, mapping_at}
use akarin.Memory.Space.Tree.{IsTree, allocate_child-IsTree}
use akarin.Memory.Space.Steps.{
  KeepsTree, KeepsTree-IsTree, unmap-KeepsTree, map_vmo-KeepsTree, protect-KeepsTree,
  allocate_child_any-IsTree,
}
use akarin.Memory.Control.{
  ObjectError, VmarMethod, allocate, destroy, map, map_clock, map_iob, op_range, protect_method,
  unmap_method, method_of, method_code, allow_interface, on_vmar, on_vmar-some, vm_allocate, vm_map,
  vm_protect, vm_unmap,
}
use akarin.Memory.Control.Dispatch.{
  VmarMapSlowArgs, VmarProtectSlowArgs, Caller, Reply, range_at, slot_for, created, create_in,
  do_allocate, replied, map_shared, map_read, map_args_read, do_map, protect_old, protect_read,
  protect_args_read, do_protect, do_unmap, dispatch_write, write,
}

range_at-IsProper : (base size : ℕ) (r : VmRange) → range_at base size ≡ some r → IsProper r
unfolding range_of
range_at-IsProper base size r e = record { nonempty = ground (arith, e); fits = ground (arith, e) }

replied-IsTree :
    {A : Type 0} (caller : Caller) (f : A → Reply) (r : Store × Outcome A)
    → IsTree r.0
    → IsTree (replied caller f r).0
unfolding replied
replied-IsTree caller f (s, Outcome.ok a) t = t
replied-IsTree caller f (s, Outcome.err e) t = t
replied-IsTree caller f (s, Outcome.panic) t = t

on_vmar_run :
    {A : Type 0} (s : Store) (id : ℕ) (f : Vmar → Vmar × Outcome A) (v : Vmar)
    → IsTree s
    → get_elem? s id ≡ some v
    → KeepsTree s id v (f v).0
    → IsTree (on_vmar s id f).0
on_vmar_run s id f v t at k = rw (on_vmar-some s id f v at) (KeepsTree-IsTree s id v (f v).0 t at k)

slot_for-store :
    (caller : Caller) (s : Store) (child : ℕ) (o : Option Vmar) (slot : ObjectError ⊎ ℕ)
    → (slot_for caller s child o slot).0 ≡ s
unfolding slot_for
slot_for-store caller s child none slot = refl
slot_for-store caller s child (some v) (inl e) = refl
slot_for-store caller s child (some v) (inr n) = refl

created-IsTree :
    (caller : Caller) (r : Store × Outcome ℕ) → IsTree r.0 → IsTree (created caller r).0
unfolding created
created-IsTree caller (s, Outcome.ok child) t =
    subst IsTree
      (sym (slot_for-store caller s child (get_elem? s child) (caller.create_object child))) t
created-IsTree caller (s, Outcome.err e) t = t
created-IsTree caller (s, Outcome.panic) t = t

create_in-IsTree :
    (caller : Caller) (s : Store) (id : ℕ) (v : Vmar) (o : Option VmRange)
    → ((r : VmRange) → o ≡ some r → IsProper r)
    → IsTree s
    → get_elem? s id ≡ some v
    → IsTree (create_in caller s id o).0
unfolding create_in
create_in-IsTree caller s id v none p t at = t
create_in-IsTree caller s id v (some range) p t at =
    created-IsTree caller (allocate_child s id range)
      (allocate_child-IsTree s id v range t at (p range refl)).0

module _ (caller : Caller) (s : Store) (id : ℕ) (v : Vmar) (t : IsTree s)
    (at : get_elem? s id ≡ some v) where
  do_allocate-IsTree :
      (caps : Bits) (arg1 arg2 : ℕ) → IsTree (do_allocate caller caps s id arg1 arg2).0
  unfolding do_allocate
  do_allocate-IsTree caps arg1 arg2 = elim (Bool-cases (arg2 == 0)) [
    | inl zero_size ↦ rw zero_size t
    | inr sized ↦ elim (Bool-cases (allow_interface caps vm_allocate)) [
      | inr refused ↦ rw (sized, refused) t
      | inl allowed ↦ elim (Bool-cases (arg1 == 0)) [
        | inl anywhere ↦
            rw (sized, allowed, anywhere)
              (created-IsTree caller (allocate_child_any s id arg2)
                (allocate_child_any-IsTree s id v arg2 t at).0)
        | inr somewhere ↦
            rw (sized, allowed, somewhere)
              (create_in-IsTree caller s id v (range_at arg1 arg2) (range_at-IsProper arg1 arg2) t
                at)
      ]
    ]
  ]

  map_shared-IsTree :
      (vmos : ℕ → Vmo) (args : VmarMapSlowArgs) (flags : Bits) (range : VmRange)
      (purpose : Option RegionPurpose) (vmo : ObjectError ⊎ ℕ)
      → IsProper range
      → IsTree (map_shared caller vmos s id args flags range purpose vmo).0
  unfolding map_shared
  map_shared-IsTree vmos args flags range none vmo p = t
  map_shared-IsTree vmos args flags range (some purpose) (inl e) p = t
  map_shared-IsTree vmos args flags range (some purpose) (inr vmo) p =
      replied-IsTree caller _
        (on_vmar s id (λ w. map_vmo vmos w range vmo args.vmo_offset flags purpose))
        (on_vmar_run s id (λ w. map_vmo vmos w range vmo args.vmo_offset flags purpose) v t at
          (map_vmo-KeepsTree vmos s id v range vmo args.vmo_offset flags purpose (t id v at) p))

  map_read-IsTree :
      (vmos : ℕ → Vmo) (arg2 : ℕ) (args : VmarMapSlowArgs) (flags : Option Bits)
      (range : Option VmRange)
      → ((r : VmRange) → range ≡ some r → IsProper r)
      → IsTree (map_read caller vmos s id arg2 args flags range).0
  unfolding map_read
  map_read-IsTree vmos arg2 args none range p = t
  map_read-IsTree vmos arg2 args (some flags) none p = t
  map_read-IsTree vmos arg2 args (some flags) (some range) p =
      map_shared-IsTree vmos args flags range (purpose_of args.purpose)
        (caller.share_vmo (arg2 % 2 ^ 32)) (p range refl)

  map_args_read-IsTree :
      (vmos : ℕ → Vmo) (arg2 : ℕ) (o : Option VmarMapSlowArgs)
      → IsTree (map_args_read caller vmos s id arg2 o).0
  unfolding map_args_read
  map_args_read-IsTree vmos arg2 none = t
  map_args_read-IsTree vmos arg2 (some args) =
      map_read-IsTree vmos arg2 args (from_bits args.flags) (range_at args.base args.size)
        (range_at-IsProper args.base args.size)

  do_map-IsTree :
      (vmos : ℕ → Vmo) (caps : Bits) (arg1 arg2 : ℕ)
      → IsTree (do_map caller vmos caps s id arg1 arg2).0
  unfolding do_map
  do_map-IsTree vmos caps arg1 arg2 = elim (Bool-cases (allow_interface caps vm_map)) [
    | inr refused ↦ rw refused t
    | inl allowed ↦ rw allowed (map_args_read-IsTree vmos arg2 (caller.map_args arg1))
  ]

  protect_old-IsTree :
      (vmos : ℕ → Vmo) (flags : Bits) (range : VmRange) (o : Option VmarMapping)
      → IsProper range
      → IsTree (protect_old caller vmos s id flags range o).0
  unfolding protect_old
  protect_old-IsTree vmos flags range none p = t
  protect_old-IsTree vmos flags range (some old) p =
      elim (Bool-cases (same_range old.range range)) [
        | inr other ↦ rw other t
        | inl same ↦ rw same (
            replied-IsTree caller _ (on_vmar s id (λ w. protect vmos w range flags)) (
              on_vmar_run s id (λ w. protect vmos w range flags) v t at
                (protect-KeepsTree vmos s id v range flags (t id v at) p)))
      ]

  protect_read-IsTree :
      (vmos : ℕ → Vmo) (flags : Option Bits) (range : Option VmRange)
      → ((r : VmRange) → range ≡ some r → IsProper r)
      → IsTree (protect_read caller vmos s id flags range).0
  unfolding protect_read
  protect_read-IsTree vmos none range p = t
  protect_read-IsTree vmos (some flags) none p = t
  protect_read-IsTree vmos (some flags) (some range) p =
      protect_old-IsTree vmos flags range (mapping_at s id range.start) (p range refl)

  protect_args_read-IsTree :
      (vmos : ℕ → Vmo) (o : Option VmarProtectSlowArgs)
      → IsTree (protect_args_read caller vmos s id o).0
  unfolding protect_args_read
  protect_args_read-IsTree vmos none = t
  protect_args_read-IsTree vmos (some args) =
      protect_read-IsTree vmos (from_bits args.flags) (range_at args.base args.size)
        (range_at-IsProper args.base args.size)

  do_protect-IsTree :
      (vmos : ℕ → Vmo) (caps : Bits) (arg1 : ℕ) → IsTree (do_protect caller vmos caps s id arg1).0
  unfolding do_protect
  do_protect-IsTree vmos caps arg1 = elim (Bool-cases (allow_interface caps vm_protect)) [
    | inr refused ↦ rw refused t
    | inl allowed ↦ rw allowed (protect_args_read-IsTree vmos (caller.protect_args arg1))
  ]

  do_unmap-IsTree :
      (vmos : ℕ → Vmo) (caps : Bits) (arg1 : ℕ) → IsTree (do_unmap caller vmos caps s id arg1).0
  unfolding do_unmap
  do_unmap-IsTree vmos caps arg1 = elim (Bool-cases (allow_interface caps vm_unmap)) [
    | inr refused ↦ rw refused t
    | inl allowed ↦ rw allowed (
        replied-IsTree caller _ (on_vmar s id (λ w. unmap w arg1))
          (on_vmar_run s id (λ w. unmap w arg1) v t at (unmap-KeepsTree s id v arg1 (t id v at))))
  ]

  dispatch_write-IsTree :
      (vmos : ℕ → Vmo) (caps : Bits) (arg1 arg2 : ℕ) (m : Option VmarMethod)
      → IsTree (dispatch_write caller vmos caps s id arg1 arg2 m).0
  unfolding dispatch_write
  dispatch_write-IsTree vmos caps arg1 arg2 none = t
  dispatch_write-IsTree vmos caps arg1 arg2 (some allocate) = do_allocate-IsTree caps arg1 arg2
  dispatch_write-IsTree vmos caps arg1 arg2 (some map) = do_map-IsTree vmos caps arg1 arg2
  dispatch_write-IsTree vmos caps arg1 arg2 (some protect_method) = do_protect-IsTree vmos caps arg1
  dispatch_write-IsTree vmos caps arg1 arg2 (some unmap_method) = do_unmap-IsTree vmos caps arg1
  dispatch_write-IsTree vmos caps arg1 arg2 (some destroy) = t
  dispatch_write-IsTree vmos caps arg1 arg2 (some map_clock) = t
  dispatch_write-IsTree vmos caps arg1 arg2 (some map_iob) = t
  dispatch_write-IsTree vmos caps arg1 arg2 (some op_range) = t

-- Whatever method userspace names, whatever arguments and rights it has and whatever its memory
-- holds, a call through a write handle of a region keeps the store a tree of well-formed regions.
pub write-IsTree :
    (caller : Caller) (vmos : ℕ → Vmo) (caps : Bits) (s : Store) (id : ℕ) (v : Vmar)
    (method_id arg1 arg2 : ℕ)
    → IsTree s
    → get_elem? s id ≡ some v
    → IsTree (write caller vmos caps s id method_id arg1 arg2).0
unfolding write
write-IsTree caller vmos caps s id v method_id arg1 arg2 t at =
    dispatch_write-IsTree caller s id v t at vmos caps arg1 arg2 (method_of method_id)

-- The number of a method reads back as the method, and no other number reads as one.
pub method_of_iff :
    (value : ℕ) (m : VmarMethod) → (method_of value ≡ some m) ↔ (value ≡ method_code m)
unfolding method_of
method_of_iff value allocate = ground arith
method_of_iff value _ = ground arith
