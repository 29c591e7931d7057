-- ===== src/Memory/VSpace.antt =====
-- library/core/src/memory/vspace.rs: the address space of a process, a root VMAR with one child for
-- each fixed userspace segment. The VMARs stand in the store of `Space`; a reference is a number.
pub mod Validate
pub mod Made
pub mod Segments
use akarin.Base.{
  ℕ, zero, suc, ◌+◌, ◌-◌, min, Bool, true, false, not, Option, none, some, List, [], ◌∷◌, get_elem?,
  length, ltb, leb, if◌then◌else◌,
}
use akarin.Memory.Flags.{Flags, allows_mmu}
use akarin.Memory.Range.{VmRange, range_of, contains_range}
use akarin.Memory.Layout.{
  VmLayoutSegment, start, end_exclusive, user_image, user_heap, user_mapped, user_mmio, user_stack,
}
use akarin.Memory.Mapping.{VmarMapping}
use akarin.Memory.Vmar.{Vmar, Outcome, VmarError}
use akarin.Memory.Vmar as Region
use akarin.Memory.Space.{Store, VmPointerRegion, allocate_child, locate, mapping_at}

pub data VSpaceError : Type 0 where
  invalid_range already_mapped not_mapped permission_denied : VSpaceError

unfoldable pub from_vmar_error : VmarError → VSpaceError
from_vmar_error Region.VmarError.invalid_range = invalid_range
from_vmar_error Region.VmarError.already_mapped = already_mapped
from_vmar_error Region.VmarError.permission_denied = permission_denied
from_vmar_error Region.VmarError.not_mapped = not_mapped

-- `panic` stands for a failed `expect` or an explicit `panic!`.
pub data Result (A : Type 0) : Type 0 where
  ok : A → Result A
  err : VSpaceError → Result A
  panic : Result A

-- One turn of the loop of `validate_range`, given the rest of the loop.
validate_mapped :
    (ℕ → Option (Result (Unit {0})))
    → VmRange
    → Flags
    → ℕ
    → Option VmarMapping
    → Option (Result (Unit {0}))
validate_mapped rest range required cursor none = some (err not_mapped)
validate_mapped rest range required cursor (some mapping) =
    let next = min mapping.range.end range.end in
    if not (allows_mmu mapping.flags required)
    then some (err permission_denied)
    else if leb next cursor
    then some (err invalid_range)
    else rest next

-- The loop, on fuel; `none` if it runs out.
validate_from : ℕ → Store → ℕ → VmRange → Flags → ℕ → Option (Result (Unit {0}))
unfolding validate_mapped
validate_from zero s root range required cursor = none
validate_from (suc fuel) s root range required cursor =
    if not (ltb cursor range.end)
    then some (ok tt)
    else validate_mapped (λ next. validate_from fuel s root range required next) range required
        cursor (mapping_at s root cursor)

validate_in_root : Store → ℕ → VmRange → Flags → Option Vmar → Option (Result (Unit {0}))
unfolding validate_from
validate_in_root s root range required none = none
validate_in_root s root range required (some v) =
    if not (contains_range v.range range)
    then some (err invalid_range)
    else validate_from (suc (range.end - range.start)) s root range required range.start

-- The cursor moves on in each turn: the length of the range and one turn more are fuel enough.
unfoldable pub validate_range : Store → ℕ → VmRange → Flags → Option (Result (Unit {0}))
unfolding validate_in_root
validate_range s root range required = validate_in_root s root range required (get_elem? s root)

unfoldable pub segment_range : VmLayoutSegment → Option VmRange
segment_range segment = elim (end_exclusive segment) [
  | none ↦ none
  | some end ↦ range_of (start segment) end
]

pub record VSpaceSegments : Type 0 where
  pub user_image : ℕ
  pub user_heap : ℕ
  pub user_mapped : ℕ
  pub user_mmio : ℕ
  pub user_stack : ℕ

-- `VSpaceSegments::new` makes the children one after the other, and stops at the first error. The
-- rest of the calls, `rest`, is given the number of the child.
and_then :
    (Store → ℕ → Store × Result VSpaceSegments) → Store × Outcome ℕ → Store × Result VSpaceSegments
and_then rest (s, Region.Outcome.ok child) = rest s child
and_then rest (s, Region.Outcome.err e) = (s, err (from_vmar_error e))
and_then rest (s, Region.Outcome.panic) = (s, panic)

with_segment :
    Store
    → ℕ
    → (Store → ℕ → Store × Result VSpaceSegments)
    → Option VmRange
    → Store × Result VSpaceSegments
unfolding and_then
with_segment s root rest none = (s, err invalid_range)
with_segment s root rest (some range) = and_then rest (allocate_child s root range)

-- The five calls, from the last one backwards, each with the numbers of the children before it.
all_made : ℕ → ℕ → ℕ → ℕ → Store → ℕ → Store × Result VSpaceSegments
all_made image heap mapped mmio s stack = (
  s,
  ok (record {
    user_image = image;
    user_heap = heap;
    user_mapped = mapped;
    user_mmio = mmio;
    user_stack = stack;
  }),
)

make_stack : ℕ → ℕ → ℕ → ℕ → Store → ℕ → Store × Result VSpaceSegments
make_stack root image heap mapped s mmio =
    with_segment s root (all_made image heap mapped mmio) (segment_range user_stack)

make_mmio : ℕ → ℕ → ℕ → Store → ℕ → Store × Result VSpaceSegments
make_mmio root image heap s mapped =
    with_segment s root (make_stack root image heap mapped) (segment_range user_mmio)

make_mapped : ℕ → ℕ → Store → ℕ → Store × Result VSpaceSegments
make_mapped root image s heap =
    with_segment s root (make_mmio root image heap) (segment_range user_mapped)

make_heap : ℕ → Store → ℕ → Store × Result VSpaceSegments
make_heap root s image = with_segment s root (make_mapped root image) (segment_range user_heap)

unfoldable pub new_segments : Store → ℕ → Store × Result VSpaceSegments
unfolding with_segment all_made make_stack make_mmio make_mapped make_heap
new_segments s root = with_segment s root (make_heap root) (segment_range user_image)

-- `VSpaceSegments::segment`; it panics on a segment that is not managed.
unfoldable pub segment : VSpaceSegments → VmLayoutSegment → Option ℕ
segment v VmLayoutSegment.user_image = some v.user_image
segment v VmLayoutSegment.user_heap = some v.user_heap
segment v VmLayoutSegment.user_mapped = some v.user_mapped
segment v VmLayoutSegment.user_mmio = some v.user_mmio
segment v VmLayoutSegment.user_stack = some v.user_stack
segment v _ = none

pub record VSpace : Type 0 where
  pub root : ℕ
  pub segments : VSpaceSegments

with_segments : ℕ → Store × Result VSpaceSegments → Store × Result VSpace
with_segments root (s, ok segments) = (s, ok (record { root = root; segments = segments }))
with_segments root (s, err e) = (s, err e)
with_segments root (s, panic) = (s, panic)

-- `VSpace::new`
unfoldable pub new_vspace : Store → ℕ → Store × Result VSpace
unfolding with_segments
new_vspace s root = with_segments root (new_segments s root)

-- `VSpace::locate_ptr`, with the fuel of the store.
unfoldable pub locate_ptr : Store → VSpace → ℕ → Option VmPointerRegion
locate_ptr s space addr = locate (length s) s space.root addr

pub record VSpaceInfo : Type 0 where
  pub root : VmRange
  pub active_entries : ℕ

-- `VSpace::info`
unfoldable pub info : Store → VSpace → Option VSpaceInfo
info s space = elim (get_elem? s space.root) [
  | none ↦ none
  | some v ↦ some (record { root = v.range; active_entries = Region.child_count v })
]
