-- ===== src/Memory/Space.antt =====
-- The tree of VMARs of library/core/src/memory/vmar.rs. VMARs are shared by reference, so all of them
-- stand in one store, in the order in which they were made, and a reference is a number. The methods
-- that look at one VMAR alone are those of `Vmar`; here are those that make or enter a child.
pub mod Tree
pub mod Locate
pub mod Steps
use akarin.Base.{
  ℕ, zero, suc, ◌+◌, ◌-◌, ◌*◌, ◌/◌, Bool, true, false, not, ◌&&◌, ◌||◌, Option, none, some, List,
  [], ◌∷◌, ◌++◌, length, get_elem?, set, ltb, ◌==◌, if◌then◌else◌,
}
use akarin.Segment.{query}
use akarin.Segment
use akarin.Memory.FreeSpace.{VmarNode, vmar_state, FreeTree, find_first_fit}
use akarin.Memory.Range.{VmRange, page_size, range_of, contains, is_multiple_of, checked_add}
use akarin.Memory.Layout.{VmLayoutSegment, classify, is_guard}
use akarin.Memory.Mapping.{VmarMapping}
use akarin.Memory.Vmar.{
  Vmar, VmarEntry, guard, region, entry_range, Outcome, ok, err, panic, invalid_range, not_mapped,
  new, valid_child_range, insert_entry, page_index, find_entry,
}

abbrev pub Store : Type 0
Store = List Vmar

-- The child joins the store if its entry was inserted; otherwise it is dropped.
attach : Store → ℕ → Vmar → Vmar × Outcome (Unit {0}) → Store × Outcome ℕ
attach s id child (v, ok done) = (set s id v ++ child ∷ [], ok (length s))
attach s id child (v, err e) = (set s id v, err e)
attach s id child (v, panic) = (set s id v, panic)

with_child : Store → ℕ → Vmar → VmRange → Option Vmar → Store × Outcome ℕ
unfolding attach
with_child s id v range none = (s, panic)
with_child s id v range (some child) = attach s id child (insert_entry v (region range (length s)))

child_of : Store → ℕ → VmRange → Option Vmar → Store × Outcome ℕ
unfolding with_child
child_of s id range none = (s, panic)
child_of s id range (some v) =
    if not (valid_child_range v range)
    then (s, err invalid_range)
    else with_child s id v range (new range)

-- `id` is the number of a VMAR of the store; another number cannot be referred to, and panics.
unfoldable pub allocate_child : Store → ℕ → VmRange → Store × Outcome ℕ
unfolding child_of
allocate_child s id range = child_of s id range (get_elem? s id)

-- The range of `size` bytes from a page on.
candidate_at : Vmar → ℕ → Option ℕ → Outcome VmRange
candidate_at v size none = err not_mapped
candidate_at v size (some start_page) =
    let start = v.range.start + start_page * page_size in
    elim (checked_add start size) [
      | none ↦ err invalid_range
      | some end ↦ elim (range_of start end) [ none ↦ err invalid_range | some r ↦ ok r ]
    ]

candidate_in : Vmar → ℕ → Segment.Result (VmarNode × FreeTree) → Vmar × Outcome VmRange
unfolding candidate_at
candidate_in v size (Segment.err e) = (v, panic)
candidate_in v size (Segment.ok (overall, tree)) =
    let (found, tree') = find_first_fit v.page_count tree 0 v.page_count (size / page_size) in
    if ltb overall.max_free (size / page_size)
    then (record v { tree = tree }, err not_mapped)
    else (record v { tree = tree' }, candidate_at v size found)

-- The block of `allocate_child_any` that holds the lock: it picks the range of the child.
unfoldable pub candidate : Vmar → ℕ → Vmar × Outcome VmRange
unfolding candidate_in
candidate v size = candidate_in v size (query v.tree 0 v.page_count)

allocate_candidate : Store → ℕ → Vmar × Outcome VmRange → Store × Outcome ℕ
allocate_candidate s id (v, ok range) = allocate_child (set s id v) id range
allocate_candidate s id (v, err e) = (set s id v, err e)
allocate_candidate s id (v, panic) = (set s id v, panic)

any_child_of : Store → ℕ → ℕ → Option Vmar → Store × Outcome ℕ
unfolding allocate_candidate
any_child_of s id size none = (s, panic)
any_child_of s id size (some v) =
    if size == 0 || not (is_multiple_of size page_size)
    then (s, err invalid_range)
    else allocate_candidate s id (candidate v size)

unfoldable pub allocate_child_any : Store → ℕ → ℕ → Store × Outcome ℕ
unfolding any_child_of
allocate_child_any s id size = any_child_of s id size (get_elem? s id)

pub data VmPointerRegion : Type 0 where
  unmapped guard_page : VmPointerRegion
  static : VmLayoutSegment → VmPointerRegion
  reserved : VmRange → VmPointerRegion
  mapping : VmarMapping → VmPointerRegion

unfoldable pub locate_outside : Option VmLayoutSegment → VmPointerRegion
locate_outside none = unmapped
locate_outside (some segment) = if is_guard segment then guard_page else static segment

-- The entry decides, given the descent into a child.
locate_entry : (ℕ → Option VmPointerRegion) → VmarEntry → Option VmPointerRegion
locate_entry descend (guard range) = some guard_page
locate_entry descend (VmarEntry.mapping m) = some (mapping m)
locate_entry descend (region range child) = descend child

locate_found :
    (ℕ → Option VmPointerRegion) → Vmar → ℕ → Option (ℕ × VmarEntry) → Option VmPointerRegion
unfolding locate_entry
locate_found descend v addr none = some (reserved v.range)
locate_found descend v addr (some (k, entry)) =
    if contains (entry_range entry) addr
    then locate_entry descend entry
    else some (reserved v.range)

locate_page : (ℕ → Option VmPointerRegion) → Vmar → ℕ → Option ℕ → Option VmPointerRegion
unfolding locate_found
locate_page descend v addr none = some (reserved v.range)
locate_page descend v addr (some page) = locate_found descend v addr (find_entry v page)

locate_in : (ℕ → Option VmPointerRegion) → ℕ → Option Vmar → Option VmPointerRegion
unfolding locate_page locate_outside
locate_in descend addr none = none
locate_in descend addr (some v) =
    if not (contains v.range addr)
    then some (locate_outside (classify addr))
    else locate_page descend v addr (page_index v addr)

-- The descent enters children, on fuel; `none` if it runs out, or at a number that is no VMAR.
unfoldable pub locate : ℕ → Store → ℕ → ℕ → Option VmPointerRegion
unfolding locate_in
locate zero s id addr = none
locate (suc fuel) s id addr = locate_in (λ child. locate fuel s child addr) addr (get_elem? s id)

mapping_of : Option VmPointerRegion → Option VmarMapping
mapping_of (some (mapping m)) = some m
mapping_of _ = none

-- A store has no longer chain of children than VMARs, so that its length is fuel enough.
unfoldable pub mapping_at : Store → ℕ → ℕ → Option VmarMapping
unfolding mapping_of
mapping_at s id addr = mapping_of (locate (length s) s id addr)
