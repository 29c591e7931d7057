-- ===== src/Memory/Vmar.antt =====
-- `Vmar` of library/core/src/memory/vmar.rs: one address-space region manager. The lock is held for
-- the length of each method, so that a method is one step on the state below it; a method that
-- works on the state hands it back beside its result. `panic` stands for a failed `expect`.
pub mod Invariant
pub mod Insert
pub mod Unmap
pub mod Find
pub mod Protect
pub mod Refuse
use akarin.Base.{
  ℕ, zero, suc, ◌+◌, ◌-◌, ◌*◌, ◌/◌, max, Bool, true, false, not, ◌&&◌, ◌||◌, Option, none, some,
  List, [], ◌∷◌, map, length, ltb, leb, ◌==◌, if◌then◌else◌,
}
use akarin.Base.OrdMap.{lookup, insert, remove, last_le}
use akarin.Segment.{SegmentTree, query, update}
use akarin.Segment
use akarin.Memory.FreeSpace.{VmarNode, free, used, fully_free, vmar_state, FreeTree, find_first_fit}
use akarin.Memory.Flags.{Flags}
use akarin.Memory.Range.{
  VmRange, page_size, range_of, len, contains, contains_range, is_page_aligned, is_multiple_of,
  same_range, checked_add, checked_sub,
}
use akarin.Memory.Layout.{VmLayoutSegment, classify_range, is_guard}
use akarin.Memory.Purpose.{RegionPurpose}
use akarin.Memory.Vmo.{Vmo}
use akarin.Memory.Mapping.{VmarMapping, validate_layout}

-- A child VMAR is shared: an entry holds its number in the store of all VMARs.
pub data VmarEntry : Type 0 where
  guard : VmRange → VmarEntry
  mapping : VmarMapping → VmarEntry
  region : VmRange → ℕ → VmarEntry

abbrev pub entry_range : VmarEntry → VmRange
entry_range (guard range) = range
entry_range (mapping m) = m.range
entry_range (region range child) = range

pub data VmarError : Type 0 where
  invalid_range already_mapped permission_denied not_mapped : VmarError

pub data Outcome (A : Type 0) : Type 0 where
  ok : A → Outcome A
  err : VmarError → Outcome A
  panic : Outcome A

-- `VmarShared` and `VmarState` in one record.
pub record Vmar : Type 0 where
  pub range : VmRange
  pub page_count : ℕ
  pub tree : FreeTree
  pub entries : List (ℕ × VmarEntry)

with_tree : VmRange → ℕ → Segment.Result FreeTree → Option Vmar
with_tree range page_count (Segment.err e) = none
with_tree range page_count (Segment.ok tree) =
    some (record { range = range; page_count = page_count; tree = tree; entries = [] })

-- `VmarState::new`, `none` for a failed `expect`.
new_state : VmRange → ℕ → Option Vmar
unfolding with_tree
new_state range page_count =
    let tree : FreeTree = Segment.new 0 (max page_count 1) in
    if page_count == 0
    then some (record { range = range; page_count = page_count; tree = tree; entries = [] })
    else with_tree range page_count (update tree 0 page_count free)

unfoldable pub new : VmRange → Option Vmar
unfolding new_state
new range = new_state range (len range / page_size)

abbrev pub valid_child_range : Vmar → VmRange → Bool
valid_child_range v range = is_page_aligned range && contains_range v.range range

unfoldable pub page_index : Vmar → ℕ → Option ℕ
page_index v addr =
    if contains v.range addr then some ((addr - v.range.start) / page_size) else none

abbrev pub some_if : Bool → ℕ × ℕ → Option (ℕ × ℕ)
some_if test p = if test then some p else none

span_from : Vmar → VmRange → Option ℕ → Option (ℕ × ℕ)
span_from v range none = none
span_from v range (some start) =
    let end = (range.end - v.range.start) / page_size in
    some_if (ltb start end && leb end (len v.range / page_size)) (start, end)

unfoldable pub page_span : Vmar → VmRange → Option (ℕ × ℕ)
unfolding span_from page_index
page_span v range = span_from v range (page_index v range.start)

span_between : ℕ → Option ℕ → Option ℕ → Option (ℕ × ℕ)
span_between page_count (some from) (some to) =
    let start = from / page_size in
    let end = to / page_size in some_if (ltb start end && leb end page_count) (start, end)
span_between page_count _ _ = none

unfoldable pub page_span_for_range : Vmar → ℕ → VmRange → Option (ℕ × ℕ)
unfolding span_between
page_span_for_range v page_count range =
    span_between page_count (checked_sub range.start v.range.start)
      (checked_sub range.end v.range.start)

entry_if : ℕ → ℕ × VmarEntry → Option (ℕ × ℕ) → Option (ℕ × VmarEntry)
entry_if page entry none = none
entry_if page entry (some (start, end)) =
    if leb start page && ltb page end then some entry else none

entry_near : Vmar → ℕ → Option (ℕ × VmarEntry) → Option (ℕ × VmarEntry)
unfolding entry_if page_span_for_range
entry_near v page none = none
entry_near v page (some (start_page, entry)) =
    entry_if page (start_page, entry) (page_span_for_range v v.page_count (entry_range entry))

unfoldable pub find_entry : Vmar → ℕ → Option (ℕ × VmarEntry)
unfolding entry_near
find_entry v page = entry_near v page (last_le v.entries page)

-- `insert_entry`, from its last line backwards: the tree is told that the pages are used, the entry
-- is stored if the pages are free, the tree is asked, and the pages are computed.
occupy : Vmar → Segment.Result FreeTree → Vmar × Outcome (Unit {0})
occupy v (Segment.err e) = (v, panic)
occupy v (Segment.ok tree) = (record v { tree = tree }, ok tt)

store_if_free :
    Vmar → VmarEntry → ℕ → ℕ → Segment.Result (VmarNode × FreeTree) → Vmar × Outcome (Unit {0})
unfolding occupy
store_if_free v entry start end (Segment.err e) = (v, panic)
store_if_free v entry start end (Segment.ok (status, tree)) =
    if not (fully_free status)
    then (record v { tree = tree }, err already_mapped)
    else occupy (record v { tree = tree; entries = insert v.entries start entry })
        (update tree start end used)

store_at : Vmar → VmarEntry → Option (ℕ × ℕ) → Vmar × Outcome (Unit {0})
unfolding store_if_free
store_at v entry none = (v, err invalid_range)
store_at v entry (some (start, end)) = store_if_free v entry start end (query v.tree start end)

unfoldable pub insert_entry : Vmar → VmarEntry → Vmar × Outcome (Unit {0})
unfolding store_at
insert_entry v entry =
    if not (valid_child_range v (entry_range entry))
    then (v, err invalid_range)
    else store_at v entry (page_span v (entry_range entry))

guard_in : Vmar → VmRange → Option VmLayoutSegment → Vmar × Outcome (Unit {0})
guard_in v range none = (v, err invalid_range)
guard_in v range (some segment) =
    if not (is_guard segment) then (v, err permission_denied) else insert_entry v (guard range)

unfoldable pub map_guard : Vmar → VmRange → Vmar × Outcome (Unit {0})
unfolding guard_in
map_guard v range =
    if not (is_page_aligned range)
    then (v, err invalid_range)
    else guard_in v range (classify_range range)

-- `unmap`, from its last line backwards.
release : Vmar → VmarEntry → Segment.Result FreeTree → Vmar × Outcome VmarEntry
release v entry (Segment.err e) = (v, panic)
release v entry (Segment.ok tree) = (record v { tree = tree }, ok entry)

release_span : Vmar → VmarEntry → Option (ℕ × ℕ) → Vmar × Outcome VmarEntry
unfolding release
release_span v entry none = (v, err invalid_range)
release_span v entry (some (start, end)) = release v entry (update v.tree start end free)

unmap_entry : Vmar → ℕ → ℕ → Option VmarEntry → Vmar × Outcome VmarEntry
unfolding release_span
unmap_entry v start page none = (v, err not_mapped)
unmap_entry v start page (some entry) =
    let removed = record v { entries = remove v.entries page } in
    if not ((entry_range entry).start == start)
    then (record v { entries = insert removed.entries page entry }, err not_mapped)
    else release_span removed entry (page_span v (entry_range entry))

unmap_page : Vmar → ℕ → Option ℕ → Vmar × Outcome VmarEntry
unfolding unmap_entry
unmap_page v start none = (v, err invalid_range)
unmap_page v start (some page) = unmap_entry v start page (lookup v.entries page)

unfoldable pub unmap : Vmar → ℕ → Vmar × Outcome VmarEntry
unfolding unmap_page
unmap v start = unmap_page v start (page_index v start)

module _ (vmos : ℕ → Vmo) where
  unfoldable pub map_vmo :
      Vmar → VmRange → ℕ → ℕ → Flags → RegionPurpose → Vmar × Outcome (Unit {0})
  map_vmo v range vmo vmo_offset flags purpose =
      let m : VmarMapping = record {
        range = range;
        flags = flags;
        purpose = purpose;
        vmo = vmo;
        vmo_offset = vmo_offset;
      } in
      if not (is_page_aligned range) || not (is_multiple_of vmo_offset (vmos vmo).page_size)
      then (v, err invalid_range)
      else if not (validate_layout vmos m)
      then (v, err permission_denied)
      else insert_entry v (mapping m)

  protect_entry : Vmar → VmRange → Flags → ℕ → Option (ℕ × VmarEntry) → Vmar × Outcome (Unit {0})
  protect_entry v range flags start_page (some (page, mapping m)) =
      let updated = record m { flags = flags } in
      if not (same_range m.range range)
      then (v, err not_mapped)
      else if not (validate_layout vmos updated)
      then (v, err permission_denied)
      else (record v { entries = insert v.entries start_page (mapping updated) }, ok tt)
  protect_entry v range flags start_page _ = (v, err not_mapped)

  protect_span : Vmar → VmRange → Flags → Option (ℕ × ℕ) → Vmar × Outcome (Unit {0})
  unfolding protect_entry
  protect_span v range flags none = (v, err invalid_range)
  protect_span v range flags (some (start, end)) =
      protect_entry v range flags start (find_entry v start)

  unfoldable pub protect : Vmar → VmRange → Flags → Vmar × Outcome (Unit {0})
  unfolding protect_span
  protect v range flags =
      if not (is_page_aligned range)
      then (v, err invalid_range)
      else protect_span v range flags (page_span v range)

abbrev pub child_count : Vmar → ℕ
child_count v = length v.entries

-- The snapshot of the entries, in the order of their pages.
unfoldable pub entries : Vmar → List VmarEntry
entries v = map (λ e. e.1) v.entries
