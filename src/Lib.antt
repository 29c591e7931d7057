-- ===== src/Lib.antt =====
-- Akarin: the address spaces, the objects and their capabilities, the durations and the futex service
-- of the kernel.
--
-- The program. An address space (`VSpace`) is a tree of regions (`Vmar`). Each region keeps its
-- entries, by first page, in a map, and keeps which of its pages are free in a segment tree, from
-- which it finds the first gap that is large enough. An entry is a guard range, a mapping of a memory
-- object (`Vmo`), or a child region. A fixed table of segments says which addresses belong to what,
-- and which rights a mapping there may have.
--
-- The kernel's objects stand in a tree. A handle carries a token: the id of an object, capabilities on
-- it, and rights on its interface. The registry keeps the objects by id and walks along paths, and an
-- object removed takes its descendants with it. The regions above are payloads of such objects. A
-- futex waits on a word of a mapping, which it names by a memory object and an offset.
--
-- The files and the code:
-- - Base: what the other files share: lists and options over the native numbers, the runs of free
--   pages in a list of Booleans (Base/Runs), sets of bits (Base/Bits), and the ordered map that stands
--   for `BTreeMap` (Base/OrdMap).
-- - Segment: `SegmentTree` of library/collections/src/tree/segment.rs. `update`, `update_rec`, `query`,
--   `query_rec`, `push_down` and `push_up` keep their names. Segment/Holds says what a node stands for.
-- - Memory/FreeSpace: `VmarNode` and `find_first_fit` of library/core/src/memory/vmar.rs.
-- - Memory/Flags: `VmFlags` of library/core/src/memory/vmflags.rs, as sets of bits.
-- - Memory/Range, Memory/Layout, Memory/Purpose: `VmRange`, `GuardedStackLayout`, `VmLayoutSegment` and
--   `RegionPurpose` of library/core/src/memory/vmar.rs.
-- - Memory/Vmo: what a mapping asks of a `Vmo` of library/core/src/memory/vmo.rs, the numbers of its
--   methods, and its `VmoRangeIndex` (Memory/Vmo/RangeIndex).
-- - Memory/Mapping: `VmarMapping` of library/core/src/memory/vmar.rs.
-- - Memory/Vmar: the state of one `Vmar` and its methods. A method holds the lock of the region from
--   its first access to the state to its last, so that it is one step; it takes the state and hands it
--   back beside its result, which is `ok`, an error, or `panic` for a failed `expect`.
-- - Memory/Space: the methods that make or enter child regions. Regions are shared by reference; here
--   all of them stand in one store, and a reference is a number. Memory/Space/Tree says when a store is
--   a tree of well-formed regions.
-- - Memory/VSpace: `VSpace` and `VSpaceSegments` of library/core/src/memory/vspace.rs.
-- - Memory/Control: the guards of a handle (`VmarReadGuard`, `VmarWriteGuard`, `VmarAdminGuard`) of
--   library/core/src/memory/vmar.rs with their rights, and the errors of library/core/src/memory/mod.rs.
--   Memory/Control/Dispatch is the system calls on a handle; what they ask of the calling task is the
--   record `Caller`.
-- - Object: `Capability`, `Token` and `Object` of library/object/src/object. Object/Handle is handle.rs,
--   Object/Container is container.rs: what a token must have for an operation, and the token of a
--   child. Object/Derive, Object/Reach and Object/Permits are about derived handles and permits.
-- - Object/Path: `ObjectPath` of library/object/src/registry.rs, as bytes.
-- - Object/Registry: `Registry` of library/object/src/registry.rs. Object/Registry/Locate is
--   `locate_and_then`, Object/Registry/Tree is `add_child` and `remove_child` of object/mod.rs,
--   Object/Registry/ChildMap is the map of an object's children. Visit, Round, Below, Visited,
--   WellFormed and Removal beside them are about `remove_internal`, Attenuate and Walk about paths,
--   Steps about the walk, Added about `add_child`.
-- - Clock: `Duration` and `Instant` of library/core/src/clock/time.rs. Sums that the source leaves
--   unchecked wrap around.
-- - Futex: `FutexManager` of kernel/src/runtime/futex.rs, with `Event` and `Listener` of
--   library/sync/src/asynchronous/event/mod.rs. A wait is the part before its sleep (`wait_key`),
--   joining the queue (`insert_waiter`), the steps of its task at its event (`wait_step`), and the part
--   after the sleep (`wait_end`). Futex/Service runs one wait among others and wakes, in any order, a
--   wake as its taking and its notifications; Count, Phases, Due and Waits beside it follow the waiter.
-- - Examples: concrete runs, and the theorems at concrete inputs.
--
-- Bounds. Addresses are numbers; the checked and saturating sums of the code keep the bound 2^64 of a
-- `usize`, and a range that the code can build is `IsProper`. Sums that count pages of one range stay
-- below 2^52 and are written without a bound.
--
-- Fuel. The recursions of the segment tree and of `find_first_fit` halve an interval and are given its
-- width; `locate` is given the number of regions of the store, since a child stands behind its parent;
-- the loop of `validate_range` is given the length of the range and one more, since its cursor moves on
-- in each turn; the layer visit of `remove_internal` is given the number of objects and two more, since
-- each object that it queues is one that it has just marked. The theorems speak of the functions with
-- that fuel.
--
-- Not modelled: the interleaving of two methods of one region between the two locks that
-- `allocate_child_any` takes, and of operations on the registry, which runs them one after another; the
-- reference counts of shared entries and handles (whether a weak reference can be upgraded is an
-- argument), anonymous objects and the drop of a handle; the payloads of objects and the asynchronous
-- forms of the operations on them, which ask for the same capabilities; the order in which strings are
-- compared is that of their bytes; the conversion of time stamps to dates and the text form of a
-- duration; the page index and the byte access of a memory object; what comes between the
-- read of the epoch and the push of the waker in `Listener::poll`, which is one step here; the timer
-- of a wait; the scheduler and the rest of the kernel.
pub mod Base
pub mod Segment
pub mod Memory
pub mod Object
pub mod Clock
pub mod Futex
pub mod Examples
