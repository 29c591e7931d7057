-- ===== src/Memory/Layout.antt =====
-- `VmLayoutSegment` of library/core/src/memory/vmar.rs.
pub mod Classify
use akarin.Base.{ℕ, ◌-◌, Bool, true, false, Option, none, some, List, [], ◌∷◌, ltb, if◌then◌else◌}
use akarin.Base.Bits.{◌∪◌, none_set}
use akarin.Memory.Flags.{Flags, read, write, execute, user, device, global}
use akarin.Memory.Range.{VmRange, range_of}
use mathlib.Core.Option
use mathlib.Core.Logic.{ite}

pub data VmLayoutSegment : Type 0 where
  user_low_guard user_image user_heap user_mapped user_mmio user_stack : VmLayoutSegment
  kernel_direct_map kernel_guard kernel_mapped kernel_stack kernel_reserved : VmLayoutSegment
  kernel_image : VmLayoutSegment

unfoldable pub segment_discrete : Discrete VmLayoutSegment
segment_discrete = hlevel

unfoldable pub start : VmLayoutSegment → ℕ
start user_low_guard = 0x0000_0000_0000_0000
start user_image = 0x0000_0000_0040_0000
start user_heap = 0x0000_0100_0000_0000
start user_mapped = 0x0000_1000_0000_0000
start user_mmio = 0x0000_7000_0000_0000
start user_stack = 0x0000_7800_0000_0000
start kernel_direct_map = 0xFFFF_8000_0000_0000
start kernel_guard = 0xFFFF_C000_0000_0000
start kernel_mapped = 0xFFFF_C100_0000_0000
start kernel_stack = 0xFFFF_FF00_0000_0000
start kernel_reserved = 0xFFFF_FF80_0000_0000
start kernel_image = 0xFFFF_FFFF_8000_0000

unfoldable pub end_exclusive : VmLayoutSegment → Option ℕ
end_exclusive user_low_guard = some 0x0000_0000_0020_0000
end_exclusive user_image = some 0x0000_0100_0000_0000
end_exclusive user_heap = some 0x0000_1000_0000_0000
end_exclusive user_mapped = some 0x0000_7000_0000_0000
end_exclusive user_mmio = some 0x0000_7800_0000_0000
end_exclusive user_stack = some 0x0000_8000_0000_0000
end_exclusive kernel_direct_map = some 0xFFFF_C000_0000_0000
end_exclusive kernel_guard = some 0xFFFF_C100_0000_0000
end_exclusive kernel_mapped = some 0xFFFF_FF00_0000_0000
end_exclusive kernel_stack = some 0xFFFF_FF80_0000_0000
end_exclusive kernel_reserved = some 0xFFFF_FFFF_8000_0000
end_exclusive kernel_image = none

unfoldable pub is_guard : VmLayoutSegment → Bool
is_guard user_low_guard = true
is_guard kernel_guard = true
is_guard _ = false

unfoldable pub is_user : VmLayoutSegment → Bool
is_user user_low_guard = true
is_user user_image = true
is_user user_heap = true
is_user user_mapped = true
is_user user_mmio = true
is_user user_stack = true
is_user _ = false

-- `none` where the code panics, by an `unwrap`.
unfoldable pub user_space_range : Option VmRange
unfolding start end_exclusive range_of
user_space_range =
    Option.bind (end_exclusive user_stack) (λ end. range_of (start user_low_guard) end)

unfoldable pub kernel_space_range : Option VmRange
unfolding start end_exclusive range_of
kernel_space_range =
    Option.bind (end_exclusive kernel_image) (λ end. range_of (start kernel_direct_map) end)

unfoldable pub max_flags : VmLayoutSegment → Flags
max_flags user_low_guard = none_set
max_flags kernel_guard = none_set
max_flags user_image = read ∪ write ∪ execute ∪ user
max_flags user_mapped = read ∪ write ∪ execute ∪ user
max_flags user_heap = read ∪ write ∪ user
max_flags user_mmio = read ∪ write ∪ user ∪ device
max_flags user_stack = read ∪ write ∪ user
max_flags kernel_direct_map = read ∪ write
max_flags kernel_mapped = read ∪ write ∪ execute
max_flags kernel_stack = read ∪ write
max_flags kernel_reserved = none_set
max_flags kernel_image = read ∪ write ∪ execute ∪ global

abbrev pub ordered : List VmLayoutSegment
ordered =
    user_low_guard ∷ user_image ∷ user_heap ∷ user_mapped ∷ user_mmio ∷ user_stack
    ∷ kernel_direct_map ∷ kernel_guard ∷ kernel_mapped ∷ kernel_stack ∷ kernel_reserved
    ∷ kernel_image ∷ []

-- Whether the loop of `classify` stops at a segment.
abbrev pub stops : ℕ → VmLayoutSegment → Bool
stops v segment =
    if ltb v (start segment)
    then false
    else elim (end_exclusive segment) [ some end ↦ ltb v end | none ↦ true ]

first_stop : ℕ → List VmLayoutSegment → Option VmLayoutSegment
first_stop v [] = none
first_stop v (segment ∷ rest) = if stops v segment then some segment else first_stop v rest

unfoldable pub classify : ℕ → Option VmLayoutSegment
unfolding first_stop start end_exclusive
classify v = first_stop v ordered

-- `(start == end).then_some(start)`, on two results that `?` has unwrapped.
agree : Option VmLayoutSegment → Option VmLayoutSegment → Option VmLayoutSegment
unfolding segment_discrete
agree (some first) (some last) = ite (segment_discrete first last) (some first) none
agree _ _ = none

-- `saturating_sub(1)` is subtraction on ℕ.
unfoldable pub classify_range : VmRange → Option VmLayoutSegment
unfolding agree
classify_range range = agree (classify range.start) (classify (range.end - 1))
