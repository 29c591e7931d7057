-- ===== src/Memory/Range.antt =====
-- `VmRange` and `GuardedStackLayout` of library/core/src/memory/vmar.rs. An address is its number;
-- a `usize` has 64 bits. A range is built by `range_of`, which refuses an empty one, so that
-- `start < end` is an invariant of the type; here it is a hypothesis, `IsProper`.
use akarin.Base.{
  ℕ, ◌+◌, ◌-◌, ◌%◌, ◌^◌, ◌<◌, Bool, not, ◌&&◌, ◌||◌, Option, none, some, ltb, leb, ◌==◌,
  if◌then◌else◌,
}
use mathlib.Core.Option

abbrev pub page_size : ℕ
page_size = 0x1000

abbrev pub word : ℕ
word = 2 ^ 64

abbrev pub checked_add : ℕ → ℕ → Option ℕ
checked_add a b = if ltb (a + b) word then some (a + b) else none

abbrev pub saturating_add : ℕ → ℕ → ℕ
saturating_add a b = if ltb (a + b) word then a + b else word - 1

abbrev pub checked_sub : ℕ → ℕ → Option ℕ
checked_sub a b = if leb b a then some (a - b) else none

abbrev pub is_multiple_of : ℕ → ℕ → Bool
is_multiple_of a b = a % b == 0

pub record VmRange : Type 0 where
  pub start : ℕ
  pub end : ℕ

pub record IsProper (r : VmRange) : Type 0 where
  pub nonempty : r.start < r.end
  pub fits : r.end < word

unfoldable pub range_of : ℕ → ℕ → Option VmRange
range_of start end = if ltb start end then some (record { start = start; end = end }) else none

abbrev pub len : VmRange → ℕ
len r = r.end - r.start

abbrev pub contains : VmRange → ℕ → Bool
contains r addr = leb r.start addr && ltb addr r.end

abbrev pub contains_range : VmRange → VmRange → Bool
contains_range r other = leb r.start other.start && leb other.end r.end

unfoldable pub overlaps : VmRange → VmRange → Bool
overlaps r other = ltb r.start other.end && ltb other.start r.end

abbrev pub is_page_aligned : VmRange → Bool
is_page_aligned r = is_multiple_of r.start page_size && is_multiple_of r.end page_size

abbrev pub same_range : VmRange → VmRange → Bool
same_range r other = r.start == other.start && r.end == other.end

pub record GuardedStackLayout : Type 0 where
  pub guard : VmRange
  pub stack : VmRange

-- The last steps of `from_low_base`, on the checked sums.
build_stack : ℕ → ℕ → Option ℕ → Option GuardedStackLayout
build_stack base guard_end none = none
build_stack base guard_end (some stack_end) = Option.bind (range_of base guard_end) (λ guard.
    Option.map (λ stack. record { guard = guard; stack = stack }) (range_of guard_end stack_end))

unfoldable pub from_low_base : ℕ → ℕ → Option GuardedStackLayout
unfolding build_stack range_of
from_low_base base stack_size =
    if stack_size == 0 || not (is_multiple_of base page_size)
    then none
    else Option.bind (checked_add base page_size)
        (λ guard_end. build_stack base guard_end (checked_add guard_end stack_size))

unfoldable pub top : GuardedStackLayout → ℕ
top layout = layout.stack.end
