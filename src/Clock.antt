-- ===== src/Clock.antt =====
-- `Duration` and `Instant` of library/core/src/clock/time.rs: seconds in a `u64` and nanoseconds in
-- a `u32`. Arithmetic that the source leaves unchecked wraps around here.
pub mod Convert
pub mod Exact
pub mod Saturate
use Prim.Native.Nat.{Ordering}
use akarin.Base.{
  ℕ, Bool, true, false, ◌&&◌, ◌||◌, Option, none, some, ltb, ◌==◌, ◌+◌, ◌-◌, ◌*◌, ◌/◌, ◌%◌, ◌<◌,
  if◌then◌else◌,
}

abbrev pub u32_size : ℕ
u32_size = 4294967296

abbrev pub u64_size : ℕ
u64_size = 18446744073709551616

abbrev pub nanos_per_sec : ℕ
nanos_per_sec = 1000000000

abbrev pub nanos_per_milli : ℕ
nanos_per_milli = 1000000

abbrev pub nanos_per_micro : ℕ
nanos_per_micro = 1000

abbrev pub millis_per_sec : ℕ
millis_per_sec = 1000

abbrev pub micros_per_sec : ℕ
micros_per_sec = 1000000

pub record Duration : Type 0 where
  pub secs : ℕ
  pub nanos : ℕ

-- What `Duration::new` sees to: the fields fit, and the nanoseconds are less than a second.
pub record IsNormal (d : Duration) : Type 0 where
  pub secs_fit : d.secs < u64_size
  pub nanos_fit : d.nanos < nanos_per_sec

abbrev pub max_duration : Duration
max_duration = record { secs = u64_size - 1; nanos = nanos_per_sec - 1 }

-- `Duration::new`
unfoldable pub new : ℕ → ℕ → Duration
new secs nanos = record {
  secs = (secs + nanos / nanos_per_sec) % u64_size;
  nanos = nanos % nanos_per_sec;
}

unfoldable pub from_secs : ℕ → Duration
from_secs secs = record { secs = secs; nanos = 0 }

unfoldable pub from_millis : ℕ → Duration
from_millis millis = record {
  secs = millis / millis_per_sec;
  nanos = millis % millis_per_sec * nanos_per_milli % u32_size;
}

unfoldable pub from_micros : ℕ → Duration
from_micros micros = record {
  secs = micros / micros_per_sec;
  nanos = micros % micros_per_sec * nanos_per_micro % u32_size;
}

unfoldable pub from_nanos : ℕ → Duration
from_nanos nanos = record { secs = nanos / nanos_per_sec; nanos = nanos % nanos_per_sec % u32_size }

unfoldable pub as_millis : Duration → ℕ
as_millis d = (d.secs * millis_per_sec + d.nanos / nanos_per_milli) % u64_size

unfoldable pub as_micros : Duration → ℕ
as_micros d = (d.secs * micros_per_sec + d.nanos / nanos_per_micro) % u64_size

-- `as_nanos`, whose `u128` holds every sum of a `u64` of seconds and a `u32`.
unfoldable pub as_nanos : Duration → ℕ
as_nanos d = d.secs * nanos_per_sec + d.nanos

-- `checked_add` of a word of the given size
unfoldable pub checked : ℕ → ℕ → Option ℕ
checked size n = if ltb n size then some n else none

-- `checked_sub` of words
unfoldable pub checked_minus : ℕ → ℕ → Option ℕ
checked_minus a b = if ltb a b then none else some (a - b)

-- `nanos as u32` after the borrow of a second: the second less the missing nanoseconds
unfoldable pub borrowed : ℕ → ℕ → ℕ
borrowed a b = (nanos_per_sec + u32_size - (b - a)) % u32_size

unfoldable pub checked_add : Duration → Duration → Option Duration
unfolding checked
checked_add d e = elim (checked u64_size (d.secs + e.secs)) [
  | none ↦ none
  | some secs ↦ elim (checked u32_size (d.nanos + e.nanos)) [
    | none ↦ none
    | some nanos ↦
        if ltb nanos_per_sec nanos
        then elim (checked u64_size (secs + 1)) [
          | none ↦ none
          | some carried ↦ some (record { secs = carried; nanos = nanos - nanos_per_sec })
        ]
        else some (record { secs = secs; nanos = nanos })
  ]
]

unfoldable pub checked_sub : Duration → Duration → Option Duration
unfolding checked_minus borrowed
checked_sub d e = elim (checked_minus d.secs e.secs) [
  | none ↦ none
  | some secs ↦
      if ltb d.nanos e.nanos
      then elim (checked_minus secs 1) [
        | none ↦ none
        | some less ↦ some (record { secs = less; nanos = borrowed d.nanos e.nanos })
      ]
      else some (record { secs = secs; nanos = d.nanos - e.nanos })
]

unfoldable pub checked_mul : Duration → ℕ → Option Duration
unfolding checked
checked_mul d k = elim (checked u64_size (d.secs * k)) [
  | none ↦ none
  | some secs ↦ elim (checked u64_size (secs + d.nanos * k / nanos_per_sec)) [
    | none ↦ none
    | some sum ↦ some (record { secs = sum; nanos = d.nanos * k % nanos_per_sec % u32_size })
  ]
]

-- The nanoseconds of `checked_div` and of `/`, from the quotient of the seconds
unfoldable pub divided_nanos : ℕ → ℕ → ℕ → ℕ
divided_nanos secs nanos k = (secs % k * nanos_per_sec + nanos) / k % u32_size

unfoldable pub checked_div : Duration → ℕ → Option Duration
unfolding new divided_nanos
checked_div d k =
    if k == 0 then none else some (new (d.secs / k) (divided_nanos (d.secs / k) d.nanos k))

abbrev pub unwrap_or : Option Duration → Duration → Duration
unwrap_or none e = e
unwrap_or (some d) e = d

unfoldable pub saturating_add : Duration → Duration → Duration
unfolding checked_add
saturating_add d e = unwrap_or (checked_add d e) max_duration

unfoldable pub saturating_sub : Duration → Duration → Duration
unfolding checked_sub from_secs
saturating_sub d e = unwrap_or (checked_sub d e) (from_secs 0)

unfoldable pub saturating_mul : Duration → ℕ → Duration
unfolding checked_mul
saturating_mul d k = unwrap_or (checked_mul d k) max_duration

unfoldable pub saturating_div : Duration → ℕ → Duration
unfolding checked_div from_secs
saturating_div d k = unwrap_or (checked_div d k) (from_secs 0)

unfoldable pub wrapping_add : Duration → Duration → Duration
wrapping_add d e = record {
  secs = (d.secs + e.secs) % u64_size;
  nanos = (d.nanos + e.nanos) % u32_size;
}

-- The arms of `partial_cmp`'s match on `checked_sub`
order_of : Option Duration → Option Ordering
order_of none = some Ordering.lt
order_of (some d) =
    if d.secs == 0 && d.nanos == 0
    then some Ordering.eq
    else if ltb 0 d.secs || ltb 0 d.nanos
    then some Ordering.gt
    else none

unfoldable pub partial_cmp : Duration → Duration → Option Ordering
unfolding order_of checked_sub
partial_cmp d e = order_of (checked_sub d e)

-- `+`
unfoldable pub add : Duration → Duration → Duration
add d e =
    let secs = (d.secs + e.secs) % u64_size in
    let nanos = (d.nanos + e.nanos) % u32_size in
    if ltb nanos nanos_per_sec
    then record { secs = secs; nanos = nanos }
    else record { secs = (secs + 1) % u64_size; nanos = nanos - nanos_per_sec }

-- `-`
unfoldable pub sub : Duration → Duration → Duration
unfolding borrowed
sub d e =
    if ltb d.nanos e.nanos
    then record {
      secs = ((d.secs + u64_size - 1) % u64_size + u64_size - e.secs) % u64_size;
      nanos = borrowed d.nanos e.nanos;
    }
    else record { secs = (d.secs + u64_size - e.secs) % u64_size; nanos = d.nanos - e.nanos }

-- `*`
unfoldable pub mul : Duration → ℕ → Duration
mul d k = record {
  secs = (d.secs * k % u64_size + d.nanos * k / nanos_per_sec) % u64_size;
  nanos = d.nanos * k % nanos_per_sec % u32_size;
}

-- `/`, at a divisor that is not zero
unfoldable pub div : Duration → ℕ → Duration
unfolding new divided_nanos
div d k = new (d.secs / k) (divided_nanos (d.secs / k) d.nanos k)

-- `Instant`: the duration since the clock's start
pub record Instant : Type 0 where
  pub since_start : Duration

-- `duration_since`, and `-` of instants
unfoldable pub duration_since : Instant → Instant → Duration
unfolding sub
duration_since later earlier = sub later.since_start earlier.since_start

-- `+` of an instant and a duration
unfoldable pub later_by : Instant → Duration → Instant
unfolding add
later_by i d = record { since_start = add i.since_start d }

-- `-` of an instant and a duration
unfoldable pub earlier_by : Instant → Duration → Instant
unfolding sub
earlier_by i d = record { since_start = sub i.since_start d }
