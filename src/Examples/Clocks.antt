-- ===== src/Examples/Clocks.antt =====
-- The theorems on durations at concrete inputs.
use Prim.Native.Nat.{compare}
use akarin.Base.{◌+◌, ◌≤◌, ◌<◌, ◌≡◌, ◌≢◌, none, some, ltb, if◌then◌else◌, refl, arith}
use akarin.Clock.{
  Duration, IsNormal, Instant, nanos_per_sec, u64_size, from_millis, from_micros, from_nanos,
  as_millis, as_micros, as_nanos, partial_cmp, checked_add, add, checked_div, duration_since,
  later_by, earlier_by,
}
use akarin.Clock.Convert.{conversions, partial_cmp-as_nanos}
use akarin.Clock.Exact.{limit, checked_add-outcome, duration_since-later_by}

conversions_example :
    (as_nanos (from_nanos 1500000000) ≡ 1500000000)
    × (as_micros (from_micros 1500000000) ≡ 1500000000)
    × (as_millis (from_millis 1500000000) ≡ 1500000000)
    × IsNormal (from_nanos 1500000000)
    × IsNormal (from_micros 1500000000)
    × IsNormal (from_millis 1500000000)
conversions_example = conversions 1500000000 (omega arith)

-- Half a second, and two seconds and three quarters.
abbrev half : Duration
half = record { secs = 0; nanos = 500000000 }

abbrev longer : Duration
longer = record { secs = 2; nanos = 750000000 }

half-IsNormal : IsNormal half
half-IsNormal = record { secs_fit = omega arith; nanos_fit = omega arith }

longer-IsNormal : IsNormal longer
longer-IsNormal = record { secs_fit = omega arith; nanos_fit = omega arith }

partial_cmp-as_nanos_example :
    partial_cmp half longer ≡ some (compare (as_nanos half) (as_nanos longer))
partial_cmp-as_nanos_example = partial_cmp-as_nanos half longer half-IsNormal longer-IsNormal

checked_add-outcome_example :
    (half.nanos + half.nanos ≢ nanos_per_sec
      → limit ≤ as_nanos half + as_nanos half
      → checked_add half half ≡ none)
    × (half.nanos + half.nanos ≢ nanos_per_sec
        → as_nanos half + as_nanos half < limit
        → checked_add half half ≡ some (add half half))
    × (half.nanos + half.nanos ≡ nanos_per_sec
        → checked_add half half ≡ (
            if ltb (half.secs + half.secs) u64_size
            then some (record { secs = half.secs + half.secs; nanos = nanos_per_sec })
            else none))
checked_add-outcome_example = checked_add-outcome half half half-IsNormal half-IsNormal

abbrev boot : Instant
boot = record { since_start = longer }

duration_since-later_by_example :
    (duration_since (later_by boot half) boot ≡ half)
    × (earlier_by (later_by boot half) half ≡ boot)
duration_since-later_by_example =
    duration_since-later_by boot half longer-IsNormal half-IsNormal (unfold as_nanos in omega arith)

-- Two halves of a second are a second by `+`, and a duration that is not normal by `checked_add`.
two_halves : add half half ≡ record { secs = 1; nanos = 0 }
unfolding add
two_halves = refl

two_halves_checked : checked_add half half ≡ some (record { secs = 0; nanos = 1000000000 })
unfolding checked_add
two_halves_checked = refl

-- Half of five seconds comes out as two seconds.
half_of_five :
    checked_div (record { secs = 5; nanos = 0 }) 2 ≡ some (record { secs = 2; nanos = 0 })
unfolding checked_div
half_of_five = refl
