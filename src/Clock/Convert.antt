-- ===== src/Clock/Convert.antt =====
-- `Duration` against its number of nanoseconds: conversions and comparison.
use Prim.Native.Nat.{compare}
use akarin.Base.{ℕ, ◌<◌, ◌≡◌, some, arith}
use akarin.Clock.{
  Duration, IsNormal, u64_size, from_millis, from_micros, from_nanos, as_millis, as_micros,
  as_nanos, partial_cmp,
}

-- A number of nanoseconds, microseconds or milliseconds that a `u64` holds is read back from the
-- duration made of it, and each of these durations is normal.
pub conversions :
    (n : ℕ)
    → n < u64_size
    → (as_nanos (from_nanos n) ≡ n)
      × (as_micros (from_micros n) ≡ n)
      × (as_millis (from_millis n) ≡ n)
      × IsNormal (from_nanos n)
      × IsNormal (from_micros n)
      × IsNormal (from_millis n)
unfolding from_nanos as_nanos from_micros as_micros from_millis as_millis
conversions n h = (
  omega arith,
  omega arith,
  omega arith,
  record { secs_fit = omega arith; nanos_fit = omega arith },
  record { secs_fit = omega arith; nanos_fit = omega arith },
  record { secs_fit = omega arith; nanos_fit = omega arith },
)

-- Normal durations compare as their numbers of nanoseconds do; the comparison is never undefined.
pub partial_cmp-as_nanos :
    (d e : Duration)
    → IsNormal d
    → IsNormal e
    → partial_cmp d e ≡ some (compare (as_nanos d) (as_nanos e))
unfolding partial_cmp as_nanos
partial_cmp-as_nanos d e p q = ground arith
