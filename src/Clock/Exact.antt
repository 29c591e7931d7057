-- ===== src/Clock/Exact.antt =====
-- `+`, `-`, `*` and their checked forms against arithmetic on the number of nanoseconds.
use akarin.Base.{ltb, if◌then◌else◌, ℕ, ◌+◌, ◌-◌, ◌*◌, ◌≤◌, ◌<◌, ◌≡◌, ◌≢◌, none, some, arith}
use akarin.Clock.{
  Duration, IsNormal, u64_size, nanos_per_sec, as_nanos, checked_add, checked_sub, checked_mul, add,
  sub, mul, Instant, duration_since, later_by, earlier_by,
}

-- The number of nanoseconds from which on a duration does not fit.
abbrev pub limit : ℕ
limit = u64_size * nanos_per_sec

module _ (d e : Duration) (p : IsNormal d) (q : IsNormal e) where
  pub add-as_nanos :
      as_nanos d + as_nanos e < limit
      → (as_nanos (add d e) ≡ as_nanos d + as_nanos e) × IsNormal (add d e)
  unfolding add as_nanos
  add-as_nanos h = (ground arith, record { secs_fit = ground arith; nanos_fit = ground arith })

  pub sub-as_nanos :
      as_nanos e ≤ as_nanos d → (as_nanos (sub d e) ≡ as_nanos d - as_nanos e) × IsNormal (sub d e)
  unfolding sub as_nanos
  sub-as_nanos h = (ground arith, record { secs_fit = ground arith; nanos_fit = ground arith })

  pub checked_sub-some : as_nanos e ≤ as_nanos d → checked_sub d e ≡ some (sub d e)
  unfolding checked_sub sub as_nanos
  checked_sub-some h = ground arith

  pub checked_sub-none : as_nanos d < as_nanos e → checked_sub d e ≡ none
  unfolding checked_sub as_nanos
  checked_sub-none h = ground arith

  -- Unless the nanoseconds sum to exactly a second, too large a sum has no result and a smaller one
  -- is what `+` gives. If they do, they are left as they are, and the result is not normal.
  pub checked_add-outcome :
      (d.nanos + e.nanos ≢ nanos_per_sec → limit ≤ as_nanos d + as_nanos e → checked_add d e ≡ none)
      × (d.nanos + e.nanos ≢ nanos_per_sec
          → as_nanos d + as_nanos e < limit
          → checked_add d e ≡ some (add d e))
      × (d.nanos + e.nanos ≡ nanos_per_sec
          → checked_add d e ≡ (
              if ltb (d.secs + e.secs) u64_size
              then some (record { secs = d.secs + e.secs; nanos = nanos_per_sec })
              else none))
  unfolding checked_add add as_nanos
  checked_add-outcome = (λ n h. ground arith, λ n h. ground arith, λ n. ground arith)

-- A duration after an instant and back: the instants' difference is the duration, and going back by
-- it is the instant.
pub duration_since-later_by :
    (i : Instant) (d : Duration)
    → IsNormal i.since_start
    → IsNormal d
    → as_nanos i.since_start + as_nanos d < limit
    → (duration_since (later_by i d) i ≡ d) × (earlier_by (later_by i d) d ≡ i)
unfolding duration_since later_by earlier_by add sub as_nanos
duration_since-later_by i d p q h = (ground arith, ground arith)

-- A product by its parts.
distribute : (s n k : ℕ) → (s * nanos_per_sec + n) * k ≡ s * k * nanos_per_sec + n * k
distribute s n k = omega arith

module _ (d : Duration) (k : ℕ) where
  as_nanos_times : as_nanos d * k ≡ d.secs * k * nanos_per_sec + d.nanos * k
  unfolding as_nanos
  as_nanos_times = distribute d.secs d.nanos k

  pub mul-as_nanos :
      as_nanos d * k < limit → (as_nanos (mul d k) ≡ as_nanos d * k) × IsNormal (mul d k)
  unfolding as_nanos mul
  mul-as_nanos h =
      (omega (arith, as_nanos_times), record { secs_fit = omega arith; nanos_fit = omega arith })

  pub checked_mul-some : as_nanos d * k < limit → checked_mul d k ≡ some (mul d k)
  unfolding checked_mul mul
  checked_mul-some h = ground (arith, as_nanos_times)

  pub checked_mul-none : limit ≤ as_nanos d * k → checked_mul d k ≡ none
  unfolding checked_mul
  checked_mul-none h = ground (arith, as_nanos_times)
