-- ===== src/Memory/Layout/Classify.antt =====
-- The segments of the address space do not overlap, and `classify` finds the one of an address.
use mathlib.Core.Logic.{if_pos, if_neg}
use akarin.Base.{ℕ, ◌-◌, ◌≤◌, ◌<◌, ◌≡◌, ◌↔◌, true, Option, none, some, arith}
use akarin.Memory.Range.{VmRange, IsProper, word}
use akarin.Memory.Layout.{
  VmLayoutSegment, user_low_guard, start, end_exclusive, is_user, classify, agree, classify_range,
  segment_discrete,
}

-- The end of a segment, that of the last being the end of the address space.
abbrev pub end_of : VmLayoutSegment → ℕ
end_of s = elim (end_exclusive s) [ none ↦ word | some e ↦ e ]

abbrev pub Lies : ℕ → VmLayoutSegment → Type 0
Lies v s = (start s ≤ v) × (v < end_of s)

-- An address lies in the segment that `classify` gives.
classify_sound : (v : ℕ) (s : VmLayoutSegment) → v < word → classify v ≡ some s → Lies v s
unfolding classify start end_exclusive
classify_sound v s w h = ground arith

classify_complete : (v : ℕ) (s : VmLayoutSegment) → Lies v s → classify v ≡ some s
unfolding classify start end_exclusive
classify_complete v user_low_guard l = ground arith
classify_complete v _ l = ground arith

-- `classify` gives a segment for an address below 2^64 exactly if the address lies in the segment.
pub classify_iff : (v : ℕ) (s : VmLayoutSegment) → v < word → (classify v ≡ some s) ↔ Lies v s
classify_iff v s w = (classify_sound v s w, classify_complete v s)

pub segment_unique : (v : ℕ) (s t : VmLayoutSegment) → Lies v s → Lies v t → s ≡ t
segment_unique v s t h k = cc (classify_complete v s h, classify_complete v t k)

agree_iff :
    (a b : Option VmLayoutSegment) (s : VmLayoutSegment)
    → (agree a b ≡ some s) ↔ ((a ≡ some s) × (b ≡ some s))
unfolding agree
agree_iff none b s = ground arith
agree_iff (some x) none s = ground arith
agree_iff (some x) (some y) s = elim (segment_discrete x y) [
  | yes e ↦ rw (if_pos _ e, e) (λ h. (h, h), λ h. h.0)
  | no n ↦ rw (if_neg _ n) (λ h. cc, λ h. absurd (n (cc (h.0, h.1))))
]

-- `classify_range` gives a segment for a range that is not empty and ends below 2^64 exactly if the
-- range lies wholly in the segment.
pub classify_range_iff :
    (r : VmRange) (s : VmLayoutSegment)
    → IsProper r
    → (classify_range r ≡ some s) ↔ ((start s ≤ r.start) × (r.end ≤ end_of s))
unfolding classify_range
classify_range_iff r s p = (
  λ h.
      let (first, last) = (agree_iff (classify r.start) (classify (r.end - 1)) s).0 h in
      (
        (classify_sound r.start s (omega arith) first).0,
        omega (arith, (classify_sound (r.end - 1) s (omega arith) last).1),
      ),
  λ l. (agree_iff (classify r.start) (classify (r.end - 1)) s).1 (
    classify_complete r.start s (l.0, omega arith),
    classify_complete (r.end - 1) s (omega arith, omega arith),
  ),
)

-- The segment of an address is one of userspace exactly if the address is below 2^47.
pub is_user_iff :
    (v : ℕ) (s : VmLayoutSegment) → Lies v s → (is_user s ≡ true) ↔ (v < 0x8000_0000_0000)
unfolding start end_exclusive is_user
is_user_iff v user_low_guard l = ground arith
is_user_iff v _ l = ground arith
