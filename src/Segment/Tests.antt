-- ===== src/Segment/Tests.antt =====
-- Runs of the segment tree, with sums for states.
use akarin.Base.{ℕ, ◌+◌, ◌*◌, ◌≡◌, refl}
use akarin.Segment.{SegmentState, SegmentTree, Result, ok, err, new, update, query}

instance abbrev sum_state : SegmentState ℕ
sum_state = record { default = 0; merge = ◌+◌; apply = λ old tag width. tag * width }

abbrev answer : Result (ℕ × SegmentTree ℕ) → ℕ
answer (ok (n, t)) = n
answer (err e) = 77

abbrev after : Result (SegmentTree ℕ) → SegmentTree ℕ
after (ok t) = t
after (err e) = new 0 0

-- 2 in the cells 1 and 2, and 3 in the cells from 3 to 9.
summed : answer (query (after (update (after (update (new 0 16) 0 16 2)) 3 12 3)) 1 10) ≡ 25
unfolding new update query
summed = refl

refused : answer (query (new 0 16) 5 5) ≡ 77
unfolding new query
refused = refl
