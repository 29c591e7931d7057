-- ===== src/Examples/Trees.antt =====
-- A tree of eight pages, and the theorems on trees at it.
use akarin.Base.{
  ◌-◌, ◌≡◌, refl, Bool, true, false, List, ◌++◌, length, replicate, slice, fill, first_run, arith,
}
use akarin.Segment.{ok, query, update, new}
use akarin.Segment.Refine.{IsArray, query-IsArray, update-IsArray, update-new}
use akarin.Memory.FreeSpace.{
  VmarNode, free, used, default, merge, apply, FreeTree, find_first_fit, vmar_state,
}
use akarin.Memory.FreeSpace.Summary.{Sums, Sums-apply, Sums-merge, pages}
use akarin.Memory.FreeSpace.FirstFit.{Keeps, update-Keeps, find_first_fit-first_run}

-- All eight pages are free: the tree that `update-new` speaks of.
fresh :
    (t : FreeTree) × (update (new 0 8) 0 8 free ≡ ok t)
    × IsArray pages t (replicate 8 true)
    × (t.start ≡ 0)
    × (t.end ≡ 8)
unfolding free
fresh = update-new pages 0 8 free true (omega arith) refl

update-IsArray_example :
    (t : FreeTree) × (update fresh.0 2 5 used ≡ ok t)
    × IsArray pages t (fill (replicate 8 true) (2 - fresh.0.start) (5 - fresh.0.start) false)
    × (t.start ≡ fresh.0.start)
    × (t.end ≡ fresh.0.end)
unfolding used
update-IsArray_example =
    update-IsArray pages fresh.0 2 5 used false (replicate 8 true) fresh.2 refl (omega arith)
      (omega (arith, fresh.3)) (omega (arith, fresh.4))

query-IsArray_example :
    (res : VmarNode) × (t : FreeTree) × (query fresh.0 1 6 ≡ ok (res, t))
    × Sums res (slice (replicate 8 true) (1 - fresh.0.start) (6 - fresh.0.start))
    × IsArray pages t (replicate 8 true)
    × (t.start ≡ fresh.0.start)
    × (t.end ≡ fresh.0.end)
query-IsArray_example =
    query-IsArray pages fresh.0 1 6 (replicate 8 true) fresh.2 (omega arith)
      (omega (arith, fresh.3)) (omega (arith, fresh.4))

-- Pages 2 to 4 of the eight are taken.
abbrev holes : List Bool
holes = fill (replicate 8 true) 2 5 false

holed : (t : FreeTree) × (update fresh.0 2 5 used ≡ ok t) × Keeps t holes
unfolding used
holed =
    update-Keeps fresh.0 2 5 used false (replicate 8 true)
      (record { array = fresh.2; start = fresh.3; end = fresh.4 }) refl (omega arith) (omega arith)

find_first_fit-first_run_example :
    ((find_first_fit (length holes) holed.0 0 (length holes) 3).0 ≡ first_run holes 3)
    × Keeps (find_first_fit (length holes) holed.0 0 (length holes) 3).1 holes
find_first_fit-first_run_example = find_first_fit-first_run holed.0 3 holes holed.2 (omega arith)

Sums-merge_example :
    Sums
      (merge (apply default free 2) (apply default used 3))
      (replicate 2 true ++ replicate 3 false)
unfolding free used
Sums-merge_example =
    Sums-merge (apply default free 2) (apply default used 3) (replicate 2 true) (replicate 3 false)
      (Sums-apply free true refl default 2) (Sums-apply used false refl default 3)
