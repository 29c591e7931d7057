-- ===== src/Segment/Refine.antt =====
-- The segment tree refines an array: a query is the summary of a slice, an update overwrites one.
use akarin.Base.{
  ℕ, zero, suc, ◌-◌, ◌≤◌, ◌<◌, ◌≡◌, refl, ap, ◌∙◌, true, false, ◌&&◌, none, some, List, arith, leb,
  length, replicate, slice, fill, length-replicate, length-fill,
}
use akarin.Segment.{
  SegmentState, Node, empty, node, SegmentTree, ok, new, bad_range, or_new, cover, update_rec,
  update, query_rec, query_root, query,
}
use akarin.Segment.Holds.{Cells, Holds}
use akarin.Segment.Query.{Answers, query_rec-Answers}
use akarin.Segment.Update.{or_new-Holds, update_rec-Holds}

module _ {T : Type 0} ⦃s : SegmentState T⦄ (cells : Cells T s) where
  open cells use {Cell, Tags, Sums, Sums-apply, Sums-merge}

  -- The tree stands for the cells of its domain.
  pub record IsArray (t : SegmentTree T) (xs : List Cell) : Type 0 where
    pub holds : Holds cells t.root xs
    pub size : length xs ≡ t.end - t.start
    pub proper : t.start < t.end

  query_root_lem :
      (t : SegmentTree T) (ql qr : ℕ) (n : Node T) (xs : List Cell)
      → Holds cells n xs
      → query_root t ql qr n ≡ (
        (query_rec (t.end - t.start) n t.start t.end ql qr).0,
        record t { root = (query_rec (t.end - t.start) n t.start t.end ql qr).1 },
      )
  query_root_lem t ql qr empty xs h = absurd h
  query_root_lem t ql qr (node v lazy left right) xs h = refl

  update_rec_covered :
      (fuel : ℕ) (n : Node T) (l r : ℕ) (tag : T)
      → 0 < fuel
      → update_rec fuel n l r l r tag ≡ cover n tag (r - l)
  unfolding update_rec
  update_rec_covered zero n l r tag h = absurd (omega arith)
  update_rec_covered (suc fuel) n l r tag h =
      let e : (leb l l && leb r r) ≡ true = ground arith in rw e

  -- A query of a range in the domain succeeds, its result sums up exactly the cells of the range,
  -- and the tree that it leaves stands for the same cells, over the same domain.
  pub query-IsArray :
      (t : SegmentTree T) (ql qr : ℕ) (xs : List Cell)
      → IsArray t xs
      → ql < qr
      → t.start ≤ ql
      → qr ≤ t.end
      → (res : T) × (t' : SegmentTree T) × (query t ql qr ≡ ok (res, t'))
        × Sums res (slice xs (ql - t.start) (qr - t.start))
        × IsArray t' xs
        × (t'.start ≡ t.start)
        × (t'.end ≡ t.end)
  unfolding query Answers
  query-IsArray t ql qr xs a ne lo hi =
      let (sums, holds) =
        query_rec-Answers cells (t.end - t.start) t.root t.start t.end ql qr xs
          (omega (arith, a.proper)) a.size a.proper (omega arith) (omega arith) ne a.holds in
      let ok_range : bad_range t ql qr ≡ false = ground arith in
      let answer = query_rec (t.end - t.start) t.root t.start t.end ql qr in
      (
        answer.0,
        record t { root = answer.1 },
        rw (ok_range, query_root_lem t ql qr t.root xs a.holds),
        sums,
        record { holds = holds; size = a.size; proper = a.proper },
        refl,
        refl,
      )

  -- An update of a range in the domain succeeds, and the tree stands for the cells with those of
  -- the range overwritten, over the same domain.
  pub update-IsArray :
      (t : SegmentTree T) (ql qr : ℕ) (tag : T) (c : Cell) (xs : List Cell)
      → IsArray t xs
      → Tags tag c
      → ql < qr
      → t.start ≤ ql
      → qr ≤ t.end
      → (t' : SegmentTree T) × (update t ql qr tag ≡ ok t')
        × IsArray t' (fill xs (ql - t.start) (qr - t.start) c)
        × (t'.start ≡ t.start)
        × (t'.end ≡ t.end)
  unfolding update
  update-IsArray t ql qr tag c xs a tags ne lo hi =
      let ok_range : bad_range t ql qr ≡ false = ground arith in
      let root = update_rec (t.end - t.start) (or_new t.root) t.start t.end ql qr tag in
      (
        record t { root = root },
        rw ok_range,
        record {
          holds = rw (or_new-Holds cells t.root xs a.holds) (
              update_rec-Holds cells (t.end - t.start) t.root t.start t.end ql qr tag c xs
                (omega (arith, a.proper)) a.size a.proper (omega arith) (omega arith) ne tags
                a.holds);
          size = length-fill xs _ _ c ∙ a.size;
          proper = a.proper;
        },
        refl,
        refl,
      )

  -- The first update of a new tree, over its whole domain, gives every cell one value.
  pub update-new :
      (start end : ℕ) (tag : T) (c : Cell)
      → start < end
      → Tags tag c
      → (t : SegmentTree T) × (update (new start end) start end tag ≡ ok t)
        × IsArray t (replicate (end - start) c)
        × (t.start ≡ start)
        × (t.end ≡ end)
  unfolding update update_rec new
  update-new start end tag c h tags =
      let ok_range : bad_range (new {T = T} start end) start end ≡ false = ground arith in
      let one_more : end - start ≡ suc (end - start - 1) = omega arith in
      let top = node (s.apply s.default tag (end - start)) (some tag) empty empty in
      (
        record { root = top; start = start; end = end },
        rw ok_range (
            ap (λ (n : Node T). ok (record { root = n; start = start; end = end }))
              (update_rec_covered (end - start) (node s.default none empty empty) start end tag
                (omega arith))),
        record {
          holds = (Sums-apply tag c tags s.default (end - start), (c, tags, rw length-replicate));
          size = length-replicate (end - start) c;
          proper = h;
        },
        refl,
        refl,
      )
