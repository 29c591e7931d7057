-- ===== src/Segment/Query.antt =====
-- A query sums up the cells of its range.
use akarin.Base.{
  ℕ, zero, suc, ◌+◌, ◌-◌, ◌/◌, ◌≤◌, ◌<◌, ◌≡◌, refl, ap, ◌∙◌, inl, inr, ◌&&◌, Option, none, some,
  List, ◌++◌, arith, ltb, leb, Bool-cases, ltb→lt, not-ltb→le, length, take, drop, slice,
  length-take, length-drop, slice_empty, slice_past, slice_all, slice-split, append-nil,
}
use akarin.Segment.{SegmentState, Node, empty, node, middle, visit, query_children, query_rec}
use akarin.Segment.Holds.{Cells, Holds, Holds-Sums, push_down-Pushed}

module _ {T : Type 0} ⦃s : SegmentState T⦄ (cells : Cells T s) where
  open cells use {Cell, Tags, Sums, Sums-apply, Sums-merge}

  -- The cells that a query of [ql, qr) reads in an interval from `l`.
  abbrev pub part : List Cell → ℕ → ℕ → ℕ → List Cell
  part xs l ql qr = slice xs (ql - l) (qr - l)

  -- What a query hands back about the cells `xs` of the node's interval.
  unfoldable pub Answers : T × Node T → List Cell → List Cell → Type 0
  Answers a ys xs = Sums a.0 ys × Holds cells a.1 xs

  record Visited (a : Option T × Node T) (ys xs : List Cell) : Type 0 where
    res : T
    found : a.0 ≡ some res
    sums : Sums res ys
    holds : Holds cells a.1 xs

  visit-Visited :
      (rec : Node T → T × Node T) (n : Node T) (ys xs : List Cell)
      → Holds cells n xs
      → Answers (rec n) ys xs
      → Visited (visit rec n) ys xs
  unfolding Answers
  visit-Visited rec empty ys xs h a = absurd h
  visit-Visited rec (node v lazy left right) ys xs h a = record {
    res = (rec (node v lazy left right)).0;
    found = refl;
    sums = a.0;
    holds = a.1;
  }

  part-split :
      (xs : List Cell) (l m ql qr : ℕ)
      → l ≤ m
      → part xs l ql qr ≡ part (take (m - l) xs) l ql qr ++ part (drop (m - l) xs) m ql qr
  part-split xs l m ql qr h =
      let ea : ql - l - (m - l) ≡ ql - m = omega arith in
      let eb : qr - l - (m - l) ≡ qr - m = omega arith in
      rw (ea, eb) at (slice-split (m - l) xs (ql - l) (qr - l))

  part-left :
      (xs : List Cell) (l m ql qr : ℕ)
      → l ≤ m
      → qr ≤ m
      → part xs l ql qr ≡ part (take (m - l) xs) l ql qr
  part-left xs l m ql qr h k =
      part-split xs l m ql qr h
      ∙ ap (λ (ys : List Cell). part (take (m - l) xs) l ql qr ++ ys)
          (slice_empty (drop (m - l) xs) (ql - m) (qr - m) (omega arith))
      ∙ append-nil _

  part-right :
      (xs : List Cell) (l m ql qr : ℕ)
      → l ≤ m
      → m ≤ ql
      → part xs l ql qr ≡ part (drop (m - l) xs) m ql qr
  part-right xs l m ql qr h k =
      part-split xs l m ql qr h
      ∙ ap (λ (ys : List Cell). ys ++ part (drop (m - l) xs) m ql qr)
          (slice_past (take (m - l) xs) (ql - l) (qr - l) (omega (arith, length-take (m - l) xs)))

  module _ (rec : Node T → ℕ → ℕ → T × Node T) (v : T) (left right : Node T) (l r ql qr : ℕ)
      (xs : List Cell) (size : length xs ≡ r - l) (wide : l + 2 ≤ r) (sums : Sums v xs)
      (left_Holds : Holds cells left (take (middle l r - l) xs))
      (right_Holds : Holds cells right (drop (middle l r - l) xs)) (nonempty : ql < qr) where
    children : T × Node T
    children = query_children rec (node v none left right) l r ql qr

    query_children-Answers :
        (ql < middle l r
          → Answers
              (rec left l (middle l r))
              (part (take (middle l r - l) xs) l ql qr)
              (take (middle l r - l) xs))
        → (middle l r < qr
            → Answers
                (rec right (middle l r) r)
                (part (drop (middle l r - l) xs) (middle l r) ql qr)
                (drop (middle l r - l) xs))
        → Answers children (part xs l ql qr) xs
    unfolding children Answers
    query_children-Answers hl hr =
        let half : length xs / 2 ≡ m - l = omega arith in
        elim (Bool-cases (ltb ql m)) [
          | inl a ↦
              let left_visit =
                visit-Visited (λ n. rec n l m) left (part (take (m - l) xs) l ql qr)
                  (take (m - l) xs) left_Holds (hl (ltb→lt _ _ a)) in
              elim (Bool-cases (ltb m qr)) [
                | inl b ↦
                    let right_visit =
                      visit-Visited (λ n. rec n m r) right (part (drop (m - l) xs) m ql qr)
                        (drop (m - l) xs) right_Holds (hr (ltb→lt _ _ b)) in
                    rw (a, b, half, left_visit.found, right_visit.found)
                      (
                        rw (part-split xs l m ql qr (omega arith))
                            (Sums-merge _ _ _ _ left_visit.sums right_visit.sums),
                        (sums, left_visit.holds, right_visit.holds),
                      )
                | inr b ↦
                    rw (a, b, half, left_visit.found)
                      (
                        rw (part-left xs l m ql qr (omega arith) (not-ltb→le _ _ b))
                            left_visit.sums,
                        (sums, left_visit.holds, right_Holds),
                      )
              ]
          | inr a ↦ elim (Bool-cases (ltb m qr)) [
            | inl b ↦
                let right_visit =
                  visit-Visited (λ n. rec n m r) right (part (drop (m - l) xs) m ql qr)
                    (drop (m - l) xs) right_Holds (hr (ltb→lt _ _ b)) in
                rw (a, b, half, right_visit.found)
                  (
                    rw (part-right xs l m ql qr (omega arith) (not-ltb→le _ _ a)) right_visit.sums,
                    (sums, left_Holds, right_visit.holds),
                  )
            | inr b ↦ absurd (omega (arith, not-ltb→le _ _ a, not-ltb→le _ _ b))
          ]
        ]
      where
        m : ℕ
        m = middle l r

  pub query_rec-Answers :
      (fuel : ℕ) (n : Node T) (l r ql qr : ℕ) (xs : List Cell)
      → r ≤ l + fuel
      → length xs ≡ r - l
      → l < r
      → ql < r
      → l < qr
      → ql < qr
      → Holds cells n xs
      → Answers (query_rec fuel n l r ql qr) (part xs l ql qr) xs
  unfolding query_rec Answers children
  query_rec-Answers zero n l r ql qr xs f size w a b ne h = absurd (omega arith)
  query_rec-Answers (suc fuel) n l r ql qr xs f size w a b ne h =
      elim (Bool-cases (leb ql l && leb r qr)) [
        | inl all ↦
            let e : part xs l ql qr ≡ xs =
              let z : ql - l ≡ 0 = ground arith in rw z (slice_all xs (qr - l) (ground arith)) in
            rw (all, e) (Holds-Sums cells n xs h, h)
        | inr some_out ↦
            let p = push_down-Pushed cells n l r xs size (omega arith) h in
            let m = middle l r in
            let wide : l + 2 ≤ r = ground arith in
            let size_left : length (take (m - l) xs) ≡ m - l =
              omega (arith, length-take (m - l) xs) in
            let size_right : length (drop (m - l) xs) ≡ r - m =
              omega (arith, length-drop (m - l) xs) in
            rw (some_out, p.shape)
              (query_children-Answers (λ n' l' r'. query_rec fuel n' l' r' ql qr) p.val p.left
                p.right l r ql qr xs size wide p.sums p.left_Holds p.right_Holds ne
                (λ c.
                  query_rec-Answers fuel p.left l m ql qr (take (m - l) xs) (omega arith) size_left
                    (omega arith) c b ne p.left_Holds)
                (λ c.
                  query_rec-Answers fuel p.right m r ql qr (drop (m - l) xs) (omega arith)
                    size_right (omega arith) a c ne p.right_Holds))
      ]
