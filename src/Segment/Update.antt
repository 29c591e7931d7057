-- ===== src/Segment/Update.antt =====
-- An update overwrites the cells of its range.
use akarin.Base.{
  ℕ, zero, suc, ◌+◌, ◌-◌, ◌/◌, ◌≤◌, ◌<◌, ◌≡◌, refl, subst, inl, inr, ◌&&◌, none, List, arith, ltb,
  leb, if◌then◌else◌, Bool-cases, ltb→lt, not-ltb→le, length, take, drop, replicate, fill,
  length-take, length-drop, length-replicate, take-append-drop, fill_empty, fill_past, fill_all,
  take-fill, drop-fill, length-fill,
}
use akarin.Segment.{
  SegmentState, Node, empty, node, middle, val_or_default, push_up, or_new, update_rec,
}
use akarin.Segment.Holds.{Cells, Holds, Holds-Sums, push_down-Pushed}

module _ {T : Type 0} ⦃s : SegmentState T⦄ (cells : Cells T s) where
  open cells use {Cell, Tags, Sums, Sums-apply, Sums-merge}

  -- The cells of an interval from `l` after an update of [ql, qr).
  abbrev pub written : List Cell → ℕ → ℕ → ℕ → Cell → List Cell
  written xs l ql qr c = fill xs (ql - l) (qr - l) c

  pub or_new-Holds : (n : Node T) (xs : List Cell) → Holds cells n xs → or_new n ≡ n
  or_new-Holds empty xs h = absurd h
  or_new-Holds (node v lazy left right) xs h = refl

  -- Two halves that hold their cells make a node that holds them all, once its value is pushed up.
  push_up-Holds :
      (v : T) (left right : Node T) (m : ℕ) (xs : List Cell)
      → length xs / 2 ≡ m
      → Holds cells left (take m xs)
      → Holds cells right (drop m xs)
      → Holds cells (push_up (node v none left right)) xs
  unfolding push_up
  push_up-Holds v left right m xs e hl hr = (
    subst (λ ys. Sums (s.merge (val_or_default left) (val_or_default right)) ys)
        (take-append-drop m xs)
        (Sums-merge _ _ (take m xs) (drop m xs) (Holds-Sums cells left _ hl)
          (Holds-Sums cells right _ hr)),
    rw e hl,
    rw e hr,
  )

  written-left :
      (xs : List Cell) (l m ql qr : ℕ) (c : Cell)
      → m ≤ ql
      → l ≤ m
      → written (take (m - l) xs) l ql qr c ≡ take (m - l) xs
  written-left xs l m ql qr c h k =
      fill_past (take (m - l) xs) (ql - l) (qr - l) c (omega (arith, length-take (m - l) xs))

  written-drop :
      (xs : List Cell) (l m ql qr : ℕ) (c : Cell)
      → l ≤ m
      → drop (m - l) (written xs l ql qr c) ≡ written (drop (m - l) xs) m ql qr c
  written-drop xs l m ql qr c h =
      let ea : ql - l - (m - l) ≡ ql - m = omega arith in
      let eb : qr - l - (m - l) ≡ qr - m = omega arith in
      rw (ea, eb) at (drop-fill (m - l) xs (ql - l) (qr - l) c)

  written-right : (xs : List Cell) (m ql qr : ℕ) (c : Cell) → qr ≤ m → written xs m ql qr c ≡ xs
  written-right xs m ql qr c h = fill_empty xs (ql - m) (qr - m) c (omega arith)

  pub update_rec-Holds :
      (fuel : ℕ) (n : Node T) (l r ql qr : ℕ) (tag : T) (c : Cell) (xs : List Cell)
      → r ≤ l + fuel
      → length xs ≡ r - l
      → l < r
      → ql < r
      → l < qr
      → ql < qr
      → Tags tag c
      → Holds cells n xs
      → Holds cells (update_rec fuel n l r ql qr tag) (written xs l ql qr c)
  unfolding update_rec
  update_rec-Holds zero n l r ql qr tag c xs f size w a b ne t h = absurd (omega arith)
  update_rec-Holds (suc fuel) empty l r ql qr tag c xs f size w a b ne t h = absurd h
  update_rec-Holds (suc fuel) (node v lazy nl nr) l r ql qr tag c xs f size w a b ne t h =
      elim (Bool-cases (leb ql l && leb r qr)) [
        | inl all ↦
            let z : ql - l ≡ 0 = ground arith in
            let e : written xs l ql qr c ≡ replicate (r - l) c =
              rw (z, ← size) (fill_all xs (qr - l) c (ground arith)) in
            rw (all, e) (Sums-apply tag c t v (r - l), (c, t, rw length-replicate))
        | inr some_out ↦
            let p = push_down-Pushed cells (node v lazy nl nr) l r xs size (omega arith) h in
            let m = middle l r in
            let wide : l + 2 ≤ r = ground arith in
            let size_left : length (take (m - l) xs) ≡ m - l =
              omega (arith, length-take (m - l) xs) in
            let size_right : length (drop (m - l) xs) ≡ r - m =
              omega (arith, length-drop (m - l) xs) in
            let half : length (written xs l ql qr c) / 2 ≡ m - l =
              omega (arith, length-fill xs (ql - l) (qr - l) c) in
            let L : Node T =
              if ltb ql m then update_rec fuel (or_new p.left) l m ql qr tag else p.left in
            let R : Node T =
              if ltb m qr then update_rec fuel (or_new p.right) m r ql qr tag else p.right in
            let hl : Holds cells L (take (m - l) (written xs l ql qr c)) =
              rw (take-fill (m - l) xs (ql - l) (qr - l) c) (elim (Bool-cases (ltb ql m)) [
                | inl x ↦
                    rw (x, or_new-Holds p.left _ p.left_Holds)
                      (update_rec-Holds fuel p.left l m ql qr tag c (take (m - l) xs) (omega arith)
                        size_left (omega arith) (ltb→lt _ _ x) b ne t p.left_Holds)
                | inr x ↦
                    rw (x, written-left xs l m ql qr c (not-ltb→le _ _ x) (omega arith))
                      p.left_Holds
              ]) in
            let hr : Holds cells R (drop (m - l) (written xs l ql qr c)) =
              rw (written-drop xs l m ql qr c (omega arith)) (elim (Bool-cases (ltb m qr)) [
                | inl x ↦
                    rw (x, or_new-Holds p.right _ p.right_Holds)
                      (update_rec-Holds fuel p.right m r ql qr tag c (drop (m - l) xs) (omega arith)
                        size_right (omega arith) a (ltb→lt _ _ x) ne t p.right_Holds)
                | inr x ↦
                    rw (x, written-right (drop (m - l) xs) m ql qr c (not-ltb→le _ _ x))
                      p.right_Holds
              ]) in
            rw (some_out, p.shape)
              (push_up-Holds p.val L R (m - l) (written xs l ql qr c) half hl hr)
      ]
