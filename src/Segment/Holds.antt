-- ===== src/Segment/Holds.antt =====
-- What a node of the segment tree stands for, and that pushing a tag down keeps it.
use akarin.Base.{
  ℕ, ◌-◌, ◌/◌, ◌≤◌, ◌≡◌, refl, ap, ◌∙◌, none, some, List, ◌++◌, arith, length, take, drop,
  replicate, length-replicate, take-replicate, drop-replicate,
}
use akarin.Segment.{SegmentState, Node, empty, node, middle, val_or_default, tagged, push_down}

-- What a segment state means: a state summarises the cells of an interval, and a tag stands for
-- one value of a cell.
pub record Cells (T : Type 0) (s : SegmentState T) : Type 1 where
  pub Cell : Type 0
  pub Tags : T → Cell → Type 0
  pub Sums : T → List Cell → Type 0
  pub Sums-apply :
      (tag : T) (c : Cell)
      → Tags tag c
      → (old : T) (n : ℕ) → Sums (s.apply old tag n) (replicate n c)
  pub Sums-merge :
      (a b : T) (xs ys : List Cell) → Sums a xs → Sums b ys → Sums (s.merge a b) (xs ++ ys)

module _ {T : Type 0} ⦃s : SegmentState T⦄ (cells : Cells T s) where
  open cells use {Cell, Tags, Sums, Sums-apply, Sums-merge}

  -- The node stands for the cells: each value sums up its interval, a tag covers its interval, and
  -- a node without a tag has both children.
  abbrev pub Holds : Node T → List Cell → Type 0
  Holds empty xs = ⊥
  Holds (node v (some tag) left right) xs =
      Sums v xs × ((c : Cell) × Tags tag c × (xs ≡ replicate (length xs) c))
  Holds (node v none left right) xs =
      Sums v xs × Holds left (take (length xs / 2) xs) × Holds right (drop (length xs / 2) xs)

  -- A node with its tag pushed down.
  pub record Pushed (n : Node T) (m : ℕ) (xs : List Cell) : Type 0 where
    pub val : T
    pub left : Node T
    pub right : Node T
    pub shape : n ≡ node val none left right
    pub sums : Sums val xs
    pub left_Holds : Holds left (take m xs)
    pub right_Holds : Holds right (drop m xs)

  pub Holds-Sums : (n : Node T) (xs : List Cell) → Holds n xs → Sums (val_or_default n) xs
  Holds-Sums empty xs h = absurd h
  Holds-Sums (node v none left right) xs h = h.0
  Holds-Sums (node v (some tag) left right) xs h = h.0

  pub tagged-Holds :
      (n : Node T) (tag : T) (c : Cell) (k : ℕ)
      → Tags tag c
      → Holds (tagged n tag k) (replicate k c)
  unfolding tagged
  tagged-Holds n tag c k h = (Sums-apply tag c h (val_or_default n) k, (c, h, rw length-replicate))

  pub push_down-Pushed :
      (n : Node T) (l r : ℕ) (xs : List Cell)
      → length xs ≡ r - l
      → l ≤ r
      → Holds n xs
      → Pushed (push_down n l r) (middle l r - l) xs
  unfolding push_down
  push_down-Pushed empty l r xs e lr h = absurd h
  push_down-Pushed (node v none left right) l r xs e lr (sums, hl, hr) =
      let m : length xs / 2 ≡ middle l r - l = omega arith in
      record {
        val = v;
        left = left;
        right = right;
        shape = refl;
        sums = sums;
        left_Holds = rw m at hl;
        right_Holds = rw m at hr;
      }
  push_down-Pushed (node v (some tag) left right) l r xs e lr (sums, (c, tags, eq)) =
      let m = middle l r - l in
      let el : take m xs ≡ replicate m c = ap (take m) eq ∙ take-replicate m _ c (omega arith) in
      let k : length xs - m ≡ r - middle l r = omega arith in
      let er : drop m xs ≡ replicate (r - middle l r) c =
        ap (drop m) eq ∙ drop-replicate m (length xs) c ∙ ap (λ (j : ℕ). replicate j c) k in
      record {
        val = v;
        left = tagged left tag m;
        right = tagged right tag (r - middle l r);
        shape = refl;
        sums = sums;
        left_Holds = rw el (tagged-Holds left tag c m tags);
        right_Holds = rw er (tagged-Holds right tag c (r - middle l r) tags);
      }
