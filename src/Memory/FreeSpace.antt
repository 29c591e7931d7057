-- ===== src/Memory/FreeSpace.antt =====
-- `VmarNode` of library/core/src/memory/vmar.rs: the state that the segment tree of a VMAR keeps for
-- a run of pages, and the search of a VMAR for free pages. `usize` sums stay far below the word
-- size, since they count pages of one domain.
pub mod Summary
pub mod FirstFit
use akarin.Base.{
  ℕ, zero, suc, ◌+◌, ◌-◌, ◌/◌, max, Bool, true, false, Option, none, some, ltb, leb, ◌==◌,
  if◌then◌else◌,
}
use akarin.Segment.{SegmentState, SegmentTree, Result, ok, err, middle, query}

pub record VmarNode : Type 0 where
  pub len : ℕ
  pub prefix_free : ℕ
  pub suffix_free : ℕ
  pub max_free : ℕ
  pub fill : Option Bool

abbrev pub default : VmarNode
default = record { len = 0; prefix_free = 0; suffix_free = 0; max_free = 0; fill = none }

unfoldable pub free : VmarNode
free = record default { fill = some true }

unfoldable pub used : VmarNode
used = record default { fill = some false }

unfoldable pub fully_free : VmarNode → Bool
fully_free n = n.max_free == n.len

unfoldable pub merge : VmarNode → VmarNode → VmarNode
merge left right = record {
  len = left.len + right.len;
  prefix_free =
      if left.prefix_free == left.len then left.len + right.prefix_free else left.prefix_free;
  suffix_free =
      if right.suffix_free == right.len then right.len + left.suffix_free else right.suffix_free;
  max_free = max (max left.max_free right.max_free) (left.suffix_free + right.prefix_free);
  fill = none;
}

apply_fill : VmarNode → Option Bool → ℕ → VmarNode
apply_fill n none len = record n { len = len }
apply_fill n (some true) len = record {
  len = len;
  prefix_free = len;
  suffix_free = len;
  max_free = len;
  fill = some true;
}
apply_fill n (some false) len = record {
  len = len;
  prefix_free = 0;
  suffix_free = 0;
  max_free = 0;
  fill = some false;
}

unfoldable pub apply : VmarNode → VmarNode → ℕ → VmarNode
unfolding apply_fill
apply n lazy_value len = apply_fill n lazy_value.fill len

instance abbrev pub vmar_state : SegmentState VmarNode
vmar_state = record { default = default; merge = merge; apply = apply }

abbrev pub FreeTree : Type 0
FreeTree = SegmentTree VmarNode

-- The two `.ok()?` queries of the halves, and the recursive calls `rec`, of `find_first_fit`.
fit_across :
    (FreeTree → ℕ → ℕ → Option ℕ × FreeTree) → FreeTree → ℕ → ℕ → ℕ → ℕ → Option ℕ × FreeTree
fit_across rec t start mid end needed = elim (query t start mid) [
  | err e ↦ (none, t)
  | ok (left, t₁) ↦ elim (query t₁ mid end) [
    | err e ↦ (none, t₁)
    | ok (right, t₂) ↦
        if leb needed (left.suffix_free + right.prefix_free)
        then (some (mid - left.suffix_free), t₂)
        else if ltb mid end
        then rec t₂ mid end
        else (none, t₂)
  ]
]

-- What follows the search of the left half: it has found a page, or the search goes on.
fit_after :
    (FreeTree → ℕ → ℕ → Option ℕ × FreeTree)
    → ℕ
    → ℕ
    → ℕ
    → ℕ
    → Option ℕ × FreeTree
    → Option ℕ × FreeTree
unfolding fit_across
fit_after rec start mid end needed (some found, t) = (some found, t)
fit_after rec start mid end needed (none, t) = fit_across rec t start mid end needed

fit_split : (FreeTree → ℕ → ℕ → Option ℕ × FreeTree) → FreeTree → ℕ → ℕ → ℕ → Option ℕ × FreeTree
unfolding fit_after
fit_split rec t start end needed =
    let mid = middle start end in
    fit_after rec start mid end needed (if ltb start mid then rec t start mid else (none, t))

-- `&mut state` is the tree handed in and back: a query pushes tags down. The fuel bounds the
-- halvings of the interval.
unfoldable pub find_first_fit : ℕ → FreeTree → ℕ → ℕ → ℕ → Option ℕ × FreeTree
unfolding fit_split
find_first_fit zero t start end needed = (none, t)
find_first_fit (suc fuel) t start end needed =
    if ltb (end - start) needed then (none, t) else elim (query t start end) [
      | err e ↦ (none, t)
      | ok (summary, t₁) ↦
          let deeper = fit_split (λ u a b. find_first_fit fuel u a b needed) t₁ start end needed in
          if ltb summary.max_free needed
          then (none, t₁)
          else if end - start == needed
          then (some start, t₁)
          else deeper
    ]
