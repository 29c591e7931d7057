-- ===== src/Memory/FreeSpace/Summary.antt =====
-- A `VmarNode` sums up the free pages of a run of pages.
use akarin.Base.{
  ℕ, ◌≡◌, Bool, true, false, some, List, ◌++◌, length, replicate, length-append, length-replicate,
  prefix, suffix, longest, prefix-append, suffix-append, longest-append, prefix-replicate,
  suffix-replicate, longest-replicate,
}
use akarin.Segment.Holds.{Cells}
use akarin.Memory.FreeSpace.{VmarNode, merge, apply, vmar_state}

-- The node counts the pages, and the free ones at the front, at the end and in the longest run.
-- A page is `true` if it is free.
pub record Sums (n : VmarNode) (pages : List Bool) : Type 0 where
  pub len : n.len ≡ length pages
  pub prefix_free : n.prefix_free ≡ prefix pages
  pub suffix_free : n.suffix_free ≡ suffix pages
  pub max_free : n.max_free ≡ longest pages

abbrev pub Tags : VmarNode → Bool → Type 0
Tags n b = n.fill ≡ some b

-- A tag says of all pages that they are free, or that they are used.
pub Sums-apply :
    (tag : VmarNode) (b : Bool)
    → Tags tag b
    → (old : VmarNode) (n : ℕ) → Sums (apply old tag n) (replicate n b)
unfolding apply
Sums-apply tag true h old n = rw h (record {
  len = rw length-replicate;
  prefix_free = rw prefix-replicate;
  suffix_free = rw suffix-replicate;
  max_free = rw longest-replicate;
})
Sums-apply tag false h old n = rw h (record {
  len = rw length-replicate;
  prefix_free = rw prefix-replicate;
  suffix_free = rw suffix-replicate;
  max_free = rw longest-replicate;
})

-- If two nodes sum up two runs of pages, the merged node sums up the one run after the other.
pub Sums-merge :
    (a b : VmarNode) (xs ys : List Bool) → Sums a xs → Sums b ys → Sums (merge a b) (xs ++ ys)
unfolding merge
Sums-merge a b xs ys h k = record {
  len = rw (length-append xs ys, h.len, k.len);
  prefix_free = rw (prefix-append xs ys, h.len, h.prefix_free, k.prefix_free);
  suffix_free = rw (suffix-append xs ys, k.len, h.suffix_free, k.suffix_free);
  max_free = rw (longest-append xs ys, h.max_free, k.max_free, h.suffix_free, k.prefix_free);
}

abbrev pub pages : Cells VmarNode vmar_state
pages = record {
  Cell = Bool;
  Tags = Tags;
  Sums = Sums;
  Sums-apply = Sums-apply;
  Sums-merge = Sums-merge;
}
