-- ===== src/Memory/Vmar/Invariant.antt =====
-- When a VMAR is well formed, and what a page's bit in its tree says of its entries.
use akarin.Base.{
  ℕ, ◌-◌, ◌/◌, ◌%◌, ◌≤◌, ◌<◌, max, ◌≡◌, refl, inl, inr, Bool, true, false, not, ◌&&◌, ◌||◌, some,
  List, [], ◌∷◌, length, get_elem?, ltb, leb, arith, Bool-cases, lt→ltb, le→leb,
}
use mathlib.Core.Path.{ap₂}
use akarin.Memory.FreeSpace.FirstFit.{Keeps}
use akarin.Memory.FreeSpace.{FreeTree}
use akarin.Memory.Range.{VmRange, IsProper, page_size, len, contains, overlaps}
use akarin.Memory.Spans.{covered, Apart}
use akarin.Memory.Vmar.{Vmar, VmarEntry, entry_range, valid_child_range, span_from, page_span}

-- The first page behind an entry, pages being counted from `base`.
abbrev pub stop : ℕ → VmarEntry → ℕ
stop base e = ((entry_range e).end - base) / page_size

-- A range as `valid_child_range` wants it.
pub record IsChild (owner range : VmRange) : Type 0 where
  pub proper : IsProper range
  pub low : owner.start ≤ range.start
  pub high : range.end ≤ owner.end
  pub start_aligned : range.start % page_size ≡ 0
  pub end_aligned : range.end % page_size ≡ 0

pub valid_child_range-IsChild :
    (v : Vmar) (range : VmRange)
    → IsProper range
    → valid_child_range v range ≡ true
    → IsChild v.range range
valid_child_range-IsChild v range p h = ground arith

pub IsChild-valid_child_range :
    (v : Vmar) (range : VmRange) → IsChild v.range range → valid_child_range v range ≡ true
IsChild-valid_child_range v range c = ground arith

-- Each entry lies in the VMAR's range and is stored under its first page.
abbrev pub Placed : VmRange → List (ℕ × VmarEntry) → Type 0
Placed owner [] = Unit
Placed owner ((k, e) ∷ es) =
    (IsChild owner (entry_range e) × (k ≡ ((entry_range e).start - owner.start) / page_size))
    × Placed owner es

pub record IsValid (v : Vmar) : Type 0 where
  pub proper : IsProper v.range
  pub counted : v.page_count ≡ len v.range / page_size
  pub some_page : 0 < v.page_count
  pub pages : List Bool
  pub keeps : Keeps v.tree pages
  pub size : length pages ≡ v.page_count
  pub placed : Placed v.range v.entries
  pub apart : Apart (stop v.range.start) 0 v.entries v.page_count
  -- A page's bit is set if no entry occupies the page.
  pub bits :
      (p : ℕ)
      → p < v.page_count
      → get_elem? pages p ≡ some (not (covered (stop v.range.start) v.entries p))

-- Pages are in the order of the aligned addresses.
pub page-lt :
    (base a b : ℕ)
    → base ≤ a
    → a % page_size ≡ 0
    → b % page_size ≡ 0
    → a < b
    → (a - base) / page_size < (b - base) / page_size
page-lt base a b l ha hb h = omega arith

page-ltb :
    (base a b : ℕ)
    → base ≤ a
    → base ≤ b
    → a % page_size ≡ 0
    → b % page_size ≡ 0
    → ltb a b ≡ ltb ((a - base) / page_size) ((b - base) / page_size)
page-ltb base a b l m ha hb = ground (arith, page-lt base a b, page-lt base b a)

-- The pages of a child range.
pub page_span-IsChild :
    (v : Vmar) (range : VmRange)
    → IsChild v.range range
    → page_span v range
      ≡ some ((range.start - v.range.start) / page_size, (range.end - v.range.start) / page_size)
unfolding page_span span_from
page_span-IsChild v range c =
    let inside : contains v.range range.start ≡ true = ground arith in
    let first = (range.start - v.range.start) / page_size in
    let behind = (range.end - v.range.start) / page_size in
    let some_pages : first < behind =
      page-lt v.range.start range.start range.end c.low c.start_aligned c.end_aligned
        c.proper.nonempty in
    let bounded : behind ≤ len v.range / page_size = omega (arith, c.high) in
    let fits : (ltb first behind && leb behind (len v.range / page_size)) ≡ true =
      rw (lt→ltb _ _ some_pages, le→leb _ _ bounded) in
    rw inside (rw fits)

-- Two child ranges overlap exactly when their pages do.
overlap_pages :
    (owner a b : VmRange)
    → IsChild owner a
    → IsChild owner b
    → overlaps a b ≡ (
        ltb ((a.start - owner.start) / page_size) ((b.end - owner.start) / page_size)
        && ltb ((b.start - owner.start) / page_size) ((a.end - owner.start) / page_size))
unfolding overlaps
overlap_pages owner a b c d =
    let base = owner.start in
    ap₂ ◌&&◌
      (page-ltb base a.start b.end c.low (omega (arith, d.low, d.proper.nonempty)) c.start_aligned
        d.end_aligned)
      (page-ltb base b.start a.end d.low (omega (arith, c.low, c.proper.nonempty)) d.start_aligned
        c.end_aligned)

-- Whether some entry's range overlaps `range`.
abbrev pub busy : List (ℕ × VmarEntry) → VmRange → Bool
busy [] range = false
busy ((k, e) ∷ es) range = overlaps (entry_range e) range || busy es range

pub free_of_not-busy :
    (owner : VmRange) (es : List (ℕ × VmarEntry)) (range : VmRange) (p : ℕ)
    → Placed owner es
    → IsChild owner range
    → busy es range ≡ false
    → (range.start - owner.start) / page_size ≤ p
    → p < (range.end - owner.start) / page_size
    → covered (stop owner.start) es p ≡ false
free_of_not-busy owner [] range p placed c b l h = refl
free_of_not-busy owner ((k, e) ∷ es) range p placed c b l h = ground (
  arith,
  overlap_pages owner (entry_range e) range placed.0.0 c,
  free_of_not-busy owner es range p placed.1 c,
)

-- A page of the range that an entry occupies.
pub taken_of_busy :
    (owner : VmRange) (es : List (ℕ × VmarEntry)) (range : VmRange)
    → Placed owner es
    → IsChild owner range
    → busy es range ≡ true
    → (p : ℕ) × ((range.start - owner.start) / page_size ≤ p)
      × (p < (range.end - owner.start) / page_size)
      × (covered (stop owner.start) es p ≡ true)
taken_of_busy owner [] range placed c b = absurd (cc)
taken_of_busy owner ((k, e) ∷ es) range placed c b =
    elim (Bool-cases (overlaps (entry_range e) range)) [
      | inl o ↦
          let mine =
            page-lt owner.start (entry_range e).start (entry_range e).end placed.0.0.low
              placed.0.0.start_aligned placed.0.0.end_aligned placed.0.0.proper.nonempty in
          let its =
            page-lt owner.start range.start range.end c.low c.start_aligned c.end_aligned
              c.proper.nonempty in
          let first = (range.start - owner.start) / page_size in
          let front : ((entry_range e).start - owner.start) / page_size
              < (range.end - owner.start) / page_size =
            ground (arith, overlap_pages owner (entry_range e) range placed.0.0 c, o) in
          let back : first < stop owner.start e =
            ground (arith, overlap_pages owner (entry_range e) range placed.0.0 c, o) in
          let p = max k first in
          let here : leb k p ≡ true = le→leb _ _ (omega arith) in
          let there : ltb p (stop owner.start e) ≡ true =
            lt→ltb _ _ (omega (arith, placed.0.1, mine, back)) in
          (p, omega arith, omega (arith, placed.0.1, its, front), rw (here, there))
      | inr o ↦
          let (p, l, h, t) = taken_of_busy owner es range placed.1 c (ground (arith, o)) in
          (p, l, h, ground (arith, t))
    ]

-- A query only changes how the tree keeps its pages.
pub tree-IsValid :
    (v : Vmar) (tree : FreeTree) (h : IsValid v)
    → Keeps tree h.pages
    → IsValid (record v { tree = tree })
tree-IsValid v tree h k = record {
  proper = h.proper;
  counted = h.counted;
  some_page = h.some_page;
  pages = h.pages;
  keeps = k;
  size = h.size;
  placed = h.placed;
  apart = h.apart;
  bits = h.bits;
}
