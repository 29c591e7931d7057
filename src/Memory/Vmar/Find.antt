-- ===== src/Memory/Vmar/Find.antt =====
-- `find_entry`: the entry that occupies a page.
use akarin.Base.{
  ℕ, ◌-◌, ◌/◌, ◌≤◌, ◌<◌, ◌≡◌, sym, ap, ◌∙◌, inl, inr, none, some, ltb, if◌then◌else◌, arith,
  Option-cases, ltb→lt, lt→ltb, le→leb,
}
use mathlib.Core.Path.{ap₂}
use akarin.Base.OrdMap.{lookup, last_le}
use akarin.Memory.Range.{page_size, checked_sub}
use akarin.Memory.Spans.{last_le-some, last_le-none, covered-lookup, lookup_unique}
use akarin.Memory.Vmar.{
  Vmar, VmarEntry, entry_range, page_span_for_range, span_between, entry_if, entry_near, find_entry,
}
use akarin.Memory.Vmar.Invariant.{IsValid, IsChild, stop, page-lt}
use akarin.Memory.Vmar.Unmap.{lookup-Placed}

page_span_for_range-IsChild :
    (v : Vmar) (e : VmarEntry)
    → IsValid v
    → IsChild v.range (entry_range e)
    → page_span_for_range v v.page_count (entry_range e)
      ≡ some (((entry_range e).start - v.range.start) / page_size, stop v.range.start e)
unfolding page_span_for_range span_between
page_span_for_range-IsChild v e h c =
    let base = v.range.start in
    let r = entry_range e in
    let low : checked_sub r.start base ≡ some (r.start - base) = rw (le→leb base r.start c.low) in
    let high : checked_sub r.end base ≡ some (r.end - base) =
      rw (le→leb base r.end (omega (arith, c.low, c.proper.nonempty))) in
    let order : (r.start - base) / page_size < stop base e =
      page-lt base r.start r.end c.low c.start_aligned c.end_aligned c.proper.nonempty in
    let bound : stop base e ≤ v.page_count = omega (arith, c.high, h.counted) in
    rw (low, high, span_between) (rw (lt→ltb _ _ order, le→leb _ _ bound))

find_entry_near :
    (v : Vmar) (p k : ℕ) (e : VmarEntry)
    → IsValid v
    → last_le v.entries p ≡ some (k, e)
    → find_entry v p ≡ (if ltb p (stop v.range.start e) then some (k, e) else none)
unfolding find_entry entry_near entry_if
find_entry_near v p k e h last =
    let (low, found, held) =
      last_le-some (stop v.range.start) 0 v.entries v.page_count p k e h.apart last in
    let (child, key) = lookup-Placed v.range v.entries k e h.placed found in
    ap (entry_near v p) last
    ∙ ap (entry_if p (k, e)) (page_span_for_range-IsChild v e h child)
    ∙ rw (← key, le→leb k p low)

find_entry_far : (v : Vmar) (p : ℕ) → last_le v.entries p ≡ none → find_entry v p ≡ none
unfolding find_entry entry_near
find_entry_far v p last = ap (entry_near v p) last

-- The entry that `find_entry` finds in a well-formed VMAR is stored there under the key that it
-- gives, and occupies the page.
pub find_entry-some :
    (v : Vmar) (p k : ℕ) (e : VmarEntry)
    → IsValid v
    → find_entry v p ≡ some (k, e)
    → (lookup v.entries k ≡ some e) × (k ≤ p) × (p < stop v.range.start e)
find_entry-some v p k e h f = elim (Option-cases (last_le v.entries p)) [
  | inl n ↦ absurd (cc (find_entry_far v p n))
  | inr ((j, d), last) ↦
      let near = find_entry_near v p j d h last in
      let (low, found, held) =
        last_le-some (stop v.range.start) 0 v.entries v.page_count p j d h.apart last in
      ground (arith, near, found, low)
]

-- An entry of a well-formed VMAR that occupies the page is the one that `find_entry` finds.
pub find_entry_of :
    (v : Vmar) (p k : ℕ) (e : VmarEntry)
    → IsValid v
    → lookup v.entries k ≡ some e
    → k ≤ p
    → p < stop v.range.start e
    → find_entry v p ≡ some (k, e)
find_entry_of v p k e h found low high =
    let taken =
      covered-lookup (stop v.range.start) 0 v.entries v.page_count k e p h.apart found low high in
    elim (Option-cases (last_le v.entries p)) [
      | inl n ↦ absurd (cc (taken, last_le-none (stop v.range.start) v.entries p n))
      | inr ((j, d), last) ↦
          let (low', found', held) =
            last_le-some (stop v.range.start) 0 v.entries v.page_count p j d h.apart last in
          let high' : p < stop v.range.start d = ltb→lt _ _ (sym held ∙ taken) in
          let (same, same') =
            lookup_unique (stop v.range.start) 0 v.entries v.page_count j k d e p h.apart found'
              found low' high' low high in
          find_entry_near v p j d h last
          ∙ rw (lt→ltb _ _ high') (ap some (ap₂ (λ a b. (a, b)) same same'))
    ]
