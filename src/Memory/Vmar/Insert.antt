-- ===== src/Memory/Vmar/Insert.antt =====
-- `insert_entry`: it stores an entry exactly where no other is in the way, and keeps the VMAR well
-- formed on every path.
use akarin.Base.{
  ℕ, ◌+◌, ◌-◌, ◌/◌, ◌≤◌, ◌<◌, ◌≡◌, ◌≢◌, refl, sym, ap, ◌∙◌, inl, inr, Bool, true, false, not, ◌&&◌,
  none, some, List, [], ◌∷◌, length, get_elem?, slice, fill, longest, ◌==◌, if◌then◌else◌, ==_iff,
  arith, Bool-cases, length-fill, length-slice, get_elem?-slice, get_elem?-fill, all_of_longest,
  longest_of_all, lt→ltb,
}
use akarin.Base.OrdMap.{lookup, insert}
use akarin.Segment.{query, update}
use akarin.Segment
use akarin.Memory.FreeSpace.{VmarNode, used, fully_free, FreeTree, vmar_state}
use akarin.Memory.FreeSpace.FirstFit.{Keeps, query-Keeps, update-Keeps}
use akarin.Memory.Range.{VmRange, IsProper, page_size}
use akarin.Memory.Spans.{covered, insert-Apart, covered-insert, lookup-uncovered}
use akarin.Memory.Vmar.{
  Vmar, VmarEntry, entry_range, Outcome, ok, err, invalid_range, already_mapped, valid_child_range,
  page_span, occupy, store_if_free, store_at, insert_entry,
}
use akarin.Memory.Vmar.Invariant.{
  IsValid, IsChild, Placed, busy, stop, page-lt, page_span-IsChild, valid_child_range-IsChild,
  IsChild-valid_child_range, free_of_not-busy, taken_of_busy, tree-IsValid,
}

pub insert-Placed :
    (owner : VmRange) (es : List (ℕ × VmarEntry)) (k : ℕ) (e : VmarEntry)
    → Placed owner es
    → IsChild owner (entry_range e)
    → k ≡ ((entry_range e).start - owner.start) / page_size
    → Placed owner (insert es k e)
unfolding insert
insert-Placed owner [] k e p c q = ((c, q), tt)
insert-Placed owner ((j, f) ∷ es) k e p c q = ground (arith, insert-Placed owner es k e p.1 c q)

-- A stretch of pages is all free exactly when no entry occupies one of them.
module _ (v : Vmar) (h : IsValid v) (from to : ℕ) (order : from < to)
    (inside : to ≤ v.page_count) where
  open h use {pages}

  stretch : List Bool
  stretch = slice pages from to

  stretch_bits :
      (i : ℕ)
      → i < length stretch
      → get_elem? stretch i ≡ some (not (covered (stop v.range.start) v.entries (from + i)))
  unfolding stretch
  stretch_bits i l =
      let size : length (slice pages from to) ≡ to - from =
        length-slice pages from to (omega (arith, h.size)) in
      get_elem?-slice pages from to i
      ∙ rw (lt→ltb (from + i) to (omega (arith, size))) (h.bits (from + i) (omega (arith, size)))

  all_free :
      ((p : ℕ) → from ≤ p → p < to → covered (stop v.range.start) v.entries p ≡ false)
      → longest stretch ≡ length stretch
  unfolding stretch
  all_free f = longest_of_all stretch (λ i l.
      let size : length (slice pages from to) ≡ to - from =
        length-slice pages from to (omega (arith, h.size)) in
      let unused = f (from + i) (omega arith) (omega (arith, size)) in stretch_bits i l ∙ rw unused)

  not_taken :
      longest stretch ≡ length stretch
      → (p : ℕ) → from ≤ p
      → p < to
      → covered (stop v.range.start) v.entries p ≡ false
  unfolding stretch
  not_taken full p l u =
      let size : length (slice pages from to) ≡ to - from =
        length-slice pages from to (omega (arith, h.size)) in
      let i = p - from in
      let e : from + i ≡ p = omega arith in
      let here : i < length stretch = omega (arith, size) in
      let bit = rw e at (stretch_bits i here) in
      ground (arith, bit, all_of_longest stretch i full here)

-- An entry on free pages, and their bits cleared.
inserted-IsValid :
    (v : Vmar) (entry : VmarEntry) (tree : FreeTree) (h : IsValid v)
    → IsChild v.range (entry_range entry)
    → let first = ((entry_range entry).start - v.range.start) / page_size in
      ((p : ℕ)
        → first ≤ p
        → p < stop v.range.start entry
        → covered (stop v.range.start) v.entries p ≡ false)
      → Keeps tree (fill h.pages first (stop v.range.start entry) false)
      → IsValid (record v { tree = tree; entries = insert v.entries first entry })
inserted-IsValid v entry tree h c unused keeps =
    let base = v.range.start in
    let first = ((entry_range entry).start - base) / page_size in
    let behind = stop base entry in
    let order : first < behind =
      page-lt base (entry_range entry).start (entry_range entry).end c.low c.start_aligned
        c.end_aligned c.proper.nonempty in
    let high : behind ≤ v.page_count = omega (arith, c.high, h.counted) in
    let fresh : lookup v.entries first ≡ none =
      lookup-uncovered (stop base) v.entries 0 v.page_count first h.apart
        (unused first (omega arith) order) in
    record {
      proper = h.proper;
      counted = h.counted;
      some_page = h.some_page;
      pages = fill h.pages first behind false;
      keeps = keeps;
      size = length-fill h.pages first behind false ∙ h.size;
      placed = insert-Placed v.range v.entries first entry h.placed c refl;
      apart =
          insert-Apart (stop base) 0 v.entries v.page_count first entry h.apart (omega arith) order
            high unused;
      bits = λ p l.
          let old = h.bits p l in
          rw
            (
              get_elem?-fill h.pages first behind false p (omega (arith, h.size)),
              covered-insert (stop base) v.entries first entry p fresh,
            )
            (ground (arith, old));
    }

-- The entry's pages are known and the tree has answered.
insert_entry_run :
    (v : Vmar) (entry : VmarEntry) (from to : ℕ) (status : VmarNode) (tree : FreeTree)
    → valid_child_range v (entry_range entry) ≡ true
    → page_span v (entry_range entry) ≡ some (from, to)
    → query v.tree from to ≡ Segment.ok (status, tree)
    → insert_entry v entry ≡ store_if_free v entry from to (Segment.ok (status, tree))
unfolding insert_entry store_at
insert_entry_run v entry from to status tree fits span asked =
    rw fits (ap (store_at v entry) span ∙ ap (store_if_free v entry from to) asked)

store_if_free_taken :
    (v : Vmar) (entry : VmarEntry) (from to : ℕ) (status : VmarNode) (tree : FreeTree)
    → status.max_free ≢ status.len
    → store_if_free v entry from to (Segment.ok (status, tree))
      ≡ (record v { tree = tree }, err already_mapped)
unfolding store_if_free fully_free
store_if_free_taken v entry from to status tree n = ground arith

store_if_free_free :
    (v : Vmar) (entry : VmarEntry) (from to : ℕ) (status : VmarNode) (t₁ t₂ : FreeTree)
    → status.max_free ≡ status.len
    → update t₁ from to used ≡ Segment.ok t₂
    → store_if_free v entry from to (Segment.ok (status, t₁))
      ≡ (record v { tree = t₂; entries = insert v.entries from entry }, ok tt)
unfolding store_if_free fully_free occupy
store_if_free_free v entry from to status t₁ t₂ n told =
    let e : (status.max_free == status.len) ≡ true = (==_iff _ _).1 n in
    rw e (ap (occupy (record v { tree = t₁; entries = insert v.entries from entry })) told)

-- What `insert_entry` comes to, for a range that lies in the VMAR.
record Inserts (v : Vmar) (entry : VmarEntry) (r : Vmar × Outcome (Unit {0})) : Type 0 where
  valid : IsValid r.0
  same_range : r.0.range ≡ v.range
  outcome : r.1 ≡ (if busy v.entries (entry_range entry) then err already_mapped else ok tt)
  entries : r.0.entries ≡ (
      if busy v.entries (entry_range entry)
      then v.entries
      else insert v.entries (((entry_range entry).start - v.range.start) / page_size) entry)

insert_entry-Inserts :
    (v : Vmar) (entry : VmarEntry)
    → IsValid v
    → IsChild v.range (entry_range entry)
    → Inserts v entry (insert_entry v entry)
unfolding used stretch
insert_entry-Inserts v entry h c =
    let base = v.range.start in
    let first = ((entry_range entry).start - base) / page_size in
    let behind = stop base entry in
    let order : first < behind =
      page-lt base (entry_range entry).start (entry_range entry).end c.low c.start_aligned
        c.end_aligned c.proper.nonempty in
    let high : behind ≤ v.page_count = omega (arith, c.high, h.counted) in
    let (status, t₁, asked, sums, k₁) =
      query-Keeps v.tree first behind h.pages h.keeps order (omega (arith, h.size)) in
    let (t₂, told, k₂) =
      update-Keeps t₁ first behind used false h.pages k₁ refl order (omega (arith, h.size)) in
    let run =
      insert_entry_run v entry first behind status t₁
        (IsChild-valid_child_range v (entry_range entry) c)
        (page_span-IsChild v (entry_range entry) c) asked in
    elim (Bool-cases (busy v.entries (entry_range entry))) [
      | inl taken ↦
          let (p, low, up, here) =
            taken_of_busy v.range v.entries (entry_range entry) h.placed c taken in
          let not_free : status.max_free ≢ status.len = λ e.
            let clear =
              not_taken v h first behind order high (sym sums.max_free ∙ e ∙ sums.len) p low up in
            cc in
          rw (run ∙ store_if_free_taken v entry first behind status t₁ not_free) (record {
            valid = tree-IsValid v t₁ h k₁;
            same_range = refl;
            outcome = rw taken;
            entries = rw taken;
          })
      | inr vacant ↦
          let unused = λ (p : ℕ) (l : first ≤ p) (u : p < behind).
            free_of_not-busy v.range v.entries (entry_range entry) p h.placed c vacant l u in
          let is_free : status.max_free ≡ status.len =
            sums.max_free ∙ all_free v h first behind order high unused ∙ sym sums.len in
          rw (run ∙ store_if_free_free v entry first behind status t₁ t₂ is_free told) (record {
            valid = inserted-IsValid v entry t₂ h c unused k₂;
            same_range = refl;
            outcome = rw vacant;
            entries = rw vacant;
          })
    ]

if_not : {A : Type 0} (b : Bool) (x y : A) → (if b then x else y) ≡ (if not b then y else x)
if_not true x y = refl
if_not false x y = refl

insert_entry_refused :
    (v : Vmar) (entry : VmarEntry)
    → valid_child_range v (entry_range entry) ≡ false
    → insert_entry v entry ≡ (v, err invalid_range)
unfolding insert_entry
insert_entry_refused v entry outside = rw outside

-- On a well-formed VMAR, for an entry whose range is not empty and ends below 2^64, `insert_entry`
-- keeps the VMAR well formed whatever it answers. It refuses a range that is not
-- aligned or not inside, and one that overlaps the range of an entry, and leaves the entries as they
-- were; any other range is stored under its first page. It never panics.
pub insert_entry_lem :
    (v : Vmar) (entry : VmarEntry)
    → IsValid v
    → IsProper (entry_range entry)
    → IsValid (insert_entry v entry).0
      × ((insert_entry v entry).0.range ≡ v.range)
      × ((insert_entry v entry).1 ≡ (
          if not (valid_child_range v (entry_range entry))
          then err invalid_range
          else if busy v.entries (entry_range entry)
          then err already_mapped
          else ok tt))
      × ((insert_entry v entry).0.entries ≡ (
          if valid_child_range v (entry_range entry) && not (busy v.entries (entry_range entry))
          then insert v.entries (((entry_range entry).start - v.range.start) / page_size) entry
          else v.entries))
insert_entry_lem v entry h p = elim (Bool-cases (valid_child_range v (entry_range entry))) [
  | inl inside ↦
      let i =
        insert_entry-Inserts v entry h (valid_child_range-IsChild v (entry_range entry) p inside) in
      (
        i.valid,
        i.same_range,
        rw inside i.outcome,
        rw inside (
            i.entries
            ∙ if_not (busy v.entries (entry_range entry)) v.entries
                (insert v.entries (((entry_range entry).start - v.range.start) / page_size) entry)),
      )
  | inr outside ↦ rw (insert_entry_refused v entry outside) (h, refl, rw outside, rw outside)
]
