-- ===== src/Memory/Vmar/Unmap.antt =====
-- `unmap`: it removes exactly the entry that begins at the address, and frees its pages.
use akarin.Base.{
  ℕ, ◌-◌, ◌/◌, ◌<◌, ◌≡◌, refl, sym, ap, subst, ◌∙◌, inl, inr, true, false, not, Option, none, some,
  List, [], ◌∷◌, fill, ◌==◌, if◌then◌else◌, ==_iff, arith, Bool-cases, Option-cases, length-fill,
  get_elem?-fill,
}
use akarin.Base.OrdMap.{lookup, remove}
use akarin.Memory.FreeSpace.{free, FreeTree}
use akarin.Memory.FreeSpace.FirstFit.{Keeps, update-Keeps}
use akarin.Memory.Range.{VmRange, page_size, contains}
use akarin.Memory.Spans.{Apart, remove-Apart, covered-remove, lookup-before, insert-remove}
use akarin.Memory.Vmar.{
  Vmar, VmarEntry, entry_range, Outcome, ok, err, invalid_range, not_mapped, page_index, page_span,
  release, release_span, unmap_entry, unmap_page, unmap,
}
use akarin.Memory.Vmar.Invariant.{IsValid, IsChild, Placed, stop, page-lt, page_span-IsChild}

-- The entry whose range begins at the address.
abbrev pub starting : List (ℕ × VmarEntry) → ℕ → Option VmarEntry
starting [] start = none
starting ((k, e) ∷ es) start = if (entry_range e).start == start then some e else starting es start

abbrev pub keep_if : ℕ → Option VmarEntry → Option VmarEntry
keep_if start none = none
keep_if start (some e) = if (entry_range e).start == start then some e else none

pub starting-lookup :
    (owner : VmRange) (lo : ℕ) (es : List (ℕ × VmarEntry)) (hi start : ℕ)
    → Placed owner es
    → Apart (stop owner.start) lo es hi
    → starting es start ≡ keep_if start (lookup es ((start - owner.start) / page_size))
unfolding lookup
starting-lookup owner lo [] hi start p a = refl
starting-lookup owner lo ((j, f) ∷ es) hi start p a =
    let k = (start - owner.start) / page_size in
    let later = starting-lookup owner (stop owner.start f) es hi start p.1 a.2 in
    elim (Bool-cases ((entry_range f).start == start)) [
      | inl here ↦
          let same : (j == k) ≡ true =
            rw (← (==_iff (entry_range f).start start).0 here, p.0.1) ((==_iff _ _).1 refl) in
          rw (here, same) (rw here)
      | inr other ↦ elim (Bool-cases (j == k)) [
        | inl same ↦
            rw (other, same)
              (later
                ∙ ap (keep_if start) (
                    lookup-before (stop owner.start) (stop owner.start f) es hi k a.2
                      (ground arith))
                ∙ rw other)
        | inr apart ↦ rw (other, apart) later
      ]
    ]

pub lookup-Placed :
    (owner : VmRange) (es : List (ℕ × VmarEntry)) (k : ℕ) (e : VmarEntry)
    → Placed owner es
    → lookup es k ≡ some e
    → IsChild owner (entry_range e) × (k ≡ ((entry_range e).start - owner.start) / page_size)
unfolding lookup
lookup-Placed owner [] k e p h = absurd (cc)
lookup-Placed owner ((j, f) ∷ es) k e p h = elim (Bool-cases (j == k)) [
  | inl y ↦
      let same : f ≡ e = ground (arith, y) in
      let keys : j ≡ k = (==_iff j k).0 y in rw (← same, ← keys) p.0
  | inr n ↦ lookup-Placed owner es k e p.1 (ground (arith, n))
]

remove-Placed :
    (owner : VmRange) (es : List (ℕ × VmarEntry)) (k : ℕ)
    → Placed owner es
    → Placed owner (remove es k)
unfolding remove
remove-Placed owner [] k p = p
remove-Placed owner ((j, f) ∷ es) k p = elim (Bool-cases (j == k)) [
  | inl y ↦ rw y p.1
  | inr n ↦ rw n (p.0, remove-Placed owner es k p.1)
]

removed-IsValid :
    (v : Vmar) (k : ℕ) (entry : VmarEntry) (tree : FreeTree) (h : IsValid v)
    → lookup v.entries k ≡ some entry
    → Keeps tree (fill h.pages k (stop v.range.start entry) true)
    → IsValid (record v { tree = tree; entries = remove v.entries k })
removed-IsValid v k entry tree h found keeps =
    let behind = stop v.range.start entry in
    record {
      proper = h.proper;
      counted = h.counted;
      some_page = h.some_page;
      pages = fill h.pages k behind true;
      keeps = keeps;
      size = length-fill h.pages k behind true ∙ h.size;
      placed = remove-Placed v.range v.entries k h.placed;
      apart = remove-Apart (stop v.range.start) 0 v.entries v.page_count k h.apart;
      bits = λ p l.
          let old = h.bits p l in
          rw
            (
              get_elem?-fill h.pages k behind true p (omega (arith, h.size)),
              covered-remove (stop v.range.start) 0 v.entries v.page_count k entry p h.apart found,
            )
            (ground (arith, old));
    }

unmap_run :
    (v : Vmar) (start page : ℕ)
    → page_index v start ≡ some page
    → unmap v start ≡ unmap_entry v start page (lookup v.entries page)
unfolding unmap unmap_page
unmap_run v start page e = ap (unmap_page v start) e

record Unmaps (v : Vmar) (start : ℕ) (r : Vmar × Outcome VmarEntry) : Type 0 where
  valid : IsValid r.0
  same_range : r.0.range ≡ v.range
  outcome : r.1 ≡ elim (starting v.entries start) [ none ↦ err not_mapped | some e ↦ ok e ]
  entries : r.0.entries ≡ elim (starting v.entries start) [
    | none ↦ v.entries
    | some e ↦ remove v.entries ((start - v.range.start) / page_size)
  ]

unmap_entry-Unmaps :
    (v : Vmar) (start : ℕ)
    → IsValid v
    → Unmaps v start (
        unmap_entry v start
          ((start - v.range.start) / page_size)
          (lookup v.entries ((start - v.range.start) / page_size)))
unfolding unmap_entry release_span release free
unmap_entry-Unmaps v start h = elim (Option-cases (lookup v.entries page)) [
  | inl missing ↦
      let none_starts : starting v.entries start ≡ none = begins ∙ ap (keep_if start) missing in
      rw missing (record {
        valid = h;
        same_range = refl;
        outcome = rw none_starts;
        entries = rw none_starts;
      })
  | inr (e, found) ↦ elim (Bool-cases ((entry_range e).start == start)) [
    | inl here ↦
        let starts : starting v.entries start ≡ some e =
          begins ∙ ap (keep_if start) found ∙ rw here in
        let (child, key) = lookup-Placed v.range v.entries page e h.placed found in
        let order : page < stop base e = rw key (
          page-lt base (entry_range e).start (entry_range e).end child.low child.start_aligned
            child.end_aligned child.proper.nonempty) in
        let (tree, told, keeps) =
          update-Keeps v.tree page (stop base e) free true h.pages h.keeps refl order
            (omega (arith, h.size, child.high, h.counted)) in
        let span : page_span v (entry_range e) ≡ some (page, stop base e) =
          page_span-IsChild v (entry_range e) child
          ∙ ap (λ (k : ℕ). some (k, stop base e)) (sym key) in
        rw found (
          rw here (
            subst (λ r. Unmaps v start r)
              (sym (
                ap (release_span (record v { entries = remove v.entries page }) e) span
                ∙ ap (release (record v { entries = remove v.entries page }) e) told))
              (record {
                valid = removed-IsValid v page e tree h found keeps;
                same_range = refl;
                outcome = rw starts;
                entries = rw starts;
              })))
    | inr other ↦
        let none_starts : starting v.entries start ≡ none =
          begins ∙ ap (keep_if start) found ∙ rw other in
        rw found (
          rw (other, insert-remove (stop base) 0 v.entries v.page_count page e h.apart found)
            (record {
              valid = h;
              same_range = refl;
              outcome = rw none_starts;
              entries = rw none_starts;
            }))
  ]
]
  where
    base : ℕ
    base = v.range.start

    page : ℕ
    page = (start - base) / page_size

    begins : starting v.entries start ≡ keep_if start (lookup v.entries page)
    begins = starting-lookup v.range 0 v.entries v.page_count start h.placed h.apart

unmap_outside :
    (v : Vmar) (start : ℕ) → contains v.range start ≡ false → unmap v start ≡ (v, err invalid_range)
unfolding unmap page_index unmap_page
unmap_outside v start outside = rw outside

-- On a well-formed VMAR `unmap` keeps it so whatever it answers. Inside the range it removes exactly
-- the entry whose range begins at the address, hands it back, and leaves the others; if no entry
-- begins there it changes nothing. An address outside the range is refused. It never panics.
pub unmap_lem :
    (v : Vmar) (start : ℕ)
    → IsValid v
    → IsValid (unmap v start).0
      × ((unmap v start).0.range ≡ v.range)
      × ((unmap v start).1 ≡ (
          if not (contains v.range start)
          then err invalid_range
          else elim (starting v.entries start) [ none ↦ err not_mapped | some e ↦ ok e ]))
      × ((unmap v start).0.entries ≡ (
          if not (contains v.range start) then v.entries else elim (starting v.entries start) [
            | none ↦ v.entries
            | some e ↦ remove v.entries ((start - v.range.start) / page_size)
          ]))
unfolding page_index
unmap_lem v start h = elim (Bool-cases (contains v.range start)) [
  | inl inside ↦
      let u = unmap_entry-Unmaps v start h in
      rw (unmap_run v start ((start - v.range.start) / page_size) (rw inside), inside)
        (u.valid, u.same_range, u.outcome, u.entries)
  | inr outside ↦ rw (unmap_outside v start outside, outside) (h, refl, refl, refl)
]
