-- ===== src/Memory/Vmar/Protect.antt =====
-- `new`, `map_vmo`, `map_guard` and `protect`.
use akarin.Base.{
  ℕ, ◌-◌, ◌/◌, ◌≤◌, ◌<◌, max, ◌≡◌, refl, sym, ap, subst, ◌∙◌, inl, inr, Bool, true, false, not,
  Option, none, some, List, [], ◌==◌, if◌then◌else◌, arith, Bool-cases, Option-cases,
  length-replicate, get_elem?-replicate, replicate,
}
use akarin.Base.OrdMap.{lookup, insert}
use akarin.Segment.{update}
use akarin.Segment
use akarin.Segment.Refine.{update-new}
use akarin.Memory.FreeSpace.{free, vmar_state}
use akarin.Memory.FreeSpace.Summary.{pages}
use akarin.Memory.Flags.{Flags}
use akarin.Memory.Range.{VmRange, IsProper, page_size, len, is_page_aligned, same_range}
use akarin.Memory.Spans.{replace-Apart, covered-replace}
use akarin.Memory.Vmo.{Vmo}
use akarin.Memory.Mapping.{VmarMapping, validate_layout}
use akarin.Memory.Vmar.{
  Vmar, VmarEntry, guard, mapping, region, entry_range, Outcome, ok, err, permission_denied,
  not_mapped, new, new_state, with_tree, find_entry, protect_entry, protect_span, protect,
}
use akarin.Memory.Vmar.Invariant.{IsValid, IsChild, stop, page-lt, page_span-IsChild}
use akarin.Memory.Vmar.Insert.{insert-Placed}
use akarin.Memory.Vmar.Unmap.{lookup-Placed, starting, keep_if, starting-lookup}
use akarin.Memory.Vmar.Find.{find_entry-some, find_entry_of}

-- A new VMAR of at least one page, whose range ends below 2^64, is well formed, has the range, and has no entry.
pub new-IsValid :
    (range : VmRange)
    → IsProper range
    → page_size ≤ len range
    → (v : Vmar) × (new range ≡ some v) × IsValid v × (v.range ≡ range) × (v.entries ≡ [])
unfolding new new_state with_tree free
new-IsValid range p big =
    let count = len range / page_size in
    let positive : 0 < count = omega arith in
    let domain : max count 1 ≡ count = omega arith in
    let (tree, told, array, s, e) = update-new pages 0 count free true positive refl in
    let whole : count - 0 ≡ count = omega arith in
    let told' : update (Segment.new 0 (max count 1)) 0 count free ≡ Segment.ok tree =
      rw domain told in
    let some_count : (count == 0) ≡ false = ground arith in
    (
      record { range = range; page_count = count; tree = tree; entries = [] },
      rw some_count (ap (with_tree range count) told'),
      record {
        proper = p;
        counted = refl;
        some_page = positive;
        pages = replicate count true;
        keeps = record {
          array = rw whole at array;
          start = s;
          end = e ∙ sym (length-replicate count true);
        };
        size = length-replicate count true;
        placed = tt;
        apart = omega arith;
        bits = λ q l. get_elem?-replicate count true q l;
      },
      refl,
      refl,
    )

abbrev pub exactly : VmRange → VmarEntry → Option VmarMapping
exactly range (guard r) = none
exactly range (region r c) = none
exactly range (mapping m) = if same_range m.range range then some m else none

abbrev pub exactly_of : VmRange → Option VmarEntry → Option VmarMapping
exactly_of range none = none
exactly_of range (some e) = exactly range e

-- The mapping that covers exactly the range.
abbrev pub mapped_exactly : List (ℕ × VmarEntry) → VmRange → Option VmarMapping
mapped_exactly es range = exactly_of range (starting es range.start)

-- An entry may be replaced by one with the same range.
replace-IsValid :
    (v : Vmar) (k : ℕ) (d e : VmarEntry)
    → IsValid v
    → lookup v.entries k ≡ some d
    → entry_range e ≡ entry_range d
    → IsValid (record v { entries = insert v.entries k e })
replace-IsValid v k d e h found same =
    let (child, key) = lookup-Placed v.range v.entries k d h.placed found in
    let ends : stop v.range.start e ≡ stop v.range.start d =
      ap (λ (r : VmRange). (r.end - v.range.start) / page_size) same in
    record {
      proper = h.proper;
      counted = h.counted;
      some_page = h.some_page;
      pages = h.pages;
      keeps = h.keeps;
      size = h.size;
      placed =
          insert-Placed v.range v.entries k e h.placed (subst (IsChild v.range) (sym same) child)
            (key ∙ ap (λ (r : VmRange). (r.start - v.range.start) / page_size) (sym same));
      apart = replace-Apart (stop v.range.start) 0 v.entries v.page_count k d e h.apart found ends;
      bits = λ p l.
          h.bits p l
          ∙ ap (λ (b : Bool). some (not b))
              (sym (
                covered-replace (stop v.range.start) 0 v.entries v.page_count k d e p h.apart found
                  ends));
    }

-- The outcome of `protect` for the mapping that covers exactly the range.
abbrev pub protected : (ℕ → Vmo) → Flags → Option VmarMapping → Outcome (Unit {0})
protected vmos flags none = err not_mapped
protected vmos flags (some m) =
    if validate_layout vmos (record m { flags = flags }) then ok tt else err permission_denied

-- The entries that it leaves.
abbrev pub protected_entries :
    (ℕ → Vmo) → Vmar → VmRange → Flags → Option VmarMapping → List (ℕ × VmarEntry)
protected_entries vmos v range flags none = v.entries
protected_entries vmos v range flags (some m) =
    if validate_layout vmos (record m { flags = flags })
    then insert v.entries ((range.start - v.range.start) / page_size)
        (mapping (record m { flags = flags }))
    else v.entries

module _ (vmos : ℕ → Vmo) (v : Vmar) (range : VmRange) (flags : Flags) where
  record Protects (o : Option VmarMapping) (r : Vmar × Outcome (Unit {0})) : Type 0 where
    valid : IsValid r.0
    same : r.0.range ≡ v.range
    outcome : r.1 ≡ protected vmos flags o
    entries : r.0.entries ≡ protected_entries vmos v range flags o

  unchanged :
      IsValid v → (r : Vmar × Outcome (Unit {0})) → r ≡ (v, err not_mapped) → Protects none r
  unchanged h r e = rw e (record { valid = h; same = refl; outcome = refl; entries = refl })

  -- The entry of the range's first page is known.
  protect_entry-Protects :
      (e : VmarEntry)
      → IsValid v
      → lookup v.entries ((range.start - v.range.start) / page_size) ≡ some e
      → Protects (exactly range e) (
          protect_entry vmos v range flags
            ((range.start - v.range.start) / page_size)
            (some ((range.start - v.range.start) / page_size, e)))
  unfolding protect_entry
  protect_entry-Protects (guard r) h found = unchanged h _ refl
  protect_entry-Protects (region r c) h found = unchanged h _ refl
  protect_entry-Protects (mapping m) h found = elim (Bool-cases (same_range m.range range)) [
    | inr other ↦ rw other (unchanged h _ refl)
    | inl same ↦ elim (Bool-cases (validate_layout vmos (record m { flags = flags }))) [
      | inl good ↦
          rw (same, good)
            (record {
              valid =
                  replace-IsValid v _ (mapping m) (mapping (record m { flags = flags })) h found
                    refl;
              same = refl;
              outcome = rw good;
              entries = rw good;
            })
      | inr bad ↦
          rw (same, bad) (record { valid = h; same = refl; outcome = rw bad; entries = rw bad })
    ]
  ]

  mismatch :
      (k : ℕ) (e : VmarEntry)
      → exactly range e ≡ none
      → protect_entry vmos v range flags ((range.start - v.range.start) / page_size) (some (k, e))
        ≡ (v, err not_mapped)
  unfolding protect_entry
  mismatch k (guard r) n = refl
  mismatch k (region r c) n = refl
  mismatch k (mapping m) n = ground arith

exactly-keep_if :
    (range : VmRange) (o : Option VmarEntry)
    → exactly_of range (keep_if range.start o) ≡ exactly_of range o
exactly-keep_if range none = refl
exactly-keep_if range (some (guard r)) = ground arith
exactly-keep_if range (some (region r c)) = ground arith
exactly-keep_if range (some (mapping m)) = ground arith

exactly_range :
    (range : VmRange) (e : VmarEntry) {m : VmarMapping}
    → exactly range e ≡ some m
    → ((entry_range e).start ≡ range.start) × ((entry_range e).end ≡ range.end)
exactly_range range (guard r) h = cc
exactly_range range (region r c) h = cc
exactly_range range (mapping n) h = ground arith

-- No entry begins on the first page of the range.
missing-Protects :
    (vmos : ℕ → Vmo) (v : Vmar) (range : VmRange) (flags : Flags)
    → IsValid v
    → lookup v.entries ((range.start - v.range.start) / page_size) ≡ none
    → Protects vmos v range flags none (
        protect_entry vmos v range flags
          ((range.start - v.range.start) / page_size)
          (find_entry v ((range.start - v.range.start) / page_size)))
unfolding protect_entry
missing-Protects vmos v range flags h missing = unchanged vmos v range flags h _ refused
  where
    page : ℕ
    page = (range.start - v.range.start) / page_size

    refused : protect_entry vmos v range flags page (find_entry v page) ≡ (v, err not_mapped)
    refused = elim (Option-cases (find_entry v page)) [
      | inl n ↦ rw n
      | inr ((k, e), f) ↦
          let (found, low, high) = find_entry-some v page k e h f in
          let (child, key) = lookup-Placed v.range v.entries k e h.placed found in
          elim (Option-cases (exactly range e)) [
            | inl n ↦ rw f (mismatch vmos v range flags k e n)
            | inr (m, x) ↦
                let first : (entry_range e).start ≡ range.start = (exactly_range range e x).0 in
                let here : k ≡ page = key ∙ ap (λ (a : ℕ). (a - v.range.start) / page_size) first in
                absurd (cc (found, missing, ap (lookup v.entries) here))
          ]
    ]

-- For an aligned range that lies in a well-formed VMAR, `protect` keeps the VMAR well formed. If a mapping covers
-- exactly the range and the layout admits it with the new flags, it gets the flags and nothing else
-- changes; otherwise nothing changes and an error says which of the two failed. It never panics.
pub protect_lem :
    (vmos : ℕ → Vmo) (v : Vmar) (range : VmRange) (flags : Flags)
    → IsValid v
    → IsChild v.range range
    → IsValid (protect vmos v range flags).0
      × ((protect vmos v range flags).0.range ≡ v.range)
      × ((protect vmos v range flags).1 ≡ protected vmos flags (mapped_exactly v.entries range))
      × ((protect vmos v range flags).0.entries
          ≡ protected_entries vmos v range flags (mapped_exactly v.entries range))
unfolding protect protect_span
protect_lem vmos v range flags h c =
    let base = v.range.start in
    let page = (range.start - base) / page_size in
    let aligned : is_page_aligned range ≡ true = ground arith in
    let spec : mapped_exactly v.entries range ≡ exactly_of range (lookup v.entries page) =
      ap (exactly_of range)
        (starting-lookup v.range 0 v.entries v.page_count range.start h.placed h.apart)
      ∙ exactly-keep_if range (lookup v.entries page) in
    let done =
      elim (Option-cases (lookup v.entries page))
        as (λ _.
          Protects vmos v range flags (exactly_of range (lookup v.entries page))
            (protect_entry vmos v range flags page (find_entry v page))) [
              | inr (e, found) ↦
                  let (child, key) = lookup-Placed v.range v.entries page e h.placed found in
                  let within : page < stop base e = rw key (
                    page-lt base (entry_range e).start (entry_range e).end child.low
                      child.start_aligned child.end_aligned child.proper.nonempty) in
                  rw (find_entry_of v page page e h found (omega arith) within, found)
                    (protect_entry-Protects vmos v range flags e h found)
              | inl missing ↦ rw missing (missing-Protects vmos v range flags h missing)
            ] in
    rw (aligned, page_span-IsChild v range c, spec)
      (done.valid, done.same, done.outcome, done.entries)
