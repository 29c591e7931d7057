-- ===== src/Memory/Space/Locate.antt =====
-- `locate` and `mapping_at`: the region of an address, told from the addresses in the entries' ranges
-- alone, without pages, trees or a search.
use akarin.Base.{
  ℕ, zero, suc, ◌+◌, ◌-◌, ◌/◌, ◌≤◌, ◌<◌, ◌≡◌, refl, sym, ap, subst, ◌∙◌, ◌↔◌, inl, inr, true, false,
  some, List, [], ◌∷◌, length, get_elem?, ◌==◌, arith, Bool-cases, Option-cases, get_elem?-lt,
  get_elem?-some,
}
use akarin.Base.OrdMap.{lookup}
use akarin.Memory.Range.{VmRange, page_size, contains}
use akarin.Memory.Layout.{classify}
use akarin.Memory.Mapping.{VmarMapping}
use akarin.Memory.Vmar.{Vmar, VmarEntry, guard, region, entry_range, page_index, find_entry}
use akarin.Memory.Vmar as Region
use akarin.Memory.Vmar.Find.{find_entry-some, find_entry_of}
use akarin.Memory.Vmar.Unmap.{lookup-Placed}
use akarin.Memory.Space.{
  Store, VmPointerRegion, unmapped, guard_page, static, reserved, mapping, locate_outside,
  locate_entry, locate_found, locate_page, locate_in, locate, mapping_of, mapping_at,
}
use akarin.Memory.Space.Tree.{Links, AllLinks, IsNode, IsTree}

-- What lies at an address, seen from a VMAR of the store.
pub data Located (s : Store) (addr : ℕ) : ℕ → VmPointerRegion → Type 0 where
  outside :
      {i : ℕ} (v : Vmar)
      → get_elem? s i ≡ some v
      → contains v.range addr ≡ false
      → Located s addr i (locate_outside (classify addr))
  gap :
      {i : ℕ} (v : Vmar)
      → get_elem? s i ≡ some v
      → contains v.range addr ≡ true
      → ((k : ℕ) (e : VmarEntry)
          → lookup v.entries k ≡ some e
          → contains (entry_range e) addr ≡ false)
      → Located s addr i (reserved v.range)
  in_guard :
      {i : ℕ} (v : Vmar) (k : ℕ) (r : VmRange)
      → get_elem? s i ≡ some v
      → lookup v.entries k ≡ some (guard r)
      → contains r addr ≡ true
      → Located s addr i guard_page
  in_mapping :
      {i : ℕ} (v : Vmar) (k : ℕ) (m : VmarMapping)
      → get_elem? s i ≡ some v
      → lookup v.entries k ≡ some (Region.VmarEntry.mapping m)
      → contains m.range addr ≡ true
      → Located s addr i (mapping m)
  below :
      {i : ℕ} {p : VmPointerRegion} (v : Vmar) (k c : ℕ) (r : VmRange)
      → get_elem? s i ≡ some v
      → lookup v.entries k ≡ some (region r c)
      → contains r addr ≡ true
      → Located s addr c p
      → Located s addr i p

pub lookup-Links :
    (s : Store) (i : ℕ) (es : List (ℕ × VmarEntry)) (k : ℕ) (e : VmarEntry)
    → AllLinks s i es
    → lookup es k ≡ some e
    → Links s i e
unfolding lookup
lookup-Links s i [] k e l h = absurd (cc)
lookup-Links s i ((j, f) ∷ es) k e l h = elim (Bool-cases (j == k)) [
  | inl y ↦ let same : f ≡ e = ground (arith, y) in subst (Links s i) same l.0
  | inr n ↦ lookup-Links s i es k e l.1 (ground (arith, n))
]

abbrev page_of : Vmar → ℕ → ℕ
page_of v addr = (addr - v.range.start) / page_size

-- An entry whose range holds the address is the one that the search finds.
found_at :
    (s : Store) (i : ℕ) (v : Vmar) (k : ℕ) (e : VmarEntry) (addr : ℕ)
    → IsNode s i v
    → lookup v.entries k ≡ some e
    → contains (entry_range e) addr ≡ true
    → (contains v.range addr ≡ true) × (find_entry v (page_of v addr) ≡ some (k, e))
found_at s i v k e addr n found here =
    let (c, key) = lookup-Placed v.range v.entries k e n.valid.placed found in
    let low : (entry_range e).start ≤ addr = ground arith in
    let high : addr < (entry_range e).end = ground arith in
    (
      ground (arith, c.low, c.high, low, high),
      find_entry_of v (page_of v addr) k e n.valid found (omega (arith, key, low, c.low))
          (omega (arith, high, low, c.low, c.end_aligned, n.aligned)),
    )

locate_at :
    (fuel : ℕ) (s : Store) (i : ℕ) (v : Vmar) (addr : ℕ)
    → get_elem? s i ≡ some v
    → contains v.range addr ≡ true
    → locate (suc fuel) s i addr
      ≡ locate_found (λ c. locate fuel s c addr) v addr (find_entry v (page_of v addr))
unfolding locate locate_in locate_page page_index
locate_at fuel s i v addr at inside = ap (locate_in (λ c. locate fuel s c addr) addr) at ∙ rw inside

locate_not :
    (fuel : ℕ) (s : Store) (i : ℕ) (v : Vmar) (addr : ℕ)
    → get_elem? s i ≡ some v
    → contains v.range addr ≡ false
    → locate (suc fuel) s i addr ≡ some (locate_outside (classify addr))
unfolding locate locate_in
locate_not fuel s i v addr at inside =
    ap (locate_in (λ c. locate fuel s c addr) addr) at ∙ rw inside

locate_hit :
    (s : Store) (i fuel : ℕ) (v : Vmar) (k : ℕ) (e : VmarEntry) (addr : ℕ)
    → IsNode s i v
    → get_elem? s i ≡ some v
    → lookup v.entries k ≡ some e
    → contains (entry_range e) addr ≡ true
    → locate (suc fuel) s i addr ≡ locate_entry (λ c. locate fuel s c addr) e
unfolding locate_found
locate_hit s i fuel v k e addr n at found here =
    let (inside, hit) = found_at s i v k e addr n found here in
    locate_at fuel s i v addr at inside
    ∙ ap (locate_found (λ c. locate fuel s c addr) v addr) hit
    ∙ rw here

locate_gap :
    (s : Store) (i fuel : ℕ) (v : Vmar) (addr : ℕ)
    → IsNode s i v
    → get_elem? s i ≡ some v
    → contains v.range addr ≡ true
    → ((k : ℕ) (e : VmarEntry)
        → lookup v.entries k ≡ some e
        → contains (entry_range e) addr ≡ false)
    → locate (suc fuel) s i addr ≡ some (reserved v.range)
unfolding locate_found
locate_gap s i fuel v addr n at inside bare = elim (Option-cases (find_entry v (page_of v addr))) [
  | inl none_found ↦
      locate_at fuel s i v addr at inside
      ∙ ap (locate_found (λ c. locate fuel s c addr) v addr) none_found
  | inr ((k, e), hit) ↦
      let (found, low, high) = find_entry-some v (page_of v addr) k e n.valid hit in
      locate_at fuel s i v addr at inside
      ∙ ap (locate_found (λ c. locate fuel s c addr) v addr) hit
      ∙ rw (bare k e found)
]

Located-lt : (s : Store) (addr i : ℕ) (p : VmPointerRegion) → Located s addr i p → i < length s
Located-lt s addr i p (outside v at out) = get_elem?-lt s i v at
Located-lt s addr i p (gap v at inside bare) = get_elem?-lt s i v at
Located-lt s addr i p (in_guard v k r at found here) = get_elem?-lt s i v at
Located-lt s addr i p (in_mapping v k m at found here) = get_elem?-lt s i v at
Located-lt s addr i p (below v k c r at found here l) = get_elem?-lt s i v at

-- No entry holds the address if the one that the search finds does not.
nothing_at :
    (s : Store) (i : ℕ) (v : Vmar) (addr : ℕ)
    → IsNode s i v
    → ((k : ℕ) (e : VmarEntry)
        → find_entry v (page_of v addr) ≡ some (k, e)
        → contains (entry_range e) addr ≡ false)
    → (k : ℕ) (e : VmarEntry) → lookup v.entries k ≡ some e
    → contains (entry_range e) addr ≡ false
nothing_at s i v addr n none_here k e found = elim (Bool-cases (contains (entry_range e) addr)) [
  | inl here ↦ none_here k e (found_at s i v k e addr n found here).1
  | inr away ↦ away
]

-- The later VMARs are few enough for the fuel.
Located-locate :
    (s : Store) (addr fuel i : ℕ) (p : VmPointerRegion)
    → IsTree s
    → length s ≤ i + fuel
    → Located s addr i p
    → locate fuel s i addr ≡ some p
unfolding locate_entry
Located-locate s addr zero i p t enough l = absurd (omega (arith, Located-lt s addr i p l))
Located-locate s addr (suc fuel) i p t enough (outside v at out) = locate_not fuel s i v addr at out
Located-locate s addr (suc fuel) i p t enough (gap v at inside bare) =
    locate_gap s i fuel v addr (t i v at) at inside bare
Located-locate s addr (suc fuel) i p t enough (in_guard v k r at found here) =
    locate_hit s i fuel v k (guard r) addr (t i v at) at found here
Located-locate s addr (suc fuel) i p t enough (in_mapping v k m at found here) =
    locate_hit s i fuel v k (Region.VmarEntry.mapping m) addr (t i v at) at found here
Located-locate s addr (suc fuel) i p t enough (below v k c r at found here l) =
    let (later, child) = lookup-Links s i v.entries k (region r c) (t i v at).links found in
    locate_hit s i fuel v k (region r c) addr (t i v at) at found here
    ∙ Located-locate s addr fuel c p t (omega arith) l

entry-Located :
    (s : Store) (addr i fuel : ℕ) (v : Vmar) (k : ℕ) (e : VmarEntry)
    → get_elem? s i ≡ some v
    → lookup v.entries k ≡ some e
    → contains (entry_range e) addr ≡ true
    → Links s i e
    → ((c : ℕ)
        → i < c
        → c < length s
        → (p : VmPointerRegion) × (locate fuel s c addr ≡ some p) × Located s addr c p)
    → (p : VmPointerRegion) × (locate_entry (λ c. locate fuel s c addr) e ≡ some p)
      × Located s addr i p
unfolding locate_entry
entry-Located s addr i fuel v k (guard r) at found here l down =
    (guard_page, refl, in_guard v k r at found here)
entry-Located s addr i fuel v k (Region.VmarEntry.mapping m) at found here l down =
    (mapping m, refl, in_mapping v k m at found here)
entry-Located s addr i fuel v k (region r c) at found here (later, (child, at', same)) down =
    let (p, e, q) = down c later (get_elem?-lt s c child at') in
    (p, e, below v k c r at found here q)

locate-Located :
    (s : Store) (addr fuel i : ℕ)
    → IsTree s
    → i < length s
    → length s ≤ i + fuel
    → (p : VmPointerRegion) × (locate fuel s i addr ≡ some p) × Located s addr i p
locate-Located s addr zero i t l enough = absurd (omega arith)
locate-Located s addr (suc fuel) i t l enough =
    let (v, at) = get_elem?-some s i l in
    let n = t i v at in
    elim (Bool-cases (contains v.range addr)) [
      | inr out ↦
          (locate_outside (classify addr), locate_not fuel s i v addr at out, outside v at out)
      | inl inside ↦ elim (Option-cases (find_entry v (page_of v addr))) [
        | inl none_found ↦ vacant v at n inside (λ k e hit. absurd (cc))
        | inr ((k, e), hit) ↦
            let (found, low, high) = find_entry-some v (page_of v addr) k e n.valid hit in
            let link = lookup-Links s i v.entries k e n.links found in
            elim (Bool-cases (contains (entry_range e) addr)) [
              | inl here ↦
                  let (p, run, q) =
                    entry-Located s addr i fuel v k e at found here link
                      (λ c later le. locate-Located s addr fuel c t le (omega arith)) in
                  (p, locate_hit s i fuel v k e addr n at found here ∙ run, q)
              | inr away ↦
                  vacant v at n inside (λ k' e' hit'. let same : e' ≡ e = cc in rw same away)
            ]
      ]
    ]
  where
    vacant :
        (v : Vmar)
        → get_elem? s i ≡ some v
        → IsNode s i v
        → contains v.range addr ≡ true
        → ((k : ℕ) (e : VmarEntry)
            → find_entry v (page_of v addr) ≡ some (k, e)
            → contains (entry_range e) addr ≡ false)
        → (p : VmPointerRegion) × (locate (suc fuel) s i addr ≡ some p) × Located s addr i p
    vacant v at n inside none_here =
        let bare = nothing_at s i v addr n none_here in
        (reserved v.range, locate_gap s i fuel v addr n at inside bare, gap v at inside bare)

mapping_of-some :
    (p : VmPointerRegion) (m : VmarMapping) → mapping_of (some p) ≡ some m → p ≡ mapping m
unfolding mapping_of
mapping_of-some unmapped m e = absurd (cc)
mapping_of-some guard_page m e = absurd (cc)
mapping_of-some (static x) m e = absurd (cc)
mapping_of-some (reserved x) m e = absurd (cc)
mapping_of-some (mapping x) m e = cc

-- In a forest of well-formed VMARs, `locate` ends and answers, from every VMAR of the store and for
-- every address, and its answer is what lies at the address by the ranges of the entries: a region
-- `p` is answered exactly if it is the one that the entries place there.
pub locate_iff :
    (s : Store) (addr i : ℕ)
    → IsTree s
    → i < length s
    → ((p : VmPointerRegion) → (locate (length s) s i addr ≡ some p) ↔ Located s addr i p)
      × ((p : VmPointerRegion) × (locate (length s) s i addr ≡ some p))
locate_iff s addr i t l =
    let (p, run, q) = locate-Located s addr (length s) i t l (omega arith) in
    (
      λ p'. (
        λ run'. let same : p ≡ p' = cc in subst (Located s addr i) same q,
        λ q'. Located-locate s addr (length s) i p' t (omega arith) q',
      ),
      (p, run),
    )

-- `mapping_at` answers a mapping exactly if the address lies in that mapping's range, in the VMAR or
-- in one below it, provided that the store is a forest of well-formed VMARs.
pub mapping_at_iff :
    (s : Store) (addr i : ℕ) (m : VmarMapping)
    → IsTree s
    → i < length s
    → (mapping_at s i addr ≡ some m) ↔ Located s addr i (mapping m)
unfolding mapping_at mapping_of
mapping_at_iff s addr i m t l =
    let (p, run, q) = locate-Located s addr (length s) i t l (omega arith) in
    (
      λ e. subst (Located s addr i) (mapping_of-some p m (sym (ap mapping_of run) ∙ e)) q,
      λ q'. ap mapping_of (Located-locate s addr (length s) i (mapping m) t (omega arith) q'),
    )
