-- ===== src/Memory/Space/Tree.antt =====
-- The store of VMARs is a forest, and `allocate_child` keeps it one.
use akarin.Base.{
  ℕ, zero, suc, ◌-◌, ◌/◌, ◌%◌, ◌≤◌, ◌<◌, ◌≡◌, ◌≢◌, refl, sym, ap, subst, ◌∙◌, inl, inr, Bool, true,
  false, not, ◌&&◌, some, List, [], ◌∷◌, ◌++◌, length, get_elem?, set, ltb, ◌==◌, if◌then◌else◌,
  arith, Bool-cases, length-append, length-set, get_elem?-set, get_elem?-append, get_elem?-lt,
  ==_iff, lt→ltb, ltb→lt,
}
use akarin.Base.OrdMap.{insert}
use akarin.Memory.Range.{VmRange, IsProper, page_size, len}
use akarin.Memory.Vmar.{
  Vmar, VmarEntry, VmarError, guard, mapping, region, Outcome, ok, err, panic, invalid_range,
  already_mapped, new, valid_child_range, insert_entry,
}
use akarin.Memory.Vmar.Invariant.{
  IsValid, IsChild, valid_child_range-IsChild, IsChild-valid_child_range, busy,
}
use akarin.Memory.Vmar.Insert.{insert_entry_lem}
use akarin.Memory.Vmar.Protect.{new-IsValid}
use akarin.Memory.Space.{Store, attach, with_child, child_of, allocate_child}

-- An entry of VMAR `i` that stands for a child names a later VMAR, whose range is the entry's.
abbrev pub Links : Store → ℕ → VmarEntry → Type 0
Links s i (guard r) = Unit {0}
Links s i (mapping m) = Unit {0}
Links s i (region r c) =
    (i < c) × ((child : Vmar) × (get_elem? s c ≡ some child) × (child.range ≡ r))

abbrev pub AllLinks : Store → ℕ → List (ℕ × VmarEntry) → Type 0
AllLinks s i [] = Unit {0}
AllLinks s i ((k, e) ∷ es) = Links s i e × AllLinks s i es

pub record IsNode (s : Store) (i : ℕ) (v : Vmar) : Type 0 where
  pub valid : IsValid v
  pub aligned : v.range.start % page_size ≡ 0
  pub links : AllLinks s i v.entries

-- Every VMAR of the store is well formed, begins on a page, and has links to later VMARs only.
abbrev pub IsTree : Store → Type 0
IsTree s = (i : ℕ) (v : Vmar) → get_elem? s i ≡ some v → IsNode s i v

-- The ranges of a store's VMARs are kept.
abbrev Grows : Store → Store → Type 0
Grows s t =
    (i : ℕ) (v : Vmar)
    → get_elem? s i ≡ some v
    → (w : Vmar) × (get_elem? t i ≡ some w) × (w.range ≡ v.range)

Links-grow : (s t : Store) (i : ℕ) (e : VmarEntry) → Grows s t → Links s i e → Links t i e
Links-grow s t i (guard r) g l = tt
Links-grow s t i (mapping m) g l = tt
Links-grow s t i (region r c) g (lt, (child, found, same)) =
    let (w, found', same') = g c child found in (lt, (w, found', same' ∙ same))

AllLinks-grow :
    (s t : Store) (i : ℕ) (es : List (ℕ × VmarEntry))
    → Grows s t
    → AllLinks s i es
    → AllLinks t i es
AllLinks-grow s t i [] g l = tt
AllLinks-grow s t i ((k, e) ∷ es) g (l, ls) = (Links-grow s t i e g l, AllLinks-grow s t i es g ls)

pub insert-AllLinks :
    (s : Store) (i : ℕ) (es : List (ℕ × VmarEntry)) (k : ℕ) (e : VmarEntry)
    → AllLinks s i es
    → Links s i e
    → AllLinks s i (insert es k e)
unfolding insert
insert-AllLinks s i [] k e ls l = (l, tt)
insert-AllLinks s i ((j, f) ∷ es) k e ls l = elim (Bool-cases (ltb k j)) [
  | inl a ↦ rw a (l, ls)
  | inr a ↦ elim (Bool-cases (j == k)) [
    | inl b ↦ rw (a, b) (l, ls.1)
    | inr b ↦ rw (a, b) (ls.0, insert-AllLinks s i es k e ls.1 l)
  ]
]

pub same_vmar : {v w : Vmar} → some v ≡ some w → v ≡ w
same_vmar e = cc

-- One VMAR of the store may change its tree, and its entries to such with good links.
pub set-IsTree :
    (s : Store) (i : ℕ) (v w : Vmar)
    → IsTree s
    → get_elem? s i ≡ some v
    → w.range ≡ v.range
    → IsValid w
    → AllLinks s i w.entries
    → Grows s (set s i w) × IsTree (set s i w)
set-IsTree s i v w tree at same valid links = (grows, go)
  where
    inside : i < length s
    inside = get_elem?-lt s i v at

    grows : Grows s (set s i w)
    grows j u found = elim (Bool-cases (i == j)) [
      | inl here ↦
          let ij : i ≡ j = (==_iff i j).0 here in
          let e : u ≡ v = same_vmar (sym found ∙ ap (get_elem? s) (sym ij) ∙ at) in
          (w, get_elem?-set s i j w inside ∙ rw here, same ∙ ap (λ (x : Vmar). x.range) (sym e))
      | inr other ↦ (u, get_elem?-set s i j w inside ∙ rw other found, refl)
    ]

    now : IsNode (set s i w) i w
    now = record {
      valid = valid;
      aligned = ap (λ (r : VmRange). r.start % page_size) same ∙ (tree i v at).aligned;
      links = AllLinks-grow s (set s i w) i w.entries grows links;
    }

    go : IsTree (set s i w)
    go j u found = elim (Bool-cases (i == j)) [
      | inl here ↦
          let ij : i ≡ j = (==_iff i j).0 here in
          let here' : get_elem? (set s i w) j ≡ some w = get_elem?-set s i j w inside ∙ rw here in
          let e : w ≡ u = same_vmar (sym here' ∙ found) in
          subst (IsNode (set s i w) j) e (subst (λ k. IsNode (set s i w) k w) ij now)
      | inr other ↦
          let before : get_elem? (set s i w) j ≡ get_elem? s j =
            get_elem?-set s i j w inside ∙ rw other in
          let old = tree j u (sym before ∙ found) in
          record {
            valid = old.valid;
            aligned = old.aligned;
            links = AllLinks-grow s (set s i w) j u.entries grows old.links;
          }
    ]

only_one : (w u : Vmar) (i : ℕ) → get_elem? (w ∷ []) i ≡ some u → w ≡ u
only_one w u zero e = same_vmar e
only_one w u (suc i) e = absurd (cc)

-- A new VMAR at the end of the store, without entries.
push-IsTree :
    (s : Store) (w : Vmar)
    → IsTree s
    → IsValid w
    → w.range.start % page_size ≡ 0
    → w.entries ≡ []
    → Grows s (s ++ w ∷ []) × IsTree (s ++ w ∷ [])
push-IsTree s w tree valid aligned bare = (grows, go)
  where
    kept : (j : ℕ) → j < length s → get_elem? (s ++ w ∷ []) j ≡ get_elem? s j
    kept j l = get_elem?-append s (w ∷ []) j ∙ rw (lt→ltb j (length s) l)

    grows : Grows s (s ++ w ∷ [])
    grows j u found = (u, kept j (get_elem?-lt s j u found) ∙ found, refl)

    go : IsTree (s ++ w ∷ [])
    go j u found = elim (Bool-cases (ltb j (length s))) [
      | inl old ↦
          let n = tree j u (sym (kept j (ltb→lt _ _ old)) ∙ found) in
          record {
            valid = n.valid;
            aligned = n.aligned;
            links = AllLinks-grow s (s ++ w ∷ []) j u.entries grows n.links;
          }
      | inr behind ↦
          let last : get_elem? (w ∷ []) (j - length s) ≡ some u =
            sym (get_elem?-append s (w ∷ []) j ∙ rw behind) ∙ found in
          let e : w ≡ u = only_one w u (j - length s) last in
          subst (IsNode (s ++ w ∷ []) j) e (record {
            valid = valid;
            aligned = aligned;
            links = subst (AllLinks (s ++ w ∷ []) j) (sym bare) tt;
          })
    ]

a_page : (owner range : VmRange) → IsChild owner range → page_size ≤ len range
a_page owner range c = omega (arith, c.proper.nonempty, c.start_aligned, c.end_aligned)

attach_ok :
    (s : Store) (id : ℕ) (child : Vmar) (r : Vmar × Outcome (Unit {0}))
    → r.1 ≡ ok tt
    → attach s id child r ≡ (set s id r.0 ++ child ∷ [], ok (length s))
unfolding attach
attach_ok s id child (v, ok tt) e = refl
attach_ok s id child (v, err x) e = absurd (cc)
attach_ok s id child (v, panic) e = absurd (cc)

attach_err :
    (s : Store) (id : ℕ) (child : Vmar) (r : Vmar × Outcome (Unit {0})) (x : VmarError)
    → r.1 ≡ err x
    → attach s id child r ≡ (set s id r.0, err x)
unfolding attach
attach_err s id child (v, ok tt) x e = absurd (cc)
attach_err s id child (v, err y) x e = cc
attach_err s id child (v, panic) x e = absurd (cc)

allocate_child_refused :
    (s : Store) (id : ℕ) (v : Vmar) (range : VmRange)
    → get_elem? s id ≡ some v
    → valid_child_range v range ≡ false
    → allocate_child s id range ≡ (s, err invalid_range)
unfolding allocate_child child_of
allocate_child_refused s id v range at outside = ap (child_of s id range) at ∙ rw outside

allocate_child_run :
    (s : Store) (id : ℕ) (v child : Vmar) (range : VmRange)
    → get_elem? s id ≡ some v
    → valid_child_range v range ≡ true
    → new range ≡ some child
    → allocate_child s id range ≡ attach s id child (insert_entry v (region range (length s)))
unfolding allocate_child child_of with_child
allocate_child_run s id v child range at inside made =
    ap (child_of s id range) at ∙ rw inside (ap (with_child s id v range) made)

last_one : (s : Store) (w : Vmar) → get_elem? (s ++ w ∷ []) (length s) ≡ some w
last_one [] w = refl
last_one (x ∷ s) w = last_one s w

set-append : (s t : Store) (i : ℕ) (w : Vmar) → i < length s → set (s ++ t) i w ≡ set s i w ++ t
set-append [] t i w l = absurd (omega arith)
set-append (x ∷ s) t zero w l = refl
set-append (x ∷ s) t (suc i) w l = ap (◌∷◌ x) (set-append s t i w (omega arith))

longer : (s : Store) (i : ℕ) (child w : Vmar) → length (set s i w ++ child ∷ []) ≡ suc (length s)
longer s i child w = omega (arith, length-append (set s i w) (child ∷ []), length-set s i w)

-- The store `t` is `s` with a new VMAR of the range behind it, of which VMAR `id` has the entry; it
-- is `s` as far as entries and ranges go if `made` is false.
pub record Attached (s : Store) (id : ℕ) (v : Vmar) (range : VmRange) (made : Bool) (t : Store)
    : Type 0 where
  pub parent :
      (w : Vmar) × (get_elem? t id ≡ some w)
      × (w.range ≡ v.range)
      × (w.entries ≡ (
          if made
          then insert v.entries
              ((range.start - v.range.start) / page_size)
              (region range (length s))
          else v.entries))
  pub child :
      made ≡ true
      → (w : Vmar) × (get_elem? t (length s) ≡ some w) × (w.range ≡ range) × (w.entries ≡ [])
  pub others : (i : ℕ) → i < length s → i ≢ id → get_elem? t i ≡ get_elem? s i

unchanged-Attached :
    (s : Store) (id : ℕ) (v w : Vmar) (range : VmRange)
    → get_elem? s id ≡ some v
    → w.range ≡ v.range
    → w.entries ≡ v.entries
    → Attached s id v range false (set s id w)
unchanged-Attached s id v w range at same e = record {
  parent =
      (w, get_elem?-set s id id w (get_elem?-lt s id v at) ∙ rw ((==_iff id id).1 refl), same, e);
  child = λ x. absurd (cc);
  others =
      λ i l n. get_elem?-set s id i w (get_elem?-lt s id v at) ∙ ground (arith, (==_iff id i).0);
}

refused-Attached :
    (s : Store) (id : ℕ) (v : Vmar) (range : VmRange)
    → get_elem? s id ≡ some v
    → Attached s id v range false s
refused-Attached s id v range at = record {
  parent = (v, at, refl, refl);
  child = λ x. absurd (cc);
  others = λ i l n. refl;
}

made-Attached :
    (s : Store) (id : ℕ) (v w child : Vmar) (range : VmRange)
    → get_elem? s id ≡ some v
    → w.range ≡ v.range
    → w.entries
      ≡ insert v.entries ((range.start - v.range.start) / page_size) (region range (length s))
    → child.range ≡ range
    → child.entries ≡ []
    → Attached s id v range true (set s id w ++ child ∷ [])
made-Attached s id v w child range at same e r bare = record {
  parent =
      (w, before id inside ∙ get_elem?-set s id id w inside ∙ rw ((==_iff id id).1 refl), same, e);
  child = λ x. (
    child,
    subst (λ n. get_elem? (set s id w ++ child ∷ []) n ≡ some child) (length-set s id w)
        (last_one (set s id w) child),
    r,
    bare,
  );
  others = λ i l n. before i l ∙ get_elem?-set s id i w inside ∙ ground (arith, (==_iff id i).0);
}
  where
    inside : id < length s
    inside = get_elem?-lt s id v at

    before :
        (i : ℕ) → i < length s → get_elem? (set s id w ++ child ∷ []) i ≡ get_elem? (set s id w) i
    before i l =
        get_elem?-append (set s id w) (child ∷ []) i
        ∙ rw (length-set s id w) (rw (lt→ltb i (length s) l))

-- What `allocate_child` comes to, at a VMAR `v` of the store.
record Allocates (s : Store) (id : ℕ) (v : Vmar) (range : VmRange) (r : Store × Outcome ℕ)
    : Type 0 where
  tree : IsTree r.0
  outcome : r.1 ≡ (
      if not (valid_child_range v range)
      then err invalid_range
      else if busy v.entries range
      then err already_mapped
      else ok (length s))
  more : length r.0 ≡ (
      if valid_child_range v range && not (busy v.entries range) then suc (length s) else length s)
  attached : Attached s id v range (valid_child_range v range && not (busy v.entries range)) r.0

attached-Allocates :
    (s : Store) (id : ℕ) (v child : Vmar) (range : VmRange)
    → IsTree s
    → get_elem? s id ≡ some v
    → IsChild v.range range
    → IsValid child
    → child.range ≡ range
    → child.entries ≡ []
    → Allocates s id v range (attach s id child (insert_entry v (region range (length s))))
attached-Allocates s id v child range tree at c valid same bare =
    let here = region range (length s) in
    let node = tree id v at in
    let inside : valid_child_range v range ≡ true = IsChild-valid_child_range v range c in
    let (kept, in_place, answer, now) = insert_entry_lem v here node.valid c.proper in
    elim (Bool-cases (busy v.entries range)) [
      | inl taken ↦
          let stopped : (insert_entry v here).1 ≡ err already_mapped =
            answer ∙ rw (inside, taken) in
          let same_entries : (insert_entry v here).0.entries ≡ v.entries =
            now ∙ rw (inside, taken) in
          let (g, t) =
            set-IsTree s id v (insert_entry v here).0 tree at in_place kept
              (subst (AllLinks s id) (sym same_entries) node.links) in
          rw (attach_err s id child (insert_entry v here) already_mapped stopped) (record {
            tree = t;
            outcome = rw (inside, taken);
            more = rw (inside, taken) (length-set s id (insert_entry v here).0);
            attached =
                rw (inside, taken)
                  (unchanged-Attached s id v (insert_entry v here).0 range at in_place
                    same_entries);
          })
      | inr vacant ↦
          let done : (insert_entry v here).1 ≡ ok tt = answer ∙ rw (inside, vacant) in
          let first = (range.start - v.range.start) / page_size in
          let new_entries : (insert_entry v here).0.entries ≡ insert v.entries first here =
            now ∙ rw (inside, vacant) in
          let (g₁, t₁) =
            push-IsTree s child tree valid
              (ap (λ (r : VmRange). r.start % page_size) same ∙ c.start_aligned) bare in
          let link : Links (s ++ child ∷ []) id here =
            (get_elem?-lt s id v at, (child, last_one s child, same)) in
          let links =
            insert-AllLinks (s ++ child ∷ []) id v.entries first here
              (AllLinks-grow s (s ++ child ∷ []) id v.entries g₁ node.links) link in
          let at' : get_elem? (s ++ child ∷ []) id ≡ some v =
            get_elem?-append s (child ∷ []) id ∙ rw (lt→ltb _ _ (get_elem?-lt s id v at)) at in
          let (g₂, t₂) =
            set-IsTree (s ++ child ∷ []) id v (insert_entry v here).0 t₁ at' in_place kept
              (subst (AllLinks (s ++ child ∷ []) id) (sym new_entries) links) in
          rw (attach_ok s id child (insert_entry v here) done) (record {
            tree = subst IsTree (set-append s (child ∷ []) id _ (get_elem?-lt s id v at)) t₂;
            outcome = rw (inside, vacant);
            more = rw (inside, vacant) (longer s id child (insert_entry v here).0);
            attached =
                rw (inside, vacant)
                  (made-Attached s id v (insert_entry v here).0 child range at in_place new_entries
                    same bare);
          })
    ]

-- For a VMAR of the store and a range that is not empty and ends below 2^64, the store stays a
-- forest of well-formed VMARs whatever `allocate_child` answers. The call refuses a
-- range that is not aligned or not inside the VMAR, and one that overlaps the range of an entry;
-- else it makes the next VMAR of the store, which has the range and no entries, and stores the entry
-- for it in the parent, at its first page. It never panics. Other VMARs stay as they are, and so do
-- the entries of the parent if the call is refused.
pub allocate_child-IsTree :
    (s : Store) (id : ℕ) (v : Vmar) (range : VmRange)
    → IsTree s
    → get_elem? s id ≡ some v
    → IsProper range
    → IsTree (allocate_child s id range).0
      × ((allocate_child s id range).1 ≡ (
          if not (valid_child_range v range)
          then err invalid_range
          else if busy v.entries range
          then err already_mapped
          else ok (length s)))
      × (length (allocate_child s id range).0 ≡ (
          if valid_child_range v range && not (busy v.entries range)
          then suc (length s)
          else length s))
      × Attached s id v range
          (valid_child_range v range && not (busy v.entries range))
          (allocate_child s id range).0
allocate_child-IsTree s id v range tree at p = elim (Bool-cases (valid_child_range v range)) [
  | inl inside ↦
      let c = valid_child_range-IsChild v range p inside in
      let (child, made, valid, same, bare) = new-IsValid range p (a_page v.range range c) in
      let a = attached-Allocates s id v child range tree at c valid same bare in
      rw (allocate_child_run s id v child range at inside made)
        (a.tree, a.outcome, a.more, a.attached)
  | inr outside ↦
      rw (allocate_child_refused s id v range at outside)
        (tree, rw outside, rw outside, rw outside (refused-Attached s id v range at))
]
