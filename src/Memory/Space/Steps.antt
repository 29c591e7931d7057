-- ===== src/Memory/Space/Steps.antt =====
-- Every other method of a region, called on a region of the store, keeps the store a tree.
use akarin.Base.{
  ℕ, ◌/◌, ◌<◌, ◌≡◌, ◌≢◌, refl, sym, ap, subst, ◌∙◌, inl, inr, Bool, true, false, not, ◌||◌, Option,
  none, some, List, [], ◌∷◌, get_elem?, set, ltb, ◌==◌, if◌then◌else◌, arith, Bool-cases,
  get_elem?-set, get_elem?-lt, ==_iff,
}
use akarin.Base.OrdMap.{remove}
use akarin.Memory.Flags.{Flags}
use akarin.Memory.FreeSpace.{find_first_fit}
use akarin.Memory.FreeSpace.FirstFit.{Keeps, query-Keeps, find_first_fit-first_run}
use akarin.Memory.Range.{VmRange, IsProper, page_size, range_of, is_page_aligned, is_multiple_of}
use akarin.Memory.Purpose.{RegionPurpose}
use akarin.Memory.Vmo.{Vmo}
use akarin.Memory.Mapping.{VmarMapping, validate_layout}
use akarin.Memory.Vmar.{
  Vmar, VmarEntry, mapping, Outcome, ok, err, panic, insert_entry, map_vmo, protect, unmap,
  valid_child_range,
}
use akarin.Memory.Vmar.Invariant.{IsValid, valid_child_range-IsChild, tree-IsValid}
use akarin.Memory.Vmar.Insert.{insert_entry_lem}
use akarin.Memory.Vmar.Unmap.{unmap_lem, starting}
use akarin.Memory.Vmar.Protect.{protect_lem, protected_entries, mapped_exactly}
use akarin.Memory.Vmar.Refuse.{protect_refused}
use akarin.Memory.Space.{
  Store, candidate_at, candidate_in, candidate, allocate_candidate, any_child_of,
  allocate_child_any,
}
use akarin.Memory.Space.Tree.{
  AllLinks, IsNode, IsTree, insert-AllLinks, set-IsTree, allocate_child-IsTree,
}

-- What a method of one region has to keep, for the store to stay a tree.
pub record KeepsTree (s : Store) (id : ℕ) (v w : Vmar) : Type 0 where
  pub valid : IsValid w
  pub same : w.range ≡ v.range
  pub links : AllLinks s id w.entries

pub KeepsTree-IsTree :
    (s : Store) (id : ℕ) (v w : Vmar)
    → IsTree s
    → get_elem? s id ≡ some v
    → KeepsTree s id v w
    → IsTree (set s id w)
KeepsTree-IsTree s id v w t at k = (set-IsTree s id v w t at k.same k.valid k.links).1

remove-AllLinks :
    (s : Store) (i : ℕ) (es : List (ℕ × VmarEntry)) (k : ℕ)
    → AllLinks s i es
    → AllLinks s i (remove es k)
unfolding remove
remove-AllLinks s i [] k ls = tt
remove-AllLinks s i ((j, f) ∷ es) k ls = elim (Bool-cases (j == k)) [
  | inl a ↦ rw a ls.1
  | inr a ↦ rw a (ls.0, remove-AllLinks s i es k ls.1)
]

if-AllLinks :
    (s : Store) (i : ℕ) (b : Bool) (xs ys : List (ℕ × VmarEntry))
    → AllLinks s i xs
    → AllLinks s i ys
    → AllLinks s i (if b then xs else ys)
if-AllLinks s i true xs ys a b = a
if-AllLinks s i false xs ys a b = b

unmapped-AllLinks :
    (s : Store) (i k : ℕ) (es : List (ℕ × VmarEntry)) (o : Option VmarEntry)
    → AllLinks s i es
    → AllLinks s i (elim o [ none ↦ es | some e ↦ remove es k ])
unmapped-AllLinks s i k es none ls = ls
unmapped-AllLinks s i k es (some e) ls = remove-AllLinks s i es k ls

pub unmap-KeepsTree :
    (s : Store) (id : ℕ) (v : Vmar) (start : ℕ) → IsNode s id v → KeepsTree s id v (unmap v start).0
unmap-KeepsTree s id v start n =
    let (valid, same, answer, now) = unmap_lem v start n.valid in
    record {
      valid = valid;
      same = same;
      links = subst (AllLinks s id) (sym now) (
          if-AllLinks s id _ _ _ n.links
            (unmapped-AllLinks s id _ v.entries (starting v.entries start) n.links));
    }

mapping-KeepsTree :
    (s : Store) (id : ℕ) (v : Vmar) (m : VmarMapping)
    → IsNode s id v
    → IsProper m.range
    → KeepsTree s id v (insert_entry v (mapping m)).0
mapping-KeepsTree s id v m n p =
    let (valid, same, answer, now) = insert_entry_lem v (mapping m) n.valid p in
    record {
      valid = valid;
      same = same;
      links = subst (AllLinks s id) (sym now) (
          if-AllLinks s id _ _ _ (insert-AllLinks s id v.entries _ (mapping m) n.links tt) n.links);
    }

unchanged : (s : Store) (id : ℕ) (v : Vmar) → IsNode s id v → KeepsTree s id v v
unchanged s id v n = record { valid = n.valid; same = refl; links = n.links }

pub map_vmo-KeepsTree :
    (vmos : ℕ → Vmo) (s : Store) (id : ℕ) (v : Vmar) (range : VmRange) (vmo offset : ℕ)
    (flags : Flags) (purpose : RegionPurpose)
    → IsNode s id v
    → IsProper range
    → KeepsTree s id v (map_vmo vmos v range vmo offset flags purpose).0
unfolding map_vmo
map_vmo-KeepsTree vmos s id v range vmo offset flags purpose n p =
    let m : VmarMapping = record {
      range = range;
      flags = flags;
      purpose = purpose;
      vmo = vmo;
      vmo_offset = offset;
    } in
    elim (Bool-cases
      (not (is_page_aligned range) || not (is_multiple_of offset (vmos vmo).page_size))) [
        | inl bad ↦ rw bad (unchanged s id v n)
        | inr good ↦ elim (Bool-cases (validate_layout vmos m)) [
          | inl admitted ↦ rw (good, admitted) (mapping-KeepsTree s id v m n p)
          | inr refused ↦ rw (good, refused) (unchanged s id v n)
        ]
      ]

protected-AllLinks :
    (vmos : ℕ → Vmo) (s : Store) (id : ℕ) (v : Vmar) (range : VmRange) (flags : Flags)
    (o : Option VmarMapping)
    → AllLinks s id v.entries
    → AllLinks s id (protected_entries vmos v range flags o)
protected-AllLinks vmos s id v range flags none ls = ls
protected-AllLinks vmos s id v range flags (some m) ls =
    if-AllLinks s id (validate_layout vmos (record m { flags = flags })) _ _
      (insert-AllLinks s id v.entries _ (mapping (record m { flags = flags })) ls tt) ls

pub protect-KeepsTree :
    (vmos : ℕ → Vmo) (s : Store) (id : ℕ) (v : Vmar) (range : VmRange) (flags : Flags)
    → IsNode s id v
    → IsProper range
    → KeepsTree s id v (protect vmos v range flags).0
protect-KeepsTree vmos s id v range flags n p = elim (Bool-cases (valid_child_range v range)) [
  | inr out ↦ rw (protect_refused vmos v range flags n.aligned p out) (unchanged s id v n)
  | inl inside ↦
      let (valid, same, answer, now) =
        protect_lem vmos v range flags n.valid (valid_child_range-IsChild v range p inside) in
      record {
        valid = valid;
        same = same;
        links =
            subst (AllLinks s id) (sym now)
              (protected-AllLinks vmos s id v range flags (mapped_exactly v.entries range) n.links);
      }
]

-- The range that `allocate_child_any` picks, and what the search leaves.
record Picks (s : Store) (id : ℕ) (v : Vmar) (r : Vmar × Outcome VmRange) : Type 0 where
  keeps : KeepsTree s id v r.0
  proper : (range : VmRange) → r.1 ≡ ok range → IsProper range
  no_panic : r.1 ≢ panic

candidate_at-IsProper :
    (v : Vmar) (size : ℕ) (o : Option ℕ) (range : VmRange)
    → candidate_at v size o ≡ ok range
    → IsProper range
unfolding candidate_at range_of
candidate_at-IsProper v size none range e = absurd (cc)
candidate_at-IsProper v size (some page) range e = record {
  nonempty = ground arith;
  fits = ground arith;
}

candidate_at-no_panic : (v : Vmar) (size : ℕ) (o : Option ℕ) → candidate_at v size o ≢ panic
unfolding candidate_at range_of
candidate_at-no_panic v size none e = absurd (cc)
candidate_at-no_panic v size (some page) e = ground arith

candidate-Picks :
    (s : Store) (id : ℕ) (v : Vmar) (size : ℕ)
    → IsNode s id v
    → 0 < size / page_size
    → Picks s id v (candidate v size)
unfolding candidate candidate_in
candidate-Picks s id v size n some_pages =
    let h = n.valid in
    let needed = size / page_size in
    let (res, t, run, sums, k) =
      query-Keeps v.tree 0 v.page_count h.pages h.keeps h.some_page (omega (arith, h.size)) in
    let (found, k') = find_first_fit-first_run t needed h.pages k some_pages in
    let kt : Keeps (find_first_fit v.page_count t 0 v.page_count needed).1 h.pages =
      rw (← h.size) k' in
    rw (ap (candidate_in v size) run) (elim (Bool-cases (ltb res.max_free needed)) [
      | inl full ↦ rw full (record {
        keeps = record { valid = tree-IsValid v t h k; same = refl; links = n.links };
        proper = λ range e. absurd (cc);
        no_panic = λ e. absurd (cc);
      })
      | inr room ↦ rw room (record {
        keeps = record {
          valid = tree-IsValid v (find_first_fit v.page_count t 0 v.page_count needed).1 h kt;
          same = refl;
          links = n.links;
        };
        proper =
            candidate_at-IsProper v size (find_first_fit v.page_count t 0 v.page_count needed).0;
        no_panic =
            candidate_at-no_panic v size (find_first_fit v.page_count t 0 v.page_count needed).0;
      })
    ])

allocate_candidate-IsTree :
    (s : Store) (id : ℕ) (v : Vmar) (r : Vmar × Outcome VmRange)
    → IsTree s
    → get_elem? s id ≡ some v
    → Picks s id v r
    → IsTree (allocate_candidate s id r).0 × ((allocate_candidate s id r).1 ≢ panic)
unfolding allocate_candidate
allocate_candidate-IsTree s id v (w, ok range) t at p =
    let at' : get_elem? (set s id w) id ≡ some w =
      get_elem?-set s id id w (get_elem?-lt s id v at) ∙ rw ((==_iff id id).1 refl) in
    let (tree, answer, more, attached) =
      allocate_child-IsTree (set s id w) id w range (KeepsTree-IsTree s id v w t at p.keeps) at'
        (p.proper range refl) in
    (tree, λ e. ground (arith, answer, e))
allocate_candidate-IsTree s id v (w, err e) t at p =
    (KeepsTree-IsTree s id v w t at p.keeps, λ q. absurd (cc))
allocate_candidate-IsTree s id v (w, panic) t at p = absurd (p.no_panic refl)

-- On a VMAR of the store, `allocate_child_any` keeps the store a tree of well-formed VMARs, whatever the size and whether it
-- finds a gap or not, and never panics.
pub allocate_child_any-IsTree :
    (s : Store) (id : ℕ) (v : Vmar) (size : ℕ)
    → IsTree s
    → get_elem? s id ≡ some v
    → IsTree (allocate_child_any s id size).0 × ((allocate_child_any s id size).1 ≢ panic)
unfolding allocate_child_any any_child_of
allocate_child_any-IsTree s id v size t at =
    rw (ap (any_child_of s id size) at)
      (elim (Bool-cases (size == 0 || not (is_multiple_of size page_size))) [
        | inl bad ↦ rw bad (t, λ e. absurd (cc))
        | inr good ↦
            let some_pages : 0 < size / page_size = ground (arith, good) in
            rw good (
              allocate_candidate-IsTree s id v (candidate v size) t at
                (candidate-Picks s id v size (t id v at) some_pages))
      ])
