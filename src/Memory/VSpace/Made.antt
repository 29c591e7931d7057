-- ===== src/Memory/VSpace/Made.antt =====
-- `VSpaceSegments::new` on a root that is empty and large enough: the five children and their ranges.
use akarin.Base.{
  ℕ, ◌%◌, ◌<◌, ◌≤◌, ◌≡◌, refl, sym, ap, subst, ◌∙◌, Bool, true, false, some, List, [], ◌∷◌, length,
  get_elem?, arith, ◌==◌, ==_iff, Bool-cases, inl, inr, get_elem?-lt,
}
use akarin.Base.OrdMap.{insert}
use akarin.Memory.Range.{VmRange, IsProper, range_of, page_size, overlaps}
use akarin.Memory.Layout.{start, end_exclusive}
use akarin.Memory.Vmar.{Vmar, VmarEntry, entry_range, region, Outcome, valid_child_range}
use akarin.Memory.Vmar as Region
use akarin.Memory.Vmar.Invariant.{busy}
use akarin.Memory.Space.{Store, allocate_child}
use akarin.Memory.Space.Tree.{IsTree, Attached, same_vmar, allocate_child-IsTree}
use akarin.Memory.VSpace.{
  Result, ok, segment_range, VSpaceSegments, and_then, with_segment, all_made, make_stack,
  make_mmio, make_mapped, make_heap, new_segments,
}

-- VMAR `i` of the store has the range.
pub HasRange : Store → ℕ → VmRange → Type 0
HasRange s i r = (w : Vmar) × (get_elem? s i ≡ some w) × (w.range ≡ r)

busy-insert :
    (es : List (ℕ × VmarEntry)) (k : ℕ) (e : VmarEntry) (r : VmRange)
    → overlaps (entry_range e) r ≡ false
    → busy es r ≡ false
    → busy (insert es k e) r ≡ false
unfolding insert
busy-insert [] k e r o b = rw o refl
busy-insert ((j, f) ∷ es) k e r o b = ground (arith, busy-insert es k e r o)

-- The root is large enough, and has nothing from the address `a` on.
record Ready (s : Store) (root a : ℕ) : Type 0 where
  tree : IsTree s
  owner : Vmar
  stored : get_elem? s root ≡ some owner
  low : owner.range.start ≤ 0x400000
  high : 0x8000_0000_0000 ≤ owner.range.end
  unused : (r : VmRange) → a ≤ r.start → busy owner.entries r ≡ false

-- A range of whole pages in the userspace, from `a` on.
record Fits (a : ℕ) (r : VmRange) : Type 0 where
  after : a ≤ r.start
  from : 0x400000 ≤ r.start
  to : r.end ≤ 0x8000_0000_0000
  some_byte : r.start < r.end
  pages : (r.start % page_size ≡ 0) × (r.end % page_size ≡ 0)

-- A child of the range has been made.
record Next (s : Store) (root : ℕ) (r : VmRange) : Type 0 where
  store : Store
  call : allocate_child s root r ≡ (store, Region.Outcome.ok (length s))
  ready : Ready store root r.end
  child : HasRange store (length s) r
  kept : (i : ℕ) (q : VmRange) → HasRange s i q → HasRange store i q

with_answer : (x : Store × Outcome ℕ) (o : Outcome ℕ) → x.1 ≡ o → x ≡ (x.0, o)
with_answer (s, a) o e = ap (λ b. (s, b)) e

inside_root :
    (s : Store) (root a : ℕ) (r : VmRange) (h : Ready s root a)
    → Fits a r
    → valid_child_range h.owner r ≡ true
inside_root s root a r h f = ground (arith, h.low, h.high, f.from, f.to, f.pages.0, f.pages.1)

kept-Attached :
    (s t : Store) (root : ℕ) (v : Vmar) (r : VmRange) (b : Bool)
    → get_elem? s root ≡ some v
    → Attached s root v r b t
    → (i : ℕ) (q : VmRange) → HasRange s i q
    → HasRange t i q
unfolding HasRange
kept-Attached s t root v r b at x i q (w, found, e) = elim (Bool-cases (root == i)) [
  | inl d ↦
      let here : root ≡ i = (==_iff root i).0 d in
      let (u, found', same, entries) = x.parent in
      let e' : v ≡ w = same_vmar (sym at ∙ ap (get_elem? s) here ∙ found) in
      (u, subst (λ j. get_elem? t j ≡ some u) here found', same ∙ ap (λ (y : Vmar). y.range) e' ∙ e)
  | inr d ↦ (w, x.others i (get_elem?-lt s i w found) (λ y. ground arith) ∙ found, e)
]

apart : (r q : VmRange) → r.end ≤ q.start → overlaps r q ≡ false
unfolding overlaps
apart r q l = ground arith

next : (s : Store) (root a : ℕ) (r : VmRange) → Ready s root a → Fits a r → Next s root r
unfolding HasRange
next s root a r h f =
    let proper : IsProper r = record { nonempty = f.some_byte; fits = omega (arith, f.to) } in
    let inside = inside_root s root a r h f in
    let vacant = h.unused r f.after in
    let (tree, answer, size, attached) =
      allocate_child-IsTree s root h.owner r h.tree h.stored proper in
    let x : Attached s root h.owner r true (allocate_child s root r).0 =
      subst (λ b. Attached s root h.owner r b (allocate_child s root r).0)
        (rw (inside, vacant) refl) attached in
    let (w, found, same, entries) = x.parent in
    let (c, c_found, c_range, c_entries) = x.child refl in
    record {
      store = (allocate_child s root r).0;
      call =
          with_answer (allocate_child s root r) (Region.Outcome.ok (length s))
            (answer ∙ rw (inside, vacant) refl);
      ready = record {
        tree = tree;
        owner = w;
        stored = found;
        low = rw same h.low;
        high = rw same h.high;
        unused = λ q l. rw entries (
            busy-insert h.owner.entries _ (region r (length s)) q (apart r q l)
              (h.unused q (omega (arith, l, f.after, f.some_byte))));
      };
      child = (c, c_found, c_range);
      kept = kept-Attached s (allocate_child s root r).0 root h.owner r true h.stored x;
    }

with_segment-next :
    (s : Store) (root : ℕ) (r : VmRange) (rest : Store → ℕ → Store × Result VSpaceSegments)
    (n : Next s root r)
    → with_segment s root rest (some r) ≡ rest n.store (length s)
unfolding with_segment and_then
with_segment-next s root r rest n = rw n.call refl

abbrev pub image_range : VmRange
image_range = record { start = 0x0000_0000_0040_0000; end = 0x0000_0100_0000_0000 }

abbrev pub heap_range : VmRange
heap_range = record { start = 0x0000_0100_0000_0000; end = 0x0000_1000_0000_0000 }

abbrev pub mapped_range : VmRange
mapped_range = record { start = 0x0000_1000_0000_0000; end = 0x0000_7000_0000_0000 }

abbrev pub mmio_range : VmRange
mmio_range = record { start = 0x0000_7000_0000_0000; end = 0x0000_7800_0000_0000 }

abbrev pub stack_range : VmRange
stack_range = record { start = 0x0000_7800_0000_0000; end = 0x0000_8000_0000_0000 }

image-Fits : Fits 0 image_range
image-Fits = record {
  after = omega arith;
  from = omega arith;
  to = omega arith;
  some_byte = omega arith;
  pages = (refl, refl);
}

heap-Fits : Fits image_range.end heap_range
heap-Fits = record {
  after = omega arith;
  from = omega arith;
  to = omega arith;
  some_byte = omega arith;
  pages = (refl, refl);
}

mapped-Fits : Fits heap_range.end mapped_range
mapped-Fits = record {
  after = omega arith;
  from = omega arith;
  to = omega arith;
  some_byte = omega arith;
  pages = (refl, refl);
}

mmio-Fits : Fits mapped_range.end mmio_range
mmio-Fits = record {
  after = omega arith;
  from = omega arith;
  to = omega arith;
  some_byte = omega arith;
  pages = (refl, refl);
}

stack-Fits : Fits mmio_range.end stack_range
stack-Fits = record {
  after = omega arith;
  from = omega arith;
  to = omega arith;
  some_byte = omega arith;
  pages = (refl, refl);
}

-- The five children stand in the store with their ranges.
pub record AllMade (s : Store) (c : VSpaceSegments) : Type 0 where
  pub image : HasRange s c.user_image image_range
  pub heap : HasRange s c.user_heap heap_range
  pub mapped : HasRange s c.user_mapped mapped_range
  pub mmio : HasRange s c.user_mmio mmio_range
  pub stack : HasRange s c.user_stack stack_range

all_in_place :
    (s : Store) (root : ℕ)
    → Ready s root 0
    → (c : VSpaceSegments) × ((new_segments s root).1 ≡ ok c)
      × AllMade (new_segments s root).0 c
      × IsTree (new_segments s root).0
unfolding new_segments make_heap make_mapped make_mmio make_stack all_made segment_range start
    end_exclusive range_of
all_in_place s root h =
    let i1 = length s in
    let n1 = next s root 0 image_range h image-Fits in
    let i2 = length n1.store in
    let n2 = next n1.store root image_range.end heap_range n1.ready heap-Fits in
    let i3 = length n2.store in
    let n3 = next n2.store root heap_range.end mapped_range n2.ready mapped-Fits in
    let i4 = length n3.store in
    let n4 = next n3.store root mapped_range.end mmio_range n3.ready mmio-Fits in
    let n5 = next n4.store root mmio_range.end stack_range n4.ready stack-Fits in
    let c : VSpaceSegments = record {
      user_image = length s;
      user_heap = length n1.store;
      user_mapped = length n2.store;
      user_mmio = length n3.store;
      user_stack = length n4.store;
    } in
    let run : new_segments s root ≡ (n5.store, ok c) =
      with_segment-next s root image_range (make_heap root) n1
      ∙ with_segment-next n1.store root heap_range (make_mapped root i1) n2
      ∙ with_segment-next n2.store root mapped_range (make_mmio root i1 i2) n3
      ∙ with_segment-next n3.store root mmio_range (make_stack root i1 i2 i3) n4
      ∙ with_segment-next n4.store root stack_range (all_made i1 i2 i3 i4) n5 in
    let made : AllMade n5.store c = record {
      image = n5.kept _ _ (n4.kept _ _ (n3.kept _ _ (n2.kept _ _ n1.child)));
      heap = n5.kept _ _ (n4.kept _ _ (n3.kept _ _ n2.child));
      mapped = n5.kept _ _ (n4.kept _ _ n3.child);
      mmio = n5.kept _ _ n4.child;
      stack = n5.child;
    } in
    (
      c,
      ap (λ x. x.1) run,
      subst (λ (x : Store). AllMade x c) (sym (ap (λ x. x.0) run)) made,
      subst IsTree (sym (ap (λ x. x.0) run)) n5.ready.tree,
    )

-- In a tree of VMARs, for a root without entries that has all of the userspace from the image segment
-- on: `VSpaceSegments::new` succeeds, the numbers that come back are those of VMARs with the ranges of
-- the five segments, and the store is a tree again.
pub new_segments-AllMade :
    (s : Store) (root : ℕ) (v : Vmar)
    → IsTree s
    → get_elem? s root ≡ some v
    → v.entries ≡ []
    → v.range.start ≤ 0x400000
    → 0x8000_0000_0000 ≤ v.range.end
    → (c : VSpaceSegments) × ((new_segments s root).1 ≡ ok c)
      × AllMade (new_segments s root).0 c
      × IsTree (new_segments s root).0
new_segments-AllMade s root v t at e low high =
    all_in_place s root (record {
      tree = t;
      owner = v;
      stored = at;
      low = low;
      high = high;
      unused = λ r l. rw e refl;
    })
