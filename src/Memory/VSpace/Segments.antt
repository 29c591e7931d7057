-- ===== src/Memory/VSpace/Segments.antt =====
-- `VSpaceSegments::new`: the children of the fixed segments keep the store a forest.
use akarin.Base.{ℕ, ◌<◌, ◌≡◌, ◌≢◌, refl, Option, none, some, length, arith, get_elem?-some}
use akarin.Memory.Range.{VmRange, IsProper, range_of}
use akarin.Memory.Layout.{
  VmLayoutSegment, start, end_exclusive, user_image, user_heap, user_mapped, user_mmio, user_stack,
}
use akarin.Memory.Vmar.{Vmar, Outcome, valid_child_range}
use akarin.Memory.Vmar as Region
use akarin.Memory.Space.{Store, allocate_child}
use akarin.Memory.Space.Tree.{IsTree, allocate_child-IsTree}
use akarin.Memory.VSpace.{
  Result, ok, panic, segment_range, VSpaceSegments, and_then, with_segment, all_made, make_stack,
  make_mmio, make_mapped, make_heap, new_segments,
}

segment_range-IsProper :
    (segment : VmLayoutSegment) (range : VmRange)
    → segment_range segment ≡ some range
    → IsProper range
unfolding segment_range start end_exclusive range_of
segment_range-IsProper VmLayoutSegment.kernel_image range e = absurd (cc)
segment_range-IsProper _ range e = record { nonempty = ground arith; fits = ground arith }

-- No less of the store, a forest, and no failed `expect`.
record Sound (root : ℕ) (r : Store × Result VSpaceSegments) : Type 0 where
  tree : IsTree r.0
  inside : root < length r.0
  no_panic : r.1 ≢ panic

ok-panic : (v : VSpaceSegments) → ok v ≢ panic
ok-panic v e = absurd (cc)

and_then-Sound :
    (root n : ℕ) (rest : Store → ℕ → Store × Result VSpaceSegments) (r : Store × Outcome ℕ)
    → ((s : Store) (child : ℕ) → IsTree s → root < length s → Sound root (rest s child))
    → IsTree r.0
    → root < length r.0
    → r.1 ≢ Region.Outcome.panic
    → Sound root (and_then rest r)
unfolding and_then
and_then-Sound root n rest (s, Region.Outcome.ok child) f t l e = f s child t l
and_then-Sound root n rest (s, Region.Outcome.err x) f t l e = record {
  tree = t;
  inside = l;
  no_panic = λ q. absurd (cc);
}
and_then-Sound root n rest (s, Region.Outcome.panic) f t l e = absurd (e refl)

with_segment-Sound :
    (s : Store) (root : ℕ) (rest : Store → ℕ → Store × Result VSpaceSegments)
    (range : Option VmRange)
    → ((r : VmRange) → range ≡ some r → IsProper r)
    → ((s : Store) (child : ℕ) → IsTree s → root < length s → Sound root (rest s child))
    → IsTree s
    → root < length s
    → Sound root (with_segment s root rest range)
unfolding with_segment
with_segment-Sound s root rest none p f t l = record {
  tree = t;
  inside = l;
  no_panic = λ q. absurd (cc);
}
with_segment-Sound s root rest (some range) p f t l =
    let (v, at) = get_elem?-some s root l in
    let (tree, answer, size, attached) = allocate_child-IsTree s root v range t at (p range refl) in
    and_then-Sound root 0 rest (allocate_child s root range) f tree (ground (arith, size))
      (λ e. ground (arith, answer, e))

-- The rest of the calls, from the last one backwards.
module _ (root : ℕ) where
  stack-Sound :
      (image heap mapped mmio : ℕ) (s : Store)
      → IsTree s
      → root < length s
      → Sound root (make_stack root image heap mapped s mmio)
  unfolding make_stack all_made
  stack-Sound image heap mapped mmio s t l =
      with_segment-Sound s root (all_made image heap mapped mmio) (segment_range user_stack)
        (segment_range-IsProper user_stack)
        (λ s' stack t' l'. record { tree = t'; inside = l'; no_panic = ok-panic _ }) t l

  mmio-Sound :
      (image heap mapped : ℕ) (s : Store)
      → IsTree s
      → root < length s
      → Sound root (make_mmio root image heap s mapped)
  unfolding make_mmio
  mmio-Sound image heap mapped s t l =
      with_segment-Sound s root (make_stack root image heap mapped) (segment_range user_mmio)
        (segment_range-IsProper user_mmio)
        (λ s' mmio t' l'. stack-Sound image heap mapped mmio s' t' l') t l

  mapped-Sound :
      (image heap : ℕ) (s : Store)
      → IsTree s
      → root < length s
      → Sound root (make_mapped root image s heap)
  unfolding make_mapped
  mapped-Sound image heap s t l =
      with_segment-Sound s root (make_mmio root image heap) (segment_range user_mapped)
        (segment_range-IsProper user_mapped)
        (λ s' mapped t' l'. mmio-Sound image heap mapped s' t' l') t l

  heap-Sound :
      (image : ℕ) (s : Store) → IsTree s → root < length s → Sound root (make_heap root s image)
  unfolding make_heap
  heap-Sound image s t l =
      with_segment-Sound s root (make_mapped root image) (segment_range user_heap)
        (segment_range-IsProper user_heap) (λ s' heap t' l'. mapped-Sound image heap s' t' l') t l

-- `VSpaceSegments::new` keeps the store a forest of well-formed VMARs, whichever of its five
-- allocations fails, keeps the root in it, and never panics: the call succeeds or returns an error.
pub new_segments-IsTree :
    (s : Store) (root : ℕ)
    → IsTree s
    → root < length s
    → IsTree (new_segments s root).0
      × (root < length (new_segments s root).0)
      × ((new_segments s root).1 ≢ panic)
unfolding new_segments
new_segments-IsTree s root t l =
    let sound =
      with_segment-Sound s root (make_heap root) (segment_range user_image)
        (segment_range-IsProper user_image) (λ s' image t' l'. heap-Sound root image s' t' l') t
        l in
    (sound.tree, sound.inside, sound.no_panic)
