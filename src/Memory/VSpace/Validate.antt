-- ===== src/Memory/VSpace/Validate.antt =====
-- `validate_range`: the loop over the mappings of a range comes to what each address of it says.
use akarin.Base.{
  ℕ, zero, suc, ◌+◌, ◌-◌, ◌≤◌, ◌<◌, min, ◌≡◌, ◌≢◌, refl, sym, ap, ◌∙◌, ◌⊎◌, inl, inr, true, false,
  Option, none, some, length, get_elem?, ltb, leb, arith, Bool-cases, Option-cases, get_elem?-lt,
  ltb→lt,
}
use akarin.Memory.Flags.{Flags, allows_mmu}
use akarin.Memory.Range.{VmRange, IsProper, contains, contains_range}
use akarin.Memory.Layout.{VmLayoutSegment, classify}
use akarin.Memory.Mapping.{VmarMapping}
use akarin.Memory.Vmar.{Vmar, VmarEntry, entry_range, region}
use akarin.Memory.Vmar as Region
use akarin.Memory.Vmar.Unmap.{lookup-Placed}
use akarin.Memory.Space.{Store, VmPointerRegion, mapping, locate_outside, mapping_at}
use akarin.Memory.Space.Tree.{IsTree, same_vmar}
use akarin.Memory.Space.Locate.{
  Located, outside, gap, in_guard, in_mapping, below, lookup-Links, mapping_at_iff,
}
use akarin.Memory.VSpace.{
  Result, ok, err, not_mapped, permission_denied, invalid_range, validate_mapped, validate_from,
  validate_in_root, validate_range,
}

locate_outside-mapping :
    (segment : Option VmLayoutSegment) (m : VmarMapping) → locate_outside segment ≢ mapping m
unfolding locate_outside
locate_outside-mapping none m e = absurd (cc)
locate_outside-mapping (some segment) m e = ground arith

-- A mapping that is found at one address is found at every address of its range.
record Whole (s : Store) (i a b : ℕ) (m : VmarMapping) : Type 0 where
  here : contains m.range a ≡ true
  v : Vmar
  at : get_elem? s i ≡ some v
  inside : contains_range v.range m.range ≡ true
  there : Located s b i (mapping m)

Located-Whole :
    (s : Store) (a b i : ℕ) (p : VmPointerRegion) (m : VmarMapping)
    → IsTree s
    → Located s a i p
    → p ≡ mapping m
    → contains m.range b ≡ true
    → Whole s i a b m
Located-Whole s a b i p m t (outside v at out) e c =
    absurd (locate_outside-mapping (classify a) m e)
Located-Whole s a b i p m t (gap v at inside bare) e c = absurd (cc)
Located-Whole s a b i p m t (in_guard v k r at found here) e c = absurd (cc)
Located-Whole s a b i p m t (in_mapping v k m' at found here) e c =
    let same : m' ≡ m = cc in
    let n = t i v at in
    let (child, key) =
      lookup-Placed v.range v.entries k (Region.VmarEntry.mapping m') n.valid.placed found in
    rw (← same) (record {
      here = here;
      v = v;
      at = at;
      inside = ground (arith, child.low, child.high);
      there = in_mapping v k m' at found (rw same c);
    })
Located-Whole s a b i p m t (below v k ch r at found here l) e c =
    let w = Located-Whole s a b ch p m t l e c in
    let n = t i v at in
    let (child, key) = lookup-Placed v.range v.entries k (region r ch) n.valid.placed found in
    let (later, (u, at', same)) = lookup-Links s i v.entries k (region r ch) n.links found in
    let one : u ≡ w.v = same_vmar (sym at' ∙ w.at) in
    let covers : contains_range r m.range ≡ true = rw (← same, one) w.inside in
    record {
      here = w.here;
      v = v;
      at = at;
      inside = ground (arith, child.low, child.high, covers);
      there = below v k ch r at found (ground (arith, covers, c)) w.there;
    }

mapping_here :
    (s : Store) (a i : ℕ) (p : VmPointerRegion) (m : VmarMapping)
    → Located s a i p
    → p ≡ mapping m
    → contains m.range a ≡ true
mapping_here s a i p m (outside v at out) e = absurd (locate_outside-mapping (classify a) m e)
mapping_here s a i p m (gap v at inside bare) e = absurd (cc)
mapping_here s a i p m (in_guard v k r at found here) e = absurd (cc)
mapping_here s a i p m (in_mapping v k m' at found here) e =
    let same : m' ≡ m = cc in rw (← same) here
mapping_here s a i p m (below v k ch r at found here l) e = mapping_here s a ch p m l e

mapping_at-within :
    (s : Store) (i a b : ℕ) (m : VmarMapping)
    → IsTree s
    → i < length s
    → mapping_at s i a ≡ some m
    → contains m.range b ≡ true
    → (contains m.range a ≡ true) × (mapping_at s i b ≡ some m)
mapping_at-within s i a b m t l e c =
    let w = Located-Whole s a b i (mapping m) m t ((mapping_at_iff s a i m t l).0 e) refl c in
    (w.here, (mapping_at_iff s b i m t l).1 w.there)

mapping_at-contains :
    (s : Store) (i a : ℕ) (m : VmarMapping)
    → IsTree s
    → i < length s
    → mapping_at s i a ≡ some m
    → contains m.range a ≡ true
mapping_at-contains s i a m t l e =
    mapping_here s a i (mapping m) m ((mapping_at_iff s a i m t l).0 e) refl

-- What an address of a validated range must have.
abbrev pub IsAccessible : Store → ℕ → Flags → ℕ → Type 0
IsAccessible s root required addr =
    (m : VmarMapping) × (mapping_at s root addr ≡ some m) × (allows_mmu m.flags required ≡ true)

-- The result that the addresses of a range call for: that of the first which is not accessible.
pub data Verdict (s : Store) (root : ℕ) (required : Flags) (from to : ℕ)
    : Result (Unit {0}) → Type 0 where
  all_accessible :
      ((addr : ℕ) → from ≤ addr → addr < to → IsAccessible s root required addr)
      → Verdict s root required from to (ok tt)
  first_unmapped :
      (addr : ℕ)
      → from ≤ addr
      → addr < to
      → ((b : ℕ) → from ≤ b → b < addr → IsAccessible s root required b)
      → mapping_at s root addr ≡ none
      → Verdict s root required from to (err not_mapped)
  first_forbidden :
      (addr : ℕ) (m : VmarMapping)
      → from ≤ addr
      → addr < to
      → ((b : ℕ) → from ≤ b → b < addr → IsAccessible s root required b)
      → mapping_at s root addr ≡ some m
      → allows_mmu m.flags required ≡ false
      → Verdict s root required from to (err permission_denied)

-- Accessible addresses before the range change nothing.
Verdict-earlier :
    (s : Store) (root : ℕ) (required : Flags) (from next to : ℕ) (r : Result (Unit {0}))
    → from ≤ next
    → ((addr : ℕ) → from ≤ addr → addr < next → IsAccessible s root required addr)
    → Verdict s root required next to r
    → Verdict s root required from to r
Verdict-earlier s root required from next to r le before (all_accessible f) =
    all_accessible (λ b l h. elim (Bool-cases (ltb b next)) [
      | inl e ↦ before b l (ltb→lt _ _ e)
      | inr e ↦ f b (ground arith) h
    ])
Verdict-earlier s root required from next to r le before (first_unmapped addr l h f none_here) =
    first_unmapped addr (omega arith) h
      (λ b l' h'. elim (Bool-cases (ltb b next)) [
        | inl e ↦ before b l' (ltb→lt _ _ e)
        | inr e ↦ f b (ground arith) h'
      ])
      none_here
Verdict-earlier s root required from next to r le before
      (first_forbidden addr m l h f at no_access) =
    first_forbidden addr m (omega arith) h
      (λ b l' h'. elim (Bool-cases (ltb b next)) [
        | inl e ↦ before b l' (ltb→lt _ _ e)
        | inr e ↦ f b (ground arith) h'
      ])
      at no_access

validate_from-Verdict :
    (fuel : ℕ) (s : Store) (root : ℕ) (range : VmRange) (required : Flags) (cursor : ℕ)
    → IsTree s
    → root < length s
    → cursor ≤ range.end
    → range.end < cursor + fuel
    → (r : Result (Unit {0})) × (validate_from fuel s root range required cursor ≡ some r)
      × Verdict s root required cursor range.end r
unfolding validate_from validate_mapped
validate_from-Verdict zero s root range required cursor t l inside enough = absurd (omega arith)
validate_from-Verdict (suc fuel) s root range required cursor t l inside enough =
    elim (Bool-cases (ltb cursor range.end)) [
      | inr done ↦ rw done (ok tt, refl, all_accessible (λ b l' h. absurd (ground arith)))
      | inl more ↦ rw more (elim (Option-cases (mapping_at s root cursor)) [
        | inl none_here ↦ rw none_here (
          err not_mapped,
          refl,
          first_unmapped cursor (omega arith) (ltb→lt _ _ more) (λ b l' h. absurd (omega arith))
              none_here,
        )
        | inr (m, at) ↦ elim (Bool-cases (allows_mmu m.flags required)) [
          | inr no_access ↦
              rw (at, no_access)
                (
                  err permission_denied,
                  refl,
                  first_forbidden cursor m (omega arith) (ltb→lt _ _ more)
                      (λ b l' h. absurd (omega arith)) at no_access,
                )
          | inl access ↦
              let next = min m.range.end range.end in
              let holds = mapping_at-contains s root cursor m t l at in
              let later : cursor < next = ground (arith, holds, more) in
              let moved : leb next cursor ≡ false = ground (arith, later) in
              let (r, run, verdict) =
                validate_from-Verdict fuel s root range required next t l (omega arith)
                  (omega (arith, later)) in
              rw (at, access, moved)
                (
                  r,
                  run,
                  Verdict-earlier s root required cursor next range.end r (omega (arith, later))
                      (λ b l' h. (
                        m,
                        (mapping_at-within s root cursor b m t l at (ground (arith, holds))).1,
                        access,
                      ))
                      verdict,
                )
        ]
      ])
    ]

-- In a forest of well-formed VMARs, `validate_range` ends with a result. A range that is not inside
-- the root is invalid. For any other, the result is `Ok` exactly when a mapping with the required
-- access holds each address of the range, and otherwise the error is that of the first address for
-- which none does: unmapped, or mapped without the access.
pub validate_range-Verdict :
    (s : Store) (root : ℕ) (v : Vmar) (range : VmRange) (required : Flags)
    → IsTree s
    → get_elem? s root ≡ some v
    → IsProper range
    → (r : Result (Unit {0})) × (validate_range s root range required ≡ some r)
      × (((contains_range v.range range ≡ true) × Verdict s root required range.start range.end r)
          ⊎ ((contains_range v.range range ≡ false) × (r ≡ err invalid_range)))
unfolding validate_range validate_in_root
validate_range-Verdict s root v range required t at p =
    elim (Bool-cases (contains_range v.range range)) [
      | inl inside ↦
          let (r, run, verdict) =
            validate_from-Verdict (suc (range.end - range.start)) s root range required range.start
              t (get_elem?-lt s root v at) (omega (arith, p.nonempty))
              (omega (arith, p.nonempty)) in
          (r, ap (validate_in_root s root range required) at ∙ rw inside run, inl (inside, verdict))
      | inr out ↦ (
        err invalid_range,
        ap (validate_in_root s root range required) at ∙ rw out,
        inr (out, refl),
      )
    ]
