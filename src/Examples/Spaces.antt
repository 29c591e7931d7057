-- ===== src/Examples/Spaces.antt =====
-- A store with one VMAR of eight pages and a mapping in it, and the theorems on the tree of VMARs at it.
use akarin.Base.{
  zero, suc, ◌≤◌, ◌≡◌, ◌↔◌, ◌⊎◌, refl, subst, true, false, not, ◌&&◌, some, [], ◌∷◌, length,
  if◌then◌else◌, arith,
}
use akarin.Memory.Flags.{read}
use akarin.Memory.Range.{VmRange, IsProper, contains_range}
use akarin.Memory.Vmar.{Vmar, new, ok, err, invalid_range, already_mapped, valid_child_range}
use akarin.Memory.Vmar.Invariant.{IsValid, busy}
use akarin.Memory.Space.{Store, VmPointerRegion, mapping, allocate_child, locate, mapping_at}
use akarin.Memory.Space.Tree.{IsNode, IsTree, Attached, same_vmar, allocate_child-IsTree}
use akarin.Memory.Space.Locate.{Located, locate_iff, mapping_at_iff}
use akarin.Memory.VSpace.{Result, VSpaceSegments, new_segments, validate_range}
use akarin.Memory.VSpace
use akarin.Memory.VSpace.Validate.{Verdict, validate_range-Verdict}
use akarin.Memory.VSpace.Made.{AllMade, new_segments-AllMade}
use akarin.Memory.Vmar.Protect.{new-IsValid}
use akarin.Examples.Regions.{filled, filled-IsValid, filled_range, filled_entries, two_mapped}

abbrev pub one_vmar : Store
one_vmar = filled.0 ∷ []

-- A store of one VMAR with a mapping is a tree.
pub one_vmar-IsTree : IsTree one_vmar
one_vmar-IsTree zero v e = subst (IsNode one_vmar 0) (same_vmar e) (record {
  valid = filled-IsValid;
  aligned = rw filled_range;
  links = rw filled_entries (tt, tt);
})
one_vmar-IsTree (suc i) v e = absurd (cc)

abbrev two_pages : VmRange
two_pages = record { start = 0x402000; end = 0x404000 }

two_pages-IsProper : IsProper two_pages
two_pages-IsProper = record { nonempty = omega arith; fits = omega arith }

abbrev next_pages : VmRange
next_pages = record { start = 0x404000; end = 0x406000 }

next_pages-IsProper : IsProper next_pages
next_pages-IsProper = record { nonempty = omega arith; fits = omega arith }

allocate_child-IsTree_example :
    IsTree (allocate_child one_vmar 0 next_pages).0
    × ((allocate_child one_vmar 0 next_pages).1 ≡ (
        if not (valid_child_range filled.0 next_pages)
        then err invalid_range
        else if busy filled.0.entries next_pages
        then err already_mapped
        else ok 1))
    × (length (allocate_child one_vmar 0 next_pages).0 ≡ (
        if valid_child_range filled.0 next_pages && not (busy filled.0.entries next_pages)
        then 2
        else 1))
    × Attached one_vmar 0 filled.0 next_pages
        (valid_child_range filled.0 next_pages && not (busy filled.0.entries next_pages))
        (allocate_child one_vmar 0 next_pages).0
allocate_child-IsTree_example =
    allocate_child-IsTree one_vmar 0 filled.0 next_pages one_vmar-IsTree refl next_pages-IsProper

locate_iff_example :
    ((p : VmPointerRegion)
      → (locate 1 one_vmar 0 0x403000 ≡ some p) ↔ Located one_vmar 0x403000 0 p)
    × ((p : VmPointerRegion) × (locate 1 one_vmar 0 0x403000 ≡ some p))
locate_iff_example = locate_iff one_vmar 0x403000 0 one_vmar-IsTree (omega arith)

mapping_at_iff_example :
    (mapping_at one_vmar 0 0x403000 ≡ some two_mapped)
    ↔ Located one_vmar 0x403000 0 (mapping two_mapped)
mapping_at_iff_example = mapping_at_iff one_vmar 0x403000 0 two_mapped one_vmar-IsTree (omega arith)

abbrev user_space : VmRange
user_space = record { start = 0; end = 0x8000_0000_0000 }

-- A new VMAR over the userspace
user_root :
    (v : Vmar) × (new user_space ≡ some v) × IsValid v × (v.range ≡ user_space) × (v.entries ≡ [])
user_root =
    new-IsValid user_space (record { nonempty = omega arith; fits = omega arith }) (omega arith)

abbrev root_only : Store
root_only = user_root.0 ∷ []

root_only-IsTree : IsTree root_only
root_only-IsTree zero v e =
    subst (IsNode root_only 0) (same_vmar e)
      (record { valid = user_root.2; aligned = rw user_root.3 refl; links = rw user_root.4 tt })
root_only-IsTree (suc i) v e = absurd (cc)

root_low : user_root.0.range.start ≤ 0x400000
root_low = rw user_root.3 (omega arith)

root_high : 0x8000_0000_0000 ≤ user_root.0.range.end
root_high = rw user_root.3 (omega arith)

new_segments-AllMade_example :
    (c : VSpaceSegments) × ((new_segments root_only 0).1 ≡ VSpace.ok c)
    × AllMade (new_segments root_only 0).0 c
    × IsTree (new_segments root_only 0).0
new_segments-AllMade_example =
    new_segments-AllMade root_only 0 user_root.0 root_only-IsTree refl user_root.4 root_low
      root_high

validate_range-Verdict_example :
    (r : Result (Unit {0})) × (validate_range one_vmar 0 two_pages read ≡ some r)
    × (((contains_range filled.0.range two_pages ≡ true)
          × Verdict one_vmar 0 read 0x402000 0x404000 r)
        ⊎ ((contains_range filled.0.range two_pages ≡ false)
            × (r ≡ VSpace.err VSpace.invalid_range)))
validate_range-Verdict_example =
    validate_range-Verdict one_vmar 0 filled.0 two_pages read one_vmar-IsTree refl
      two_pages-IsProper
