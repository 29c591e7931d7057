-- ===== src/Examples/Rules.antt =====
-- The theorems on flags, segments, mappings and purposes at concrete inputs.
use akarin.Base.{List, [], ◌∷◌, ℕ, ◌≤◌, ◌≡◌, ◌↔◌, refl, true, none, some, arith}
use akarin.Base.Bits.{◌∪◌, contains}
use akarin.Memory.Flags.{Flags, read, write, user, map_right, allows_mmu}
use akarin.Memory.Flags.Laws.{allows_mmu_iff}
use akarin.Memory.Range.{VmRange, IsProper}
use akarin.Memory.Layout.{
  user_image, start, end_exclusive, classify, classify_range, is_user, is_guard, max_flags,
}
use akarin.Memory.Layout.Classify.{Lies, end_of, classify_iff, classify_range_iff}
use akarin.Memory.Purpose.{RegionPurpose, is_resident}
use akarin.Memory.Vmo.{Vmo, can_map}
use akarin.Memory.Vmo.RangeIndex.{
  Extent, rebuild, owner_at, search, leaf_at, write_owner, coord_index,
}
use akarin.Memory.Vmo.RangeIndex.Leaf.{last_owner}
use akarin.Memory.Vmo.RangeIndex.Owner.{are_nonempty, owner_at-rebuild}
use akarin.Memory.Mapping.{VmarMapping, validate_layout}
use akarin.Memory.Mapping.Laws.{IsAdmitted, validate_layout-IsAdmitted}

abbrev rw_user : Flags
rw_user = read ∪ write ∪ user

allows_mmu_iff_example :
    (allows_mmu rw_user (read ∪ user) ≡ true)
    ↔ ((i : ℕ) → 2 ≤ i → i ≤ 8 → (read ∪ user) i ≡ true → rw_user i ≡ true)
allows_mmu_iff_example = allows_mmu_iff rw_user (read ∪ user)

abbrev four_pages : VmRange
four_pages = record { start = 0x400000; end = 0x404000 }

four_pages-IsProper : IsProper four_pages
four_pages-IsProper = record { nonempty = omega arith; fits = omega arith }

lies : Lies 0x401000 user_image
unfolding start end_exclusive
lies = (omega arith, omega arith)

classify_iff_example : (classify 0x401000 ≡ some user_image) ↔ Lies 0x401000 user_image
classify_iff_example = classify_iff 0x401000 user_image (omega arith)

classify_range_iff_example :
    (classify_range four_pages ≡ some user_image)
    ↔ ((start user_image ≤ 0x400000) × (0x404000 ≤ end_of user_image))
classify_range_iff_example = classify_range_iff four_pages user_image four_pages-IsProper

-- A VMO of sixteen pages without children or a pager, all of whose pages are there.
abbrev full_vmo : Vmo
full_vmo = record {
  size = 0x10000;
  page_size = 0x1000;
  flags = rw_user ∪ map_right;
  child = none;
  pager_cookie = none;
  owns = λ offset. true;
  has_page = λ offset. true;
}

abbrev vmos : ℕ → Vmo
vmos i = full_vmo

abbrev image_mapping : VmarMapping
image_mapping = record {
  range = four_pages;
  flags = rw_user;
  purpose = RegionPurpose.user;
  vmo = 0;
  vmo_offset = 0x2000;
}

admitted : validate_layout vmos image_mapping ≡ true
unfolding validate_layout classify_range classify start end_exclusive is_guard is_user allows_mmu
    max_flags is_resident can_map contains
admitted = refl

validate_layout-IsAdmitted_example : IsAdmitted vmos image_mapping
validate_layout-IsAdmitted_example =
    validate_layout-IsAdmitted vmos image_mapping four_pages-IsProper (omega arith) admitted

-- Two extents of which the second lies over the end of the first.
abbrev two_extents : List Extent
two_extents =
    record { owner = 0; start = 0; end = 0x3000 }
    ∷ record { owner = 1; start = 0x2000; end = 0x4000 }
    ∷ []

owner_at-rebuild_example :
    owner_at (rebuild two_extents) 0x2800 ≡ last_owner none two_extents 0x2800
unfolding are_nonempty
owner_at-rebuild_example = owner_at-rebuild two_extents 0x2800 refl

owner_in_overlap : owner_at (rebuild two_extents) 0x2800 ≡ some 1
unfolding owner_at rebuild search leaf_at write_owner coord_index
owner_in_overlap = refl

owner_past_end : owner_at (rebuild two_extents) 0x4000 ≡ none
unfolding owner_at rebuild search leaf_at write_owner coord_index
owner_past_end = refl
