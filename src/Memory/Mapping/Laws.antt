-- ===== src/Memory/Mapping/Laws.antt =====
-- What a mapping that passes the layout check satisfies.
use akarin.Base.{
  ℕ, ◌+◌, ◌-◌, ◌≤◌, ◌<◌, ◌≡◌, ◌⊎◌, inl, inr, true, false, none, some, arith, Option-cases,
}
use akarin.Base.Bits.{contains as has}
use akarin.Memory.Flags.{device, allows_mmu}
use akarin.Memory.Range.{IsProper, len, word}
use akarin.Memory.Layout.{VmLayoutSegment, classify_range, is_guard, max_flags, start}
use akarin.Memory.Layout.Classify.{end_of, classify_range_iff}
use akarin.Memory.Purpose.{is_device}
use akarin.Memory.Vmo.{Vmo, can_map}
use akarin.Memory.Mapping.{VmarMapping, validate_layout}

-- A mapping that the layout admits.
pub record IsAdmitted (vmos : ℕ → Vmo) (m : VmarMapping) : Type 0 where
  pub segment : VmLayoutSegment
  pub inside : (start segment ≤ m.range.start) × (m.range.end ≤ end_of segment)
  pub no_guard : is_guard segment ≡ false
  pub within : allows_mmu (max_flags segment) m.flags ≡ true
  pub mappable : can_map (vmos m.vmo) m.flags ≡ true
  pub backed : m.vmo_offset + len m.range ≤ (vmos m.vmo).size
  pub device_only : has m.flags device ≡ true → is_device m.purpose ≡ true

-- The layout check admits only mappings that lie in one segment that is not a guard, ask for no more
-- than the segment's rights and the VMO's, and lie inside the VMO, if the
-- range is not empty and ends below 2^64, and the size of the VMO is less than 2^64 - 1.
pub validate_layout-IsAdmitted :
    (vmos : ℕ → Vmo) (m : VmarMapping)
    → IsProper m.range
    → (vmos m.vmo).size < word - 1
    → validate_layout vmos m ≡ true
    → IsAdmitted vmos m
unfolding validate_layout
validate_layout-IsAdmitted vmos m p small h = go (Option-cases (classify_range m.range))
  where
    go :
        (classify_range m.range ≡ none)
          ⊎ ((s : VmLayoutSegment) × (classify_range m.range ≡ some s))
        → IsAdmitted vmos m
    go (inl e) = absurd (ground (arith, e))
    go (inr (s, e)) = record {
      segment = s;
      inside = (classify_range_iff m.range s p).0 e;
      no_guard = ground (arith, e);
      within = ground (arith, e);
      mappable = ground (arith, e);
      backed = ground (arith, e);
      device_only = ground (arith, e);
    }
