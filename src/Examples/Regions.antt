-- ===== src/Examples/Regions.antt =====
-- A VMAR of eight pages with one mapping, and the theorems on one VMAR at it.
use akarin.Base.{
  ℕ, ◌-◌, ◌/◌, ◌≤◌, ◌<◌, ◌≡◌, refl, ◌∙◌, true, not, ◌&&◌, none, some, [], ◌∷◌, if◌then◌else◌, arith,
}
use akarin.Base.OrdMap.{lookup, insert, remove}
use akarin.Memory.Range.{VmRange, IsProper, page_size, contains}
use akarin.Memory.Vmo.{Vmo}
use akarin.Memory.Mapping.{VmarMapping}
use akarin.Memory.Purpose.{RegionPurpose}
use akarin.Memory.Flags.{read}
use akarin.Memory.Vmar.{
  Vmar, mapping, Outcome, ok, err, invalid_range, already_mapped, not_mapped, new,
  valid_child_range, find_entry, insert_entry, unmap, protect,
}
use akarin.Memory.Vmar.Invariant.{IsValid, IsChild, busy, stop}
use akarin.Memory.Vmar.Insert.{insert_entry_lem}
use akarin.Memory.Vmar.Unmap.{unmap_lem, starting}
use akarin.Memory.Vmar.Find.{find_entry-some, find_entry_of}
use akarin.Memory.Vmar.Protect.{
  new-IsValid, protect_lem, protected, protected_entries, mapped_exactly,
}

abbrev pub eight_pages : VmRange
eight_pages = record { start = 0x400000; end = 0x408000 }

pub eight_pages-IsProper : IsProper eight_pages
eight_pages-IsProper = record { nonempty = omega arith; fits = omega arith }

new-IsValid_example :
    (v : Vmar) × (new eight_pages ≡ some v) × IsValid v × (v.range ≡ eight_pages) × (v.entries ≡ [])
new-IsValid_example = new-IsValid eight_pages eight_pages-IsProper (omega arith)

pub bare :
    (v : Vmar) × (new eight_pages ≡ some v) × IsValid v × (v.range ≡ eight_pages) × (v.entries ≡ [])
bare = new-IsValid eight_pages eight_pages-IsProper (omega arith)

abbrev two_pages : VmRange
two_pages = record { start = 0x402000; end = 0x404000 }

two_pages-IsProper : IsProper two_pages
two_pages-IsProper = record { nonempty = omega arith; fits = omega arith }

abbrev pub two_mapped : VmarMapping
two_mapped = record {
  range = two_pages;
  flags = read;
  purpose = RegionPurpose.general;
  vmo = 0;
  vmo_offset = 0;
}

abbrev pub filled : Vmar × Outcome (Unit {0})
filled = insert_entry bare.0 (mapping two_mapped)

insert_entry_lem_example :
    IsValid filled.0
    × (filled.0.range ≡ bare.0.range)
    × (filled.1 ≡ (
        if not (valid_child_range bare.0 two_pages)
        then err invalid_range
        else if busy bare.0.entries two_pages
        then err already_mapped
        else ok tt))
    × (filled.0.entries ≡ (
        if valid_child_range bare.0 two_pages && not (busy bare.0.entries two_pages)
        then insert bare.0.entries
            ((0x402000 - bare.0.range.start) / page_size)
            (mapping two_mapped)
        else bare.0.entries))
insert_entry_lem_example = insert_entry_lem bare.0 (mapping two_mapped) bare.2 two_pages-IsProper

pub filled-IsValid : IsValid filled.0
filled-IsValid = (insert_entry_lem bare.0 (mapping two_mapped) bare.2 two_pages-IsProper).0

pub filled_range : filled.0.range ≡ eight_pages
filled_range = (insert_entry_lem bare.0 (mapping two_mapped) bare.2 two_pages-IsProper).1 ∙ bare.3

-- The mapping stands alone, under its first page.
pub filled_entries : filled.0.entries ≡ (2, mapping two_mapped) ∷ []
unfolding insert
filled_entries =
    let e = (insert_entry_lem bare.0 (mapping two_mapped) bare.2 two_pages-IsProper).3 in
    e ∙ rw (bare.3, bare.4)

two_pages-IsChild : IsChild filled.0.range two_pages
two_pages-IsChild = rw filled_range (record {
  proper = two_pages-IsProper;
  low = omega arith;
  high = omega arith;
  start_aligned = refl;
  end_aligned = refl;
})

unmap_lem_example :
    IsValid (unmap filled.0 0x402000).0
    × ((unmap filled.0 0x402000).0.range ≡ filled.0.range)
    × ((unmap filled.0 0x402000).1 ≡ (
        if not (contains filled.0.range 0x402000)
        then err invalid_range
        else elim (starting filled.0.entries 0x402000) [ none ↦ err not_mapped | some e ↦ ok e ]))
    × ((unmap filled.0 0x402000).0.entries ≡ (
        if not (contains filled.0.range 0x402000)
        then filled.0.entries
        else elim (starting filled.0.entries 0x402000) [
          | none ↦ filled.0.entries
          | some e ↦ remove filled.0.entries ((0x402000 - filled.0.range.start) / page_size)
        ]))
unmap_lem_example = unmap_lem filled.0 0x402000 filled-IsValid

abbrev any_vmo : ℕ → Vmo
any_vmo i = record {
  size = 0x2000;
  page_size = 0x1000;
  flags = read;
  child = none;
  pager_cookie = none;
  owns = λ offset. true;
  has_page = λ offset. true;
}

protect_lem_example :
    IsValid (protect any_vmo filled.0 two_pages read).0
    × ((protect any_vmo filled.0 two_pages read).0.range ≡ filled.0.range)
    × ((protect any_vmo filled.0 two_pages read).1
        ≡ protected any_vmo read (mapped_exactly filled.0.entries two_pages))
    × ((protect any_vmo filled.0 two_pages read).0.entries
        ≡ protected_entries any_vmo filled.0 two_pages read
            (mapped_exactly filled.0.entries two_pages))
protect_lem_example = protect_lem any_vmo filled.0 two_pages read filled-IsValid two_pages-IsChild

found : lookup filled.0.entries 2 ≡ some (mapping two_mapped)
unfolding lookup
found = rw filled_entries

find_entry_of_example : find_entry filled.0 3 ≡ some (2, mapping two_mapped)
find_entry_of_example =
    find_entry_of filled.0 3 2 (mapping two_mapped) filled-IsValid found (omega arith)
      (rw filled_range (omega arith))

found_entry : find_entry filled.0 3 ≡ some (2, mapping two_mapped)
found_entry =
    find_entry_of filled.0 3 2 (mapping two_mapped) filled-IsValid found (omega arith)
      (rw filled_range (omega arith))

find_entry-some_example :
    (lookup filled.0.entries 2 ≡ some (mapping two_mapped))
    × (2 ≤ 3)
    × (3 < stop filled.0.range.start (mapping two_mapped))
find_entry-some_example =
    find_entry-some filled.0 3 2 (mapping two_mapped) filled-IsValid found_entry
