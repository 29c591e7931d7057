-- ===== src/Memory/Vmar/Refuse.antt =====
-- `protect` on a range that is not one of the VMAR's.
use akarin.Base.{
  ℕ, ◌-◌, ◌/◌, ◌%◌, ◌<◌, ◌≡◌, refl, ap, inl, inr, Bool, true, false, ◌&&◌, none, ltb, leb, arith,
  Bool-cases,
}
use akarin.Memory.Flags.{Flags}
use akarin.Memory.Range.{
  VmRange, IsProper, page_size, contains, contains_range, is_page_aligned, len,
}
use akarin.Memory.Vmo.{Vmo}
use akarin.Memory.Vmar.{
  Vmar, err, invalid_range, valid_child_range, page_index, span_from, page_span, protect_span,
  protect,
}

&&-false : (b : Bool) → (b && false) ≡ false
&&-false true = refl
&&-false false = refl

page_span_outside :
    (v : Vmar) (range : VmRange)
    → v.range.start % page_size ≡ 0
    → IsProper range
    → is_page_aligned range ≡ true
    → contains_range v.range range ≡ false
    → page_span v range ≡ none
unfolding page_span span_from page_index
page_span_outside v range base p aligned out = elim (Bool-cases (contains v.range range.start)) [
  | inr before ↦ rw before
  | inl inside ↦
      let past : v.range.end < range.end = ground (arith, inside, out) in
      let low : v.range.start < v.range.end = ground (arith, inside) in
      let ends : range.end % page_size ≡ 0 = ground (arith, aligned) in
      let many : leb ((range.end - v.range.start) / page_size) (len v.range / page_size) ≡ false =
        let more : (len v.range) / page_size < (range.end - v.range.start) / page_size =
          omega (arith, past, base, ends, low) in
        ground (arith, more) in
      rw (
        inside,
        many,
        &&-false (
            ltb ((range.start - v.range.start) / page_size)
              ((range.end - v.range.start) / page_size)),
      )
]

-- `protect` refuses such a range and changes nothing.
pub protect_refused :
    (vmos : ℕ → Vmo) (v : Vmar) (range : VmRange) (flags : Flags)
    → v.range.start % page_size ≡ 0
    → IsProper range
    → valid_child_range v range ≡ false
    → protect vmos v range flags ≡ (v, err invalid_range)
unfolding protect protect_span
protect_refused vmos v range flags base p out = elim (Bool-cases (is_page_aligned range)) [
  | inr odd ↦ rw odd
  | inl aligned ↦ rw aligned (
      ap (protect_span vmos v range flags)
        (page_span_outside v range base p aligned (ground (arith, out, aligned))))
]
