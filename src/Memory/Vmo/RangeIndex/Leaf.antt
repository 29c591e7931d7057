-- ===== src/Memory/Vmo/RangeIndex/Leaf.antt =====
-- What `rebuild` writes into the leaf of an offset.
use akarin.Base.{
  ℕ, ◌-◌, ◌<◌, Bool, true, false, ◌&&◌, Option, some, List, [], ◌∷◌, length, fill, get_elem?, ltb,
  leb, ◌≡◌, refl, ◌∙◌, arith, if◌then◌else◌, length-fill, get_elem?-fill,
}
use akarin.Memory.Vmo.RangeIndex.{Extent, coord_index, write_owner, write_owners}
use akarin.Memory.Vmo.RangeIndex.Ranks.{
  has, count_lt, count_le, climbs, search-ranks, count_lt-lt, count_le-le,
}

-- The extent has the offset.
abbrev pub has_offset : Extent → ℕ → Bool
has_offset e offset = leb e.start offset && ltb offset e.end

-- The number of the last extent that has the offset, or what was there before.
unfoldable pub last_owner : Option ℕ → List Extent → ℕ → Option ℕ
last_owner o [] offset = o
last_owner o (e ∷ es) offset =
    last_owner (if has_offset e offset then some e.owner else o) es offset

-- Every extent has its start before its end, and both among the coordinates.
unfoldable pub are_proper : List ℕ → List Extent → Bool
are_proper coords [] = true
are_proper coords (e ∷ es) =
    ltb e.start e.end && has coords e.start && has coords e.end && are_proper coords es

coord_index-some :
    (coords : List ℕ) (v : ℕ)
    → climbs coords ≡ true
    → has coords v ≡ true
    → coord_index coords v ≡ some (count_lt coords v)
unfolding coord_index
coord_index-some coords v c h = rw ((search-ranks coords v c).0) (rw h)

chosen :
    (b : Bool) (x y : Option ℕ) {z : Option (Option ℕ)}
    → z ≡ some y
    → (if b then some x else z) ≡ some (if b then x else y)
chosen true x y h = refl
chosen false x y h = h

module _ (coords : List ℕ) (c : climbs coords ≡ true) (offset : ℕ) where
  write_owner-fill :
      (owners : List (Option ℕ)) (e : Extent)
      → has coords e.start ≡ true
      → has coords e.end ≡ true
      → write_owner coords owners e
        ≡ fill owners (count_lt coords e.start) (count_lt coords e.end) (some e.owner)
  unfolding write_owner
  write_owner-fill owners e s t =
      ground (arith, coord_index-some coords e.start c s, coord_index-some coords e.end c t)

  -- The leaf of an offset is written exactly if the extent has the offset.
  leaf_written :
      (e : Extent)
      → has coords e.start ≡ true
      → has coords e.end ≡ true
      → 0 < count_le coords offset
      → (leb (count_lt coords e.start) (count_le coords offset - 1)
          && ltb (count_le coords offset - 1) (count_lt coords e.end))
        ≡ has_offset e offset
  leaf_written e s t p = ground (
    arith,
    count_lt-lt coords e.start offset,
    count_le-le coords e.start offset,
    count_lt-lt coords e.end offset,
    count_le-le coords e.end offset,
  )

  leaf_filled :
      (owners : List (Option ℕ)) (o : Option ℕ) (e : Extent)
      → has coords e.start ≡ true
      → has coords e.end ≡ true
      → 0 < count_le coords offset
      → count_le coords offset - 1 < length owners
      → get_elem? owners (count_le coords offset - 1) ≡ some o
      → get_elem?
          (fill owners (count_lt coords e.start) (count_lt coords e.end) (some e.owner))
          (count_le coords offset - 1)
        ≡ some (if has_offset e offset then some e.owner else o)
  leaf_filled owners o e s t p l g =
      get_elem?-fill owners (count_lt coords e.start) (count_lt coords e.end) (some e.owner)
        (count_le coords offset - 1) l
      ∙ rw (leaf_written e s t p) (chosen (has_offset e offset) (some e.owner) o g)

  parts :
      (e : Extent) (es : List Extent)
      → are_proper coords (e ∷ es) ≡ true
      → (has coords e.start ≡ true) × (has coords e.end ≡ true) × (are_proper coords es ≡ true)
  unfolding are_proper
  parts e es h = (ground arith, ground arith, ground arith)

  pub write_owners-leaf :
      (owners : List (Option ℕ)) (o : Option ℕ) (es : List Extent)
      → are_proper coords es ≡ true
      → 0 < count_le coords offset
      → count_le coords offset - 1 < length owners
      → get_elem? owners (count_le coords offset - 1) ≡ some o
      → get_elem? (write_owners coords owners es) (count_le coords offset - 1)
        ≡ some (last_owner o es offset)
  unfolding write_owners are_proper last_owner
  write_owners-leaf owners o [] h p l g = g
  write_owners-leaf owners o (e ∷ es) h p l g =
      let (s, t, rest) = parts e es h in
      let filled = fill owners (count_lt coords e.start) (count_lt coords e.end) (some e.owner) in
      rw (write_owner-fill owners e s t) (
        write_owners-leaf filled (if has_offset e offset then some e.owner else o) es rest p
          (omega (
            arith,
            length-fill owners (count_lt coords e.start) (count_lt coords e.end) (some e.owner),
          ))
          (leaf_filled owners o e s t p l g))
