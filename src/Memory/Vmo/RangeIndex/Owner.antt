-- ===== src/Memory/Vmo/RangeIndex/Owner.antt =====
-- The index after `rebuild` gives the last extent that has the offset.
use akarin.Base.{
  ℕ, zero, suc, ◌+◌, ◌-◌, ◌<◌, Bool, true, false, ◌&&◌, Option, none, some, List, [], ◌∷◌, length,
  replicate, get_elem?, ltb, ◌≡◌, inl, inr, refl, sym, ap, ◌∙◌, arith, if◌then◌else◌, Bool-cases,
  length-replicate, get_elem?-replicate,
}
use akarin.Memory.Vmo.RangeIndex.{
  Extent, VmoRangeIndex, sort, dedup, search, endpoints, write_owners, index_of, rebuild, leaf_at,
  between, flatten, owner_at,
}
use akarin.Memory.Vmo.RangeIndex.Leaf.{has_offset, last_owner, are_proper, write_owners-leaf}
use akarin.Memory.Vmo.RangeIndex.Ranks.{
  has, count_le, climbs, coords-climbs, has-coords, search-ranks, count_lt-lt, count_le-le,
  count_le-length, between-ranks,
}

leaf_at-rank :
    (n i l : ℕ) (b : Bool)
    → l ≡ i + (if b then 1 else 0)
    → leaf_at n (i, b) ≡ (if ltb 0 l && ltb l n then some (l - 1) else none)
unfolding leaf_at
leaf_at-rank n i l true e = ground arith
leaf_at-rank n zero l false e = ground arith
leaf_at-rank n (suc i) l false e = ground arith

-- The leaf that the search leads to.
search_leaf :
    (coords : List ℕ) (offset n : ℕ)
    → climbs coords ≡ true
    → leaf_at n (search coords offset) ≡ (
        if ltb 0 (count_le coords offset) && ltb (count_le coords offset) n
        then some (count_le coords offset - 1)
        else none)
search_leaf coords offset n c =
    ap (leaf_at n) (search-ranks coords offset c).0
    ∙ leaf_at-rank n _ _ _ (search-ranks coords offset c).1

-- An offset of an extent has coordinates on both sides.
inside :
    (coords : List ℕ) (e : Extent) (offset : ℕ)
    → has coords e.start ≡ true
    → has coords e.end ≡ true
    → has_offset e offset ≡ true
    → (ltb 0 (count_le coords offset) && ltb (count_le coords offset) (length coords)) ≡ true
inside coords e offset s t h = ground (
  arith,
  count_lt-lt coords e.start offset,
  count_le-le coords e.end offset,
  count_lt-lt coords e.end e.end,
  count_le-length coords e.end,
)

last_owner-outside :
    (coords : List ℕ) (o : Option ℕ) (es : List Extent) (offset : ℕ)
    → are_proper coords es ≡ true
    → (ltb 0 (count_le coords offset) && ltb (count_le coords offset) (length coords)) ≡ false
    → last_owner o es offset ≡ o
unfolding last_owner are_proper
last_owner-outside coords o [] offset h f = refl
last_owner-outside coords o (e ∷ es) offset h f =
    ground (arith, inside coords e offset, last_owner-outside coords o es offset)

-- Every extent has its start before its end.
unfoldable pub are_nonempty : List Extent → Bool
are_nonempty [] = true
are_nonempty (e ∷ es) = ltb e.start e.end && are_nonempty es

covers : List ℕ → List Extent → Bool
covers coords [] = true
covers coords (e ∷ es) = has coords e.start && has coords e.end && covers coords es

are_proper-of_covers :
    (coords : List ℕ) (es : List Extent)
    → are_nonempty es ≡ true
    → covers coords es ≡ true
    → are_proper coords es ≡ true
unfolding are_proper are_nonempty covers
are_proper-of_covers coords [] h k = refl
are_proper-of_covers coords (e ∷ es) h k = ground (arith, are_proper-of_covers coords es)

covers_more :
    (xs ys : List ℕ) (es : List Extent)
    → ((q : ℕ) → has xs q ≡ true → has ys q ≡ true)
    → covers xs es ≡ true
    → covers ys es ≡ true
unfolding covers
covers_more xs ys [] m h = refl
covers_more xs ys (e ∷ es) m h = ground (arith, m e.start, m e.end, covers_more xs ys es m)

has-first : (s t : ℕ) (xs : List ℕ) → (has (s ∷ t ∷ xs) s ≡ true) × (has (s ∷ t ∷ xs) t ≡ true)
unfolding has
has-first s t xs = (ground arith, ground arith)

has-later : (s t q : ℕ) (xs : List ℕ) → has xs q ≡ true → has (s ∷ t ∷ xs) q ≡ true
unfolding has
has-later s t q xs h = ground arith

covers-endpoints : (es : List Extent) → covers (endpoints es) es ≡ true
unfolding covers endpoints
covers-endpoints [] = refl
covers-endpoints (e ∷ es) =
    rw ((has-first e.start e.end (endpoints es)).0, (has-first e.start e.end (endpoints es)).1)
      (covers_more (endpoints es) (e.start ∷ e.end ∷ endpoints es) es
        (λ q. has-later e.start e.end q (endpoints es)) (covers-endpoints es))

coords_of : List Extent → List ℕ
coords_of es = dedup (sort (endpoints es))

are_proper-coords :
    (es : List Extent) → are_nonempty es ≡ true → are_proper (coords_of es) es ≡ true
unfolding coords_of
are_proper-coords es h = are_proper-of_covers (coords_of es) es h (
    covers_more (endpoints es) (coords_of es) es (λ q k. has-coords q (endpoints es) ∙ k)
      (covers-endpoints es))

abbrev no_owner : Option ℕ
no_owner = none

-- The owner of an offset that has a leaf.
inner_owner :
    (coords : List ℕ) (es : List Extent) (offset : ℕ)
    → climbs coords ≡ true
    → are_proper coords es ≡ true
    → 0 < count_le coords offset
    → count_le coords offset < length coords
    → flatten (
        get_elem?
          (write_owners coords (replicate (length coords - 1) none) es)
          (count_le coords offset - 1))
      ≡ last_owner none es offset
inner_owner coords es offset c h p l = ap flatten (
    write_owners-leaf coords c offset (replicate (length coords - 1) none) none es h p
      (omega (arith, length-replicate (length coords - 1) no_owner))
      (get_elem?-replicate (length coords - 1) no_owner (count_le coords offset - 1) (omega arith)))

short_index :
    (x : VmoRangeIndex) (offset : ℕ) → ltb (length x.coords) 2 ≡ true → owner_at x offset ≡ none
unfolding owner_at
short_index x offset h = rw h

no_leaf :
    (x : VmoRangeIndex) (offset : ℕ)
    → ltb (length x.coords) 2 ≡ false
    → leaf_at (length x.coords) (search x.coords offset) ≡ none
    → owner_at x offset ≡ none
unfolding owner_at
no_leaf x offset h e = rw (h, e)

leaf_owner :
    (x : VmoRangeIndex) (offset i : ℕ)
    → ltb (length x.coords) 2 ≡ false
    → leaf_at (length x.coords) (search x.coords offset) ≡ some i
    → between offset (get_elem? x.coords i) (get_elem? x.coords (i + 1)) ≡ true
    → owner_at x offset ≡ flatten (get_elem? x.owners i)
unfolding owner_at
leaf_owner x offset i h e b = rw (h, e) (rw b)

module _ (coords : List ℕ) (es : List Extent) (offset : ℕ) (c : climbs coords ≡ true)
    (h : are_proper coords es ≡ true) where
  index_of-long :
      ltb (length coords) 2 ≡ false
      → index_of coords es ≡ record {
        coords = coords;
        owners = write_owners coords (replicate (length coords - 1) none) es;
      }
  unfolding index_of
  index_of-long n = rw n

  index_of-short :
      ltb (length coords) 2 ≡ true → index_of coords es ≡ record { coords = coords; owners = [] }
  unfolding index_of
  index_of-short s = rw s

  -- The owner, if there are leaves.
  long_owner :
      ltb (length coords) 2 ≡ false
      → owner_at
          (record {
            coords = coords;
            owners = write_owners coords (replicate (length coords - 1) none) es;
          })
          offset
        ≡ last_owner none es offset
  long_owner n =
      elim (Bool-cases
        (ltb 0 (count_le coords offset) && ltb (count_le coords offset) (length coords))) [
          | inr f ↦
              no_leaf _ offset n (search_leaf coords offset (length coords) c ∙ rw f)
              ∙ sym (last_owner-outside coords none es offset h f)
          | inl t ↦
              leaf_owner _ offset (count_le coords offset - 1) n
                (search_leaf coords offset (length coords) c ∙ rw t)
                (between-ranks coords offset c (ground arith) (ground arith))
              ∙ inner_owner coords es offset c h (ground arith) (ground arith)
        ]

  owner_at-index_of : owner_at (index_of coords es) offset ≡ last_owner none es offset
  owner_at-index_of = elim (Bool-cases (ltb (length coords) 2)) [
    | inl s ↦ rw (index_of-short s) (
        short_index (record { coords = coords; owners = [] }) offset s
        ∙ sym (last_owner-outside coords none es offset h (ground arith)))
    | inr n ↦ rw (index_of-long n) (long_owner n)
  ]

-- After `rebuild` with extents that are not empty, the owner of an offset is the last extent that
-- has the offset; there is no owner if none has it.
pub owner_at-rebuild :
    (es : List Extent) (offset : ℕ)
    → are_nonempty es ≡ true
    → owner_at (rebuild es) offset ≡ last_owner none es offset
unfolding rebuild coords_of
owner_at-rebuild es offset h =
    owner_at-index_of (dedup (sort (endpoints es))) es offset (coords-climbs (endpoints es))
      (are_proper-coords es h)
