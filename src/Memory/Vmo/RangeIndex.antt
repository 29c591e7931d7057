-- ===== src/Memory/Vmo/RangeIndex.antt =====
-- `VmoRangeIndex` of library/core/src/memory/vmo.rs: which extent of a memory object owns an offset.
-- `sort_unstable`, `dedup` and `binary_search` of the standard library are written out for lists.
pub mod Ranks
pub mod Leaf
pub mod Owner
use akarin.Base.{
  ℕ, zero, suc, ◌+◌, ◌-◌, Bool, true, false, not, ◌&&◌, Option, none, some, List, [], ◌∷◌, length,
  fill, replicate, get_elem?, ltb, leb, ◌==◌, if◌then◌else◌,
}

-- An extent as `rebuild` is given it: its number, its start and its end.
pub record Extent : Type 0 where
  pub owner : ℕ
  pub start : ℕ
  pub end : ℕ

pub record VmoRangeIndex : Type 0 where
  pub coords : List ℕ
  pub owners : List (Option ℕ)

unfoldable pub insert_in_order : ℕ → List ℕ → List ℕ
insert_in_order v [] = v ∷ []
insert_in_order v (x ∷ xs) = if leb v x then v ∷ x ∷ xs else x ∷ insert_in_order v xs

-- `sort_unstable`
unfoldable pub sort : List ℕ → List ℕ
unfolding insert_in_order
sort [] = []
sort (x ∷ xs) = insert_in_order x (sort xs)

unfoldable pub dedup_after : ℕ → List ℕ → List ℕ
dedup_after k [] = []
dedup_after k (x ∷ xs) =
    let rest = dedup_after x xs in if k == x then dedup_after k xs else x ∷ rest

-- `dedup`
unfoldable pub dedup : List ℕ → List ℕ
unfolding dedup_after
dedup [] = []
dedup (x ∷ xs) = x ∷ dedup_after x xs

-- `binary_search` on an ascending list: the index where the value is or would go, and whether it is
-- there.
unfoldable pub search : List ℕ → ℕ → ℕ × Bool
search [] v = (0, false)
search (x ∷ xs) v =
    let (i, found) = search xs v in
    if x == v then (0, true) else if ltb v x then (0, false) else (suc i, found)

unfoldable pub coord_index : List ℕ → ℕ → Option ℕ
unfolding search
coord_index coords value = let (i, found) = search coords value in if found then some i else none

-- The first loop of `rebuild`
unfoldable pub endpoints : List Extent → List ℕ
endpoints [] = []
endpoints (e ∷ es) = e.start ∷ e.end ∷ endpoints es

-- One turn of its second loop
unfoldable pub write_owner : List ℕ → List (Option ℕ) → Extent → List (Option ℕ)
write_owner coords owners e = elim (coord_index coords e.start) [
  | none ↦ owners
  | some start ↦ elim (coord_index coords e.end) [
    | none ↦ owners
    | some end_index ↦ fill owners start end_index (some e.owner)
  ]
]

unfoldable pub write_owners : List ℕ → List (Option ℕ) → List Extent → List (Option ℕ)
unfolding write_owner
write_owners coords owners [] = owners
write_owners coords owners (e ∷ es) = write_owners coords (write_owner coords owners e) es

unfoldable pub index_of : List ℕ → List Extent → VmoRangeIndex
unfolding write_owners
index_of coords extents =
    if ltb (length coords) 2 then record { coords = coords; owners = [] } else record {
      coords = coords;
      owners = write_owners coords (replicate (length coords - 1) none) extents;
    }

unfoldable pub rebuild : List Extent → VmoRangeIndex
unfolding endpoints sort dedup index_of
rebuild extents = index_of (dedup (sort (endpoints extents))) extents

-- The match on the result of the search
unfoldable pub leaf_at : ℕ → ℕ × Bool → Option ℕ
leaf_at n (i, true) = if ltb (i + 1) n then some i else none
leaf_at n (zero, false) = none
leaf_at n (suc i, false) = if leb n (suc i) then none else some i

-- The test that the leaf's interval has the offset
abbrev pub between : ℕ → Option ℕ → Option ℕ → Bool
between offset (some a) (some b) = leb a offset && ltb offset b
between offset (some a) none = false
between offset none b = false

abbrev pub flatten : Option (Option ℕ) → Option ℕ
flatten none = none
flatten (some o) = o

unfoldable pub owner_at : VmoRangeIndex → ℕ → Option ℕ
owner_at index offset =
    if ltb (length index.coords) 2
    then none
    else elim (leaf_at (length index.coords) (search index.coords offset)) [
      | none ↦ none
      | some leaf ↦
          if between offset (get_elem? index.coords leaf) (get_elem? index.coords (leaf + 1))
          then flatten (get_elem? index.owners leaf)
          else none
    ]
