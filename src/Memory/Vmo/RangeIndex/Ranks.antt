-- ===== src/Memory/Vmo/RangeIndex/Ranks.antt =====
-- Ascending lists: where a search ends, counted by the elements below the value.
use akarin.Base.{
  ℕ, suc, ◌+◌, ◌-◌, ◌≤◌, ◌<◌, Bool, true, false, ◌&&◌, ◌||◌, List, [], ◌∷◌, length, get_elem?, ltb,
  leb, ◌==◌, ◌≡◌, inl, inr, refl, ap, ◌∙◌, arith, if◌then◌else◌, Bool-cases, leb→le,
}
use akarin.Memory.Vmo.RangeIndex.{insert_in_order, sort, dedup_after, dedup, search, between}

unfoldable pub has : List ℕ → ℕ → Bool
has [] v = false
has (x ∷ xs) v = (x == v) || has xs v

-- How many elements are less than a value, and how many are at most it.
pub count_lt : List ℕ → ℕ → ℕ
count_lt [] v = 0
count_lt (x ∷ xs) v = (if ltb x v then 1 else 0) + count_lt xs v

pub count_le : List ℕ → ℕ → ℕ
count_le [] v = 0
count_le (x ∷ xs) v = (if leb x v then 1 else 0) + count_le xs v

rises : ℕ → List ℕ → Bool
rises k [] = true
rises k (x ∷ xs) = leb k x && rises x xs

climbs_after : ℕ → List ℕ → Bool
climbs_after k [] = true
climbs_after k (x ∷ xs) = ltb k x && climbs_after x xs

-- Each element is less than the next.
pub climbs : List ℕ → Bool
unfolding climbs_after
climbs [] = true
climbs (x ∷ xs) = climbs_after x xs

rises-insert :
    (k v : ℕ) (xs : List ℕ) → k ≤ v → rises k xs ≡ true → rises k (insert_in_order v xs) ≡ true
unfolding rises insert_in_order
rises-insert k v [] l h = ground arith
rises-insert k v (x ∷ xs) l h = ground (arith, rises-insert x v xs)

rises-sort : (xs : List ℕ) → rises 0 (sort xs) ≡ true
unfolding sort
rises-sort [] = unfold rises in refl
rises-sort (x ∷ xs) = rises-insert 0 x (sort xs) (omega arith) (rises-sort xs)

rises_lower : (k x : ℕ) (xs : List ℕ) → k ≤ x → rises x xs ≡ true → rises k xs ≡ true
unfolding rises
rises_lower k x [] l h = refl
rises_lower k x (y ∷ xs) l h = ground arith

climbs-dedup_after :
    (k : ℕ) (xs : List ℕ) → rises k xs ≡ true → climbs_after k (dedup_after k xs) ≡ true
unfolding rises climbs_after dedup_after
climbs-dedup_after k [] h = refl
climbs-dedup_after k (x ∷ xs) h =
    ground (arith, climbs-dedup_after x xs, climbs-dedup_after k xs, rises_lower k x xs)

has-insert : (v q : ℕ) (xs : List ℕ) → has (insert_in_order v xs) q ≡ ((v == q) || has xs q)
unfolding has insert_in_order
has-insert v q [] = refl
has-insert v q (x ∷ xs) = ground (arith, has-insert v q xs)

has-sort : (q : ℕ) (xs : List ℕ) → has (sort xs) q ≡ has xs q
unfolding sort has
has-sort q [] = refl
has-sort q (x ∷ xs) = has-insert x q (sort xs) ∙ ap (◌||◌ (x == q)) (has-sort q xs)

has-dedup_after :
    (k q : ℕ) (xs : List ℕ) → ((k == q) || has (dedup_after k xs) q) ≡ ((k == q) || has xs q)
unfolding has dedup_after
has-dedup_after k q [] = refl
has-dedup_after k q (x ∷ xs) = ground (arith, has-dedup_after x q xs, has-dedup_after k q xs)

pub coords-climbs : (xs : List ℕ) → climbs (dedup (sort xs)) ≡ true
coords-climbs xs = of_rising (sort xs) (rises-sort xs)
  where
    of_rising : (ys : List ℕ) → rises 0 ys ≡ true → climbs (dedup ys) ≡ true
    of_rising [] h = unfold climbs dedup in refl
    of_rising (y ∷ ys) h =
        unfold climbs dedup in climbs-dedup_after y ys (unfold rises in ground arith)

has-dedup : (q : ℕ) (xs : List ℕ) → has (dedup xs) q ≡ has xs q
unfolding has dedup
has-dedup q [] = refl
has-dedup q (x ∷ xs) = has-dedup_after x q xs

pub has-coords : (q : ℕ) (xs : List ℕ) → has (dedup (sort xs)) q ≡ has xs q
has-coords q xs = has-dedup q (sort xs) ∙ has-sort q xs

-- Nothing up to `k` is in a list that climbs from above `k`.
above :
    (k v : ℕ) (xs : List ℕ)
    → climbs_after k xs ≡ true
    → v ≤ k
    → (count_lt xs v ≡ 0) × (count_le xs v ≡ 0) × (has xs v ≡ false)
unfolding climbs_after count_lt count_le has
above k v [] h l = (refl, refl, refl)
above k v (x ∷ xs) h l =
    let (a, b, c) = above x v xs (ground arith) (ground arith) in
    (ground arith, ground arith, ground arith)

search_after :
    (k v : ℕ) (xs : List ℕ)
    → climbs_after k xs ≡ true
    → (search xs v ≡ (count_lt xs v, has xs v))
      × (count_le xs v ≡ count_lt xs v + (if has xs v then 1 else 0))
unfolding climbs_after search count_lt count_le has
search_after k v [] h = (refl, refl)
search_after k v (x ∷ xs) h =
    let (e, c) = search_after x v xs (ground arith) in
    (rw e (ground (arith, above x v xs)), ground (arith, above x v xs))

pub search-ranks :
    (xs : List ℕ) (v : ℕ)
    → climbs xs ≡ true
    → (search xs v ≡ (count_lt xs v, has xs v))
      × (count_le xs v ≡ count_lt xs v + (if has xs v then 1 else 0))
unfolding climbs search count_lt count_le has
search-ranks [] v h = (refl, refl)
search-ranks (x ∷ xs) v h =
    let (e, c) = search_after x v xs h in
    (rw e (ground (arith, above x v xs)), ground (arith, above x v xs))

count_lt-le : (xs : List ℕ) (s off : ℕ) → s ≤ off → count_lt xs s ≤ count_le xs off
unfolding count_lt count_le
count_lt-le [] s off l = omega arith
count_lt-le (x ∷ xs) s off l = ground (arith, count_lt-le xs s off l)

-- A value of the list that is at most `off` counts, one that is greater does not.
pub count_lt-lt :
    (xs : List ℕ) (s off : ℕ) → s ≤ off → has xs s ≡ true → count_lt xs s < count_le xs off
unfolding count_lt count_le has
count_lt-lt [] s off l h = absurd (cc)
count_lt-lt (x ∷ xs) s off l h = ground (arith, count_lt-lt xs s off l, count_lt-le xs s off l)

pub count_le-le : (xs : List ℕ) (s off : ℕ) → off < s → count_le xs off ≤ count_lt xs s
unfolding count_lt count_le
count_le-le [] s off l = omega arith
count_le-le (x ∷ xs) s off l = ground (arith, count_le-le xs s off l)

pub count_le-length : (xs : List ℕ) (v : ℕ) → count_le xs v ≤ length xs
unfolding count_le
count_le-length [] v = omega arith
count_le-length (x ∷ xs) v = ground (arith, count_le-length xs v)

count_le_more : (y v : ℕ) (xs : List ℕ) → leb y v ≡ true → count_le (y ∷ xs) v ≡ suc (count_le xs v)
unfolding count_le
count_le_more y v xs e = ground arith

count_le_none :
    (y v : ℕ) (xs : List ℕ) → climbs_after y xs ≡ true → leb y v ≡ false → count_le (y ∷ xs) v ≡ 0
unfolding count_le
count_le_none y v xs h e = ground (arith, above y v xs)

climbs_tail : (x y : ℕ) (xs : List ℕ) → climbs_after x (y ∷ xs) ≡ true → climbs_after y xs ≡ true
unfolding climbs_after
climbs_tail x y xs h = ground arith

-- Where the value lies between two neighbours of the list, they are those at its rank.
between_after :
    (x v : ℕ) (xs : List ℕ)
    → climbs_after x xs ≡ true
    → x ≤ v
    → count_le xs v < length xs
    → between v (get_elem? (x ∷ xs) (count_le xs v)) (get_elem? (x ∷ xs) (suc (count_le xs v)))
      ≡ true
between_after x v [] h l n = absurd (omega arith)
between_after x v (y ∷ xs) h l n = elim (Bool-cases (leb y v)) [
  | inl e ↦ rw (count_le_more y v xs e) (
      between_after y v xs (climbs_tail x y xs h) (leb→le y v e)
        (omega (arith, count_le_more y v xs e)))
  | inr e ↦ rw (count_le_none y v xs (climbs_tail x y xs h) e) (ground arith)
]

-- A value between the first element and the last has the neighbours at its rank.
pub between-ranks :
    (xs : List ℕ) (v : ℕ)
    → climbs xs ≡ true
    → 0 < count_le xs v
    → count_le xs v < length xs
    → between v (get_elem? xs (count_le xs v - 1)) (get_elem? xs (count_le xs v - 1 + 1)) ≡ true
between-ranks [] v h l n = absurd (omega arith)
between-ranks (x ∷ xs) v h l n = elim (Bool-cases (leb x v)) [
  | inl e ↦
      let z : suc (count_le xs v) - 1 ≡ count_le xs v = omega arith in
      let w : count_le xs v + 1 ≡ suc (count_le xs v) = omega arith in
      rw (count_le_more x v xs e) (
        rw (z, w)
          (between_after x v xs (unfold climbs in h) (leb→le x v e)
            (omega (arith, count_le_more x v xs e))))
  | inr e ↦ let z = count_le_none x v xs (unfold climbs in h) e in absurd (omega arith)
]
