-- ===== src/Base/Lists.antt =====
-- Lists measured, cut and overwritten by native numbers.
use Prim.Native.Nat.{ℕ, zero, suc, ◌+◌, ◌-◌, ◌≤◌, ◌<◌, min}
use mathlib.Core.Path.{◌≡◌, refl, sym, ap}
use mathlib.Core.List.{List, [], ◌∷◌, ◌++◌}
use mathlib.Core.Option.{Option, none, some}
use mathlib.Core.Bool.{◌&&◌}
use native.Mathlib.Omega.{arith}
use akarin.Base.Tests.{ltb, leb, ◌==◌, if◌then◌else◌}

module _ {ℓ} {A : Type ℓ} where
  abbrev pub length : List A → ℕ
  length [] = 0
  length (x ∷ xs) = suc (length xs)

  abbrev pub get_elem? : List A → ℕ → Option A
  get_elem? [] i = none
  get_elem? (x ∷ xs) zero = some x
  get_elem? (x ∷ xs) (suc i) = get_elem? xs i

  -- A write out of bounds changes nothing.
  abbrev pub set : List A → ℕ → A → List A
  set [] i v = []
  set (x ∷ xs) zero v = v ∷ xs
  set (x ∷ xs) (suc i) v = x ∷ set xs i v

  abbrev pub take : ℕ → List A → List A
  take zero xs = []
  take (suc n) [] = []
  take (suc n) (x ∷ xs) = x ∷ take n xs

  abbrev pub drop : ℕ → List A → List A
  drop zero xs = xs
  drop (suc n) [] = []
  drop (suc n) (x ∷ xs) = drop n xs

  abbrev pub replicate : ℕ → A → List A
  replicate zero a = []
  replicate (suc n) a = a ∷ replicate n a

  -- The elements at positions from `a` up to, and without, `b`.
  abbrev pub slice : List A → ℕ → ℕ → List A
  slice [] a b = []
  slice (x ∷ xs) a zero = []
  slice (x ∷ xs) zero (suc b) = x ∷ slice xs zero b
  slice (x ∷ xs) (suc a) (suc b) = slice xs a b

  -- The list with `c` at those positions.
  abbrev pub fill : List A → ℕ → ℕ → A → List A
  fill [] a b c = []
  fill (x ∷ xs) a zero c = x ∷ xs
  fill (x ∷ xs) zero (suc b) c = c ∷ fill xs zero b c
  fill (x ∷ xs) (suc a) (suc b) c = x ∷ fill xs a b c

module _ {ℓ} {A : Type ℓ} where
  pub length-append : (xs ys : List A) → length (xs ++ ys) ≡ length xs + length ys
  length-append [] ys = omega arith
  length-append (x ∷ xs) ys = omega (arith, length-append xs ys)

  pub length-take : (n : ℕ) (xs : List A) → length (take n xs) ≡ min n (length xs)
  length-take zero xs = omega arith
  length-take (suc n) [] = omega arith
  length-take (suc n) (x ∷ xs) = omega (arith, length-take n xs)

  pub length-drop : (n : ℕ) (xs : List A) → length (drop n xs) ≡ length xs - n
  length-drop zero xs = omega arith
  length-drop (suc n) [] = omega arith
  length-drop (suc n) (x ∷ xs) = omega (arith, length-drop n xs)

  pub length-replicate : (n : ℕ) (a : A) → length (replicate n a) ≡ n
  length-replicate zero a = refl
  length-replicate (suc n) a = ap suc (length-replicate n a)

  pub take-append-drop : (n : ℕ) (xs : List A) → take n xs ++ drop n xs ≡ xs
  take-append-drop zero xs = refl
  take-append-drop (suc n) [] = refl
  take-append-drop (suc n) (x ∷ xs) = ap (◌∷◌ x) (take-append-drop n xs)

  pub take-replicate : (m n : ℕ) (a : A) → m ≤ n → take m (replicate n a) ≡ replicate m a
  take-replicate zero n a h = refl
  take-replicate (suc m) zero a h = absurd (omega arith)
  take-replicate (suc m) (suc n) a h = ap (◌∷◌ a) (take-replicate m n a (omega arith))

  pub drop-replicate : (m n : ℕ) (a : A) → drop m (replicate n a) ≡ replicate (n - m) a
  drop-replicate zero n a = let e : n - 0 ≡ n = omega arith in rw e
  drop-replicate (suc m) zero a = let e : 0 - suc m ≡ 0 = omega arith in rw e
  drop-replicate (suc m) (suc n) a =
      let e : suc n - suc m ≡ n - m = omega arith in rw e (drop-replicate m n a)

  pub slice_empty : (xs : List A) (a b : ℕ) → b ≤ a → slice xs a b ≡ []
  slice_empty [] a b h = refl
  slice_empty (x ∷ xs) a zero h = refl
  slice_empty (x ∷ xs) zero (suc b) h = absurd (omega arith)
  slice_empty (x ∷ xs) (suc a) (suc b) h = slice_empty xs a b (omega arith)

  pub slice_past : (xs : List A) (a b : ℕ) → length xs ≤ a → slice xs a b ≡ []
  slice_past [] a b h = refl
  slice_past (x ∷ xs) a zero h = refl
  slice_past (x ∷ xs) zero (suc b) h = absurd (omega arith)
  slice_past (x ∷ xs) (suc a) (suc b) h = slice_past xs a b (omega arith)

  pub slice_all : (xs : List A) (b : ℕ) → length xs ≤ b → slice xs 0 b ≡ xs
  slice_all [] b h = refl
  slice_all (x ∷ xs) zero h = absurd (omega arith)
  slice_all (x ∷ xs) (suc b) h = ap (◌∷◌ x) (slice_all xs b (omega arith))

  -- A slice is the slice of the first `m` elements, then that of the others.
  pub slice-split :
      (m : ℕ) (xs : List A) (a b : ℕ)
      → slice xs a b ≡ slice (take m xs) a b ++ slice (drop m xs) (a - m) (b - m)
  slice-split zero xs a b =
      let ea : a - 0 ≡ a = omega arith in let eb : b - 0 ≡ b = omega arith in rw (ea, eb)
  slice-split (suc m) [] a b = refl
  slice-split (suc m) (x ∷ xs) a zero = sym (slice_empty (drop m xs) _ _ (omega arith))
  slice-split (suc m) (x ∷ xs) zero (suc b) =
      let ea : 0 - suc m ≡ 0 - m = omega arith in
      let eb : suc b - suc m ≡ b - m = omega arith in
      rw (ea, eb) (ap (◌∷◌ x) (slice-split m xs zero b))
  slice-split (suc m) (x ∷ xs) (suc a) (suc b) =
      let ea : suc a - suc m ≡ a - m = omega arith in
      let eb : suc b - suc m ≡ b - m = omega arith in rw (ea, eb) (slice-split m xs a b)

  pub length-slice : (xs : List A) (a b : ℕ) → b ≤ length xs → length (slice xs a b) ≡ b - a
  length-slice [] a b h = omega arith
  length-slice (x ∷ xs) a zero h = omega arith
  length-slice (x ∷ xs) zero (suc b) h = omega (arith, length-slice xs zero b)
  length-slice (x ∷ xs) (suc a) (suc b) h = omega (arith, length-slice xs a b)

  pub length-fill : (xs : List A) (a b : ℕ) (c : A) → length (fill xs a b c) ≡ length xs
  length-fill [] a b c = refl
  length-fill (x ∷ xs) a zero c = refl
  length-fill (x ∷ xs) zero (suc b) c = ap suc (length-fill xs zero b c)
  length-fill (x ∷ xs) (suc a) (suc b) c = ap suc (length-fill xs a b c)

  pub fill_empty : (xs : List A) (a b : ℕ) (c : A) → b ≤ a → fill xs a b c ≡ xs
  fill_empty [] a b c h = refl
  fill_empty (x ∷ xs) a zero c h = refl
  fill_empty (x ∷ xs) zero (suc b) c h = absurd (omega arith)
  fill_empty (x ∷ xs) (suc a) (suc b) c h = ap (◌∷◌ x) (fill_empty xs a b c (omega arith))

  pub fill_past : (xs : List A) (a b : ℕ) (c : A) → length xs ≤ a → fill xs a b c ≡ xs
  fill_past [] a b c h = refl
  fill_past (x ∷ xs) a zero c h = refl
  fill_past (x ∷ xs) zero (suc b) c h = absurd (omega arith)
  fill_past (x ∷ xs) (suc a) (suc b) c h = ap (◌∷◌ x) (fill_past xs a b c (omega arith))

  pub fill_all :
      (xs : List A) (b : ℕ) (c : A) → length xs ≤ b → fill xs 0 b c ≡ replicate (length xs) c
  fill_all [] b c h = refl
  fill_all (x ∷ xs) zero c h = absurd (omega arith)
  fill_all (x ∷ xs) (suc b) c h = ap (◌∷◌ c) (fill_all xs b c (omega arith))

  pub take-fill :
      (m : ℕ) (xs : List A) (a b : ℕ) (c : A) → take m (fill xs a b c) ≡ fill (take m xs) a b c
  take-fill zero xs a b c = refl
  take-fill (suc m) [] a b c = refl
  take-fill (suc m) (x ∷ xs) a zero c = refl
  take-fill (suc m) (x ∷ xs) zero (suc b) c = ap (◌∷◌ c) (take-fill m xs zero b c)
  take-fill (suc m) (x ∷ xs) (suc a) (suc b) c = ap (◌∷◌ x) (take-fill m xs a b c)

  pub drop-fill :
      (m : ℕ) (xs : List A) (a b : ℕ) (c : A)
      → drop m (fill xs a b c) ≡ fill (drop m xs) (a - m) (b - m) c
  drop-fill zero xs a b c =
      let ea : a - 0 ≡ a = omega arith in let eb : b - 0 ≡ b = omega arith in rw (ea, eb)
  drop-fill (suc m) [] a b c = refl
  drop-fill (suc m) (x ∷ xs) a zero c = sym (fill_empty (drop m xs) _ _ c (omega arith))
  drop-fill (suc m) (x ∷ xs) zero (suc b) c =
      let ea : 0 - suc m ≡ 0 - m = omega arith in
      let eb : suc b - suc m ≡ b - m = omega arith in rw (ea, eb) (drop-fill m xs zero b c)
  drop-fill (suc m) (x ∷ xs) (suc a) (suc b) c =
      let ea : suc a - suc m ≡ a - m = omega arith in
      let eb : suc b - suc m ≡ b - m = omega arith in rw (ea, eb) (drop-fill m xs a b c)

  pub slice-append :
      (xs : List A) (a m b : ℕ) → a ≤ m → m ≤ b → slice xs a m ++ slice xs m b ≡ slice xs a b
  slice-append [] a m b h k = refl
  slice-append (x ∷ xs) zero zero b h k = refl
  slice-append (x ∷ xs) (suc a) zero b h k = absurd (omega arith)
  slice-append (x ∷ xs) a (suc m) zero h k = absurd (omega arith)
  slice-append (x ∷ xs) zero (suc m) (suc b) h k =
      ap (◌∷◌ x) (slice-append xs zero m b (omega arith) (omega arith))
  slice-append (x ∷ xs) (suc a) (suc m) (suc b) h k =
      slice-append xs a m b (omega arith) (omega arith)

module _ {A : Type 0} where
  pub get_elem?-slice :
      (xs : List A) (a b i : ℕ)
      → get_elem? (slice xs a b) i ≡ (if ltb (a + i) b then get_elem? xs (a + i) else none)
  get_elem?-slice [] a b i = ground arith
  get_elem?-slice (x ∷ xs) a zero i = ground arith
  get_elem?-slice (x ∷ xs) zero (suc b) zero = ground arith
  get_elem?-slice (x ∷ xs) zero (suc b) (suc i) =
      let e : 0 + suc i ≡ suc (0 + i) = omega arith in
      rw e (ground (arith, get_elem?-slice xs 0 b i))
  get_elem?-slice (x ∷ xs) (suc a) (suc b) i =
      let e : suc a + i ≡ suc (a + i) = omega arith in
      rw e (ground (arith, get_elem?-slice xs a b i))

  pub get_elem?-fill :
      (xs : List A) (a b : ℕ) (c : A) (i : ℕ)
      → i < length xs
      → get_elem? (fill xs a b c) i ≡ (if leb a i && ltb i b then some c else get_elem? xs i)
  get_elem?-fill [] a b c i h = absurd (omega arith)
  get_elem?-fill (x ∷ xs) a zero c i h = ground arith
  get_elem?-fill (x ∷ xs) zero (suc b) c zero h = ground arith
  get_elem?-fill (x ∷ xs) zero (suc b) c (suc i) h = ground (arith, get_elem?-fill xs 0 b c i)
  get_elem?-fill (x ∷ xs) (suc a) (suc b) c zero h = ground arith
  get_elem?-fill (x ∷ xs) (suc a) (suc b) c (suc i) h = ground (arith, get_elem?-fill xs a b c i)

  pub get_elem?-replicate : (n : ℕ) (c : A) (i : ℕ) → i < n → get_elem? (replicate n c) i ≡ some c
  get_elem?-replicate zero c i h = absurd (omega arith)
  get_elem?-replicate (suc n) c zero h = refl
  get_elem?-replicate (suc n) c (suc i) h = get_elem?-replicate n c i (omega arith)

  pub length-set : (xs : List A) (i : ℕ) (v : A) → length (set xs i v) ≡ length xs
  length-set [] i v = refl
  length-set (x ∷ xs) zero v = refl
  length-set (x ∷ xs) (suc i) v = ap suc (length-set xs i v)

  pub get_elem?-set :
      (xs : List A) (i j : ℕ) (v : A)
      → i < length xs
      → get_elem? (set xs i v) j ≡ (if i == j then some v else get_elem? xs j)
  get_elem?-set [] i j v h = absurd (omega arith)
  get_elem?-set (x ∷ xs) zero zero v h = refl
  get_elem?-set (x ∷ xs) zero (suc j) v h = ground arith
  get_elem?-set (x ∷ xs) (suc i) zero v h = ground arith
  get_elem?-set (x ∷ xs) (suc i) (suc j) v h = ground (arith, get_elem?-set xs i j v)

  pub get_elem?-append :
      (xs ys : List A) (i : ℕ)
      → get_elem? (xs ++ ys) i
        ≡ (if ltb i (length xs) then get_elem? xs i else get_elem? ys (i - length xs))
  get_elem?-append [] ys i = let e : i - 0 ≡ i = omega arith in rw e (ground arith)
  get_elem?-append (x ∷ xs) ys zero = ground arith
  get_elem?-append (x ∷ xs) ys (suc i) =
      let e : suc i - suc (length xs) ≡ i - length xs = omega arith in
      rw e (ground (arith, get_elem?-append xs ys i))

  pub get_elem?-lt : (xs : List A) (i : ℕ) (x : A) → get_elem? xs i ≡ some x → i < length xs
  get_elem?-lt [] i x h = absurd (cc)
  get_elem?-lt (y ∷ xs) zero x h = omega arith
  get_elem?-lt (y ∷ xs) (suc i) x h = omega (arith, get_elem?-lt xs i x h)

  pub get_elem?-some : (xs : List A) (i : ℕ) → i < length xs → (x : A) × (get_elem? xs i ≡ some x)
  get_elem?-some [] i h = absurd (omega arith)
  get_elem?-some (y ∷ xs) zero h = (y, refl)
  get_elem?-some (y ∷ xs) (suc i) h = get_elem?-some xs i (omega arith)
