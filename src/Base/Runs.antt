-- ===== src/Base/Runs.antt =====
-- Runs of `true` in a list of Booleans: at its front, at its end, the longest, and the first that
-- is long enough.
use Prim.Native.Nat.{ℕ, zero, suc, ◌+◌, ◌-◌, ◌≤◌, ◌<◌, max}
use mathlib.Core.Path.{◌≡◌, refl, ap}
use mathlib.Core.Bool.{Bool, true, false}
use mathlib.Core.List.{List, [], ◌∷◌, ◌++◌}
use mathlib.Core.Option.{Option, none, some}
use mathlib.Core.Option
use native.Mathlib.Omega.{arith}
use akarin.Base.Tests.{leb, ◌==◌, if◌then◌else◌, Option-cases}
use akarin.Base.Lists.{length, replicate, get_elem?, drop, length-append, length-replicate}

abbrev pub prefix : List Bool → ℕ
prefix [] = 0
prefix (true ∷ xs) = suc (prefix xs)
prefix (false ∷ xs) = 0

abbrev pub suffix : List Bool → ℕ
suffix [] = 0
suffix (x ∷ xs) =
    if suffix xs == length xs then (if x then suc (suffix xs) else suffix xs) else suffix xs

abbrev pub longest : List Bool → ℕ
longest [] = 0
longest (x ∷ xs) = max (prefix (x ∷ xs)) (longest xs)

-- The least position from which `n` elements are `true`.
abbrev pub first_run : List Bool → ℕ → Option ℕ
first_run [] n = none
first_run (x ∷ xs) n = if leb n (prefix (x ∷ xs)) then some 0 else Option.map suc (first_run xs n)

pub prefix-le : (xs : List Bool) → prefix xs ≤ length xs
prefix-le [] = omega arith
prefix-le (true ∷ xs) = omega (arith, prefix-le xs)
prefix-le (false ∷ xs) = omega arith

pub suffix-le : (xs : List Bool) → suffix xs ≤ length xs
suffix-le [] = omega arith
suffix-le (x ∷ xs) = ground (arith, suffix-le xs)

pub longest-le : (xs : List Bool) → longest xs ≤ length xs
longest-le [] = omega arith
longest-le (true ∷ xs) = omega (arith, longest-le xs, prefix-le xs)
longest-le (false ∷ xs) = omega (arith, longest-le xs)

pub prefix-le-longest : (xs : List Bool) → prefix xs ≤ longest xs
prefix-le-longest [] = omega arith
prefix-le-longest (x ∷ xs) = omega arith

-- Both runs reach the other end together.
pub suffix_full : (xs : List Bool) → suffix xs ≡ length xs → prefix xs ≡ length xs
suffix_full [] h = refl
suffix_full (true ∷ xs) h = ground (arith, suffix_full xs, suffix-le xs)
suffix_full (false ∷ xs) h = ground (arith, suffix_full xs, suffix-le xs)

pub prefix_full : (xs : List Bool) → prefix xs ≡ length xs → suffix xs ≡ length xs
prefix_full [] h = refl
prefix_full (true ∷ xs) h = ground (arith, prefix_full xs, prefix-le xs)
prefix_full (false ∷ xs) h = absurd (omega arith)

pub prefix-append :
    (xs ys : List Bool)
    → prefix (xs ++ ys) ≡ (if prefix xs == length xs then length xs + prefix ys else prefix xs)
prefix-append [] ys = ground arith
prefix-append (true ∷ xs) ys = ground (arith, prefix-append xs ys)
prefix-append (false ∷ xs) ys = ground arith

pub suffix-append :
    (xs ys : List Bool)
    → suffix (xs ++ ys) ≡ (if suffix ys == length ys then length ys + suffix xs else suffix ys)
suffix-append [] ys = ground arith
suffix-append (x ∷ xs) ys =
    ground (arith, suffix-append xs ys, length-append xs ys, suffix-le xs, suffix-le ys)

pub longest-append :
    (xs ys : List Bool)
    → longest (xs ++ ys) ≡ max (max (longest xs) (longest ys)) (suffix xs + prefix ys)
longest-append [] ys = omega (arith, prefix-le-longest ys)
longest-append (true ∷ xs) ys = ground (
  arith,
  longest-append xs ys,
  prefix-append xs ys,
  suffix_full xs,
  prefix_full xs,
  prefix-le xs,
  suffix-le xs,
  prefix-le-longest xs,
)
longest-append (false ∷ xs) ys = ground (
  arith,
  longest-append xs ys,
  suffix_full xs,
  prefix_full xs,
  prefix-le xs,
  suffix-le xs,
  prefix-le-longest ys,
)

pub all_free : (xs : List Bool) → longest xs ≡ length xs → xs ≡ replicate (length xs) true
all_free [] h = refl
all_free (true ∷ xs) h =
    ap (◌∷◌ true) (all_free xs omega (arith, prefix-le-longest xs, longest-le xs, prefix-le xs))
all_free (false ∷ xs) h = absurd (omega (arith, longest-le xs))

-- The number of free cells among `n` cells that are all `b`.
abbrev pub all_or_none : Bool → ℕ → ℕ
all_or_none true n = n
all_or_none false n = 0

pub prefix-replicate : (b : Bool) (n : ℕ) → prefix (replicate n b) ≡ all_or_none b n
prefix-replicate true zero = refl
prefix-replicate true (suc n) = ap suc (prefix-replicate true n)
prefix-replicate false zero = refl
prefix-replicate false (suc n) = refl

pub suffix-replicate : (b : Bool) (n : ℕ) → suffix (replicate n b) ≡ all_or_none b n
suffix-replicate true zero = refl
suffix-replicate true (suc n) = ground (arith, suffix-replicate true n, length-replicate n true)
suffix-replicate false zero = refl
suffix-replicate false (suc n) = ground (arith, suffix-replicate false n, length-replicate n false)

pub longest-replicate : (b : Bool) (n : ℕ) → longest (replicate n b) ≡ all_or_none b n
longest-replicate true zero = refl
longest-replicate true (suc n) = omega (arith, longest-replicate true n, prefix-replicate true n)
longest-replicate false zero = refl
longest-replicate false (suc n) = omega (arith, longest-replicate false n)

first_run-zero : (xs : List Bool) (n : ℕ) → first_run xs n ≡ some 0 → n ≤ prefix xs
first_run-zero [] n h = cc
first_run-zero (x ∷ xs) n h = ground (arith, Option-cases (first_run xs n))

first_run-suc :
    (x : Bool) (xs : List Bool) (n i : ℕ)
    → first_run (x ∷ xs) n ≡ some (suc i)
    → (prefix (x ∷ xs) < n) × (first_run xs n ≡ some i)
first_run-suc x xs n i h = ground (arith, Option-cases (first_run xs n))

-- A run that starts at the least position is a run, and no earlier position starts one.
pub first_run-some :
    (xs : List Bool) (n i : ℕ)
    → first_run xs n ≡ some i
    → (n ≤ prefix (drop i xs)) × ((j : ℕ) → j < i → prefix (drop j xs) < n)
first_run-some [] n i h = cc
first_run-some (x ∷ xs) n zero h = (first_run-zero (x ∷ xs) n h, λ j l. absurd (omega arith))
first_run-some (x ∷ xs) n (suc i) h =
    let (here, later) = first_run-suc x xs n i h in
    let (reach, before) = first_run-some xs n i later in (reach, λ j l. below j l here before)
  where
    below :
        (j : ℕ)
        → j < suc i
        → prefix (x ∷ xs) < n
        → ((k : ℕ) → k < i → prefix (drop k xs) < n)
        → prefix (drop j (x ∷ xs)) < n
    below zero l here before = here
    below (suc j) l here before = before j (omega arith)

-- Without a least position no position starts a run.
pub first_run-none :
    (xs : List Bool) (n : ℕ) → 0 < n → first_run xs n ≡ none → (j : ℕ) → prefix (drop j xs) < n
first_run-none [] n p h zero = p
first_run-none [] n p h (suc j) = p
first_run-none (x ∷ xs) n p h zero = ground arith
first_run-none (x ∷ xs) n p h (suc j) = first_run-none xs n p (ground arith) j

pub first_run-left :
    (xs ys : List Bool) (n : ℕ) → n ≤ longest xs → 0 < n → first_run (xs ++ ys) n ≡ first_run xs n
first_run-left [] ys n h p = absurd (omega arith)
first_run-left (x ∷ xs) ys n h p =
    ground (arith, first_run-left xs ys n, prefix-append (x ∷ xs) ys, longest-le (x ∷ xs))

pub first_run-across :
    (xs ys : List Bool) (n : ℕ)
    → longest xs < n
    → n ≤ suffix xs + prefix ys
    → 0 < length ys
    → first_run (xs ++ ys) n ≡ some (length xs - suffix xs)
first_run-across [] [] n h k p = absurd (omega arith)
first_run-across [] (y ∷ ys) n h k p = ground arith
first_run-across (x ∷ xs) ys n h k p = ground (
  arith,
  first_run-across xs ys n,
  prefix-append (x ∷ xs) ys,
  suffix_full xs,
  prefix_full xs,
  prefix-le xs,
  suffix-le xs,
  longest-le xs,
  prefix-le ys,
)

pub first_run-right :
    (xs ys : List Bool) (n : ℕ)
    → longest xs < n
    → suffix xs + prefix ys < n
    → first_run (xs ++ ys) n ≡ Option.map (λ i. length xs + i) (first_run ys n)
first_run-right [] ys n h k = ground (arith, Option-cases (first_run ys n))
first_run-right (x ∷ xs) ys n h k = ground (
  arith,
  first_run-right xs ys n,
  Option-cases (first_run ys n),
  prefix-append (x ∷ xs) ys,
  suffix_full xs,
  prefix_full xs,
  prefix-le xs,
  suffix-le xs,
  longest-le xs,
  prefix-le ys,
)

-- No run is long enough if the longest is not.
pub first_run-none_of_lt : (xs : List Bool) (n : ℕ) → longest xs < n → first_run xs n ≡ none
first_run-none_of_lt [] n h = refl
first_run-none_of_lt (x ∷ xs) n h = ground (arith, first_run-none_of_lt xs n)

pub longest_of_none : (xs : List Bool) (n : ℕ) → 0 < n → first_run xs n ≡ none → longest xs < n
longest_of_none [] n p h = p
longest_of_none (x ∷ xs) n p h = ground (arith, longest_of_none xs n, Option-cases (first_run xs n))

pub longest_of_some : (xs : List Bool) (n i : ℕ) → first_run xs n ≡ some i → n ≤ longest xs
longest_of_some [] n i h = cc
longest_of_some (x ∷ xs) n zero h = omega (arith, first_run-zero (x ∷ xs) n h)
longest_of_some (x ∷ xs) n (suc i) h =
    omega (arith, longest_of_some xs n i (first_run-suc x xs n i h).1)

pub first_run_whole :
    (xs : List Bool) → 0 < length xs → longest xs ≡ length xs → first_run xs (length xs) ≡ some 0
first_run_whole [] p h = absurd (omega arith)
first_run_whole (x ∷ xs) p h = ground (arith, longest-le xs)

prefix_of_longest : (xs : List Bool) → longest xs ≡ length xs → prefix xs ≡ length xs
prefix_of_longest [] h = refl
prefix_of_longest (x ∷ xs) h = omega (arith, longest-le xs)

-- The longest run is the whole list exactly when every element is `true`.
pub all_of_longest :
    (xs : List Bool) (i : ℕ) → longest xs ≡ length xs → i < length xs → get_elem? xs i ≡ some true
all_of_longest [] i h l = absurd (omega arith)
all_of_longest (true ∷ xs) zero h l = refl
all_of_longest (false ∷ xs) zero h l = absurd (omega (arith, longest-le xs))
all_of_longest (false ∷ xs) (suc i) h l = absurd (omega (arith, longest-le xs))
all_of_longest (true ∷ xs) (suc i) h l =
    all_of_longest xs i
      (omega
        (arith, longest-le xs, prefix-le xs, prefix-le-longest xs, prefix_of_longest (true ∷ xs) h))
      (omega arith)

pub longest_of_all :
    (xs : List Bool)
    → ((i : ℕ) → i < length xs → get_elem? xs i ≡ some true)
    → longest xs ≡ length xs
longest_of_all [] h = refl
longest_of_all (x ∷ xs) h =
    let ih = longest_of_all xs (λ i l. h (suc i) (omega arith)) in
    ground (arith, h 0, ih, prefix_of_longest xs ih)
