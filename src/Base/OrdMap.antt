-- ===== src/Base/OrdMap.antt =====
-- `BTreeMap<usize, V>`: the entries in the order of their keys.
use Prim.Native.Nat.{ℕ}
use mathlib.Core.Path.{◌≡◌, refl}
use mathlib.Core.Logic.{◌≢◌}
use mathlib.Core.List.{List, [], ◌∷◌}
use mathlib.Core.Option.{Option, none, some}
use native.Mathlib.Omega.{arith}
use akarin.Base.Tests.{ltb, leb, ◌==◌, if◌then◌else◌}

abbrev pub or_else {ℓ} : {A : Type ℓ} → Option A → Option A → Option A
or_else (some a) o = some a
or_else none o = o

module _ {V : Type 0} where
  unfoldable pub lookup : List (ℕ × V) → ℕ → Option V
  lookup [] k = none
  lookup ((j, v) ∷ m) k = if j == k then some v else lookup m k

  unfoldable pub insert : List (ℕ × V) → ℕ → V → List (ℕ × V)
  insert [] k v = (k, v) ∷ []
  insert ((j, w) ∷ m) k v =
      if ltb k j then (k, v) ∷ (j, w) ∷ m else if j == k then (k, v) ∷ m else (j, w) ∷ insert m k v

  unfoldable pub remove : List (ℕ × V) → ℕ → List (ℕ × V)
  remove [] k = []
  remove ((j, w) ∷ m) k = if j == k then m else (j, w) ∷ remove m k

  -- `range(..=p).next_back()`
  unfoldable pub last_le : List (ℕ × V) → ℕ → Option (ℕ × V)
  last_le [] p = none
  last_le ((j, w) ∷ m) p = or_else (last_le m p) (if leb j p then some (j, w) else none)

  pub lookup-insert :
      (m : List (ℕ × V)) (k : ℕ) (v : V) (q : ℕ)
      → lookup (insert m k v) q ≡ (if k == q then some v else lookup m q)
  unfolding lookup insert
  lookup-insert [] k v q = refl
  lookup-insert ((j, w) ∷ m) k v q = ground (arith, lookup-insert m k v q)

  pub lookup-remove_ne : (m : List (ℕ × V)) (k q : ℕ) → k ≢ q → lookup (remove m k) q ≡ lookup m q
  unfolding lookup remove
  lookup-remove_ne [] k q h = refl
  lookup-remove_ne ((j, w) ∷ m) k q h = ground (arith, lookup-remove_ne m k q)
