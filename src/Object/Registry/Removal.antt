-- ===== src/Object/Registry/Removal.antt =====
-- `remove_internal` as a whole: it ends, and it removes an object with its active descendants.
use mathlib.Core.List.{Memᴰ}
use akarin.Base.{
  ℕ, true, false, Option, none, some, List, [], ◌∷◌, ◌==◌, ◌≡◌, ◌⊎◌, inl, inr, ◌+◌, length, refl,
  sym, ap, subst, ◌∙◌, arith, Bool-cases, if◌then◌else◌,
}
use native.Mathlib.Decide.{ℕ_discrete}
use akarin.Base.OrdMap.{lookup, remove, lookup-remove_ne}
use akarin.Memory.Control.{object_destroyed}
use akarin.Object.{Object, ok, err, is_active}
use akarin.Object.Registry.{
  ObjectMap, Registry, mark, visit, unregister, reclaim, reclaim_all, finish, remove_internal,
}
use akarin.Object.Registry.Visit.{active_count-le, visit_ends}
use akarin.Object.Registry.Round.{active_at, active_at-some, mark_other}
use akarin.Object.Registry.Below.{Below-leaf, Below}
use akarin.Object.Registry.Visited.{Visited, visit-Visited, Below-taken}
use akarin.Object.Registry.WellFormed.{
  IsWellFormed, stored-id, mark-IsWellFormed, unregister-IsWellFormed, visit-IsWellFormed,
  remove-IsWellFormed, remove-gone,
}

none_kept :
    (m : ObjectMap) (k i : ℕ) → IsWellFormed m → lookup m i ≡ none → lookup (remove m k) i ≡ none
none_kept m k i w h = elim (ℕ_discrete k i) [
  | yes e ↦ subst (λ x. lookup (remove m k) x ≡ none) e (remove-gone m k w)
  | no n ↦ lookup-remove_ne m k i n ∙ h
]

-- One step of the reclaiming loop
abbrev reclaimed_one : Registry → ℕ → Registry
reclaimed_one r id = record { map = remove r.map id; idx_allocator = reclaim r.idx_allocator id }

reclaim_all-none :
    (r : Registry) (ids : List ℕ) (i : ℕ)
    → IsWellFormed r.map
    → lookup r.map i ≡ none
    → lookup (reclaim_all r ids).map i ≡ none
unfolding reclaim_all
reclaim_all-none r [] i w h = h
reclaim_all-none r (k ∷ ids) i w h =
    reclaim_all-none (reclaimed_one r k) ids i (remove-IsWellFormed r.map w k)
      (none_kept r.map k i w h)

reclaim_all-gone :
    (r : Registry) (ids : List ℕ) (i : ℕ)
    → IsWellFormed r.map
    → Memᴰ i ids
    → lookup (reclaim_all r ids).map i ≡ none
unfolding reclaim_all
reclaim_all-gone r [] i w h = elim h [ ]
reclaim_all-gone r (k ∷ ids) i w (Memᴰ.head e) =
    reclaim_all-none (reclaimed_one r k) ids i (remove-IsWellFormed r.map w k)
      (subst (λ x. lookup (remove r.map k) x ≡ none) (sym e) (remove-gone r.map k w))
reclaim_all-gone r (k ∷ ids) i w (Memᴰ.tail h) =
    reclaim_all-gone (reclaimed_one r k) ids i (remove-IsWellFormed r.map w k) h

reclaim_all-other :
    (r : Registry) (ids : List ℕ) (i : ℕ)
    → ¬ Memᴰ i ids
    → lookup (reclaim_all r ids).map i ≡ lookup r.map i
unfolding reclaim_all
reclaim_all-other r [] i h = refl
reclaim_all-other r (k ∷ ids) i h =
    reclaim_all-other (reclaimed_one r k) ids i (λ m. h (Memᴰ.tail m))
    ∙ lookup-remove_ne r.map k i (λ e. h (Memᴰ.head (sym e)))

reclaim_all-IsWellFormed :
    (r : Registry) (ids : List ℕ) → IsWellFormed r.map → IsWellFormed (reclaim_all r ids).map
unfolding reclaim_all
reclaim_all-IsWellFormed r [] w = w
reclaim_all-IsWellFormed r (k ∷ ids) w =
    reclaim_all-IsWellFormed (reclaimed_one r k) ids (remove-IsWellFormed r.map w k)

-- The map when the visit begins.
abbrev pub marked : Registry → Object → ObjectMap
marked r o = mark (unregister r.map o) o.id

length-mark : (m : ObjectMap) (c : ℕ) → length (mark m c) ≡ length m
unfolding mark
length-mark [] c = refl
length-mark ((j, o) ∷ m) c = ground (arith, length-mark m c)

-- The fuel that `remove_internal` gives is enough.
visit_done :
    (r : Registry) (o : Object)
    → (x : ObjectMap × List ℕ) × (visit (length (unregister r.map o) + 2) (marked r o) (o ∷ []) []
        ≡ some x)
visit_done r o =
    visit_ends (length (unregister r.map o) + 2) (marked r o) (o ∷ []) []
      (omega (arith, active_count-le (marked r o), length-mark (unregister r.map o) o.id))

-- The ids that removing `o` takes: its own and those of its active descendants.
pub IsTaken : Registry → Object → ℕ → Type 0
IsTaken r o i = (i ≡ o.id) ⊎ Below (marked r o) o i

pub IsTaken-self : (r : Registry) (o : Object) → IsTaken r o o.id
unfolding IsTaken
IsTaken-self r o = inl refl

-- An object without children is taken alone.
pub IsTaken-leaf : (r : Registry) (o : Object) (i : ℕ) → o.children ≡ [] → IsTaken r o i → i ≡ o.id
unfolding IsTaken
IsTaken-leaf r o i e (inl h) = h
IsTaken-leaf r o i e (inr b) = absurd (Below-leaf (marked r o) o i e b)

module _ (r : Registry) (o : Object) (m' : ObjectMap) (visited' : List ℕ) (w : IsWellFormed r.map)
    (v : Visited (marked r o) m' (o ∷ []) [] visited') where
  taken_visited : (i : ℕ) → IsTaken r o i → Memᴰ i visited'
  unfolding IsTaken
  taken_visited i (inl e) = subst (λ x. Memᴰ x visited') (sym e) (v.queued o (Memᴰ.head refl)).0
  taken_visited i (inr b) =
      Below-taken (marked r o) m' (o ∷ []) [] visited' o i v (v.queued o (Memᴰ.head refl)).1 b

  visited-IsTaken : (i : ℕ) → Memᴰ i visited' → IsTaken r o i
  unfolding IsTaken
  visited-IsTaken i h = elim (v.sound i h) [ inl n ↦ elim n [ ] | inr (p, q, b) ↦ of_only p q b ]
    where
      of_only :
          (p : Object)
          → Memᴰ p (o ∷ [])
          → (i ≡ p.id) ⊎ Below (marked r o) p i
          → (i ≡ o.id) ⊎ Below (marked r o) o i
      of_only p (Memᴰ.head e) b = subst (λ x. (i ≡ x.id) ⊎ Below (marked r o) x i) e b
      of_only p (Memᴰ.tail n) b = elim n [ ]

  marked-IsWellFormed : IsWellFormed (marked r o)
  marked-IsWellFormed =
      mark-IsWellFormed (unregister r.map o) (unregister-IsWellFormed r.map o w) o.id

  -- Whatever was not taken is as it was.
  untaken : (i : ℕ) → ¬ IsTaken r o i → lookup m' i ≡ lookup (marked r o) i
  untaken i n = elim (Bool-cases (active_at (marked r o) i)) [
    | inr x ↦ v.not_active i x
    | inl a ↦ elim (Bool-cases (active_at m' i)) [
      | inl a' ↦ v.still_active i a'
      | inr x' ↦ absurd (n (by_stored (lookup (marked r o) i) refl a x'))
    ]
  ]
    where
      by_stored :
          (l : Option Object)
          → lookup (marked r o) i ≡ l
          → active_at (marked r o) i ≡ true
          → active_at m' i ≡ false
          → IsTaken r o i
      by_stored none e a x = absurd (cc (e))
      by_stored (some p) e a x =
          subst (IsTaken r o) (stored-id (marked r o) marked-IsWellFormed i p e)
            (visited-IsTaken p.id (v.taken i p e (sym (active_at-some (marked r o) i p e) ∙ a) x).0)

finished : Registry → ObjectMap → List ℕ → Registry
finished r m' visited' = reclaim_all (record { map = m'; idx_allocator = r.idx_allocator }) visited'

remove_internal-finished :
    (r : Registry) (o : Object) (m' : ObjectMap) (visited' : List ℕ)
    → is_active o.status ≡ true
    → visit (length (unregister r.map o) + 2) (marked r o) (o ∷ []) [] ≡ some (m', visited')
    → remove_internal r o ≡ (finished r m' visited', ok tt)
unfolding remove_internal finish finished
remove_internal-finished r o m' visited' a e = rw (a, e)

remove_internal-inactive :
    (r : Registry) (o : Object)
    → is_active o.status ≡ false
    → (remove_internal r o).1 ≡ err object_destroyed
unfolding remove_internal
remove_internal-inactive r o a = rw a

-- `remove_internal` ends with a result: its visit does not run out of the fuel that the number of
-- objects gives. It succeeds if the object is active, and else says that it is destroyed.
pub remove_internal-ends :
    (r : Registry) (o : Object)
    → (remove_internal r o).1 ≡ (if is_active o.status then ok tt else err object_destroyed)
remove_internal-ends r o = elim (Bool-cases (is_active o.status)) [
  | inl a ↦
      let ((m', visited'), e) = visit_done r o in
      rw a (ap (λ x. x.1) (remove_internal-finished r o m' visited' a e))
  | inr n ↦ rw n (remove_internal-inactive r o n)
]

-- What removing an active object leaves.
pub record IsRemoval (r : Registry) (o : Object) (r' : Registry) : Type 0 where
  pub gone : (i : ℕ) → IsTaken r o i → lookup r'.map i ≡ none
  pub others : (i : ℕ) → ¬ IsTaken r o i → lookup r'.map i ≡ lookup (unregister r.map o) i
  pub kept : IsWellFormed r'.map

finished-IsRemoval :
    (r : Registry) (o : Object) (m' : ObjectMap) (visited' : List ℕ)
    → IsWellFormed r.map
    → visit (length (unregister r.map o) + 2) (marked r o) (o ∷ []) [] ≡ some (m', visited')
    → IsRemoval r o (finished r m' visited')
unfolding finished IsTaken
finished-IsRemoval r o m' visited' w e =
    let v = visit-Visited _ (marked r o) m' (o ∷ []) [] visited' e in
    let x : Registry = record { map = m'; idx_allocator = r.idx_allocator } in
    let w' =
      visit-IsWellFormed _ (marked r o) m' (o ∷ []) [] visited'
        (marked-IsWellFormed r o m' visited' w v) e in
    record {
      gone = λ i t. reclaim_all-gone x visited' i w' (taken_visited r o m' visited' w v i t);
      others = λ i n.
          reclaim_all-other x visited' i (λ h. n (visited-IsTaken r o m' visited' w v i h))
          ∙ untaken r o m' visited' w v i n
          ∙ mark_other (unregister r.map o) o.id i (not_own r o i n);
      kept = reclaim_all-IsWellFormed x visited' w';
    }
  where
    not_own : (r : Registry) (o : Object) (i : ℕ) → ¬ IsTaken r o i → (o.id == i) ≡ false
    not_own r o i n = elim (Bool-cases (o.id == i)) [
      | inl t ↦ absurd (n (inl (ground arith)))
      | inr f ↦ f
    ]

-- Removing an active object from a well-formed map takes the object and its active descendants out
-- of it, and leaves every other as it was once the parent had dropped its entry. The map is
-- well-formed again.
pub remove_internal-IsRemoval :
    (r : Registry) (o : Object)
    → IsWellFormed r.map
    → is_active o.status ≡ true
    → IsRemoval r o (remove_internal r o).0
remove_internal-IsRemoval r o w a =
    let ((m', visited'), e) = visit_done r o in
    subst (IsRemoval r o) (sym (ap (λ x. x.0) (remove_internal-finished r o m' visited' a e)))
      (finished-IsRemoval r o m' visited' w e)
