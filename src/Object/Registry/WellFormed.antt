-- ===== src/Object/Registry/WellFormed.antt =====
-- The registry's map: its keys ascend, and each is the id of its object. Every store keeps this.
use akarin.Base.{
  ℕ, zero, suc, Bool, true, ◌&&◌, none, some, List, [], ◌∷◌, ◌++◌, ◌==◌, ◌≡◌, ◌<◌, ◌≤◌, leb, refl,
  arith,
}
use akarin.Base.OrdMap.{lookup, insert, remove}
use akarin.Object.{Object}
use akarin.Object.Registry.{
  ObjectMap, mark, set_children, mark_one, mark_children, visit, unregister,
}
use akarin.Object.Registry.ChildMap.{Children}

-- The keys are at least `k`, ascend, and are the objects' ids.
unfoldable pub is_kept : ℕ → ObjectMap → Bool
is_kept k [] = true
is_kept k ((j, o) ∷ m) = leb k j && (o.id == j) && is_kept (suc j) m

pub record IsWellFormed (m : ObjectMap) : Type 0 where
  pub kept : is_kept 0 m ≡ true

is_kept_more : (k l : ℕ) (m : ObjectMap) → k ≤ l → is_kept l m ≡ true → is_kept k m ≡ true
unfolding is_kept
is_kept_more k l [] h e = refl
is_kept_more k l ((j, o) ∷ m) h e = ground arith

lookup_below : (k : ℕ) (m : ObjectMap) (i : ℕ) → is_kept k m ≡ true → i < k → lookup m i ≡ none
unfolding is_kept lookup
lookup_below k [] i h l = refl
lookup_below k ((j, o) ∷ m) i h l = ground (arith, lookup_below (suc j) m i)

lookup-id :
    (k : ℕ) (m : ObjectMap) (i : ℕ) (o : Object)
    → is_kept k m ≡ true
    → lookup m i ≡ some o
    → o.id ≡ i
unfolding is_kept lookup
lookup-id k [] i o h e = absurd (cc)
lookup-id k ((j, p) ∷ m) i o h e = ground (arith, lookup-id (suc j) m i o)

is_kept-mark : (k : ℕ) (m : ObjectMap) (c : ℕ) → is_kept k m ≡ true → is_kept k (mark m c) ≡ true
unfolding is_kept mark
is_kept-mark k [] c h = refl
is_kept-mark k ((j, p) ∷ m) c h = ground (arith, is_kept-mark (suc j) m c)

is_kept-set_children :
    (k : ℕ) (m : ObjectMap) (c : ℕ) (cs : Children)
    → is_kept k m ≡ true
    → is_kept k (set_children m c cs) ≡ true
unfolding is_kept set_children
is_kept-set_children k [] c cs h = refl
is_kept-set_children k ((j, p) ∷ m) c cs h = ground (arith, is_kept-set_children (suc j) m c cs)

is_kept-remove :
    (k : ℕ) (m : ObjectMap) (c : ℕ) → is_kept k m ≡ true → is_kept k (remove m c) ≡ true
unfolding is_kept remove
is_kept-remove k [] c h = refl
is_kept-remove k ((j, p) ∷ m) c h =
    ground (arith, is_kept-remove (suc j) m c, is_kept_more k (suc j) m)

lookup-remove_self :
    (k : ℕ) (m : ObjectMap) (i : ℕ) → is_kept k m ≡ true → lookup (remove m i) i ≡ none
unfolding is_kept lookup remove
lookup-remove_self k [] i h = refl
lookup-remove_self k ((j, o) ∷ m) i h =
    ground (arith, lookup-remove_self (suc j) m i, lookup_below (suc j) m i)

pub is_kept-insert :
    (k : ℕ) (m : ObjectMap) (o : Object)
    → k ≤ o.id
    → is_kept k m ≡ true
    → is_kept k (insert m o.id o) ≡ true
unfolding is_kept insert
is_kept-insert k [] o l h = ground arith
is_kept-insert k ((j, p) ∷ m) o l h = ground (arith, is_kept-insert (suc j) m o)

module _ (m : ObjectMap) (w : IsWellFormed m) where
  pub stored-id : (i : ℕ) (o : Object) → lookup m i ≡ some o → o.id ≡ i
  stored-id i o = lookup-id 0 m i o w.kept

  pub mark-IsWellFormed : (c : ℕ) → IsWellFormed (mark m c)
  mark-IsWellFormed c = record { kept = is_kept-mark 0 m c w.kept }

  pub set_children-IsWellFormed : (c : ℕ) (cs : Children) → IsWellFormed (set_children m c cs)
  set_children-IsWellFormed c cs = record { kept = is_kept-set_children 0 m c cs w.kept }

  pub remove-IsWellFormed : (c : ℕ) → IsWellFormed (remove m c)
  remove-IsWellFormed c = record { kept = is_kept-remove 0 m c w.kept }

pub unregister-IsWellFormed :
    (m : ObjectMap) (o : Object) → IsWellFormed m → IsWellFormed (unregister m o)
unfolding unregister
unregister-IsWellFormed m o w = record { kept = grind (arith, is_kept-set_children) }

mark_one-IsWellFormed : (m : ObjectMap) (c : ℕ) → IsWellFormed m → IsWellFormed (mark_one m c).0
unfolding mark_one
mark_one-IsWellFormed m c w = ground (arith, mark-IsWellFormed m w c)

mark_children-IsWellFormed :
    (m : ObjectMap) (cs : Children) → IsWellFormed m → IsWellFormed (mark_children m cs).0
unfolding mark_children
mark_children-IsWellFormed m [] w = w
mark_children-IsWellFormed m ((n, c) ∷ cs) w =
    mark_children-IsWellFormed (mark_one m c).0 cs (mark_one-IsWellFormed m c w)

pub visit-IsWellFormed :
    (f : ℕ) (m m' : ObjectMap) (queue : List Object) (visited visited' : List ℕ)
    → IsWellFormed m
    → visit f m queue visited ≡ some (m', visited')
    → IsWellFormed m'
unfolding visit
visit-IsWellFormed zero m m' queue visited visited' w h = absurd (cc)
visit-IsWellFormed (suc f) m m' [] visited visited' w h = ground arith
visit-IsWellFormed (suc f) m m' (o ∷ queue) visited visited' w h =
    visit-IsWellFormed f (mark_children m o.children).0 m' (queue ++ (mark_children m o.children).1)
      (o.id ∷ visited) visited' (mark_children-IsWellFormed m o.children w) h

pub remove-gone : (m : ObjectMap) (i : ℕ) → IsWellFormed m → lookup (remove m i) i ≡ none
remove-gone m i w = lookup-remove_self 0 m i w.kept
