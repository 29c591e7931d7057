-- ===== src/Object/Registry/Added.antt =====
-- What adding a child leaves: the child, its entry in the parent, and all else as it was.
use akarin.Base.{
  ℕ, true, false, Option, none, some, [], ◌∷◌, ◌==◌, ◌≡◌, ◌≢◌, refl, sym, ap, subst, ◌∙◌, inl, inr,
  Bool-cases, ==_iff, false, arith, if◌then◌else◌,
}
use akarin.Base.Bits.{equal}
use akarin.Base.OrdMap.{lookup, insert, lookup-insert}
use akarin.Memory.Control.{all_caps, dangerous_name, duplicate_child_name, object_destroyed}
use akarin.Object.{Capability, admin_grp, ok, err, new_token, Object, is_active, Name}
use akarin.Object.Registry.{
  Registry, ObjectMap, allocate, set_children, unregister, remove_internal,
}
use akarin.Object.Registry.Removal.{
  IsTaken, IsTaken-leaf, IsTaken-self, IsRemoval, remove_internal-IsRemoval,
}
use akarin.Object.Registry.ChildMap.{Children, same_name, child_get, child_insert, child_remove}
use akarin.Object.Registry.Tree.{
  owner_token, insert_internal, is_dangerous, new_child, link_child, create_child, add_child,
}
use akarin.Object.Registry.WellFormed.{IsWellFormed, is_kept-insert, set_children-IsWellFormed}

same_name_refl : (n : Name) → same_name n n ≡ true
unfolding same_name
same_name_refl [] = refl
same_name_refl (c ∷ n) = ground (arith, same_name_refl n)

child_get-insert_self :
    (cs : Children) (name : Name) (id : ℕ)
    → child_get cs name ≡ none
    → child_get (child_insert cs name id) name ≡ some id
unfolding child_get child_insert
child_get-insert_self [] name id h = rw (same_name_refl name)
child_get-insert_self ((n, i) ∷ cs) name id h =
    ground (arith, same_name_refl name, child_get-insert_self cs name id)

child_get-insert_other :
    (cs : Children) (name q : Name) (id : ℕ)
    → same_name name q ≡ false
    → child_get (child_insert cs name id) q ≡ child_get cs q
unfolding child_get child_insert
child_get-insert_other [] name q id h = rw h
child_get-insert_other ((n, i) ∷ cs) name q id h =
    ground (arith, child_get-insert_other cs name q id)

child_remove-insert :
    (cs : Children) (name : Name) (id : ℕ)
    → child_get cs name ≡ none
    → child_remove (child_insert cs name id) name ≡ cs
unfolding child_get child_insert child_remove
child_remove-insert [] name id h = rw (same_name_refl name)
child_remove-insert ((n, i) ∷ cs) name id h =
    ground (arith, same_name_refl name, child_remove-insert cs name id)

unregister-entry :
    (m : ObjectMap) (c p : Object) (parent_id : ℕ)
    → c.parent ≡ some parent_id
    → lookup m parent_id ≡ some p
    → child_get p.children c.name ≡ some c.id
    → unregister m c ≡ set_children m parent_id (child_remove p.children c.name)
unfolding unregister
unregister-entry m c p parent_id e f g = ground arith

with_children : Children → Option Object → Option Object
with_children cs none = none
with_children cs (some o) = some (record o { children = cs })

lookup-set_children :
    (m : ObjectMap) (c q : ℕ) (cs : Children)
    → lookup (set_children m c cs) q
      ≡ (if c == q then with_children cs (lookup m q) else lookup m q)
unfolding lookup set_children with_children
lookup-set_children [] c q cs = ground arith
lookup-set_children ((j, o) ∷ m) c q cs = ground (arith, lookup-set_children m c q cs)

-- `o` has got the child `name` with the given mask.
pub record IsAdded (r : Registry) (o : Object) (name : Name) (mask : Capability) (r' : Registry)
    : Type 0 where
  pub id : ℕ
  pub child_stored : lookup r'.map id ≡ some (new_child o id name mask)
  pub parent_stored :
      lookup r'.map o.id ≡ some (record o { children = child_insert o.children name id })
  pub named : child_get (child_insert o.children name id) name ≡ some id
  pub others_named :
      (q : Name)
      → same_name name q ≡ false
      → child_get (child_insert o.children name id) q ≡ child_get o.children q
  pub others : (i : ℕ) → i ≢ id → i ≢ o.id → lookup r'.map i ≡ lookup r.map i
  pub kept : IsWellFormed r'.map

module _ (r : Registry) (o : Object) (name : Name) (mask : Capability) (w : IsWellFormed r.map)
    (stored : lookup r.map o.id ≡ some o)
    (fresh : lookup r.map (allocate r.idx_allocator).1 ≡ none) where
  abbrev id : ℕ
  id = (allocate r.idx_allocator).1

  abbrev cs : Children
  cs = child_insert o.children name id

  inserted : ObjectMap
  inserted = insert r.map id (new_child o id name mask)

  not_parent : (id == o.id) ≡ false
  not_parent = ground (arith, fresh, stored)

  lookup-inserted :
      (q : ℕ)
      → lookup inserted q ≡ (if id == q then some (new_child o id name mask) else lookup r.map q)
  unfolding inserted
  lookup-inserted q = lookup-insert r.map id (new_child o id name mask) q

  linked : ObjectMap
  linked = set_children inserted o.id cs

  linked-child : lookup linked id ≡ some (new_child o id name mask)
  unfolding linked
  linked-child =
      ground (arith, lookup-set_children inserted o.id id cs, lookup-inserted id, not_parent)

  linked-parent : lookup linked o.id ≡ some (record o { children = cs })
  unfolding linked with_children
  linked-parent =
      ground
        (arith, lookup-set_children inserted o.id o.id cs, lookup-inserted o.id, not_parent, stored)

  linked-other : (i : ℕ) → i ≢ id → i ≢ o.id → lookup linked i ≡ lookup r.map i
  unfolding linked
  linked-other i n m = ground (arith, lookup-set_children inserted o.id i cs, lookup-inserted i)

  linked-IsWellFormed : IsWellFormed linked
  unfolding linked inserted new_child
  linked-IsWellFormed =
      set_children-IsWellFormed inserted
        (record { kept = is_kept-insert 0 r.map (new_child o id name mask) (omega arith) w.kept })
        o.id cs

  -- The registry once the child is linked.
  added : Registry
  added = record { map = linked; idx_allocator = (allocate r.idx_allocator).0 }

  owner-new : new_token (some id) admin_grp all_caps ≡ ok (owner_token id)
  unfolding new_token equal
  owner-new = refl

  create_child-added :
      child_get o.children name ≡ none
      → is_active o.status ≡ true
      → create_child r o name mask ≡ (added, ok (owner_token id))
  unfolding create_child insert_internal new_child link_child added linked inserted
  create_child-added c a =
      rw (child_get-insert_self o.children name id c, owner-new) (ground (arith, a))

  added-IsAdded : child_get o.children name ≡ none → IsAdded r o name mask added
  unfolding added
  added-IsAdded c = record {
    id = id;
    child_stored = linked-child;
    parent_stored = linked-parent;
    named = child_get-insert_self o.children name id c;
    others_named = λ q n. child_get-insert_other o.children name q id n;
    others = linked-other;
    kept = linked-IsWellFormed;
  }

  -- The rollback: the child is removed again, and its entry with it.
  linked_registry : Registry
  linked_registry = record { map = linked; idx_allocator = (allocate r.idx_allocator).0 }

  child : Object
  child = new_child o id name mask

  rolled_back : Registry
  rolled_back = (remove_internal linked_registry child).0

  create_child-inactive :
      child_get o.children name ≡ none
      → is_active o.status ≡ false
      → create_child r o name mask ≡ (rolled_back, err object_destroyed)
  unfolding create_child insert_internal new_child link_child rolled_back linked_registry child
      linked inserted
  create_child-inactive c a =
      rw (child_get-insert_self o.children name id c, owner-new) (ground (arith, a))

  unregistered :
      child_get o.children name ≡ none
      → unregister linked child ≡ set_children linked o.id (child_remove cs name)
  unfolding child new_child
  unregistered c =
      unregister-entry linked child (record o { children = cs }) o.id refl linked-parent
        (child_get-insert_self o.children name id c)

  same_children :
      (child_get o.children name ≡ none)
      → some (record o { children = child_remove cs name }) ≡ some o
  same_children c =
      ap (λ x. some (record o { children = x })) (child_remove-insert o.children name id c)

  lookup-unregistered :
      (c : child_get o.children name ≡ none) (i : ℕ)
      → i ≢ id
      → lookup (unregister linked child) i ≡ lookup r.map i
  unfolding with_children
  lookup-unregistered c i n = elim (Bool-cases (o.id == i)) [
    | inl e ↦ rw (unregistered c) (
        lookup-set_children linked o.id i (child_remove cs name)
        ∙ rw e (at_parent ((==_iff o.id i).0 e)))
    | inr e ↦ rw (unregistered c) (
        lookup-set_children linked o.id i (child_remove cs name)
        ∙ rw e (linked-other i n (λ q. ground arith)))
  ]
    where
      at_parent : o.id ≡ i → with_children (child_remove cs name) (lookup linked i) ≡ lookup r.map i
      at_parent e =
          subst (λ j. with_children (child_remove cs name) (lookup linked j) ≡ lookup r.map j) e
            (rw (linked-parent, stored) (same_children c))

  only_child : (i : ℕ) → i ≢ id → ¬ IsTaken linked_registry child i
  unfolding child new_child
  only_child i n t = n (IsTaken-leaf linked_registry child i refl t)

  rolled_back-IsRemoval : IsRemoval linked_registry child rolled_back
  unfolding rolled_back linked_registry child new_child
  rolled_back-IsRemoval = remove_internal-IsRemoval linked_registry child linked-IsWellFormed refl

  rolled_back-map :
      child_get o.children name ≡ none → (i : ℕ) → lookup rolled_back.map i ≡ lookup r.map i
  unfolding child new_child linked_registry
  rolled_back-map c i = elim (Bool-cases (i == id)) [
    | inl e ↦
        rw ((==_iff i id).0 e)
          (rolled_back-IsRemoval.gone id (IsTaken-self linked_registry child) ∙ sym fresh)
    | inr e ↦
        let n : i ≢ id = λ q. ground arith in
        rolled_back-IsRemoval.others i (only_child i n) ∙ lookup-unregistered c i n
  ]

  -- Adding a child to an object of a well-formed map, with an id that the map does not have: a
  -- dangerous name and a name that is taken are refused and change nothing. Else, if the object is
  -- active, the owner's token comes back, and the registry has the child, the parent's entry for
  -- it, all other objects and entries as before, and a well-formed map. If it is not active, the call
  -- says that it is destroyed, and each id has again what it had before, in a well-formed map.
  pub add_child-outcome :
      (is_dangerous name ≡ true → add_child r o name mask ≡ (r, err dangerous_name))
      × (is_dangerous name ≡ false
          → child_get o.children name ≢ none
          → add_child r o name mask ≡ (r, err duplicate_child_name))
      × (is_dangerous name ≡ false
          → child_get o.children name ≡ none
          → is_active o.status ≡ true
          → ((add_child r o name mask).1 ≡ ok (owner_token id))
            × IsAdded r o name mask (add_child r o name mask).0)
      × (is_dangerous name ≡ false
          → child_get o.children name ≡ none
          → is_active o.status ≡ false
          → ((add_child r o name mask).1 ≡ err object_destroyed)
            × ((i : ℕ) → lookup (add_child r o name mask).0.map i ≡ lookup r.map i)
            × IsWellFormed (add_child r o name mask).0.map)
  unfolding add_child
  add_child-outcome = (
    λ d. rw d,
    λ d n. ground (arith, n),
    λ d c a. rw (d, c) (rw (create_child-added c a) (refl, added-IsAdded c)),
    λ d c a.
        rw (d, c)
          (rw (create_child-inactive c a) (refl, rolled_back-map c, rolled_back-IsRemoval.kept)),
  )
