-- ===== src/Object/Registry.antt =====
-- `Registry` of library/object/src/registry.rs and the operations of an object that change it
-- (object/mod.rs), one after another. An id is a `usize`, so that the counter of ids wraps around.
pub mod ChildMap
pub mod Visit
pub mod Round
pub mod Below
pub mod Visited
pub mod WellFormed
pub mod Removal
pub mod Attenuate
pub mod Steps
pub mod Walk
pub mod Tree
pub mod Added
pub mod Locate
use akarin.Base.{
  ℕ, zero, suc, Bool, true, false, not, ◌&&◌, ◌||◌, Option, none, some, List, [], ◌∷◌, ◌++◌, length,
  ltb, ◌==◌, ◌+◌, ◌%◌, ◌^◌, if◌then◌else◌,
}
use akarin.Base.Bits.{Bits, bit, none_set, ◌∪◌, contains, equal}
use akarin.Base.OrdMap.{lookup, insert, remove}
use akarin.Memory.Control.{
  ObjectError, all_caps, object_destroyed, insufficient_capabilities, invalid_argument,
  object_not_found, dangerous_name, duplicate_child_name,
}
use akarin.Object.{
  Capability, send_cap, read_cap, write_cap, execute_cap, admin_cap, agent_cap, admin_grp, trusted,
  ObjectResult, ok, err, panic, ◌>>=◌, ◌>>◌, require, ok_or, Token, new_token, Object, ObjectStatus,
  active, destroying, is_active, Name,
}
use akarin.Object.Container.{derive_token}
use akarin.Object.Path.{ObjectPath, is_absolute, components}
use akarin.Object.Registry.ChildMap.{Children, same_name, child_get, child_insert, child_remove}

pub record IndexAllocator : Type 0 where
  pub next : ℕ
  pub reclaimed : List ℕ

allocate_from : ℕ → List ℕ → IndexAllocator × ℕ
allocate_from next [] = (record { next = (next + 1) % 2 ^ 64; reclaimed = [] }, next)
allocate_from next (i ∷ is) = (record { next = next; reclaimed = is }, i)

-- `allocate`
unfoldable pub allocate : IndexAllocator → IndexAllocator × ℕ
unfolding allocate_from
allocate a = allocate_from a.next a.reclaimed

unfoldable pub reclaim : IndexAllocator → ℕ → IndexAllocator
reclaim a index = record a { reclaimed = a.reclaimed ++ index ∷ [] }

abbrev pub ObjectMap : Type 0
ObjectMap = List (ℕ × Object)

pub record Registry : Type 0 where
  pub map : ObjectMap
  pub idx_allocator : IndexAllocator

-- `Registry::new`
abbrev pub new : Registry
new = record { map = []; idx_allocator = record { next = 1; reclaimed = [] } }

abbrev pub pre_root_token : Token
pre_root_token = record { id = none; capabilities = send_cap ∪ read_cap; interface_caps = none_set }

abbrev sticky : Bits
sticky = bit 0

-- The root object of `init_root`
abbrev pub root_object : Object
root_object = record {
  id = 0;
  parent = none;
  name = [];
  status = active;
  masked_caps = execute_cap ∪ admin_cap ∪ agent_cap;
  lifecycle_flags = sticky;
  public_interface_caps = none_set;
  children = [];
}

-- `init_root`: the registry and the root handle's token.
unfoldable pub init_root : Registry → Registry × ObjectResult Token
unfolding derive_token new_token
init_root r = elim (new_token none trusted all_caps >>= derive_token root_object) [
  | ok t ↦ (record r { map = insert r.map 0 root_object }, ok t)
  | err e ↦ (r, err e)
  | panic ↦ (r, panic)
]

-- `is_sticky`; flags that are not known read as none.
unfoldable pub is_sticky : Object → Bool
unfolding equal contains
is_sticky o = equal o.lifecycle_flags sticky

-- A store to the status of the object with an id
unfoldable pub mark : ObjectMap → ℕ → ObjectMap
mark [] id = []
mark ((j, o) ∷ m) id =
    if j == id then (j, record o { status = destroying }) ∷ m else (j, o) ∷ mark m id

-- A store to an object's children
unfoldable pub set_children : ObjectMap → ℕ → Children → ObjectMap
set_children [] id cs = []
set_children ((j, o) ∷ m) id cs =
    if j == id then (j, record o { children = cs }) ∷ m else (j, o) ∷ set_children m id cs

-- `compare_exchange` of one child's status: the map, and the child if it was active.
unfoldable pub mark_one : ObjectMap → ℕ → ObjectMap × List Object
unfolding mark
mark_one m c = elim (lookup m c) [
  | none ↦ (m, [])
  | some o ↦ if is_active o.status then (mark m c, o ∷ []) else (m, [])
]

-- The loop over the children of one object
unfoldable pub mark_children : ObjectMap → Children → ObjectMap × List Object
unfolding mark_one
mark_children m [] = (m, [])
mark_children m ((n, c) ∷ cs) =
    let (m', found) = mark_one m c in let (m'', rest) = mark_children m' cs in (m'', found ++ rest)

-- The layer visit, with fuel: the map, and the ids of the visited objects, the last one first.
unfoldable pub visit : ℕ → ObjectMap → List Object → List ℕ → Option (ObjectMap × List ℕ)
unfolding mark_children
visit zero m queue visited = none
visit (suc f) m [] visited = some (m, visited)
visit (suc f) m (o ∷ queue) visited =
    let (m', found) = mark_children m o.children in visit f m' (queue ++ found) (o.id ∷ visited)

-- The loop that reclaims the visited objects
unfoldable pub reclaim_all : Registry → List ℕ → Registry
unfolding reclaim
reclaim_all r [] = r
reclaim_all r (id ∷ ids) =
    reclaim_all (record { map = remove r.map id; idx_allocator = reclaim r.idx_allocator id }) ids

-- The parent's entry for the object is removed if it is the object's.
unfoldable pub unregister : ObjectMap → Object → ObjectMap
unfolding set_children
unregister m o = elim o.parent [
  | none ↦ m
  | some parent_id ↦ elim (lookup m parent_id) [
    | none ↦ m
    | some parent ↦ elim (child_get parent.children o.name) [
      | none ↦ m
      | some id ↦
          if id == o.id then set_children m parent_id (child_remove parent.children o.name) else m
    ]
  ]
]

-- What comes after the visit; its fuel is enough, so the last case does not occur.
unfoldable pub finish : Registry → Option (ObjectMap × List ℕ) → Registry × ObjectResult (Unit {0})
unfolding reclaim_all
finish r (some (m, visited)) = (reclaim_all (record r { map = m }) visited, ok tt)
finish r none = (r, panic)

-- `remove_internal`, on an object of the map
unfoldable pub remove_internal : Registry → Object → Registry × ObjectResult (Unit {0})
unfolding unregister mark visit finish
remove_internal r o =
    let m = unregister r.map o in
    if is_active o.status
    then finish (record r { map = m }) (visit (length m + 2) (mark m o.id) (o ∷ []) [])
    else (record r { map = m }, err object_destroyed)

-- `remove`, by a handle; `o` is what `upgrade` of its reference gives.
unfoldable pub remove_by :
    Registry → Token → Option Object → Bool → Registry × ObjectResult (Unit {0})
unfolding contains is_sticky remove_internal
remove_by r t o is_kernel =
    if not (contains t.capabilities admin_cap) then (r, err insufficient_capabilities) else elim o [
      | none ↦ (r, err object_destroyed)
      | some object ↦
          if not is_kernel && is_sticky object
          then (r, err invalid_argument)
          else remove_internal r object
    ]
