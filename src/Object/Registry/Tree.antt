-- ===== src/Object/Registry/Tree.antt =====
-- The operations that change the object tree: `insert_internal` of registry.rs, and `add_child` and
-- the two `remove_child` of object/mod.rs. Each runs to its end before another begins. `o` is the
-- object that the operation is called on, as the map has it.
use akarin.Base.{ℕ, Bool, true, false, not, ◌&&◌, Option, none, some, [], ◌∷◌, ◌==◌, if◌then◌else◌}
use akarin.Base.Bits.{none_set, contains}
use akarin.Base.OrdMap.{lookup, insert}
use akarin.Memory.Control.{
  all_caps, object_destroyed, insufficient_capabilities, invalid_argument, object_not_found,
  dangerous_name, duplicate_child_name,
}
use akarin.Object.{
  Capability, write_cap, admin_grp, ObjectResult, ok, err, panic, Token, new_token, Object, active,
  is_active, Name,
}
use akarin.Object.Registry.{Registry, allocate, is_sticky, set_children, remove_internal}
use akarin.Object.Registry.ChildMap.{same_name, child_get, child_insert, child_remove}
use akarin.Object.Registry.Locate.{self_name}

-- `insert_internal`: the registry and the owner's token
unfoldable pub insert_internal : Registry → Object → Registry × ObjectResult Token
unfolding new_token
insert_internal r o =
    (record r { map = insert r.map o.id o }, new_token (some o.id) admin_grp all_caps)

unfoldable pub is_dangerous : Name → Bool
unfolding same_name
is_dangerous [] = true
is_dangerous (c ∷ name) = same_name (c ∷ name) self_name

-- The owner's token
abbrev pub owner_token : ℕ → Token
owner_token id = record { id = some id; capabilities = admin_grp; interface_caps = all_caps }

-- The object that `add_child` makes
unfoldable pub new_child : Object → ℕ → Name → Capability → Object
new_child o id name masked_caps = record {
  id = id;
  parent = some o.id;
  name = name;
  status = active;
  masked_caps = masked_caps;
  lifecycle_flags = none_set;
  public_interface_caps = none_set;
  children = [];
}

-- Whether the entry that `compare_insert` hands back is the one to insert
abbrev is_entry : Option ℕ → ℕ → Bool
is_entry none id = false
is_entry (some i) id = i == id

-- What the operation does once the child is in the registry: the parent's entry, and the two
-- roll-backs.
unfoldable pub link_child :
    Registry → Object → Object → ObjectResult Token → Registry × ObjectResult Token
unfolding child_get child_insert set_children remove_internal
link_child r o child token =
    let cs = child_insert o.children child.name child.id in
    let linked = record r { map = set_children r.map o.id cs } in
    if not (is_entry (child_get cs child.name) child.id)
    then ((remove_internal linked child).0, err duplicate_child_name)
    else if not (is_active o.status)
    then ((remove_internal linked child).0, err object_destroyed)
    else (linked, token)

-- `add_child` after the tests on the name
unfoldable pub create_child : Registry → Object → Name → Capability → Registry × ObjectResult Token
unfolding allocate new_child insert_internal link_child
create_child r o name masked_caps =
    let (allocator, id) = allocate r.idx_allocator in
    let child = new_child o id name masked_caps in
    let (r', token) = insert_internal (record r { idx_allocator = allocator }) child in
    link_child r' o child token

unfoldable pub add_child : Registry → Object → Name → Capability → Registry × ObjectResult Token
unfolding is_dangerous child_get create_child
add_child r o name masked_caps =
    if is_dangerous name then (r, err dangerous_name) else elim (child_get o.children name) [
      | some id ↦ (r, err duplicate_child_name)
      | none ↦ create_child r o name masked_caps
    ]

-- The id that a removal hands back
or_id : ℕ → Registry × ObjectResult (Unit {0}) → Registry × ObjectResult ℕ
or_id id (r, ok u) = (r, ok id)
or_id id (r, err e) = (r, err e)
or_id id (r, panic) = (r, panic)

-- `WriteOperation::remove_child`
unfoldable pub remove_child : Registry → Object → Name → Bool → Registry × ObjectResult ℕ
unfolding is_sticky child_get contains child_remove set_children remove_internal or_id
remove_child r o name is_kernel =
    if not is_kernel && is_sticky o
    then (r, err invalid_argument)
    else elim (child_get o.children name) [
      | none ↦ (r, err object_not_found)
      | some child_id ↦ elim (lookup r.map child_id) [
        | none ↦ (r, err object_not_found)
        | some child ↦
            if contains child.masked_caps write_cap
            then (r, err insufficient_capabilities)
            else or_id child_id (
                remove_internal
                  (record r { map = set_children r.map o.id (child_remove o.children name) }) child)
      ]
    ]

-- `AdminOperation::remove_child`
unfoldable pub admin_remove_child : Registry → Object → Name → Bool → Registry × ObjectResult ℕ
unfolding is_sticky child_get child_remove set_children remove_internal or_id
admin_remove_child r o name is_kernel =
    if is_kernel && is_sticky o
    then (r, err invalid_argument)
    else elim (child_get o.children name) [
      | none ↦ (r, err object_not_found)
      | some child_id ↦
          let r' = record r { map = set_children r.map o.id (child_remove o.children name) } in
          elim (lookup r'.map child_id) [
            | none ↦ (r', err object_not_found)
            | some child ↦ or_id child_id (remove_internal r' child)
          ]
    ]
