-- ===== src/Examples/Objects.antt =====
-- The theorems on objects, their handles and the registry at concrete inputs.
use akarin.Base.{
  ℕ, ◌≡◌, ◌≢◌, ◌↔◌, true, false, not, ◌&&◌, ◌||◌, none, some, [], ◌∷◌, ◌++◌, refl, if◌then◌else◌,
}
use akarin.Base.Bits.{none_set, ◌∪◌, contains, equal}
use akarin.Base.OrdMap.{lookup}
use akarin.Memory.Control.{all_caps, dangerous_name, duplicate_child_name, object_destroyed}
use akarin.Object.{
  clone_cap, read_cap, write_cap, admin_grp, ok, err, Token, Object, active, is_active, Name,
  governs, new_token,
}
use akarin.Object.Handle.{Permit, permanent, is_valid, derivable, admits, derive_handle}
use akarin.Object.Reach.{IsBelow, itself, derives, Reaches-IsBelow}
use akarin.Object.Path.{ObjectPath, slash, components, without_last, parent, join}
use akarin.Object.Path.Laws.{components-join-parent}
use akarin.Object.Registry.{Registry, allocate, root_object, remove_internal}
use akarin.Object.Registry.Removal.{IsRemoval, remove_internal-ends, remove_internal-IsRemoval}
use akarin.Object.Registry.WellFormed.{IsWellFormed, is_kept}
use akarin.Object.Registry.Tree.{owner_token, is_dangerous, add_child}
use akarin.Object.Registry.ChildMap.{child_get}
use akarin.Object.Registry.Added.{IsAdded, add_child-outcome}

abbrev name_a : Name
name_a = 0x61 ∷ []

abbrev name_b : Name
name_b = 0x62 ∷ []

-- The root with a child "a", which has a child "b" that masks WRITE.
abbrev root : Object
root = record root_object { children = (name_a, 1) ∷ [] }

abbrev object_a : Object
object_a = record {
  id = 1;
  parent = some 0;
  name = name_a;
  status = active;
  masked_caps = none_set;
  lifecycle_flags = none_set;
  public_interface_caps = none_set;
  children = (name_b, 2) ∷ [];
}

abbrev object_b : Object
object_b = record {
  id = 2;
  parent = some 1;
  name = name_b;
  status = active;
  masked_caps = write_cap;
  lifecycle_flags = none_set;
  public_interface_caps = none_set;
  children = [];
}

abbrev registry : Registry
registry = record {
  map = (0, root) ∷ (1, object_a) ∷ (2, object_b) ∷ [];
  idx_allocator = record { next = 3; reclaimed = [] };
}

registry-IsWellFormed : IsWellFormed registry.map
unfolding is_kept
registry-IsWellFormed = record { kept = refl }

-- A handle of "a" that may be cloned, read and written.
abbrev reader : Token
reader = record {
  id = some 1;
  capabilities = clone_cap ∪ read_cap ∪ write_cap;
  interface_caps = none_set;
}

abbrev read_only : Token
read_only = record { id = some 1; capabilities = read_cap; interface_caps = none_set }

reader_derives : derive_handle (some object_a) reader read_cap none_set ≡ ok read_only
unfolding derive_handle is_valid derivable admits new_token governs contains equal
reader_derives = refl

Reaches-IsBelow_example : IsBelow reader read_only
Reaches-IsBelow_example =
    Reaches-IsBelow reader read_only
      (derives (some object_a) read_cap none_set itself reader_derives)

abbrev owner : Token
owner = record { id = some 1; capabilities = admin_grp; interface_caps = all_caps }

abbrev write_permit : Permit
write_permit = record {
  token = record { id = some 1; capabilities = write_cap; interface_caps = none_set };
  kind = permanent;
}

abbrev path_a : ObjectPath
path_a = slash ∷ name_a

components-join-parent_example :
    (components (join path_a name_b) ≡ components path_a ++ components name_b)
    × ((parent path_a ≡ none) ↔ (components path_a ≡ []))
    × ((r : ObjectPath) → parent path_a ≡ some r → components r ≡ without_last (components path_a))
components-join-parent_example = components-join-parent path_a name_b

remove_internal-ends_example :
    (remove_internal registry object_a).1
    ≡ (if is_active object_a.status then ok tt else err object_destroyed)
remove_internal-ends_example = remove_internal-ends registry object_a

remove_internal-IsRemoval_example :
    IsRemoval registry object_a (remove_internal registry object_a).0
remove_internal-IsRemoval_example =
    remove_internal-IsRemoval registry object_a registry-IsWellFormed refl

-- What `reader` gets at "b": no WRITE.
abbrev reader_at_b : Token
reader_at_b = record {
  id = some 2;
  capabilities = λ k. (reader.capabilities k && not (write_cap k)) || none_set k;
  interface_caps = none_set;
}

abbrev name_c : Name
name_c = 0x63 ∷ []

add_child-outcome_example :
    (is_dangerous name_c ≡ true
      → add_child registry object_a name_c write_cap ≡ (registry, err dangerous_name))
    × (is_dangerous name_c ≡ false
        → child_get object_a.children name_c ≢ none
        → add_child registry object_a name_c write_cap ≡ (registry, err duplicate_child_name))
    × (is_dangerous name_c ≡ false
        → child_get object_a.children name_c ≡ none
        → is_active object_a.status ≡ true
        → ((add_child registry object_a name_c write_cap).1
            ≡ ok (owner_token (allocate registry.idx_allocator).1))
          × IsAdded registry object_a name_c write_cap
              (add_child registry object_a name_c write_cap).0)
    × (is_dangerous name_c ≡ false
        → child_get object_a.children name_c ≡ none
        → is_active object_a.status ≡ false
        → ((add_child registry object_a name_c write_cap).1 ≡ err object_destroyed)
          × ((i : ℕ)
              → lookup (add_child registry object_a name_c write_cap).0.map i
                ≡ lookup registry.map i)
          × IsWellFormed (add_child registry object_a name_c write_cap).0.map)
add_child-outcome_example =
    add_child-outcome registry object_a name_c write_cap registry-IsWellFormed stored_a fresh_id
  where
    stored_a : lookup registry.map 1 ≡ some object_a
    stored_a = unfold lookup in refl

    fresh_id : lookup registry.map (allocate registry.idx_allocator).1 ≡ none
    fresh_id = unfold lookup allocate in refl
