-- ===== src/Object/Registry/Locate.antt =====
-- `locate_and_then` of library/object/src/registry.rs: the walk along a path, which derives a token
-- for each child that it enters.
use akarin.Base.{Bool, true, false, Option, none, some, List, [], ◌∷◌, if◌then◌else◌}
use akarin.Base.OrdMap.{lookup}
use akarin.Memory.Control.{invalid_argument, object_not_found}
use akarin.Object.{ObjectResult, ok, err, ◌>>=◌, ok_or, Token, same_id, new_token, Object, Name}
use akarin.Object.Container.{derive_token}
use akarin.Object.Path.{ObjectPath, is_absolute, components}
use akarin.Object.Registry.{Registry, pre_root_token}
use akarin.Object.Registry.ChildMap.{same_name, child_get}

-- The bytes of "self"
abbrev pub self_name : Name
self_name = 0x73 ∷ 0x65 ∷ 0x6C ∷ 0x66 ∷ []

unfoldable pub start_at : Registry → Option Token → Bool → ObjectResult Token
unfolding derive_token same_id
start_at r (some t) false = new_token t.id t.capabilities t.interface_caps
start_at r (some t) true =
    if same_id t.id (some 0)
    then new_token t.id t.capabilities t.interface_caps
    else err invalid_argument
start_at r none true =
    ok_or (lookup r.map 0) object_not_found >>= λ root. derive_token root pre_root_token
start_at r none false = err invalid_argument

-- The first token of the walk
unfoldable pub start_token : Registry → Option Token → ObjectPath → ObjectResult Token
unfolding start_at is_absolute
start_token r curr path = start_at r curr (is_absolute path)

-- The child of a name, of the object that the token names
unfoldable pub find_child : Registry → Name → Token → ObjectResult Object
unfolding child_get
find_child r name t = do
  current_id ← ok_or t.id invalid_argument
  current ← ok_or (lookup r.map current_id) object_not_found
  child_id ← ok_or (child_get current.children name) object_not_found
  ok_or (lookup r.map child_id) object_not_found

-- One component of the path
unfoldable pub enter : Registry → Name → Token → ObjectResult Token
unfolding same_name find_child
enter r name t =
    if same_name name self_name then ok t else find_child r name t >>= λ child. derive_token child t

unfoldable pub walk : Registry → List Name → Token → ObjectResult Token
unfolding enter
walk r [] t = ok t
walk r (name ∷ names) t = enter r name t >>= λ u. walk r names u

-- The end of the walk: the token of the handle that the closure gets, and the object that the
-- handle refers to
unfoldable pub located : Registry → Token → ObjectResult (Token × Object)
located r u = do
  final_id ← ok_or u.id invalid_argument
  o ← ok_or (lookup r.map final_id) object_not_found
  ok (u, o)

-- `locate_and_then`
unfoldable pub locate : Registry → Option Token → ObjectPath → ObjectResult (Token × Object)
unfolding start_token walk components located
locate r curr path = do t ← start_token r curr path; u ← walk r (components path) t; located r u
