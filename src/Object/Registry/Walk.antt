-- ===== src/Object/Registry/Walk.antt =====
-- The handle that a path leads to.
use akarin.Base.{ℕ, true, false, Option, none, some, ◌≡◌, ◌≤◌, ◌||◌}
use akarin.Base.OrdMap.{lookup}
use akarin.Object.{Capability, ok, Token, Object}
use akarin.Object.Path.{ObjectPath, components}
use akarin.Object.Registry.{Registry, pre_root_token}
use akarin.Object.Registry.Locate.{start_token}
use akarin.Object.Registry.Steps.{Passes}

-- The capabilities that a walk starts with: the handle's, or SEND and READ at the root.
pub start_caps : Option Token → Capability
start_caps none = pre_root_token.capabilities
start_caps (some t) = t.capabilities

-- What `locate` hands to its closure.
pub record IsLocated (r : Registry) (curr : Option Token) (path : ObjectPath) (u : Token)
    (o : Object) : Type 0 where
  pub index : ℕ
  pub names_object : u.id ≡ some index
  pub stored : lookup r.map index ≡ some o
  pub within : (k : ℕ) → 2 ≤ k → u.capabilities k ≡ true → start_caps curr k ≡ true
  pub powerless :
      (start_caps curr 5 || start_caps curr 6) ≡ false
      → (k : ℕ) → u.capabilities k ≡ true
      → start_caps curr k ≡ true
  pub unmasked :
      (t : Token) (p : Object) (k : ℕ)
      → start_token r curr path ≡ ok t
      → Passes r (components path) t p
      → 2 ≤ k
      → p.masked_caps k ≡ true
      → u.capabilities k ≡ false
