-- ===== src/Object/Container.antt =====
-- `ObjectContainer` of library/object/src/object/container.rs: what a token must have for an
-- operation on an object, and the token that is derived on the way to a child.
use akarin.Base.{ℕ, Bool, true, ◌&&◌, Option, none, some, if◌then◌else◌}
use akarin.Base.Bits.{Bits, none_set, ◌∪◌, ◌∖◌, contains}
use akarin.Memory.Control.{all_caps, object_destroyed, insufficient_capabilities, invalid_argument}
use akarin.Object.{
  Capability, clone_cap, send_cap, read_cap, write_cap, execute_cap, admin_cap, agent_cap,
  admin_grp, ObjectResult, ok, ◌>>=◌, ◌>>◌, require, ok_or, Token, same_id, governs, new_token,
  Object, is_active,
}

-- Any id will do for a token that has none.
abbrev names : Option ℕ → ℕ → Bool
names none id = true
names (some i) id = same_id (some i) (some id)

unfoldable pub verify_capabilities : Object → Token → Capability → ObjectResult (Unit {0})
unfolding contains same_id
verify_capabilities o t required = do
  require (is_active o.status) object_destroyed
  require (names t.id o.id) invalid_argument
  require (contains t.capabilities required) insufficient_capabilities
  ok tt

-- The capabilities that are added where the mask takes ADMIN or AGENT from a parent that has one.
unfoldable pub append_caps : Capability → Capability → Capability
unfolding governs
append_caps masked parent =
    if governs masked && governs parent then clone_cap ∪ send_cap else none_set

unfoldable pub child_interface_caps : Object → Capability → Bits
unfolding governs
child_interface_caps o final_caps = if governs final_caps then all_caps else o.public_interface_caps

unfoldable pub derive_token : Object → Token → ObjectResult Token
derive_token o parent = do
  require (is_active o.status) object_destroyed
  require (same_id parent.id o.parent) invalid_argument
  require (contains parent.capabilities read_cap) insufficient_capabilities
  new_token (some o.id)
      (parent.capabilities ∖ o.masked_caps ∪ append_caps o.masked_caps parent.capabilities)
      (child_interface_caps o (parent.capabilities ∖ o.masked_caps))

pub data CpAccessMode : Type 0 where
  read write execute agent admin : CpAccessMode

unfoldable pub mode_cap : CpAccessMode → Capability
mode_cap read = read_cap
mode_cap write = write_cap
mode_cap execute = execute_cap
mode_cap agent = agent_cap
mode_cap admin = admin_cap

-- `cp_mode_allows`
unfoldable pub cp_mode_allows : CpAccessMode → Capability → ObjectResult (Unit {0})
unfolding contains mode_cap
cp_mode_allows mode caps = require (contains caps (mode_cap mode)) insufficient_capabilities

-- `read_with`, `write_with` and `admin_with`: the closure's result, from the object.
unfoldable pub read_with : {R : Type 0} → Object → Token → (Object → R) → ObjectResult R
unfolding verify_capabilities
read_with o t f = do verify_capabilities o t read_cap; ok (f o)

unfoldable pub write_with : {R : Type 0} → Object → Token → (Object → R) → ObjectResult R
unfolding verify_capabilities
write_with o t f = do verify_capabilities o t write_cap; ok (f o)

unfoldable pub admin_with : {R : Type 0} → Object → Token → (Object → R) → ObjectResult R
unfolding verify_capabilities
admin_with o t f = do verify_capabilities o t admin_grp; ok (f o)

-- The five `*_cp_with` of the modes. `payload` is what the object's payload is at the asked type,
-- and `f` runs on it and the interface rights that its guard is made with.
unfoldable pub cp_with :
    {O R : Type 0} → CpAccessMode → Object → Option O → Token → (O → Bits → R) → ObjectResult R
unfolding verify_capabilities mode_cap
cp_with mode o payload t f = do
  verify_capabilities o t (mode_cap mode)
  object ← ok_or payload invalid_argument
  ok (f object t.interface_caps)

-- `invoke_cp`; `dispatch` is the payload's.
unfoldable pub invoke_cp :
    {R : Type 0}
    → Object
    → Token
    → CpAccessMode
    → (CpAccessMode → Bits → ObjectResult R)
    → ObjectResult R
unfolding verify_capabilities cp_mode_allows
invoke_cp o t mode dispatch = do
  verify_capabilities o t t.capabilities
  cp_mode_allows mode t.capabilities
  dispatch mode t.interface_caps
