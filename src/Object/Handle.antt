-- ===== src/Object/Handle.antt =====
-- `Handle` and `Permit` of library/object/src/object/handle.rs. `o` is what `upgrade` of the
-- handle's reference gives. A handle is its token: the registry and the reference are passed on as
-- they are by every operation here.
use akarin.Base.{Bool, true, false, not, ◌&&◌, ◌||◌, Option, none, some, if◌then◌else◌}
use akarin.Base.Bits.{Bits, none_set, ◌∪◌, ◌∩◌, contains, equal}
use akarin.Memory.Control.{all_caps, object_destroyed, insufficient_capabilities, invalid_argument}
use akarin.Object.{
  Capability, clone_cap, send_cap, read_cap, write_cap, execute_cap, admin_cap, agent_cap,
  ObjectResult, ok, err, ◌>>=◌, ◌>>◌, require, Token, same_id, governs, new_token, Object,
  is_active,
}

-- `is_valid`
unfoldable pub is_valid : Option Object → Bool
is_valid none = false
is_valid (some o) = is_active o.status

pub data PermitKind : Type 0 where
  one_shot permanent : PermitKind

pub record Permit : Type 0 where
  pub token : Token
  pub kind : PermitKind

abbrev is_one_shot : PermitKind → Bool
is_one_shot one_shot = true
is_one_shot permanent = false

abbrev kind_of : Bool → PermitKind
kind_of true = one_shot
kind_of false = permanent

unfoldable pub issue_permit : Option Object → Token → Capability → Bool → Bits → ObjectResult Permit
issue_permit o t wanted oneshot interface_caps = do
  require (is_valid o) object_destroyed
  require (governs t.capabilities) insufficient_capabilities
  require (not (governs wanted)) invalid_argument
  token ← new_token t.id wanted interface_caps
  ok (record { token = token; kind = kind_of oneshot })

-- `Permit::upgrade_oneshot`: the token that the closure's handle has.
unfoldable pub upgrade_oneshot : Permit → Option Object → Token → ObjectResult Token
upgrade_oneshot p o t = do
  require (is_one_shot p.kind) invalid_argument
  require (is_valid o) object_destroyed
  require (same_id p.token.id t.id) invalid_argument
  new_token t.id (t.capabilities ∪ p.token.capabilities) (t.interface_caps ∪ p.token.interface_caps)

-- `upgrade`: the handle's new token.
unfoldable pub upgrade : Permit → Option Object → Token → ObjectResult Token
upgrade p o t = do
  require (not (is_one_shot p.kind)) invalid_argument
  require (is_valid o) object_destroyed
  require (same_id p.token.id t.id) invalid_argument
  new_token t.id (t.capabilities ∪ p.token.capabilities) (t.interface_caps ∪ p.token.interface_caps)

abbrev agent_derivable : Capability
agent_derivable = clone_cap ∪ send_cap ∪ read_cap ∪ write_cap ∪ execute_cap

abbrev admin_derivable : Capability
admin_derivable = agent_derivable ∪ agent_cap

-- What a handle may derive: capabilities and interface rights.
pub record Derivable : Type 0 where
  pub caps : Capability
  pub interface_caps : Bits

unfoldable pub derivable : Token → ObjectResult Derivable
unfolding contains
derivable t =
    if contains t.capabilities admin_cap
    then ok (record { caps = admin_derivable; interface_caps = all_caps })
    else if contains t.capabilities agent_cap
    then ok (record { caps = agent_derivable; interface_caps = all_caps })
    else if contains t.capabilities clone_cap
    then ok (record { caps = t.capabilities; interface_caps = t.interface_caps })
    else err insufficient_capabilities

-- The three tests before the handle is made: derivable capabilities, interface rights only with
-- EXECUTE, and no interface rights beyond the effective ones.
unfoldable pub admits : Derivable → Token → Capability → Bits → Bool
admits d t wanted interface_caps =
    contains d.caps wanted
    && (equal interface_caps none_set || contains t.capabilities execute_cap)
    && equal (d.interface_caps ∩ interface_caps) interface_caps

unfoldable pub derive_handle : Option Object → Token → Capability → Bits → ObjectResult Token
derive_handle o t wanted interface_caps = do
  require (is_valid o) object_destroyed
  d ← derivable t
  require (admits d t wanted interface_caps) insufficient_capabilities
  new_token t.id wanted interface_caps

unfoldable pub acquire_ref : Option Object → Token → ObjectResult Token
unfolding is_valid
acquire_ref o t = do require (is_valid o) object_destroyed; ok t

unfoldable pub try_clone : Option Object → Token → ObjectResult Token
unfolding contains acquire_ref
try_clone o t = do
  require (contains t.capabilities clone_cap) insufficient_capabilities
  acquire_ref o t
