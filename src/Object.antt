-- ===== src/Object.antt =====
-- The objects of library/object/src/object (cap.rs, mod.rs): capabilities, the token that a handle
-- carries, and an object's record. An `Arc` that is shared is the object's value; whether a `Weak`
-- can be upgraded is an `Option`. The payload is not here: its type is a parameter of the source.
pub mod Handle
pub mod Container
pub mod Path
pub mod Registry
pub mod Derive
pub mod Reach
pub mod Permits
use akarin.Base.{
  ℕ, Bool, true, false, not, ◌&&◌, ◌||◌, Option, none, some, List, [], ◌∷◌, ◌==◌, if◌then◌else◌,
}
use akarin.Base.Bits.{Bits, bit, none_set, ◌∪◌, ◌∩◌, ◌∖◌, contains, equal}
use akarin.Memory.Control.{ObjectError, all_caps}

abbrev pub Capability : Type 0
Capability = Bits

abbrev pub clone_cap : Capability
clone_cap = bit 0

abbrev pub send_cap : Capability
send_cap = bit 1

abbrev pub read_cap : Capability
read_cap = bit 2

abbrev pub write_cap : Capability
write_cap = bit 3

abbrev pub execute_cap : Capability
execute_cap = bit 4

abbrev pub admin_cap : Capability
admin_cap = bit 5

abbrev pub agent_cap : Capability
agent_cap = bit 6

abbrev pub admin_grp : Capability
admin_grp = admin_cap ∪ read_cap ∪ write_cap ∪ execute_cap ∪ agent_cap

-- `TRUSTED`
abbrev pub trusted : Capability
trusted = all_caps

-- `Result<A, ObjectError>`, or a panic.
pub data ObjectResult (A : Type 0) : Type 0 where
  ok : A → ObjectResult A
  err : ObjectError → ObjectResult A
  panic : ObjectResult A

infixl 5 ◌>>=◌ ◌>>◌
abbrev pub ◌>>=◌ : {A B : Type 0} → ObjectResult A → (A → ObjectResult B) → ObjectResult B
ok a >>= f = f a
err e >>= f = err e
panic >>= f = panic

abbrev pub ◌>>◌ : {B : Type 0} → ObjectResult (Unit {0}) → ObjectResult B → ObjectResult B
m >> k = m >>= λ _. k

-- An early `return Err(e)` unless the test holds
abbrev pub require : Bool → ObjectError → ObjectResult (Unit {0})
require true e = ok tt
require false e = err e

-- `ok_or`
abbrev pub ok_or : {A : Type 0} → Option A → ObjectError → ObjectResult A
ok_or none e = err e
ok_or (some a) e = ok a

pub record Token : Type 0 where
  pub id : Option ℕ
  pub capabilities : Capability
  pub interface_caps : Bits

unfoldable pub same_id : Option ℕ → Option ℕ → Bool
same_id none none = true
same_id none (some j) = false
same_id (some i) none = false
same_id (some i) (some j) = i == j

-- `contains(ADMIN) || contains(AGENT)`
unfoldable pub governs : Capability → Bool
unfolding contains
governs caps = contains caps admin_cap || contains caps agent_cap

-- `Token::new`, which panics on a restricted token that governs.
unfoldable pub new_token : Option ℕ → Capability → Bits → ObjectResult Token
new_token id caps interface_caps =
    if not (equal interface_caps all_caps) && governs caps
    then panic
    else ok (record { id = id; capabilities = caps; interface_caps = interface_caps })

-- `downgrade`
unfoldable pub downgrade : Token → Capability → Bits → Token
downgrade t caps interface_caps = record t {
  capabilities = t.capabilities ∖ caps;
  interface_caps = t.interface_caps ∖ interface_caps;
}

pub data ObjectStatus : Type 0 where
  active destroying : ObjectStatus

abbrev pub is_active : ObjectStatus → Bool
is_active active = true
is_active destroying = false

abbrev pub Name : Type 0
Name = List ℕ

-- `Object`, its `children` in the order of their names.
pub record Object : Type 0 where
  pub id : ℕ
  pub parent : Option ℕ
  pub name : Name
  pub status : ObjectStatus
  pub masked_caps : Capability
  pub lifecycle_flags : Bits
  pub public_interface_caps : Bits
  pub children : List (Name × ℕ)
