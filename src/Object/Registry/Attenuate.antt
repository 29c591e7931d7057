-- ===== src/Object/Registry/Attenuate.antt =====
-- The token of a child, and of the object that a path leads to, next to the token at the start.
use akarin.Base.{
  ℕ, Bool, true, false, not, ◌&&◌, ◌||◌, some, ◌≡◌, ◌≢◌, ◌≤◌, ◌<◌, if◌then◌else◌, inl, inr, refl,
  sym, ◌∙◌, subst, arith, Bool-cases,
}
use akarin.Base.Bits.{◌∪◌, ◌∖◌, equal, equal_iff, contains}
use akarin.Memory.Control.{
  ObjectError, all_caps, object_destroyed, insufficient_capabilities, invalid_argument,
}
use akarin.Object.{
  Capability, ok, panic, ◌>>◌, require, Token, same_id, governs, new_token, Object, is_active,
  read_cap,
}
use akarin.Object.Container.{derive_token, append_caps, child_interface_caps}
use akarin.Object.Derive.{require_then, governs-bits}
use akarin.Object.Permits.{IsSound}

-- The token `u` of the child `o`, made from the token `t`.
pub record IsChildToken (o : Object) (t u : Token) : Type 0 where
  pub names_child : u.id ≡ some o.id
  pub child_active : is_active o.status ≡ true
  pub names_parent : same_id t.id o.parent ≡ true
  pub had_read : contains t.capabilities read_cap ≡ true
  pub from_read_on :
      (k : ℕ) → 2 ≤ k → u.capabilities k ≡ (t.capabilities k && not (o.masked_caps k))
  pub clone_and_send :
      (k : ℕ)
      → k < 2
      → u.capabilities k ≡ (
          (t.capabilities k && not (o.masked_caps k))
          || ((o.masked_caps 5 || o.masked_caps 6) && (t.capabilities 5 || t.capabilities 6)))
  pub interface : u.interface_caps ≡ (
      if (t.capabilities 5 && not (o.masked_caps 5)) || (t.capabilities 6 && not (o.masked_caps 6))
      then all_caps
      else o.public_interface_caps)
  pub sound : IsSound u

pub append_caps_low : (m p : Capability) (k : ℕ) → 2 ≤ k → append_caps m p k ≡ false
unfolding append_caps
append_caps_low m p k h = elim (Bool-cases (governs m && governs p)) [
  | inl e ↦ rw e (ground arith)
  | inr e ↦ rw e
]

append_caps-bits :
    (m p : Capability) (k : ℕ) → k < 2 → append_caps m p k ≡ ((m 5 || m 6) && (p 5 || p 6))
unfolding append_caps
append_caps-bits m p k l =
    rw (governs-bits m, governs-bits p)
      (elim (Bool-cases ((m 5 || m 6) && (p 5 || p 6))) [
        | inl e ↦ rw e (ground arith)
        | inr e ↦ rw e
      ])

keeps_low :
    (o : Object) (t : Token) (k : ℕ)
    → 2 ≤ k
    → ((t.capabilities k && not (o.masked_caps k)) || append_caps o.masked_caps t.capabilities k)
      ≡ (t.capabilities k && not (o.masked_caps k))
keeps_low o t k l = rw (append_caps_low o.masked_caps t.capabilities k l) (or_false _)
  where
    or_false : (b : Bool) → (b || false) ≡ b
    or_false b = ground arith

interface-bits :
    (o : Object) (t : Token)
    → child_interface_caps o (t.capabilities ∖ o.masked_caps) ≡ (
        if (t.capabilities 5 && not (o.masked_caps 5))
          || (t.capabilities 6 && not (o.masked_caps 6))
        then all_caps
        else o.public_interface_caps)
unfolding child_interface_caps
interface-bits o t = rw (governs-bits (t.capabilities ∖ o.masked_caps))

-- What is added never governs.
governs-append :
    (o : Object) (t : Token)
    → governs (t.capabilities ∖ o.masked_caps ∪ append_caps o.masked_caps t.capabilities)
      ≡ governs (t.capabilities ∖ o.masked_caps)
governs-append o t =
    governs-bits (t.capabilities ∖ o.masked_caps ∪ append_caps o.masked_caps t.capabilities)
    ∙ rw
        (
          append_caps_low o.masked_caps t.capabilities 5 (omega arith),
          append_caps_low o.masked_caps t.capabilities 6 (omega arith),
        )
        (two _ _ ∙ sym (governs-bits (t.capabilities ∖ o.masked_caps)))
  where
    two : (a b : Bool) → ((a || false) || (b || false)) ≡ (a || b)
    two a b = ground arith

equal-all : equal all_caps all_caps ≡ true
equal-all = (equal_iff all_caps all_caps).1 (λ i l. refl)

child_interface_sound :
    (o : Object) (caps : Capability)
    → governs caps ≡ true
    → equal (child_interface_caps o caps) all_caps ≡ true
unfolding child_interface_caps
child_interface_sound o caps g = rw g equal-all

-- The token that `derive_token` makes once its tests have passed.
abbrev child_token : Object → Token → Token
child_token o t = record {
  id = some o.id;
  capabilities = t.capabilities ∖ o.masked_caps ∪ append_caps o.masked_caps t.capabilities;
  interface_caps = child_interface_caps o (t.capabilities ∖ o.masked_caps);
}

child_token-IsSound : (o : Object) (t : Token) → IsSound (child_token o t)
child_token-IsSound o t = record {
  unrestricted =
      λ g. child_interface_sound o (t.capabilities ∖ o.masked_caps) (sym (governs-append o t) ∙ g);
}

new_token_sound : (u : Token) → IsSound u → new_token u.id u.capabilities u.interface_caps ≡ ok u
unfolding new_token
new_token_sound u s = elim (Bool-cases (governs u.capabilities)) [
  | inl g ↦ rw (s.unrestricted g)
  | inr g ↦ rw g (ground arith)
]

derive_token-eq :
    (o : Object) (t : Token)
    → derive_token o t ≡ (
        require (is_active o.status) object_destroyed
        >> (require (same_id t.id o.parent) invalid_argument
            >> (require (contains t.capabilities read_cap) insufficient_capabilities
                >> ok (child_token o t))))
unfolding derive_token
derive_token-eq o t = rw (new_token_sound (child_token o t) (child_token-IsSound o t))

three_guards :
    (a b c : Bool) (e f g : ObjectError) (u : Token)
    → (require a e >> (require b f >> (require c g >> ok u))) ≢ panic
three_guards a b c e f g u h = ground arith

pub derive_token-IsChildToken :
    (o : Object) (t : Token)
    → (derive_token o t ≢ panic) × ((u : Token) → derive_token o t ≡ ok u → IsChildToken o t u)
derive_token-IsChildToken o t = rw (derive_token-eq o t) (
  three_guards (is_active o.status) (same_id t.id o.parent) (contains t.capabilities read_cap)
      object_destroyed invalid_argument insufficient_capabilities (child_token o t),
  λ u h.
      let (a, h1) = require_then _ _ _ u h in
      let (p, h2) = require_then _ _ _ u h1 in
      let (c, h3) = require_then _ _ _ u h2 in
      subst (IsChildToken o t) (inj h3) (record {
        names_child = refl;
        child_active = a;
        names_parent = p;
        had_read = c;
        from_read_on = keeps_low o t;
        clone_and_send = λ k l. rw (append_caps-bits o.masked_caps t.capabilities k l);
        interface = interface-bits o t;
        sound = child_token-IsSound o t;
      }),
)
  where
    inj : {a b : Token} → ok a ≡ ok b → a ≡ b
    inj e = cc
