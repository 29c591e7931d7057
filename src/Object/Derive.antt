-- ===== src/Object/Derive.antt =====
-- What a derived handle can be, and that redeeming a permit does not panic.
use akarin.Base.{
  ℕ, ◌<◌, ◌≡◌, inl, inr, Bool, true, false, ◌&&◌, ◌||◌, Option, Bool-cases, &&-eq_true, arith, refl,
  subst,
}
use akarin.Base.Bits.{Bits, none_set, ◌∩◌, contains, equal, contains_iff, equal_iff}
use akarin.Memory.Control.{ObjectError}
use akarin.Object.{
  Capability, ObjectResult, ok, err, panic, require, ◌>>=◌, ◌>>◌, Token, governs, new_token, Object,
  admin_cap, agent_cap, execute_cap,
}
use akarin.Object.Handle.{Derivable, is_valid, derivable, admits, derive_handle}

pub contains-admin : (a : Capability) → contains a admin_cap ≡ a 5
unfolding contains
contains-admin a = ground arith

pub contains-agent : (a : Capability) → contains a agent_cap ≡ a 6
unfolding contains
contains-agent a = ground arith

contains-execute : (a : Capability) → contains a execute_cap ≡ a 4
unfolding contains
contains-execute a = ground arith

false-ne-true : (b : Bool) → b ≡ false → b ≡ true → ⊥
false-ne-true b p q = cc

pub governs-bits : (a : Capability) → governs a ≡ (a 5 || a 6)
unfolding governs
governs-bits a = rw (contains-admin a, contains-agent a)

-- A token that `Token::new` makes has the parts it was given.
pub new_token-parts :
    (id : Option ℕ) (caps : Capability) (i : Bits) (r : Token)
    → new_token id caps i ≡ ok r
    → r ≡ record { id = id; capabilities = caps; interface_caps = i }
unfolding new_token
new_token-parts id caps i r h = ground arith

pub require_then :
    (b : Bool) (e : ObjectError) (k : ObjectResult Token) (r : Token)
    → (require b e >> k) ≡ ok r
    → (b ≡ true) × (k ≡ ok r)
require_then true e k r h = (refl, h)
require_then false e k r h = absurd (cc)

derivable_then :
    (m : ObjectResult Derivable) (f : Derivable → ObjectResult Token) (r : Token)
    → (m >>= f) ≡ ok r
    → (d : Derivable) × (m ≡ ok d) × (f d ≡ ok r)
derivable_then (ok d) f r h = (d, refl, h)
derivable_then (err e) f r h = absurd (cc)
derivable_then panic f r h = absurd (cc)

-- What a handle may derive, by the bits of its own capabilities.
derivable_bits :
    (t : Token) (d : Derivable)
    → derivable t ≡ ok d
    → (d.caps 5 ≡ false)
      × (d.caps 6 ≡ true → t.capabilities 5 ≡ true)
      × (governs t.capabilities ≡ false
          → (d.caps ≡ t.capabilities) × (d.interface_caps ≡ t.interface_caps))
unfolding derivable governs
derivable_bits t d h = (
  ground (arith, contains-admin t.capabilities),
  ground (arith, contains-admin t.capabilities, contains-agent t.capabilities),
  λ g. (ground arith, ground arith),
)

subset_of : (a i : Bits) → equal (a ∩ i) i ≡ true → (k : ℕ) → k < 32 → i k ≡ true → a k ≡ true
subset_of a i h k l e = ground (arith, (equal_iff (a ∩ i) i).0 h k l)

-- What a derived handle's token `r` has, next to the token `t` that it comes from.
pub record IsDerived (t r : Token) : Type 0 where
  pub same : r.id ≡ t.id
  pub no_admin : r.capabilities 5 ≡ false
  pub agent_from_admin : r.capabilities 6 ≡ true → t.capabilities 5 ≡ true
  pub caps_within :
      governs t.capabilities ≡ false
      → (k : ℕ) → k < 32
      → r.capabilities k ≡ true
      → t.capabilities k ≡ true
  pub interface_within :
      governs t.capabilities ≡ false
      → (k : ℕ) → k < 32
      → r.interface_caps k ≡ true
      → t.interface_caps k ≡ true
  pub interface_needs_execute :
      (k : ℕ) → k < 32 → r.interface_caps k ≡ true → t.capabilities 4 ≡ true

-- The tests of `admits`, read.
record Admitted (d : Derivable) (t : Token) (wanted : Capability) (i : Bits) : Type 0 where
  caps_in : (k : ℕ) → k < 32 → wanted k ≡ true → d.caps k ≡ true
  interface_in : (k : ℕ) → k < 32 → i k ≡ true → d.interface_caps k ≡ true
  execute_had : (k : ℕ) → k < 32 → i k ≡ true → t.capabilities 4 ≡ true

none_or :
    (a : Capability) (i : Bits)
    → (equal i none_set || contains a execute_cap) ≡ true
    → (k : ℕ) → k < 32
    → i k ≡ true
    → a 4 ≡ true
none_or a i h k l e = elim (Bool-cases (equal i none_set)) [
  | inl n ↦ absurd (false-ne-true (i k) ((equal_iff i none_set).0 n k l) e)
  | inr n ↦ ground (arith, contains-execute a)
]

admits-Admitted :
    (d : Derivable) (t : Token) (wanted : Capability) (i : Bits)
    → admits d t wanted i ≡ true
    → Admitted d t wanted i
unfolding admits
admits-Admitted d t wanted i h =
    let n : Bool = equal i none_set || contains t.capabilities execute_cap in
    let m : Bool = equal (d.interface_caps ∩ i) i in
    let (r, y) = &&-eq_true (contains d.caps wanted && n) m h in
    let (c, x) = &&-eq_true (contains d.caps wanted) n r in
    record {
      caps_in = (contains_iff d.caps wanted).0 c;
      interface_in = subset_of d.interface_caps i y;
      execute_had = none_or t.capabilities i x;
    }

ap_at : {a b : Bits} → a ≡ b → (k : ℕ) → a k ≡ true → b k ≡ true
ap_at e k h = subst (λ c. c k ≡ true) e h

IsDerived-of_parts :
    (t : Token) (d : Derivable) (wanted : Capability) (i : Bits) (r : Token)
    → derivable t ≡ ok d
    → Admitted d t wanted i
    → r ≡ record { id = t.id; capabilities = wanted; interface_caps = i }
    → IsDerived t r
IsDerived-of_parts t d wanted i r e w p =
    let (adm, agt, own) = derivable_bits t d e in
    rw p (record {
      same = refl;
      no_admin = ground (arith, w.caps_in 5 (omega arith));
      agent_from_admin = ground (arith, w.caps_in 6 (omega arith));
      caps_within = λ g k l x. ap_at (own g).0 k (w.caps_in k l x);
      interface_within = λ g k l x. ap_at (own g).1 k (w.interface_in k l x);
      interface_needs_execute = w.execute_had;
    })

-- A derived handle never has ADMIN, and has AGENT only if it comes from a handle with ADMIN. If its
-- source has neither, it has no capability and no interface right that the source has not. It has
-- an interface right only if the source has EXECUTE.
pub derive_handle-IsDerived :
    (o : Option Object) (t : Token) (wanted : Capability) (i : Bits) (r : Token)
    → derive_handle o t wanted i ≡ ok r
    → (is_valid o ≡ true) × IsDerived t r
unfolding derive_handle
derive_handle-IsDerived o t wanted i r h =
    let (v, h1) = require_then _ _ _ r h in
    let (d, e, h2) = derivable_then _ _ r h1 in
    let (a, h3) = require_then _ _ _ r h2 in
    let p = new_token-parts _ _ _ r h3 in
    (v, IsDerived-of_parts t d wanted i r e (admits-Admitted d t wanted i a) p)
