-- ===== src/Object/Reach.antt =====
-- What a chain of operations on handles can reach, and the tokens that `Token::new` accepts.
use akarin.Base.{
  ℕ, ◌<◌, ◌≡◌, Bool, true, false, not, ◌&&◌, ◌||◌, Option, refl, subst, sym, ◌∙◌, arith,
}
use akarin.Base.Bits.{Bits}
use akarin.Object.{Capability, ok, Token, governs, Object, downgrade}
use akarin.Object.Handle.{derive_handle, acquire_ref, try_clone}
use akarin.Object.Derive.{IsDerived, derive_handle-IsDerived, governs-bits}

-- The handles that a holder of `t` gets without a permit: derived ones, references, clones and
-- downgraded ones, from `t` and from one another. Each step meets the object as it is then.
pub data Reaches (t : Token) : Token → Type 0 where
  itself : Reaches t t
  derives :
      {u r : Token} (o : Option Object) (caps : Capability) (i : Bits)
      → Reaches t u
      → derive_handle o u caps i ≡ ok r
      → Reaches t r
  refers : {u r : Token} (o : Option Object) → Reaches t u → acquire_ref o u ≡ ok r → Reaches t r
  clones : {u r : Token} (o : Option Object) → Reaches t u → try_clone o u ≡ ok r → Reaches t r
  lowers :
      {u r : Token} (caps : Capability) (i : Bits)
      → Reaches t u
      → r ≡ downgrade u caps i
      → Reaches t r

-- `r` has nothing that `t` could not give away.
pub record IsBelow (t r : Token) : Type 0 where
  pub same : r.id ≡ t.id
  pub admin : r.capabilities 5 ≡ true → t.capabilities 5 ≡ true
  pub agent : r.capabilities 6 ≡ true → (t.capabilities 5 || t.capabilities 6) ≡ true
  pub caps_within :
      (t.capabilities 5 || t.capabilities 6) ≡ false
      → (k : ℕ) → k < 32
      → r.capabilities k ≡ true
      → t.capabilities k ≡ true
  pub interface_within :
      (t.capabilities 5 || t.capabilities 6) ≡ false
      → (k : ℕ) → k < 32
      → r.interface_caps k ≡ true
      → t.interface_caps k ≡ true

IsBelow-refl : (t : Token) → IsBelow t t
IsBelow-refl t = record {
  same = refl;
  admin = λ h. h;
  agent = λ h. ground arith;
  caps_within = λ g k l h. h;
  interface_within = λ g k l h. h;
}

-- A source of which nothing governs gives only to tokens of which nothing governs.
ungoverned :
    (t u : Token)
    → IsBelow t u
    → (t.capabilities 5 || t.capabilities 6) ≡ false
    → governs u.capabilities ≡ false
ungoverned t u b g =
    governs-bits u.capabilities ∙ bits (u.capabilities 5) (u.capabilities 6) _ _ g b.admin b.agent
  where
    bits :
        (p q x y : Bool)
        → (x || y) ≡ false
        → (p ≡ true → x ≡ true)
        → (q ≡ true → (x || y) ≡ true)
        → (p || q) ≡ false
    bits p q x y g f h = ground arith

IsBelow-IsDerived : (t u r : Token) → IsBelow t u → IsDerived u r → IsBelow t r
IsBelow-IsDerived t u r b d = record {
  same = d.same ∙ b.same;
  admin = λ h. absurd (cc (d.no_admin));
  agent = λ h. ground (arith, b.admin (d.agent_from_admin h));
  caps_within = λ g k l h. b.caps_within g k l (d.caps_within (ungoverned t u b g) k l h);
  interface_within =
      λ g k l h. b.interface_within g k l (d.interface_within (ungoverned t u b g) k l h);
}

kept : (a x : Bool) → (a && not x) ≡ true → a ≡ true
kept a x h = ground arith

IsBelow-downgrade :
    (t u : Token) (caps : Capability) (i : Bits) → IsBelow t u → IsBelow t (downgrade u caps i)
unfolding downgrade
IsBelow-downgrade t u caps i b = record {
  same = b.same;
  admin = λ h. b.admin (kept _ _ h);
  agent = λ h. b.agent (kept _ _ h);
  caps_within = λ g k l h. b.caps_within g k l (kept _ _ h);
  interface_within = λ g k l h. b.interface_within g k l (kept _ _ h);
}

acquire_ref-same : (o : Option Object) (u r : Token) → acquire_ref o u ≡ ok r → r ≡ u
unfolding acquire_ref
acquire_ref-same o u r h = ground arith

try_clone-same : (o : Option Object) (u r : Token) → try_clone o u ≡ ok r → r ≡ u
unfolding try_clone
try_clone-same o u r h = ground arith

-- Whatever chain of derivations, references, clones and downgrades leads from a handle to another:
-- that one is for the same object, has ADMIN only if the first has it, and AGENT only if the first
-- has ADMIN or AGENT. If the first has neither, it has no capability and no interface right that
-- the first has not.
pub Reaches-IsBelow : (t r : Token) → Reaches t r → IsBelow t r
Reaches-IsBelow t r itself = IsBelow-refl t
Reaches-IsBelow t r (derives {u} o caps i p h) =
    IsBelow-IsDerived t u r (Reaches-IsBelow t u p) (derive_handle-IsDerived o u caps i r h).1
Reaches-IsBelow t r (refers {u} o p h) =
    subst (IsBelow t) (sym (acquire_ref-same o u r h)) (Reaches-IsBelow t u p)
Reaches-IsBelow t r (clones {u} o p h) =
    subst (IsBelow t) (sym (try_clone-same o u r h)) (Reaches-IsBelow t u p)
Reaches-IsBelow t r (lowers {u} caps i p e) =
    subst (IsBelow t) (sym e) (IsBelow-downgrade t u caps i (Reaches-IsBelow t u p))
