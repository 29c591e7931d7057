-- ===== src/Object/Registry/Steps.antt =====
-- A walk along a path only loses capabilities, CLONE and SEND apart.
use akarin.Base.{
  ℕ, Bool, true, false, not, ◌&&◌, ◌||◌, Option, none, some, List, [], ◌∷◌, ◌≡◌, ◌≤◌, ◌<◌, ◌⊎◌, inl,
  inr, refl, subst, if◌then◌else◌, sym, ap, ◌∙◌, arith, Bool-cases,
}
use akarin.Memory.Control.{ObjectError}
use akarin.Object.{Capability, ObjectResult, ok, err, panic, ◌>>=◌, ok_or, Token, Object, Name}
use akarin.Object.Container.{derive_token}
use akarin.Object.Registry.{Registry}
use akarin.Object.Registry.ChildMap.{same_name}
use akarin.Object.Registry.Locate.{self_name, find_child, enter, walk}
use akarin.Object.Registry.Attenuate.{IsChildToken, derive_token-IsChildToken}

-- Inversion of a successful bind.
pub bound :
    {A B : Type 0} (m : ObjectResult A) (f : A → ObjectResult B) (b : B)
    → (m >>= f) ≡ ok b
    → (a : A) × (m ≡ ok a) × (f a ≡ ok b)
bound (ok a) f b h = (a, refl, h)
bound (err e) f b h = absurd (cc)
bound panic f b h = absurd (cc)

pub ok_or-some :
    {A : Type 0} (m : Option A) (e : ObjectError) (a : A) → ok_or m e ≡ ok a → m ≡ some a
ok_or-some none e a h = absurd (cc)
ok_or-some (some b) e a h = cc

-- No capability from READ on is in `u` without being in `t`, and no other one either if `t` has
-- neither ADMIN nor AGENT.
pub record Attenuates (t u : Capability) : Type 0 where
  pub within : (k : ℕ) → 2 ≤ k → u k ≡ true → t k ≡ true
  pub powerless : (t 5 || t 6) ≡ false → (k : ℕ) → u k ≡ true → t k ≡ true

and_first : (a b : Bool) → (a && not b) ≡ true → a ≡ true
and_first a b h = ground arith

pub Attenuates-trans : (t u v : Capability) → Attenuates t u → Attenuates u v → Attenuates t v
Attenuates-trans t u v a b = record {
  within = λ k l h. a.within k l (b.within k l h);
  powerless = λ g k h.
      a.powerless g k
        (b.powerless (neither (t 5) (t 6) (u 5) (u 6) g (a.powerless g 5) (a.powerless g 6)) k h);
}
  where
    neither :
        (p q x y : Bool)
        → (p || q) ≡ false
        → (x ≡ true → p ≡ true)
        → (y ≡ true → q ≡ true)
        → (x || y) ≡ false
    neither p q x y g f h = ground arith

pub Attenuates-refl : (t : Capability) → Attenuates t t
Attenuates-refl t = record { within = λ k l h. h; powerless = λ g k h. h }

child_bits :
    (o : Object) (t u : Token)
    → IsChildToken o t u
    → (k : ℕ) → 2 ≤ k
    → u.capabilities k ≡ (t.capabilities k && not (o.masked_caps k))
child_bits o t u c k l = c.from_read_on k l

-- From a parent with neither ADMIN nor AGENT a child gets nothing new.
child_powerless :
    (o : Object) (t u : Token)
    → IsChildToken o t u
    → (t.capabilities 5 || t.capabilities 6) ≡ false
    → (k : ℕ) → u.capabilities k ≡ true
    → t.capabilities k ≡ true
child_powerless o t u c g k h = elim (low_or_not k) [
  | inl l ↦
      low (t.capabilities k) (o.masked_caps k) (o.masked_caps 5 || o.masked_caps 6)
        (t.capabilities 5 || t.capabilities 6) g (sym (c.clone_and_send k l) ∙ h)
  | inr l ↦ and_first _ _ (sym (c.from_read_on k l) ∙ h)
]
  where
    low_or_not : (k : ℕ) → (k < 2) ⊎ (2 ≤ k)
    low_or_not k = ground arith

    low : (a m p q : Bool) → q ≡ false → ((a && not m) || (p && q)) ≡ true → a ≡ true
    low a m p q e h = ground arith

pub child-Attenuates :
    (o : Object) (t u : Token) → derive_token o t ≡ ok u → Attenuates t.capabilities u.capabilities
child-Attenuates o t u h = record {
  within = λ k l e.
      and_first _ _ (sym (child_bits o t u ((derive_token-IsChildToken o t).1 u h) k l) ∙ e);
  powerless = child_powerless o t u ((derive_token-IsChildToken o t).1 u h);
}

-- One component either stays where it is or derives the token of some child.
enter-cases :
    (r : Registry) (name : Name) (t u : Token)
    → enter r name t ≡ ok u
    → (t ≡ u) ⊎ ((o : Object) × (derive_token o t ≡ ok u))
unfolding enter
enter-cases r name t u h = elim (Bool-cases (same_name name self_name)) [
  | inl e ↦ inl (stay (same_name name self_name) e _ h)
  | inr e ↦
      let (o, x, d) =
        bound (find_child r name t) (λ o. derive_token o t) u
          (go (same_name name self_name) e _ h) in
      inr (o, d)
]
  where
    stay : (b : Bool) → b ≡ true → (k : ObjectResult Token) → (if b then ok t else k) ≡ ok u → t ≡ u
    stay b e k h = ground arith

    go :
        (b : Bool)
        → b ≡ false
        → (k : ObjectResult Token) → (if b then ok t else k) ≡ ok u
        → k ≡ ok u
    go b e k h = ground arith

enter-Attenuates :
    (r : Registry) (name : Name) (t u : Token)
    → enter r name t ≡ ok u
    → Attenuates t.capabilities u.capabilities
enter-Attenuates r name t u h = elim (enter-cases r name t u h) [
  | inl e ↦ subst (λ x. Attenuates t.capabilities x.capabilities) e (Attenuates-refl t.capabilities)
  | inr (o, e) ↦ child-Attenuates o t u e
]

pub walk-Attenuates :
    (r : Registry) (names : List Name) (t u : Token)
    → walk r names t ≡ ok u
    → Attenuates t.capabilities u.capabilities
unfolding walk
walk-Attenuates r [] t u h =
    subst (λ x. Attenuates t.capabilities x.capabilities) (inj h) (Attenuates-refl t.capabilities)
  where
    inj : {a b : Token} → ok a ≡ ok b → a ≡ b
    inj e = cc
walk-Attenuates r (name ∷ names) t u h =
    let (v, e, h1) = bound (enter r name t) (walk r names) u h in
    Attenuates-trans t.capabilities v.capabilities u.capabilities (enter-Attenuates r name t v e)
      (walk-Attenuates r names v u h1)

-- The objects whose tokens a walk derives on its way.
pub data Passes (r : Registry) : List Name → Token → Object → Type 0 where
  here :
      {name : Name} {names : List Name} {t u : Token} {o : Object}
      → enter r name t ≡ ok u
      → derive_token o t ≡ ok u
      → Passes r (name ∷ names) t o
  later :
      {name : Name} {names : List Name} {t u : Token} {o : Object}
      → enter r name t ≡ ok u
      → Passes r names u o
      → Passes r (name ∷ names) t o

lost : (a b : Bool) → a ≡ false → (b ≡ true → a ≡ true) → b ≡ false
lost a b h k = ground arith

masked : (a b : Bool) → b ≡ true → (a && not b) ≡ false
masked a b h = ground arith

after :
    (m : ObjectResult Token) (f : Token → ObjectResult Token) (v u : Token)
    → m ≡ ok v
    → (m >>= f) ≡ ok u
    → f v ≡ ok u
after m f v u e h = sym (ap (λ x. x >>= f) e) ∙ h

-- A capability that an object on the way masks is gone at the end.
pub masked_out :
    (r : Registry) (names : List Name) (t u : Token) (o : Object) (k : ℕ)
    → Passes r names t o
    → walk r names t ≡ ok u
    → 2 ≤ k
    → o.masked_caps k ≡ true
    → u.capabilities k ≡ false
unfolding walk
masked_out r [] t u o k p h l m = elim p [ ]
masked_out r (name ∷ names) t u o k (here {u = v} e d) h l m =
    lost (v.capabilities k) (u.capabilities k)
      (child_bits o t v ((derive_token-IsChildToken o t).1 v d) k l
        ∙ masked (t.capabilities k) (o.masked_caps k) m)
      ((walk-Attenuates r names v u (after (enter r name t) (walk r names) v u e h)).within k l)
masked_out r (name ∷ names) t u o k (later {u = v} e p) h l m =
    masked_out r names v u o k p (after (enter r name t) (walk r names) v u e h) l m
