-- ===== src/Object/Registry/Below.antt =====
-- Which objects the layer visit takes: the active descendants of those in its queue.
use mathlib.Core.List.{Memᴰ}
use akarin.Base.{ℕ, List, true, false, some, [], ◌∷◌, ◌≡◌, inl, inr, refl, sym, ap, subst, ◌∙◌}
use akarin.Base.OrdMap.{lookup}
use akarin.Object.{Object, is_active, Name}
use akarin.Object.Registry.{ObjectMap, mark_one, mark_children}
use akarin.Object.Registry.ChildMap.{Children}
use akarin.Object.Registry.Round.{
  Round-mark_one, Round-mark_children, inactive, active_at, active_at-some, mark_one-cases,
  mark_one-here, mem-append,
}

-- The ids of the active objects that a chain of active children leads to.
pub data Below (m : ObjectMap) : Object → ℕ → Type 0 where
  child :
      {o p : Object} (n : Name) (c : ℕ)
      → Memᴰ (n, c) o.children
      → lookup m c ≡ some p
      → is_active p.status ≡ true
      → Below m o p.id
  deeper :
      {o p : Object} {i : ℕ} (n : Name) (c : ℕ)
      → Memᴰ (n, c) o.children
      → lookup m c ≡ some p
      → is_active p.status ≡ true
      → Below m p i
      → Below m o i

nothing_among : {A : Type 0} (x : A) (l : List A) → l ≡ [] → Memᴰ x l → ⊥
nothing_among x l e h = no_member (subst (Memᴰ x) e h)
  where
    no_member : Memᴰ x [] → ⊥
    no_member h = elim h [ ]

pub Below-leaf : (m : ObjectMap) (o : Object) (i : ℕ) → o.children ≡ [] → Below m o i → ⊥
Below-leaf m o i e (child n c h found a) = nothing_among (n, c) o.children e h
Below-leaf m o i e (deeper n c h found a b) = nothing_among (n, c) o.children e h

-- An object whose children are none of them active.
abbrev pub Processed : ObjectMap → Object → Type 0
Processed m o = (n : Name) (c : ℕ) → Memᴰ (n, c) o.children → active_at m c ≡ false

second : {a b : Name × ℕ} → a ≡ b → a.1 ≡ b.1
second e = ap (λ x. x.1) e

pub mark_children-inactive :
    (m : ObjectMap) (cs : Children) (n : Name) (c : ℕ)
    → Memᴰ (n, c) cs
    → active_at (mark_children m cs).0 c ≡ false
unfolding mark_children
mark_children-inactive m [] n c h = elim h [ ]
mark_children-inactive m ((k, d) ∷ cs) n c (Memᴰ.head e) =
    ap (active_at (mark_children (mark_one m d).0 cs).0) (second e)
    ∙ inactive (mark_one m d).0 (mark_children (mark_one m d).0 cs).0
        (mark_children (mark_one m d).0 cs).1 (Round-mark_children (mark_one m d).0 cs) d
        (mark_one-here m d)
mark_children-inactive m ((k, d) ∷ cs) n c (Memᴰ.tail h) =
    mark_children-inactive (mark_one m d).0 cs n c h

-- What a round finds are active children.
pub record FoundChild (m : ObjectMap) (cs : Children) (o : Object) : Type 0 where
  pub name : Name
  pub index : ℕ
  pub among : Memᴰ (name, index) cs
  pub stored : lookup m index ≡ some o
  pub was_active : is_active o.status ≡ true

mark_one-FoundChild :
    (m : ObjectMap) (n : Name) (c : ℕ) (cs : Children) (o : Object)
    → Memᴰ o (mark_one m c).1
    → FoundChild m ((n, c) ∷ cs) o
mark_one-FoundChild m n c cs o h = elim (mark_one-cases m c) [
  | inl (p, e, a, q) ↦ found p e a (only o p (subst (λ r. Memᴰ o r.1) q h))
  | inr (x, q) ↦ nothing (subst (λ r. Memᴰ o r.1) q h)
]
  where
    only : (o p : Object) → Memᴰ o (p ∷ []) → o ≡ p
    only o p (Memᴰ.head e) = e
    only o p (Memᴰ.tail h) = elim h [ ]

    nothing : Memᴰ o [] → FoundChild m ((n, c) ∷ cs) o
    nothing h = elim h [ ]

    found :
        (p : Object)
        → lookup m c ≡ some p
        → is_active p.status ≡ true
        → o ≡ p
        → FoundChild m ((n, c) ∷ cs) o
    found p e a s = record {
      name = n;
      index = c;
      among = Memᴰ.head refl;
      stored = e ∙ ap some (sym s);
      was_active = ap (λ x. is_active x.status) s ∙ a;
    }

pub mark_children-FoundChild :
    (m : ObjectMap) (cs : Children) (o : Object) → Memᴰ o (mark_children m cs).1 → FoundChild m cs o
unfolding mark_children
mark_children-FoundChild m [] o h = elim h [ ]
mark_children-FoundChild m ((n, c) ∷ cs) o h =
    elim (mem-append (mark_one m c).1 (mark_children (mark_one m c).0 cs).1 h) [
      | inl a ↦ mark_one-FoundChild m n c cs o a
      | inr b ↦ earlier m n c cs o (mark_children-FoundChild (mark_one m c).0 cs o b)
    ]
  where
    earlier :
        (m : ObjectMap) (n : Name) (c : ℕ) (cs : Children) (o : Object)
        → FoundChild (mark_one m c).0 cs o
        → FoundChild m ((n, c) ∷ cs) o
    earlier m n c cs o f = record {
      name = f.name;
      index = f.index;
      among = Memᴰ.tail f.among;
      stored =
          sym (
            (Round-mark_one m c).still_active f.index
              (active_at-some (mark_one m c).0 f.index o f.stored ∙ f.was_active))
          ∙ f.stored;
      was_active = f.was_active;
    }
