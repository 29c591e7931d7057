-- ===== src/Object/Registry/Round.antt =====
-- What one round of the layer visit does to the map: it takes active objects, and only those.
use mathlib.Core.List.{Memᴰ}
use akarin.Base.{
  ℕ, Bool, true, false, Option, none, some, List, [], ◌∷◌, ◌++◌, ◌==◌, ◌≡◌, ◌⊎◌, inl, inr, refl,
  sym, ap, ◌∙◌, arith, if◌then◌else◌, Bool-cases,
}
use akarin.Base.OrdMap.{lookup}
use akarin.Object.{Object, destroying, is_active}
use akarin.Object.Registry.{ObjectMap, mark, mark_one, mark_children}
use akarin.Object.Registry.ChildMap.{Children}

module _ {ℓ} {A : Type ℓ} where
  pub mem-append_left : {x : A} (xs ys : List A) → Memᴰ x xs → Memᴰ x (xs ++ ys)
  mem-append_left [] ys h = elim h [ ]
  mem-append_left (y ∷ xs) ys (Memᴰ.head e) = Memᴰ.head e
  mem-append_left (y ∷ xs) ys (Memᴰ.tail h) = Memᴰ.tail (mem-append_left xs ys h)

  pub mem-append_right : {x : A} (xs ys : List A) → Memᴰ x ys → Memᴰ x (xs ++ ys)
  mem-append_right [] ys h = h
  mem-append_right (y ∷ xs) ys h = Memᴰ.tail (mem-append_right xs ys h)

  pub mem-append : {x : A} (xs ys : List A) → Memᴰ x (xs ++ ys) → Memᴰ x xs ⊎ Memᴰ x ys
  mem-append [] ys h = inr h
  mem-append (y ∷ xs) ys (Memᴰ.head e) = inl (Memᴰ.head e)
  mem-append (y ∷ xs) ys (Memᴰ.tail h) = elim (mem-append xs ys h) [
    | inl a ↦ inl (Memᴰ.tail a)
    | inr b ↦ inr b
  ]

destroyed : Option Object → Option Object
destroyed none = none
destroyed (some o) = some (record o { status = destroying })

lookup-mark :
    (m : ObjectMap) (c q : ℕ)
    → lookup (mark m c) q ≡ (if c == q then destroyed (lookup m q) else lookup m q)
unfolding mark lookup destroyed
lookup-mark [] c q = ground arith
lookup-mark ((j, o) ∷ m) c q = ground (arith, lookup-mark m c q)

abbrev pub active_status : Option Object → Bool
active_status none = false
active_status (some o) = is_active o.status

-- Whether an id is that of an active object.
abbrev pub active_at : ObjectMap → ℕ → Bool
active_at m i = active_status (lookup m i)

pub active_at-some :
    (m : ObjectMap) (i : ℕ) (o : Object) → lookup m i ≡ some o → active_at m i ≡ is_active o.status
active_at-some m i o e = ap active_status e

pub active_at-eq :
    (m m' : ObjectMap) (i : ℕ) → lookup m' i ≡ lookup m i → active_at m' i ≡ active_at m i
active_at-eq m m' i e = ap active_status e

-- `m'` is `m` after some active objects, all of them `found`, have been marked.
pub record Round (m m' : ObjectMap) (found : List Object) : Type 0 where
  pub still_active : (i : ℕ) → active_at m' i ≡ true → lookup m' i ≡ lookup m i
  pub not_active : (i : ℕ) → active_at m i ≡ false → lookup m' i ≡ lookup m i
  pub taken :
      (i : ℕ) (o : Object)
      → lookup m i ≡ some o
      → is_active o.status ≡ true
      → active_at m' i ≡ false
      → Memᴰ o found

both : (a : Bool) → a ≡ true → a ≡ false → ⊥
both a p q = cc

mark_one-active :
    (m : ObjectMap) (c : ℕ) (o : Object)
    → lookup m c ≡ some o
    → is_active o.status ≡ true
    → mark_one m c ≡ (mark m c, o ∷ [])
unfolding mark_one
mark_one-active m c o e a = ground arith

mark_one-inactive : (m : ObjectMap) (c : ℕ) → active_at m c ≡ false → mark_one m c ≡ (m, [])
unfolding mark_one
mark_one-inactive m c h = ground arith

pub Round-refl : (m : ObjectMap) → Round m m []
Round-refl m = record {
  still_active = λ i h. refl;
  not_active = λ i h. refl;
  taken = λ i o e a h. absurd (both _ a (sym (active_at-some m i o e) ∙ h));
}

-- An object that is not active stays so.
pub inactive :
    (m m' : ObjectMap) (f : List Object)
    → Round m m' f
    → (i : ℕ) → active_at m i ≡ false
    → active_at m' i ≡ false
inactive m m' f r i h = active_at-eq m m' i (r.not_active i h) ∙ h

pub Round-trans :
    (m m' m'' : ObjectMap) (f g : List Object)
    → Round m m' f
    → Round m' m'' g
    → Round m m'' (f ++ g)
Round-trans m m' m'' f g r s = record {
  still_active = λ i h.
      s.still_active i h ∙ r.still_active i (sym (active_at-eq m' m'' i (s.still_active i h)) ∙ h);
  not_active = λ i h. s.not_active i (inactive m m' f r i h) ∙ r.not_active i h;
  taken = λ i o e a h. elim (Bool-cases (active_at m' i)) [
    | inl t ↦ mem-append_right f g (s.taken i o (r.still_active i t ∙ e) a h)
    | inr n ↦ mem-append_left f g (r.taken i o e a n)
  ];
}

mark_here : (m : ObjectMap) (c i : ℕ) → (c == i) ≡ true → active_at (mark m c) i ≡ false
mark_here m c i h = ap active_status (lookup-mark m c i) ∙ rw h (gone (lookup m i))
  where
    gone : (o : Option Object) → active_status (destroyed o) ≡ false
    gone none = unfold destroyed in refl
    gone (some o) = unfold destroyed in refl

pub mark_other : (m : ObjectMap) (c i : ℕ) → (c == i) ≡ false → lookup (mark m c) i ≡ lookup m i
mark_other m c i h = lookup-mark m c i ∙ rw h

inactive_kept :
    (m : ObjectMap) (c i : ℕ) → active_at m c ≡ true → active_at m i ≡ false → (c == i) ≡ false
inactive_kept m c i h k = ground arith

Round-mark :
    (m : ObjectMap) (c : ℕ) (o : Object)
    → lookup m c ≡ some o
    → is_active o.status ≡ true
    → Round m (mark m c) (o ∷ [])
Round-mark m c o e a = record {
  still_active = λ i h. elim (Bool-cases (c == i)) [
    | inl t ↦ absurd (both _ h (mark_here m c i t))
    | inr n ↦ mark_other m c i n
  ];
  not_active = λ i h. mark_other m c i (inactive_kept m c i (active_at-some m c o e ∙ a) h);
  taken = λ i p e' a' h. elim (Bool-cases (c == i)) [
    | inl t ↦ Memᴰ.head (same_object i p e' t)
    | inr n ↦ absurd (
        both _ (active_at-some m i p e' ∙ a')
          (sym (active_at-eq m (mark m c) i (mark_other m c i n)) ∙ h))
  ];
}
  where
    same_object : (i : ℕ) (p : Object) → lookup m i ≡ some p → (c == i) ≡ true → p ≡ o
    same_object i p e' t = ground (arith, e)

-- A child is active and taken, or it is left alone.
pub mark_one-cases :
    (m : ObjectMap) (c : ℕ)
    → ((o : Object) × (lookup m c ≡ some o)
        × (is_active o.status ≡ true)
        × (mark_one m c ≡ (mark m c, o ∷ [])))
      ⊎ ((active_at m c ≡ false) × (mark_one m c ≡ (m, [])))
mark_one-cases m c = by_lookup (lookup m c) refl
  where
    by_status :
        (o : Object)
        → lookup m c ≡ some o
        → (b : Bool) → is_active o.status ≡ b
        → ((o : Object) × (lookup m c ≡ some o)
            × (is_active o.status ≡ true)
            × (mark_one m c ≡ (mark m c, o ∷ [])))
          ⊎ ((active_at m c ≡ false) × (mark_one m c ≡ (m, [])))
    by_status o e true a = inl (o, e, a, mark_one-active m c o e a)
    by_status o e false a = let n = active_at-some m c o e ∙ a in inr (n, mark_one-inactive m c n)

    by_lookup :
        (l : Option Object)
        → lookup m c ≡ l
        → ((o : Object) × (lookup m c ≡ some o)
            × (is_active o.status ≡ true)
            × (mark_one m c ≡ (mark m c, o ∷ [])))
          ⊎ ((active_at m c ≡ false) × (mark_one m c ≡ (m, [])))
    by_lookup none e =
        let n : active_at m c ≡ false = ap active_status e in inr (n, mark_one-inactive m c n)
    by_lookup (some o) e = by_status o e (is_active o.status) refl

pub Round-mark_one : (m : ObjectMap) (c : ℕ) → Round m (mark_one m c).0 (mark_one m c).1
Round-mark_one m c = elim (mark_one-cases m c) [
  | inl (o, e, a, q) ↦ rw q (Round-mark m c o e a)
  | inr (n, q) ↦ rw q (Round-refl m)
]

pub mark_one-here : (m : ObjectMap) (c : ℕ) → active_at (mark_one m c).0 c ≡ false
mark_one-here m c = elim (mark_one-cases m c) [
  | inl (o, e, a, q) ↦ rw q (mark_here m c c (ground arith))
  | inr (n, q) ↦ rw q n
]

pub Round-mark_children :
    (m : ObjectMap) (cs : Children) → Round m (mark_children m cs).0 (mark_children m cs).1
unfolding mark_children
Round-mark_children m [] = Round-refl m
Round-mark_children m ((n, c) ∷ cs) =
    Round-trans m (mark_one m c).0 (mark_children (mark_one m c).0 cs).0 (mark_one m c).1
      (mark_children (mark_one m c).0 cs).1 (Round-mark_one m c)
      (Round-mark_children (mark_one m c).0 cs)
