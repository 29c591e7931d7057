-- ===== src/Object/Registry/Visited.antt =====
-- The whole layer visit: the ids that it collects are those of its queue and their active
-- descendants.
use mathlib.Core.List.{Memᴰ}
use akarin.Base.{
  ℕ, zero, suc, Bool, true, false, some, List, [], ◌∷◌, ◌++◌, ◌≡◌, ◌⊎◌, inl, inr, refl, sym, subst,
  ◌∙◌, Bool-cases,
}
use akarin.Base.OrdMap.{lookup}
use akarin.Object.{Object, is_active, Name}
use akarin.Object.Registry.{ObjectMap, mark_children, visit}
use akarin.Object.Registry.Round.{
  Round, Round-mark_children, inactive, active_at, active_at-some, active_at-eq, mem-append,
  mem-append_left, mem-append_right,
}
use akarin.Object.Registry.Below.{
  Below, child, deeper, Processed, FoundChild, mark_children-inactive, mark_children-FoundChild,
}

-- What the visit from `m`, `queue` and `visited` has done when it ends with `m'` and `visited'`.
pub record Visited (m m' : ObjectMap) (queue : List Object) (visited visited' : List ℕ)
    : Type 0 where
  pub still_active : (i : ℕ) → active_at m' i ≡ true → lookup m' i ≡ lookup m i
  pub not_active : (i : ℕ) → active_at m i ≡ false → lookup m' i ≡ lookup m i
  pub kept : (i : ℕ) → Memᴰ i visited → Memᴰ i visited'
  pub queued : (o : Object) → Memᴰ o queue → Memᴰ o.id visited' × Processed m' o
  pub taken :
      (i : ℕ) (o : Object)
      → lookup m i ≡ some o
      → is_active o.status ≡ true
      → active_at m' i ≡ false
      → Memᴰ o.id visited' × Processed m' o
  pub sound :
      (i : ℕ)
      → Memᴰ i visited'
      → Memᴰ i visited ⊎ ((o : Object) × Memᴰ o queue × ((i ≡ o.id) ⊎ Below m o i))

both : (a : Bool) → a ≡ true → a ≡ false → ⊥
both a p q = cc

Visited-end : (m : ObjectMap) (visited : List ℕ) → Visited m m [] visited visited
Visited-end m visited = record {
  still_active = λ i h. refl;
  not_active = λ i h. refl;
  kept = λ i h. h;
  queued = λ o h. elim h [ ];
  taken = λ i o e a h. absurd (both _ a (sym (active_at-some m i o e) ∙ h));
  sound = λ i h. inl h;
}

-- What was below an object after a round was below it before.
Below-earlier :
    (m m1 : ObjectMap) (f : List Object) (o : Object) (i : ℕ)
    → Round m m1 f
    → Below m1 o i
    → Below m o i
Below-earlier m m1 f o i r (child {p} n c h e a) =
    child n c h (sym (r.still_active c (active_at-some m1 c p e ∙ a)) ∙ e) a
Below-earlier m m1 f o i r (deeper {p} n c h e a b) =
    deeper n c h (sym (r.still_active c (active_at-some m1 c p e ∙ a)) ∙ e) a
      (Below-earlier m m1 f p i r b)

module _ (m m1 m' : ObjectMap) (o : Object) (queue found : List Object) (visited visited' : List ℕ)
    (r : Round m m1 found)
    (done : (n : Name) (c : ℕ) → Memᴰ (n, c) o.children → active_at m1 c ≡ false)
    (children : (p : Object) → Memᴰ p found → FoundChild m o.children p)
    (v : Visited m1 m' (queue ++ found) (o.id ∷ visited) visited') where
  stays : (i : ℕ) → active_at m1 i ≡ false → active_at m' i ≡ false
  stays i h = active_at-eq m1 m' i (v.not_active i h) ∙ h

  step_queued : (p : Object) → Memᴰ p (o ∷ queue) → Memᴰ p.id visited' × Processed m' p
  step_queued p (Memᴰ.head e) =
      subst (λ x. Memᴰ x.id visited' × Processed m' x) (sym e)
        (v.kept o.id (Memᴰ.head refl), λ n c h. stays c (done n c h))
  step_queued p (Memᴰ.tail h) = v.queued p (mem-append_left queue found h)

  step_taken :
      (i : ℕ) (p : Object)
      → lookup m i ≡ some p
      → is_active p.status ≡ true
      → active_at m' i ≡ false
      → Memᴰ p.id visited' × Processed m' p
  step_taken i p e a h = elim (Bool-cases (active_at m1 i)) [
    | inl t ↦ v.taken i p (r.still_active i t ∙ e) a h
    | inr n ↦ v.queued p (mem-append_right queue found (r.taken i p e a n))
  ]

  of_found :
      (p : Object) (i : ℕ) → FoundChild m o.children p → (i ≡ p.id) ⊎ Below m1 p i → Below m o i
  of_found p i f (inl e) =
      subst (Below m o) (sym e) (child f.name f.index f.among f.stored f.was_active)
  of_found p i f (inr b) =
      deeper f.name f.index f.among f.stored f.was_active (Below-earlier m m1 found p i r b)

  earlier : (p : Object) (i : ℕ) → (i ≡ p.id) ⊎ Below m1 p i → (i ≡ p.id) ⊎ Below m p i
  earlier p i (inl e) = inl e
  earlier p i (inr b) = inr (Below-earlier m m1 found p i r b)

  Source : ℕ → Type 0
  Source i = (p : Object) × Memᴰ p (o ∷ queue) × ((i ≡ p.id) ⊎ Below m p i)

  of_queue : (i : ℕ) (p : Object) → Memᴰ p (queue ++ found) → (i ≡ p.id) ⊎ Below m1 p i → Source i
  unfolding Source
  of_queue i p h b = elim (mem-append queue found h) [
    | inl q ↦ (p, Memᴰ.tail q, earlier p i b)
    | inr f ↦ (o, Memᴰ.head refl, inr (of_found p i (children p f) b))
  ]

  of_visited : (i : ℕ) → Memᴰ i (o.id ∷ visited) → Memᴰ i visited ⊎ Source i
  unfolding Source
  of_visited i (Memᴰ.head e) = inr (o, Memᴰ.head refl, inl e)
  of_visited i (Memᴰ.tail h) = inl h

  step_sound : (i : ℕ) → Memᴰ i visited' → Memᴰ i visited ⊎ Source i
  step_sound i h = elim (v.sound i h) [
    | inl w ↦ of_visited i w
    | inr (p, q, b) ↦ inr (of_queue i p q b)
  ]

  Visited-step : Visited m m' (o ∷ queue) visited visited'
  unfolding Source
  Visited-step = record {
    still_active = λ i h.
        v.still_active i h ∙ r.still_active i (sym (active_at-eq m1 m' i (v.still_active i h)) ∙ h);
    not_active = λ i h. v.not_active i (inactive m m1 found r i h) ∙ r.not_active i h;
    kept = λ i h. v.kept i (Memᴰ.tail h);
    queued = step_queued;
    taken = step_taken;
    sound = step_sound;
  }

some_inj {ℓ} : {A : Type ℓ} {a b : A} → some a ≡ some b → a ≡ b
some_inj e = cc

ended :
    (m m' : ObjectMap) (visited visited' : List ℕ)
    → ◌≡◌ {A = ObjectMap × List ℕ} (m, visited) (m', visited')
    → Visited m m' [] visited visited'
ended m m' visited visited' e =
    subst (λ (x : ObjectMap × List ℕ). Visited m x.0 [] visited x.1) e (Visited-end m visited)

-- When the visit ends, it has taken the objects of its queue and what is below them.
pub visit-Visited :
    (f : ℕ) (m m' : ObjectMap) (queue : List Object) (visited visited' : List ℕ)
    → visit f m queue visited ≡ some (m', visited')
    → Visited m m' queue visited visited'
unfolding visit
visit-Visited zero m m' queue visited visited' h = absurd (cc)
visit-Visited (suc f) m m' [] visited visited' h = ended m m' visited visited' (some_inj h)
visit-Visited (suc f) m m' (o ∷ queue) visited visited' h =
    let r = mark_children m o.children in
    Visited-step m r.0 m' o queue r.1 visited visited' (Round-mark_children m o.children)
      (mark_children-inactive m o.children) (mark_children-FoundChild m o.children)
      (visit-Visited f r.0 m' (queue ++ r.1) (o.id ∷ visited) visited' h)

-- Everything below a processed object has been taken.
pub Below-taken :
    (m m' : ObjectMap) (queue : List Object) (visited visited' : List ℕ) (o : Object) (i : ℕ)
    → Visited m m' queue visited visited'
    → Processed m' o
    → Below m o i
    → Memᴰ i visited'
Below-taken m m' queue visited visited' o i v d (child {p} n c h e a) =
    (v.taken c p e a (d n c h)).0
Below-taken m m' queue visited visited' o i v d (deeper {p} n c h e a b) =
    Below-taken m m' queue visited visited' p i v (v.taken c p e a (d n c h)).1 b
