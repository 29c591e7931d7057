-- ===== src/Object/Registry/Visit.antt =====
-- The layer visit of `remove_internal`: it ends, and it marks what it should.
use akarin.Base.{
  ℕ, zero, suc, true, some, List, [], ◌∷◌, ◌++◌, length, ◌+◌, ◌<◌, ◌≤◌, ◌≡◌, inl, inr, refl, arith,
  if◌then◌else◌, length-append, Option-cases,
}
use akarin.Base.OrdMap.{lookup}
use akarin.Object.{Object, is_active}
use akarin.Object.Registry.{ObjectMap, mark, mark_one, mark_children, visit}
use akarin.Object.Registry.ChildMap.{Children}

-- How many entries have an active object.
pub active_count : ObjectMap → ℕ
active_count [] = 0
active_count ((j, o) ∷ m) = (if is_active o.status then 1 else 0) + active_count m

pub active_count-le : (m : ObjectMap) → active_count m ≤ length m
unfolding active_count
active_count-le [] = omega arith
active_count-le ((j, o) ∷ m) = ground (arith, active_count-le m)

-- Marking an active object leaves one fewer.
active_count-mark :
    (m : ObjectMap) (c : ℕ) (o : Object)
    → lookup m c ≡ some o
    → is_active o.status ≡ true
    → active_count (mark m c) + 1 ≡ active_count m
unfolding active_count mark lookup
active_count-mark [] c o h a = absurd (cc)
active_count-mark ((j, p) ∷ m) c o h a = ground (arith, active_count-mark m c o)

active_count-mark_le : (m : ObjectMap) (c : ℕ) → active_count (mark m c) ≤ active_count m
unfolding active_count mark
active_count-mark_le [] c = omega arith
active_count-mark_le ((j, p) ∷ m) c = ground (arith, active_count-mark_le m c)

active_count-mark_one :
    (m : ObjectMap) (c : ℕ)
    → active_count (mark_one m c).0 + length (mark_one m c).1 ≡ active_count m
unfolding mark_one
active_count-mark_one m c = elim (Option-cases (lookup m c)) [
  | inl e ↦ ground arith
  | inr (o, e) ↦ ground (arith, active_count-mark m c o)
]

-- Every object that a round finds was active before it and is not after it.
active_count-mark_children :
    (m : ObjectMap) (cs : Children)
    → active_count (mark_children m cs).0 + length (mark_children m cs).1 ≡ active_count m
unfolding mark_children
active_count-mark_children m [] = omega arith
active_count-mark_children m ((n, c) ∷ cs) = omega (
  arith,
  active_count-mark_one m c,
  active_count-mark_children (mark_one m c).0 cs,
  length-append (mark_one m c).1 (mark_children (mark_one m c).0 cs).1,
)

-- The visit ends within as many rounds as there are objects in the queue and active ones, plus one.
pub visit_ends :
    (f : ℕ) (m : ObjectMap) (queue : List Object) (visited : List ℕ)
    → length queue + active_count m < f
    → (r : ObjectMap × List ℕ) × (visit f m queue visited ≡ some r)
unfolding visit
visit_ends zero m queue visited h = absurd (omega arith)
visit_ends (suc f) m [] visited h = ((m, visited), refl)
visit_ends (suc f) m (o ∷ queue) visited h =
    visit_ends f (mark_children m o.children).0 (queue ++ (mark_children m o.children).1)
      (o.id ∷ visited)
      (omega (
        arith,
        active_count-mark_children m o.children,
        length-append queue (mark_children m o.children).1,
      ))
