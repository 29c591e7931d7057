-- ===== src/Object/Registry/ChildMap.antt =====
-- The children of an object: `Map<String, Index>`, a map in the order of its keys.
use akarin.Base.{
  ℕ, Bool, true, false, ◌&&◌, Option, none, some, List, [], ◌∷◌, ltb, ◌==◌, if◌then◌else◌,
}
use akarin.Object.{Name}

abbrev pub Children : Type 0
Children = List (Name × ℕ)

unfoldable pub same_name : Name → Name → Bool
same_name [] [] = true
same_name [] (d ∷ w) = false
same_name (c ∷ v) [] = false
same_name (c ∷ v) (d ∷ w) = (c == d) && same_name v w

-- The order of names, by their bytes
unfoldable pub name_lt : Name → Name → Bool
name_lt v [] = false
name_lt [] (d ∷ w) = true
name_lt (c ∷ v) (d ∷ w) = let rest = name_lt v w in if c == d then rest else ltb c d

unfoldable pub child_get : Children → Name → Option ℕ
unfolding same_name
child_get [] name = none
child_get ((n, id) ∷ cs) name = if same_name n name then some id else child_get cs name

-- `compare_insert` that never replaces
unfoldable pub child_insert : Children → Name → ℕ → Children
unfolding same_name name_lt
child_insert [] name id = (name, id) ∷ []
child_insert ((n, i) ∷ cs) name id =
    if same_name n name
    then (n, i) ∷ cs
    else if name_lt name n
    then (name, id) ∷ (n, i) ∷ cs
    else (n, i) ∷ child_insert cs name id

unfoldable pub child_remove : Children → Name → Children
unfolding same_name
child_remove [] name = []
child_remove ((n, i) ∷ cs) name = if same_name n name then cs else (n, i) ∷ child_remove cs name
