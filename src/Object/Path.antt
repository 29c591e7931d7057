-- ===== src/Object/Path.antt =====
-- `ObjectPath` of library/object/src/registry.rs. A path is the bytes of its text.
pub mod Laws
use akarin.Base.{
  ℕ, Bool, true, false, not, Option, none, some, List, [], ◌∷◌, ◌++◌, ◌==◌, if◌then◌else◌,
}
use akarin.Object.{Name}

abbrev pub ObjectPath : Type 0
ObjectPath = List ℕ

abbrev pub slash : ℕ
slash = 0x2F

unfoldable pub is_absolute : ObjectPath → Bool
is_absolute [] = false
is_absolute (c ∷ p) = c == slash

-- A byte in front of the first part
pub with_first : ℕ → List Name → List Name
with_first c [] = (c ∷ []) ∷ []
with_first c (w ∷ ws) = (c ∷ w) ∷ ws

-- `split('/')`
unfoldable pub split : ObjectPath → List Name
unfolding with_first
split [] = [] ∷ []
split (c ∷ p) = if c == slash then [] ∷ split p else with_first c (split p)

-- The filter of `components`
unfoldable pub drop_empty : List Name → List Name
drop_empty [] = []
drop_empty ([] ∷ ws) = drop_empty ws
drop_empty ((c ∷ w) ∷ ws) = (c ∷ w) ∷ drop_empty ws

unfoldable pub components : ObjectPath → List Name
unfolding split drop_empty
components p = drop_empty (split p)

-- `Vec::pop`, on a list that is not empty
unfoldable pub without_last : List Name → List Name
without_last [] = []
without_last (w ∷ []) = []
without_last (w ∷ v ∷ ws) = w ∷ without_last (v ∷ ws)

-- The slice's `join("/")`
unfoldable pub join_words : List Name → ObjectPath
join_words [] = []
join_words (w ∷ []) = w
join_words (w ∷ v ∷ ws) = w ++ slash ∷ join_words (v ∷ ws)

parent_of : List Name → Option ObjectPath
unfolding without_last join_words
parent_of [] = none
parent_of (w ∷ ws) = some (slash ∷ join_words (without_last (w ∷ ws)))

unfoldable pub parent : ObjectPath → Option ObjectPath
unfolding components parent_of
parent p = parent_of (components p)

unfoldable pub ends_with_slash : ObjectPath → Bool
ends_with_slash [] = false
ends_with_slash (c ∷ []) = c == slash
ends_with_slash (c ∷ d ∷ p) = ends_with_slash (d ∷ p)

unfoldable pub join : ObjectPath → ObjectPath → ObjectPath
unfolding ends_with_slash
join p other = (if ends_with_slash p then p else p ++ slash ∷ []) ++ other
