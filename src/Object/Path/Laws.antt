-- ===== src/Object/Path/Laws.antt =====
-- The components of joined paths and of a path's parent.
use akarin.Base.{
  ℕ, Bool, true, false, not, ◌&&◌, none, some, List, [], ◌∷◌, ◌++◌, ◌==◌, ◌≡◌, ◌↔◌, inl, inr, refl,
  ap, ◌∙◌, append-nil, Bool-cases, arith,
}
use mathlib.Core.List.{append_assoc}
use akarin.Object.{Name}
use akarin.Object.Path.{
  ObjectPath, slash, with_first, split, drop_empty, components, without_last, join_words, parent,
  parent_of, ends_with_slash, join,
}

-- A cut has at least one part.
split-cons : (p : ObjectPath) → (w : Name) × (ws : List Name) × (split p ≡ w ∷ ws)
unfolding split with_first
split-cons [] = ([], [], refl)
split-cons (c ∷ p) = elim (Bool-cases (c == slash)) [
  | inl e ↦ ([], split p, rw e)
  | inr e ↦ let (w, ws, q) = split-cons p in (c ∷ w, ws, rw (e, q))
]

with_first-append :
    (c : ℕ) (w : Name) (ws vs : List Name)
    → with_first c ((w ∷ ws) ++ vs) ≡ with_first c (w ∷ ws) ++ vs
unfolding with_first
with_first-append c w ws vs = refl

-- Parts on both sides of a slash are cut apart.
split-append : (p q : ObjectPath) → split (p ++ slash ∷ q) ≡ split p ++ split q
unfolding split
split-append [] q = refl
split-append (c ∷ p) q = elim (Bool-cases (c == slash)) [
  | inl e ↦ rw e (ap (◌∷◌ []) (split-append p q))
  | inr e ↦
      let (w, ws, s) = split-cons p in
      rw (e, split-append p q, s) (with_first-append c w ws (split q))
]

drop_empty-append : (ws vs : List Name) → drop_empty (ws ++ vs) ≡ drop_empty ws ++ drop_empty vs
unfolding drop_empty
drop_empty-append [] vs = refl
drop_empty-append ([] ∷ ws) vs = drop_empty-append ws vs
drop_empty-append ((c ∷ w) ∷ ws) vs = ap (◌∷◌ (c ∷ w)) (drop_empty-append ws vs)

components-slash : (p q : ObjectPath) → components (p ++ slash ∷ q) ≡ components p ++ components q
unfolding components
components-slash p q = ap drop_empty (split-append p q) ∙ drop_empty-append (split p) (split q)

components-nil : components [] ≡ []
unfolding components split drop_empty
components-nil = refl

-- A path that ends with a slash, and what is before it.
ends_with_slash-cut :
    (p : ObjectPath) → ends_with_slash p ≡ true → (q : ObjectPath) × (p ≡ q ++ slash ∷ [])
unfolding ends_with_slash
ends_with_slash-cut [] h = absurd (cc)
ends_with_slash-cut (c ∷ []) h = ([], ground arith)
ends_with_slash-cut (c ∷ d ∷ p) h =
    let (q, e) = ends_with_slash-cut (d ∷ p) h in (c ∷ q, ap (◌∷◌ c) e)

components-end : (p : ObjectPath) → components (p ++ slash ∷ []) ≡ components p
components-end p = components-slash p [] ∙ rw components-nil (append-nil (components p))

-- A joined path has the components of the one, then those of the other, whether or not the first
-- ends with a slash or the second begins with one.
components-join : (p q : ObjectPath) → components (join p q) ≡ components p ++ components q
unfolding join
components-join p q = elim (Bool-cases (ends_with_slash p)) [
  | inl h ↦
      let (r, e) = ends_with_slash-cut p h in
      rw (h, e) (rw (append_assoc r (slash ∷ []) q, components-end r) (components-slash r q))
  | inr h ↦ rw h (rw (append_assoc p (slash ∷ []) q) (components-slash p q))
]

slashless : Name → Bool
slashless [] = true
slashless (c ∷ w) = not (c == slash) && slashless w

all_slashless : List Name → Bool
unfolding slashless
all_slashless [] = true
all_slashless (w ∷ ws) = slashless w && all_slashless ws

is_word : Name → Bool
unfolding slashless
is_word [] = false
is_word (c ∷ w) = slashless (c ∷ w)

all_words : List Name → Bool
unfolding is_word
all_words [] = true
all_words (w ∷ ws) = is_word w && all_words ws

all_slashless-with_first :
    (c : ℕ) (ws : List Name)
    → (c == slash) ≡ false
    → all_slashless ws ≡ true
    → all_slashless (with_first c ws) ≡ true
unfolding all_slashless with_first
all_slashless-with_first c [] h k = ground arith
all_slashless-with_first c (w ∷ ws) h k = ground arith

all_slashless_cons : (ws : List Name) → all_slashless ws ≡ true → all_slashless ([] ∷ ws) ≡ true
unfolding all_slashless
all_slashless_cons ws h = h

all_slashless-split : (p : ObjectPath) → all_slashless (split p) ≡ true
unfolding split
all_slashless-split [] = unfold all_slashless in refl
all_slashless-split (c ∷ p) = elim (Bool-cases (c == slash)) [
  | inl e ↦ rw e (all_slashless_cons (split p) (all_slashless-split p))
  | inr e ↦ rw e (all_slashless-with_first c (split p) e (all_slashless-split p))
]

all_words-drop_empty : (ws : List Name) → all_slashless ws ≡ true → all_words (drop_empty ws) ≡ true
unfolding all_slashless all_words drop_empty
all_words-drop_empty [] h = refl
all_words-drop_empty ([] ∷ ws) h = all_words-drop_empty ws h
all_words-drop_empty ((c ∷ w) ∷ ws) h = ground (arith, all_words-drop_empty ws)

all_words-without_last : (ws : List Name) → all_words ws ≡ true → all_words (without_last ws) ≡ true
unfolding all_words without_last
all_words-without_last [] h = refl
all_words-without_last (w ∷ []) h = refl
all_words-without_last (w ∷ v ∷ ws) h = ground (arith, all_words-without_last (v ∷ ws))

all_words-components : (p : ObjectPath) → all_words (components p) ≡ true
unfolding components
all_words-components p = all_words-drop_empty (split p) (all_slashless-split p)

split-slashless : (w : Name) → slashless w ≡ true → split w ≡ w ∷ []
unfolding slashless split with_first
split-slashless [] h = refl
split-slashless (c ∷ w) h = ground (arith, split-slashless w)

components-word : (w : Name) → is_word w ≡ true → components w ≡ w ∷ []
unfolding components is_word drop_empty
components-word [] h = absurd (cc)
components-word (c ∷ w) h = rw (split-slashless (c ∷ w) h)

components-join_words : (ws : List Name) → all_words ws ≡ true → components (join_words ws) ≡ ws
unfolding join_words
components-join_words [] h = components-nil
components-join_words (w ∷ []) h = components-word w (unfold all_words in ground arith)
components-join_words (w ∷ v ∷ ws) h =
    components-slash w (join_words (v ∷ ws))
    ∙ rw (
      components-word w (first w (v ∷ ws) h),
      components-join_words (v ∷ ws) (later w (v ∷ ws) h),
    )
  where
    first : (w : Name) (ws : List Name) → all_words (w ∷ ws) ≡ true → is_word w ≡ true
    first w ws h = unfold all_words in ground arith

    later : (w : Name) (ws : List Name) → all_words (w ∷ ws) ≡ true → all_words ws ≡ true
    later w ws h = unfold all_words in ground arith

components_lead : (p : ObjectPath) → components (slash ∷ p) ≡ components p
components_lead p = components-slash [] p ∙ rw components-nil

parent_of-components :
    (ws : List Name)
    → all_words ws ≡ true
    → ((parent_of ws ≡ none) ↔ (ws ≡ []))
      × ((r : ObjectPath) → parent_of ws ≡ some r → components r ≡ without_last ws)
unfolding parent_of
parent_of-components [] h = ((λ e. refl, λ e. refl), λ r e. absurd (cc))
parent_of-components (w ∷ ws) h = (
  (λ e. absurd (cc), λ e. absurd (cc)),
  λ r e. rw (← some_inj e) (
      components_lead (join_words (without_last (w ∷ ws)))
      ∙ components-join_words (without_last (w ∷ ws)) (all_words-without_last (w ∷ ws) h)),
)
  where
    some_inj : {a b : ObjectPath} → some a ≡ some b → a ≡ b
    some_inj e = cc

-- A path has a parent exactly if it has a component, and the parent's components are the path's
-- without the last.
components-parent :
    (p : ObjectPath)
    → ((parent p ≡ none) ↔ (components p ≡ []))
      × ((r : ObjectPath) → parent p ≡ some r → components r ≡ without_last (components p))
unfolding parent
components-parent p = parent_of-components (components p) (all_words-components p)

-- A joined path has the components of the one, then those of the other, whether or not the first
-- ends with a slash or the second begins with one. A path has a parent exactly if it has a
-- component, and the parent's components are the path's without the last.
pub components-join-parent :
    (p q : ObjectPath)
    → (components (join p q) ≡ components p ++ components q)
      × ((parent p ≡ none) ↔ (components p ≡ []))
      × ((r : ObjectPath) → parent p ≡ some r → components r ≡ without_last (components p))
components-join-parent p q = (components-join p q, (components-parent p).0, (components-parent p).1)
