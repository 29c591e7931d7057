-- ===== src/Memory/Spans.antt =====
-- Entries that each occupy the pages from their key up to a stop, in order and apart.
use akarin.Base.{
  ℕ, ◌≤◌, ◌<◌, ◌≡◌, refl, inl, inr, Bool, true, false, not, ◌&&◌, ◌||◌, none, some, List, [], ◌∷◌,
  arith, ltb, leb, ◌==◌, Option-cases, Bool-cases,
}
use akarin.Base.OrdMap.{lookup, insert, remove, last_le}

module _ {E : Type 0} (stop : E → ℕ) where
  -- Whether an entry occupies page `p`.
  abbrev pub covered : List (ℕ × E) → ℕ → Bool
  covered [] p = false
  covered ((k, e) ∷ es) p = leb k p && ltb p (stop e) || covered es p

  -- The entries lie in the pages from `lo` to `hi`, none is empty, and none begins before the one
  -- in front of it stops.
  abbrev pub Apart : ℕ → List (ℕ × E) → ℕ → Type 0
  Apart lo [] hi = lo ≤ hi
  Apart lo ((k, e) ∷ es) hi = (lo ≤ k) × (k < stop e) × Apart (stop e) es hi

  pub Apart-le : (lo : ℕ) (es : List (ℕ × E)) (hi : ℕ) → Apart lo es hi → lo ≤ hi
  Apart-le lo [] hi a = a
  Apart-le lo ((k, e) ∷ es) hi a = omega (arith, Apart-le (stop e) es hi a.2)

  -- Nothing is occupied in front of the first entry.
  pub covered-before :
      (lo : ℕ) (es : List (ℕ × E)) (hi p : ℕ) → Apart lo es hi → p < lo → covered es p ≡ false
  covered-before lo [] hi p a h = refl
  covered-before lo ((k, e) ∷ es) hi p a h = ground (arith, covered-before (stop e) es hi p)

  pub covered-beyond :
      (lo : ℕ) (es : List (ℕ × E)) (hi p : ℕ) → Apart lo es hi → hi ≤ p → covered es p ≡ false
  covered-beyond lo [] hi p a h = refl
  covered-beyond lo ((k, e) ∷ es) hi p a h =
      ground (arith, covered-beyond (stop e) es hi p, Apart-le (stop e) es hi a.2)

  -- An entry that is put on free pages keeps the entries apart.
  pub insert-Apart :
      (lo : ℕ) (es : List (ℕ × E)) (hi k : ℕ) (e : E)
      → Apart lo es hi
      → lo ≤ k
      → k < stop e
      → stop e ≤ hi
      → ((p : ℕ) → k ≤ p → p < stop e → covered es p ≡ false)
      → Apart lo (insert es k e) hi
  unfolding insert
  insert-Apart lo [] hi k e a l n h free = (l, n, h)
  insert-Apart lo ((j, f) ∷ es) hi k e a l n h free =
      ground (arith, free k, free j, insert-Apart (stop f) es hi k e a.2, λ (p : ℕ). free p)

  -- It occupies its pages beside those of the others.
  pub covered-insert :
      (es : List (ℕ × E)) (k : ℕ) (e : E) (p : ℕ)
      → lookup es k ≡ none
      → covered (insert es k e) p ≡ (leb k p && ltb p (stop e) || covered es p)
  unfolding insert lookup
  covered-insert [] k e p h = refl
  covered-insert ((j, f) ∷ es) k e p h = ground (arith, covered-insert es k e p)

  pub lookup-covered :
      (es : List (ℕ × E)) (lo hi k : ℕ) (e : E)
      → Apart lo es hi
      → lookup es k ≡ some e
      → (covered es k ≡ true) × (lo ≤ k) × (k < stop e) × (stop e ≤ hi)
  unfolding lookup
  lookup-covered [] lo hi k e a h = absurd (cc)
  lookup-covered ((j, f) ∷ es) lo hi k e a h =
      ground (arith, lookup-covered es (stop f) hi k e a.2, Apart-le (stop f) es hi a.2)

  pub lookup-uncovered :
      (es : List (ℕ × E)) (lo hi k : ℕ) → Apart lo es hi → covered es k ≡ false → lookup es k ≡ none
  lookup-uncovered es lo hi k a h = elim (Option-cases (lookup es k)) [
    | inl n ↦ n
    | inr (e, s) ↦ absurd (cc ((lookup-covered es lo hi k e a s).0))
  ]

  Apart-earlier :
      (lo lo' : ℕ) (es : List (ℕ × E)) (hi : ℕ) → lo ≤ lo' → Apart lo' es hi → Apart lo es hi
  Apart-earlier lo lo' [] hi h a = omega arith
  Apart-earlier lo lo' ((k, e) ∷ es) hi h a = (omega (arith, a.0), a.1, a.2)

  pub remove-Apart :
      (lo : ℕ) (es : List (ℕ × E)) (hi k : ℕ) → Apart lo es hi → Apart lo (remove es k) hi
  unfolding remove
  remove-Apart lo [] hi k a = a
  remove-Apart lo ((j, f) ∷ es) hi k a = elim (Bool-cases (j == k)) [
    | inl y ↦ rw y (Apart-earlier lo (stop f) es hi (omega (arith, a.0, a.1)) a.2)
    | inr n ↦ rw n (a.0, a.1, remove-Apart (stop f) es hi k a.2)
  ]

  -- A removed entry frees exactly its pages.
  pub covered-remove :
      (lo : ℕ) (es : List (ℕ × E)) (hi k : ℕ) (e : E) (p : ℕ)
      → Apart lo es hi
      → lookup es k ≡ some e
      → covered (remove es k) p ≡ (covered es p && not (leb k p && ltb p (stop e)))
  unfolding remove lookup
  covered-remove lo [] hi k e p a h = cc
  covered-remove lo ((j, f) ∷ es) hi k e p a h = ground (
    arith,
    covered-remove (stop f) es hi k e p a.2,
    covered-before (stop f) es hi p a.2,
    lookup-covered es (stop f) hi k e a.2,
  )

  pub lookup-before :
      (lo : ℕ) (es : List (ℕ × E)) (hi k : ℕ) → Apart lo es hi → k < lo → lookup es k ≡ none
  unfolding lookup
  lookup-before lo [] hi k a h = refl
  lookup-before lo ((j, f) ∷ es) hi k a h = ground (arith, lookup-before (stop f) es hi k a.2)

  pub last_le-none : (es : List (ℕ × E)) (p : ℕ) → last_le es p ≡ none → covered es p ≡ false
  unfolding last_le
  last_le-none [] p h = refl
  last_le-none ((j, f) ∷ es) p h = ground (arith, last_le-none es p, Option-cases (last_le es p))

  -- The last entry that begins at or in front of a page is the only one that can occupy it.
  pub last_le-some :
      (lo : ℕ) (es : List (ℕ × E)) (hi p k : ℕ) (e : E)
      → Apart lo es hi
      → last_le es p ≡ some (k, e)
      → (k ≤ p) × (lookup es k ≡ some e) × (covered es p ≡ ltb p (stop e))
  unfolding last_le lookup
  last_le-some lo [] hi p k e a h = absurd (cc)
  last_le-some lo ((j, f) ∷ es) hi p k e a h = elim (Option-cases (last_le es p)) [
    | inl e₀ ↦ ground (arith, e₀, last_le-none es p e₀)
    | inr ((k', e'), e₁) ↦
        let (low, found, held) = last_le-some (stop f) es hi p k' e' a.2 e₁ in
        let (here, after, within, upto) = lookup-covered es (stop f) hi k' e' a.2 found in
        ground (arith, e₁, low, found, held, after)
  ]

  insert-before :
      (lo : ℕ) (es : List (ℕ × E)) (hi k : ℕ) (e : E)
      → Apart lo es hi
      → k < lo
      → insert es k e ≡ (k, e) ∷ es
  unfolding insert
  insert-before lo [] hi k e a h = refl
  insert-before lo ((j, f) ∷ es) hi k e a h = ground arith

  -- To put an entry back where it was taken from changes nothing.
  pub insert-remove :
      (lo : ℕ) (es : List (ℕ × E)) (hi k : ℕ) (e : E)
      → Apart lo es hi
      → lookup es k ≡ some e
      → insert (remove es k) k e ≡ es
  unfolding insert remove lookup
  insert-remove lo [] hi k e a h = absurd (cc)
  insert-remove lo ((j, f) ∷ es) hi k e a h = ground (
    arith,
    insert-before (stop f) es hi k e a.2,
    lookup-covered es (stop f) hi k e a.2,
    insert-remove (stop f) es hi k e a.2,
  )

  pub covered-lookup :
      (lo : ℕ) (es : List (ℕ × E)) (hi k : ℕ) (e : E) (p : ℕ)
      → Apart lo es hi
      → lookup es k ≡ some e
      → k ≤ p
      → p < stop e
      → covered es p ≡ true
  unfolding lookup
  covered-lookup lo [] hi k e p a h l u = absurd (cc)
  covered-lookup lo ((j, f) ∷ es) hi k e p a h l u =
      ground (arith, covered-lookup (stop f) es hi k e p a.2)

  -- Only one entry occupies a page.
  pub lookup_unique :
      (lo : ℕ) (es : List (ℕ × E)) (hi j k : ℕ) (d e : E) (p : ℕ)
      → Apart lo es hi
      → lookup es j ≡ some d
      → lookup es k ≡ some e
      → j ≤ p
      → p < stop d
      → k ≤ p
      → p < stop e
      → (j ≡ k) × (d ≡ e)
  unfolding lookup
  lookup_unique lo [] hi j k d e p a x y jl ju kl ku = absurd (cc)
  lookup_unique lo ((i, f) ∷ es) hi j k d e p a x y jl ju kl ku = ground (
    arith,
    lookup_unique (stop f) es hi j k d e p a.2,
    lookup-covered es (stop f) hi j d a.2,
    lookup-covered es (stop f) hi k e a.2,
  )

  -- An entry may be replaced by one with the same stop.
  pub replace-Apart :
      (lo : ℕ) (es : List (ℕ × E)) (hi k : ℕ) (d e : E)
      → Apart lo es hi
      → lookup es k ≡ some d
      → stop e ≡ stop d
      → Apart lo (insert es k e) hi
  unfolding insert lookup
  replace-Apart lo [] hi k d e a h s = absurd (cc)
  replace-Apart lo ((j, f) ∷ es) hi k d e a h s = ground (
    arith,
    replace-Apart (stop f) es hi k d e a.2,
    lookup-covered es (stop f) hi k d a.2,
    Apart-earlier (stop e) (stop f) es hi,
  )

  pub covered-replace :
      (lo : ℕ) (es : List (ℕ × E)) (hi k : ℕ) (d e : E) (p : ℕ)
      → Apart lo es hi
      → lookup es k ≡ some d
      → stop e ≡ stop d
      → covered (insert es k e) p ≡ covered es p
  unfolding insert lookup
  covered-replace lo [] hi k d e p a h s = absurd (cc)
  covered-replace lo ((j, f) ∷ es) hi k d e p a h s =
      ground
        (arith, covered-replace (stop f) es hi k d e p a.2, lookup-covered es (stop f) hi k d a.2)
