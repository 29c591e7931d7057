-- ===== src/Memory/FreeSpace/FirstFit.antt =====
-- `find_first_fit` finds the first run of free pages that is long enough.
use mathlib.Core.Option
use akarin.Base.{
  ℕ, zero, suc, ◌+◌, ◌-◌, ◌≤◌, ◌<◌, ◌≡◌, refl, sym, ap, ◌∙◌, ◌⊎◌, inl, inr, Bool, true, Option,
  none, some, List, ◌++◌, arith, ltb, leb, ◌==◌, ==_iff, Bool-cases, Option-cases, ltb→lt, lt→ltb,
  not-ltb→le, leb→le, not-leb→lt, length, slice, fill, prefix, suffix, longest, first_run,
  first_run-left, first_run-across, first_run-right, first_run-none_of_lt, longest_of_none,
  longest_of_some, first_run_whole, longest-le, suffix-le, slice-append, length-slice, length-fill,
  slice_all,
}
use akarin.Segment.{ok, middle, query, update}
use akarin.Segment.Refine.{IsArray, query-IsArray, update-IsArray}
use akarin.Memory.FreeSpace.{VmarNode, vmar_state, FreeTree, fit_across, fit_after, find_first_fit}
use akarin.Memory.FreeSpace.Summary.{Sums, Tags, pages}

-- The tree keeps the pages, numbered from 0: `true` for a free one.
pub record Keeps (t : FreeTree) (xs : List Bool) : Type 0 where
  pub array : IsArray pages t xs
  pub start : t.start ≡ 0
  pub end : t.end ≡ length xs

pub query-Keeps :
    (t : FreeTree) (ql qr : ℕ) (xs : List Bool)
    → Keeps t xs
    → ql < qr
    → qr ≤ length xs
    → (res : VmarNode) × (t' : FreeTree) × (query t ql qr ≡ ok (res, t'))
      × Sums res (slice xs ql qr)
      × Keeps t' xs
query-Keeps t ql qr xs k ne hi =
    let (res, t', run, sums, array, s, e) =
      query-IsArray pages t ql qr xs k.array ne (omega (arith, k.start)) (omega (arith, k.end)) in
    let za : ql - t.start ≡ ql = omega (arith, k.start) in
    let zb : qr - t.start ≡ qr = omega (arith, k.start) in
    (
      res,
      t',
      run,
      rw (za, zb) at sums,
      record { array = array; start = s ∙ k.start; end = e ∙ k.end },
    )

pub update-Keeps :
    (t : FreeTree) (ql qr : ℕ) (tag : VmarNode) (b : Bool) (xs : List Bool)
    → Keeps t xs
    → Tags tag b
    → ql < qr
    → qr ≤ length xs
    → (t' : FreeTree) × (update t ql qr tag ≡ ok t') × Keeps t' (fill xs ql qr b)
update-Keeps t ql qr tag b xs k tags ne hi =
    let (t', run, array, s, e) =
      update-IsArray pages t ql qr tag b xs k.array tags ne (omega (arith, k.start))
        (omega (arith, k.end)) in
    let za : ql - t.start ≡ ql = omega (arith, k.start) in
    let zb : qr - t.start ≡ qr = omega (arith, k.start) in
    (
      t',
      run,
      record {
        array = rw (za, zb) at array;
        start = s ∙ k.start;
        end = e ∙ k.end ∙ sym (length-fill xs ql qr b);
      },
    )

-- The answer of a search of the pages [start, end), and the tree that it leaves.
record Finds (a : Option ℕ × FreeTree) (xs : List Bool) (start end needed : ℕ) : Type 0 where
  found : a.0 ≡ Option.map (λ i. start + i) (first_run (slice xs start end) needed)
  keeps : Keeps a.1 xs

shift-shift :
    (a b c : ℕ) (o : Option ℕ)
    → b ≡ a + c
    → Option.map (λ i. b + i) o ≡ Option.map (λ i. a + i) (Option.map (λ i. c + i) o)
shift-shift a b c none h = refl
shift-shift a b c (some i) h = let e : b + i ≡ a + (c + i) = omega arith in ap some e

module _ (rec : FreeTree → ℕ → ℕ → Option ℕ × FreeTree) (xs : List Bool) (start mid end needed : ℕ)
    (left_half : start < mid) (right_half : mid < end) (inside : end ≤ length xs)
    (some_page : 0 < needed) where
  left_pages : List Bool
  left_pages = slice xs start mid

  right_pages : List Bool
  right_pages = slice xs mid end

  joined : left_pages ++ right_pages ≡ slice xs start end
  unfolding left_pages right_pages
  joined = slice-append xs start mid end (omega arith) (omega arith)

  -- No run of the left half is long enough: a run across the middle comes first, then those of the
  -- right half.
  fit_across-Finds :
      (t : FreeTree)
      → Keeps t xs
      → longest left_pages < needed
      → ((u : FreeTree) → Keeps u xs → Finds (rec u mid end) xs mid end needed)
      → Finds (fit_across rec t start mid end needed) xs start end needed
  unfolding fit_across left_pages right_pages
  fit_across-Finds t k short right_answers =
      let (l, t₁, run_left, sums_left, k₁) = query-Keeps t start mid xs k left_half (omega arith) in
      let (r, t₂, run_right, sums_right, k₂) = query-Keeps t₁ mid end xs k₁ right_half inside in
      let go_on : ltb mid end ≡ true = ground arith in
      let size : length left_pages ≡ mid - start = length-slice xs start mid (omega arith) in
      let size_right : length right_pages ≡ end - mid = length-slice xs mid end inside in
      elim (Bool-cases (leb needed (l.suffix_free + r.prefix_free))) [
        | inl across ↦
            let fits : needed ≤ suffix left_pages + prefix right_pages =
              rw (← sums_left.suffix_free, ← sums_right.prefix_free) (leb→le _ _ across) in
            rw (run_left, run_right, across, fit_across)
              (record {
                found =
                    rw
                      (
                        ← joined,
                        first_run-across left_pages right_pages needed short fits (omega arith),
                      )
                      (ap some (omega (arith, sums_left.suffix_free, suffix-le left_pages)));
                keeps = k₂;
              })
        | inr apart ↦
            let misses : suffix left_pages + prefix right_pages < needed =
              rw (← sums_left.suffix_free, ← sums_right.prefix_free) (not-leb→lt _ _ apart) in
            let answer = right_answers t₂ k₂ in
            rw (run_left, run_right, apart, go_on, fit_across)
              (record {
                found =
                    answer.found
                    ∙ shift-shift start mid (length left_pages) (first_run right_pages needed)
                        (omega arith)
                    ∙ ap (Option.map (λ i. start + i)) (
                        sym (first_run-right left_pages right_pages needed short misses)
                        ∙ ap (λ (ys : List Bool). first_run ys needed) joined);
                keeps = answer.keeps;
              })
      ]

-- The search of the left half answers first.
fit_after-Finds :
    (rec : FreeTree → ℕ → ℕ → Option ℕ × FreeTree) (xs : List Bool) (start mid end needed : ℕ)
    → start < mid
    → mid < end
    → end ≤ length xs
    → 0 < needed
    → (a : Option ℕ × FreeTree) → Finds a xs start mid needed
    → ((u : FreeTree) → Keeps u xs → Finds (rec u mid end) xs mid end needed)
    → Finds (fit_after rec start mid end needed a) xs start end needed
unfolding fit_after left_pages right_pages
fit_after-Finds rec xs start mid end needed lm me hi p a f right_answers =
    go a f (Option-cases (first_run left needed))
  where
    left : List Bool
    left = left_pages rec xs start mid end needed lm me hi p

    go :
        (a : Option ℕ × FreeTree)
        → Finds a xs start mid needed
        → (first_run left needed ≡ none) ⊎ ((i : ℕ) × (first_run left needed ≡ some i))
        → Finds (fit_after rec start mid end needed a) xs start end needed
    go (none, t) f (inl e) =
        fit_across-Finds rec xs start mid end needed lm me hi p t f.keeps
          (longest_of_none left needed p e) right_answers
    go (some found, t) f (inl e) = absurd (cc (f.found, e))
    go (none, t) f (inr (i, e)) = absurd (cc (f.found, e))
    go (some found, t) f (inr (i, e)) = record {
      found =
          f.found
          ∙ ap (Option.map (λ j. start + j)) (
              sym
                (first_run-left left (slice xs mid end) needed (longest_of_some left needed i e) p)
              ∙ ap (λ (ys : List Bool). first_run ys needed)
                  (joined rec xs start mid end needed lm me hi p));
      keeps = f.keeps;
    }

find_first_fit-Finds :
    (fuel : ℕ) (t : FreeTree) (start end needed : ℕ) (xs : List Bool)
    → end ≤ start + fuel
    → Keeps t xs
    → start < end
    → end ≤ length xs
    → 0 < needed
    → Finds (find_first_fit fuel t start end needed) xs start end needed
unfolding find_first_fit
find_first_fit-Finds zero t start end needed xs f k se hi p = absurd (omega arith)
find_first_fit-Finds (suc fuel) t start end needed xs f k se hi p =
    elim (Bool-cases (ltb (end - start) needed)) [
      | inl narrow ↦ rw narrow (record {
        found = rw (
            first_run-none_of_lt pages' needed
              (omega (arith, longest-le pages', size, ltb→lt _ _ narrow)));
        keeps = k;
      })
      | inr wide ↦
          let (summary, t₁, run, sums, k₁) = query-Keeps t start end xs k se hi in
          elim (Bool-cases (ltb summary.max_free needed)) [
            | inl short ↦
                rw (wide, run, short)
                  (record {
                    found = rw (
                        first_run-none_of_lt pages' needed
                          (omega (arith, sums.max_free, ltb→lt _ _ short)));
                    keeps = k₁;
                  })
            | inr long ↦ elim (Bool-cases (end - start == needed)) [
              | inl exact ↦
                  let e : needed ≡ length pages' = omega (arith, size, (==_iff _ _).0 exact) in
                  let full : longest pages' ≡ length pages' =
                    omega (arith, sums.max_free, not-ltb→le _ _ long, longest-le pages') in
                  rw (wide, run, long, exact)
                    (record {
                      found =
                          rw (e, first_run_whole pages' (omega (arith, size)) full)
                            (ap some (omega arith));
                      keeps = k₁;
                    })
              | inr more ↦
                  let roomy : start + 2 ≤ end = ground arith in
                  let go_left : ltb start mid ≡ true = lt→ltb start mid (omega arith) in
                  rw (wide, run, long, more)
                    (fit_after-Finds (λ u a b. find_first_fit fuel u a b needed) xs start mid end
                      needed (omega arith) (omega arith) hi p _
                      (rw go_left (
                        find_first_fit-Finds fuel t₁ start mid needed xs (omega arith) k₁
                          (omega arith) (omega arith) p))
                      (λ u ku.
                        find_first_fit-Finds fuel u mid end needed xs (omega arith) ku (omega arith)
                          hi p))
            ]
          ]
    ]
  where
    mid : ℕ
    mid = middle start end

    pages' : List Bool
    pages' = slice xs start end

    size : length pages' ≡ end - start
    size = length-slice xs start end hi

map-zero_add : (o : Option ℕ) → Option.map (λ i. 0 + i) o ≡ o
map-zero_add none = refl
map-zero_add (some i) = let e : 0 + i ≡ i = omega arith in ap some e

-- For a tree that keeps the pages, a positive number of pages to find, and one unit of fuel for each
-- page, the search answers for all pages: the number that it gives
-- is the first from which enough pages are free, and it gives none only if there is no such number.
-- The tree that it leaves keeps the same pages.
pub find_first_fit-first_run :
    (t : FreeTree) (needed : ℕ) (xs : List Bool)
    → Keeps t xs
    → 0 < needed
    → ((find_first_fit (length xs) t 0 (length xs) needed).0 ≡ first_run xs needed)
      × Keeps (find_first_fit (length xs) t 0 (length xs) needed).1 xs
find_first_fit-first_run t needed xs k p =
    let f =
      find_first_fit-Finds (length xs) t 0 (length xs) needed xs (omega arith) k
        (omega (arith, k.array.proper, k.end)) (omega arith) p in
    (
      f.found
          ∙ map-zero_add (first_run (slice xs 0 (length xs)) needed)
          ∙ ap (λ (ys : List Bool). first_run ys needed) (slice_all xs (length xs) (omega arith)),
      f.keeps,
    )
