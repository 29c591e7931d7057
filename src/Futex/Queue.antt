-- ===== src/Futex/Queue.antt =====
-- What waking takes from a queue, and where a waiter stands in it.
use akarin.Base.{
  ℕ, zero, suc, Bool, true, false, ◌||◌, none, some, List, [], ◌∷◌, take, drop, ◌==◌, ◌≡◌, refl,
  sym, ap, subst, ◌∙◌, arith, if◌then◌else◌, Option-cases, inl, inr, Bool-cases, ◌⊎◌, ==_iff,
}
use akarin.Futex.{
  FutexKey, FutexWaiter, FutexManager, same_key, set_queue, set_waiter, entry_of, or_empty,
  take_loop, take_woken_waiters,
}

abbrev pub mem : ℕ → List ℕ → Bool
mem w [] = false
mem w (v ∷ q) = (v == w) || mem w q

-- The flags of a waiter that has been taken.
abbrev pub taken_flags : FutexWaiter → FutexWaiter
taken_flags x = record x { woken = true; queued = false }

take_loop-rest :
    (n : ℕ) (waiters : ℕ → FutexWaiter) (q : List ℕ) → (take_loop n waiters q).0 ≡ drop n q
unfolding take_loop
take_loop-rest zero waiters q = refl
take_loop-rest (suc n) waiters [] = refl
take_loop-rest (suc n) waiters (w ∷ q) =
    take_loop-rest n (set_waiter waiters w (taken_flags (waiters w))) q

take_loop-ready :
    (n : ℕ) (waiters : ℕ → FutexWaiter) (q : List ℕ) → (take_loop n waiters q).2 ≡ take n q
unfolding take_loop
take_loop-ready zero waiters q = refl
take_loop-ready (suc n) waiters [] = refl
take_loop-ready (suc n) waiters (w ∷ q) =
    ap (◌∷◌ w) (take_loop-ready n (set_waiter waiters w (taken_flags (waiters w))) q)

take_loop-flags :
    (n : ℕ) (waiters : ℕ → FutexWaiter) (q : List ℕ) (v : ℕ)
    → (take_loop n waiters q).1 v
      ≡ (if mem v (take n q) then taken_flags (waiters v) else waiters v)
unfolding take_loop set_waiter
take_loop-flags zero waiters q v = refl
take_loop-flags (suc n) waiters [] v = refl
take_loop-flags (suc n) waiters (w ∷ q) v =
    take_loop-flags n (set_waiter waiters w (taken_flags (waiters w))) q v
    ∙ by_test (Bool-cases (w == v)) (mem v (take n q))
  where
    by_test :
        ((w == v) ≡ true) ⊎ ((w == v) ≡ false)
        → (b : Bool)
        → (if b
            then taken_flags (set_waiter waiters w (taken_flags (waiters w)) v)
            else set_waiter waiters w (taken_flags (waiters w)) v)
          ≡ (if (w == v) || b then taken_flags (waiters v) else waiters v)
    by_test (inl e) true = rw e (ap (λ u. taken_flags (waiters u)) ((==_iff w v).0 e))
    by_test (inl e) false = rw e (ap (λ u. taken_flags (waiters u)) ((==_iff w v).0 e))
    by_test (inr e) true = rw e
    by_test (inr e) false = rw e

pub same_key_refl : (k : FutexKey) → same_key k k ≡ true
unfolding same_key
same_key_refl k = ground arith

pub or_empty-entry : (q : List ℕ) → or_empty (entry_of q) ≡ q
or_empty-entry [] = refl
or_empty-entry (w ∷ q) = refl

-- What taking `n` waiters of a key leaves, and what it hands back.
pub record IsTaken (m : FutexManager) (key : FutexKey) (n : ℕ) (r : FutexManager × List ℕ)
    : Type 0 where
  pub ready : r.1 ≡ take n (or_empty (m.queues key))
  pub rest : r.0.queues key ≡ entry_of (drop n (or_empty (m.queues key)))
  pub others : (k : FutexKey) → same_key key k ≡ false → r.0.queues k ≡ m.queues k
  pub flags :
      (v : ℕ)
      → r.0.waiters v ≡ (
          if mem v (take n (or_empty (m.queues key)))
          then taken_flags (m.waiters v)
          else m.waiters v)

take-nil : (n : ℕ) → ◌≡◌ {A = List ℕ} (take n []) []
take-nil zero = refl
take-nil (suc n) = refl

drop-nil : (n : ℕ) → ◌≡◌ {A = List ℕ} (drop n []) []
drop-nil zero = refl
drop-nil (suc n) = refl

nothing_taken :
    (m : FutexManager) (key : FutexKey) (n : ℕ)
    → m.queues key ≡ none
    → take_woken_waiters m key n ≡ (m, [])
unfolding take_woken_waiters
nothing_taken m key n e = ground arith

some_taken :
    (m : FutexManager) (key : FutexKey) (n : ℕ) (q : List ℕ)
    → m.queues key ≡ some q
    → take_woken_waiters m key n ≡ (
      record {
        queues = set_queue m.queues key (entry_of (take_loop n m.waiters q).0);
        waiters = (take_loop n m.waiters q).1;
      },
      (take_loop n m.waiters q).2,
    )
unfolding take_woken_waiters
some_taken m key n q e = ground arith

IsTaken-none :
    (m : FutexManager) (key : FutexKey) (n : ℕ) → m.queues key ≡ none → IsTaken m key n (m, [])
IsTaken-none m key n e = record {
  ready = sym (take-nil n) ∙ sym (ap (λ q. take n (or_empty q)) e);
  rest = e ∙ sym (ap entry_of (drop-nil n)) ∙ sym (ap (λ q. entry_of (drop n (or_empty q))) e);
  others = λ k h. refl;
  flags = λ v. sym (ap (flag v) (ap (λ q. take n (or_empty q)) e ∙ take-nil n));
}
  where
    flag : ℕ → List ℕ → FutexWaiter
    flag v q = if mem v q then taken_flags (m.waiters v) else m.waiters v

IsTaken-some :
    (m : FutexManager) (key : FutexKey) (n : ℕ) (q : List ℕ)
    → m.queues key ≡ some q
    → IsTaken m key n (
      record {
        queues = set_queue m.queues key (entry_of (take_loop n m.waiters q).0);
        waiters = (take_loop n m.waiters q).1;
      },
      (take_loop n m.waiters q).2,
    )
unfolding set_queue
IsTaken-some m key n q e = record {
  ready = take_loop-ready n m.waiters q ∙ sym (ap (λ q. take n (or_empty q)) e);
  rest = rw (same_key_refl key) (
      ap entry_of (take_loop-rest n m.waiters q)
      ∙ sym (ap (λ q. entry_of (drop n (or_empty q))) e));
  others = λ k h. rw h;
  flags =
      λ v. take_loop-flags n m.waiters q v ∙ sym (ap (flag v) (ap (λ q. take n (or_empty q)) e));
}
  where
    flag : ℕ → List ℕ → FutexWaiter
    flag v q = if mem v q then taken_flags (m.waiters v) else m.waiters v

-- Taking `n` waiters of a key hands back the first `n` of its queue, in their order, or all if
-- there are fewer. They are woken and no longer queued, with their events as they were; all other waiters stay. The
-- others of the queue stay in it, in their order; a queue that is empty is removed, and the queues
-- of other keys stay.
pub take_woken_waiters-IsTaken :
    (m : FutexManager) (key : FutexKey) (n : ℕ) → IsTaken m key n (take_woken_waiters m key n)
take_woken_waiters-IsTaken m key n = elim (Option-cases (m.queues key)) [
  | inl e ↦ subst (IsTaken m key n) (sym (nothing_taken m key n e)) (IsTaken-none m key n e)
  | inr (q, e) ↦ subst (IsTaken m key n) (sym (some_taken m key n q e)) (IsTaken-some m key n q e)
]
