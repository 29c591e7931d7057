-- ===== src/Futex/Places.antt =====
-- Where a waiter stands in its queue as others come, are woken and leave.
use akarin.Base.{
  ℕ, zero, suc, true, false, none, some, List, [], ◌∷◌, ◌++◌, take, drop, ◌==◌, ◌-◌, ◌≡◌, ◌⊎◌, sym,
  ap, ◌∙◌, arith, if◌then◌else◌, Bool-cases, inl, inr, Option-cases,
}
use akarin.Futex.{
  FutexKey, FutexManager, same_key, set_queue, insert_waiter, detach, entry_of, or_empty,
  remove_waiter, remove_from,
}
use akarin.Futex.Queue.{mem, or_empty-entry}

pub mem-take_append :
    (w k : ℕ) (q l : List ℕ) → mem w (take k q) ≡ true → mem w (take k (q ++ l)) ≡ true
mem-take_append w zero q l h = absurd (cc)
mem-take_append w (suc k) [] l h = absurd (cc)
mem-take_append w (suc k) (x ∷ q) l h = ground (arith, mem-take_append w k q l)

mem-take-suc : (w k : ℕ) (q : List ℕ) → mem w (take k q) ≡ true → mem w (take (suc k) q) ≡ true
mem-take-suc w zero q h = absurd (cc)
mem-take-suc w (suc k) [] h = absurd (cc)
mem-take-suc w (suc k) (x ∷ q) h = ground (arith, mem-take-suc w k q)

-- Another waiter that leaves does not move `w` back.
pub mem-take-detach :
    (w k : ℕ) (q : List ℕ) (v : ℕ)
    → (v == w) ≡ false
    → mem w (take k q) ≡ true
    → mem w (take k (detach q v)) ≡ true
unfolding detach
mem-take-detach w zero q v n h = absurd (cc)
mem-take-detach w (suc k) [] v n h = absurd (cc)
mem-take-detach w (suc k) (x ∷ q) v n h = elim (Bool-cases (x == v)) [
  | inl e ↦ rw e (mem-take-suc w k q (ground arith))
  | inr e ↦ rw e (ground (arith, mem-take-detach w k q v n))
]

-- Who is among the first `k` is among the first `n`, or among the `k - n` that come then.
pub mem-take-drop :
    (w k n : ℕ) (q : List ℕ)
    → mem w (take k q) ≡ true
    → mem w (take n q) ≡ false
    → mem w (take (k - n) (drop n q)) ≡ true
mem-take-drop w k zero q h e = let z : k - 0 ≡ k = omega arith in rw z h
mem-take-drop w zero (suc n) q h e = absurd (cc)
mem-take-drop w (suc k) (suc n) [] h e = absurd (cc)
mem-take-drop w (suc k) (suc n) (x ∷ q) h e =
    let z : suc k - suc n ≡ k - n = omega arith in
    rw z (mem-take-drop w k n q (ground arith) (ground arith))

pub same_key-eq : (k l : FutexKey) → same_key k l ≡ true → k ≡ l
unfolding same_key
same_key-eq k l h = ground arith

pub insert-queue :
    (m : FutexManager) (k key : FutexKey) (v : ℕ)
    → or_empty ((insert_waiter m k v).queues key)
      ≡ (if same_key k key then or_empty (m.queues key) ++ v ∷ [] else or_empty (m.queues key))
unfolding insert_waiter set_queue
insert-queue m k key v = elim (Bool-cases (same_key k key)) [
  | inl e ↦ rw e (ap (λ x. or_empty (m.queues x) ++ v ∷ []) (same_key-eq k key e))
  | inr e ↦ rw e
]

not_found :
    (m : FutexManager) (k : FutexKey) (v : ℕ) → m.queues k ≡ none → remove_waiter m k v ≡ (m, false)
unfolding remove_waiter
not_found m k v e = ground arith

found :
    (m : FutexManager) (k : FutexKey) (v : ℕ) (q : List ℕ)
    → m.queues k ≡ some q
    → remove_waiter m k v ≡ remove_from m k v q
unfolding remove_waiter
found m k v q e = ground arith

module _ (m : FutexManager) (k key : FutexKey) (v : ℕ) (q : List ℕ) where
  elsewhere : same_key k key ≡ false → (remove_from m k v q).0.queues key ≡ m.queues key
  unfolding remove_from set_queue
  elsewhere n = ground arith

  detached :
      same_key k key ≡ true
      → (m.waiters v).queued ≡ true
      → (remove_from m k v q).0.queues key ≡ entry_of (detach q v)
  unfolding remove_from set_queue
  detached s f = ground arith

  undetached :
      same_key k key ≡ true
      → (m.waiters v).queued ≡ false
      → (remove_from m k v q).0.queues key ≡ entry_of q
  unfolding remove_from set_queue
  undetached s f = ground arith

pub remove-queue :
    (m : FutexManager) (k key : FutexKey) (v : ℕ)
    → (or_empty ((remove_waiter m k v).0.queues key) ≡ or_empty (m.queues key))
      ⊎ (or_empty ((remove_waiter m k v).0.queues key) ≡ detach (or_empty (m.queues key)) v)
remove-queue m k key v = elim (Option-cases (m.queues k)) [
  | inl e ↦ inl (ap (λ x. or_empty (x.0.queues key)) (not_found m k v e))
  | inr (q, e) ↦ elim (Bool-cases (same_key k key)) [
    | inr n ↦ inl (
        ap (λ x. or_empty (x.0.queues key)) (found m k v q e)
        ∙ ap or_empty (elsewhere m k key v q n))
    | inl s ↦ by_flag s q e (Bool-cases (m.waiters v).queued)
  ]
]
  where
    at_key :
        same_key k key ≡ true → (q : List ℕ) → m.queues k ≡ some q → q ≡ or_empty (m.queues key)
    at_key s q e = sym (ap or_empty e) ∙ ap (λ x. or_empty (m.queues x)) (same_key-eq k key s)

    by_flag :
        same_key k key ≡ true
        → (q : List ℕ) → m.queues k ≡ some q
        → ((m.waiters v).queued ≡ true) ⊎ ((m.waiters v).queued ≡ false)
        → (or_empty ((remove_waiter m k v).0.queues key) ≡ or_empty (m.queues key))
          ⊎ (or_empty ((remove_waiter m k v).0.queues key) ≡ detach (or_empty (m.queues key)) v)
    by_flag s q e (inl f) = inr (
        ap (λ x. or_empty (x.0.queues key)) (found m k v q e)
        ∙ ap or_empty (detached m k key v q s f)
        ∙ or_empty-entry (detach q v)
        ∙ ap (λ x. detach x v) (at_key s q e))
    by_flag s q e (inr f) = inl (
        ap (λ x. or_empty (x.0.queues key)) (found m k v q e)
        ∙ ap or_empty (undetached m k key v q s f)
        ∙ or_empty-entry q
        ∙ at_key s q e)
