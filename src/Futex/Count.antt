-- ===== src/Futex/Count.antt =====
-- How often a waiter stands in a queue of the futex service as others come, are woken and leave.
use akarin.Base.{
  ℕ, zero, suc, Bool, true, false, List, [], ◌∷◌, ◌++◌, take, drop, ◌==◌, ◌+◌, ◌≡◌, refl, sym, ap,
  ◌∙◌, arith, if◌then◌else◌, inl, inr, leb,
}
use akarin.Futex.{
  FutexKey, FutexManager, same_key, set_waiter, insert_waiter, detach, or_empty, remove_waiter,
  remove_from, take_woken_waiters,
}
use akarin.Futex.Queue.{mem, taken_flags, or_empty-entry, take_woken_waiters-IsTaken}
use akarin.Futex.Places.{insert-queue, remove-queue}

abbrev pub count : ℕ → List ℕ → ℕ
count w [] = 0
count w (v ∷ q) = (if v == w then 1 else 0) + count w q

pub count-append : (w : ℕ) (q l : List ℕ) → count w (q ++ l) ≡ count w q + count w l
count-append w [] l = omega arith
count-append w (x ∷ q) l = ground (arith, count-append w q l)

pub mem-count : (w : ℕ) (q : List ℕ) → mem w q ≡ leb 1 (count w q)
mem-count w [] = ground arith
mem-count w (x ∷ q) = ground (arith, mem-count w q)

pub count-detach_other :
    (w : ℕ) (q : List ℕ) (v : ℕ) → (v == w) ≡ false → count w (detach q v) ≡ count w q
unfolding detach
count-detach_other w [] v n = refl
count-detach_other w (x ∷ q) v n = ground (arith, count-detach_other w q v n)

pub count-detach_self :
    (w : ℕ) (q : List ℕ) → mem w q ≡ true → count w q ≡ suc (count w (detach q w))
unfolding detach
count-detach_self w [] h = absurd (cc)
count-detach_self w (x ∷ q) h = ground (arith, count-detach_self w q)

count-take-drop : (w n : ℕ) (q : List ℕ) → count w q ≡ count w (take n q) + count w (drop n q)
count-take-drop w zero q = omega arith
count-take-drop w (suc n) [] = omega arith
count-take-drop w (suc n) (x ∷ q) = ground (arith, count-take-drop w n q)

-- How often `w` stands in the queue of a key.
abbrev pub places : FutexManager → ℕ → FutexKey → ℕ
places m w key = count w (or_empty (m.queues key))

pub insert-places :
    (m : FutexManager) (k key : FutexKey) (v w : ℕ)
    → (v == w) ≡ false
    → places (insert_waiter m k v) w key ≡ places m w key
insert-places m k key v w n = ap (count w) (insert-queue m k key v) ∙ by_key (same_key k key)
  where
    by_key :
        (b : Bool)
        → count w (if b then or_empty (m.queues key) ++ v ∷ [] else or_empty (m.queues key))
          ≡ places m w key
    by_key true = ground (arith, count-append w (or_empty (m.queues key)) (v ∷ []))
    by_key false = refl

pub remove-places :
    (m : FutexManager) (k key : FutexKey) (v w : ℕ)
    → (v == w) ≡ false
    → places (remove_waiter m k v).0 w key ≡ places m w key
remove-places m k key v w n = elim (remove-queue m k key v) [
  | inl e ↦ ap (count w) e
  | inr e ↦ ap (count w) e ∙ count-detach_other w (or_empty (m.queues key)) v n
]

-- How often `w` is among those that a wake of `n` takes.
abbrev pub among : FutexManager → ℕ → FutexKey → ℕ → ℕ
among m w k n = count w (take n (or_empty (m.queues k)))

pub take-ready :
    (m : FutexManager) (k : FutexKey) (n w : ℕ)
    → count w (take_woken_waiters m k n).1 ≡ among m w k n
take-ready m k n w = ap (count w) (take_woken_waiters-IsTaken m k n).ready

pub take-places_own :
    (m : FutexManager) (k : FutexKey) (n w : ℕ)
    → places m w k ≡ among m w k n + places (take_woken_waiters m k n).0 w k
take-places_own m k n w =
    count-take-drop w n (or_empty (m.queues k))
    ∙ ap (λ x. among m w k n + count w x)
        (sym (
          ap or_empty (take_woken_waiters-IsTaken m k n).rest
          ∙ or_empty-entry (drop n (or_empty (m.queues k)))))

pub take-places_other :
    (m : FutexManager) (k key : FutexKey) (n w : ℕ)
    → same_key k key ≡ false
    → places (take_woken_waiters m k n).0 w key ≡ places m w key
take-places_other m k key n w e =
    ap (λ q. count w (or_empty q)) ((take_woken_waiters-IsTaken m k n).others key e)

pub take-waiter :
    (m : FutexManager) (k : FutexKey) (n w : ℕ)
    → (take_woken_waiters m k n).0.waiters w
      ≡ (if leb 1 (among m w k n) then taken_flags (m.waiters w) else m.waiters w)
take-waiter m k n w =
    (take_woken_waiters-IsTaken m k n).flags w
    ∙ ap (λ b. if b then taken_flags (m.waiters w) else m.waiters w)
        (mem-count w (take n (or_empty (m.queues k))))

pub insert-waiter :
    (m : FutexManager) (k : FutexKey) (v w : ℕ)
    → (v == w) ≡ false
    → (insert_waiter m k v).waiters w ≡ m.waiters w
unfolding insert_waiter set_waiter
insert-waiter m k v w n = rw n

pub remove-waiter :
    (m : FutexManager) (k : FutexKey) (v w : ℕ)
    → (v == w) ≡ false
    → (remove_waiter m k v).0.waiters w ≡ m.waiters w
unfolding remove_waiter remove_from set_waiter
remove-waiter m k v w n = ground arith
