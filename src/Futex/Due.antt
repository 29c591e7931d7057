-- ===== src/Futex/Due.antt =====
-- The place of a waiter in the queue of its key, and whether its turn has come.
use akarin.Base.{
  ℕ, zero, suc, Bool, true, false, Option, List, [], ◌∷◌, ◌++◌, take, drop, ◌==◌, ◌-◌, ◌≤◌, ◌≡◌,
  ◌⊎◌, refl, sym, ap, subst, ◌∙◌, arith, if◌then◌else◌, Bool-cases, inl, inr,
}
use akarin.Futex.{
  FutexKey, FutexWaiter, FutexManager, same_key, set_waiter, insert_waiter, or_empty,
  take_woken_waiters, remove_waiter,
}
use akarin.Futex.Queue.{mem, taken_flags, or_empty-entry, take_woken_waiters-IsTaken}
use akarin.Futex.Places.{
  mem-take_append, mem-take-detach, mem-take-drop, insert-queue, remove-queue, same_key-eq,
}
use akarin.Futex.Wait.{remove_waiter-woken}

-- The waiter has been woken, or is among the first `k` of the queue of its key.
unfoldable pub IsDue : FutexManager → FutexKey → ℕ → ℕ → Type 0
IsDue m key w k = ((m.waiters w).woken ≡ true) ⊎ (mem w (take k (or_empty (m.queues key))) ≡ true)

pub arrives-IsDue :
    (m : FutexManager) (k key : FutexKey) (v w n : ℕ)
    → IsDue m key w n
    → IsDue (insert_waiter m k v) key w n
unfolding IsDue
arrives-IsDue m k key v w n (inl h) = inl (unfold insert_waiter set_waiter in ground arith)
arrives-IsDue m k key v w n (inr h) = inr (rw (insert-queue m k key v) (by_key (same_key k key)))
  where
    by_key :
        (b : Bool)
        → mem w (take n (if b then or_empty (m.queues key) ++ v ∷ [] else or_empty (m.queues key)))
          ≡ true
    by_key true = mem-take_append w n (or_empty (m.queues key)) (v ∷ []) h
    by_key false = h

pub leaves-IsDue :
    (m : FutexManager) (k key : FutexKey) (v w n : ℕ)
    → (v == w) ≡ false
    → IsDue m key w n
    → IsDue (remove_waiter m k v).0 key w n
unfolding IsDue
leaves-IsDue m k key v w n d (inl h) = inl (remove_waiter-woken m k v w ∙ h)
leaves-IsDue m k key v w n d (inr h) = elim (remove-queue m k key v) [
  | inl e ↦ inr (ap (λ q. mem w (take n q)) e ∙ h)
  | inr e ↦ inr (ap (λ q. mem w (take n q)) e ∙ mem-take-detach w n (or_empty (m.queues key)) v d h)
]

wakes-woken :
    (m : FutexManager) (k : FutexKey) (n w : ℕ)
    → (m.waiters w).woken ≡ true
    → ((take_woken_waiters m k n).0.waiters w).woken ≡ true
wakes-woken m k n w h =
    ap (λ (x : FutexWaiter). x.woken) ((take_woken_waiters-IsTaken m k n).flags w)
    ∙ stays (mem w (take n (or_empty (m.queues k))))
  where
    stays : (b : Bool) → (if b then taken_flags (m.waiters w) else m.waiters w).woken ≡ true
    stays true = refl
    stays false = h

-- A wake of `c` waiters of the key takes `w`, or moves it `c` places forward.
wakes-own :
    (m : FutexManager) (key : FutexKey) (c w n : ℕ)
    → mem w (take n (or_empty (m.queues key))) ≡ true
    → (((take_woken_waiters m key c).0.waiters w).woken ≡ true)
      ⊎ (mem w (take (n - c) (or_empty ((take_woken_waiters m key c).0.queues key))) ≡ true)
wakes-own m key c w n h =
    let t = take_woken_waiters-IsTaken m key c in
    elim (Bool-cases (mem w (take c (or_empty (m.queues key))))) [
      | inl e ↦ inl (ap (λ (x : FutexWaiter). x.woken) (t.flags w) ∙ rw e)
      | inr e ↦ inr (
          ap (λ q. mem w (take (n - c) q))
            (ap or_empty t.rest ∙ or_empty-entry (drop c (or_empty (m.queues key))))
          ∙ mem-take-drop w n c (or_empty (m.queues key)) h e)
    ]

pub wakes-IsDue :
    (m : FutexManager) (k key : FutexKey) (c w n : ℕ)
    → IsDue m key w n
    → IsDue (take_woken_waiters m k c).0 key w (n - (if same_key k key then c else 0))
unfolding IsDue
wakes-IsDue m k key c w n (inl h) = inl (wakes-woken m k c w h)
wakes-IsDue m k key c w n (inr h) = elim (Bool-cases (same_key k key)) [
  | inr e ↦ inr (rw e (other (ap or_empty ((take_woken_waiters-IsTaken m k c).others key e))))
  | inl e ↦ rw e (own (same_key-eq k key e))
]
  where
    other :
        or_empty ((take_woken_waiters m k c).0.queues key) ≡ or_empty (m.queues key)
        → mem w (take (n - 0) (or_empty ((take_woken_waiters m k c).0.queues key))) ≡ true
    other e = let z : n - 0 ≡ n = omega arith in rw z (ap (λ q. mem w (take n q)) e ∙ h)

    own :
        k ≡ key
        → (((take_woken_waiters m k c).0.waiters w).woken ≡ true)
          ⊎ (mem w (take (n - c) (or_empty ((take_woken_waiters m k c).0.queues key))) ≡ true)
    own e =
        subst
          (λ x.
            (((take_woken_waiters m x c).0.waiters w).woken ≡ true)
            ⊎ (mem w (take (n - c) (or_empty ((take_woken_waiters m x c).0.queues key))) ≡ true))
          (sym e) (wakes-own m key c w n h)

pub nobody_left :
    (m : FutexManager) (key : FutexKey) (w k : ℕ)
    → IsDue m key w k
    → k ≤ 0
    → (m.waiters w).woken ≡ true
unfolding IsDue
nobody_left m key w k (inl h) l = h
nobody_left m key w zero (inr h) l = absurd (cc)
nobody_left m key w (suc k) (inr h) l = absurd (omega arith)

-- A change that keeps the queues and who is woken.
pub same-IsDue :
    (m m' : FutexManager) (key : FutexKey) (w n : ℕ)
    → m'.queues ≡ m.queues
    → (m'.waiters w).woken ≡ (m.waiters w).woken
    → IsDue m key w n
    → IsDue m' key w n
unfolding IsDue
same-IsDue m m' key w n q e (inl h) = inl (e ∙ h)
same-IsDue m m' key w n q e (inr h) =
    inr (ap (λ (x : FutexKey → Option (List ℕ)). mem w (take n (or_empty (x key)))) q ∙ h)
