-- ===== src/Futex/Liveness.antt =====
-- A wait ends once as many wakes have come for its key as there are waiters up to it.
use akarin.Base.{ℕ, suc, true, List, [], ◌∷◌, ◌++◌, length, take, ◌≡◌, ap, ◌∙◌, arith}
use akarin.Futex.{FutexKey, FutexManager, insert_waiter, or_empty}
use akarin.Futex.Queue.{mem, same_key_refl}
use akarin.Futex.Places.{insert-queue}
use akarin.Futex.Service.{Action, Service, wake_total}
use akarin.Futex.Waits.{Waits}

-- How far an action brings the waiter forward.
abbrev advance : FutexKey → Action → ℕ
advance key a = wake_total key (a ∷ [])

mem-last : (w : ℕ) (q : List ℕ) → mem w (take (suc (length q)) (q ++ w ∷ [])) ≡ true
mem-last w [] = ground arith
mem-last w (x ∷ q) = ground (arith, mem-last w q)

inserted :
    (m : FutexManager) (key : FutexKey) (w : ℕ)
    → mem w (
        take
          (suc (length (or_empty (m.queues key))))
          (or_empty ((insert_waiter m key w).queues key)))
      ≡ true
inserted m key w =
    ap (λ q. mem w (take (suc (length (or_empty (m.queues key)))) q))
      (insert-queue m key key w ∙ rw (same_key_refl key))
    ∙ mem-last w (or_empty (m.queues key))
