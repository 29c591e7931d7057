-- ===== src/Examples/Futexes.antt =====
-- The theorems on futexes at concrete inputs.
use akarin.Base.{List, [], ◌∷◌}
use akarin.Futex.{FutexKey, FutexManager, new, insert_waiter, take_woken_waiters}
use akarin.Futex.Queue.{IsTaken, take_woken_waiters-IsTaken}
use akarin.Futex.Service.{Action, arrives, takes, notifies, leaves, proceeds}

abbrev lock_key : FutexKey
lock_key = record { vmo_id = 7; vmo_offset = 0x40 }

-- Two waiters, 1 and then 2.
two_wait : FutexManager
two_wait = insert_waiter (insert_waiter new lock_key 1) lock_key 2

take_woken_waiters-IsTaken_example :
    IsTaken two_wait lock_key 1 (take_woken_waiters two_wait lock_key 1)
take_woken_waiters-IsTaken_example = take_woken_waiters-IsTaken two_wait lock_key 1

-- A third waits: the first gives up, the second is taken, a fourth comes, the third falls asleep, and
-- is taken with the fourth; all that were taken are notified.
abbrev acts : List Action
acts =
    leaves lock_key 1
    ∷ takes lock_key 1
    ∷ arrives lock_key 4
    ∷ proceeds
    ∷ proceeds
    ∷ proceeds
    ∷ takes lock_key 2
    ∷ notifies 4
    ∷ notifies 2
    ∷ notifies 3
    ∷ []
