-- ===== src/Futex/Service.antt =====
-- One wait of kernel/src/runtime/futex.rs, and what others do to the service in the meantime.
use akarin.Base.{ℕ, Bool, true, not, ◌&&◌, ◌||◌, List, [], ◌∷◌, ◌++◌, ◌==◌, ◌+◌, if◌then◌else◌}
use akarin.Futex.{
  FutexKey, FutexManager, same_key, insert_waiter, take_woken_waiters, remove_waiter, detach,
  set_event, notify_all, WaitState, joined, wait_step,
}
use akarin.Futex.Queue.{mem}

-- What happens around one wait: another waiter joins a queue, a wake takes waiters of a key, a waiter
-- that was taken is notified, another waiter gives up, the wait's own task takes a step. A wake is
-- `takes` and then `notifies` for each waiter that it took; those of several wakes may come in any
-- order, with other things between them.
pub data Action : Type 0 where
  arrives : FutexKey → ℕ → Action
  takes : FutexKey → ℕ → Action
  notifies : ℕ → Action
  leaves : FutexKey → ℕ → Action
  proceeds : Action

-- The manager, those taken and not yet notified, and the wait: where it is, and whether its task can
-- go on.
pub record Service : Type 0 where
  pub manager : FutexManager
  pub pending : List ℕ
  pub wait : WaitState
  pub runnable : Bool

unfoldable pub proceeded : Service → FutexManager × WaitState × Bool → Service
proceeded s (m, st, b) = record s { manager = m; wait = st; runnable = b }

-- The waiter and its task are `w`, the key is that on which it waits.
unfoldable pub step : ℕ → FutexKey → Service → Action → Service
unfolding proceeded
step w key s (arrives k v) = record s { manager = insert_waiter s.manager k v }
step w key s (takes k n) =
    let (m, ready) = take_woken_waiters s.manager k n in
    record s { manager = m; pending = s.pending ++ ready }
step w key s (notifies v) =
    if not (mem v s.pending)
    then s
    else let (event, tasks) = notify_all (s.manager.waiters v).event in
      record s {
        manager = set_event s.manager v event;
        pending = detach s.pending v;
        runnable = s.runnable || mem w tasks;
      }
step w key s (leaves k v) = record s { manager = (remove_waiter s.manager k v).0 }
step w key s proceeds = if s.runnable then proceeded s (wait_step s.manager key w s.wait) else s

unfoldable pub run : ℕ → FutexKey → Service → List Action → Service
unfolding step
run w key s [] = s
run w key s (a ∷ rest) = run w key (step w key s a) rest

-- How many wakes come for a key.
unfoldable pub wake_total : FutexKey → List Action → ℕ
wake_total key [] = 0
wake_total key (takes k n ∷ rest) = (if same_key k key then n else 0) + wake_total key rest
wake_total key (_ ∷ rest) = wake_total key rest

-- None of the waits that begin or give up is the waiter's.
unfoldable pub leaves_alone : ℕ → List Action → Bool
leaves_alone w [] = true
leaves_alone w (arrives k v ∷ rest) = not (v == w) && leaves_alone w rest
leaves_alone w (leaves k v ∷ rest) = not (v == w) && leaves_alone w rest
leaves_alone w (_ ∷ rest) = leaves_alone w rest

-- Three steps of its own task.
abbrev pub three : List Action
three = proceeds ∷ proceeds ∷ proceeds ∷ []

-- A wait that has just joined its queue.
abbrev pub start : FutexManager → FutexKey → ℕ → Service
start m key w = record {
  manager = insert_waiter m key w;
  pending = [];
  wait = joined;
  runnable = true;
}
