-- ===== src/Futex.antt =====
-- The futex service of kernel/src/runtime/futex.rs: its wait queues, and what a wait and a wake do
-- under the lock of the manager. A waiter is a number, and so is the waker of its task; what is
-- shared of it is in the manager. The mapping of the address and the word read there come from
-- outside. `Event` and `Listener` are those of library/sync/src/asynchronous/event/mod.rs.
pub mod Queue
pub mod Places
pub mod Wait
pub mod Count
pub mod Phases
pub mod Service
pub mod Due
pub mod Waits
pub mod Liveness
use akarin.Base.{
  ℕ, zero, suc, Bool, true, false, not, ◌&&◌, Option, none, some, List, [], ◌∷◌, ◌++◌, length, take,
  drop, ◌==◌, ◌^◌, ◌-◌, ◌%◌, ◌+◌, if◌then◌else◌,
}
use akarin.Memory.Vmo.{Vmo, VmoChildKind}
use akarin.Memory.Range.{checked_add}
use akarin.Memory.Mapping.{VmarMapping, vmo_offset_for_addr}

pub record FutexKey : Type 0 where
  pub vmo_id : ℕ
  pub vmo_offset : ℕ

unfoldable pub same_key : FutexKey → FutexKey → Bool
same_key k l = (k.vmo_id == l.vmo_id) && (k.vmo_offset == l.vmo_offset)

pub data FutexError : Type 0 where
  invalid_argument fault would_block timed_out not_supported : FutexError

pub data FutexResult (A : Type 0) : Type 0 where
  ok : A → FutexResult A
  err : FutexError → FutexResult A

infixl 5 ◌>>=◌ ◌>>◌
abbrev pub ◌>>=◌ : {A B : Type 0} → FutexResult A → (A → FutexResult B) → FutexResult B
ok a >>= f = f a
err e >>= f = err e

abbrev pub ◌>>◌ : {B : Type 0} → FutexResult (Unit {0}) → FutexResult B → FutexResult B
m >> k = m >>= λ _. k

abbrev pub require : Bool → FutexError → FutexResult (Unit {0})
require true e = ok tt
require false e = err e

abbrev pub ok_or : {A : Type 0} → Option A → FutexError → FutexResult A
ok_or none e = err e
ok_or (some a) e = ok a

-- The wakers in the order in which they were pushed.
pub record Event : Type 0 where
  pub epoch : ℕ
  pub wakers : List ℕ

abbrev pub new_event : Event
new_event = record { epoch = 0; wakers = [] }

pub record Listener : Type 0 where
  pub observed : ℕ
  pub registered : Bool

unfoldable pub listen : Event → Listener
listen event = record { observed = event.epoch; registered = false }

-- `notify`: the event, and the wakers that are woken
unfoldable pub notify : ℕ → Event → Event × List ℕ
notify count event = if count == 0 then (event, []) else (
  record { epoch = (event.epoch + 1) % 2 ^ 64; wakers = drop count event.wakers },
  take count event.wakers,
)

unfoldable pub notify_all : Event → Event × List ℕ
unfolding notify
notify_all = notify (2 ^ 64 - 1)

-- `Listener::poll` by the task with a waker, in one step: whether the listener is ready
unfoldable pub poll : Event → Listener → ℕ → Event × Listener × Bool
poll event listener waker =
    if not (event.epoch == listener.observed)
    then (event, listener, true)
    else if listener.registered
    then (event, listener, false)
    else (
      record event { wakers = event.wakers ++ waker ∷ [] },
      record listener { registered = true },
      false,
    )

pub record FutexWaiter : Type 0 where
  pub woken : Bool
  pub queued : Bool
  pub event : Event

abbrev pub new_waiter : FutexWaiter
new_waiter = record { woken = false; queued = false; event = new_event }

-- `FutexManager`: a queue for each key that has one, and the flags of the waiters.
pub record FutexManager : Type 0 where
  pub queues : FutexKey → Option (List ℕ)
  pub waiters : ℕ → FutexWaiter

abbrev pub new : FutexManager
new = record { queues = λ k. none; waiters = λ w. new_waiter }

-- A store to the entry of a key
unfoldable pub set_queue :
    (FutexKey → Option (List ℕ)) → FutexKey → Option (List ℕ) → FutexKey → Option (List ℕ)
unfolding same_key
set_queue queues key q k = if same_key key k then q else queues k

-- A store to a waiter's flags
unfoldable pub set_waiter : (ℕ → FutexWaiter) → ℕ → FutexWaiter → ℕ → FutexWaiter
set_waiter waiters w x v = if w == v then x else waiters v

-- `or_insert_with(FutexWaitQueue::new)`
abbrev pub or_empty : Option (List ℕ) → List ℕ
or_empty none = []
or_empty (some q) = q

unfoldable pub insert_waiter : FutexManager → FutexKey → ℕ → FutexManager
unfolding set_queue set_waiter
insert_waiter m key w = record {
  queues = set_queue m.queues key (some (or_empty (m.queues key) ++ w ∷ []));
  waiters = set_waiter m.waiters w (record (m.waiters w) { queued = true });
}

-- `detach` of a waiter's link
unfoldable pub detach : List ℕ → ℕ → List ℕ
detach [] w = []
detach (v ∷ q) w = if v == w then q else v ∷ detach q w

-- A queue that has become empty is removed.
abbrev pub entry_of : List ℕ → Option (List ℕ)
entry_of [] = none
entry_of (w ∷ q) = some (w ∷ q)

unfoldable pub remove_from : FutexManager → FutexKey → ℕ → List ℕ → FutexManager × Bool
unfolding set_queue set_waiter detach
remove_from m key w q =
    if (m.waiters w).queued
    then (
      record {
        queues = set_queue m.queues key (entry_of (detach q w));
        waiters = set_waiter m.waiters w (record (m.waiters w) { queued = false });
      },
      true,
    )
    else (record m { queues = set_queue m.queues key (entry_of q) }, false)

unfoldable pub remove_waiter : FutexManager → FutexKey → ℕ → FutexManager × Bool
unfolding remove_from
remove_waiter m key w = elim (m.queues key) [ none ↦ (m, false) | some q ↦ remove_from m key w q ]

-- The loop of `take_woken_waiters`: what is left of the queue, the flags, and those taken.
unfoldable pub take_loop : ℕ → (ℕ → FutexWaiter) → List ℕ → List ℕ × (ℕ → FutexWaiter) × List ℕ
unfolding set_waiter
take_loop zero waiters q = (q, waiters, [])
take_loop (suc n) waiters [] = ([], waiters, [])
take_loop (suc n) waiters (w ∷ q) =
    let (q', waiters', ready) =
      take_loop n (set_waiter waiters w (record (waiters w) { woken = true; queued = false })) q in
    (q', waiters', w ∷ ready)

unfoldable pub take_woken_waiters : FutexManager → FutexKey → ℕ → FutexManager × List ℕ
unfolding set_queue take_loop
take_woken_waiters m key wake_count = elim (m.queues key) [
  | none ↦ (m, [])
  | some q ↦
      let (q', waiters, ready) = take_loop wake_count m.waiters q in
      (record { queues = set_queue m.queues key (entry_of q'); waiters = waiters }, ready)
]

-- A store to a waiter's event
unfoldable pub set_event : FutexManager → ℕ → Event → FutexManager
unfolding set_waiter
set_event m w e = record m { waiters = set_waiter m.waiters w (record (m.waiters w) { event = e }) }

-- The loop that notifies the waiters which a wake has taken
unfoldable pub notify_each : FutexManager → List ℕ → FutexManager
unfolding set_event notify_all
notify_each m [] = m
notify_each m (w ∷ ready) = notify_each (set_event m w (notify_all (m.waiters w).event).0) ready

pub record VmoChildInfo : Type 0 where
  pub kind : VmoChildKind
  pub parent_id : ℕ
  pub parent_offset : ℕ
  pub size : ℕ
  pub stream_size : ℕ

-- The key of an offset in a VMO: that of the parent, if the VMO is a shared view.
unfoldable pub key_of : ℕ → Option VmoChildInfo → ℕ → FutexResult FutexKey
key_of id none offset = ok (record { vmo_id = id; vmo_offset = offset })
key_of id (some child) offset = elim child.kind [
  | VmoChildKind.private_cow ↦ ok (record { vmo_id = id; vmo_offset = offset })
  | VmoChildKind.shared_view ↦ ok_or (checked_add child.parent_offset offset) fault >>= λ o.
      ok (record { vmo_id = child.parent_id; vmo_offset = o })
]

-- The mapping that `mapping_at` gives: nothing at an error, each of which is a fault.
mapping_of : Option (Option VmarMapping) → FutexResult VmarMapping
mapping_of none = err fault
mapping_of (some m) = ok_or m fault

-- `ids` and `children` are the ids of the VMOs and what `child_info` says of them.
module _ (vmos : ℕ → Vmo) (ids : ℕ → ℕ) (children : ℕ → Option VmoChildInfo) where
  unfoldable pub addr_to_key : Option (Option VmarMapping) → ℕ → FutexResult FutexKey
  unfolding key_of mapping_of vmo_offset_for_addr
  addr_to_key found user_addr = do
    m ← mapping_of found
    offset ← ok_or (vmo_offset_for_addr vmos m user_addr) fault
    key_of (ids m.vmo) (children m.vmo) offset

  -- The part of `wait` before it sleeps: the key to wait on. `observed` is what reading the word
  -- gives, or nothing at a fault.
  unfoldable pub wait_key :
      Option (Option VmarMapping) → ℕ → Option ℕ → ℕ → ℕ → FutexResult FutexKey
  unfolding addr_to_key
  wait_key found user_addr observed expected timeout_ns = do
    require (user_addr % 4 == 0) invalid_argument
    key ← addr_to_key found user_addr
    word ← ok_or observed fault
    require (word == expected) would_block
    require (not (timeout_ns == 0)) timed_out
    ok key

  unfoldable pub wake :
      FutexManager → Option (Option VmarMapping) → ℕ → ℕ → FutexManager × FutexResult ℕ
  unfolding addr_to_key take_woken_waiters notify_each
  wake m found user_addr wake_count =
      if not (user_addr % 4 == 0)
      then (m, err invalid_argument)
      else if wake_count == 0
      then (m, ok 0)
      else elim (addr_to_key found user_addr) [
        | err e ↦ (m, err e)
        | ok key ↦
            let (m', ready) = take_woken_waiters m key wake_count in
            (notify_each m' ready, ok (length ready))
      ]

-- The part of `wait` after its sleep; `woke` says whether the event came before the time ran out.
unfoldable pub wait_end : FutexManager → FutexKey → ℕ → Bool → FutexManager × FutexResult (Unit {0})
unfolding remove_waiter
wait_end m key w woke =
    if (m.waiters w).woken
    then (m, ok tt)
    else if woke
    then (m, ok tt)
    else let (m', removed) = remove_waiter m key w in
      if (m'.waiters w).woken then (m', ok tt) else (m', err timed_out)

-- Where a wait without a time limit is once it has joined its queue.
pub data WaitState : Type 0 where
  joined : WaitState
  listening : Listener → WaitState
  sleeping : Listener → WaitState
  done : FutexResult (Unit {0}) → WaitState

poll_end : FutexManager → FutexKey → ℕ → Event × Listener × Bool → FutexManager × WaitState × Bool
unfolding wait_end set_event
poll_end m key w (event, listener, true) = let (m', r) = wait_end m key w true in (m', done r, true)
poll_end m key w (event, listener, false) = (set_event m w event, sleeping listener, false)

-- The next step of the wait's task, and whether the task can go on: it creates the listener, reads
-- `woken`, or polls the listener.
unfoldable pub wait_step : FutexManager → FutexKey → ℕ → WaitState → FutexManager × WaitState × Bool
unfolding listen poll poll_end
wait_step m key w joined = (m, listening (listen (m.waiters w).event), true)
wait_step m key w (listening listener) =
    if (m.waiters w).woken then (m, done (ok tt), true) else (m, sleeping listener, true)
wait_step m key w (sleeping listener) = poll_end m key w (poll (m.waiters w).event listener w)
wait_step m key w (done r) = (m, done r, true)
