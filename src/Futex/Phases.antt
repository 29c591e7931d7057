-- ===== src/Futex/Phases.antt =====
-- A wait and its waiter, from the moment it joins its queue: queued, taken by a wake, notified.
use akarin.Base.{
  ℕ, zero, suc, Bool, true, false, ◌||◌, [], ◌∷◌, ◌++◌, ◌==◌, ◌+◌, ◌≡◌, ◌⊎◌, refl, sym, ap, subst,
  ◌∙◌, arith, if◌then◌else◌, inl, inr, leb,
}
use akarin.Futex.{
  FutexKey, Event, Listener, listen, notify, notify_all, poll, poll_end, ok, wait_end, FutexWaiter,
  FutexManager, WaitState, joined, listening, sleeping, done, wait_step, set_event, set_waiter,
}
use akarin.Futex.Queue.{mem, taken_flags}

-- Before the notification: the listener has seen epoch 0, and the task can go on or its waker is
-- with the event.
abbrev pub Early : ℕ → Event → Bool → WaitState → Type 0
Early w e b joined = (e.wakers ≡ []) × (b ≡ true)
Early w e b (listening l) = (l.observed ≡ 0) × (l.registered ≡ false) × (e.wakers ≡ []) × (b ≡ true)
Early w e b (sleeping l) =
    (l.observed ≡ 0)
    × (((l.registered ≡ false) × (e.wakers ≡ []) × (b ≡ true))
        ⊎ ((l.registered ≡ true) × (e.wakers ≡ w ∷ [])))
Early w e b (done r) = r ≡ ok tt

-- After the notification: the task can go on, and its listener is ready.
abbrev pub Late : Bool → WaitState → Type 0
Late b joined = b ≡ true
Late b (listening l) = b ≡ true
Late b (sleeping l) = (l.observed ≡ 0) × (b ≡ true)
Late b (done r) = r ≡ ok tt

-- `x` is the waiter `w`, which is `o` times in its queue and `p` times in those that are taken and
-- not yet notified; `b` says whether its task can go on.
pub data Phase (w : ℕ) (x : FutexWaiter) (o p : ℕ) (b : Bool) (s : WaitState) : Type 0 where
  queued :
      x.woken ≡ false → x.event.epoch ≡ 0 → o ≡ 1 → p ≡ 0 → Early w x.event b s → Phase w x o p b s
  taken :
      x.woken ≡ true → x.event.epoch ≡ 0 → o ≡ 0 → p ≡ 1 → Early w x.event b s → Phase w x o p b s
  notified : x.woken ≡ true → x.event.epoch ≡ 1 → o ≡ 0 → p ≡ 0 → Late b s → Phase w x o p b s

Early-or : (w : ℕ) (e : Event) (b c : Bool) (s : WaitState) → Early w e b s → Early w e (b || c) s
Early-or w e b c joined (n, h) = (n, ground arith)
Early-or w e b c (listening l) (z, f, n, h) = (z, f, n, ground arith)
Early-or w e b c (sleeping l) (z, inl (f, n, h)) = (z, inl (f, n, ground arith))
Early-or w e b c (sleeping l) (z, inr h) = (z, inr h)
Early-or w e b c (done r) h = h

Late-or : (b c : Bool) (s : WaitState) → Late b s → Late (b || c) s
Late-or b c joined h = ground arith
Late-or b c (listening l) h = ground arith
Late-or b c (sleeping l) (z, h) = (z, ground arith)
Late-or b c (done r) h = h

-- The task may be woken at any time.
pub Phase-or :
    (w : ℕ) (x : FutexWaiter) (o p : ℕ) (b c : Bool) (s : WaitState)
    → Phase w x o p b s
    → Phase w x o p (b || c) s
Phase-or w x o p b c s (queued f z i j h) = queued f z i j (Early-or w x.event b c s h)
Phase-or w x o p b c s (taken f z i j h) = taken f z i j (Early-or w x.event b c s h)
Phase-or w x o p b c s (notified f z i j h) = notified f z i j (Late-or b c s h)

-- A wake takes the waiter `a` times, `o'` are left in its queue.
pub Phase-take :
    (w : ℕ) (x : FutexWaiter) (o p a o' : ℕ) (b : Bool) (s : WaitState)
    → o ≡ a + o'
    → Phase w x o p b s
    → Phase w (if leb 1 a then taken_flags x else x) o' (p + a) b s
Phase-take w x o p zero o' b s e (queued f z i j h) = queued f z (omega arith) (omega arith) h
Phase-take w x o p (suc a) o' b s e (queued f z i j h) =
    let t : leb 1 (suc a) ≡ true = ground arith in rw t (taken refl z (omega arith) (omega arith) h)
Phase-take w x o p a o' b s e (taken f z i j h) =
    let t : leb 1 a ≡ false = ground arith in rw t (taken f z (omega arith) (omega arith) h)
Phase-take w x o p a o' b s e (notified f z i j h) =
    let t : leb 1 a ≡ false = ground arith in rw t (notified f z (omega arith) (omega arith) h)

-- The waiter's event once all its listeners have been notified.
abbrev pub told : FutexWaiter → FutexWaiter
told x = record x { event = (notify_all x.event).0 }

told-epoch : (x : FutexWaiter) → x.event.epoch ≡ 0 → (notify_all x.event).0.epoch ≡ 1
unfolding notify_all notify
told-epoch x z = rw z refl

woken_task : (w : ℕ) (e : Event) → e.wakers ≡ w ∷ [] → mem w (notify_all e).1 ≡ true
unfolding notify_all notify
woken_task w e h = rw h (ground arith)

Late-told :
    (w : ℕ) (e : Event) (b : Bool) (s : WaitState)
    → Early w e b s
    → Late (b || mem w (notify_all e).1) s
Late-told w e b joined (n, h) = rw h refl
Late-told w e b (listening l) (z, f, n, h) = rw h refl
Late-told w e b (sleeping l) (z, inl (f, n, h)) = (z, rw h refl)
Late-told w e b (sleeping l) (z, inr (f, n)) = (z, rw (woken_task w e n) (ground arith))
Late-told w e b (done r) h = h

-- A notification takes the waiter out of those that are not yet notified.
pub Phase-notify :
    (w : ℕ) (x : FutexWaiter) (o p p' : ℕ) (b : Bool) (s : WaitState)
    → p ≡ suc p'
    → Phase w x o p b s
    → Phase w (told x) o p' (b || mem w (notify_all x.event).1) s
Phase-notify w x o p p' b s e (queued f z i j h) = absurd (omega arith)
Phase-notify w x o p p' b s e (taken f z i j h) =
    notified f (told-epoch x z) i (omega arith) (Late-told w x.event b s h)
Phase-notify w x o p p' b s e (notified f z i j h) = absurd (omega arith)

pub set_event-own :
    (m : FutexManager) (w : ℕ) (e : Event)
    → (set_event m w e).waiters w ≡ record (m.waiters w) { event = e }
unfolding set_event set_waiter
set_event-own m w e = ground arith

pub set_event-other :
    (m : FutexManager) (v w : ℕ) (e : Event)
    → (v == w) ≡ false
    → (set_event m v e).waiters w ≡ m.waiters w
unfolding set_event set_waiter
set_event-other m v w e n = rw n

poll-first :
    (e : Event) (l : Listener) (w : ℕ)
    → e.epoch ≡ 0
    → l.observed ≡ 0
    → l.registered ≡ false
    → poll e l w ≡ (record e { wakers = e.wakers ++ w ∷ [] }, record l { registered = true }, false)
unfolding poll
poll-first e l w z y f = ground arith

poll-again :
    (e : Event) (l : Listener) (w : ℕ)
    → e.epoch ≡ 0
    → l.observed ≡ 0
    → l.registered ≡ true
    → poll e l w ≡ (e, l, false)
unfolding poll
poll-again e l w z y f = ground arith

poll-ready :
    (e : Event) (l : Listener) (w : ℕ) → e.epoch ≡ 1 → l.observed ≡ 0 → poll e l w ≡ (e, l, true)
unfolding poll
poll-ready e l w z y = ground arith

-- What a step of the wait's task leaves.
pub record Steps (w o p : ℕ) (m : FutexManager) (r : FutexManager × WaitState × Bool) : Type 0 where
  pub phase : Phase w (r.0.waiters w) o p r.2 r.1
  pub queues : r.0.queues ≡ m.queues
  pub others : (v : ℕ) → (r.0.waiters v).woken ≡ (m.waiters v).woken

pub set_event-woken :
    (m : FutexManager) (w v : ℕ) (e : Event)
    → ((set_event m w e).waiters v).woken ≡ (m.waiters v).woken
unfolding set_event set_waiter
set_event-woken m w v e = ground arith

pub set_event-queues : (m : FutexManager) (w : ℕ) (e : Event) → (set_event m w e).queues ≡ m.queues
unfolding set_event
set_event-queues m w e = refl

-- The poll of a task whose listener is not ready.
asleep_Steps :
    (m : FutexManager) (key : FutexKey) (w o p : ℕ) (b : Bool) (l : Listener)
    → ((x : FutexWaiter) (c : Bool) (s : WaitState)
        → x.woken ≡ (m.waiters w).woken
        → x.event.epoch ≡ 0
        → Early w x.event c s
        → Phase w x o p c s)
    → (m.waiters w).event.epoch ≡ 0
    → Early w (m.waiters w).event b (sleeping l)
    → Steps w o p m (wait_step m key w (sleeping l))
unfolding wait_step poll_end
asleep_Steps m key w o p b l f z (y, inl (n, k, h)) =
    let e : Event = record (m.waiters w).event { wakers = (m.waiters w).event.wakers ++ w ∷ [] } in
    rw (poll-first (m.waiters w).event l w z y n) (record {
      phase =
          subst (λ x. Phase w x o p false (sleeping (record l { registered = true })))
            (sym (set_event-own m w e))
            (f (record (m.waiters w) { event = e }) false
              (sleeping (record l { registered = true })) refl z
              (y, inr (refl, ap (λ q. q ++ w ∷ []) k)));
      queues = set_event-queues m w e;
      others = λ v. set_event-woken m w v e;
    })
asleep_Steps m key w o p b l f z (y, inr (n, k)) =
    rw (poll-again (m.waiters w).event l w z y n) (record {
      phase =
          subst (λ x. Phase w x o p false (sleeping l))
            (sym (set_event-own m w (m.waiters w).event))
            (f (m.waiters w) false (sleeping l) refl z (y, inr (n, k)));
      queues = set_event-queues m w (m.waiters w).event;
      others = λ v. set_event-woken m w v (m.waiters w).event;
    })

-- A woken waiter's task that polls a ready listener returns with success.
pub ready-done :
    (m : FutexManager) (key : FutexKey) (w : ℕ) (l : Listener)
    → (m.waiters w).woken ≡ true
    → (m.waiters w).event.epoch ≡ 1
    → l.observed ≡ 0
    → wait_step m key w (sleeping l) ≡ (m, done (ok tt), true)
unfolding wait_step poll_end wait_end
ready-done m key w l f z y = rw (poll-ready (m.waiters w).event l w z y) (rw f)

stays :
    (m : FutexManager) (w o p : ℕ) (b : Bool) (s : WaitState)
    → Phase w (m.waiters w) o p b s
    → Steps w o p m (m, s, b)
stays m w o p b s h = record { phase = h; queues = refl; others = λ v. refl }

-- The next step of a wait's task.
pub wait_step-Steps :
    (m : FutexManager) (key : FutexKey) (w o p : ℕ) (s : WaitState)
    → Phase w (m.waiters w) o p true s
    → Steps w o p m (wait_step m key w s)
unfolding wait_step listen
wait_step-Steps m key w o p joined (queued f z i j (n, h)) =
    stays m w o p true _ (queued f z i j (z, refl, n, refl))
wait_step-Steps m key w o p joined (taken f z i j (n, h)) =
    stays m w o p true _ (taken f z i j (z, refl, n, refl))
wait_step-Steps m key w o p joined (notified f z i j h) =
    stays m w o p true _ (notified f z i j refl)
wait_step-Steps m key w o p (listening l) (queued f z i j (y, n, k, h)) =
    rw f (stays m w o p true _ (queued f z i j (y, inl (n, k, refl))))
wait_step-Steps m key w o p (listening l) (taken f z i j h) =
    rw f (stays m w o p true _ (taken f z i j refl))
wait_step-Steps m key w o p (listening l) (notified f z i j h) =
    rw f (stays m w o p true _ (notified f z i j refl))
wait_step-Steps m key w o p (sleeping l) (queued f z i j h) =
    asleep_Steps m key w o p true l (λ x c s g y k. queued (g ∙ f) y i j k) z h
wait_step-Steps m key w o p (sleeping l) (taken f z i j h) =
    asleep_Steps m key w o p true l (λ x c s g y k. taken (g ∙ f) y i j k) z h
wait_step-Steps m key w o p (sleeping l) (notified f z i j (y, h)) =
    subst (Steps w o p m) (sym (ready-done m key w l f z y))
      (stays m w o p true _ (notified f z i j refl))
wait_step-Steps m key w o p (done r) h = stays m w o p true _ h
