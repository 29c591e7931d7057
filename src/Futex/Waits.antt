-- ===== src/Futex/Waits.antt =====
-- What holds of a wait while wakes take and notify waiters, and its task takes steps.
use akarin.Base.{
  ℕ, true, false, Option, List, ◌==◌, ◌+◌, ◌≡◌, sym, ap, subst, ◌∙◌, arith, Bool-cases, inl, inr,
  ==_iff,
}
use akarin.Futex.{
  FutexKey, Event, FutexManager, same_key, or_empty, take_woken_waiters, detach, set_event,
  notify_all, wait_step,
}
use akarin.Futex.Queue.{mem}
use akarin.Futex.Places.{same_key-eq}
use akarin.Futex.Count.{
  count, count-append, count-detach_other, count-detach_self, places, among, take-ready,
  take-places_own, take-places_other, take-waiter,
}
use akarin.Futex.Phases.{
  Phase, Phase-or, Phase-take, Phase-notify, set_event-own, set_event-other, set_event-queues,
  Steps, wait_step-Steps,
}
use akarin.Futex.Service.{takes, notifies, proceeds, Service, proceeded, step}

-- Where the wait and its waiter are, and that no other queue has the waiter.
pub record Waits (w : ℕ) (key : FutexKey) (s : Service) : Type 0 where
  pub phase :
      Phase w (s.manager.waiters w) (places s.manager w key) (count w s.pending) s.runnable s.wait
  pub elsewhere : (k : FutexKey) → same_key key k ≡ false → places s.manager w k ≡ 0

-- The manager changes, with the waiter and its places as they were.
pub keeps-Waits :
    (w : ℕ) (key : FutexKey) (s : Service) (m : FutexManager)
    → m.waiters w ≡ s.manager.waiters w
    → ((k : FutexKey) → places m w k ≡ places s.manager w k)
    → Waits w key s
    → Waits w key (record s { manager = m })
keeps-Waits w key s m e q h = record {
  phase = rw (e, q key) h.phase;
  elsewhere = λ k n. q k ∙ h.elsewhere k n;
}

same_key_sym : (k l : FutexKey) → same_key k l ≡ same_key l k
unfolding same_key
same_key_sym k l = ground arith

taken-Waits :
    (w : ℕ) (key : FutexKey) (s : Service) (k : FutexKey) (n : ℕ)
    → Waits w key s
    → places s.manager w key
      ≡ among s.manager w k n + places (take_woken_waiters s.manager k n).0 w key
    → ((l : FutexKey)
        → same_key key l ≡ false
        → places (take_woken_waiters s.manager k n).0 w l ≡ 0)
    → Waits w key (step w key s (takes k n))
unfolding step
taken-Waits w key s k n h e f = record {
  phase =
      rw
        (
          take-waiter s.manager k n w,
          count-append w s.pending (take_woken_waiters s.manager k n).1,
          take-ready s.manager k n w,
        )
        (Phase-take w (s.manager.waiters w) (places s.manager w key) (count w s.pending)
          (among s.manager w k n) (places (take_woken_waiters s.manager k n).0 w key) s.runnable
          s.wait e h.phase);
  elsewhere = f;
}

pub takes-Waits :
    (w : ℕ) (key : FutexKey) (s : Service) (k : FutexKey) (n : ℕ)
    → Waits w key s
    → Waits w key (step w key s (takes k n))
takes-Waits w key s k n h = elim (Bool-cases (same_key k key)) [
  | inl e ↦
      let d : k ≡ key = same_key-eq k key e in
      taken-Waits w key s k n h
        (subst
          (λ x.
            places s.manager w x
            ≡ among s.manager w k n + places (take_woken_waiters s.manager k n).0 w x)
          d (take-places_own s.manager k n w))
        (λ l g.
          take-places_other s.manager k l n w (subst (λ x. same_key x l ≡ false) (sym d) g)
          ∙ h.elsewhere l g)
  | inr e ↦
      let none_there : places s.manager w k ≡ 0 = h.elsewhere k (same_key_sym key k ∙ e) in
      let none_taken : among s.manager w k n ≡ 0 =
        omega (arith, none_there, take-places_own s.manager k n w) in
      taken-Waits w key s k n h (omega (arith, none_taken, take-places_other s.manager k key n w e))
        (λ l g. elim (Bool-cases (same_key k l)) [
          | inl d ↦
              subst (λ x. places (take_woken_waiters s.manager k n).0 w x ≡ 0) (same_key-eq k l d)
                (omega (arith, none_there, take-places_own s.manager k n w))
          | inr d ↦ take-places_other s.manager k l n w d ∙ h.elsewhere l g
        ])
]

event-places :
    (m : FutexManager) (v w : ℕ) (e : Event) (k : FutexKey)
    → places (set_event m v e) w k ≡ places m w k
event-places m v w e k =
    ap (λ (q : FutexKey → Option (List ℕ)). count w (or_empty (q k))) (set_event-queues m v e)

notified_self :
    (w : ℕ) (key : FutexKey) (s : Service)
    → mem w s.pending ≡ true
    → Waits w key s
    → Waits w key (step w key s (notifies w))
unfolding step
notified_self w key s e h =
    let x : Event = (notify_all (s.manager.waiters w).event).0 in
    rw e (record {
      phase =
          rw (set_event-own s.manager w x, event-places s.manager w w x key)
            (Phase-notify w (s.manager.waiters w) (places s.manager w key) (count w s.pending)
              (count w (detach s.pending w)) s.runnable s.wait (count-detach_self w s.pending e)
              h.phase);
      elsewhere = λ k n. event-places s.manager w w x k ∙ h.elsewhere k n;
    })

notified_other :
    (w : ℕ) (key : FutexKey) (s : Service) (v : ℕ)
    → mem v s.pending ≡ true
    → (v == w) ≡ false
    → Waits w key s
    → Waits w key (step w key s (notifies v))
unfolding step
notified_other w key s v e d h =
    let x : Event = (notify_all (s.manager.waiters v).event).0 in
    rw e (record {
      phase =
          rw
            (
              set_event-other s.manager v w x d,
              event-places s.manager v w x key,
              count-detach_other w s.pending v d,
            )
            (Phase-or w (s.manager.waiters w) (places s.manager w key) (count w s.pending)
              s.runnable (mem w (notify_all (s.manager.waiters v).event).1) s.wait h.phase);
      elsewhere = λ k n. event-places s.manager v w x k ∙ h.elsewhere k n;
    })

pub not_pending :
    (w : ℕ) (key : FutexKey) (s : Service) (v : ℕ)
    → mem v s.pending ≡ false
    → step w key s (notifies v) ≡ s
unfolding step
not_pending w key s v e = rw e

pub notifies-Waits :
    (w : ℕ) (key : FutexKey) (s : Service) (v : ℕ)
    → Waits w key s
    → Waits w key (step w key s (notifies v))
notifies-Waits w key s v h = elim (Bool-cases (mem v s.pending)) [
  | inr e ↦ subst (Waits w key) (sym (not_pending w key s v e)) h
  | inl e ↦ elim (Bool-cases (v == w)) [
    | inl d ↦
        let q : w ≡ v = sym ((==_iff v w).0 d) in
        subst (λ u. Waits w key (step w key s (notifies u))) q
          (notified_self w key s (subst (λ u. mem u s.pending ≡ true) (sym q) e) h)
    | inr d ↦ notified_other w key s v e d h
  ]
]

pub proceed_lem :
    (w : ℕ) (key : FutexKey) (s : Service)
    → Waits w key s
    → s.runnable ≡ true
    → Steps w
        (places s.manager w key)
        (count w s.pending)
        s.manager
        (wait_step s.manager key w s.wait)
proceed_lem w key s h e =
    wait_step-Steps s.manager key w (places s.manager w key) (count w s.pending) s.wait (
      subst
        (λ b. Phase w (s.manager.waiters w) (places s.manager w key) (count w s.pending) b s.wait) e
        h.phase)

pub paused : (w : ℕ) (key : FutexKey) (s : Service) → s.runnable ≡ false → step w key s proceeds ≡ s
unfolding step
paused w key s e = ground arith

pub gone_on :
    (w : ℕ) (key : FutexKey) (s : Service)
    → s.runnable ≡ true
    → step w key s proceeds ≡ proceeded s (wait_step s.manager key w s.wait)
unfolding step
gone_on w key s e = ground arith

pub proceeds-Waits :
    (w : ℕ) (key : FutexKey) (s : Service) → Waits w key s → Waits w key (step w key s proceeds)
unfolding proceeded
proceeds-Waits w key s h = elim (Bool-cases s.runnable) [
  | inr e ↦ subst (Waits w key) (sym (paused w key s e)) h
  | inl e ↦
      let t = proceed_lem w key s h e in
      let same = λ (k : FutexKey).
        ap (λ (q : FutexKey → Option (List ℕ)). count w (or_empty (q k))) t.queues in
      subst (Waits w key) (sym (gone_on w key s e))
        (record { phase = rw (same key) t.phase; elsewhere = λ k n. same k ∙ h.elsewhere k n })
]
