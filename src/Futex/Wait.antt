-- ===== src/Futex/Wait.antt =====
-- What giving up leaves of the other flags.
use akarin.Base.{ℕ, ◌≡◌, arith}
use akarin.Futex.{FutexKey, FutexManager, set_waiter, remove_from, remove_waiter}

pub remove_waiter-woken :
    (m : FutexManager) (key : FutexKey) (w v : ℕ)
    → ((remove_waiter m key w).0.waiters v).woken ≡ (m.waiters v).woken
unfolding remove_waiter remove_from set_waiter
remove_waiter-woken m key w v = ground arith
