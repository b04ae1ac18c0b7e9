-- ===== src/Timers/Signals/Manual.antt =====
-- ManualEvent: the flag stays set until it is reset. A wait that blocks has no result, and is taken when it returns;
-- one with a limit is taken at its end, with the flag as it is then.
use rdma_comm_core.Prelude.{◌≡◌, refl, Bool, false, Option, none, some, if◌then◌else◌}
use rdma_comm_core.Timers.Signals.{Flag, signal}

unfoldable pub wait : Flag → Option Flag
wait f = if f.signaled then some f else none

unfoldable pub wait_for : Flag → Bool × Flag
wait_for f = (f.signaled, f)

unfoldable pub reset : Flag → Flag
reset f = record f { signaled = false }

-- After a signal every wait returns, and leaves the flag for the others.
pub wait-signal : (f : Flag) → wait (signal f) ≡ some (signal f)
unfolding wait signal
wait-signal f = refl
