-- ===== src/Timers/Signals.antt =====
-- What ManualEvent and AutoEvent of include/util/time_event.h share: a flag that threads wait for. The mutex makes
-- every call one step.
pub mod Manual
pub mod Auto
use rdma_comm_core.Prelude.{Bool, true}

-- m_signaled
pub record Flag : Type 0 where
  pub signaled : Bool

unfoldable pub signal : Flag → Flag
signal f = record f { signaled = true }

-- cancel() does what signal() does, in both classes.
unfoldable pub cancel_wait : Flag → Flag
cancel_wait f = record f { signaled = true }
