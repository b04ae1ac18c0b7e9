-- ===== src/Timers/Stopwatch.antt =====
-- include/util/time_record.h: Timer, a stopwatch. The readings of the steady clock are arguments, in nanoseconds;
-- the clock does not go back.
use rdma_comm_core.Prelude.{ℕ, ◌-◌, ◌/◌, ◌≡◌, refl, Bool, true, false, if◌then◌else◌}

-- The members but for those that keep the last reading of each unit, and `initted_`, which is always set.
pub record Stopwatch : Type 0 where
  pub running : Bool
  pub has_run_at_least_once : Bool
  pub start_cpu : ℕ
  pub stop_cpu : ℕ

unfoldable pub start : ℕ → Stopwatch → Stopwatch
start now t =
    if t.running
    then t
    else record t { start_cpu = now; running = true; has_run_at_least_once = true }

unfoldable pub stop : ℕ → Stopwatch → Stopwatch
stop now t = if t.running then record t { stop_cpu = now; running = false } else t

-- MilliSeconds, MicroSeconds, NanoSeconds and Seconds, for a unit of that many nanoseconds.
unfoldable pub reading : ℕ → ℕ → Stopwatch → ℕ × Stopwatch
unfolding stop
reading unit now t =
    if t.has_run_at_least_once
    then (((stop now t).stop_cpu - (stop now t).start_cpu) / unit, stop now t)
    else (0, t)

-- A stopwatch that was started at `a` and stopped at `b` gives the time between, however often it was started again
-- before or stopped after that, and whenever it is read.
pub reading_between :
    (unit a a' b b' now : ℕ) (t : Stopwatch)
    → t.running ≡ false
    → (reading unit now (stop b' (stop b (start a' (start a t))))).0 ≡ (b - a) / unit
unfolding reading start stop
reading_between unit a a' b b' now t e = rw e refl

-- A stopwatch that runs is stopped by a reading.
pub reading_running :
    (unit a now : ℕ) (t : Stopwatch)
    → t.running ≡ false
    → (reading unit now (start a t)).0 ≡ (now - a) / unit
unfolding reading start stop
reading_running unit a now t e = rw e refl
