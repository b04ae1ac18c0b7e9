-- ===== src/Timers/Tests.antt =====
-- The theorems on timers at concrete inputs.
use rdma_comm_core.Prelude.{◌+◌, ◌≤◌, ◌≡◌, refl, false, [], ◌∷◌, arith, ok}
use rdma_comm_core.Timers.{Event, Timer, interval, run_ticks, set_timeout, set_interval, cancel}
use rdma_comm_core.Timers.Single.{count}
use rdma_comm_core.Timers.Signals.{Flag, signal}
use rdma_comm_core.Timers.Signals.Auto.{wait, Used, begun, signals, waits, held, Used-bounded}
use rdma_comm_core.Timers.Set.{set_events-count}

abbrev other : Event
other = record { seq_num = 3; kind = interval; ticks = 2; elapsed = 1; signaled = false }

-- A tick of 10 ms, and an event every second one.
abbrev timer : Timer
timer = record { tick = 10000000; ticks = 5; events = other ∷ []; next_seq_num = 4 }

-- In 7 ticks a timeout of 35 ms runs once, and an interval of 35 ms twice.
set_events-count_example :
    ((t' : Timer) × (set_timeout 35000000 timer ≡ ok (4, t'))
      × (count 4 (run_ticks 7 t').1 ≡ 1)
      × (count 4 (run_ticks 7 (cancel 4 t')).1 ≡ 0))
    × ((t' : Timer) × (set_interval 35000000 timer ≡ ok (4, t'))
        × (count 4 (run_ticks 7 t').1 ≡ 2)
        × (count 4 (run_ticks 7 (cancel 4 t')).1 ≡ 0))
set_events-count_example =
    set_events-count 35000000 7 timer (omega arith) (omega arith) (omega arith) (omega arith, tt)

abbrev clear_flag : Flag
clear_flag = record { signaled = false }

-- Two signals that no wait comes between let one wait return.
two_signals : Used clear_flag 2 1 clear_flag
unfolding wait signal
two_signals = waits 2 0 1 (signal (signal clear_flag)) clear_flag (omega arith) refl (
    signals 1 2 0 (signal clear_flag) (omega arith)
      (signals 0 1 0 clear_flag (omega arith) (begun 0 0 refl refl)))

Used-bounded_example : 1 + held clear_flag ≤ 2 + held clear_flag
Used-bounded_example = Used-bounded clear_flag clear_flag 2 1 two_signals
