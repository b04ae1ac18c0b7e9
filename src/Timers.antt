-- ===== src/Timers.antt =====
-- include/util/time_event.h: TimeEvent, a timer that runs callbacks after a number of ticks. A callback is named
-- by the number of its event, and a run of it is recorded by that number, the latest last; it does not
-- call the timer itself. The thread, which waits for a tick and compensates its drift, is not modelled: a tick
-- is one round of its loop. A duration is a number of nanoseconds.
pub mod Single
pub mod Schedule
pub mod Set
pub mod Stopwatch
pub mod Signals
mod Tests
use rdma_comm_core.Prelude.{
  ℕ, zero, suc, ◌+◌, ◌*◌, ◌/◌, ◌%◌, ◌^◌, Bool, true, false, List, [], ◌∷◌, ◌++◌, ◌==◌, leb, ltb,
  if◌then◌else◌, Outcome, ok, ◌>>=◌, ◌>>◌, check,
}

-- What set_timeout and set_interval make of a callback.
pub data Kind : Type 0 where
  timeout interval : Kind

-- event_ctx; `signaled` is the flag of its ManualEvent.
pub record Event : Type 0 where
  pub seq_num : ℕ
  pub kind : Kind
  pub ticks : ℕ
  pub elapsed : ℕ
  pub signaled : Bool

-- `next_seq_num` is the static kNextSeqNum, which all timers share.
pub record Timer : Type 0 where
  pub tick : ℕ
  pub ticks : ℕ
  pub events : List Event
  pub next_seq_num : ℕ

-- ++ on an unsigned long long
abbrev pub incr : ℕ → ℕ
incr n = (n + 1) % 2 ^ 64

-- proc() of an event: whether the event is to be removed, and the callbacks that it runs.
unfoldable pub proc : Bool → Kind → ℕ → Bool × List ℕ
proc true kind seq_num = (true, [])
proc false timeout seq_num = (true, seq_num ∷ [])
proc false interval seq_num = (false, seq_num ∷ [])

-- The body of the loop over the events: `due` says that the event's ticks have elapsed, and the last argument
-- is what the rest of the loop gives.
unfoldable pub settle : Event → Bool → Bool × List ℕ → List Event × List ℕ → List Event × List ℕ
settle e false r (rest, later) = (e ∷ rest, later)
settle e true (true, runs) (rest, later) = (rest, runs ++ later)
settle e true (false, runs) (rest, later) = (record e { elapsed = 0 } ∷ rest, runs ++ later)

-- ++event.elapsed
abbrev pub elapse : Event → Event
elapse e = record e { elapsed = incr e.elapsed }

-- The loop over the events at a tick: those that stay, and the callbacks that run.
unfoldable pub sweep : List Event → List Event × List ℕ
sweep [] = ([], [])
sweep (e ∷ es) =
    settle (elapse e) (incr e.elapsed == e.ticks) (proc e.signaled e.kind e.seq_num) (sweep es)

-- A round of the thread's loop.
unfoldable pub on_tick : Timer → Timer × List ℕ
on_tick t =
    let (events, runs) = sweep t.events in
    (record t { ticks = incr t.ticks; events = events }, runs)

unfoldable pub run_ticks : ℕ → Timer → Timer × List ℕ
run_ticks zero t = (t, [])
run_ticks (suc n) t =
    let (t₁, runs) = on_tick t in let (t₂, later) = run_ticks n t₁ in (t₂, runs ++ later)

-- m_events.insert: a std::set in the order of the numbers, which holds no number twice.
unfoldable pub insert_event : Event → List Event → List Event
insert_event e [] = e ∷ []
insert_event e (x ∷ xs) =
    let rest = insert_event e xs in
    if ltb x.seq_num e.seq_num
    then x ∷ rest
    else if e.seq_num == x.seq_num
    then x ∷ xs
    else e ∷ x ∷ xs

-- The event that both functions insert, and its number.
abbrev pub new_event : Kind → ℕ → Timer → Event
new_event kind duration t = record {
  seq_num = t.next_seq_num;
  kind = kind;
  ticks = duration / t.tick % 2 ^ 64;
  elapsed = 0;
  signaled = false;
}

abbrev pub add_event : Event → Timer → Timer
add_event e t = record t { events = insert_event e t.events; next_seq_num = incr t.next_seq_num }

-- The handle that they return stands for the ManualEvent of the event with that number.
unfoldable pub set_timeout : ℕ → Timer → Outcome (ℕ × Timer)
set_timeout duration t =
    check (leb t.tick duration) >> ok (t.next_seq_num, add_event (new_event timeout duration t) t)

unfoldable pub set_interval : ℕ → Timer → Outcome (ℕ × Timer)
set_interval duration t =
    check (leb t.tick duration) >> ok (t.next_seq_num, add_event (new_event interval duration t) t)

-- cancel() and signal() of the ManualEvent that a handle stands for.
unfoldable pub cancel_event : ℕ → List Event → List Event
cancel_event k [] = []
cancel_event k (e ∷ es) =
    (if e.seq_num == k then record e { signaled = true } else e) ∷ cancel_event k es

unfoldable pub cancel : ℕ → Timer → Timer
cancel k t = record t { events = cancel_event k t.events }
