-- ===== src/Timers/Set.antt =====
-- set_timeout and set_interval with the ticks that follow.
use native.Mathlib.Nat.{le-div_iff_mul-le}
use rdma_comm_core.Prelude.{
  ℕ, ◌+◌, ◌/◌, ◌%◌, ◌^◌, ◌≤◌, ◌<◌, ◌≡◌, refl, ap, ◌∙◌, true, false, List, [], ◌∷◌, ◌++◌, ◌==◌, leb,
  ltb, if◌then◌else◌, All, arith, ok,
}
use rdma_comm_core.Timers.{
  Kind, timeout, interval, Event, Timer, new_event, insert_event, run_ticks, set_timeout,
  set_interval, cancel_event, cancel, add_event,
}
use rdma_comm_core.Timers.Single.{count, due, IsWaiting}
use rdma_comm_core.Timers.Schedule.{AllOther, run_ticks-count}

-- The numbers of the events have all been given out.
abbrev pub AreNumbered : Timer → Type 0
AreNumbered t = All (λ (x : Event). x.seq_num < t.next_seq_num) t.events

insert_event_last :
    (e : Event) (es : List Event)
    → All (λ (x : Event). x.seq_num < e.seq_num) es
    → insert_event e es ≡ es ++ e ∷ []
unfolding insert_event
insert_event_last e [] h = refl
insert_event_last e (x ∷ xs) h =
    let ih = insert_event_last e xs h.1 in
    let lt : ltb x.seq_num e.seq_num ≡ true = (let l = h.0 in ground arith) in
    rw (lt, insert_event) (ap (λ es. x ∷ es) ih)

below-AllOther : (k : ℕ) (es : List Event) → All (λ (x : Event). x.seq_num < k) es → AllOther k es
below-AllOther k [] h = tt
below-AllOther k (x ∷ xs) h = ((let l = h.0 in ground arith), below-AllOther k xs h.1)

cancel_event_last :
    (k : ℕ) (es : List Event) (e : Event)
    → AllOther k es
    → (e.seq_num == k) ≡ true
    → cancel_event k (es ++ e ∷ []) ≡ es ++ record e { signaled = true } ∷ []
unfolding cancel_event
cancel_event_last k [] e h same = rw same refl
cancel_event_last k (x ∷ xs) e h same =
    rw (h.0, cancel_event) (ap (λ es. x ∷ es) (cancel_event_last k xs e h.1 same))

-- A duration in whole ticks.
abbrev pub whole : ℕ → Timer → ℕ
whole duration t = duration / t.tick

module _ (duration m : ℕ) (t : Timer) (ticking : 0 < t.tick) (long : t.tick ≤ duration)
    (fits : whole duration t < 2 ^ 64) (numbered : AreNumbered t) where
  new_event-IsWaiting : (kind : Kind) → IsWaiting (new_event kind duration t)
  new_event-IsWaiting kind =
      let one : 1 ≤ whole duration t = (le-div_iff_mul-le ticking).1 (omega arith) in
      record { before = omega arith; fits = omega arith }

  -- The number of the new event is its own, and so its callback runs just when the event is due.
  new_event-count :
      (kind : Kind)
      → (count t.next_seq_num (run_ticks m (add_event (new_event kind duration t) t)).1
          ≡ due false kind (whole duration t) m)
        × (count t.next_seq_num
              (run_ticks m (cancel t.next_seq_num (add_event (new_event kind duration t) t))).1
            ≡ 0)
  unfolding cancel
  new_event-count kind =
      let e = new_event kind duration t in
      let k = t.next_seq_num in
      let w = new_event-IsWaiting kind in
      let others = below-AllOther k t.events numbered in
      let last = insert_event_last e t.events numbered in
      let self : (k == k) ≡ true = ground arith in
      let exact : whole duration t % 2 ^ 64 ≡ whole duration t = omega arith in
      let start : 0 + m ≡ m = omega arith in
      (
        run_ticks-count m (add_event e t) t.events [] e last others tt w
            ∙ ap (λ n. due false kind n (0 + m)) exact
            ∙ ap (due false kind (whole duration t)) start,
        run_ticks-count m (cancel k (add_event e t)) t.events [] (record e { signaled = true })
            (ap (cancel_event k) last ∙ cancel_event_last k t.events e others self) others tt
            (record { before = w.before; fits = w.fits }),
      )

  -- In a timer whose events have numbers that were given out before, with a tick and a duration of at least that
  -- tick, whose ticks fit an unsigned long long: the callback given to set_timeout runs once in `m` ticks,
  -- if these make up the duration in whole ticks, and else not; the one given to set_interval runs once for every
  -- full duration among them; and after cancel neither runs.
  pub set_events-count :
      ((t' : Timer) × (set_timeout duration t ≡ ok (t.next_seq_num, t'))
        × (count t.next_seq_num (run_ticks m t').1 ≡ (if leb (whole duration t) m then 1 else 0))
        × (count t.next_seq_num (run_ticks m (cancel t.next_seq_num t')).1 ≡ 0))
      × ((t' : Timer) × (set_interval duration t ≡ ok (t.next_seq_num, t'))
          × (count t.next_seq_num (run_ticks m t').1 ≡ m / whole duration t)
          × (count t.next_seq_num (run_ticks m (cancel t.next_seq_num t')).1 ≡ 0))
  unfolding set_timeout set_interval
  set_events-count =
      let enough : leb t.tick duration ≡ true = ground arith in
      (
        (_, rw enough refl, (new_event-count timeout).0, (new_event-count timeout).1),
        (_, rw enough refl, (new_event-count interval).0, (new_event-count interval).1),
      )
