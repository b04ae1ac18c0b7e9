-- ===== src/Timers/Schedule.antt =====
-- What a timer runs over any number of ticks.
use rdma_comm_core.Prelude.{
  ℕ, zero, suc, ◌+◌, ◌≡◌, refl, sym, ap, ◌∙◌, Bool, true, false, List, [], ◌∷◌, ◌++◌, ◌==◌, All,
  append_assoc, arith, Bool-cases, inl, inr,
}
use rdma_comm_core.Timers.{
  Kind, timeout, interval, Event, Timer, proc, settle, elapse, incr, sweep, on_tick, run_ticks,
}
use rdma_comm_core.Timers.Single.{sweeps, count, due, IsWaiting, count-sweeps}

count-append : (k : ℕ) (xs ys : List ℕ) → count k (xs ++ ys) ≡ count k xs + count k ys
unfolding count
count-append k [] ys = omega arith
count-append k (x ∷ xs) ys =
    let ih = count-append k xs ys in
    elim (Bool-cases (x == k)) [ inl same ↦ rw same (omega arith) | inr other ↦ rw other ih ]

-- A tick treats the events one by one.
settle_apart :
    (e : Event) (b : Bool) (r : Bool × List ℕ) (es : List Event) (runs : List ℕ)
    → settle e b r (es, runs) ≡ ((settle e b r ([], [])).0 ++ es, (settle e b r ([], [])).1 ++ runs)
unfolding settle
settle_apart e false r es runs = refl
settle_apart e true (true, now) es runs = ap (λ xs. (es, xs)) (sym (append_assoc now [] runs))
settle_apart e true (false, now) es runs =
    ap (λ xs. (record e { elapsed = 0 } ∷ es, xs)) (sym (append_assoc now [] runs))

sweep_append :
    (es fs : List Event)
    → sweep (es ++ fs) ≡ ((sweep es).0 ++ (sweep fs).0, (sweep es).1 ++ (sweep fs).1)
unfolding sweep
sweep_append [] fs = refl
sweep_append (e ∷ es) fs =
    let b = incr e.elapsed == e.ticks in
    let r = proc e.signaled e.kind e.seq_num in
    let alone = settle (elapse e) b r ([], []) in
    ap (settle (elapse e) b r) (sweep_append es fs)
    ∙ settle_apart (elapse e) b r ((sweep es).0 ++ (sweep fs).0) ((sweep es).1 ++ (sweep fs).1)
    ∙ ap (λ (xs : List Event). (xs, alone.1 ++ ((sweep es).1 ++ (sweep fs).1)))
        (sym (append_assoc alone.0 (sweep es).0 (sweep fs).0))
    ∙ ap (λ (xs : List ℕ). ((alone.0 ++ (sweep es).0) ++ (sweep fs).0, xs))
        (sym (append_assoc alone.1 (sweep es).1 (sweep fs).1))
    ∙ ap (λ (q : List Event × List ℕ). (q.0 ++ (sweep fs).0, q.1 ++ (sweep fs).1))
        (sym (settle_apart (elapse e) b r (sweep es).0 (sweep es).1))

count-sweeps-append :
    (k m : ℕ) (es fs : List Event)
    → count k (sweeps m (es ++ fs)).1 ≡ count k (sweeps m es).1 + count k (sweeps m fs).1
unfolding sweeps
count-sweeps-append k zero es fs = unfold count in omega arith
count-sweeps-append k (suc m) es fs =
    let ih = count-sweeps-append k m (sweep es).0 (sweep fs).0 in
    let a = count-append k (sweep es).1 (sweep fs).1 in
    let b =
      count-append k ((sweep es).1 ++ (sweep fs).1) (sweeps m ((sweep es).0 ++ (sweep fs).0)).1 in
    let c = count-append k (sweep es).1 (sweeps m (sweep es).0).1 in
    let d = count-append k (sweep fs).1 (sweeps m (sweep fs).0).1 in
    rw (sweep_append es fs) (omega arith)

-- No event of the list has the number `k`.
abbrev pub AllOther : ℕ → List Event → Type 0
AllOther k = All (λ (e : Event). (e.seq_num == k) ≡ false)

settle-AllOther :
    (k : ℕ) (e : Event) (b signaled : Bool) (kind : Kind) (rest : List Event × List ℕ)
    → (e.seq_num == k) ≡ false
    → AllOther k rest.0
    → count k rest.1 ≡ 0
    → AllOther k (settle e b (proc signaled kind e.seq_num) rest).0
      × (count k (settle e b (proc signaled kind e.seq_num) rest).1 ≡ 0)
unfolding settle proc count
settle-AllOther k e false signaled kind rest h all none = ((h, all), none)
settle-AllOther k e true true kind rest h all none = (all, none)
settle-AllOther k e true false timeout rest h all none = (all, rw h none)
settle-AllOther k e true false interval rest h all none = ((h, all), rw h none)

sweep-AllOther :
    (k : ℕ) (es : List Event) → AllOther k es → AllOther k (sweep es).0 × (count k (sweep es).1 ≡ 0)
unfolding sweep
sweep-AllOther k [] h = (tt, unfold count in refl)
sweep-AllOther k (e ∷ es) h =
    let ih = sweep-AllOther k es h.1 in
    settle-AllOther k (elapse e) (incr e.elapsed == e.ticks) e.signaled e.kind (sweep es) h.0 ih.0
      ih.1

count-sweeps_other : (k m : ℕ) (es : List Event) → AllOther k es → count k (sweeps m es).1 ≡ 0
unfolding sweeps
count-sweeps_other k zero es h = unfold count in refl
count-sweeps_other k (suc m) es h =
    let (all, none) = sweep-AllOther k es h in
    let rest = count-sweeps_other k m (sweep es).0 all in
    let sum = count-append k (sweep es).1 (sweeps m (sweep es).0).1 in omega arith

run_ticks-sweeps : (m : ℕ) (t : Timer) → (run_ticks m t).1 ≡ (sweeps m t.events).1
unfolding run_ticks sweeps on_tick
run_ticks-sweeps zero t = refl
run_ticks-sweeps (suc m) t =
    ap (λ xs. (sweep t.events).1 ++ xs)
      (run_ticks-sweeps m (record t { ticks = incr t.ticks; events = (sweep t.events).0 }))

-- Among other events with other numbers, the callback of an event that waits for its tick runs, in `m` ticks of
-- the timer: never where it was cancelled; once where it is a timeout and its ticks are over by then; and at
-- every full interval where it is an interval. Its ticks must fit an unsigned long long.
pub run_ticks-count :
    (m : ℕ) (t : Timer) (before after : List Event) (e : Event)
    → t.events ≡ before ++ e ∷ after
    → AllOther e.seq_num before
    → AllOther e.seq_num after
    → IsWaiting e
    → count e.seq_num (run_ticks m t).1 ≡ due e.signaled e.kind e.ticks (e.elapsed + m)
run_ticks-count m t before after e eq b a w =
    let k = e.seq_num in
    let first = count-sweeps-append k m before (e ∷ after) in
    let second = count-sweeps-append k m (e ∷ []) after in
    let none₁ = count-sweeps_other k m before b in
    let none₂ = count-sweeps_other k m after a in
    let mine = count-sweeps m e w in
    ap (count k) (run_ticks-sweeps m t) ∙ ap (λ es. count k (sweeps m es).1) eq ∙ omega arith
