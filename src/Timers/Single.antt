-- ===== src/Timers/Single.antt =====
-- A single event over any number of ticks.
use native.Mathlib.Nat.{div-eq_of_lt, add-div_left}
use rdma_comm_core.Prelude.{
  ℕ, zero, suc, ◌+◌, ◌/◌, ◌%◌, ◌^◌, ◌<◌, ◌⊎◌, ◌≡◌, refl, sym, ap, ◌∙◌, Bool, true, false, List, [],
  ◌∷◌, ◌++◌, ◌==◌, leb, if◌then◌else◌, arith, Bool-cases, inl, inr,
}
use rdma_comm_core.Timers.{Kind, timeout, interval, Event, proc, settle, elapse, sweep}

-- The events after `m` ticks and the callbacks that ran.
unfoldable pub sweeps : ℕ → List Event → List Event × List ℕ
sweeps zero es = (es, [])
sweeps (suc m) es =
    let (es₁, runs) = sweep es in let (es₂, later) = sweeps m es₁ in (es₂, runs ++ later)

-- How often a number stands in a list.
unfoldable pub count : ℕ → List ℕ → ℕ
count k [] = 0
count k (x ∷ xs) = let rest = count k xs in if x == k then rest + 1 else rest

-- How often a callback runs while the elapsed ticks of its event grow from less than `n` to `m`.
abbrev pub due : Bool → Kind → ℕ → ℕ → ℕ
due true kind n m = 0
due false timeout n m = if leb n m then 1 else 0
due false interval n m = m / n

-- An event that waits for its tick, the counter of which does not wrap.
pub record IsWaiting (e : Event) : Type 0 where
  pub before : e.elapsed < e.ticks
  pub fits : e.ticks < 2 ^ 64

Kind-cases : (k : Kind) → (k ≡ timeout) ⊎ (k ≡ interval)
Kind-cases timeout = inl refl
Kind-cases interval = inr refl

sweeps_nothing : (m : ℕ) → sweeps m [] ≡ ([], [])
unfolding sweeps sweep
sweeps_nothing zero = refl
sweeps_nothing (suc m) = rw (sweeps_nothing m) refl

module _ (e : Event) (w : IsWaiting e) where
  -- A tick before the last one is counted.
  sweep_early :
      e.elapsed + 1 < e.ticks → sweep (e ∷ []) ≡ (record e { elapsed = e.elapsed + 1 } ∷ [], [])
  unfolding sweep settle
  sweep_early lt =
      let f = w.fits in
      let n : (e.elapsed + 1) % 2 ^ 64 ≡ e.elapsed + 1 = omega arith in
      let late : ((e.elapsed + 1) % 2 ^ 64 == e.ticks) ≡ false = ground arith in
      ap (λ b. settle (elapse e) b (proc e.signaled e.kind e.seq_num) ([], [])) late
      ∙ ap (λ k. (record e { elapsed = k } ∷ [], [])) n

  -- At the last one its callback says what happens.
  sweep_last :
      (r : Bool × List ℕ)
      → e.elapsed + 1 ≡ e.ticks
      → proc e.signaled e.kind e.seq_num ≡ r
      → sweep (e ∷ []) ≡ settle (elapse e) true r ([], [])
  unfolding sweep
  sweep_last r eq p =
      let f = w.fits in
      let now : ((e.elapsed + 1) % 2 ^ 64 == e.ticks) ≡ true = ground arith in
      ap (λ b. settle (elapse e) b (proc e.signaled e.kind e.seq_num) ([], [])) now
      ∙ ap (λ q. settle (elapse e) true q ([], [])) p

due_before : (signaled : Bool) (kind : Kind) (n m : ℕ) → m < n → due signaled kind n m ≡ 0
due_before true kind n m lt = refl
due_before false timeout n m lt = ground arith
due_before false interval n m lt = div-eq_of_lt lt

-- From its last tick on an event runs as often as it is due, if its next round does.
last_round :
    (m : ℕ) (e : Event) (signaled : Bool) (kind : Kind)
    → IsWaiting e
    → e.elapsed + 1 ≡ e.ticks
    → e.signaled ≡ signaled
    → e.kind ≡ kind
    → count e.seq_num (sweeps m (record e { elapsed = 0 } ∷ [])).1
      ≡ due e.signaled e.kind e.ticks (0 + m)
    → count e.seq_num (sweeps (suc m) (e ∷ [])).1 ≡ due signaled kind e.ticks (e.elapsed + suc m)
unfolding sweeps count settle proc
last_round m e true kind w eq g k ih =
    rw
      (sweep_last e w (true, []) eq (ap (λ b. proc b e.kind e.seq_num) g), settle, sweeps_nothing m)
      refl
last_round m e false timeout w eq g k ih =
    rw
      (
        sweep_last e w (true, e.seq_num ∷ []) eq
            (ap (λ b. proc b e.kind e.seq_num) g ∙ ap (λ c. proc false c e.seq_num) k),
        sweeps_nothing m,
      )
      (ground arith)
last_round m e false interval w eq g k ih =
    let before = w.before in
    let again : count e.seq_num (sweeps m (record e { elapsed = 0 } ∷ [])).1 ≡ (0 + m) / e.ticks =
      ih ∙ ap (λ b. due b e.kind e.ticks (0 + m)) g ∙ ap (λ c. due false c e.ticks (0 + m)) k in
    let start : 0 + m ≡ m = omega arith in
    let total : e.elapsed + suc m ≡ e.ticks + m = omega arith in
    let self : (e.seq_num == e.seq_num) ≡ true = ground arith in
    rw
      (sweep_last e w (false, e.seq_num ∷ []) eq
        (ap (λ b. proc b e.kind e.seq_num) g ∙ ap (λ c. proc false c e.seq_num) k))
      (rw self (
        ap (λ n. n + 1) (again ∙ ap (λ n. n / e.ticks) start)
        ∙ sym (add-div_left m (omega arith))
        ∙ sym (ap (λ n. n / e.ticks) total)))

-- The callback of an event runs as often as it is due.
pub count-sweeps :
    (m : ℕ) (e : Event)
    → IsWaiting e
    → count e.seq_num (sweeps m (e ∷ [])).1 ≡ due e.signaled e.kind e.ticks (e.elapsed + m)
unfolding sweeps count
count-sweeps zero e w =
    sym (due_before e.signaled e.kind e.ticks (e.elapsed + 0) (let b = w.before in omega arith))
count-sweeps (suc m) e w = elim (Bool-cases (leb (e.elapsed + 2) e.ticks)) [
  | inl early ↦
      let e₁ : Event = record e { elapsed = e.elapsed + 1 } in
      let ih = count-sweeps m e₁ (record { before = ground arith; fits = w.fits }) in
      let same : e.elapsed + 1 + m ≡ e.elapsed + suc m = omega arith in
      rw (sweep_early e w (ground arith)) (ih ∙ ap (due e.signaled e.kind e.ticks) same)
  | inr last ↦
      let eq : e.elapsed + 1 ≡ e.ticks = (let b = w.before in ground arith) in
      last_round m e e.signaled e.kind w eq refl refl (
        count-sweeps m (record e { elapsed = 0 })
          (record { before = (let b = w.before in omega arith); fits = w.fits }))
]
