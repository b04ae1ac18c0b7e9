-- ===== src/Timers/Signals/Auto.antt =====
-- AutoEvent: a wait that is signaled uses the signal up. Waits are taken as in ManualEvent.
use rdma_comm_core.Prelude.{
  ℕ, ◌+◌, ◌≤◌, ◌≡◌, Bool, false, Option, none, some, if◌then◌else◌, Bool-cases, inl, inr, arith,
}
use rdma_comm_core.Timers.Signals.{Flag, signal, cancel_wait}

unfoldable pub wait : Flag → Option Flag
wait f = if f.signaled then some (record f { signaled = false }) else none

unfoldable pub wait_for : Flag → Bool × Flag
wait_for f = (f.signaled, if f.signaled then record f { signaled = false } else f)

-- What the threads do with an AutoEvent: `s` calls of signal or cancel and `w` waits that were signaled lie
-- between the two flags.
pub data Used (f : Flag) : ℕ → ℕ → Flag → Type 0 where
  begun : (s w : ℕ) → s ≡ 0 → w ≡ 0 → Used f s w f
  signals : (s s' w : ℕ) (g : Flag) → s' ≡ s + 1 → Used f s w g → Used f s' w (signal g)
  cancels : (s s' w : ℕ) (g : Flag) → s' ≡ s + 1 → Used f s w g → Used f s' w (cancel_wait g)
  waits : (s w w' : ℕ) (g g' : Flag) → w' ≡ w + 1 → wait g ≡ some g' → Used f s w g → Used f s w' g'
  waits_for :
      (s w w' : ℕ) (g : Flag)
      → w' ≡ w + (if (wait_for g).0 then 1 else 0)
      → Used f s w g
      → Used f s w' (wait_for g).1

-- 1 for a flag that is set
abbrev pub held : Flag → ℕ
held f = if f.signaled then 1 else 0

wait-held : (g g' : Flag) → wait g ≡ some g' → (held g ≡ 1) × (held g' ≡ 0)
unfolding wait
wait-held g g' e = ground arith

-- Whatever the threads do, no more waits on an AutoEvent are signaled than there were signals, the one that was
-- pending at the start included; one that is pending at the end is not used up.
pub Used-bounded : (f g : Flag) (s w : ℕ) → Used f s w g → w + held g ≤ s + held f
unfolding signal cancel_wait wait_for
Used-bounded f _ s w (begun _ _ e e') = omega arith
Used-bounded f _ s w (signals s₀ _ _ g e u) = let ih = Used-bounded f g s₀ w u in ground arith
Used-bounded f _ s w (cancels s₀ _ _ g e u) = let ih = Used-bounded f g s₀ w u in ground arith
Used-bounded f g' s w (waits _ w₀ _ g _ e took u) =
    let ih = Used-bounded f g s w₀ u in let (one, none_left) = wait-held g g' took in omega arith
Used-bounded f _ s w (waits_for _ w₀ _ g e u) =
    let ih = Used-bounded f g s w₀ u in
    elim (Bool-cases g.signaled) [ inl set ↦ ground arith | inr clear ↦ ground arith ]
