-- ===== src/Benchmark/Waits.antt =====
-- What a wait on the completion queue gives.
use rdma_comm_core.Prelude.{
  ℕ, zero, suc, ◌<◌, ◌≡◌, ◌≢◌, refl, true, ◌⊎◌, inl, inr, some, List, [], ◌∷◌, ◌++◌, length, drop,
  arith, ok,
}
use rdma_comm_core.Verbs.{Verbs, Trace, Wc, WcOpcode, poll_cq}
use rdma_comm_core.Device.Post.{real_poll_completion_queue}
use rdma_comm_core.Adapter.Transfer.{poll_cq_batch}
use rdma_comm_core.Session.Defaults.Calls.{sends}
use rdma_comm_core.Benchmark.{Bench, is_op, expect, poll, wait, wait_for}

-- Within `fuel` polls of at most `n` completions the queue `cq` answers with just `wcs`; the polls before
-- that one find nothing.
abbrev pub Answers : Verbs → ℕ → ℕ → ℕ → List Wc → Trace → Trace → Type 0
Answers v cq n zero wcs t t' = ⊥
Answers v cq n (suc fuel) wcs t t' =
    ((v.poll t cq n ≡ some wcs) × (t' ≡ poll_cq cq n ∷ t))
    ⊎ ((v.poll t cq n ≡ some []) × Answers v cq n fuel wcs (poll_cq cq n ∷ t) t')

-- A completion of that operation that has succeeded.
abbrev pub IsGood : WcOpcode → Wc → Type 0
IsGood op wc = (wc.success ≡ true) × (is_op op wc ≡ true)

-- The wait ends with the completions at the front of `global_wc`; it changes nothing but that array, and
-- posts nothing.
pub wait_answered :
    (v : Verbs) (n fuel : ℕ) (wc : Wc) (wcs : List Wc) (s : Bench) (t' : Trace)
    → s.adapter.used_cq ≢ 0
    → 0 < n
    → Answers v s.adapter.used_cq n fuel (wc ∷ wcs) s.trace t'
    → (wait v fuel n s
        ≡ ok (
          some (length (wc ∷ wcs)),
          record s { global_wc = (wc ∷ wcs) ++ drop (length (wc ∷ wcs)) s.global_wc; trace = t' },
        ))
      × (sends t' ≡ sends s.trace)
unfolding wait poll poll_cq_batch real_poll_completion_queue
wait_answered v n zero wc wcs s t' q p a = absurd a
wait_answered v n (suc fuel) wc wcs s t' q p (inl (e, e')) = ground arith
wait_answered v n (suc fuel) wc wcs s t' q p (inr (e, a)) =
    let later = record s { trace = poll_cq s.adapter.used_cq n ∷ s.trace } in
    ground (arith, wait_answered v n fuel wc wcs later t' q p a)

pub expect_good : (op : WcOpcode) (wc : Wc) → IsGood op wc → expect op wc ≡ ok tt
expect_good op wc g = ground arith

-- A wait for a completion of `op` ends with a good one.
pub wait_for_good :
    (v : Verbs) (op : WcOpcode) (fuel : ℕ) (wc : Wc) (s : Bench) (t' : Trace)
    → s.adapter.used_cq ≢ 0
    → Answers v s.adapter.used_cq 1 fuel (wc ∷ []) s.trace t'
    → IsGood op wc
    → (wait_for v op fuel s ≡ ok (wc, record s { global_wc = wc ∷ drop 1 s.global_wc; trace = t' }))
      × (sends t' ≡ sends s.trace)
unfolding wait_for
wait_for_good v op fuel wc s t' q a g =
    let (waited, quiet) = wait_answered v 1 fuel wc [] s t' q (omega arith) a in
    (rw (waited, expect_good op wc g) refl, quiet)
