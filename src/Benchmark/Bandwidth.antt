-- ===== src/Benchmark/Bandwidth.antt =====
-- The bandwidth test has every block of the buffer in flight, and gets them all back.
use rdma_comm_core.Prelude.{ℕ, ◌+◌, ◌-◌, ◌^◌, ◌<◌, ◌≡◌, List, ◌∷◌, length, All, ok}
use rdma_comm_core.Verbs.{Verbs, Trace, Wc, WcOpcode, SendWr, post_send}
use rdma_comm_core.Buffer.{Block}
use rdma_comm_core.Adapter.{Adapter}
use rdma_comm_core.Session.Defaults.Calls.{sends}
use rdma_comm_core.Benchmark.{Bench, Post}
use rdma_comm_core.Benchmark.Waits.{Answers, IsGood}
use rdma_comm_core.Adapter.Transfer.Stock.{IsFit, IsStock}
use rdma_comm_core.Benchmark.Requests.{counted}

-- The request is posted and counted.
abbrev Posts : Post → ℕ → Adapter → Type 0
Posts post size a =
    (x : Block) (k : ℕ) (t : Trace)
    → IsFit size x
    → k < 2 ^ 63 - 1
    → (wr : SendWr) × (post x (counted a k) t ≡ ok (counted a (k + 1), post_send a.qp wr ∷ t))

-- The queue delivers `m` good completions from the trace `t` on, in batches; no wait for a batch takes more
-- than `fuel` polls of 128.
pub data Delivers (v : Verbs) (cq : ℕ) (op : WcOpcode) (fuel : ℕ) : ℕ → Trace → Type 0 where
  all_done : (m : ℕ) (t : Trace) → m ≡ 0 → Delivers v cq op fuel m t
  batch :
      (m rest : ℕ) (wc : Wc) (wcs : List Wc) (t t' : Trace)
      → Answers v cq 128 fuel (wc ∷ wcs) t t'
      → All (IsGood op) (wc ∷ wcs)
      → m ≡ length (wc ∷ wcs) + rest
      → Delivers v cq op fuel rest t'
      → Delivers v cq op fuel m t

-- `l` blocks taken back, `j` in use, and `k` requests counted; since `s` further `m` requests were posted.
pub record At (size n : ℕ) (a : Adapter) (l j k m : ℕ) (s s' : Bench) : Type 0 where
  pub stock : IsStock size n s'.buffer l j
  pub adapter_is : s'.adapter ≡ counted a k
  pub posted : sends s'.trace ≡ sends s.trace + m
