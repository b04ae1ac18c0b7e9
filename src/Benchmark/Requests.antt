-- ===== src/Benchmark/Requests.antt =====
-- The requests of the tests, on a library that takes every request and completes it.
use mathlib.Core.Path.{subst}
use rdma_comm_core.Prelude.{ℕ, ◌+◌, ◌-◌, ◌^◌, ◌≤◌, ◌<◌, ◌≡◌, refl, [], ◌∷◌, arith, ok}
use rdma_comm_core.Prelude.Int.{pos}
use rdma_comm_core.Verbs.{
  Verbs, Trace, Wc, WcOpcode, wc_send, wc_rdma_write, wc_rdma_read, SendWr, Opcode, send_with_imm,
  rdma_write, rdma_write_with_imm, rdma_read, post_send,
}
use rdma_comm_core.Buffer.{Block}
use rdma_comm_core.Adapter.{Adapter, CommDescriptor}
use rdma_comm_core.Adapter.Transfer.Accepts.{send_remote-Sent, write_remote-Sent, read_remote-Sent}
use rdma_comm_core.Benchmark.{Post, test_raw_data}
use rdma_comm_core.Benchmark.Waits.{Answers, IsGood}
use rdma_comm_core.Adapter.Transfer.Stock.{IsFit}
use rdma_comm_core.Benchmark.Client.{writing, reading, sending}

-- The opcode of the completion of a request.
abbrev pub completion : Opcode → WcOpcode
completion (send_with_imm imm) = wc_send
completion (rdma_write addr key) = wc_rdma_write
completion (rdma_write_with_imm addr key imm) = wc_rdma_write
completion (rdma_read addr key) = wc_rdma_read

-- On the adapter's queues the library takes every send request. Where the code polls for one completion after
-- it, that of the request is there within `fuel` polls, and it has succeeded.
pub record IsPrompt (v : Verbs) (fuel : ℕ) (a : Adapter) : Type 0 where
  pub takes : (t : Trace) (wr : SendWr) → v.answer t (post_send a.qp wr) ≡ 0
  pub completes :
      (t : Trace) (wr : SendWr)
      → (wc : Wc) × (t' : Trace) × Answers v a.used_cq 1 fuel (wc ∷ []) (post_send a.qp wr ∷ t) t'
        × IsGood (completion wr.opcode) wc

-- The adapter with a number of send requests in flight.
abbrev pub counted : Adapter → ℕ → Adapter
counted a k = record a { sq_inflight = pos k }

-- The request is posted and counted, and its completion is found.
abbrev pub Serves : Verbs → Post → WcOpcode → ℕ → ℕ → Adapter → Type 0
Serves v post op size fuel a =
    (x : Block) (k : ℕ) (t : Trace)
    → IsFit size x
    → k < 2 ^ 63 - 1
    → (wr : SendWr) × (post x (counted a k) t ≡ ok (counted a (k + 1), post_send a.qp wr ∷ t))
      × (wc : Wc) × (t' : Trace) × Answers v a.used_cq 1 fuel (wc ∷ []) (post_send a.qp wr ∷ t) t'
      × IsGood op wc

completes_as :
    (v : Verbs) (fuel : ℕ) (a : Adapter) (op : Opcode) (t : Trace) (wr : SendWr)
    → IsPrompt v fuel a
    → wr.opcode ≡ op
    → (wc : Wc) × (t' : Trace) × Answers v a.used_cq 1 fuel (wc ∷ []) (post_send a.qp wr ∷ t) t'
      × IsGood (completion op) wc
completes_as v fuel a op t wr p e =
    let (wc, t', answers, good) = p.completes t wr in
    (wc, t', answers, subst (λ o. IsGood (completion o) wc) e good)

-- The three kinds of request of the tests are served.
module _ (v : Verbs) (size fuel msg : ℕ) (a : Adapter) (prompt : IsPrompt v fuel a)
    (small : msg ≤ size) where
  enough : (x : Block) → IsFit size x → msg ≤ x.buffer_size
  enough x fit = let h = fit.exact in omega arith

  pub sending-Serves : (tag : ℕ) → Serves v (sending v msg tag) wc_send size fuel a
  sending-Serves tag x k t fit room =
      let (wr, e, o) =
        send_remote-Sent v x msg (counted a k) t k fit.postable (enough x fit) room tag refl
          (prompt.takes t) in
      let (wc, t', answers, good) = completes_as v fuel a _ t wr prompt o in
      (wr, e, wc, t', answers, good)

  pub writing-Serves :
      (r : CommDescriptor)
      → msg ≤ r.buffer_length
      → Serves v (writing v msg r) wc_rdma_write size fuel a
  writing-Serves r far x k t fit room =
      let (wr, e, o) =
        write_remote-Sent v x msg (counted a k) t k fit.postable (enough x fit) room r test_raw_data
          far refl (prompt.takes t) in
      let (wc, t', answers, good) = completes_as v fuel a _ t wr prompt o in
      (wr, e, wc, t', answers, good)

  pub reading-Serves :
      (r : CommDescriptor)
      → msg ≤ r.buffer_length
      → Serves v (reading v msg r) wc_rdma_read size fuel a
  reading-Serves r far x k t fit room =
      let (wr, e, o) =
        read_remote-Sent v x msg (counted a k) t k fit.postable (enough x fit) room r far refl
          (prompt.takes t) in
      let (wc, t', answers, good) = completes_as v fuel a _ t wr prompt o in
      (wr, e, wc, t', answers, good)
