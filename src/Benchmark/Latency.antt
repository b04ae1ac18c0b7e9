-- ===== src/Benchmark/Latency.antt =====
-- The latency tests run to their end on a library that takes every request and completes it.
use mathlib.Core.Path.{subst}
use rdma_comm_core.Prelude.{
  ℕ, zero, suc, ◌+◌, ◌-◌, ◌^◌, ◌≤◌, ◌<◌, ◌≡◌, ◌≢◌, refl, ap, ◌∙◌, ◌∷◌, drop, arith, ok,
}
use rdma_comm_core.Prelude.Int.{int_max}
use rdma_comm_core.Verbs.{Verbs, WcOpcode, wc_rdma_write, wc_rdma_read, post_send}
use rdma_comm_core.Adapter.{Adapter}
use rdma_comm_core.Session.Defaults.Calls.{sends}
use rdma_comm_core.Benchmark.{Bench, Post, latency_rounds}
use rdma_comm_core.Benchmark.Waits.{wait_for_good}
use rdma_comm_core.Adapter.Transfer.Stock.{IsStock}
use rdma_comm_core.Benchmark.Blocks.{next_block_lem, last_block_lem}
use rdma_comm_core.Benchmark.Requests.{IsPrompt, counted, Serves, writing-Serves, reading-Serves}
use rdma_comm_core.Benchmark.Client.{write_test, read_test, writing, reading}

-- From `s` with `k` requests counted to `s'`: `m` rounds more. All blocks are free again, `m` requests were
-- posted and are counted, and nothing else of the adapter changed.
pub record Ran (size n : ℕ) (a : Adapter) (l k m : ℕ) (s s' : Bench) : Type 0 where
  pub stock : IsStock size n s'.buffer (l + m) 0
  pub adapter_kept : s'.adapter ≡ counted a (k + m)
  pub posted : sends s'.trace ≡ sends s.trace + m
  pub peer_kept : s'.buffer_peer ≡ s.buffer_peer
  pub memory_kept : s'.memory ≡ s.memory

module _ (v : Verbs) (post : Post) (op : WcOpcode) (size n fuel : ℕ) (a : Adapter)
    (serves : Serves v post op size fuel a) (polls : a.used_cq ≢ 0) where
  one_round :
      (left : ℕ) (s : Bench) (l k : ℕ)
      → s.adapter ≡ counted a k
      → IsStock size n s.buffer l 0
      → l < int_max
      → k < 2 ^ 63 - 1
      → (s' : Bench) × (latency_rounds v post op fuel (suc left) s
          ≡ latency_rounds v post op fuel left s')
        × Ran size n a l k 1 s s'
  unfolding latency_rounds
  one_round left s l k e h lt room =
      let positive = h.ring.some_blocks in
      let (x, b, taken, fit, h₁) = next_block_lem size n s l 0 h positive (omega arith) in
      let (wr, posts, wc, t', answers, good) = serves x k s.trace fit room in
      let request : post x s.adapter s.trace ≡ ok (counted a (k + 1), post_send a.qp wr ∷ s.trace) =
        ap (λ y. post x y s.trace) e ∙ posts in
      let s₂ : Bench = record s {
        adapter = counted a (k + 1);
        buffer = b;
        trace = post_send a.qp wr ∷ s.trace;
      } in
      let (waited, quiet) = wait_for_good v op fuel wc s₂ t' polls answers good in
      let s₃ : Bench = record s₂ { global_wc = wc ∷ drop 1 s.global_wc; trace = t' } in
      let (b', back, h₂) = last_block_lem size n s₃ l 0 h₁ (omega arith) in
      (
        record s₃ { buffer = b' },
        rw (taken, request, waited, back) refl,
        record {
          stock = subst (λ (y : ℕ). IsStock size n b' y 0) (omega arith) h₂;
          adapter_kept = refl;
          posted = quiet;
          peer_kept = refl;
          memory_kept = refl;
        },
      )

  Ran-trans :
      {l k m : ℕ} {s s' s'' : Bench}
      → Ran size n a l k 1 s s'
      → Ran size n a (l + 1) (k + 1) m s' s''
      → Ran size n a l k (suc m) s s''
  Ran-trans {l} {k} {m} {s} {s'} {s''} p q = record {
    stock = subst (λ (y : ℕ). IsStock size n s''.buffer y 0) (omega arith) q.stock;
    adapter_kept = q.adapter_kept ∙ ap (counted a) (omega arith);
    posted = (let x = p.posted in let y = q.posted in omega arith);
    peer_kept = q.peer_kept ∙ p.peer_kept;
    memory_kept = q.memory_kept ∙ p.memory_kept;
  }

  pub latency_rounds-Ran :
      (m : ℕ) (s : Bench) (l k : ℕ)
      → s.adapter ≡ counted a k
      → IsStock size n s.buffer l 0
      → l + m ≤ int_max
      → k + m ≤ 2 ^ 63 - 1
      → (s' : Bench) × (latency_rounds v post op fuel m s ≡ ok s') × Ran size n a l k m s s'
  latency_rounds-Ran zero s l k e h lt room = (
    s,
    unfold latency_rounds in refl,
    record {
      stock = subst (λ (y : ℕ). IsStock size n s.buffer y 0) (omega arith) h;
      adapter_kept = e ∙ ap (counted a) (omega arith);
      posted = omega arith;
      peer_kept = refl;
      memory_kept = refl;
    },
  )
  latency_rounds-Ran (suc m) s l k e h lt room =
      let (s₁, step, p) = one_round m s l k e h (omega arith) (omega arith) in
      let (s₂, rest, q) =
        latency_rounds-Ran m s₁ (l + 1) (k + 1) p.adapter_kept p.stock (omega arith)
          (omega arith) in
      (s₂, step ∙ rest, Ran-trans p q)

-- What a test asks of the session before it: the adapter with `k` requests counted, a polled queue, a ring
-- that is free, and a peer's buffer for the size.
pub record IsTestable (size n : ℕ) (a : Adapter) (l k : ℕ) (s : Bench) : Type 0 where
  pub adapter_is : s.adapter ≡ counted a k
  pub polls : a.used_cq ≢ 0
  pub stock : IsStock size n s.buffer l 0
  pub reach : size ≤ s.buffer_peer.buffer_length

module _ (v : Verbs) (size n fuel msg : ℕ) (a : Adapter) (prompt : IsPrompt v fuel a)
    (small : msg ≤ size) (l k : ℕ) (s : Bench) where
  pub write_test-Ran :
      IsTestable size n a l k s
      → l + 1000 ≤ int_max
      → k + 1000 ≤ 2 ^ 63 - 1
      → (s' : Bench) × (write_test v fuel msg s ≡ ok s') × Ran size n a l k 1000 s s'
  unfolding write_test
  write_test-Ran h lt room =
      latency_rounds-Ran v (writing v msg s.buffer_peer) wc_rdma_write size n fuel a
        (writing-Serves v size fuel msg a prompt small s.buffer_peer
          (let r = h.reach in omega arith))
        h.polls 1000 s l k h.adapter_is h.stock lt room

  pub read_test-Ran :
      IsTestable size n a l k s
      → l + 1000 ≤ int_max
      → k + 1000 ≤ 2 ^ 63 - 1
      → (s' : Bench) × (read_test v fuel msg s ≡ ok s') × Ran size n a l k 1000 s s'
  unfolding read_test
  read_test-Ran h lt room =
      latency_rounds-Ran v (reading v msg s.buffer_peer) wc_rdma_read size n fuel a
        (reading-Serves v size fuel msg a prompt small s.buffer_peer
          (let r = h.reach in omega arith))
        h.polls 1000 s l k h.adapter_is h.stock lt room
