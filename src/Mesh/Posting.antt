-- ===== src/Mesh/Posting.antt =====
-- The loop that posts the receives before a tower starts.
use mathlib.Core.Path.{subst}
use rdma_comm_core.Prelude.{ℕ, zero, suc, ◌+◌, ◌%◌, ◌≤◌, ◌≡◌, refl, ap, ◌∙◌, ◌∷◌, arith, ok}
use rdma_comm_core.Prelude.Int.{pos, int_max}
use rdma_comm_core.Verbs.{Verbs, post_recv}
use rdma_comm_core.Adapter.Transfer.Accepts.{recv_remote-Received}
use rdma_comm_core.Adapter.Transfer.Stock.{place, next-place, next-IsStock}
use rdma_comm_core.Mesh.{Lane, Shared, num_block, block_size, post_receives}
use rdma_comm_core.Mesh.Lanes.{IsLane, IsWilling, called}
use rdma_comm_core.Mesh.Service.{Moved}

-- With `m` blocks to spare, on a library that takes every request, `m` receives are posted, each for a block of its own. No block moves, and the buffer
-- to send from is left alone.
pub post_receives-IsLane :
    (v : Verbs) (m : ℕ) (x : Lane) (s : Shared) (ls js lr jr : ℕ)
    → IsLane x ls js lr jr jr
    → IsWilling v x.channel.qp
    → jr + m ≤ num_block
    → lr + (jr + m) ≤ int_max
    → (x' : Lane) × (s' : Shared) × (post_receives v m (x, s) ≡ ok (x', s'))
      × IsLane x' ls js lr (jr + m) (jr + m)
      × Moved m 0 x x' s s'
      × ((i : ℕ) → place x'.tensor_recv.buffer_mgr i ≡ place x.tensor_recv.buffer_mgr i)
unfolding post_receives
post_receives-IsLane v zero x s ls js lr jr h w lt room = (
  x,
  s,
  refl,
  subst (λ (y : ℕ). IsLane x ls js lr y y) (omega arith) h,
  record { received = omega arith; sent = omega arith; same_qp = refl; same_this = refl },
  λ i. refl,
)
post_receives-IsLane v (suc m) x s ls js lr jr h w lt room =
    let (b, r, e, g, f, h₁) =
      next-IsStock block_size num_block x.tensor_recv lr jr h.receiving (omega arith)
        (omega arith) in
    let size = f.exact in
    let (wr, posted) =
      recv_remote-Received v b block_size x.channel s.world.trace jr f.postable (omega arith)
        (omega arith) h.rq (w.receives s.world.trace) in
    let x₁ : Lane = record x {
      tensor_recv = r;
      channel = record (x.channel) { rq_inflight = pos (jr + 1) };
    } in
    let s₁ : Shared = called s s.memory (post_recv x.channel.qp wr ∷ s.world.trace) in
    let i₁ : IsLane x₁ ls js lr (suc jr) (suc jr) = record {
      sending = h.sending;
      receiving = h₁;
      sq = h.sq;
      rq = ap pos (omega arith);
    } in
    let (x₂, s₂, rest, i₂, moved, still) =
      post_receives-IsLane v m x₁ s₁ ls js lr (suc jr) i₁ w (omega arith) (omega arith) in
    (
      x₂,
      s₂,
      rw (e, g, posted) rest,
      subst (λ (y : ℕ). IsLane x₂ ls js lr y y) (omega arith) i₂,
      record {
        received = (let q = moved.received in omega arith);
        sent = moved.sent;
        same_qp = moved.same_qp;
        same_this = moved.same_this;
      },
      λ i. still i ∙ next-place x.tensor_recv ((lr + jr) % num_block) r e i,
    )
