-- ===== src/Device/Post.antt =====
-- The static methods of RDMADevice that post work requests, src/rdma_device.cc. Each returns true or
-- takes the process down, so what they return here is the trace. The fields of a request that a method
-- leaves unset, and that the library does not read for its opcode, are left out.
use rdma_comm_core.Prelude.{
  ℕ, true, not, ◌==◌, leb, if◌then◌else◌, List, ◌∷◌, Option, Outcome, ok, fault, undefined, ◌>>=◌,
  ◌>>◌, check, fatal_if,
}
use rdma_comm_core.Verbs.{
  Verbs, Trace, Sge, SendWr, RecvWr, Opcode, send_with_imm, rdma_write, rdma_write_with_imm,
  rdma_read, post_send, post_recv, poll_cq, ask, Wc,
}

-- mr->lkey and mr->rkey
abbrev pub key_of : (ℕ → ℕ) → ℕ → Outcome ℕ
key_of key mr = if mr == 0 then fault undefined else ok (key mr)

module _ (v : Verbs) where
  -- ibv_post_send of one signaled request with one entry; LOG(FATAL) where it fails
  unfoldable pub post : ℕ → ℕ → Sge → Opcode → Trace → Outcome Trace
  post qp wr_id sge opcode t = do
    let wr : SendWr = record { wr_id = wr_id; sge = sge; opcode = opcode; signaled = true }
    let (rc, t') = ask v (post_send qp wr) t
    fatal_if (not (rc == 0))
    ok t'

  unfoldable pub real_send : ℕ → ℕ → ℕ → ℕ → ℕ → ℕ → Trace → Outcome Trace
  unfolding post
  real_send qp mr buffer_addr msg_size imm_data key t = do
    lkey ← key_of v.lkey mr
    post qp key (record { addr = buffer_addr; size = msg_size; lkey = lkey })
        (send_with_imm imm_data) t

  unfoldable pub real_recv : ℕ → ℕ → ℕ → ℕ → ℕ → Trace → Outcome Trace
  real_recv qp mr buffer_addr msg_size key t = do
    lkey ← key_of v.lkey mr
    let wr : RecvWr = record {
      wr_id = key;
      sge = record { addr = buffer_addr; size = msg_size; lkey = lkey };
    }
    let (rc, t') = ask v (post_recv qp wr) t
    fatal_if (not (rc == 0))
    ok t'

  unfoldable pub real_write_remote : ℕ → ℕ → ℕ → ℕ → ℕ → ℕ → ℕ → Trace → Outcome Trace
  unfolding post
  real_write_remote qp rkey lkey src_addr dest_addr size_in_bytes wr_id =
      post qp wr_id (record { addr = src_addr; size = size_in_bytes; lkey = lkey })
        (rdma_write dest_addr rkey)

  unfoldable pub real_write_remote_with_notify :
      ℕ → ℕ → ℕ → ℕ → ℕ → ℕ → ℕ → ℕ → Trace → Outcome Trace
  unfolding post
  real_write_remote_with_notify qp rkey lkey src_addr dest_addr size_in_bytes imm_data wr_id =
      post qp wr_id (record { addr = src_addr; size = size_in_bytes; lkey = lkey })
        (rdma_write_with_imm dest_addr rkey imm_data)

  unfoldable pub real_read_remote : ℕ → ℕ → ℕ → ℕ → ℕ → ℕ → ℕ → Trace → Outcome Trace
  unfolding post
  real_read_remote qp rkey lkey dest_addr src_addr size_in_bytes wr_id =
      post qp wr_id (record { addr = dest_addr; size = size_in_bytes; lkey = lkey })
        (rdma_read src_addr rkey)

  -- The completions that were polled; none where ibv_poll_cq reports an error, which is logged.
  unfoldable pub real_poll_completion_queue : ℕ → ℕ → Trace → Outcome (Option (List Wc) × Trace)
  real_poll_completion_queue cq expected t = do
    check (not (cq == 0))
    check (leb 1 expected)
    ok (v.poll t cq expected, poll_cq cq expected ∷ t)
