-- ===== src/Adapter/Transfer.antt =====
-- The data path of RDMAAdapter, src/rdma_adapter.cc: send, receive, read and write, and the counters of
-- requests in flight. Each method checks its buffer, counts the request and posts it.
pub mod Bounds
pub mod Accepts
pub mod Stock
use rdma_comm_core.Prelude.{
  ℕ, ◌≡◌, Bool, true, false, not, ◌&&◌, Option, none, some, List, ◌==◌, leb, if◌then◌else◌, Outcome,
  ok, fault, undefined, check_failed, ◌>>=◌, ◌>>◌, check, or_undefined,
}
use rdma_comm_core.Prelude.Int.{ℤ, incr_int64, decr_int64}
use rdma_comm_core.Verbs.{Verbs, Trace, Wc}
use rdma_comm_core.Buffer.{Block, security_check}
use rdma_comm_core.Device.Post.{
  key_of, real_send, real_recv, real_write_remote, real_write_remote_with_notify, real_read_remote,
  real_poll_completion_queue,
}
use rdma_comm_core.Adapter.{Adapter, CommDescriptor}

unfoldable pub increase_sqe : Adapter → Outcome Adapter
increase_sqe a = incr_int64 a.sq_inflight >>= λ n. ok (record a { sq_inflight = n })

unfoldable pub increase_rqe : Adapter → Outcome Adapter
increase_rqe a = incr_int64 a.rq_inflight >>= λ n. ok (record a { rq_inflight = n })

unfoldable pub decrease_sqe : Adapter → Outcome Adapter
decrease_sqe a = decr_int64 a.sq_inflight >>= λ n. ok (record a { sq_inflight = n })

unfoldable pub decrease_rqe : Adapter → Outcome Adapter
decrease_rqe a = decr_int64 a.rq_inflight >>= λ n. ok (record a { rq_inflight = n })

-- CHECK(buffer != 0)
abbrev pub given : Option Block → Outcome Block
given none = fault check_failed
given (some b) = ok b

module _ (v : Verbs) where
  unfoldable pub send_remote : Option Block → ℕ → ℕ → Adapter → Trace → Outcome (Adapter × Trace)
  send_remote buffer data_length msg_tag a t = do
    b ← given buffer
    _ ← security_check b
    check (leb data_length b.buffer_size)
    a' ← increase_sqe a
    t' ← real_send v a.qp b.mr b.data_ptr data_length msg_tag a.this t
    ok (a', t')

  unfoldable pub recv_remote : Option Block → ℕ → Adapter → Trace → Outcome (Adapter × Trace)
  recv_remote buffer data_length a t = do
    b ← given buffer
    _ ← security_check b
    check (leb data_length b.buffer_size)
    a' ← increase_rqe a
    t' ← real_recv v a.qp b.mr b.data_ptr data_length a.this t
    ok (a', t')

  unfoldable pub read_remote :
      Option Block → ℕ → Option CommDescriptor → Adapter → Trace → Outcome (Adapter × Trace)
  read_remote buffer data_length remote a t = do
    b ← given buffer
    _ ← security_check b
    r ← or_undefined remote
    check (leb data_length b.buffer_size && leb data_length r.buffer_length)
    a' ← increase_sqe a
    lkey ← key_of v.lkey b.mr
    t' ← real_read_remote v a.qp r.rkey lkey b.data_ptr r.buffer_addr data_length a.this t
    ok (a', t')

  unfoldable pub write_remote :
      Option Block
      → ℕ
      → Option CommDescriptor
      → ℕ
      → Bool
      → Adapter
      → Trace
      → Outcome (Adapter × Trace)
  write_remote buffer data_length remote msg_tag notify_peer a t = do
    b ← given buffer
    _ ← security_check b
    r ← or_undefined remote
    check (leb data_length b.buffer_size && leb data_length r.buffer_length)
    a' ← increase_sqe a
    lkey ← key_of v.lkey b.mr
    t' ←
        (if notify_peer
          then real_write_remote_with_notify v a.qp r.rkey lkey b.data_ptr r.buffer_addr data_length
              msg_tag a.this t
          else real_write_remote v a.qp r.rkey lkey b.data_ptr r.buffer_addr data_length a.this t)
    ok (a', t')

  unfoldable pub poll_cq_batch : ℕ → Adapter → Trace → Outcome (Option (List Wc) × Trace)
  poll_cq_batch num_wqe a t = real_poll_completion_queue v a.used_cq num_wqe t
