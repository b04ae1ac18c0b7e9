-- ===== src/Adapter/Transfer/Accepts.antt =====
-- That the data path returns: where a request is fit to be posted and the library takes it, the method posts
-- it and counts it, and changes nothing else of the adapter.
use rdma_comm_core.Prelude.{
  ℕ, ◌+◌, ◌-◌, ◌^◌, ◌≤◌, ◌<◌, ◌≡◌, refl, false, true, some, ◌∷◌, arith, ok, Outcome,
}
use rdma_comm_core.Prelude.Int.{pos, incr_int64}
use rdma_comm_core.Verbs.{
  Verbs, Trace, SendWr, RecvWr, Opcode, send_with_imm, rdma_write, rdma_read, post_send, post_recv,
}
use rdma_comm_core.Buffer.{Block, security_check}
use rdma_comm_core.Device.Post.{real_send, real_recv, real_write_remote, real_read_remote}
use rdma_comm_core.Adapter.{Adapter, CommDescriptor}
use rdma_comm_core.Adapter.Transfer.{
  increase_sqe, increase_rqe, send_remote, recv_remote, read_remote, write_remote,
}
use rdma_comm_core.Adapter.Transfer.Bounds.{IsPostable}

-- A call posted one send request of that operation on the adapter's queue pair, and counted it.
abbrev pub Sent : Opcode → Adapter → Trace → ℕ → Outcome (Adapter × Trace) → Type 0
Sent op a t k r =
    (wr : SendWr) × (r ≡ ok (record a { sq_inflight = pos (k + 1) }, post_send a.qp wr ∷ t))
    × (wr.opcode ≡ op)

module _ (v : Verbs) (b : Block) (n : ℕ) (a : Adapter) (t : Trace) (k : ℕ) (fit : IsPostable b)
    (small : n ≤ b.buffer_size) (room : k < 2 ^ 63 - 1) where
  pub send_remote-Sent :
      (tag : ℕ)
      → a.sq_inflight ≡ pos k
      → ((wr : SendWr) → v.answer t (post_send a.qp wr) ≡ 0)
      → Sent (send_with_imm tag) a t k (send_remote v (some b) n tag a t)
  unfolding send_remote security_check real_send increase_sqe incr_int64
  send_remote-Sent tag e accepts = (wr, ground (arith, accepts wr), refl)
    where
      wr : SendWr
      wr = record {
        wr_id = a.this;
        sge = record { addr = b.data_ptr; size = n; lkey = v.lkey b.mr };
        opcode = send_with_imm tag;
        signaled = true;
      }

  pub write_remote-Sent :
      (r : CommDescriptor) (tag : ℕ)
      → n ≤ r.buffer_length
      → a.sq_inflight ≡ pos k
      → ((wr : SendWr) → v.answer t (post_send a.qp wr) ≡ 0)
      → Sent
          (rdma_write r.buffer_addr r.rkey)
          a
          t
          k
          (write_remote v (some b) n (some r) tag false a t)
  unfolding write_remote security_check real_write_remote increase_sqe incr_int64
  write_remote-Sent r tag far e accepts = (wr, ground (arith, accepts wr), refl)
    where
      wr : SendWr
      wr = record {
        wr_id = a.this;
        sge = record { addr = b.data_ptr; size = n; lkey = v.lkey b.mr };
        opcode = rdma_write r.buffer_addr r.rkey;
        signaled = true;
      }

  pub read_remote-Sent :
      (r : CommDescriptor)
      → n ≤ r.buffer_length
      → a.sq_inflight ≡ pos k
      → ((wr : SendWr) → v.answer t (post_send a.qp wr) ≡ 0)
      → Sent (rdma_read r.buffer_addr r.rkey) a t k (read_remote v (some b) n (some r) a t)
  unfolding read_remote security_check real_read_remote increase_sqe incr_int64
  read_remote-Sent r far e accepts = (wr, ground (arith, accepts wr), refl)
    where
      wr : SendWr
      wr = record {
        wr_id = a.this;
        sge = record { addr = b.data_ptr; size = n; lkey = v.lkey b.mr };
        opcode = rdma_read r.buffer_addr r.rkey;
        signaled = true;
      }

  pub recv_remote-Received :
      a.rq_inflight ≡ pos k
      → ((wr : RecvWr) → v.answer t (post_recv a.qp wr) ≡ 0)
      → (wr : RecvWr) × (recv_remote v (some b) n a t
          ≡ ok (record a { rq_inflight = pos (k + 1) }, post_recv a.qp wr ∷ t))
  unfolding recv_remote security_check real_recv increase_rqe incr_int64
  recv_remote-Received e accepts = (wr, ground (arith, accepts wr))
    where
      wr : RecvWr
      wr = record {
        wr_id = a.this;
        sge = record { addr = b.data_ptr; size = n; lkey = v.lkey b.mr };
      }
