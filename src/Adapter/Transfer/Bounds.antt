-- ===== src/Adapter/Transfer/Bounds.antt =====
-- What a work request may touch: no request leaves its buffer, and no remote access its descriptor.
use rdma_comm_core.Prelude.{
  ℕ, ◌+◌, ◌-◌, ◌^◌, ◌≤◌, ◌<◌, ◌≡◌, refl, Bool, true, some, ◌∷◌, if◌then◌else◌, arith, ok,
}
use rdma_comm_core.Prelude.Int.{pos, incr_int64}
use rdma_comm_core.Verbs.{
  Verbs, Trace, Sge, SendWr, RecvWr, Opcode, send_with_imm, rdma_write, rdma_write_with_imm,
  rdma_read, post_send, post_recv,
}
use rdma_comm_core.Buffer.{Block, security_check}
use rdma_comm_core.Device.Post.{
  real_send, real_recv, real_write_remote, real_write_remote_with_notify, real_read_remote,
}
use rdma_comm_core.Adapter.{Adapter, CommDescriptor}
use rdma_comm_core.Adapter.Transfer.{
  increase_sqe, increase_rqe, send_remote, recv_remote, read_remote, write_remote,
}

-- A request's one entry lies in the buffer, with the buffer's local key.
pub record InBuffer (v : Verbs) (b : Block) (s : Sge) : Type 0 where
  pub registered : 0 < b.mr
  pub owned : 0 < b.owned_by_channel
  pub keyed : s.lkey ≡ v.lkey b.mr
  pub starts : b.data_ptr ≤ s.addr
  pub ends : s.addr + s.size ≤ b.data_ptr + b.buffer_size

-- The remote access of an operation lies in the region that the descriptor names.
abbrev pub InRemote : CommDescriptor → ℕ → Opcode → Type 0
InRemote r n (send_with_imm imm) = ⊥
InRemote r n (rdma_write addr key) =
    (key ≡ r.rkey) × (r.buffer_addr ≤ addr) × (addr + n ≤ r.buffer_addr + r.buffer_length)
InRemote r n (rdma_write_with_imm addr key imm) =
    (key ≡ r.rkey) × (r.buffer_addr ≤ addr) × (addr + n ≤ r.buffer_addr + r.buffer_length)
InRemote r n (rdma_read addr key) =
    (key ≡ r.rkey) × (r.buffer_addr ≤ addr) × (addr + n ≤ r.buffer_addr + r.buffer_length)

-- The call posted one signaled request on the adapter's queue pair, under the adapter's address.
pub record Posted (v : Verbs) (a : Adapter) (wr : SendWr) (t t' : Trace) : Type 0 where
  pub traced : t' ≡ post_send a.qp wr ∷ t
  pub taken : v.answer t (post_send a.qp wr) ≡ 0
  pub named : wr.wr_id ≡ a.this
  pub signals : wr.signaled ≡ true

module _ (v : Verbs) (b : Block) (n : ℕ) (a a' : Adapter) (t t' : Trace) where
  -- A send that returns has posted exactly one request, of the length asked for and with the tag as
  -- immediate data; its entry lies in the buffer.
  pub send_remote-Posted :
      (tag : ℕ)
      → send_remote v (some b) n tag a t ≡ ok (a', t')
      → (wr : SendWr) × Posted v a wr t t'
        × InBuffer v b wr.sge
        × (wr.sge.size ≡ n)
        × (wr.opcode ≡ send_with_imm tag)
  unfolding send_remote security_check real_send increase_sqe
  send_remote-Posted tag e = (wr, ground arith, ground arith, refl, refl)
    where
      wr : SendWr
      wr = record {
        wr_id = a.this;
        sge = record { addr = b.data_ptr; size = n; lkey = v.lkey b.mr };
        opcode = send_with_imm tag;
        signaled = true;
      }

  -- A receive that returns has posted exactly one request of the length asked for, under the adapter's
  -- address; its entry lies in the buffer.
  pub recv_remote-RecvWr :
      recv_remote v (some b) n a t ≡ ok (a', t')
      → (wr : RecvWr) × (t' ≡ post_recv a.qp wr ∷ t)
        × (wr.wr_id ≡ a.this)
        × InBuffer v b wr.sge
        × (wr.sge.size ≡ n)
  unfolding recv_remote security_check real_recv increase_rqe
  recv_remote-RecvWr e = (wr, ground arith, refl, ground arith, refl)
    where
      wr : RecvWr
      wr = record {
        wr_id = a.this;
        sge = record { addr = b.data_ptr; size = n; lkey = v.lkey b.mr };
      }

  -- A read that returns has posted exactly one request. It fills the buffer's memory alone, and reads
  -- from the region that the descriptor names alone.
  pub read_remote-Posted :
      (r : CommDescriptor)
      → read_remote v (some b) n (some r) a t ≡ ok (a', t')
      → (wr : SendWr) × Posted v a wr t t'
        × InBuffer v b wr.sge
        × (wr.sge.size ≡ n)
        × InRemote r n wr.opcode
        × (wr.opcode ≡ rdma_read r.buffer_addr r.rkey)
  unfolding read_remote security_check real_read_remote increase_sqe
  read_remote-Posted r e = (wr, ground arith, ground arith, refl, ground arith, refl)
    where
      wr : SendWr
      wr = record {
        wr_id = a.this;
        sge = record { addr = b.data_ptr; size = n; lkey = v.lkey b.mr };
        opcode = rdma_read r.buffer_addr r.rkey;
        signaled = true;
      }

  -- A write that returns has posted exactly one request. It reads the buffer's memory alone and writes
  -- the region that the descriptor names alone, and carries the tag just if the peer is to be notified.
  pub write_remote-Posted :
      (r : CommDescriptor) (tag : ℕ) (notify : Bool)
      → write_remote v (some b) n (some r) tag notify a t ≡ ok (a', t')
      → (wr : SendWr) × Posted v a wr t t'
        × InBuffer v b wr.sge
        × (wr.sge.size ≡ n)
        × InRemote r n wr.opcode
        × (wr.opcode ≡ (
            if notify
            then rdma_write_with_imm r.buffer_addr r.rkey tag
            else rdma_write r.buffer_addr r.rkey))
  unfolding write_remote security_check real_write_remote real_write_remote_with_notify increase_sqe
  write_remote-Posted r tag notify e = (wr, ground arith, ground arith, refl, ground arith, refl)
    where
      wr : SendWr
      wr = record {
        wr_id = a.this;
        sge = record { addr = b.data_ptr; size = n; lkey = v.lkey b.mr };
        opcode =
            if notify
            then rdma_write_with_imm r.buffer_addr r.rkey tag
            else rdma_write r.buffer_addr r.rkey;
        signaled = true;
      }

-- A buffer that a request can be posted for: it has memory, and is registered in a channel.
pub record IsPostable (b : Block) : Type 0 where
  pub filled : 0 < b.buffer_size
  pub placed : 0 < b.data_ptr
  pub owned : 0 < b.owned_by_channel
  pub registered : 0 < b.mr

-- On a registered buffer a send that fits, and that the library accepts, returns; the count of send
-- requests in flight is one higher, and nothing else of the adapter changes.
pub send_remote_accepts :
    (v : Verbs) (b : Block) (n tag : ℕ) (a : Adapter) (t : Trace) (k : ℕ)
    → IsPostable b
    → n ≤ b.buffer_size
    → a.sq_inflight ≡ pos k
    → k < 2 ^ 63 - 1
    → ((wr : SendWr) → v.answer t (post_send a.qp wr) ≡ 0)
    → (t' : Trace) × (send_remote v (some b) n tag a t
        ≡ ok (record a { sq_inflight = pos (k + 1) }, t'))
unfolding send_remote security_check real_send increase_sqe incr_int64
send_remote_accepts v b n tag a t k p h e lt accepts =
    (post_send a.qp wr ∷ t, ground (arith, accepts wr))
  where
    wr : SendWr
    wr = record {
      wr_id = a.this;
      sge = record { addr = b.data_ptr; size = n; lkey = v.lkey b.mr };
      opcode = send_with_imm tag;
      signaled = true;
    }
