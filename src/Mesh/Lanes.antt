-- ===== src/Mesh/Lanes.antt =====
-- The steps of a lane whose buffers are rings of registered blocks.
use rdma_comm_core.Prelude.{ℕ, suc, ◌+◌, ◌-◌, ◌^◌, ◌≤◌, ◌<◌, ◌≡◌, refl, List, ◌∷◌, arith, ok}
use rdma_comm_core.Prelude.Int.{pos, int_max, decr_int64}
use rdma_comm_core.Memory.{Memory}
use rdma_comm_core.Verbs.{Verbs, Trace, SendWr, RecvWr, post_send, post_recv}
use rdma_comm_core.Buffer.{Block, Buffer}
use rdma_comm_core.Device.Post.{key_of}
use rdma_comm_core.Adapter.{Adapter, CommDescriptor}
use rdma_comm_core.Adapter.Transfer.{decrease_sqe, decrease_rqe}
use rdma_comm_core.Adapter.Transfer.Accepts.{
  send_remote-Sent, write_remote-Sent, recv_remote-Received,
}
use rdma_comm_core.Adapter.Transfer.Stock.{IsFit, IsStock, next-IsStock, last-IsStock}
use rdma_comm_core.Tcp.{put}
use rdma_comm_core.Mesh.{
  Lane, Shared, num_block, block_size, descriptor_size, transfer_raw_data, next_send, next_recv,
  last_send, last_recv,
}
use rdma_comm_core.Mesh.Server.{answer_request, receive_again}
use rdma_comm_core.Mesh.Client.{write_next}

-- Of the blocks to send from `ls` have been taken back and `js` are in use, each for one send request in
-- flight; of those to receive into `lr` and `jr`. `jq` receives are in flight.
pub record IsLane (x : Lane) (ls js lr jr jq : ℕ) : Type 0 where
  pub sending : IsStock block_size num_block x.tensor_send ls js
  pub receiving : IsStock block_size num_block x.tensor_recv lr jr
  pub sq : x.channel.sq_inflight ≡ pos js
  pub rq : x.channel.rq_inflight ≡ pos jq

-- The library takes every request on the queue pair.
pub record IsWilling (v : Verbs) (qp : ℕ) : Type 0 where
  pub sends : (t : Trace) (wr : SendWr) → v.answer t (post_send qp wr) ≡ 0
  pub receives : (t : Trace) (wr : RecvWr) → v.answer t (post_recv qp wr) ≡ 0

pub decrease_sqe_lem :
    (a : Adapter) (k : ℕ)
    → a.sq_inflight ≡ pos (suc k)
    → decrease_sqe a ≡ ok (record a { sq_inflight = pos k })
unfolding decrease_sqe decr_int64
decrease_sqe_lem a k e = ground arith

pub decrease_rqe_lem :
    (a : Adapter) (k : ℕ)
    → a.rq_inflight ≡ pos (suc k)
    → decrease_rqe a ≡ ok (record a { rq_inflight = pos k })
unfolding decrease_rqe decr_int64
decrease_rqe_lem a k e = ground arith

key_of_lem : (key : ℕ → ℕ) (mr : ℕ) → 0 < mr → key_of key mr ≡ ok (key mr)
key_of_lem key mr h = ground arith

module _ (x : Lane) (l k : ℕ) where
  pub next_send_lem :
      IsStock block_size num_block x.tensor_send l k
      → k < num_block
      → l + k ≤ int_max
      → (b : Block) × (r : Buffer) × (next_send x ≡ ok (b, record x { tensor_send = r }))
        × IsFit block_size b
        × IsStock block_size num_block r l (suc k)
  next_send_lem h lt room =
      let (b, r, e, g, f, h') = next-IsStock block_size num_block x.tensor_send l k h lt room in
      (b, r, rw (e, g) refl, f, h')

  pub next_recv_lem :
      IsStock block_size num_block x.tensor_recv l k
      → k < num_block
      → l + k ≤ int_max
      → (b : Block) × (r : Buffer) × (next_recv x ≡ ok (b, record x { tensor_recv = r }))
        × IsFit block_size b
        × IsStock block_size num_block r l (suc k)
  next_recv_lem h lt room =
      let (b, r, e, g, f, h') = next-IsStock block_size num_block x.tensor_recv l k h lt room in
      (b, r, rw (e, g) refl, f, h')

  pub last_send_lem :
      IsStock block_size num_block x.tensor_send l (suc k)
      → l ≤ int_max
      → (r : Buffer) × (last_send x ≡ ok (record x { tensor_send = r }))
        × IsStock block_size num_block r (suc l) k
  last_send_lem h room =
      let (r, e, h') = last-IsStock block_size num_block x.tensor_send l k h room in
      (r, rw e refl, h')

  pub last_recv_lem :
      IsStock block_size num_block x.tensor_recv l (suc k)
      → l ≤ int_max
      → (r : Buffer) × (last_recv x ≡ ok (record x { tensor_recv = r }))
        × IsStock block_size num_block r (suc l) k
  last_recv_lem h room =
      let (r, e, h') = last-IsStock block_size num_block x.tensor_recv l k h room in
      (r, rw e refl, h')

-- The world after a call of the library, and the channel with a number of send requests in flight.
abbrev pub called : Shared → Memory → Trace → Shared
called s m t = record s { memory = m; world = record (s.world) { trace = t } }

abbrev pub counted : Adapter → ℕ → Adapter
counted a k = record a { sq_inflight = pos k }

module _ (v : Verbs) (x : Lane) (s : Shared) (l k : ℕ) (willing : IsWilling v x.channel.qp) where
  -- With a block to spare the answer is sent from it.
  pub answer_request_lem :
      (encode : CommDescriptor → List ℕ)
      → IsStock block_size num_block x.tensor_send l k
      → k < num_block
      → l + k ≤ int_max
      → x.channel.sq_inflight ≡ pos k
      → (r : Buffer) × (m : Memory) × (wr : SendWr) × (answer_request v encode (x, s)
          ≡ ok (
            record x { tensor_send = r; channel = counted x.channel (k + 1) },
            called s m (post_send x.channel.qp wr ∷ s.world.trace),
          ))
        × IsStock block_size num_block r l (suc k)
  unfolding answer_request
  answer_request_lem encode h lt room e =
      let (b, r, took, f, h') = next_send_lem x l k h lt room in
      let size = f.exact in
      let (wr, sent, _) =
        send_remote-Sent v b descriptor_size x.channel s.world.trace k f.postable (omega arith)
          (omega arith) 2 e (willing.sends s.world.trace) in
      let own : CommDescriptor = record {
        buffer_addr = r.data_ptr;
        buffer_length = r.buffer_size;
        rkey = v.rkey r.mr;
        fd = 0;
      } in
      (
        r,
        put b.data_ptr (encode own) s.memory,
        wr,
        rw (took, key_of_lem v.rkey r.mr h'.fit.0, sent) refl,
        h',
      )

  -- A receive is posted for the next block.
  pub receive_again_lem :
      (n : ℕ)
      → IsStock block_size num_block x.tensor_recv l k
      → k < num_block
      → l + k ≤ int_max
      → x.channel.rq_inflight ≡ pos n
      → n < 2 ^ 63 - 1
      → (r : Buffer) × (wr : RecvWr) × (receive_again v (x, s)
          ≡ ok (
            record x {
              tensor_recv = r;
              channel = record (x.channel) { rq_inflight = pos (n + 1) };
            },
            called s s.memory (post_recv x.channel.qp wr ∷ s.world.trace),
          ))
        × IsStock block_size num_block r l (suc k)
  unfolding receive_again
  receive_again_lem n h lt room e small =
      let (b, r, took, f, h') = next_recv_lem x l k h lt room in
      let size = f.exact in
      let (wr, posted) =
        recv_remote-Received v b block_size x.channel s.world.trace n f.postable (omega arith) small
          e (willing.receives s.world.trace) in
      (r, wr, rw (took, posted) refl, h')

  -- The next block is written to the peer.
  pub write_next_lem :
      IsStock block_size num_block x.tensor_send l k
      → k < num_block
      → l + k ≤ int_max
      → x.channel.sq_inflight ≡ pos k
      → block_size ≤ x.peer_comm.buffer_length
      → (r : Buffer) × (wr : SendWr) × (write_next v (x, s)
          ≡ ok (
            record x { tensor_send = r; channel = counted x.channel (k + 1) },
            called s s.memory (post_send x.channel.qp wr ∷ s.world.trace),
          ))
        × IsStock block_size num_block r l (suc k)
  unfolding write_next
  write_next_lem h lt room e far =
      let (b, r, took, f, h') = next_send_lem x l k h lt room in
      let size = f.exact in
      let (wr, sent, _) =
        write_remote-Sent v b b.buffer_size x.channel s.world.trace k f.postable (omega arith)
          (omega arith) x.peer_comm transfer_raw_data (omega arith) e
          (willing.sends s.world.trace) in
      (r, wr, rw (took, sent) refl, h')
