-- ===== src/Mesh/Server.antt =====
-- ServerTower of example/mesh_comm_service.cc: it answers a request for its buffer, and keeps a receive
-- posted for every block.
use rdma_comm_core.Prelude.{
  ℕ, ◌+◌, ◌*◌, true, false, some, List, [], ◌∷◌, ◌==◌, Outcome, fault, log_fatal, ◌>>=◌,
}
use rdma_comm_core.Verbs.{
  Verbs, Wc, WcOpcode, wc_send, wc_recv, wc_rdma_write, wc_rdma_read, wc_recv_rdma_with_imm,
  wc_other,
}
use rdma_comm_core.Device.Post.{key_of}
use rdma_comm_core.Adapter.{Adapter, CommDescriptor}
use rdma_comm_core.Adapter.Transfer.{send_remote, recv_remote, decrease_rqe}
use rdma_comm_core.Tcp.{put}
use rdma_comm_core.Mesh.{
  Shared, Site, Switch, num_block, block_size, descriptor_size, request_buffer,
  response_to_request_buffer, next_send, next_recv, last_recv, on_send, count, request,
}

module _ (v : Verbs) where
  -- A receive for the next block.
  unfoldable pub receive_again : Site → Outcome Site
  receive_again s = next_recv s.0 >>= λ r. request (recv_remote v (some r.0) block_size) (r.1, s.1)

module _ (v : Verbs) (encode : CommDescriptor → List ℕ) where
  -- The answer to REQUEST_BUFFER: the descriptor of the buffer to send from, in its next block.
  unfoldable pub answer_request : Site → Outcome Site
  answer_request s = do
    (b, x) ← next_send s.0
    rkey ← key_of v.rkey x.tensor_send.mr
    let own : CommDescriptor = record {
      buffer_addr = x.tensor_send.data_ptr;
      buffer_length = x.tensor_send.buffer_size;
      rkey = rkey;
      fd = 0;
    }
    let s' : Shared = record (s.1) { memory = put b.data_ptr (encode own) s.1.memory }
    request (send_remote v (some b) descriptor_size response_to_request_buffer) (x, s')

  unfoldable pub on_recv : Wc → Site → Outcome Site
  on_recv wc s = do
    x ← last_recv s.0
    y ← count decrease_rqe x
    s' ← elim (wc.imm_data == request_buffer) [
      | true ↦ answer_request (y, s.1)
      | false ↦ fault log_fatal
    ]
    receive_again v s'

  -- The switch over the opcode.
  unfoldable pub server_op : WcOpcode → Switch
  server_op wc_send wc s = on_send s
  server_op wc_recv wc s = on_recv wc s
  server_op wc_recv_rdma_with_imm wc s = fault log_fatal
  server_op wc_rdma_write wc s = fault log_fatal
  server_op wc_rdma_read wc s = fault log_fatal
  server_op wc_other wc s = fault log_fatal

  abbrev pub server : Switch
  server wc s = server_op wc.opcode wc s

-- lazy_config_hca, on the channels of the endpoints: a queue that all of them share, with room for the
-- requests of each.
unfoldable pub lazy_config : ℕ → List Adapter → List Adapter
lazy_config endpoints [] = []
lazy_config endpoints (a ∷ channels) =
    record a {
      config = record (a.config) {
        using_shared_cq = true;
        max_recv_wr = num_block;
        max_send_wr = num_block;
        traffic_class = 0;
        cq_key = "GlobalSharedCQForRecv";
        cq_size = (num_block + num_block) * endpoints;
      };
    }
    ∷ lazy_config endpoints channels
