-- ===== src/Mesh/Client.antt =====
-- ClientTower of example/mesh_comm_service.cc: it asks for the peer's buffer, and then writes its blocks
-- there over and over.
use rdma_comm_core.Prelude.{
  ℕ, zero, suc, ◌+◌, ◌*◌, true, false, some, List, [], ◌∷◌, ◌==◌, length, Outcome, ok, fault,
  log_fatal, ◌>>=◌, ◌>>◌, check,
}
use rdma_comm_core.Verbs.{
  Verbs, Wc, WcOpcode, wc_send, wc_recv, wc_rdma_write, wc_rdma_read, wc_recv_rdma_with_imm,
  wc_other,
}
use rdma_comm_core.Adapter.{Adapter, CommDescriptor}
use rdma_comm_core.Adapter.Transfer.{send_remote, write_remote, decrease_sqe, decrease_rqe}
use rdma_comm_core.Tcp.{load}
use rdma_comm_core.Mesh.{
  Site, Switch, num_block, descriptor_size, request_buffer, response_to_request_buffer,
  transfer_raw_data, next_send, next_recv, last_send, last_recv, on_send, count, request,
}

module _ (v : Verbs) where
  -- The first message, which asks for the buffer.
  unfoldable pub ask_for_buffer : Site → Outcome Site
  ask_for_buffer s =
      next_send s.0 >>= λ r. request (send_remote v (some r.0) 1 request_buffer) (r.1, s.1)

  -- A write of the next block to the peer's buffer.
  unfoldable pub write_next : Site → Outcome Site
  write_next s = next_send s.0 >>= λ r.
      request
        (write_remote v (some r.0) r.0.buffer_size (some r.1.peer_comm) transfer_raw_data false)
        (r.1, s.1)

  unfoldable pub write_blocks : ℕ → Site → Outcome Site
  write_blocks zero s = ok s
  write_blocks (suc left) s = write_next s >>= write_blocks left

  unfoldable pub on_write : Site → Outcome Site
  on_write s = count decrease_sqe s.0 >>= λ x. last_send x >>= λ y. write_next (y, s.1)

module _ (v : Verbs) (decode : List ℕ → CommDescriptor) where
  -- The block that `next` gives is the one that the response came into, so long as all blocks are posted.
  unfoldable pub on_recv : Wc → Site → Outcome Site
  on_recv wc s = do
    x ← count decrease_rqe s.0
    y ← last_recv x
    s' ← elim (wc.imm_data == response_to_request_buffer) [
      | true ↦ next_recv y >>= λ r.
          ok (
            record (r.1) { peer_comm = decode (load r.0.data_ptr descriptor_size s.1.memory) },
            s.1,
          )
      | false ↦ fault log_fatal
    ]
    write_blocks v 127 s'

  -- The switch over the opcode.
  unfoldable pub client_op : WcOpcode → Switch
  client_op wc_send wc s = on_send s
  client_op wc_recv wc s = on_recv wc s
  client_op wc_rdma_write wc s = on_write v s
  client_op wc_recv_rdma_with_imm wc s = fault log_fatal
  client_op wc_rdma_read wc s = fault log_fatal
  client_op wc_other wc s = fault log_fatal

  abbrev pub client : Switch
  client wc s = client_op wc.opcode wc s

-- lazy_config_hca, for a session with one endpoint.
unfoldable pub configure : List Adapter → List Adapter
configure [] = []
configure (a ∷ rest) =
    record a {
      config = record (a.config) {
        using_shared_cq = false;
        max_recv_wr = num_block;
        max_send_wr = num_block;
        traffic_class = 0;
        cq_size = (num_block + num_block) * 1;
      };
    }
    ∷ configure rest

unfoldable pub lazy_config : List Adapter → Outcome (List Adapter)
unfolding configure
lazy_config channels = check (length channels == 1) >> ok (configure channels)
