-- ===== src/Mesh/Tests.antt =====
-- The theorems on the towers at concrete inputs.
use rdma_comm_core.Prelude.{ℕ, true, List, [], ◌∷◌}
use rdma_comm_core.Verbs.{Wc, WcOpcode, wc_send, wc_recv}
use rdma_comm_core.Samples.{ready, descriptor, memory, empty_world}
use rdma_comm_core.Samples.Blocks.{ring}
use rdma_comm_core.Adapter.{CommDescriptor}
use rdma_comm_core.Mesh.{Lane, Shared, num_block, block_size}

abbrev lane : Lane
lane = record {
  channel = ready;
  tensor_send = ring block_size num_block;
  tensor_recv = ring block_size num_block;
  peer_comm = record descriptor { buffer_length = block_size };
}

abbrev shared : Shared
shared = record { memory = memory; world = empty_world }

abbrev wc : WcOpcode → ℕ → Wc
wc op imm = record {
  wr_id = 500;
  success = true;
  opcode = op;
  byte_len = 1;
  imm_data = imm;
  with_imm = true;
}

-- Two requests, and the completion of an answer between them.
abbrev arrivals : List Wc
arrivals = wc wc_recv 1 ∷ wc wc_send 0 ∷ wc wc_recv 1 ∷ []

abbrev whole : List ℕ → CommDescriptor
whole bytes = record descriptor { buffer_length = 2097152 }
