-- ===== src/Mesh/Ready/Tests.antt =====
-- The theorem on the start of a tower at a concrete input.
use rdma_comm_core.Prelude.{
  ◌≡◌, refl, some, List, [], ◌∷◌, length, All, arith, Outcome, ok, fault, find, insert,
}
use rdma_comm_core.Prelude.Int.{incr_int64, incr_int, to_size}
use rdma_comm_core.Samples.{verbs, ready, world, memory, descriptor}
use rdma_comm_core.Samples.Sockets.{net, wire}
use rdma_comm_core.Tcp.{
  sock_sync_data, send_data, get_or_build_socket, load, recv_data_force, force_loop, put,
}
use rdma_comm_core.Buffer.{
  allocate_buffer, split, sub_buffer, get_block_size, security_check, next, mod_blocks, mark,
}
use rdma_comm_core.Device.MemoryRegion.{real_register_mem}
use rdma_comm_core.Device.Post.{real_recv}
use rdma_comm_core.Adapter.Transfer.{increase_rqe, recv_remote}
use rdma_comm_core.Endpoint.{Frame, sync_with_peer}
use rdma_comm_core.Channel.{share, register_mem, register_in_channel, register_buffer}
use rdma_comm_core.Mesh.{Lane, Shared, prepare, post_receives}
use rdma_comm_core.Mesh.Lanes.{IsLane}
use rdma_comm_core.Mesh.Start.{Equipment, prepare_each, post_each, sync_each, start}
use rdma_comm_core.Mesh.Ready.{IsEquipped, start-AllLanes}

abbrev frame : Frame
frame = record { adapt_info = 100; peer_info = 200; literal = 300; temp_char = 400 }

abbrev equipment : Equipment
equipment = record {
  channel = record { adapter = ready; owning_buffers = []; peer_buffer_mgr = [] };
  place_send = 60;
  place_recv = 61;
  memory_send = some 1000000;
  memory_recv = some 9000000;
  unset = descriptor;
  net = net;
  wire = wire;
}

equipment-IsEquipped : IsEquipped verbs equipment
equipment-IsEquipped = record {
  send_at = 1000000;
  recv_at = 9000000;
  send_is = refl;
  recv_is = refl;
  send_fits = (omega arith, omega arith);
  recv_fits = (omega arith, omega arith);
  apart = λ e. absurd (omega arith);
  this = omega arith;
  idle = (refl, refl);
  willing = record { sends = λ t wr. refl; receives = λ t wr. refl };
}

abbrev shared : Shared
shared = record { memory = memory; world = world }

abbrev or_none : Outcome (List Lane × Shared) → List Lane × Shared
or_none (ok r) = r
or_none (fault f) = ([], shared)

started : List Lane × Shared
started = or_none (start verbs (λ info i. info) frame 2 (equipment ∷ []) shared)

started_returns :
    start verbs (λ info i. info) frame 2 (equipment ∷ []) shared ≡ ok (started.0, started.1)
unfolding started start prepare_each prepare allocate_buffer register_buffer find insert
    register_in_channel register_mem real_register_mem post_each post_receives next mod_blocks mark
    recv_remote security_check increase_rqe incr_int64 incr_int real_recv sync_each sync_with_peer
    sock_sync_data send_data get_or_build_socket load recv_data_force force_loop put split
    sub_buffer get_block_size to_size share
started_returns = refl

start-AllLanes_example :
    All (λ (x : Lane). IsLane x 0 0 0 128 128) started.0 × (length started.0 ≡ 1)
start-AllLanes_example =
    start-AllLanes verbs (λ info i. info) frame 2 (equipment ∷ []) started.0 shared started.1
      (equipment-IsEquipped, tt) started_returns
