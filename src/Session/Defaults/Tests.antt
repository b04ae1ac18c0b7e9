-- ===== src/Session/Defaults/Tests.antt =====
-- The theorem on default_established_fn at a concrete input.
use rdma_comm_core.Prelude.{
  ◌+◌, ◌*◌, ◌≡◌, refl, some, none, [], ◌∷◌, arith, Outcome, ok, fault, find, insert,
}
use rdma_comm_core.Prelude.Int.{incr_int64, to_size}
use rdma_comm_core.Samples.{verbs, ready, world, memory, descriptor}
use rdma_comm_core.Samples.Sockets.{net, wire}
use rdma_comm_core.Tcp.{
  Wire, sock_sync_data, send_data, get_or_build_socket, load, recv_data_force, force_loop, put,
}
use rdma_comm_core.Buffer.{
  allocate_buffer, split, sub_buffer, get_block_size, security_check, clear, fill_in,
}
use rdma_comm_core.Device.MemoryRegion.{real_register_mem}
use rdma_comm_core.Device.Post.{post, real_send, real_recv}
use rdma_comm_core.Adapter.{get_id}
use rdma_comm_core.Adapter.Transfer.{increase_sqe, increase_rqe, send_remote, recv_remote}
use rdma_comm_core.Endpoint.{Frame, sync_with_peer}
use rdma_comm_core.Channel.{Channel, share, register_mem, register_in_channel, register_buffer}
use rdma_comm_core.Session.Defaults.{Runtime, Scene}
use rdma_comm_core.Session.Defaults.Calls.{Posts}
use rdma_comm_core.Session.Defaults.Established.{
  Supply, allocate_each, register_each, first_requests, establish, test_buffers,
}
use rdma_comm_core.Session.Defaults.Found.{AllFound}
use rdma_comm_core.Session.Defaults.Ready.{establish-AllFound}

abbrev supply : Supply
supply = record {
  place = λ i. 60 + i;
  memory = λ i. some (10000 * (i + 1));
  sub_names = λ name i. name;
}

abbrev frame : Frame
frame = record { adapt_info = 100; peer_info = 200; literal = 300; temp_char = 400 }

abbrev channel : Channel
channel = record { adapter = ready; owning_buffers = []; peer_buffer_mgr = [] }

abbrev scene : Scene
scene = record {
  host = record { channel = channel; buffers = λ p. none; world = world };
  memory = memory;
}

abbrev runtime : Runtime
runtime = record {
  scratch = 5000;
  bytes = λ s. 1 ∷ 2 ∷ [];
  encode = λ d. [];
  decode = λ xs. descriptor;
}

abbrev or_same : Outcome (Scene × Wire) → Scene × Wire
or_same (ok r) = r
or_same (fault f) = (scene, wire)

established : Scene × Wire
established = or_same (establish supply verbs runtime net frame 2 wire scene)

established_returns :
    establish supply verbs runtime net frame 2 wire scene ≡ ok (established.0, established.1)
unfolding established establish allocate_each allocate_buffer register_each register_buffer find
    insert register_in_channel register_mem real_register_mem get_id first_requests recv_remote
    security_check increase_rqe incr_int64 real_recv sync_with_peer sock_sync_data send_data
    get_or_build_socket load recv_data_force force_loop put fill_in clear send_remote real_send post
    increase_sqe split sub_buffer get_block_size to_size share
established_returns = refl

establish-AllFound_example :
    AllFound supply 0 (test_buffers channel) established.0.host.channel.owning_buffers
    × Posts 2 1 scene established.0
establish-AllFound_example =
    establish-AllFound supply verbs runtime net frame 2 wire established.1 scene established.0
      (λ i j e. omega arith) established_returns
