-- ===== src/Samples.antt =====
-- Concrete inputs for the tests: a library that accepts every call, an adapter, a buffer of three blocks.
pub mod Blocks
pub mod Sockets
use rdma_comm_core.Prelude.{ℕ, ◌+◌, ◌*◌, Bool, true, false, none, some, [], ◌∷◌}
use rdma_comm_core.Prelude.Int.{ℤ, pos, negsuc}
use rdma_comm_core.Memory.{Memory}
use rdma_comm_core.Verbs.{
  Verbs, Call, PortAttr, open_device, query_device, query_port, query_gid, create_comp_channel,
  alloc_pd, create_cq, create_qp, query_qp, modify_qp, post_send, post_recv, poll_cq, reg_mr,
  dereg_mr,
}
use rdma_comm_core.Buffer.{Block, Buffer}
use rdma_comm_core.Device.{Device, World}
use rdma_comm_core.Adapter.{Adapter, AdapterConfig, AdapterInfo, CommDescriptor, unused}
use rdma_comm_core.Channel.{Channel, Host}

-- Handles are not null, and every return code is 0.
abbrev replies : Call → ℕ
replies (open_device name) = 7
replies (query_device c) = 0
replies (query_port c p) = 0
replies (query_gid c p i) = 0
replies (create_comp_channel c) = 11
replies (alloc_pd c) = 21
replies (create_cq c n x ch k) = 31
replies (create_qp pd attr) = 41
replies (query_qp qp) = 0
replies (modify_qp qp move) = 0
replies (post_send qp wr) = 0
replies (post_recv qp wr) = 0
replies (poll_cq cq n) = 0
replies (reg_mr pd p n flags) = 51
replies (dereg_mr mr) = 0

abbrev pub port : PortAttr
port = record { state = 4; active_mtu = 3; lid = 9; link_layer = 2 }

abbrev pub verbs : Verbs
verbs = record {
  answer = λ t c. replies c;
  device_list = some ("mlx5_0" ∷ []);
  phys_port_cnt = λ t c. 1;
  port_attr = λ t c p. port;
  gid = λ t c p i. 77;
  poll = λ t cq n. some [];
  lkey = λ mr. mr + 1000;
  rkey = λ mr. mr + 2000;
  qp_num = λ qp. qp + 100;
  port_active = 4;
  ethernet = 2;
}

-- A device with 255 ports, on a library that answers 0.
abbrev pub many_ports : Verbs
many_ports = record verbs { answer = λ t c. 0; phys_port_cnt = λ t c. 255 }

abbrev pub no_info : AdapterInfo
no_info = record { gid = 0; qp_num = 0; lid = 0; link_layer = 0; active_mtu = 0; unique_id = "" }

abbrev pub config : AdapterConfig
config = record {
  unique_id = "";
  dev_name = "mlx5_0";
  traffic_class = 0;
  cq_size = 500;
  ib_port = pos 1;
  gid_index = pos 3;
  used_mtu = 5;
  cq_key = "";
  signal_all_wqe = false;
  using_shared_cq = false;
  use_event_channel = true;
  max_send_wr = 100;
  max_recv_wr = 100;
  max_send_sge = 1;
  max_recv_sge = 1;
  max_inline_data = 0;
}

abbrev pub adapter : Adapter
adapter = record {
  this = 500;
  id = "DataChannel";
  endpoint_id = "[a-->b]";
  status = unused;
  config = config;
  self = no_info;
  remote = no_info;
  resource_is_allocated = false;
  rdma_device = none;
  sq_inflight = pos 0;
  rq_inflight = pos 0;
  indexed_by_session = negsuc 0;
  pd = 0;
  qp = 0;
  used_cq = 0;
  event_channel = 0;
}

abbrev pub device : Device
device = record {
  dev_name = "mlx5_0";
  ib_ctx = 7;
  phys_port_cnt = 1;
  ports_attrs = port ∷ [];
  reg_cqs = ("a", 31) ∷ [];
  adapter_set = [];
}

abbrev pub empty_world : World
empty_world = record { device_map = []; trace = [] }

abbrev pub world : World
world = record { device_map = ("mlx5_0", device) ∷ []; trace = [] }

-- An adapter that is ready to connect and to post.
abbrev pub ready : Adapter
ready = record adapter {
  self = record no_info { link_layer = 2; qp_num = 141; unique_id = "me" };
  rdma_device = some "mlx5_0";
  pd = 21;
  qp = 41;
  used_cq = 31;
}

abbrev pub peer : AdapterInfo
peer = record { gid = 5; qp_num = 142; lid = 8; link_layer = 2; active_mtu = 3; unique_id = "you" }

abbrev pub memory : Memory
memory = λ a. a + 1

abbrev pub block : ℕ → Bool → Block
block i used = record {
  buffer_name = "block";
  buffer_size = 4;
  data_ptr = 100 + i * 4;
  owned_by_channel = 0;
  is_initialized = true;
  mr = 0;
  next_active = negsuc 0;
  last_active = negsuc 0;
  in_used = used;
  buffer_index = pos i;
  is_sub_buffer = true;
  blocks = 1;
}

-- Three blocks of four bytes at 100, with the counters and the mark that are given.
abbrev pub three : ℤ → ℤ → Bool → Buffer
three handed taken used = record {
  head = record {
    buffer_name = "three";
    buffer_size = 12;
    data_ptr = 100;
    owned_by_channel = 0;
    is_initialized = true;
    mr = 0;
    next_active = handed;
    last_active = taken;
    in_used = false;
    buffer_index = negsuc 0;
    is_sub_buffer = false;
    blocks = 3;
  };
  buffer_mgr = block 0 used ∷ block 1 used ∷ block 2 used ∷ [];
}

abbrev pub idle : Buffer
idle = three (negsuc 0) (negsuc 0) false

abbrev pub full : Buffer
full = three (pos 2) (negsuc 0) true

-- A block that a channel has registered.
abbrev pub registered : Block
registered = record (block 0 false) { owned_by_channel = 500; mr = 51 }

abbrev pub descriptor : CommDescriptor
descriptor = record { buffer_addr = 900; buffer_length = 64; rkey = 3; fd = 0 }

abbrev pub channel : Channel
channel = record { adapter = ready; owning_buffers = []; peer_buffer_mgr = [] }

-- A channel with the buffer `idle` at 60, not registered yet.
abbrev pub host : Host
host = record { channel = channel; buffers = λ q. some idle; world = world }
