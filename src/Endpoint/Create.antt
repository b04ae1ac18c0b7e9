-- ===== src/Endpoint/Create.antt =====
-- The constructors of src/rdma_endpoint.cc, src/tcp_connector.cc, src/rdma_channel.cc and src/rdma_adapter.cc:
-- a new endpoint with its socket and its channel. `Naming` stands for the kernel and the library: what
-- getsockname() and inet_ntop() give for a socket, std::to_string, and the bytes of a gid that the
-- constructor leaves unset.
use Prim.Native.String.{◌++◌ as join}
use rdma_comm_core.Prelude.{
  ℕ, ◌+◌, ◌*◌, ◌/◌, ◌%◌, String, true, false, none, List, [], ◌∷◌, ◌++◌, Outcome, ok, fault,
  undefined, ◌>>=◌,
}
use rdma_comm_core.Prelude.Int.{ℤ, pos, negsuc}
use rdma_comm_core.Memory.{Memory}
use rdma_comm_core.Adapter.{Adapter, AdapterConfig, AdapterInfo, reset}
use rdma_comm_core.Channel.{Channel}
use rdma_comm_core.Tcp.{Net, TcpConnector, Wire}
use rdma_comm_core.Endpoint.{Frame, sync_with_peer}

pub record Naming : Type 0 where
  pub own_name : ℤ → String × ℕ
  pub to_string : ℤ → String
  pub unset_gid : ℕ

-- htons and ntohs, which swap the two bytes of a port.
abbrev pub swap : ℕ → ℕ
swap port = port % 256 * 256 + port / 256 % 256

-- The default values of AdapterConfig.
abbrev pub default_config : AdapterConfig
default_config = record {
  unique_id = "Adapter";
  dev_name = "mlx5_0";
  traffic_class = 0;
  cq_size = 1024;
  ib_port = pos 1;
  gid_index = pos 3;
  used_mtu = 5;
  cq_key = "";
  signal_all_wqe = false;
  using_shared_cq = true;
  use_event_channel = false;
  max_send_wr = 128;
  max_recv_wr = 128;
  max_send_sge = 1;
  max_recv_sge = 1;
  max_inline_data = 1;
}

-- The default values of AdapterInfo.
abbrev default_info : ℕ → AdapterInfo
default_info gid = record {
  gid = gid;
  qp_num = 0;
  lid = 0;
  link_layer = 0;
  active_mtu = 1;
  unique_id = "";
}

-- RDMAAdapter::RDMAAdapter, for the object at `this` whose endpoint has the given get_id().
unfoldable pub new_adapter : Naming → ℕ → String → String → Adapter
new_adapter n this info endpoint_id = record {
  this = this;
  id = info;
  endpoint_id = endpoint_id;
  status = reset;
  config = default_config;
  self = default_info n.unset_gid;
  remote = default_info n.unset_gid;
  resource_is_allocated = false;
  rdma_device = none;
  sq_inflight = pos 0;
  rq_inflight = pos 0;
  indexed_by_session = negsuc 0;
  pd = 0;
  qp = 0;
  used_cq = 0;
  event_channel = 0;
}

unfoldable pub build_rdma_channel : Naming → ℕ → String → String → Channel
build_rdma_channel n this id endpoint_id = record {
  adapter = new_adapter n this id endpoint_id;
  owning_buffers = [];
  peer_buffer_mgr = [];
}

-- TCPConnector::TCPConnector
unfoldable pub new_connector : Naming → ℤ → String → ℤ → TcpConnector
new_connector n sock ip port = record {
  root_sock = sock;
  peer_ip = ip;
  peer_port = port;
  my_ip = (n.own_name sock).0;
  my_port = pos (swap (n.own_name sock).1);
}

-- An endpoint: `registered_session` is the get_id() of its session. Its wire has the memory as it was when the
-- endpoint last used its socket.
pub record Endpoint : Type 0 where
  pub id : String
  pub pre_connector : Wire
  pub rdma_channel_mgr : List Channel
  pub registered_session : String

-- "<my_ip>:<my_port>--><peer_ip>:<peer_port>"
abbrev ends : Naming → TcpConnector → String
ends n c = join c.my_ip (
    join ":" (
      join (n.to_string c.my_port)
        (join "-->" (join c.peer_ip (join ":" (n.to_string c.peer_port))))))

unfoldable pub get_unique_id : Naming → TcpConnector → String
get_unique_id n c = join "RDMAEndPoint(" (join (ends n c) ")")

unfoldable pub endpoint_id : Naming → Endpoint → String
endpoint_id n e =
    join "[" (join (ends n e.pre_connector.connector) (join "]@" e.registered_session))

unfoldable pub setup_rdma_channel : Naming → ℕ → String → Endpoint → Endpoint
setup_rdma_channel n this info e = record e {
  rdma_channel_mgr = e.rdma_channel_mgr ++ build_rdma_channel n this info (endpoint_id n e) ∷ [];
}

-- RDMAEndPoint::RDMAEndPoint; `this` is where its channel lies.
unfoldable pub create_endpoint :
    Naming → Net → Frame → ℕ → ℤ → String → ℤ → ℕ → String → Memory → Outcome (Endpoint × Memory)
create_endpoint n net frame fuel fd ip port this session m = do
  let c = new_connector n fd ip port
  w ←
      sync_with_peer net frame fuel
        (record { connector = c; sent = []; reads = 0; taken = 0; memory = m })
  let e : Endpoint = record {
    id = get_unique_id n c;
    pre_connector = w;
    rdma_channel_mgr = [];
    registered_session = session;
  }
  ok (setup_rdma_channel n this "DataChannel" e, w.memory)

-- get_channel()->setup_index_in_session(index)
unfoldable pub setup_index_in_session : ℕ → Endpoint → Outcome Endpoint
setup_index_in_session index e = elim e.rdma_channel_mgr [
  | [] ↦ fault undefined
  | c ∷ cs ↦ ok (record e {
    rdma_channel_mgr =
        record c { adapter = record (c.adapter) { indexed_by_session = pos index } } ∷ cs;
  })
]
