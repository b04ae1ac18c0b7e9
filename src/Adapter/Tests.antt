-- ===== src/Adapter/Tests.antt =====
-- The theorems on adapters at concrete inputs.
use rdma_comm_core.Prelude.{
  ◌≡◌, refl, true, [], ◌∷◌, find, insert, assign, arith, Outcome, ok, fault,
}
use rdma_comm_core.Prelude.Int.{pos, incr_int64}
use rdma_comm_core.Verbs.{SendWr, send_with_imm, rdma_write_with_imm, rdma_read, post_send}
use rdma_comm_core.Samples.{
  verbs, device, world, empty_world, adapter, ready, peer, registered, descriptor,
}
use rdma_comm_core.Buffer.{security_check}
use rdma_comm_core.Device.{
  World, choose_device, open_device_of, query_port_attr, query_ports, query_hardware_info,
  init_resources, create_event_channel, create_protected_domain, create_completion_queue,
  create_queue_pair, query_gid, has_created_cq, get_port_attr, is_registered, register_adapter,
  find_or_create, get_device,
}
use rdma_comm_core.Device.Post.{post, real_write_remote_with_notify}
use rdma_comm_core.Adapter.{Adapter, AdapterInfo, AdapterState, info, get_id}
use rdma_comm_core.Adapter.Loading.{
  choose_cq, init_attr_of, create_pd, create_compt_channel, create_cq, create_qp,
  update_my_adapter_info, allocate, loading,
}
use rdma_comm_core.Adapter.Loading.Result.{IsLoaded, loading-IsLoaded, loading_idempotent}
use rdma_comm_core.Adapter.Loading.Steps.{Gives}
use rdma_comm_core.Adapter.Loading.Total.{IsLoadable, loading_total}
use rdma_comm_core.Adapter.Connect.{connecting}
use rdma_comm_core.Adapter.Connect.Moves.{handshake, IsConnectable, connecting_total}
use rdma_comm_core.Adapter.Transfer.{increase_sqe, write_remote}
use rdma_comm_core.Adapter.Transfer.Bounds.{
  InBuffer, InRemote, Posted, IsPostable, write_remote-Posted,
}

abbrev or_ready : Outcome (AdapterInfo × Adapter × World) → AdapterInfo × Adapter × World
or_ready (ok r) = r
or_ready (fault f) = (ready.self, ready, world)

loaded : AdapterInfo × Adapter × World
loaded = or_ready (loading verbs 3 adapter empty_world)

loading_returns : loading verbs 3 adapter empty_world ≡ ok loaded
unfolding loaded loading allocate choose_cq info get_id init_attr_of create_pd create_compt_channel
    create_cq create_qp update_my_adapter_info choose_device open_device_of query_port_attr
    query_ports query_hardware_info init_resources create_event_channel create_protected_domain
    create_completion_queue create_queue_pair query_gid has_created_cq get_port_attr is_registered
    register_adapter find_or_create get_device find insert assign
loading_returns = refl

loading-IsLoaded_example :
    IsLoaded verbs 5 loaded.1
    × (loaded.0 ≡ loaded.1.self)
    × (loaded.1.self.unique_id ≡ info adapter)
loading-IsLoaded_example =
    loading-IsLoaded verbs 3 adapter empty_world loaded.0 loaded.1 loaded.2 loading_returns refl

loading_idempotent_example : loading verbs 9 loaded.1 world ≡ ok (loaded.0, loaded.1, world)
loading_idempotent_example =
    loading_idempotent verbs 3 9 adapter empty_world loaded.0 loaded.1 loaded.2 world
      loading_returns

ready-IsConnectable : IsConnectable verbs peer ready world
unfolding find
ready-IsConnectable = record {
  named = refl;
  has_layer = omega arith;
  has_qp = omega arith;
  device = _;
  key = "mlx5_0";
  has_device = (refl, refl);
  same_layer = λ e. refl;
  has_gid = λ e. refl;
}

connecting_total_example :
    connecting verbs peer ready world
    ≡ ok (
      peer,
      record ready { remote = peer; status = AdapterState.connecting },
      record world { trace = handshake verbs (record ready { remote = peer }) [] },
    )
connecting_total_example = connecting_total verbs peer ready world ready-IsConnectable

abbrev infiniband : AdapterInfo
infiniband = record peer { link_layer = 1 }

abbrev sending : Adapter
sending = record ready { sq_inflight = pos 1 }

abbrev receiving : Adapter
receiving = record ready { rq_inflight = pos 1 }

abbrev request : SendWr
request = record {
  wr_id = 500;
  sge = record { addr = 100; size = 4; lkey = 1051 };
  opcode = send_with_imm 7;
  signaled = true;
}

abbrev reading : SendWr
reading = record request { opcode = rdma_read 900 3 }

abbrev writing : SendWr
writing = record request { opcode = rdma_write_with_imm 900 3 7 }

write_remote-Posted_example :
    (wr : SendWr) × Posted verbs ready wr [] (post_send 41 writing ∷ [])
    × InBuffer verbs registered wr.sge
    × (wr.sge.size ≡ 4)
    × InRemote descriptor 4 wr.opcode
    × (wr.opcode ≡ rdma_write_with_imm 900 3 7)
unfolding write_remote security_check real_write_remote_with_notify increase_sqe incr_int64 post
write_remote-Posted_example =
    write_remote-Posted verbs registered 4 ready sending [] (post_send 41 writing ∷ []) descriptor 7
      true refl

registered-IsPostable : IsPostable registered
registered-IsPostable = record {
  filled = omega arith;
  placed = omega arith;
  owned = omega arith;
  registered = omega arith;
}

verbs-Gives : Gives verbs 7
verbs-Gives = record {
  pds = λ t. omega arith;
  channels = λ t. omega arith;
  cqs = λ t n x chan. omega arith;
  qps = λ t pd attr. omega arith;
  gids = λ t p i. refl;
}

adapter-IsLoadable : IsLoadable verbs adapter world device 1
unfolding info get_id find
adapter-IsLoadable = record {
  first = refl;
  here = omega arith;
  no_pd = refl;
  no_qp = refl;
  found = refl;
  gives = verbs-Gives;
  counted = refl;
  port = refl;
  in_range = (omega arith, omega arith, omega arith);
  name = (omega arith, omega arith);
  shared = λ e. absurd (ground arith);
  own = λ e. refl;
}

loading_total_example : (r : AdapterInfo × Adapter × World) × (loading verbs 3 adapter world ≡ ok r)
loading_total_example = loading_total verbs 3 adapter world device 1 adapter-IsLoadable
