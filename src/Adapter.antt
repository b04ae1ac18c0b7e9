-- ===== src/Adapter.antt =====
-- src/rdma_adapter.cc and include/rdma_adapter.h: one RDMA connection. It allocates its resources on a
-- device, moves its queue pair to ready, and posts work requests for buffers.
pub mod Transfer
pub mod Connect
pub mod Loading
mod Tests
use Prim.Native.String.{len, ◌++◌ as join}
use rdma_comm_core.Prelude.{
  ℕ, ◌+◌, ◌-◌, ◌%◌, ◌^◌, ◌≡◌, String, Bool, true, false, not, ◌&&◌, Option, none, some, List, [],
  ◌∷◌, ◌==◌, leb, ltb, if◌then◌else◌, Outcome, ok, fault, undefined, ◌>>=◌, ◌>>◌, check,
  or_undefined, find, assign,
}
use rdma_comm_core.Prelude.Int.{ℤ, pos, to_u8, to_u32, is_nonneg}
use rdma_comm_core.Verbs.{Trace}
use rdma_comm_core.Device.{Device, World}

pub data AdapterState : Type 0 where
  unused reset resource_allocated connecting : AdapterState

pub record AdapterConfig : Type 0 where
  pub unique_id : String
  pub dev_name : String
  pub traffic_class : ℕ
  pub cq_size : ℕ
  pub ib_port : ℤ
  pub gid_index : ℤ
  pub used_mtu : ℕ
  pub cq_key : String
  pub signal_all_wqe : Bool
  pub using_shared_cq : Bool
  pub use_event_channel : Bool
  pub max_send_wr : ℕ
  pub max_recv_wr : ℕ
  pub max_send_sge : ℕ
  pub max_recv_sge : ℕ
  pub max_inline_data : ℕ

-- `unique_id` is a text, which the source keeps in 128 bytes.
pub record AdapterInfo : Type 0 where
  pub gid : ℕ
  pub qp_num : ℕ
  pub lid : ℕ
  pub link_layer : ℕ
  pub active_mtu : ℕ
  pub unique_id : String

pub record CommDescriptor : Type 0 where
  pub buffer_addr : ℕ
  pub buffer_length : ℕ
  pub rkey : ℕ
  pub fd : ℕ

-- `this` is the adapter's address, and `endpoint_id` the registered endpoint's get_id().
pub record Adapter : Type 0 where
  pub this : ℕ
  pub id : String
  pub endpoint_id : String
  pub status : AdapterState
  pub config : AdapterConfig
  pub self : AdapterInfo
  pub remote : AdapterInfo
  pub resource_is_allocated : Bool
  pub rdma_device : Option String
  pub sq_inflight : ℤ
  pub rq_inflight : ℤ
  pub indexed_by_session : ℤ
  pub pd : ℕ
  pub qp : ℕ
  pub used_cq : ℕ
  pub event_channel : ℕ

-- RDMAChannel::get_id and RDMAAdapter::info
unfoldable pub get_id : Adapter → String
get_id a = join "(" (join a.id (join ")" a.endpoint_id))

unfoldable pub info : Adapter → String
unfolding get_id
info a = join "RDMAAdapter@" (get_id a)

-- The device behind the shared pointer, and a change of it.
abbrev pub device_of : Adapter → World → Outcome Device
device_of a w = elim a.rdma_device [
  | none ↦ fault undefined
  | some key ↦ or_undefined (find key w.device_map)
]

abbrev pub put_device : Adapter → Device → Trace → World → World
put_device a d t w = elim a.rdma_device [
  | none ↦ w
  | some key ↦ record { device_map = assign key d w.device_map; trace = t }
]
