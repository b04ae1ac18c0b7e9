-- ===== src/Mesh.antt =====
-- example/mesh_comm_service.cc: what the two towers share. A tower keeps two buffers for each of its
-- channels, one to send from and one to receive into, and their blocks go round as the completions come in.
-- The vectors of process_CQ have a channel's buffers at the index that it sets in the channel, so a lane
-- is a channel with its elements of these vectors. Threads are not modelled: the service of each peer is a
-- session of its own.
pub mod Server
pub mod Client
pub mod Lanes
pub mod Service
pub mod Traffic
pub mod Posting
pub mod Stream
pub mod Start
pub mod Prepared
pub mod Ready
mod Tests
use rdma_comm_core.Prelude.{
  ℕ, zero, suc, ◌*◌, String, Bool, true, false, Option, none, some, List, [], ◌∷◌, ◌==◌, leb,
  length, get_elem?, Outcome, ok, fault, undefined, log_fatal, no_fuel, ◌>>=◌, ◌>>◌, check,
  or_undefined,
}
use rdma_comm_core.Prelude.Int.{ℤ, pos}
use rdma_comm_core.Memory.{Memory}
use rdma_comm_core.Verbs.{Verbs, Trace, Wc}
use rdma_comm_core.Buffer.{Block, Buffer, allocate_buffer, next, last}
use rdma_comm_core.Device.{World}
use rdma_comm_core.Adapter.{Adapter, CommDescriptor}
use rdma_comm_core.Adapter.Connect.{show_qp_info}
use rdma_comm_core.Adapter.Transfer.{recv_remote, decrease_sqe, poll_cq_batch}
use rdma_comm_core.Channel.{Channel, Host, register_buffer, store}

-- `tensor_send`, `tensor_recv` and `peer_comm` are the channel's elements of tensor_buffer_send,
-- tensor_buffer_recv and peer_comm_fd_mgr.
pub record Lane : Type 0 where
  pub channel : Adapter
  pub tensor_send : Buffer
  pub tensor_recv : Buffer
  pub peer_comm : CommDescriptor

pub record Shared : Type 0 where
  pub memory : Memory
  pub world : World

abbrev pub Site : Type 0
Site = Lane × Shared

abbrev pub num_block : ℕ
num_block = 128

abbrev pub block_size : ℕ
block_size = 16 * 1024

-- The names of the two buffers of a channel.
abbrev pub send_name : String
send_name = "datachannel_write_placeholder"

abbrev pub recv_name : String
recv_name = "datachannel_recv_placeholder"

-- sizeof(struct CommDescriptor)
abbrev pub descriptor_size : ℕ
descriptor_size = 24

-- MsgDataChannel
abbrev pub request_buffer : ℕ
request_buffer = 1

abbrev pub response_to_request_buffer : ℕ
response_to_request_buffer = 2

abbrev pub transfer_raw_data : ℕ
transfer_raw_data = 299

-- next() and last() of the two buffers
abbrev pub next_send : Lane → Outcome (Block × Lane)
next_send x = do
  (i, b) ← next x.tensor_send
  s ← or_undefined (get_elem? b.buffer_mgr i)
  ok (s, record x { tensor_send = b })

abbrev pub next_recv : Lane → Outcome (Block × Lane)
next_recv x = do
  (i, b) ← next x.tensor_recv
  s ← or_undefined (get_elem? b.buffer_mgr i)
  ok (s, record x { tensor_recv = b })

abbrev pub last_send : Lane → Outcome Lane
last_send x = last x.tensor_send >>= λ r. ok (record x { tensor_send = r.1 })

abbrev pub last_recv : Lane → Outcome Lane
last_recv x = last x.tensor_recv >>= λ r. ok (record x { tensor_recv = r.1 })

-- A change of the channel, and a request on it.
abbrev pub count : (Adapter → Outcome Adapter) → Lane → Outcome Lane
count f x = f x.channel >>= λ a. ok (record x { channel = a })

abbrev pub request : (Adapter → Trace → Outcome (Adapter × Trace)) → Site → Outcome Site
request post s = post s.0.channel s.1.world.trace >>= λ r.
    ok (record (s.0) { channel = r.0 }, record (s.1) { world = record (s.1.world) { trace = r.1 } })

-- The completion of a send, in both towers.
unfoldable pub on_send : Site → Outcome Site
on_send s = count decrease_sqe s.0 >>= λ x. last_send x >>= λ y. ok (y, s.1)

-- What a completion does to the lane of its channel and to the rest.
abbrev pub Switch : Type 0
Switch = Wc → Site → Outcome Site

-- active_channel = (RDMAChannel *)wr_id; any other address is no channel.
unfoldable pub on_lane : Switch → Wc → List Lane → Shared → Outcome (List Lane × Shared)
on_lane switch wc [] s = fault undefined
on_lane switch wc (x ∷ xs) s = elim (wc.wr_id == x.channel.this) [
  | true ↦ switch wc (x, s) >>= λ r. ok (r.0 ∷ xs, r.1)
  | false ↦ on_lane switch wc xs s >>= λ r. ok (x ∷ r.0, r.1)
]

module _ (v : Verbs) where
  -- The loop that posts the receives of a lane.
  unfoldable pub post_receives : ℕ → Site → Outcome Site
  post_receives zero s = ok s
  post_receives (suc left) s = do
    (b, x) ← next_recv s.0
    s' ← request (recv_remote v (some b) block_size) (x, s.1)
    post_receives left s'

  -- The buffers of the channel at an index: both are allocated and registered, in that order. They lie at
  -- `p` and `q`, with the memory that posix_memalign gives.
  unfoldable pub prepare :
      (String → ℕ → String)
      → Option ℕ
      → Option ℕ
      → ℕ
      → ℕ
      → CommDescriptor
      → ℕ
      → Channel
      → Shared
      → Outcome Site
  prepare names memory_send memory_recv p q unset index c s = do
    (b₁, m₁) ← allocate_buffer (names send_name) memory_send block_size num_block send_name s.memory
    h₁ ←
        register_buffer v p
          (record { channel = c; buffers = store p (some b₁) (λ _. none); world = s.world })
    (b₂, m₂) ← allocate_buffer (names recv_name) memory_recv block_size num_block recv_name m₁
    h₂ ← register_buffer v q (record h₁ { buffers = store q (some b₂) h₁.buffers })
    send ← or_undefined (h₂.buffers p)
    recv ← or_undefined (h₂.buffers q)
    ok (
      record {
        channel = record (h₂.channel.adapter) { indexed_by_session = pos index };
        tensor_send = send;
        tensor_recv = recv;
        peer_comm = unset;
      },
      record { memory = m₂; world = h₂.world },
    )

  -- The loop over the completions of one poll of `each_channel`.
  unfoldable pub process_batch :
      Switch → Adapter → List Wc → List Lane → Shared → Outcome (List Lane × Shared)
  process_batch switch each_channel [] xs s = ok (xs, s)
  process_batch switch each_channel (wc ∷ wcs) xs s = elim wc.success [
    | true ↦ on_lane switch wc xs s >>= λ r. process_batch switch each_channel wcs r.0 r.1
    | false ↦ show_qp_info v each_channel s.world >>= λ w. fault log_fatal
  ]

  -- The loop over the channels, and the endless loop round it, for as many rounds as there is fuel.
  unfoldable pub process_channels :
      Switch → List Adapter → List Lane → Shared → Outcome (List Lane × Shared)
  process_channels switch [] xs s = ok (xs, s)
  process_channels switch (each_channel ∷ channels) xs s = do
    (polled, t) ← poll_cq_batch v 128 each_channel s.world.trace
    let s' : Shared = record s { world = record (s.world) { trace = t } }
    let batch : Outcome (List Lane × Shared) = elim polled [
      | none ↦ ok (xs, s')
      | some wcs ↦ process_batch switch each_channel wcs xs s'
    ]
    r ← batch
    process_channels switch channels r.0 r.1

  unfoldable pub process_rounds :
      ℕ → Switch → List Adapter → List Lane → Shared → Outcome (List Lane × Shared)
  process_rounds zero switch channels xs s = fault no_fuel
  process_rounds (suc fuel) switch channels xs s =
      process_channels switch channels xs s >>= λ r. process_rounds fuel switch channels r.0 r.1
