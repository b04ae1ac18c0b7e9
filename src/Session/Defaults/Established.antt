-- ===== src/Session/Defaults/Established.antt =====
-- default_established_fn of src/rdma_session.cc: the buffers of a channel for the test, and its first requests.
-- `Supply` stands for what the process gets for the channel: the places of the five buffer objects, what
-- posix_memalign gives for each, and the names of their sub-buffers.
use Prim.Native.String.{◌++◌ as join}
use rdma_comm_core.Prelude.{ℕ, ◌+◌, String, Option, some, List, [], ◌∷◌, length, Outcome, ok, ◌>>=◌}
use rdma_comm_core.Memory.{Memory}
use rdma_comm_core.Verbs.{Verbs}
use rdma_comm_core.Buffer.{Buffer, allocate_buffer, clear}
use rdma_comm_core.Adapter.{get_id}
use rdma_comm_core.Channel.{Channel, Host, store, register_buffer}
use rdma_comm_core.Tcp.{Net, Wire}
use rdma_comm_core.Endpoint.{Frame, sync_with_peer}
use rdma_comm_core.Session.Defaults.{
  Runtime, Scene, deref, fill, call_recv, call_send, test_for_sync_data,
}

pub record Supply : Type 0 where
  pub place : ℕ → ℕ
  pub memory : ℕ → Option ℕ
  pub sub_names : String → ℕ → String

-- The names and the block sizes of the five buffers, in the order of their allocation.
abbrev pub test_buffers : Channel → List (String × ℕ)
test_buffers c =
    (join "recv_buffer_for_test@" (get_id c.adapter), 256)
    ∷ (join "send_buffer_for_test@" (get_id c.adapter), 256)
    ∷ (join "read_buffer_for_test@" (get_id c.adapter), 1000)
    ∷ (join "write_buffer_for_test@" (get_id c.adapter), 1000)
    ∷ (join "read_write_sink_buffer_for_test@" (get_id c.adapter), 1000)
    ∷ []

abbrev Heap : Type 0
Heap = ℕ → Option Buffer

-- base_to_send_data
abbrev pub first_text : Channel → String
first_text c =
    join "Greetings from "
      (join "RDMAChannel@" (join (get_id c.adapter) " for 'RDMA connection test', count: "))

module _ (supply : Supply) where
  -- The allocations, from the buffer number `i` on: each of 10 blocks.
  unfoldable pub allocate_each : ℕ → List (String × ℕ) → Heap → Memory → Outcome (Heap × Memory)
  allocate_each i [] heap m = ok (heap, m)
  allocate_each i ((name, size) ∷ rest) heap m = do
    (b, m') ← allocate_buffer (supply.sub_names name) (supply.memory i) size 10 name m
    allocate_each (i + 1) rest (store (supply.place i) (some b) heap) m'

  unfoldable pub register_each : Verbs → ℕ → List (String × ℕ) → Host → Outcome Host
  register_each v i [] h = ok h
  register_each v i (x ∷ rest) h =
      register_buffer v (supply.place i) h >>= register_each v (i + 1) rest

  -- The first requests: the receives, the exchange of a byte over the socket, and the first message.
  unfoldable pub first_requests :
      Verbs → Runtime → Net → Frame → ℕ → Wire → Scene → Outcome (Scene × Wire)
  first_requests v rt net frame fuel wire s = do
    recv ← deref (some (supply.place 0)) s
    send ← deref (some (supply.place 1)) s
    let s₁ : Scene = record s { memory = clear recv s.memory }
    s₂ ← call_recv v recv recv.buffer_size s₁
    s₃ ← call_recv v recv recv.buffer_size s₂
    w ← sync_with_peer net frame fuel (record wire { memory = s₃.memory })
    let text = rt.bytes (first_text s.host.channel)
    s₄ ← fill rt send text (record s₃ { memory = w.memory })
    s₅ ← call_send v send (length text) test_for_sync_data s₄
    ok (s₅, w)

  -- The body of the loop over the channels; `wire` is the socket of the channel's endpoint.
  unfoldable pub establish :
      Verbs → Runtime → Net → Frame → ℕ → Wire → Scene → Outcome (Scene × Wire)
  establish v rt net frame fuel wire s = do
    (heap, m) ← allocate_each 0 (test_buffers s.host.channel) s.host.buffers s.memory
    h ← register_each v 0 (test_buffers s.host.channel) (record (s.host) { buffers = heap })
    first_requests v rt net frame fuel wire (record { host = h; memory = m })
