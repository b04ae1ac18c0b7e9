-- ===== src/Session/Defaults.antt =====
-- The default callbacks of src/rdma_session.cc, which run a test of the connection: the two sides exchange
-- the descriptors of a buffer, and then write and read it over and over. The objects that a callback keeps on
-- its stack lie at `scratch`, one at a time. The texts that are only logged are not modelled.
pub mod Calls
pub mod Receives
pub mod Established
pub mod Found
pub mod First
pub mod Ready
mod Tests
use Prim.Native.String.{◌++◌ as join}
use rdma_comm_core.Prelude.{
  ℕ, ◌+◌, ◌^◌, String, Bool, true, false, not, ◌&&◌, Option, none, some, List, [], ◌∷◌, ◌==◌,
  if◌then◌else◌, length, Outcome, ok, fault, undefined, ◌>>=◌, ◌>>◌, check, or_undefined,
}
use rdma_comm_core.Memory.{Memory}
use rdma_comm_core.Verbs.{Verbs, Trace, Wc}
use rdma_comm_core.Buffer.{Block, Buffer, clear, fill_in}
use rdma_comm_core.Device.Post.{key_of}
use rdma_comm_core.Adapter.{Adapter, CommDescriptor, get_id}
use rdma_comm_core.Adapter.Transfer.{send_remote, recv_remote, read_remote, write_remote}
use rdma_comm_core.Channel.{Channel, Host, find_buffer, insert_peer_buffer, find_peer_buffer}
use rdma_comm_core.Tcp.{put, load}

-- MessageType, as the uint32_t that goes over the wire.
abbrev pub unset : ℕ
unset = 0

abbrev pub test_for_sync_data : ℕ
test_for_sync_data = 3

abbrev pub request_exchange_key : ℕ
request_exchange_key = 2 ^ 31 + 1

abbrev pub response_exchange_key : ℕ
response_exchange_key = 2 ^ 31 + 2

-- The representation that the compiler gives texts and descriptors, and where it puts temporary objects.
pub record Runtime : Type 0 where
  pub scratch : ℕ
  pub bytes : String → List ℕ
  pub encode : CommDescriptor → List ℕ
  pub decode : List ℕ → CommDescriptor

pub record Scene : Type 0 where
  pub host : Host
  pub memory : Memory

-- sizeof(CommDescriptor)
abbrev pub descriptor_size : ℕ
descriptor_size = 24

-- The channel that a completion's wr_id points to; any other address is none.
abbrev pub active : Wc → Scene → Outcome Channel
active wc s = if wc.wr_id == s.host.channel.this then ok s.host.channel else fault undefined

-- active_channel->find_buffer(name + "@" + active_channel->get_id())
abbrev pub query : String → Channel → Option ℕ
query name c = find_buffer (join name (get_id c.adapter)) c

abbrev pub present : Option ℕ → Bool
present none = false
present (some p) = true

-- The object behind a pointer that may be nullptr.
abbrev pub deref : Option ℕ → Scene → Outcome Block
deref none s = fault undefined
deref (some p) s = or_undefined (s.host.buffers p) >>= λ b. ok b.head

-- The scene after a request was posted.
abbrev pub posted : Adapter × Trace → Scene → Scene
posted r s = record s {
  host = record (s.host) {
    channel = record (s.host.channel) { adapter = r.0 };
    world = record (s.host.world) { trace = r.1 };
  };
}

-- buffer->fill_in of the bytes of a temporary object
abbrev pub fill : Runtime → Block → List ℕ → Scene → Outcome Scene
fill rt b xs s = fill_in b rt.scratch (length xs) (put rt.scratch xs s.memory) >>= λ m.
    ok (record s { memory = m })

-- It reads the channel for its text, and changes nothing.
unfoldable pub default_process_send_done : Wc → Scene → Outcome Scene
default_process_send_done wc s = active wc s >>= λ c. ok s

module _ (v : Verbs) where
  abbrev pub call_recv : Block → ℕ → Scene → Outcome Scene
  call_recv b n s =
      recv_remote v (some b) n s.host.channel.adapter s.host.world.trace >>= λ r. ok (posted r s)

  abbrev pub call_send : Block → ℕ → ℕ → Scene → Outcome Scene
  call_send b n tag s =
      send_remote v (some b) n tag s.host.channel.adapter s.host.world.trace >>= λ r.
      ok (posted r s)

  abbrev pub call_read : Block → ℕ → CommDescriptor → Scene → Outcome Scene
  call_read b n d s =
      read_remote v (some b) n (some d) s.host.channel.adapter s.host.world.trace >>= λ r.
      ok (posted r s)

  abbrev pub call_write : Block → ℕ → CommDescriptor → ℕ → Bool → Scene → Outcome Scene
  call_write b n d tag notify s =
      write_remote v (some b) n (some d) tag notify s.host.channel.adapter s.host.world.trace
      >>= λ r. ok (posted r s)

  module _ (rt : Runtime) where
    -- "Greetings from " + info() + " for 'RDMA connection test'"
    abbrev greeting : Channel → String
    greeting c =
        join "Greetings from "
          (join "RDMAChannel@" (join (get_id c.adapter) " for 'RDMA connection test'"))

    abbrev test_text : Channel → String
    test_text c = join "[RDMA write/read test]: " (greeting c)

    -- A request for the keys: the sender's descriptor is in the buffer. The member fd_ of the copy is not set.
    unfoldable pub on_request : Channel → Block → Block → Option ℕ → Scene → Outcome Scene
    on_request c recv send write s = do
      let peer = record (rt.decode (load recv.data_ptr descriptor_size s.memory)) { fd = 0 }
      let s₁ : Scene = record s {
        host = record (s.host) {
          channel = (insert_peer_buffer "rw_sink_buffer_for_test" peer c).1;
        };
      }
      s₂ ← call_recv recv recv.buffer_size s₁
      s₃ ← call_send send (length (rt.bytes (greeting c))) response_exchange_key s₂
      w ← deref write s₃
      s₄ ← fill rt w (rt.bytes (test_text c)) s₃
      call_write w (length (rt.bytes (test_text c))) peer response_exchange_key true s₄

    -- The first message: the answer is the descriptor of the own buffer.
    unfoldable pub on_sync : Channel → Block → Block → Scene → Outcome Scene
    on_sync c recv send s = do
      s₁ ← call_recv recv recv.buffer_size s
      sink ← deref (query "read_write_sink_buffer_for_test@" c) s₁
      rkey ← key_of v.rkey sink.mr
      let own : CommDescriptor = record {
        buffer_addr = sink.data_ptr;
        buffer_length = sink.buffer_size;
        rkey = rkey;
        fd = 0;
      }
      s₂ ← fill rt send (rt.encode own) s₁
      call_send send descriptor_size request_exchange_key s₂

    unfoldable pub on_other : Channel → Block → Block → Scene → Outcome Scene
    on_other c recv send s = do
      s₁ ← call_recv recv recv.buffer_size s
      s₂ ← fill rt send (rt.bytes (greeting c)) s₁
      call_send send (length (rt.bytes (greeting c))) unset s₂

    unfoldable pub default_process_recv_done : Wc → Scene → Outcome Scene
    default_process_recv_done wc s = do
      c ← active wc s
      check (present (query "recv_buffer_for_test@" c) && present (query "send_buffer_for_test@" c))
      recv ← deref (query "recv_buffer_for_test@" c) s
      send ← deref (query "send_buffer_for_test@" c) s
      check wc.with_imm
      elim (wc.imm_data == request_exchange_key) [
        | true ↦ on_request c recv send (query "write_buffer_for_test@" c) s
        | false ↦ elim (wc.imm_data == test_for_sync_data) [
          | true ↦ on_sync c recv send s
          | false ↦ on_other c recv send s
        ]
      ]

    unfoldable pub default_process_write_done : Wc → Scene → Outcome Scene
    default_process_write_done wc s = do
      c ← active wc s
      check (elim (find_peer_buffer "rw_sink_buffer_for_test" c) [ none ↦ false | some d ↦ true ])
      peer ← or_undefined (find_peer_buffer "rw_sink_buffer_for_test" c)
      check (present (query "recv_buffer_for_test@" c) && present (query "read_buffer_for_test@" c))
      read ← deref (query "read_buffer_for_test@" c) s
      let s₁ : Scene = record s { memory = clear read s.memory }
      call_read read read.buffer_size peer s₁

    unfoldable pub default_process_read_done : Wc → Scene → Outcome Scene
    default_process_read_done wc s = do
      c ← active wc s
      check
          (present (query "write_buffer_for_test@" c) && present (query "read_buffer_for_test@" c))
      write ← deref (query "write_buffer_for_test@" c) s
      check (elim (find_peer_buffer "rw_sink_buffer_for_test" c) [ none ↦ false | some d ↦ true ])
      peer ← or_undefined (find_peer_buffer "rw_sink_buffer_for_test" c)
      s₁ ← fill rt write (rt.bytes (test_text c)) s
      call_write write (length (rt.bytes (test_text c))) peer unset false s₁

    unfoldable pub default_process_recv_write_with_imm_done : Wc → Scene → Outcome Scene
    default_process_recv_write_with_imm_done wc s = do
      c ← active wc s
      check (present (query "recv_buffer_for_test@" c))
      recv ← deref (query "recv_buffer_for_test@" c) s
      check wc.with_imm
      call_recv recv recv.buffer_size s
