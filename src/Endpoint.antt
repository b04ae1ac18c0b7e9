-- ===== src/Endpoint.antt =====
-- src/rdma_endpoint.cc: an endpoint has the socket to a peer and the channel to it, and connects the channel by
-- exchanging the adapters' data over the socket. `Layout` stands for the bytes that the compiler lays an
-- AdapterInfo out in, and `Frame` for the addresses of the objects whose bytes are exchanged.
pub mod Create
pub mod Exchange
mod Tests
use rdma_comm_core.Prelude.{
  ℕ, Bool, true, false, not, String, List, [], ◌∷◌, ◌==◌, Outcome, ok, fault, log_fatal, ◌>>=◌,
  ◌>>◌, fatal_if,
}
use rdma_comm_core.Prelude.Int.{ℤ, pos, negsuc}
use rdma_comm_core.Verbs.{Verbs}
use rdma_comm_core.Device.{World}
use rdma_comm_core.Adapter.{Adapter, AdapterInfo}
use rdma_comm_core.Adapter.Loading.{loading}
use rdma_comm_core.Adapter.Connect.{connecting, reset_hca}
use rdma_comm_core.Channel.{Channel}
use rdma_comm_core.Tcp.{Net, Wire, put, load, sock_sync_data}

-- sizeof(AdapterInfo), the bytes of an object, and the object that given bytes make.
pub record Layout : Type 0 where
  pub size : ℕ
  pub encode : AdapterInfo → List ℕ
  pub decode : List ℕ → AdapterInfo

-- The addresses of adapt_info, of peer_info, of the literal "Q" and of temp_char.
pub record Frame : Type 0 where
  pub adapt_info : ℕ
  pub peer_info : ℕ
  pub literal : ℕ
  pub temp_char : ℕ

abbrev is_nonzero : ℤ → Bool
is_nonzero (pos n) = not (n == 0)
is_nonzero (negsuc n) = true

-- What the endpoints of a process share, with the state of this one's socket.
pub record Site : Type 0 where
  pub wire : Wire
  pub world : World

module _ (net : Net) (frame : Frame) where
  unfoldable pub sync_with_peer : ℕ → Wire → Outcome Wire
  sync_with_peer fuel w = do
    (rc, w') ← sock_sync_data net fuel 1 frame.literal frame.temp_char w
    fatal_if (is_nonzero rc)
    ok w'

module _ (v : Verbs) (net : Net) (layout : Layout) (frame : Frame) where
  -- The body of the loop of RDMAEndPoint::connecting. What the exchange of the data returns is ignored.
  unfoldable pub connect_channel : ℕ → Channel → Site → Outcome (Channel × Site)
  connect_channel fuel c s = do
    (info, a, u) ← loading v fuel c.adapter s.world
    let w : Wire = record (s.wire) {
      memory = put frame.adapt_info (layout.encode info) s.wire.memory;
    }
    (_, w') ← sock_sync_data net fuel layout.size frame.adapt_info frame.peer_info w
    let peer = layout.decode (load frame.peer_info layout.size w'.memory)
    (_, a', u') ← connecting v peer a u
    w'' ← sync_with_peer net frame fuel w'
    ok (record c { adapter = a' }, record { wire = w''; world = u' })

  unfoldable pub connect_channels : ℕ → List Channel → Site → Outcome (List Channel × Site)
  connect_channels fuel [] s = ok ([], s)
  connect_channels fuel (c ∷ cs) s = do
    (c', s') ← connect_channel fuel c s
    (cs', s'') ← connect_channels fuel cs s'
    ok (c' ∷ cs', s'')

-- The first loop of RDMAEndPoint::reset; what reset_hca returns is ignored.
unfoldable pub reset_channels : Verbs → List Channel → World → Outcome World
reset_channels v [] u = ok u
reset_channels v (c ∷ cs) u = reset_hca v c.adapter u >>= λ r. reset_channels v cs r.1

module _ (v : Verbs) (net : Net) (layout : Layout) (frame : Frame) where
  unfoldable pub reset : ℕ → List Channel → Site → Outcome (List Channel × Site)
  reset fuel cs s = do
    u ← reset_channels v cs s.world
    connect_channels v net layout frame fuel cs (record s { world = u })
