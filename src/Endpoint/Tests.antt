-- ===== src/Endpoint/Tests.antt =====
-- The theorem on endpoints at a concrete input.
use rdma_comm_core.Prelude.{
  ℕ, zero, suc, ◌+◌, ◌<◌, ◌≡◌, refl, true, some, find, get_elem?, List, [], ◌∷◌, length, arith, ok,
}
use rdma_comm_core.Prelude.Int.{pos}
use rdma_comm_core.Samples.{verbs, world, ready, peer, memory, no_info}
use rdma_comm_core.Adapter.{Adapter, AdapterInfo}
use rdma_comm_core.Adapter.Loading.{loading}
use rdma_comm_core.Adapter.Connect.Moves.{IsConnectable}
use rdma_comm_core.Channel.{Channel}
use rdma_comm_core.Tcp.{Net}
use rdma_comm_core.Tcp.Receive.{IsStream}
use rdma_comm_core.Endpoint.{Layout, Frame, Site, connect_channel}
use rdma_comm_core.Endpoint.Exchange.{Stand, Connected, connect_channel-Connected}

-- The numbers of an AdapterInfo, one in each place; the name is the peer's.
abbrev five : List ℕ → AdapterInfo
five (g ∷ q ∷ l ∷ k ∷ m ∷ xs) = record {
  gid = g;
  qp_num = q;
  lid = l;
  link_layer = k;
  active_mtu = m;
  unique_id = "you";
}
five xs = no_info

abbrev layout : Layout
layout = record {
  size = 5;
  encode = λ i. i.gid ∷ i.qp_num ∷ i.lid ∷ i.link_layer ∷ i.active_mtu ∷ [];
  decode = five;
}

-- The stream of the peer: its numbers, then zeros.
abbrev stream : ℕ → ℕ
stream zero = 5
stream (suc zero) = 142
stream (suc (suc zero)) = 8
stream (suc (suc (suc zero))) = 2
stream (suc (suc (suc (suc zero)))) = 3
stream (suc (suc (suc (suc (suc k))))) = 0

abbrev net : Net
net = record {
  create = pos 3;
  send = λ before bytes. pos (length bytes);
  recv = λ i k n. some (stream k ∷ []);
}

net-IsStream : IsStream net stream
net-IsStream i k n h = (
  stream k ∷ [],
  refl,
  record { some_bytes = omega arith; bounded = omega arith; next_bytes = go },
)
  where
    go : (j : ℕ) → j < 1 → get_elem? (stream k ∷ []) j ≡ some (stream (k + j))
    go zero h = let e : k + 0 ≡ k = omega arith in rw e refl
    go (suc j) h = absurd (omega arith)

abbrev frame : Frame
frame = record { adapt_info = 100; peer_info = 200; literal = 300; temp_char = 400 }

abbrev site : Site
site = record {
  wire = record {
    connector = record {
      root_sock = pos 5;
      peer_ip = "b";
      peer_port = pos 1;
      my_ip = "a";
      my_port = pos 2;
    };
    sent = [];
    reads = 0;
    taken = 0;
    memory = memory;
  };
  world = world;
}

-- An adapter that has been loaded.
abbrev loaded : Adapter
loaded = record ready {
  resource_is_allocated = true;
  self = record (ready.self) { unique_id = "you" };
}

abbrev channel : Channel
channel = record { adapter = loaded; owning_buffers = []; peer_buffer_mgr = [] }

peer-Stand : Stand (layout.encode peer) stream 0
peer-Stand zero h = refl
peer-Stand (suc zero) h = refl
peer-Stand (suc (suc zero)) h = refl
peer-Stand (suc (suc (suc zero))) h = refl
peer-Stand (suc (suc (suc (suc zero)))) h = refl
peer-Stand (suc (suc (suc (suc (suc j))))) h = absurd (omega arith)

loaded-IsConnectable : IsConnectable verbs peer loaded world
unfolding find
loaded-IsConnectable = record {
  named = refl;
  has_layer = omega arith;
  has_qp = omega arith;
  device = _;
  key = "mlx5_0";
  has_device = (refl, refl);
  same_layer = λ e. refl;
  has_gid = λ e. refl;
}

connect_channel-Connected_example :
    (c' : Channel) × (s' : Site) × (connect_channel verbs net layout frame 9 channel site
      ≡ ok (c', s'))
    × Connected verbs layout peer loaded.self loaded world site s' channel c'
unfolding loading
connect_channel-Connected_example =
    connect_channel-Connected net stream net-IsStream (λ before bytes. refl) frame 9 verbs layout
      peer loaded.self loaded world channel site (record { sized = refl; readable = refl })
      (record { sized = refl; readable = refl }) (4, refl) (omega arith) (omega arith) refl
      peer-Stand loaded-IsConnectable
