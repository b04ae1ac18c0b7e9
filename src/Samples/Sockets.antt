-- ===== src/Samples/Sockets.antt =====
-- A socket whose peer sends 7, 8, 9, ... .
use rdma_comm_core.Prelude.{
  ℕ, zero, suc, ◌+◌, ◌<◌, ◌≡◌, refl, some, [], ◌∷◌, get_elem?, length, arith,
}
use rdma_comm_core.Prelude.Int.{pos}
use rdma_comm_core.Samples.{memory}
use rdma_comm_core.Tcp.{Net, Wire}
use rdma_comm_core.Tcp.Receive.{IsStream}

-- A kernel that sends what it is given, and gives the bytes 7, 8, 9, ... one at a time.
abbrev pub net : Net
net = record {
  create = pos 3;
  send = λ before bytes. pos (length bytes);
  recv = λ i k n. some ((7 + k) ∷ []);
}

abbrev pub stream : ℕ → ℕ
stream k = 7 + k

pub net-IsStream : IsStream net stream
net-IsStream i k n h = (
  (7 + k) ∷ [],
  refl,
  record { some_bytes = omega arith; bounded = omega arith; next_bytes = go },
)
  where
    go : (j : ℕ) → j < 1 → get_elem? ((7 + k) ∷ []) j ≡ some (7 + (k + j))
    go zero h = ground arith
    go (suc j) h = absurd (omega arith)

abbrev pub wire : Wire
wire = record {
  connector = record {
    root_sock = pos 5;
    peer_ip = "b";
    peer_port = pos 1;
    my_ip = "a";
    my_port = pos 2;
  };
  sent = [];
  reads = 0;
  taken = 0;
  memory = memory;
}
