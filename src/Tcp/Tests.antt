-- ===== src/Tcp/Tests.antt =====
-- The theorems on the socket at concrete inputs.
use rdma_comm_core.Prelude.{◌≡◌, refl, some, [], ◌∷◌, arith, ok, fault, no_fuel}
use rdma_comm_core.Prelude.Int.{pos}
use rdma_comm_core.Samples.Sockets.{net, stream, net-IsStream, wire}
use rdma_comm_core.Tcp.{Net, Wire, load, recv_data, recv_data_force, sock_sync_data}
use rdma_comm_core.Tcp.Receive.{Received}
use rdma_comm_core.Tcp.Sync.{recv_data_spins, sock_sync_data-Received}

abbrev closed : Net
closed = record net { recv = λ i k n. some [] }

recv_data_spins_example :
    (recv_data closed 1000 4 100 wire ≡ fault no_fuel)
    × (recv_data_force closed 1000 4 100 wire ≡ fault no_fuel)
recv_data_spins_example =
    recv_data_spins closed (λ i k n. refl) 1000 4 100 wire (4, refl) (omega arith)

sock_sync_data-Received_example :
    (w' : Wire) × (sock_sync_data net 9 2 50 100 wire ≡ ok (pos 0, w'))
    × Received stream 100 2 (record wire { sent = (51 ∷ 52 ∷ []) ∷ [] }) w'
unfolding load
sock_sync_data-Received_example =
    sock_sync_data-Received net stream net-IsStream 9 2 wire 50 100 (4, refl) (omega arith) refl
