-- ===== src/Tcp/Sync.antt =====
-- The exchange of data with the peer, and what a closed connection does.
use rdma_comm_core.Prelude.{
  ℕ, zero, suc, ◌+◌, ◌-◌, ◌<◌, ◌≡◌, refl, true, some, [], ◌∷◌, ltb, arith, ok, fault, no_fuel,
}
use rdma_comm_core.Prelude.Int.{pos}
use rdma_comm_core.Tcp.{
  Net, Wire, load, arrive, get_or_build_socket, send_data, recv_loop, recv_data, force_loop,
  recv_data_force, sock_sync_data,
}
use rdma_comm_core.Tcp.Receive.{
  IsStream, Received, Received-cast, force_loop-Received, recv_loop-Received,
}

-- recv() on a connection that the peer has closed: nothing more comes, and it is no error.
abbrev pub IsClosed : Net → Type 0
IsClosed net = (i k n : ℕ) → net.recv i k n ≡ some []

module _ (net : Net) (closed : IsClosed net) (p total size : ℕ) (lt : total < size) where
  force_spins : (fuel : ℕ) (w : Wire) → force_loop net fuel total size p w ≡ fault no_fuel
  unfolding force_loop
  force_spins zero w = refl
  force_spins (suc fuel) w =
      let t : ltb total size ≡ true = ground arith in
      rw (force_loop, t, closed w.reads w.taken (size - total))
        (force_spins fuel (arrive (p + total) [] w))

  recv_spins : (fuel : ℕ) (w : Wire) → recv_loop net fuel 0 total size p w ≡ fault no_fuel
  unfolding recv_loop
  recv_spins zero w = refl
  recv_spins (suc fuel) w =
      let t : ltb total size ≡ true = ground arith in
      rw (recv_loop, t, closed w.reads w.taken (size - total))
        (recv_spins fuel (arrive (p + total) [] w))

-- A connector whose socket stands.
abbrev pub HasSocket : Wire → Type 0
HasSocket w = (fd : ℕ) × (w.connector.root_sock ≡ pos (suc fd))

get_or_build_socket_lem :
    (net : Net) (w : Wire) → HasSocket w → get_or_build_socket net w.connector ≡ ok w.connector
unfolding get_or_build_socket
get_or_build_socket_lem net w (fd, e) = ground arith

module _ (net : Net) (closed : IsClosed net) (fuel size p : ℕ) (w : Wire) where
  -- On a connection that the peer has closed neither receiving function ends, when it is to receive
  -- anything: whatever number of rounds they are given, they use it up.
  pub recv_data_spins :
      HasSocket w
      → 0 < size
      → (recv_data net fuel size p w ≡ fault no_fuel)
        × (recv_data_force net fuel size p w ≡ fault no_fuel)
  unfolding recv_data recv_data_force
  recv_data_spins sock h =
      let c = get_or_build_socket_lem net w sock in
      (
        rw c (recv_spins net closed p 0 size h fuel w),
        rw c (force_spins net closed p 0 size h fuel w),
      )

module _ (net : Net) (s : ℕ → ℕ) (stream : IsStream net s) (fuel size : ℕ) (w : Wire) where
  -- recv_data on an open connection receives the bytes asked for, in order, and returns 0.
  pub recv_data-Received :
      (p : ℕ)
      → HasSocket w
      → size < fuel
      → (w' : Wire) × (recv_data net fuel size p w ≡ ok (0, w')) × Received s p size w w'
  unfolding recv_data
  recv_data-Received p sock f =
      let c = get_or_build_socket_lem net w sock in
      let (w', e, r) =
        recv_loop-Received net s stream p fuel 0 size w (omega arith) (omega arith) in
      (w', rw c e, Received-cast s w w' (omega arith) (omega arith) r)

  -- An exchange in which the kernel takes all bytes returns 0, with the local data sent and the next bytes
  -- of the peer's stream at the place for the remote data.
  pub sock_sync_data-Received :
      (local_data remote_data : ℕ)
      → HasSocket w
      → size < fuel
      → net.send w.sent (load local_data size w.memory) ≡ pos size
      → (w' : Wire) × (sock_sync_data net fuel size local_data remote_data w ≡ ok (pos 0, w'))
        × Received s remote_data size
            (record w { sent = load local_data size w.memory ∷ w.sent })
            w'
  unfolding sock_sync_data send_data recv_data_force
  sock_sync_data-Received local_data remote_data sock f sends =
      let c = get_or_build_socket_lem net w sock in
      let (w', e, r) =
        force_loop-Received net s stream remote_data fuel 0 size
          (record w { sent = load local_data size w.memory ∷ w.sent }) (omega arith)
          (omega arith) in
      (
        w',
        ground (arith, c, e),
        Received-cast s (record w { sent = load local_data size w.memory ∷ w.sent }) w'
            (omega arith) (omega arith) r,
      )
