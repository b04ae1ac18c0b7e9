-- ===== src/Session/Setup/Connections.antt =====
-- How many connections the loops wait for.
use rdma_comm_core.Prelude.{
  ℕ, zero, suc, ◌+◌, ◌-◌, ◌^◌, ◌≤◌, ◌<◌, ◌≡◌, refl, ap, true, false, List, [], ◌∷◌, leb, arith,
  if◌then◌else◌, ok,
}
use rdma_comm_core.Prelude.Int.{ℤ, pos, negsuc}
use rdma_comm_core.Session.Setup.{
  Kernel, allocate_socket, accept_loop, init_server, connect_loop, init_client,
}

-- The sockets of `n` calls of accept, from the one numbered `i`.
abbrev pub accepted : Kernel → ℕ → ℕ → List ℤ
accepted k i zero = []
accepted k i (suc n) = k.accept i ∷ accepted k (i + 1) n

abbrev pub Accepts : Kernel → Type 0
Accepts k = (i : ℕ) → (fd : ℕ) × (k.accept i ≡ pos fd)

module _ (k : Kernel) (good : Accepts k) (cluster : ℕ) (small : cluster < 2 ^ 32) where
  accept_loop_lem :
      (left fuel i connected : ℕ)
      → connected + suc left ≡ (if leb cluster 1 then 1 else cluster)
      → left < fuel
      → accept_loop fuel k cluster i connected ≡ ok (accepted k i (suc left))
  unfolding accept_loop
  accept_loop_lem left zero i connected e f = absurd (omega arith)
  accept_loop_lem zero (suc fuel) i connected e f = ground (arith, good i)
  accept_loop_lem (suc left) (suc fuel) i connected e f =
      ground (
        arith,
        good i,
        accept_loop_lem left fuel (i + 1) (connected + 1) (omega arith) (omega arith),
      )

  -- A server that gets its socket accepts one connection for every member of its cluster, and one where
  -- the cluster is empty; it hands each on in order and is connected.
  pub init_server_accepts :
      (fuel fd : ℕ)
      → k.socket ≡ pos (suc fd)
      → k.bind ≡ pos 0
      → k.listen ≡ pos 0
      → cluster < fuel
      → 0 < fuel
      → init_server fuel k cluster ≡ ok (accepted k 0 (if leb cluster 1 then 1 else cluster), true)
  unfolding init_server allocate_socket
  init_server_accepts fuel fd s b l f g =
      let e : suc (if leb cluster 1 then 0 else cluster - 1)
          ≡ (if leb cluster 1 then 1 else cluster) =
        ground arith in
      ground (
        arith,
        ap (accepted k 0) e,
        accept_loop_lem (if leb cluster 1 then 0 else cluster - 1) fuel 0 0 (ground arith)
            (ground arith),
      )

module _ (k : Kernel) where
  connect_loop_fails :
      (i left : ℕ)
      → ((j : ℕ) → (n : ℕ) × (k.connect j ≡ negsuc n))
      → connect_loop k i left ≡ (i + left + 1, false)
  unfolding connect_loop
  connect_loop_fails i zero h = ground (arith, h i)
  connect_loop_fails i (suc left) h = ground (arith, h i, connect_loop_fails (i + 1) left h)

  -- A client whose attempts to connect all fail makes 3001 of them, and then hands its socket on as a new
  -- connection, though it is not connected.
  pub init_client_unconnected :
      (fd : ℕ)
      → k.socket ≡ pos (suc fd)
      → ((j : ℕ) → (n : ℕ) × (k.connect j ≡ negsuc n))
      → init_client k ≡ ok (pos (suc fd) ∷ [], false, 3001)
  unfolding init_client allocate_socket
  init_client_unconnected fd s h = ground (arith, connect_loop_fails 0 3000 h)

  module _ (m : ℕ) (fails : (j : ℕ) → j < m → (n : ℕ) × (k.connect j ≡ negsuc n))
      (works : k.connect m ≡ pos 0) where
    connect_loop_succeeds :
        (n i left : ℕ) → i + n ≡ m → n ≤ left → connect_loop k i left ≡ (m + 1, true)
    unfolding connect_loop
    connect_loop_succeeds zero i zero e l =
        let i-eq : i ≡ m = omega arith in rw i-eq (rw works refl)
    connect_loop_succeeds zero i (suc left) e l =
        let i-eq : i ≡ m = omega arith in rw i-eq (rw works refl)
    connect_loop_succeeds (suc n) i zero e l = absurd (omega arith)
    connect_loop_succeeds (suc n) i (suc left) e l =
        let (r, f) = fails i (omega arith) in
        rw (connect_loop, f) (connect_loop_succeeds n (i + 1) left (omega arith) (omega arith))

    -- A client that is answered at one of its first 3001 attempts stops there: it is connected, and hands
    -- its socket on.
    pub init_client_connects :
        (fd : ℕ)
        → k.socket ≡ pos (suc fd)
        → m ≤ 3000
        → init_client k ≡ ok (pos (suc fd) ∷ [], true, m + 1)
    unfolding init_client allocate_socket
    init_client_connects fd s h = ground (arith, connect_loop_succeeds m 0 3000 (omega arith) h)
