-- ===== src/Session/Setup/Endpoints.antt =====
-- The endpoints that a session has after it got its connections.
use mathlib.Core.Path.{subst}
use rdma_comm_core.Prelude.{
  append_nil, append_assoc, ℕ, zero, suc, ◌+◌, ◌^◌, ◌<◌, ◌≡◌, refl, sym, ap, ◌∙◌, String, true,
  List, [], ◌∷◌, ◌++◌, length, length-append, leb, if◌then◌else◌, All, ok,
}
use rdma_comm_core.Prelude.Int.{ℤ, pos}
use rdma_comm_core.Memory.{Memory}
use rdma_comm_core.Tcp.{Net, TcpConnector, Wire}
use rdma_comm_core.Tcp.Receive.{IsStream}
use rdma_comm_core.Endpoint.{Frame}
use rdma_comm_core.Endpoint.Exchange.{TakesAll, sync_with_peer_lem}
use rdma_comm_core.Endpoint.Create.{
  Naming, Endpoint, swap, get_unique_id, new_adapter, build_rdma_channel, new_connector,
  endpoint_id, setup_rdma_channel, create_endpoint, setup_index_in_session,
}
use rdma_comm_core.Session.Setup.{Kernel}
use rdma_comm_core.Session.Setup.Connections.{accepted, init_server_accepts}
use rdma_comm_core.Session.Setup.Accept.{
  Arrival, Endpoints, accept_new_connection, accept_each, serve_session,
}

-- A connection whose peer sends at least a byte and takes what it is sent.
pub record IsOpen (net : Net) : Type 0 where
  pub stream : ℕ → ℕ
  pub reads : IsStream net stream
  pub takes : TakesAll net

-- The endpoint of the connection number `i` over the socket `fd`: it has exchanged one byte with its peer, and it
-- has one channel, with the default configuration and the number as its index.
pub record IsBuilt (n : Naming) (session : String) (new : Arrival) (i : ℕ) (fd : ℤ) (e : Endpoint)
    : Type 0 where
  pub one_channel :
      e.rdma_channel_mgr
      ≡ record (build_rdma_channel n new.place "DataChannel" (endpoint_id n e)) {
        adapter = record (new_adapter n new.place "DataChannel" (endpoint_id n e)) {
          indexed_by_session = pos i;
        };
      }
        ∷ []
  pub socket : e.pre_connector.connector ≡ new_connector n fd new.cin.0 (pos (swap new.cin.1))
  pub session_is : e.registered_session ≡ session
  pub one_byte : (b : List ℕ) × (e.pre_connector.sent ≡ b ∷ []) × (e.pre_connector.taken ≡ 1)

-- The endpoints `es` of the sockets `fds`, from number `i` on.
abbrev pub AllBuilt : Naming → String → (ℕ → Arrival) → ℕ → List ℤ → List Endpoint → Type 0
AllBuilt n session arrivals i [] [] = Unit
AllBuilt n session arrivals i [] (e ∷ es) = ⊥
AllBuilt n session arrivals i (fd ∷ fds) [] = ⊥
AllBuilt n session arrivals i (fd ∷ fds) (e ∷ es) =
    IsBuilt n session (arrivals i) i fd e × AllBuilt n session arrivals (i + 1) fds es

abbrev pub IsSocket : ℤ → Type 0
IsSocket fd = (k : ℕ) × (fd ≡ pos (suc k))

module _ (n : Naming) (frame : Frame) (fuel : ℕ) (session : String) (arrivals : ℕ → Arrival)
    (open_ : (i : ℕ) → IsOpen (arrivals i).net) (enough : 1 < fuel) where
  accept_new_connection-IsBuilt :
      (fd : ℤ) (s : Endpoints)
      → IsSocket fd
      → (e : Endpoint) × (m : Memory) × (accept_new_connection n frame fuel session arrivals fd s
          ≡ ok (record { end_point_mgr = s.end_point_mgr ++ e ∷ []; memory = m }))
        × IsBuilt n session (arrivals (length s.end_point_mgr)) (length s.end_point_mgr) fd e
  unfolding accept_new_connection create_endpoint setup_index_in_session setup_rdma_channel
  accept_new_connection-IsBuilt fd s (k, sock) =
      let i = length s.end_point_mgr in
      let new = arrivals i in
      let c : TcpConnector = new_connector n fd new.cin.0 (pos (swap new.cin.1)) in
      let w : Wire = record { connector = c; sent = []; reads = 0; taken = 0; memory = s.memory } in
      let (w', e, sent, taken, kept) =
        sync_with_peer_lem new.net (open_ i).stream (open_ i).reads (open_ i).takes frame fuel w
          (k, unfold new_connector in sock) enough in
      let new_endpoint : Endpoint = record {
        id = get_unique_id n c;
        pre_connector = w';
        rdma_channel_mgr = [];
        registered_session = session;
      } in
      (
        record new_endpoint {
          rdma_channel_mgr =
              record (build_rdma_channel n new.place "DataChannel" (endpoint_id n new_endpoint)) {
                adapter =
                    record (new_adapter n new.place "DataChannel" (endpoint_id n new_endpoint)) {
                      indexed_by_session = pos i;
                    };
              }
              ∷ [];
        },
        w'.memory,
        rw e (unfold build_rdma_channel in refl),
        record {
          one_channel = unfold endpoint_id in refl;
          socket = kept;
          session_is = refl;
          one_byte = (_, sent, taken);
        },
      )

  -- Each socket gets its endpoint, in order, after those that are there.
  accept_each-AllBuilt :
      (fds : List ℤ) (s : Endpoints)
      → All IsSocket fds
      → (es : List Endpoint) × (m : Memory) × (accept_each n frame fuel session arrivals fds s
          ≡ ok (record { end_point_mgr = s.end_point_mgr ++ es; memory = m }))
        × AllBuilt n session arrivals (length s.end_point_mgr) fds es
  unfolding accept_each
  accept_each-AllBuilt [] s h =
      ([], s.memory, ap (λ es. ok (record s { end_point_mgr = es })) (sym (append_nil _)), tt)
  accept_each-AllBuilt (fd ∷ fds) s h =
      let (e, m, did, built) = accept_new_connection-IsBuilt fd s h.0 in
      let s₁ : Endpoints = record { end_point_mgr = s.end_point_mgr ++ e ∷ []; memory = m } in
      let (es, m', rest, all) = accept_each-AllBuilt fds s₁ h.1 in
      let next : length s₁.end_point_mgr ≡ length s.end_point_mgr + 1 =
        length-append s.end_point_mgr (e ∷ []) in
      (
        e ∷ es,
        m',
        rw did (
            rest
            ∙ ap (λ es'. ok (record { end_point_mgr = es'; memory = m' }))
                (append_assoc s.end_point_mgr (e ∷ []) es)),
        (built, subst (λ i. AllBuilt n session arrivals i fds es) next all),
      )

  -- The sockets that the kernel's calls of accept give.
  accepted-IsSocket :
      (k : Kernel)
      → ((i : ℕ) → IsSocket (k.accept i))
      → (i count : ℕ) → All IsSocket (accepted k i count)
  accepted-IsSocket k good i zero = tt
  accepted-IsSocket k good i (suc count) = (good i, accepted-IsSocket k good (i + 1) count)

  -- A server that gets its socket, and all of whose connections are open, has one endpoint for every member of its
  -- cluster, and one where the cluster is empty, in the order of the connections: each has exchanged a byte with
  -- its peer, and its only channel has the default configuration and the number of the connection as its index.
  pub serve_session-AllBuilt :
      (k : Kernel) (cluster rounds fd : ℕ) (m : Memory)
      → ((i : ℕ) → IsSocket (k.accept i))
      → cluster < 2 ^ 32
      → k.socket ≡ pos (suc fd)
      → k.bind ≡ pos 0
      → k.listen ≡ pos 0
      → cluster < rounds
      → 0 < rounds
      → (es : List Endpoint) × (m' : Memory) × (serve_session n frame fuel session arrivals rounds k
            cluster
            (record { end_point_mgr = []; memory = m })
          ≡ ok (record { end_point_mgr = es; memory = m' }, true))
        × AllBuilt n session arrivals 0 (accepted k 0 (if leb cluster 1 then 1 else cluster)) es
  unfolding serve_session
  serve_session-AllBuilt k cluster rounds fd m good small s b l f g =
      let fds = accepted k 0 (if leb cluster 1 then 1 else cluster) in
      let server =
        init_server_accepts k (λ i. (suc (good i).0, (good i).1)) cluster small rounds fd s b l f
          g in
      let (es, m', did, all) =
        accept_each-AllBuilt fds (record { end_point_mgr = []; memory = m })
          (accepted-IsSocket k good 0 (if leb cluster 1 then 1 else cluster)) in
      (es, m', rw (server, did) refl, all)
