-- ===== src/Session/Setup/Accept.antt =====
-- accept_new_connection of src/rdma_session.cc: the endpoint of a new connection. The connections of a session
-- are numbered as it makes them; `arrivals` gives the kernel's stream for each, inet_ntoa of the peer's address
-- with its port in network order, and the place of the new channel.
use rdma_comm_core.Prelude.{ℕ, String, Bool, List, [], ◌∷◌, ◌++◌, length, Outcome, ok, ◌>>=◌}
use rdma_comm_core.Prelude.Int.{ℤ, pos}
use rdma_comm_core.Memory.{Memory}
use rdma_comm_core.Tcp.{Net}
use rdma_comm_core.Endpoint.{Frame}
use rdma_comm_core.Endpoint.Create.{Naming, Endpoint, swap, create_endpoint, setup_index_in_session}
use rdma_comm_core.Session.Setup.{Kernel, init_server, init_client}

pub record Arrival : Type 0 where
  pub net : Net
  pub cin : String × ℕ
  pub place : ℕ

-- end_point_mgr_ of a session, with the memory of the process.
pub record Endpoints : Type 0 where
  pub end_point_mgr : List Endpoint
  pub memory : Memory

-- `session` is the get_id() of the session, and `fuel` the rounds of a receiving loop.
module _ (n : Naming) (frame : Frame) (fuel : ℕ) (session : String) (arrivals : ℕ → Arrival) where
  unfoldable pub accept_new_connection : ℤ → Endpoints → Outcome Endpoints
  accept_new_connection sock_fd s = do
    let i = length s.end_point_mgr
    let new = arrivals i
    (e, m) ←
        create_endpoint n new.net frame fuel sock_fd new.cin.0 (pos (swap new.cin.1)) new.place
          session s.memory
    e' ← setup_index_in_session i e
    ok (record { end_point_mgr = s.end_point_mgr ++ e' ∷ []; memory = m })

  unfoldable pub accept_each : List ℤ → Endpoints → Outcome Endpoints
  accept_each [] s = ok s
  accept_each (fd ∷ fds) s = accept_new_connection fd s >>= accept_each fds

  -- init_session of the server with its endpoints, where no call of accept fails after a connection; and that
  -- of the client. Both give `is_connected_` too.
  unfoldable pub serve_session : ℕ → Kernel → ℕ → Endpoints → Outcome (Endpoints × Bool)
  serve_session rounds k cluster s = do
    (fds, connected) ← init_server rounds k cluster
    s' ← accept_each fds s
    ok (s', connected)

  unfoldable pub connect_session : Kernel → Endpoints → Outcome (Endpoints × Bool)
  connect_session k s = do
    (fds, connected, tries) ← init_client k
    s' ← accept_each fds s
    ok (s', connected)
