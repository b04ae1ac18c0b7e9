-- ===== src/Session/Setup.antt =====
-- How the two kinds of session get their connections, src/rdma_client_sess.cc and src/rdma_server_sess.cc,
-- and what they set in the adapters before these connect. The kernel's answers are parameters. What a loop
-- does is the list of the sockets that it hands to accept_new_connection, in order; Accept has the endpoint that
-- each call makes.
pub mod Connections
pub mod Sharing
pub mod Accept
pub mod Endpoints
mod Tests
use Prim.Native.String.{◌++◌ as join}
use rdma_comm_core.Prelude.{
  ℕ, zero, suc, ◌+◌, ◌^◌, ◌%◌, String, Bool, true, false, List, [], ◌∷◌, ◌==◌, ltb, leb,
  if◌then◌else◌, Outcome, ok, fault, log_fatal, no_fuel, ◌>>=◌, ◌>>◌, fatal_if,
}
use rdma_comm_core.Prelude.Int.{ℤ, pos, negsuc}
use rdma_comm_core.Adapter.{Adapter}

abbrev is_negative : ℤ → Bool
is_negative (pos n) = false
is_negative (negsuc n) = true

-- socket(), bind(), listen(), and what the call of that number of accept() and connect() returns.
pub record Kernel : Type 0 where
  pub socket : ℤ
  pub bind : ℤ
  pub listen : ℤ
  pub accept : ℕ → ℤ
  pub connect : ℕ → ℤ

-- allocate_socket; a failure to set an option of the socket is printed and otherwise ignored.
unfoldable pub allocate_socket : Kernel → Outcome ℤ
allocate_socket k = elim k.socket [
  | negsuc n ↦ fault log_fatal
  | pos n ↦ if n == 0 then fault log_fatal else ok (pos n)
]

abbrev is_minus_one : ℤ → Bool
is_minus_one (pos n) = false
is_minus_one (negsuc n) = n == 0

-- The loop of the server: `connected` is a uint32_t.
unfoldable pub accept_loop : ℕ → Kernel → ℕ → ℕ → ℕ → Outcome (List ℤ)
accept_loop zero k cluster i connected = fault no_fuel
accept_loop (suc fuel) k cluster i connected =
    let counted = (connected + 1) % 2 ^ 32 in
    fatal_if (is_minus_one (k.accept i)) >> elim (leb cluster counted) [
      | true ↦ ok (k.accept i ∷ [])
      | false ↦ accept_loop fuel k cluster (i + 1) counted >>= λ fds. ok (k.accept i ∷ fds)
    ]

-- RDMAServerSession::init_session for a cluster of that size: the sockets accepted and `is_connected_`.
unfoldable pub init_server : ℕ → Kernel → ℕ → Outcome (List ℤ × Bool)
init_server fuel k cluster = do
  fd ← allocate_socket k
  fatal_if (is_negative k.bind)
  fatal_if (is_negative k.listen)
  fds ← accept_loop fuel k cluster 0 0
  ok (fds, true)

abbrev is_nought : ℤ → Bool
is_nought (pos n) = n == 0
is_nought (negsuc n) = false

-- The loop of the client, which ends when `count_try-- > 0` fails: how many attempts it made, and whether
-- the last of them connected.
unfoldable pub connect_loop : Kernel → ℕ → ℕ → ℕ × Bool
connect_loop k i zero = (i + 1, is_nought (k.connect i))
connect_loop k i (suc count_try) =
    if is_nought (k.connect i) then (i + 1, true) else connect_loop k (i + 1) count_try

-- RDMAClientSession::init_session: the sockets handed on, `is_connected_`, and the attempts.
unfoldable pub init_client : Kernel → Outcome (List ℤ × Bool × ℕ)
init_client k = do
  fd ← allocate_socket k
  let (tries, connected) = connect_loop k 0 3000
  ok (fd ∷ [], connected, tries)

-- lazy_config_hca of the client and of the server, on the channels of their endpoints.
unfoldable pub lazy_config_client : List Adapter → List Adapter
lazy_config_client [] = []
lazy_config_client (a ∷ channels) =
    record a { config = record (a.config) { using_shared_cq = false } }
    ∷ lazy_config_client channels

unfoldable pub lazy_config_server : String → List Adapter → List Adapter
lazy_config_server info [] = []
lazy_config_server info (a ∷ channels) =
    record a {
      config = record (a.config) { using_shared_cq = true; cq_key = join "SharedCQ@" info };
    }
    ∷ lazy_config_server info channels
