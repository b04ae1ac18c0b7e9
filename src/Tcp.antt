-- ===== src/Tcp.antt =====
-- src/tcp_connector.cc: the socket over which two endpoints exchange their adapters' data before the RDMA
-- connection stands. The kernel's calls are the parameter `Net`. Sizes are the `int`s that are not
-- negative, as every caller passes; the log lines are not modelled.
pub mod Receive
pub mod Sync
mod Tests
use rdma_comm_core.Prelude.{
  ℕ, zero, suc, ◌+◌, ◌-◌, String, Bool, true, false, Option, none, some, List, [], ◌∷◌, ◌++◌, ◌==◌,
  ltb, leb, if◌then◌else◌, length, get_elem?, Outcome, ok, fault, log_fatal, no_fuel, ◌>>=◌, ◌>>◌,
  fatal_if,
}
use rdma_comm_core.Prelude.Int.{ℤ, pos, negsuc}
use rdma_comm_core.Memory.{Memory, within}

-- The kernel: what socket() returns; what send() returns for some bytes, after the bytes sent before; and
-- what recv() gives, from the number of calls and of bytes before and the length: none for -1, else the
-- bytes that it wrote.
pub record Net : Type 0 where
  pub create : ℤ
  pub send : List (List ℕ) → List ℕ → ℤ
  pub recv : ℕ → ℕ → ℕ → Option (List ℕ)

pub record TcpConnector : Type 0 where
  pub root_sock : ℤ
  pub peer_ip : String
  pub peer_port : ℤ
  pub my_ip : String
  pub my_port : ℤ

-- A connector with what the process has sent, how often it has called recv and how many
-- bytes it has received, and its memory.
pub record Wire : Type 0 where
  pub connector : TcpConnector
  pub sent : List (List ℕ)
  pub reads : ℕ
  pub taken : ℕ
  pub memory : Memory

-- The `n` bytes at `p`.
unfoldable pub load : ℕ → ℕ → Memory → List ℕ
load p zero m = []
load p (suc n) m = m p ∷ load (p + 1) n m

-- The bytes `xs` written at `p`.
unfoldable pub put : ℕ → List ℕ → Memory → Memory
put p xs m a =
    if within p (length xs) a then elim (get_elem? xs (a - p)) [ none ↦ m a | some x ↦ x ] else m a

-- The order and the difference of an `int` and a size.
abbrev pub below : ℤ → ℕ → Bool
below (pos k) n = ltb k n
below (negsuc k) n = true

abbrev pub minus : ℕ → ℤ → ℤ
minus r (pos k) = if leb k r then pos (r - k) else negsuc (k - r - 1)
minus r (negsuc k) = pos (r + k + 1)

abbrev is_zero : ℤ → Bool
is_zero (pos n) = n == 0
is_zero (negsuc n) = false

abbrev is_positive : ℤ → Bool
is_positive (pos n) = ltb 0 n
is_positive (negsuc n) = false

-- What a call of recv leaves of the state.
abbrev pub arrive : ℕ → List ℕ → Wire → Wire
arrive p xs w = record w {
  reads = w.reads + 1;
  taken = w.taken + length xs;
  memory = put p xs w.memory;
}

module _ (net : Net) where
  unfoldable pub get_or_build_socket : TcpConnector → Outcome TcpConnector
  get_or_build_socket c =
      if is_zero c.root_sock
      then (if is_positive net.create
          then ok (record c { root_sock = net.create })
          else fault log_fatal)
      else ok c

  unfoldable pub send_data : ℕ → ℕ → Wire → Outcome (ℤ × Wire)
  send_data msg_size data_placeholder w = do
    c ← get_or_build_socket w.connector
    let bytes = load data_placeholder msg_size w.memory
    let write_ret = net.send w.sent bytes
    fatal_if (below write_ret msg_size)
    ok (write_ret, record w { connector = c; sent = bytes ∷ w.sent })

  -- The loop of recv_data: it ends with `rc` when that is not 0, or with all bytes; `rc` takes only the
  -- value 0 that recv has just returned.
  unfoldable pub recv_loop : ℕ → ℕ → ℕ → ℕ → ℕ → Wire → Outcome (ℕ × Wire)
  recv_loop zero rc total msg_size p w = fault no_fuel
  recv_loop (suc fuel) rc total msg_size p w = elim (rc == 0) [
    | false ↦ ok (rc, w)
    | true ↦ elim (ltb total msg_size) [
      | false ↦ ok (rc, w)
      | true ↦ elim (net.recv w.reads w.taken (msg_size - total)) [
        | none ↦ fault log_fatal
        | some xs ↦ elim (ltb 0 (length xs)) [
          | true ↦ recv_loop fuel rc (total + length xs) msg_size p (arrive (p + total) xs w)
          | false ↦ recv_loop fuel (length xs) total msg_size p (arrive (p + total) xs w)
        ]
      ]
    ]
  ]

  unfoldable pub recv_data : ℕ → ℕ → ℕ → Wire → Outcome (ℕ × Wire)
  recv_data fuel msg_size p w = do
    c ← get_or_build_socket w.connector
    recv_loop fuel 0 0 msg_size p (record w { connector = c })

  unfoldable pub force_loop : ℕ → ℕ → ℕ → ℕ → Wire → Outcome (ℕ × Wire)
  force_loop zero total msg_size p w = fault no_fuel
  force_loop (suc fuel) total msg_size p w = elim (ltb total msg_size) [
    | false ↦ ok (total, w)
    | true ↦ elim (net.recv w.reads w.taken (msg_size - total)) [
      | none ↦ fault log_fatal
      | some xs ↦ elim (ltb 0 (length xs)) [
        | true ↦ force_loop fuel (total + length xs) msg_size p (arrive (p + total) xs w)
        | false ↦ force_loop fuel total msg_size p (arrive (p + total) xs w)
      ]
    ]
  ]

  unfoldable pub recv_data_force : ℕ → ℕ → ℕ → Wire → Outcome (ℕ × Wire)
  recv_data_force fuel msg_size p w = do
    c ← get_or_build_socket w.connector
    force_loop fuel 0 msg_size p (record w { connector = c })

  unfoldable pub sock_sync_data : ℕ → ℕ → ℕ → ℕ → Wire → Outcome (ℤ × Wire)
  sock_sync_data fuel xfer_size local_data remote_data w = do
    (write_msg, w') ← send_data xfer_size local_data w
    (recv_msg, w'') ← recv_data_force fuel xfer_size remote_data w'
    ok (minus recv_msg write_msg, w'')
