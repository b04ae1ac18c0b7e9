-- ===== src/Benchmark.antt =====
-- example/lat_bw_benchmark.cc: what its two sessions share. Each has one channel and one buffer of many
-- blocks; a test posts a request for the next block, waits for the completion and takes the block back, or
-- posts a request for every block before it waits. Sleeping, timing and printing are not modelled.
pub mod Client
pub mod Server
pub mod Waits
pub mod Blocks
pub mod Requests
pub mod Latency
pub mod Sizes
pub mod Pair
mod Tests
pub mod Bandwidth
pub mod Start
use rdma_comm_core.Prelude.{
  ℕ, zero, suc, ◌+◌, ◌*◌, String, Bool, true, false, not, ◌&&◌, Option, none, some, List, [], ◌∷◌,
  ◌++◌, ◌==◌, leb, length, get_elem?, take, drop, Outcome, ok, fault, no_fuel, ◌>>=◌, ◌>>◌, check,
  or_undefined,
}
use rdma_comm_core.Memory.{Memory}
use rdma_comm_core.Verbs.{
  Verbs, Trace, Wc, WcOpcode, wc_send, wc_recv, wc_rdma_write, wc_rdma_read, wc_recv_rdma_with_imm,
  wc_other,
}
use rdma_comm_core.Buffer.{Block, Buffer, allocate_buffer, at, next, last}
use rdma_comm_core.Device.{World}
use rdma_comm_core.Adapter.{Adapter, CommDescriptor}
use rdma_comm_core.Adapter.Transfer.{send_remote, recv_remote, poll_cq_batch}
use rdma_comm_core.Channel.{Channel, register_buffer, store}

-- The members of a session: its channel's adapter, `*benchmark_buffer`, the completions that have been
-- polled into `global_wc`, whose other elements are uninitialised, and `buffer_peer`; with the memory and
-- the calls of the library.
pub record Bench : Type 0 where
  pub adapter : Adapter
  pub buffer : Buffer
  pub global_wc : List Wc
  pub buffer_peer : CommDescriptor
  pub memory : Memory
  pub trace : Trace

-- MessageforTest
abbrev pub request_buffer : ℕ
request_buffer = 1

abbrev pub response_to_request_buffer : ℕ
response_to_request_buffer = 2

abbrev pub send_test_request : ℕ
send_test_request = 3

abbrev pub response_to_send_test_request : ℕ
response_to_send_test_request = 4

abbrev pub byebye : ℕ
byebye = 255

abbrev pub test_raw_data : ℕ
test_raw_data = 299

-- 8 * MB
abbrev pub largest : ℕ
largest = 8 * (1024 * 1024)

abbrev rank : WcOpcode → ℕ
rank wc_send = 0
rank wc_recv = 1
rank wc_rdma_write = 2
rank wc_rdma_read = 3
rank wc_recv_rdma_with_imm = 4
rank wc_other = 5

abbrev pub is_op : WcOpcode → Wc → Bool
is_op op wc = rank wc.opcode == rank op

-- The two checks on a completion.
abbrev pub expect : WcOpcode → Wc → Outcome (Unit {0})
expect op wc = check wc.success >> check (is_op op wc)

-- global_wc[0]
abbrev pub first : Bench → Outcome Wc
first s = or_undefined (get_elem? s.global_wc 0)

-- benchmark_buffer->next(), and benchmark_buffer->last()
abbrev pub next_block : Bench → Outcome (Block × Bench)
next_block s = do
  (i, b) ← next s.buffer
  x ← or_undefined (get_elem? b.buffer_mgr i)
  ok (x, record s { buffer = b })

abbrev pub last_block : Bench → Outcome Bench
last_block s = last s.buffer >>= λ r. ok (record s { buffer = r.1 })

-- A request for a block, on the channel.
abbrev pub Post : Type 0
Post = Block → Adapter → Trace → Outcome (Adapter × Trace)

abbrev pub request : Post → Block → Bench → Outcome Bench
request post b s = post b s.adapter s.trace >>= λ r. ok (record s { adapter = r.0; trace = r.1 })

abbrev pub is_idle : Option ℕ → Bool
is_idle none = false
is_idle (some n) = n == 0

-- The completions of one poll; none is a negative number of them.
abbrev pub polled : Option ℕ → List Wc → List Wc
polled none wcs = []
polled (some n) wcs = take n wcs

-- What lazy_config_hca of both sessions sets in the channels.
unfoldable pub configure : List Adapter → List Adapter
configure [] = []
configure (a ∷ channels) =
    record a {
      config = record (a.config) {
        using_shared_cq = false;
        max_recv_wr = 1024;
        max_send_wr = 1024;
        cq_size = 1024 + 1024;
      };
    }
    ∷ configure channels

module _ (v : Verbs) where
  -- poll_cq_batch(global_wc, n)
  unfoldable pub poll : ℕ → Bench → Outcome (Option ℕ × Bench)
  poll n s = do
    (answer, t) ← poll_cq_batch v n s.adapter s.trace
    elim answer [
      | none ↦ ok (none, record s { trace = t })
      | some wcs ↦ ok (
        some (length wcs),
        record s { global_wc = wcs ++ drop (length wcs) s.global_wc; trace = t },
      )
    ]

  -- do { num_wqe = poll_cq_batch(global_wc, n); } while (num_wqe == 0);
  unfoldable pub wait : ℕ → ℕ → Bench → Outcome (Option ℕ × Bench)
  wait zero n s = fault no_fuel
  wait (suc fuel) n s =
      poll n s >>= λ r. elim (is_idle r.0) [ true ↦ wait fuel n r.1 | false ↦ ok r ]

  -- A wait for one completion, with the checks on it.
  unfoldable pub wait_for : WcOpcode → ℕ → Bench → Outcome (Wc × Bench)
  wait_for op fuel s = do (num_wqe, s') ← wait fuel 1 s; wc ← first s'; expect op wc; ok (wc, s')

  -- The loop of a latency test, for the rounds that are left.
  unfoldable pub latency_rounds : Post → WcOpcode → ℕ → ℕ → Bench → Outcome Bench
  latency_rounds post op fuel zero s = ok s
  latency_rounds post op fuel (suc left) s = do
    (b, s₁) ← next_block s
    s₂ ← request post b s₁
    (wc, s₃) ← wait_for op fuel s₂
    s₄ ← last_block s₃
    latency_rounds post op fuel left s₄

  -- The first loop of a bandwidth test: `source` gives the block of a round.
  unfoldable pub post_rounds : (Bench → Outcome (Block × Bench)) → Post → ℕ → Bench → Outcome Bench
  post_rounds source post zero s = ok s
  post_rounds source post (suc left) s = do
    (b, s₁) ← source s
    s₂ ← request post b s₁
    post_rounds source post left s₂

  -- The loop over the completions of a poll: `back` takes a block back.
  unfoldable pub confirm_batch :
      (Bench → Outcome Bench) → WcOpcode → List Wc → ℕ → Bench → Outcome (ℕ × Bench)
  confirm_batch back op [] confirm s = ok (confirm, s)
  confirm_batch back op (wc ∷ wcs) confirm s = do
    expect op wc
    s' ← back s
    confirm_batch back op wcs (confirm + 1) s'

  -- The second loop, for the rounds that are left, until `goal` completions are confirmed.
  unfoldable pub confirm_rounds :
      (Bench → Outcome Bench) → WcOpcode → ℕ → ℕ → ℕ → ℕ → Bench → Outcome (ℕ × Bench)
  confirm_rounds back op goal fuel zero confirm s = ok (confirm, s)
  confirm_rounds back op goal fuel (suc left) confirm s = elim (leb goal confirm) [
    | true ↦ ok (confirm, s)
    | false ↦ wait fuel 128 s >>= λ r.
        confirm_batch back op (polled r.0 r.1.global_wc) confirm r.1 >>= λ c.
        confirm_rounds back op goal fuel left c.0 c.1
  ]

  -- The loop over the sizes of a test: `buffer_size *= 2` while it is at most 8 MB.
  unfoldable pub for_sizes : (ℕ → Bench → Outcome Bench) → ℕ → ℕ → Bench → Outcome Bench
  for_sizes test zero size s = fault no_fuel
  for_sizes test (suc fuel) size s = elim (leb size largest) [
    | true ↦ test size s >>= for_sizes test fuel (size * 2)
    | false ↦ ok s
  ]

  -- register_buffer of both sessions: a buffer of `count` blocks, at `p`, and a receive for its first
  -- block. `names` and `memory` are as for allocate_buffer.
  unfoldable pub register_benchmark_buffer :
      (ℕ → String) → Option ℕ → ℕ → ℕ → Channel → World → Memory → CommDescriptor → Outcome Bench
  register_benchmark_buffer names memory count p channel world m unset = do
    (b, m') ← allocate_buffer names memory largest count "benchmark_buffer" m
    h ←
        register_buffer v p
          (record { channel = channel; buffers = store p (some b) (λ q. none); world = world })
    b' ← or_undefined (h.buffers p)
    x ← at b' 0
    (a, t) ← recv_remote v (some x) x.buffer_size h.channel.adapter h.world.trace
    ok (record {
      adapter = a;
      buffer = b';
      global_wc = [];
      buffer_peer = unset;
      memory = m';
      trace = t;
    })
