-- ===== src/Benchmark/Start.antt =====
-- process_CQ of both sessions of example/lat_bw_benchmark.cc: the buffer, the exchange of a byte with the peer over
-- the socket of the channel's endpoint, and the tests.
use rdma_comm_core.Prelude.{
  ℕ, ◌+◌, ◌*◌, ◌^◌, ◌≤◌, ◌<◌, ◌≡◌, sym, ap, ◌∙◌, String, Option, none, some, List, [], ◌∷◌, Outcome,
  ok, fault, check_failed, ◌>>=◌, arith, >>=-eq-ok, ok-injective, or_undefined, or_undefined_eq,
  some-injective,
}
use mathlib.Core.Path.{subst}
use rdma_comm_core.Prelude.Int.{size_mod}
use rdma_comm_core.Memory.{Memory}
use rdma_comm_core.Verbs.{Verbs}
use rdma_comm_core.Buffer.{Buffer, allocate_buffer, at}
use rdma_comm_core.Device.{World}
use rdma_comm_core.Adapter.{CommDescriptor}
use rdma_comm_core.Adapter.Transfer.{recv_remote}
use rdma_comm_core.Adapter.Transfer.Stock.{IsStock}
use rdma_comm_core.Channel.{Channel, Host, store, register_buffer}
use rdma_comm_core.Channel.Registry.{store_here}
use rdma_comm_core.Channel.Stock.{registered-IsStock, allocated}
use rdma_comm_core.Tcp.{Net, Wire}
use rdma_comm_core.Endpoint.{Frame, sync_with_peer}
use rdma_comm_core.Benchmark.{Bench, largest, register_benchmark_buffer}
use rdma_comm_core.Benchmark.Client.{run_tests}
use rdma_comm_core.Benchmark.Server.{serve_tests}

module _ (v : Verbs) (names : ℕ → String) (memory : Option ℕ) (p : ℕ) (unset : CommDescriptor)
    (net : Net) (frame : Frame) (fuel polls : ℕ) (wire : Wire) where
  -- register_buffer and sync_with_peer, on the only channel.
  unfoldable pub begin_tests : List Channel → World → Memory → Outcome Bench
  begin_tests [] w m = fault check_failed
  begin_tests (c ∷ d ∷ channels) w m = fault check_failed
  begin_tests (c ∷ []) w m = do
    s ← register_benchmark_buffer v names memory 1000 p c w m unset
    w' ← sync_with_peer net frame fuel (record wire { memory = s.memory })
    ok (record s { memory = w'.memory })

  unfoldable pub client_process_cq :
      (List ℕ → CommDescriptor) → List Channel → World → Memory → Outcome Bench
  client_process_cq decode channels w m = begin_tests channels w m >>= run_tests v decode fuel polls

  -- `fd` is what the member of the descriptor that is not set holds.
  unfoldable pub server_process_cq :
      (CommDescriptor → List ℕ) → ℕ → List Channel → World → Memory → Outcome Bench
  server_process_cq encode fd channels w m =
      begin_tests channels w m >>= serve_tests v encode fd polls

-- After the registration of a buffer in memory that fits, its blocks of 8 MB are all free and fit for a request.
pub register_benchmark_buffer-IsStock :
    (v : Verbs) (names : ℕ → String) (a count p : ℕ) (c : Channel) (w : World) (m : Memory)
    (unset : CommDescriptor) (s : Bench)
    → 0 < a
    → 0 < count
    → count < 2 ^ 31
    → a + count * largest ≤ size_mod
    → 0 < c.this
    → register_benchmark_buffer v names (some a) count p c w m unset ≡ ok s
    → IsStock largest count s.buffer 0 0
unfolding register_benchmark_buffer
register_benchmark_buffer-IsStock v names a count p c w m unset s pa pc few fits this e =
    let ((b, m'), e₁, f₁) =
      >>=-eq-ok (allocate_buffer names (some a) largest count "benchmark_buffer" m) _ e in
    let made =
      allocated names a largest count "benchmark_buffer" m (b, m') pa (omega arith) pc few fits
        e₁ in
    let h : Host = record { channel = c; buffers = store p (some b) (λ q. none); world = w } in
    let (h', e₂, f₂) = >>=-eq-ok (register_buffer v p h) _ f₁ in
    let (b', now, stock, _, _) =
      registered-IsStock v names a largest count p "benchmark_buffer" b h h' made pa (omega arith)
        pc this (store_here p (some b) (λ q. none)) e₂ in
    let (b₂, e₃, f₃) = >>=-eq-ok (or_undefined (h'.buffers p)) _ f₂ in
    let same : b' ≡ b₂ = some-injective (sym now ∙ or_undefined_eq e₃) in
    let (x, e₄, f₄) = >>=-eq-ok (at b₂ 0) _ f₃ in
    let (r, e₅, f₅) =
      >>=-eq-ok (recv_remote v (some x) x.buffer_size h'.channel.adapter h'.world.trace) _ f₄ in
    subst (λ (y : Buffer). IsStock largest count y 0 0)
      (same ∙ ap (λ (y : Bench). y.buffer) (ok-injective f₅)) stock
