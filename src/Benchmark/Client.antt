-- ===== src/Benchmark/Client.antt =====
-- SchedulingClient of example/lat_bw_benchmark.cc: the exchange of the buffer's key and the tests.
use rdma_comm_core.Prelude.{
  ℕ, zero, suc, Bool, true, false, not, ◌&&◌, some, List, length, ◌==◌, Outcome, ok, fault, no_fuel,
  ◌>>=◌, ◌>>◌, check,
}
use rdma_comm_core.Verbs.{Verbs, wc_send, wc_recv, wc_rdma_write, wc_rdma_read}
use rdma_comm_core.Buffer.{at}
use rdma_comm_core.Adapter.{Adapter, CommDescriptor}
use rdma_comm_core.Adapter.Transfer.{send_remote, recv_remote, read_remote, write_remote}
use rdma_comm_core.Tcp.{load}
use rdma_comm_core.Benchmark.{
  Bench, Post, request_buffer, response_to_request_buffer, send_test_request,
  response_to_send_test_request, byebye, test_raw_data, is_op, first, next_block, last_block,
  request, wait, latency_rounds, post_rounds, confirm_rounds, for_sizes, configure,
}

-- sizeof(CommDescriptor)
abbrev pub descriptor_size : ℕ
descriptor_size = 24

module _ (v : Verbs) where
  abbrev pub sending : ℕ → ℕ → Post
  sending n tag b = send_remote v (some b) n tag

  abbrev pub receiving : ℕ → Post
  receiving n b = recv_remote v (some b) n

  abbrev pub writing : ℕ → CommDescriptor → Post
  writing n peer b = write_remote v (some b) n (some peer) test_raw_data false

  abbrev pub reading : ℕ → CommDescriptor → Post
  reading n peer b = read_remote v (some b) n (some peer)

  -- The loop that waits for a send completion and for the response, in either order.
  unfoldable pub await_both : ℕ → ℕ → ℕ → Bool → Bool → Bench → Outcome Bench
  await_both zero polls response send_completion recv_completion s = fault no_fuel
  await_both (suc fuel) polls response send_completion recv_completion s =
      elim (send_completion && recv_completion) [
        | true ↦ ok s
        | false ↦ wait v polls 1 s >>= λ r. first r.1 >>= λ wc.
            check wc.success >> elim (is_op wc_send wc) [
              | true ↦
                  check (not send_completion)
                  >> await_both fuel polls response true recv_completion r.1
              | false ↦ do
                check (is_op wc_recv wc)
                check (wc.imm_data == response)
                check (not recv_completion)
                await_both fuel polls response send_completion true r.1
            ]
      ]

  -- `decode` reads a descriptor from its bytes.
  unfoldable pub exchange_buffer_info : (List ℕ → CommDescriptor) → ℕ → ℕ → Bench → Outcome Bench
  exchange_buffer_info decode fuel polls s = do
    b ← at s.buffer 1
    s₁ ← request (sending 2 request_buffer) b s
    s₂ ← await_both fuel polls response_to_request_buffer false false s₁
    x ← at s₂.buffer 0
    ok (record s₂ { buffer_peer = decode (load x.data_ptr descriptor_size s₂.memory) })

  unfoldable pub lat_send : ℕ → ℕ → ℕ → Bench → Outcome Bench
  lat_send fuel polls msg_length s = do
    x ← at s.buffer 0
    s₁ ← request (receiving 64) x s
    b ← at s₁.buffer 1
    s₂ ← request (sending 2 send_test_request) b s₁
    s₃ ← await_both fuel polls response_to_send_test_request false false s₂
    latency_rounds v (sending msg_length test_raw_data) wc_send polls 1000 s₃

  unfoldable pub write_test : ℕ → ℕ → Bench → Outcome Bench
  write_test polls msg_length s =
      latency_rounds v (writing msg_length s.buffer_peer) wc_rdma_write polls 1000 s

  unfoldable pub read_test : ℕ → ℕ → Bench → Outcome Bench
  read_test polls msg_length s =
      latency_rounds v (reading msg_length s.buffer_peer) wc_rdma_read polls 1000 s

  unfoldable pub write_bw_test : ℕ → ℕ → Bench → Outcome Bench
  write_bw_test polls msg_length s = do
    s₁ ← post_rounds v next_block (writing msg_length s.buffer_peer) 1000 s
    (confirm, s₂) ← confirm_rounds v last_block wc_rdma_write 1000 polls 1000 0 s₁
    check (confirm == 1000)
    ok s₂

  -- The same with the first block in every round, and no block taken back.
  unfoldable pub write_bw_test_fake : ℕ → ℕ → Bench → Outcome Bench
  write_bw_test_fake polls msg_length s = do
    s₁ ←
        post_rounds v (λ b. at b.buffer 0 >>= λ x. ok (x, b)) (writing msg_length s.buffer_peer)
          1000 s
    (confirm, s₂) ← confirm_rounds v (λ b. ok b) wc_rdma_write 1000 polls 1000 0 s₁
    check (confirm == 1000)
    ok s₂

  -- process_CQ after register_buffer and the exchange of a byte over the socket.
  unfoldable pub run_tests : (List ℕ → CommDescriptor) → ℕ → ℕ → Bench → Outcome Bench
  run_tests decode fuel polls s = do
    s₁ ← exchange_buffer_info decode fuel polls s
    s₂ ← for_sizes v (lat_send fuel polls) 25 1 s₁
    s₃ ← for_sizes v (write_test polls) 25 1 s₂
    s₄ ← for_sizes v (read_test polls) 25 1 s₃
    s₅ ← for_sizes v (write_bw_test polls) 25 1 s₄
    s₆ ← for_sizes v (write_bw_test_fake polls) 25 1 s₅
    x ← at s₆.buffer 0
    request (sending 64 byebye) x s₆

-- lazy_config_hca, for a session with one endpoint.
unfoldable pub lazy_config : List Adapter → Outcome (List Adapter)
lazy_config channels = check (length channels == 1) >> ok (configure channels)
