-- ===== src/Benchmark/Server.antt =====
-- SchedulingServer of example/lat_bw_benchmark.cc.
use rdma_comm_core.Prelude.{ℕ, zero, suc, ◌==◌, some, List, Outcome, ok, ◌>>=◌, ◌>>◌, check}
use rdma_comm_core.Verbs.{Verbs, wc_send, wc_recv}
use rdma_comm_core.Buffer.{at}
use rdma_comm_core.Device.Post.{key_of}
use rdma_comm_core.Adapter.{Adapter, CommDescriptor}
use rdma_comm_core.Adapter.Transfer.{send_remote, recv_remote}
use rdma_comm_core.Tcp.{put}
use rdma_comm_core.Benchmark.{
  Bench, Post, request_buffer, response_to_request_buffer, response_to_send_test_request, byebye,
  test_raw_data, next_block, last_block, request, wait_for, for_sizes, configure,
}

module _ (v : Verbs) where
  abbrev sending : ℕ → ℕ → Post
  sending n tag b = send_remote v (some b) n tag

  abbrev receiving : ℕ → Post
  receiving n b = recv_remote v (some b) n

  -- `encode` gives the bytes of a descriptor. The member fd_ is not set: what it holds is `unset`.
  unfoldable pub exchange_buffer_info : (CommDescriptor → List ℕ) → ℕ → ℕ → Bench → Outcome Bench
  exchange_buffer_info encode unset polls s = do
    (wc, s₁) ← wait_for v wc_recv polls s
    check (wc.imm_data == request_buffer)
    mine ← at s₁.buffer 1
    written ← at s₁.buffer 0
    rkey ← key_of v.rkey written.mr
    let own : CommDescriptor = record {
      buffer_addr = written.data_ptr;
      buffer_length = written.buffer_size;
      rkey = rkey;
      fd = unset;
    }
    let s₂ : Bench = record s₁ { memory = put mine.data_ptr (encode own) s₁.memory }
    s₃ ← request (sending 64 response_to_request_buffer) mine s₂
    (done, s₄) ← wait_for v wc_send polls s₃
    ok s₄

  -- The loops that post the receives, and that take the messages.
  unfoldable pub receive_rounds : ℕ → Bench → Outcome Bench
  receive_rounds zero s = ok s
  receive_rounds (suc left) s = do
    (b, s₁) ← next_block s
    s₂ ← request (receiving b.buffer_size) b s₁
    receive_rounds left s₂

  unfoldable pub message_rounds : ℕ → ℕ → Bench → Outcome Bench
  message_rounds polls zero s = ok s
  message_rounds polls (suc left) s = do
    (wc, s₁) ← wait_for v wc_recv polls s
    check (wc.imm_data == test_raw_data)
    s₂ ← last_block s₁
    message_rounds polls left s₂

  unfoldable pub lat_send : ℕ → Bench → Outcome Bench
  lat_send polls s = do
    x ← at s.buffer 0
    s₁ ← request (receiving 64) x s
    (wc, s₂) ← wait_for v wc_recv polls s₁
    s₃ ← receive_rounds 1000 s₂
    b ← at s₃.buffer 1
    s₄ ← request (sending 0 response_to_send_test_request) b s₃
    (done, s₅) ← wait_for v wc_send polls s₄
    message_rounds polls 1000 s₅

  -- process_CQ after register_buffer and the exchange of a byte over the socket.
  unfoldable pub serve_tests : (CommDescriptor → List ℕ) → ℕ → ℕ → Bench → Outcome Bench
  serve_tests encode unset polls s = do
    s₁ ← exchange_buffer_info encode unset polls s
    s₂ ← for_sizes v (λ size. lat_send polls) 25 1 s₁
    x ← at s₂.buffer 0
    s₃ ← request (receiving 64) x s₂
    (wc, s₄) ← wait_for v wc_recv polls s₃
    check (wc.imm_data == byebye)
    ok s₄

-- lazy_config_hca
unfoldable pub lazy_config : List Adapter → List Adapter
lazy_config channels = configure channels
