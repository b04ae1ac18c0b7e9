-- ===== src/Benchmark/Tests.antt =====
-- The theorems on the benchmark at concrete inputs.
use rdma_comm_core.Prelude.{
  ℕ, ◌<◌, ◌≡◌, refl, true, false, inl, inr, some, [], ◌∷◌, arith, ok, fault, check_failed,
}
use rdma_comm_core.Verbs.{
  Verbs, Trace, Wc, WcOpcode, wc_send, wc_recv, wc_rdma_write, wc_other, post_send, poll_cq,
}
use rdma_comm_core.Samples.{verbs, ready, descriptor, memory}
use rdma_comm_core.Samples.Blocks.{ring, ring-IsStock}
use rdma_comm_core.Benchmark.{Bench, largest, for_sizes}
use rdma_comm_core.Benchmark.Waits.{IsGood}
use rdma_comm_core.Benchmark.Requests.{IsPrompt, completion}
use rdma_comm_core.Benchmark.Latency.{IsTestable}
use rdma_comm_core.Benchmark.Sizes.{Tested, write_tests-Tested}
use rdma_comm_core.Benchmark.Pair.{await_both_ends, await_both_twice}
use rdma_comm_core.Benchmark.Client.{write_test, await_both}

-- A library that completes the latest send request at every poll.
abbrev latest : Trace → WcOpcode
latest [] = wc_other
latest (post_send qp wr ∷ t) = completion wr.opcode
latest (c ∷ t) = latest t

abbrev finished : WcOpcode → Wc
finished op = record {
  wr_id = 500;
  success = true;
  opcode = op;
  byte_len = 8;
  imm_data = 2;
  with_imm = true;
}

abbrev prompt : Verbs
prompt = record verbs { poll = λ t cq n. some (finished (latest t) ∷ []) }

finished-IsGood : (op : WcOpcode) → IsGood op (finished op)
finished-IsGood op = ground arith

prompt-IsPrompt : IsPrompt prompt 1 ready
prompt-IsPrompt = record {
  takes = λ t wr. refl;
  completes = λ t wr. (
    finished (completion wr.opcode),
    _,
    inl (refl, refl),
    finished-IsGood (completion wr.opcode),
  );
}

-- `n` blocks of 8 MB, all of them free and registered.
abbrev bench : ℕ → Bench
bench n = record {
  adapter = ready;
  buffer = ring largest n;
  global_wc = [];
  buffer_peer = record descriptor { buffer_length = largest };
  memory = memory;
  trace = [];
}

bench-IsTestable : (n : ℕ) → 0 < n → IsTestable largest n ready 0 0 (bench n)
bench-IsTestable n positive = record {
  adapter_is = refl;
  polls = λ e. absurd (omega arith);
  stock = ring-IsStock largest n (omega arith) positive;
  reach = omega arith;
}

write_tests-Tested_example :
    (s' : Bench) × (for_sizes prompt (write_test prompt 1) 25 1 (bench 1000) ≡ ok s')
    × Tested 1000 ready 0 0 (bench 1000) 24 s'
write_tests-Tested_example =
    write_tests-Tested prompt 1000 1 ready 0 0 (bench 1000) prompt-IsPrompt
      (bench-IsTestable 1000 (omega arith)) (omega arith) (omega arith)

-- A library that completes one write at every poll.
abbrev one_by_one : Verbs
one_by_one = record verbs { poll = λ t cq n. some (finished wc_rdma_write ∷ []) }

-- A library that completes a receive at the first poll and a send at the others.
abbrev by_turns : Trace → Wc
by_turns [] = finished wc_recv
by_turns (c ∷ t) = finished wc_send

abbrev paired : Verbs
paired = record verbs { poll = λ t cq n. some (by_turns t ∷ []) }

await_both_ends_example :
    await_both paired 3 1 2 false false (bench 3)
    ≡ ok (record (bench 3) {
      global_wc = finished wc_send ∷ [];
      trace = poll_cq 31 1 ∷ poll_cq 31 1 ∷ [];
    })
await_both_ends_example =
    await_both_ends paired 1 2 (finished wc_recv) (finished wc_send) (bench 3) (poll_cq 31 1 ∷ [])
      (poll_cq 31 1 ∷ poll_cq 31 1 ∷ []) (λ e. absurd (omega arith)) (inl (refl, refl))
      (inl (refl, refl)) (inr (((refl, refl), refl), (refl, refl)))

-- A library that completes a send at every poll.
abbrev one_by_one_send : Verbs
one_by_one_send = record verbs { poll = λ t cq n. some (finished wc_send ∷ []) }

await_both_twice_example :
    await_both one_by_one_send 3 1 2 false false (bench 3) ≡ fault check_failed
await_both_twice_example =
    await_both_twice one_by_one_send 1 2 1 (finished wc_send) (finished wc_send) (bench 3)
      (poll_cq 31 1 ∷ []) (poll_cq 31 1 ∷ poll_cq 31 1 ∷ []) (λ e. absurd (omega arith))
      (inl (refl, refl)) (inl (refl, refl)) (inl ((refl, refl), (refl, refl)))
