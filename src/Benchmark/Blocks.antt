-- ===== src/Benchmark/Blocks.antt =====
-- The blocks of the benchmark's buffer.
use rdma_comm_core.Prelude.{ℕ, suc, ◌+◌, ◌≤◌, ◌<◌, ◌≡◌, refl, ok}
use rdma_comm_core.Prelude.Int.{int_max}
use rdma_comm_core.Buffer.{Block, Buffer}
use rdma_comm_core.Adapter.Transfer.Stock.{IsFit, IsStock, next-IsStock, last-IsStock}
use rdma_comm_core.Benchmark.{Bench, next_block, last_block}

module _ (size n : ℕ) (s : Bench) (l k : ℕ) where
  -- With a block to spare the next one is fit for a request.
  pub next_block_lem :
      IsStock size n s.buffer l k
      → k < n
      → l + k ≤ int_max
      → (x : Block) × (b : Buffer) × (next_block s ≡ ok (x, record s { buffer = b }))
        × IsFit size x
        × IsStock size n b l (suc k)
  next_block_lem h lt room =
      let (x, b, e, g, f, h') = next-IsStock size n s.buffer l k h lt room in
      (x, b, rw (e, g) refl, f, h')

  pub last_block_lem :
      IsStock size n s.buffer l (suc k)
      → l ≤ int_max
      → (b : Buffer) × (last_block s ≡ ok (record s { buffer = b })) × IsStock size n b (suc l) k
  last_block_lem h room =
      let (b, e, h') = last-IsStock size n s.buffer l k h room in (b, rw e refl, h')
