-- ===== src/Buffer/Fill.antt =====
-- The bytes that the buffer operations write.
use rdma_comm_core.Prelude.{ℕ, ◌+◌, ◌≤◌, ◌<◌, ◌≡◌, false, arith, ok, fault, check_failed}
use rdma_comm_core.Memory.{Memory, memset, memcpy, Apart, within}
use rdma_comm_core.Buffer.{Block, clear, fill_in}

-- What a buffer holds after `data` bytes from `source` were put into it: those bytes, then zeros.
-- Nothing outside the buffer has changed.
pub record Holds (b : Block) (source data_length : ℕ) (old new : Memory) : Type 0 where
  pub copied : (i : ℕ) → i < data_length → new (b.data_ptr + i) ≡ old (source + i)
  pub padded : (i : ℕ) → data_length ≤ i → i < b.buffer_size → new (b.data_ptr + i) ≡ 0
  pub kept : (a : ℕ) → within b.data_ptr b.buffer_size a ≡ false → new a ≡ old a

-- fill_in with data that fits, from outside the buffer, leaves the data at the start of the buffer,
-- zeros behind it, and every other byte as it was.
pub fill_in-Holds :
    (b : Block) (source data_length : ℕ) (m : Memory)
    → data_length ≤ b.buffer_size
    → Apart source data_length b.data_ptr b.buffer_size
    → (m' : Memory) × (fill_in b source data_length m ≡ ok m') × Holds b source data_length m m'
unfolding fill_in clear memset memcpy
fill_in-Holds b source data_length m h apart = (
  memcpy b.data_ptr source data_length (clear b m),
  ground arith,
  record {
    copied = λ i hi. ground arith;
    padded = λ i lo hi. ground arith;
    kept = λ a out. ground arith;
  },
)

-- fill_in with more data than the buffer holds takes the process down and writes nothing.
pub fill_in_refuses :
    (b : Block) (source data_length : ℕ) (m : Memory)
    → b.buffer_size < data_length
    → fill_in b source data_length m ≡ fault check_failed
unfolding fill_in
fill_in_refuses b source data_length m h = ground arith
