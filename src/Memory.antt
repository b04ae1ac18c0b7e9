-- ===== src/Memory.antt =====
-- The bytes of the process, by address, and the libc calls on them that src/rdma_buffer.cc makes.
use rdma_comm_core.Prelude.{ℕ, ◌+◌, ◌-◌, ◌≤◌, ◌⊎◌, Bool, ◌&&◌, leb, ltb, if◌then◌else◌}

abbrev pub Memory : Type 0
Memory = ℕ → ℕ

abbrev pub within : ℕ → ℕ → ℕ → Bool
within p n a = leb p a && ltb a (p + n)

-- memset(p, v, n)
unfoldable pub memset : ℕ → ℕ → ℕ → Memory → Memory
memset p v n m a = if within p n a then v else m a

-- memcpy(dst, src, n)
unfoldable pub memcpy : ℕ → ℕ → ℕ → Memory → Memory
memcpy dst src n m a = if within dst n a then m (src + (a - dst)) else m a

-- The ranges [p, p + n) and [q, q + k) share no byte.
abbrev pub Apart : ℕ → ℕ → ℕ → ℕ → Type 0
Apart p n q k = (p + n ≤ q) ⊎ (q + k ≤ p)
