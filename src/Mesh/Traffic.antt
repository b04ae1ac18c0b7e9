-- ===== src/Mesh/Traffic.antt =====
-- Batches of completions, as the towers process them.
use rdma_comm_core.Prelude.{ℕ, suc, ◌<◌, ◌≡◌, true, List, [], ◌∷◌, ◌==◌}
use rdma_comm_core.Verbs.{Verbs, Wc, wc_send, wc_recv}
use rdma_comm_core.Adapter.{Adapter}
use rdma_comm_core.Mesh.{Lane, num_block, request_buffer}
use rdma_comm_core.Mesh.Service.{IsFor}

-- The completions that one channel of a server can see while `j` of its answers are in flight: a send
-- completes only while one is, and a request comes only while there is a block to answer from. `j'` are in
-- flight after them, and `n` requests are among them.
pub data Flow (this : ℕ) (before : List Lane) : ℕ → List Wc → ℕ → ℕ → Type 0 where
  over : (j j' n : ℕ) → j ≡ j' → n ≡ 0 → Flow this before j [] j' n
  sent :
      (j i j' n : ℕ) (wc : Wc) (wcs : List Wc)
      → j ≡ suc i
      → IsFor wc_send this before wc
      → Flow this before i wcs j' n
      → Flow this before j (wc ∷ wcs) j' n
  asked :
      (j j' n m : ℕ) (wc : Wc) (wcs : List Wc)
      → j < num_block
      → n ≡ suc m
      → IsFor wc_recv this before wc
      → (wc.imm_data == request_buffer) ≡ true
      → Flow this before (suc j) wcs j' m
      → Flow this before j (wc ∷ wcs) j' n
