-- ===== src/Buffer/Tests.antt =====
-- The theorems on buffers at concrete inputs.
use rdma_comm_core.Prelude.{
  ℕ, zero, suc, ◌-◌, ◌^◌, ◌<◌, ◌≡◌, refl, inr, String, false, some, List, [], ◌∷◌, arith, ok,
}
use rdma_comm_core.Prelude.Int.{pos, negsuc}
use rdma_comm_core.Memory.{Memory, memset}
use rdma_comm_core.Samples.{three, idle, full, block, memory}
use rdma_comm_core.Buffer.{Buffer, allocate_buffer, fill_in}
use rdma_comm_core.Buffer.Window.{window, contains}
use rdma_comm_core.Buffer.Ring.{IsRing, is_used}
use rdma_comm_core.Buffer.Schedule.{Use, hand_out, take_back, run, serve, run_refines}
use rdma_comm_core.Buffer.Layout.{IsAllocated, allocate_buffer-IsAllocated}
use rdma_comm_core.Buffer.Fill.{Holds, fill_in-Holds}

abbrev names : ℕ → String
names i = "block"

idle-IsRing : IsRing 3 idle 0 0
unfolding contains window
idle-IsRing = record {
  count = refl;
  sized = refl;
  some_blocks = omega arith;
  room = omega arith;
  handed = refl;
  taken = refl;
  flags = go;
}
  where
    go : (i : ℕ) → i < 3 → is_used idle i ≡ contains (window 3 0 0) i
    go zero h = refl
    go (suc zero) h = refl
    go (suc (suc zero)) h = refl
    go (suc (suc (suc i))) h = absurd (omega arith)

full-IsRing : IsRing 3 full 0 3
unfolding contains window
full-IsRing = record {
  count = refl;
  sized = refl;
  some_blocks = omega arith;
  room = omega arith;
  handed = refl;
  taken = refl;
  flags = go;
}
  where
    go : (i : ℕ) → i < 3 → is_used full i ≡ contains (window 3 0 3) i
    go zero h = refl
    go (suc zero) h = refl
    go (suc (suc zero)) h = refl
    go (suc (suc (suc i))) h = absurd (omega arith)

abbrev calls : List Use
calls = hand_out ∷ hand_out ∷ take_back ∷ hand_out ∷ hand_out ∷ []

run_refines_example : (b' : Buffer) × (run calls idle ≡ ok (0 ∷ 1 ∷ 0 ∷ 2 ∷ 0 ∷ [], b'))
unfolding serve window
run_refines_example =
    run_refines 3 calls idle 0 0 (0 ∷ 1 ∷ 0 ∷ 2 ∷ 0 ∷ []) idle-IsRing (omega arith) refl

abbrev worn : Buffer
worn = three (pos (2 ^ 31 - 1)) (negsuc 0) false

allocate_buffer-IsAllocated_example :
    (b : Buffer) × (allocate_buffer names (some 100) 4 3 "three" memory
      ≡ ok (b, memset 100 0 4 memory))
    × IsAllocated names 100 4 3 "three" b
allocate_buffer-IsAllocated_example =
    allocate_buffer-IsAllocated names 100 4 3 "three" memory (omega arith) (omega arith)
      (omega arith) (omega arith) (omega arith)

fill_in-Holds_example :
    (m' : Memory) × (fill_in (block 0 false) 200 3 memory ≡ ok m')
    × Holds (block 0 false) 200 3 memory m'
fill_in-Holds_example = fill_in-Holds (block 0 false) 200 3 memory (omega arith) (inr (omega arith))
