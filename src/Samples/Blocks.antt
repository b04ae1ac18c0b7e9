-- ===== src/Samples/Blocks.antt =====
-- Buffers of any number of registered blocks, none of them in use.
use rdma_comm_core.Prelude.{
  ℕ, zero, suc, ◌<◌, ◌≡◌, refl, ap, false, some, List, [], ◌∷◌, length, All, arith,
}
use rdma_comm_core.Samples.{registered, idle}
use rdma_comm_core.Buffer.{Block, Buffer}
use rdma_comm_core.Buffer.Window.{window, contains}
use rdma_comm_core.Buffer.Ring.{is_used}
use rdma_comm_core.Adapter.Transfer.Stock.{IsFit, IsStock, place}

abbrev pub sized : ℕ → Block
sized size = record registered { buffer_size = size }

pub copies : ℕ → ℕ → List Block
copies size zero = []
copies size (suc n) = sized size ∷ copies size n

-- The blocks lie at one place.
abbrev pub ring : ℕ → ℕ → Buffer
ring size n = record idle {
  head = record (idle.head) { blocks = n; mr = 51 };
  buffer_mgr = copies size n;
}

length-copies : (size n : ℕ) → length (copies size n) ≡ n
unfolding copies
length-copies size zero = refl
length-copies size (suc n) = ap suc (length-copies size n)

copies_unused : (size n i : ℕ) → is_used (record idle { buffer_mgr = copies size n }) i ≡ false
unfolding copies
copies_unused size zero i = refl
copies_unused size (suc n) zero = refl
copies_unused size (suc n) (suc i) = copies_unused size n i

copies-IsFit : (size n : ℕ) → 0 < size → All (IsFit size) (copies size n)
unfolding copies
copies-IsFit size zero h = tt
copies-IsFit size (suc n) h = (
  record {
    postable = record {
      filled = h;
      placed = omega arith;
      owned = omega arith;
      registered = omega arith;
    };
    exact = refl;
  },
  copies-IsFit size n h,
)

pub ring-IsStock : (size n : ℕ) → 0 < size → 0 < n → IsStock size n (ring size n) 0 0
unfolding window contains
ring-IsStock size n h positive = record {
  ring = record {
    count = refl;
    sized = length-copies size n;
    some_blocks = positive;
    room = omega arith;
    handed = refl;
    taken = refl;
    flags = λ i lt. copies_unused size n i;
  };
  fit = (omega arith, copies-IsFit size n h);
}

pub ring_place : (size n : ℕ) → 0 < n → place (ring size n).buffer_mgr 0 ≡ some 100
unfolding copies
ring_place size zero h = elim h [ ]
ring_place size (suc n) h = refl
