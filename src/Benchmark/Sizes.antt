-- ===== src/Benchmark/Sizes.antt =====
-- The loop over the sizes makes its 24 tests, from 1 byte to 8 MB.
use mathlib.Core.Path.{subst}
use rdma_comm_core.Prelude.{
  ℕ, zero, suc, ◌+◌, ◌-◌, ◌*◌, ◌^◌, ◌≤◌, ◌<◌, ◌≡◌, refl, sym, ◌∙◌, ap, true, false, Bool-cases, inl,
  inr, leb, leb→le, Option, Option-cases, none, some, arith, Outcome, ok,
}
use rdma_comm_core.Prelude.Int.{int_max}
use rdma_comm_core.Verbs.{Verbs}
use rdma_comm_core.Adapter.{Adapter}
use rdma_comm_core.Session.Defaults.Calls.{sends}
use rdma_comm_core.Benchmark.{Bench, largest, for_sizes}
use rdma_comm_core.Adapter.Transfer.Stock.{IsStock}
use rdma_comm_core.Benchmark.Requests.{IsPrompt, counted}
use rdma_comm_core.Benchmark.Latency.{Ran, IsTestable, write_test-Ran, read_test-Ran}
use rdma_comm_core.Benchmark.Client.{write_test, read_test}

-- How many sizes the loop goes through; none if the fuel does not last.
sizes : ℕ → ℕ → Option ℕ
sizes zero size = none
sizes (suc fuel) size = elim (leb size largest) [
  | true ↦ elim (sizes fuel (size * 2)) [ none ↦ none | some m ↦ some (suc m) ]
  | false ↦ some 0
]

sizes-suc :
    (fuel size m : ℕ)
    → sizes (suc fuel) size ≡ some m
    → leb size largest ≡ true
    → (m' : ℕ) × (sizes fuel (size * 2) ≡ some m') × (m ≡ suc m')
unfolding sizes
sizes-suc fuel size m e h = elim (Option-cases (sizes fuel (size * 2))) [
  | inl q ↦ absurd (ground arith)
  | inr (m', q) ↦ (m', q, ground arith)
]

sizes_end : (fuel size m : ℕ) → sizes (suc fuel) size ≡ some m → leb size largest ≡ false → m ≡ 0
unfolding sizes
sizes_end fuel size m e h = ground arith

-- A test that keeps `P` from one round to the next keeps it over the loop.
module _ {κ} (v : Verbs) (test : ℕ → Bench → Outcome Bench) (goal : ℕ) (P : ℕ → Bench → Type κ)
    (keep : (j size : ℕ) (s : Bench)
      → j < goal
      → size ≤ largest
      → P j s
      → (s' : Bench) × (test size s ≡ ok s') × P (suc j) s') where
  for_sizes_inv :
      (fuel size j m : ℕ) (s : Bench)
      → sizes fuel size ≡ some m
      → j + m ≡ goal
      → P j s
      → (s' : Bench) × (for_sizes v test fuel size s ≡ ok s') × P goal s'
  unfolding for_sizes
  for_sizes_inv zero size j m s e g p = absurd (unfold sizes in cc)
  for_sizes_inv (suc fuel) size j m s e g p = elim (Bool-cases (leb size largest)) [
    | inl more ↦
        let (m', e', one) = sizes-suc fuel size m e more in
        let (s₁, ran, p₁) = keep j size s (omega arith) (leb→le size largest more) p in
        let (s₂, rest, p₂) = for_sizes_inv fuel (size * 2) (suc j) m' s₁ e' (omega arith) p₁ in
        (s₂, rw (more, for_sizes) (rw ran rest), p₂)
    | inr over ↦
        let none_left = sizes_end fuel size m e over in
        (s, rw (over, for_sizes) refl, subst (λ (y : ℕ). P y s) (omega arith) p)
  ]

all_sizes : sizes 25 1 ≡ some 24
unfolding sizes
all_sizes = refl

-- After `j` tests: every block is free, and `1000 * j` more requests are posted and counted.
pub record Tested (n : ℕ) (a : Adapter) (l k : ℕ) (s : Bench) (j : ℕ) (s' : Bench) : Type 0 where
  pub testable : IsTestable largest n a (l + j * 1000) (k + j * 1000) s'
  pub posted : sends s'.trace ≡ sends s.trace + j * 1000

module _ (n : ℕ) (a : Adapter) (l k : ℕ) (s : Bench) where
  Tested-start : IsTestable largest n a l k s → Tested n a l k s 0 s
  Tested-start h = record {
    testable = record {
      adapter_is = h.adapter_is ∙ ap (counted a) (omega arith);
      polls = h.polls;
      stock = subst (λ (y : ℕ). IsStock largest n s.buffer y 0) (omega arith) h.stock;
      reach = h.reach;
    };
    posted = omega arith;
  }

  Tested-suc :
      (j : ℕ) (s₁ s₂ : Bench)
      → Tested n a l k s j s₁
      → Ran largest n a (l + j * 1000) (k + j * 1000) 1000 s₁ s₂
      → Tested n a l k s (suc j) s₂
  Tested-suc j s₁ s₂ t r = record {
    testable = record {
      adapter_is = r.adapter_kept ∙ ap (counted a) (omega arith);
      polls = t.testable.polls;
      stock = subst (λ (y : ℕ). IsStock largest n s₂.buffer y 0) (omega arith) r.stock;
      reach = subst (λ d. largest ≤ d.buffer_length) (sym r.peer_kept) t.testable.reach;
    };
    posted = (let x = t.posted in let y = r.posted in omega arith);
  }

module _ (v : Verbs) (n fuel : ℕ) (a : Adapter) (l k : ℕ) (s : Bench) (prompt : IsPrompt v fuel a)
    (h : IsTestable largest n a l k s) (small : l + 24000 ≤ int_max)
    (room : k + 24000 ≤ 2 ^ 63 - 1) where
  -- From a free ring of blocks of 8 MB, with a peer's buffer as large and counters with room for 24000 more,
  -- the write tests of all sizes return, on a library that takes every request and completes it within `fuel`
  -- polls: 24000 requests were posted, every block is free again, and all the requests are still counted as
  -- in flight.
  pub write_tests-Tested :
      (s' : Bench) × (for_sizes v (write_test v fuel) 25 1 s ≡ ok s') × Tested n a l k s 24 s'
  write_tests-Tested =
      for_sizes_inv v (write_test v fuel) 24 (λ j s'. Tested n a l k s j s')
        (λ j size s₁ lt le (t : Tested n a l k s j s₁).
          let (s₂, e, r) =
            write_test-Ran v largest n fuel size a prompt le (l + j * 1000) (k + j * 1000) s₁
              t.testable (omega arith) (omega arith) in
          (s₂, e, Tested-suc n a l k s j s₁ s₂ t r))
        25 1 0 24 s all_sizes (omega arith) (Tested-start n a l k s h)

  -- The read tests of all sizes likewise.
  pub read_tests-Tested :
      (s' : Bench) × (for_sizes v (read_test v fuel) 25 1 s ≡ ok s') × Tested n a l k s 24 s'
  read_tests-Tested =
      for_sizes_inv v (read_test v fuel) 24 (λ j s'. Tested n a l k s j s')
        (λ j size s₁ lt le (t : Tested n a l k s j s₁).
          let (s₂, e, r) =
            read_test-Ran v largest n fuel size a prompt le (l + j * 1000) (k + j * 1000) s₁
              t.testable (omega arith) (omega arith) in
          (s₂, e, Tested-suc n a l k s j s₁ s₂ t r))
        25 1 0 24 s all_sizes (omega arith) (Tested-start n a l k s h)
