-- ===== src/Tcp/Receive.antt =====
-- The receiving loops.
use mathlib.Core.Path.{subst}
use native.Mathlib.Decide.{dec_lt}
use rdma_comm_core.Prelude.{
  ℕ, zero, suc, ◌+◌, ◌-◌, ◌≤◌, ◌<◌, ◌≡◌, refl, sym, ap, ◌∙◌, true, false, Bool-cases, inl, inr,
  some, List, ltb, ltb→lt, length, get_elem?, arith, ok,
}
use rdma_comm_core.Memory.{Memory, within}
use rdma_comm_core.Tcp.{Net, Wire, put, arrive, recv_loop, force_loop}

-- recv() on an open, blocking stream socket: the next bytes of the peer's stream `s`, at least one and at
-- most as many as asked for.
pub record Chunk (s : ℕ → ℕ) (k n : ℕ) (xs : List ℕ) : Type 0 where
  pub some_bytes : 0 < length xs
  pub bounded : length xs ≤ n
  pub next_bytes : (j : ℕ) → j < length xs → get_elem? xs j ≡ some (s (k + j))

abbrev pub IsStream : Net → (ℕ → ℕ) → Type 0
IsStream net s = (i k n : ℕ) → 0 < n → (xs : List ℕ) × (net.recv i k n ≡ some xs) × Chunk s k n xs

-- `n` bytes of the stream were received at `p`, and nothing else changed.
pub record Received (s : ℕ → ℕ) (p n : ℕ) (w w' : Wire) : Type 0 where
  pub bytes : (j : ℕ) → j < n → w'.memory (p + j) ≡ s (w.taken + j)
  pub kept : (a : ℕ) → within p n a ≡ false → w'.memory a ≡ w.memory a
  pub taken : w'.taken ≡ w.taken + n
  pub connector : w'.connector ≡ w.connector
  pub sent : w'.sent ≡ w.sent

pub put_in :
    (p j x : ℕ) (xs : List ℕ) (m : Memory)
    → j < length xs
    → get_elem? xs j ≡ some x
    → put p xs m (p + j) ≡ x
unfolding put
put_in p j x xs m h e =
    let inside : within p (length xs) (p + j) ≡ true = ground arith in
    let off : p + j - p ≡ j = omega arith in rw (inside, off, e) refl

put_out : (p a : ℕ) (xs : List ℕ) (m : Memory) → within p (length xs) a ≡ false → put p xs m a ≡ m a
unfolding put
put_out p a xs m h = rw h refl

Received-step :
    (s : ℕ → ℕ) (p n : ℕ) (xs : List ℕ) (w w' : Wire)
    → Chunk s w.taken n xs
    → Received s (p + length xs) (n - length xs) (arrive p xs w) w'
    → Received s p n w w'
Received-step s p n xs w w' c r = record {
  bytes = λ j h. elim (Bool-cases (ltb j (length xs))) [
    | inl lt ↦
        r.kept (p + j) (let l = ltb→lt _ _ lt in ground arith)
        ∙ put_in p j (s (w.taken + j)) xs w.memory (ltb→lt _ _ lt) (c.next_bytes j (ltb→lt _ _ lt))
    | inr ge ↦
        let k : ℕ = j - length xs in
        let l : length xs ≤ j = ground arith in
        let e1 : p + length xs + k ≡ p + j = omega arith in
        let e2 : w.taken + length xs + k ≡ w.taken + j = omega arith in
        ap w'.memory (sym e1) ∙ r.bytes k (omega arith) ∙ ap s e2
  ];
  kept =
      λ a h. let l = c.bounded in r.kept a (ground arith) ∙ put_out p a xs w.memory (ground arith);
  taken = (let l = c.bounded in let t = r.taken in omega arith);
  connector = r.connector;
  sent = r.sent;
}

-- The same, at an equal place.
pub Received-cast :
    (s : ℕ → ℕ) {p p' n n' : ℕ} (w w' : Wire)
    → p ≡ p'
    → n ≡ n'
    → Received s p n w w'
    → Received s p' n' w w'
Received-cast s {p' = q} {n = k} w w' e f r =
    subst (λ n. Received s q n w w') f (subst (λ p. Received s p k w w') e r)

Received-step_at :
    (s : ℕ → ℕ) (p p' n n' : ℕ) (xs : List ℕ) (w w' : Wire)
    → Chunk s w.taken n xs
    → p' ≡ p + length xs
    → n' ≡ n - length xs
    → Received s p' n' (arrive p xs w) w'
    → Received s p n w w'
Received-step_at s p p' n n' xs w w' c e1 e2 r =
    Received-step s p n xs w w' c (Received-cast s (arrive p xs w) w' e1 e2 r)

Received-none : (s : ℕ → ℕ) (p n : ℕ) (w : Wire) → n ≡ 0 → Received s p n w w
Received-none s p n w e = record {
  bytes = λ j h. absurd (omega arith);
  kept = λ a h. refl;
  taken = omega arith;
  connector = refl;
  sent = refl;
}

module _ (net : Net) (p fuel total size : ℕ) (w : Wire) where
  force_more :
      (xs : List ℕ)
      → total < size
      → net.recv w.reads w.taken (size - total) ≡ some xs
      → 0 < length xs
      → force_loop net (suc fuel) total size p w
        ≡ force_loop net fuel (total + length xs) size p (arrive (p + total) xs w)
  unfolding force_loop
  force_more xs lt got h = ground arith

  force_done : size ≤ total → force_loop net (suc fuel) total size p w ≡ ok (total, w)
  unfolding force_loop
  force_done h = ground arith

  recv_more :
      (xs : List ℕ)
      → total < size
      → net.recv w.reads w.taken (size - total) ≡ some xs
      → 0 < length xs
      → recv_loop net (suc fuel) 0 total size p w
        ≡ recv_loop net fuel 0 (total + length xs) size p (arrive (p + total) xs w)
  unfolding recv_loop
  recv_more xs lt got h = ground arith

  recv_done : size ≤ total → recv_loop net (suc fuel) 0 total size p w ≡ ok (0, w)
  unfolding recv_loop
  recv_done h = ground arith

module _ (net : Net) (s : ℕ → ℕ) (stream : IsStream net s) (p : ℕ) where
  -- With the rounds that the missing bytes may take, the loop of recv_data_force ends with all of them, in
  -- order, and returns their number.
  pub force_loop-Received :
      (fuel total size : ℕ) (w : Wire)
      → total ≤ size
      → size - total < fuel
      → (w' : Wire) × (force_loop net fuel total size p w ≡ ok (size, w'))
        × Received s (p + total) (size - total) w w'
  force_loop-Received zero total size w h f = absurd (omega arith)
  force_loop-Received (suc fuel) total size w h f = elim (dec_lt total size) [
    | no ge ↦
        let eq : total ≡ size = omega arith in
        (
          w,
          force_done net p fuel total size w (omega arith) ∙ ap (λ t. ok (t, w)) eq,
          Received-none s (p + total) (size - total) w (omega arith),
        )
    | yes lt ↦
        let (xs, got, c) = stream w.reads w.taken (size - total) (omega arith) in
        let l = c.some_bytes in
        let m = c.bounded in
        let (w', e, r) =
          force_loop-Received fuel (total + length xs) size (arrive (p + total) xs w) (omega arith)
            (omega arith) in
        (
          w',
          force_more net p fuel total size w xs lt got l ∙ e,
          Received-step_at s (p + total) (p + (total + length xs)) (size - total)
              (size - (total + length xs)) xs w w' c (omega arith) (omega arith) r,
        )
  ]

  -- The loop of recv_data does the same, and returns 0.
  pub recv_loop-Received :
      (fuel total size : ℕ) (w : Wire)
      → total ≤ size
      → size - total < fuel
      → (w' : Wire) × (recv_loop net fuel 0 total size p w ≡ ok (0, w'))
        × Received s (p + total) (size - total) w w'
  recv_loop-Received zero total size w h f = absurd (omega arith)
  recv_loop-Received (suc fuel) total size w h f = elim (dec_lt total size) [
    | no ge ↦ (
      w,
      recv_done net p fuel total size w (omega arith),
      Received-none s (p + total) (size - total) w (omega arith),
    )
    | yes lt ↦
        let (xs, got, c) = stream w.reads w.taken (size - total) (omega arith) in
        let l = c.some_bytes in
        let m = c.bounded in
        let (w', e, r) =
          recv_loop-Received fuel (total + length xs) size (arrive (p + total) xs w) (omega arith)
            (omega arith) in
        (
          w',
          recv_more net p fuel total size w xs lt got l ∙ e,
          Received-step_at s (p + total) (p + (total + length xs)) (size - total)
              (size - (total + length xs)) xs w w' c (omega arith) (omega arith) r,
        )
  ]
