-- ===== src/Buffer/Schedule.antt =====
-- The blocks of a buffer over a whole run: any sequence of `next` and `last` calls against a queue.
use rdma_comm_core.Prelude.{
  ℕ, zero, suc, ◌+◌, ◌%◌, ◌≤◌, ◌<◌, ◌≡◌, refl, Option, none, some, List, [], ◌∷◌, ◌++◌, ltb,
  if◌then◌else◌, Bool-cases, inl, inr, ltb→lt, length, arith, Outcome, ok, ◌>>=◌,
}
use rdma_comm_core.Prelude.Int.{int_max}
use rdma_comm_core.Buffer.{Buffer, next, last}
use rdma_comm_core.Buffer.Window.{window, window-suc, length-window}
use rdma_comm_core.Buffer.Ring.{IsRing, next-IsRing, last-IsRing}

pub data Use : Type 0 where
  hand_out take_back : Use

abbrev pub call : Use → Buffer → Outcome (ℕ × Buffer)
call hand_out b = next b
call take_back b = last b

-- The indices that the calls return, and the buffer after them.
unfoldable pub run : List Use → Buffer → Outcome (List ℕ × Buffer)
run [] b = ok ([], b)
run (u ∷ us) b = call u b >>= λ r. run us r.1 >>= λ rest. ok (r.0 ∷ rest.0, rest.1)

-- The queue that the two calls implement: `n` blocks have been handed out, those of `queue` are out.
-- A client may take a block only while one is free, and give one back only while one is out.
unfoldable pub serve : ℕ → List Use → ℕ → List ℕ → Option (List ℕ)
serve blocks [] n queue = some []
serve blocks (hand_out ∷ us) n queue =
    let rest = serve blocks us (suc n) (queue ++ (n % blocks) ∷ []) in
    if ltb (length queue) blocks
    then elim rest [ none ↦ none | some is ↦ some ((n % blocks) ∷ is) ]
    else none
serve blocks (take_back ∷ us) n [] = none
serve blocks (take_back ∷ us) n (i ∷ queue) = elim (serve blocks us n queue) [
  | none ↦ none
  | some is ↦ some (i ∷ is)
]

serve_room :
    (n : ℕ) (us : List Use) (m : ℕ) (queue out : List ℕ)
    → serve n (hand_out ∷ us) m queue ≡ some out
    → length queue < n
unfolding serve
serve_room n us m queue out e = elim (Bool-cases (ltb (length queue) n)) [
  | inl lt ↦ ltb→lt _ _ lt
  | inr ge ↦ absurd (ground arith)
]

serve_hand_out :
    (n : ℕ) (us : List Use) (m : ℕ) (queue out : List ℕ)
    → serve n (hand_out ∷ us) m queue ≡ some out
    → (is : List ℕ) × (serve n us (suc m) (queue ++ (m % n) ∷ []) ≡ some is) × (out ≡ (m % n) ∷ is)
unfolding serve
serve_hand_out n us m queue out e = ground arith

serve_take_back :
    (n : ℕ) (us : List Use) (m i : ℕ) (queue out : List ℕ)
    → serve n (take_back ∷ us) m (i ∷ queue) ≡ some out
    → (is : List ℕ) × (serve n us m queue ≡ some is) × (out ≡ i ∷ is)
unfolding serve
serve_take_back n us m i queue out e = ground arith

-- A well-used buffer answers as the queue does: what the queue admits, the calls do, with the indices
-- of the queue.
pub run_refines :
    (n : ℕ) (us : List Use) (b : Buffer) (l k : ℕ) (out : List ℕ)
    → IsRing n b l k
    → l + k + length us ≤ int_max
    → serve n us (l + k) (window n l k) ≡ some out
    → (b' : Buffer) × (run us b ≡ ok (out, b'))
unfolding run
run_refines n [] b l k out r h e = (b, unfold serve in ground arith)
run_refines n (hand_out ∷ us) b l k out r h e =
    let lt = serve_room n us (l + k) (window n l k) out e in
    let (is, e', o) = serve_hand_out n us (l + k) (window n l k) out e in
    let (b', c, r', _) =
      next-IsRing n b l k r (let s = length-window n l k in omega arith) (omega arith) in
    let p : suc (l + k) ≡ l + suc k = omega arith in
    let (b'', c') =
      run_refines n us b' l (suc k) is r' (omega arith) (rw (window-suc n l k, ← p) e') in
    (b'', rw (c, c', o) refl)
run_refines n (take_back ∷ us) b l zero out r h e = absurd (unfold serve window in cc)
run_refines n (take_back ∷ us) b l (suc k) out r h e =
    let (is, e', o) =
      serve_take_back n us (l + suc k) (l % n) (window n (suc l) k) out (unfold window in e) in
    let (b', c, r', _) = last-IsRing n b l k r (omega arith) in
    let p : l + suc k ≡ suc l + k = omega arith in
    let (b'', c') = run_refines n us b' (suc l) k is r' (omega arith) (rw p at e') in
    (b'', rw (c, c', o) refl)
