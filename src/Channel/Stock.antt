-- ===== src/Channel/Stock.antt =====
-- A buffer that was allocated and registered.
use mathlib.Core.Path.{subst}
use rdma_comm_core.Prelude.{
  ℕ, zero, suc, ◌+◌, ◌*◌, ◌^◌, ◌≤◌, ◌<◌, ◌≡◌, ◌≢◌, refl, sym, ap, ◌∙◌, String, some, List, [], ◌∷◌,
  length, get_elem?, All, arith, ok, ok-injective,
}
use rdma_comm_core.Prelude.Int.{size_mod}
use rdma_comm_core.Memory.{Memory}
use rdma_comm_core.Verbs.{Verbs}
use rdma_comm_core.Buffer.{Block, Buffer, allocate_buffer}
use rdma_comm_core.Buffer.Ring.{used}
use rdma_comm_core.Buffer.Layout.{IsAllocated, allocate_buffer-IsAllocated, IsAllocated-IsRing}
use rdma_comm_core.Channel.{Host, share, register_buffer}
use rdma_comm_core.Channel.Register.{register_buffer-Registered}
use rdma_comm_core.Adapter.Transfer.Stock.{IsFit, IsStock}

-- A block of that size that has memory.
abbrev IsPlaced : ℕ → Block → Type 0
IsPlaced size s = (0 < s.data_ptr) × (s.buffer_size ≡ size)

All-of_get_elem? {ℓ κ} :
    {A : Type ℓ} (P : A → Type κ) (xs : List A)
    → ((i : ℕ) → i < length xs → (a : A) × (get_elem? xs i ≡ some a) × P a)
    → All P xs
All-of_get_elem? P [] h = tt
All-of_get_elem? P (x ∷ xs) h =
    let (a, e, p) = h 0 (omega arith) in
    (subst P (cc) p, All-of_get_elem? P xs (λ i lt. h (suc i) (omega arith)))

module _ (owner mr size : ℕ) (some_size : 0 < size) (some_owner : 0 < owner)
    (some_mr : 0 < mr) where
  share-IsFit : (ss : List Block) → All (IsPlaced size) ss → All (IsFit size) (share owner mr ss)
  unfolding share
  share-IsFit [] h = tt
  share-IsFit (s ∷ ss) h =
      let (placed, exact) = h.0 in
      (
        record {
          postable = record {
            filled = omega arith;
            placed = placed;
            owned = some_owner;
            registered = some_mr;
          };
          exact = exact;
        },
        share-IsFit ss h.1,
      )

  length-share : (ss : List Block) → length (share owner mr ss) ≡ length ss
  unfolding share
  length-share [] = refl
  length-share (s ∷ ss) = ap suc (length-share ss)

  share_used :
      (ss : List Block) (i : ℕ) → used (get_elem? (share owner mr ss) i) ≡ used (get_elem? ss i)
  unfolding share
  share_used [] i = refl
  share_used (s ∷ ss) zero = refl
  share_used (s ∷ ss) (suc i) = share_used ss i

-- A newly allocated buffer that is registered is a free ring of blocks fit for a request.
pub registered-IsStock :
    (v : Verbs) (name : ℕ → String) (a bytes count p : ℕ) (info : String) (b : Buffer) (h h' : Host)
    → IsAllocated name a bytes count info b
    → 0 < a
    → 0 < bytes
    → 0 < count
    → 0 < h.channel.this
    → h.buffers p ≡ some b
    → register_buffer v p h ≡ ok h'
    → (b' : Buffer) × (h'.buffers p ≡ some b')
      × IsStock bytes count b' 0 0
      × (h'.channel.adapter ≡ h.channel.adapter)
      × ((q : ℕ) → p ≢ q → h'.buffers q ≡ h.buffers q)
registered-IsStock v name a bytes count p info b h h' made pa pb pc this was e =
    let (b₀, b', r) = register_buffer-Registered v p h h' e in
    let same : b₀ ≡ b = (let w : h.buffers p ≡ some b₀ = r.was in cc) in
    let (mr, ne, eq) = r.shape in
    let ring = IsAllocated-IsRing made pc in
    let owner = h.channel.this in
    let eq' =
      eq
      ∙ ap
          (λ (x : Buffer). record x {
            head = record (x.head) { owned_by_channel = owner; mr = mr };
            buffer_mgr = share owner mr x.buffer_mgr;
          })
          same in
    let placed : All (IsPlaced bytes) b.buffer_mgr =
      All-of_get_elem? (IsPlaced bytes) b.buffer_mgr (λ i lt.
        let (s, g, c) = made.tiled i lt in let q = c.placed in (s, g, (omega arith, c.sized))) in
    (
      b',
      r.now,
      subst (λ x. IsStock bytes count x 0 0) (sym eq')
          (record {
            ring = record {
              count = ring.count;
              sized = length-share owner mr bytes pb this (omega arith) b.buffer_mgr ∙ ring.sized;
              some_blocks = pc;
              room = ring.room;
              handed = ring.handed;
              taken = ring.taken;
              flags = λ i lt.
                  share_used owner mr bytes pb this (omega arith) b.buffer_mgr i ∙ ring.flags i lt;
            };
            fit =
                (omega arith, share-IsFit owner mr bytes pb this (omega arith) b.buffer_mgr placed);
          }),
      r.adapter,
      r.elsewhere,
    )

-- What an allocation that returns gives, in memory that fits.
pub allocated :
    (name : ℕ → String) (a bytes count : ℕ) (info : String) (m : Memory) (r : Buffer × Memory)
    → 0 < a
    → 0 < bytes
    → 0 < count
    → count < 2 ^ 31
    → a + count * bytes ≤ size_mod
    → allocate_buffer name (some a) bytes count info m ≡ ok r
    → IsAllocated name a bytes count info r.0
allocated name a bytes count info m r pa pb pc few fits e =
    let (b, e', made) = allocate_buffer-IsAllocated name a bytes count info m pa pb pc few fits in
    let same : b ≡ r.0 = ap (λ (x : Buffer × Memory). x.0) (ok-injective (sym e' ∙ e)) in
    subst (IsAllocated name a bytes count info) same made
