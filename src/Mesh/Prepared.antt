-- ===== src/Mesh/Prepared.antt =====
-- The buffers of a channel after they were allocated and registered.
use mathlib.Core.Path.{subst}
use rdma_comm_core.Prelude.{
  some-injective, ℕ, ◌+◌, ◌*◌, ◌≤◌, ◌<◌, ◌≡◌, ◌≢◌, sym, ap, ◌∙◌, String, some, none, arith, ok,
  ok-injective, >>=-eq-ok, or_undefined, or_undefined_eq,
}
use rdma_comm_core.Prelude.Int.{pos, size_mod}
use rdma_comm_core.Verbs.{Verbs}
use rdma_comm_core.Buffer.{allocate_buffer}
use rdma_comm_core.Channel.{Channel, Host, store, register_buffer}
use rdma_comm_core.Channel.Registry.{store_here, store_there}
use rdma_comm_core.Adapter.{Adapter, CommDescriptor}
use rdma_comm_core.Adapter.Transfer.Stock.{IsStock}
use rdma_comm_core.Mesh.{Lane, Shared, num_block, block_size, send_name, recv_name, prepare}
use rdma_comm_core.Mesh.Lanes.{IsLane}
use rdma_comm_core.Channel.Stock.{registered-IsStock, allocated}

-- What a lane is before its receives are posted: both buffers are free rings of registered blocks, and no request
-- is in flight on the channel.
pub prepare-IsLane :
    (v : Verbs) (names : String → ℕ → String) (a b p q : ℕ) (unset : CommDescriptor) (index : ℕ)
    (c : Channel) (s s' : Shared) (x : Lane)
    → 0 < a
    → 0 < b
    → a + num_block * block_size ≤ size_mod
    → b + num_block * block_size ≤ size_mod
    → p ≢ q
    → 0 < c.this
    → c.sq_inflight ≡ pos 0
    → c.rq_inflight ≡ pos 0
    → prepare v names (some a) (some b) p q unset index c s ≡ ok (x, s')
    → IsLane x 0 0 0 0 0 × (x.channel.qp ≡ c.adapter.qp)
unfolding prepare
prepare-IsLane v names a b p q unset index c s s' x pa pb fa fb apart this sq rq e =
    let ((b₁, m₁), e₁, f₁) =
      >>=-eq-ok (allocate_buffer (names send_name) (some a) block_size num_block send_name s.memory)
        _ e in
    let made₁ =
      allocated (names send_name) a block_size num_block send_name s.memory (b₁, m₁) pa
        (omega arith) (omega arith) (omega arith) fa e₁ in
    let h₀ : Host = record {
      channel = c;
      buffers = store p (some b₁) (λ _. none);
      world = s.world;
    } in
    let (h₁, e₂, f₂) = >>=-eq-ok (register_buffer v p h₀) _ f₁ in
    let (c₁, now₁, stock₁, same₁, _) =
      registered-IsStock v (names send_name) a block_size num_block p send_name b₁ h₀ h₁ made₁ pa
        (omega arith) (omega arith) this (store_here p (some b₁) (λ _. none)) e₂ in
    let ((b₂, m₂), e₃, f₃) =
      >>=-eq-ok (allocate_buffer (names recv_name) (some b) block_size num_block recv_name m₁) _
        f₂ in
    let made₂ =
      allocated (names recv_name) b block_size num_block recv_name m₁ (b₂, m₂) pb (omega arith)
        (omega arith) (omega arith) fb e₃ in
    let h₁' : Host = record h₁ { buffers = store q (some b₂) h₁.buffers } in
    let (h₂, e₄, f₄) = >>=-eq-ok (register_buffer v q h₁') _ f₃ in
    let (c₂, now₂, stock₂, same₂, other) =
      registered-IsStock v (names recv_name) b block_size num_block q recv_name b₂ h₁' h₂ made₂ pb
        (omega arith) (omega arith) (subst (λ (y : Adapter). 0 < y.this) (sym same₁) this)
        (store_here q (some b₂) h₁.buffers) e₄ in
    let (send, e₅, f₅) = >>=-eq-ok (or_undefined (h₂.buffers p)) _ f₄ in
    let (recv, e₆, f₆) = >>=-eq-ok (or_undefined (h₂.buffers q)) _ f₅ in
    let first : h₂.buffers p ≡ some c₁ =
      other p (λ r. apart (sym r))
      ∙ store_there q p (some b₂) h₁.buffers (λ r. apart (sym r))
      ∙ now₁ in
    let send_is : c₁ ≡ send = some-injective (sym first ∙ or_undefined_eq e₅) in
    let recv_is : c₂ ≡ recv = some-injective (sym now₂ ∙ or_undefined_eq e₆) in
    let channel_is : h₂.channel.adapter ≡ c.adapter = same₂ ∙ same₁ in
    subst (λ (r : Lane × Shared). IsLane r.0 0 0 0 0 0 × (r.0.channel.qp ≡ c.adapter.qp))
      (ok-injective f₆)
      (
        record {
          sending = subst (λ y. IsStock block_size num_block y 0 0) send_is stock₁;
          receiving = subst (λ y. IsStock block_size num_block y 0 0) recv_is stock₂;
          sq = ap (λ (y : Adapter). y.sq_inflight) channel_is ∙ sq;
          rq = ap (λ (y : Adapter). y.rq_inflight) channel_is ∙ rq;
        },
        ap (λ (y : Adapter). y.qp) channel_is,
      )
