-- ===== src/Mesh/Stream.antt =====
-- The client's flow: it reads the peer's descriptor from the block that the response came into, and then keeps
-- writes in flight.
use mathlib.Core.Path.{subst}
use rdma_comm_core.Prelude.{
  ℕ, zero, suc, ◌+◌, ◌%◌, ◌≤◌, ◌≡◌, refl, sym, ap, ◌∙◌, true, some, List, ◌∷◌, ◌==◌, arith, ok,
  get_elem?,
}
use rdma_comm_core.Prelude.Int.{pos, int_max}
use rdma_comm_core.Verbs.{Verbs, Wc, post_send}
use rdma_comm_core.Buffer.{Block, Buffer}
use rdma_comm_core.Adapter.{Adapter, CommDescriptor}
use rdma_comm_core.Adapter.Transfer.Stock.{
  IsStock, place, next-place, last-place, next-IsStock, last-IsStock,
}
use rdma_comm_core.Tcp.{load}
use rdma_comm_core.Mesh.{
  Lane, Shared, num_block, block_size, descriptor_size, response_to_request_buffer, last_recv,
  next_recv,
}
use rdma_comm_core.Mesh.Client.{on_recv, on_write, write_blocks}
use rdma_comm_core.Mesh.Lanes.{
  IsLane, IsWilling, decrease_sqe_lem, decrease_rqe_lem, last_send_lem, write_next_lem, counted,
  called,
}
use rdma_comm_core.Mesh.Service.{Moved}

module _ (v : Verbs) where
  -- `m` free blocks are written.
  write_blocks-IsLane :
      (m : ℕ) (x : Lane) (s : Shared) (ls js lr jr jq : ℕ)
      → IsLane x ls js lr jr jq
      → IsWilling v x.channel.qp
      → js + m ≤ num_block
      → ls + (js + m) ≤ int_max
      → block_size ≤ x.peer_comm.buffer_length
      → (x' : Lane) × (s' : Shared) × (write_blocks v m (x, s) ≡ ok (x', s'))
        × IsLane x' ls (js + m) lr jr jq
        × (x'.peer_comm ≡ x.peer_comm)
        × Moved 0 m x x' s s'
  unfolding write_blocks
  write_blocks-IsLane zero x s ls js lr jr jq h w lt room far = (
    x,
    s,
    refl,
    subst (λ (y : ℕ). IsLane x ls y lr jr jq) (omega arith) h,
    refl,
    record { received = omega arith; sent = omega arith; same_qp = refl; same_this = refl },
  )
  write_blocks-IsLane (suc m) x s ls js lr jr jq h w lt room far =
      let (r, wr, wrote, h') =
        write_next_lem v x s ls js w h.sending (omega arith) (omega arith) h.sq far in
      let x₁ : Lane = record x { tensor_send = r; channel = counted x.channel (js + 1) } in
      let s₁ : Shared = called s s.memory (post_send x.channel.qp wr ∷ s.world.trace) in
      let h₁ : IsLane x₁ ls (suc js) lr jr jq = record {
        sending = h';
        receiving = h.receiving;
        sq = ap pos (omega arith);
        rq = h.rq;
      } in
      let (x₂, s₂, rest, h₂, same, m₂) =
        write_blocks-IsLane m x₁ s₁ ls (suc js) lr jr jq h₁ w (omega arith) (omega arith) far in
      (
        x₂,
        s₂,
        rw wrote rest,
        subst (λ (y : ℕ). IsLane x₂ ls y lr jr jq) (omega arith) h₂,
        same,
        record {
          received = m₂.received;
          sent = (let q = m₂.sent in omega arith);
          same_qp = m₂.same_qp;
          same_this = m₂.same_this;
        },
      )

  -- A completed write frees a block, and the next one is written: as many are in flight as before.
  pub on_write-IsLane :
      (x : Lane) (s : Shared) (ls js lr jr jq : ℕ)
      → IsLane x ls (suc js) lr jr jq
      → IsWilling v x.channel.qp
      → ls + suc js ≤ int_max
      → block_size ≤ x.peer_comm.buffer_length
      → (x' : Lane) × (s' : Shared) × (on_write v (x, s) ≡ ok (x', s'))
        × IsLane x' (suc ls) (suc js) lr jr jq
        × (x'.peer_comm ≡ x.peer_comm)
        × Moved 0 1 x x' s s'
  unfolding on_write
  on_write-IsLane x s ls js lr jr jq h w room far =
      let full = h.sending.ring.room in
      let a : Adapter = counted x.channel js in
      let (r, took, h₁) = last_send_lem (record x { channel = a }) ls js h.sending (omega arith) in
      let y : Lane = record x { channel = a; tensor_send = r } in
      let (q, wr, wrote, h₂) =
        write_next_lem v y s (suc ls) js w h₁ (omega arith) (omega arith) refl far in
      (
        record y { tensor_send = q; channel = counted a (js + 1) },
        called s s.memory (post_send x.channel.qp wr ∷ s.world.trace),
        rw (decrease_sqe_lem x.channel js h.sq, took) wrote,
        record { sending = h₂; receiving = h.receiving; sq = ap pos (omega arith); rq = h.rq },
        refl,
        record { received = omega arith; sent = omega arith; same_qp = refl; same_this = refl },
      )

-- On a buffer whose blocks are all posted, the block that is given back and taken again is the one posted first.
same_block :
    (x : Lane) (l p : ℕ)
    → IsStock block_size num_block x.tensor_recv l num_block
    → l + num_block ≤ int_max
    → place x.tensor_recv.buffer_mgr (l % num_block) ≡ some p
    → (r r' : Buffer) × (b : Block) × (last_recv x ≡ ok (record x { tensor_recv = r }))
      × (next_recv (record x { tensor_recv = r }) ≡ ok (b, record x { tensor_recv = r' }))
      × (b.data_ptr ≡ p)
      × IsStock block_size num_block r' (suc l) num_block
same_block x l p h room at =
    let (r, e, h₁) = last-IsStock block_size num_block x.tensor_recv l 127 h (omega arith) in
    let (b, r', e', g, f, h₂) =
      next-IsStock block_size num_block r (suc l) 127 h₁ (omega arith) (omega arith) in
    let there : place r'.buffer_mgr (l % num_block) ≡ some p =
      next-place r ((suc l + 127) % num_block) r' e' (l % num_block)
      ∙ last-place x.tensor_recv (l % num_block) r e (l % num_block)
      ∙ at in
    let i : (suc l + 127) % num_block ≡ l % num_block = omega arith in
    let g' : get_elem? r'.buffer_mgr (l % num_block) ≡ some b =
      subst (λ (y : ℕ). get_elem? r'.buffer_mgr y ≡ some b) i g in
    (r, r', b, rw e refl, rw (e', g) refl, ground arith, h₂)

module _ (v : Verbs) (decode : List ℕ → CommDescriptor) where
  pub on_recv-IsLane :
      (wc : Wc) (x : Lane) (s : Shared) (ls js lr p : ℕ)
      → IsLane x ls js lr num_block num_block
      → IsWilling v x.channel.qp
      → (wc.imm_data == response_to_request_buffer) ≡ true
      → js ≤ 1
      → ls + num_block ≤ int_max
      → lr + num_block ≤ int_max
      → place x.tensor_recv.buffer_mgr (lr % num_block) ≡ some p
      → block_size ≤ (decode (load p descriptor_size s.memory)).buffer_length
      → (x' : Lane) × (s' : Shared) × (on_recv v decode wc (x, s) ≡ ok (x', s'))
        × IsLane x' ls (js + 127) (suc lr) num_block 127
        × (x'.peer_comm ≡ decode (load p descriptor_size s.memory))
        × Moved 0 127 x x' s s'
  unfolding on_recv
  on_recv-IsLane wc x s ls js lr p h w imm few room₁ room₂ at far =
      let a : Adapter = record (x.channel) { rq_inflight = pos 127 } in
      let x₀ : Lane = record x { channel = a } in
      let (r, r', b, took, again, here, h₁) = same_block x₀ lr p h.receiving room₂ at in
      let x₁ : Lane = record x₀ {
        tensor_recv = r';
        peer_comm = decode (load b.data_ptr descriptor_size s.memory);
      } in
      let far' : block_size ≤ x₁.peer_comm.buffer_length =
        subst (λ (q : ℕ). block_size ≤ (decode (load q descriptor_size s.memory)).buffer_length)
          (sym here) far in
      let h₂ : IsLane x₁ ls js (suc lr) num_block 127 = record {
        sending = h.sending;
        receiving = h₁;
        sq = h.sq;
        rq = refl;
      } in
      let (x₂, s₂, wrote, h₃, same, m) =
        write_blocks-IsLane v 127 x₁ s ls js (suc lr) num_block 127 h₂ w (omega arith) (omega arith)
          far' in
      (
        x₂,
        s₂,
        rw (decrease_rqe_lem x.channel 127 h.rq, took, imm, again) wrote,
        h₃,
        same ∙ ap (λ (q : ℕ). decode (load q descriptor_size s.memory)) here,
        record {
          received = m.received;
          sent = m.sent;
          same_qp = m.same_qp;
          same_this = m.same_this;
        },
      )
