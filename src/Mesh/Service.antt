-- ===== src/Mesh/Service.antt =====
-- The server's flow: every block to receive into stays posted, and a block to send from is in use for each
-- answer whose completion has not come yet.
use mathlib.Core.Path.{subst}
use rdma_comm_core.Prelude.{
  ℕ, suc, ◌+◌, ◌≤◌, ◌<◌, ◌≡◌, refl, sym, ap, ◌∙◌, true, false, List, [], ◌∷◌, ◌++◌, ◌==◌, All,
  arith, ok, ◌>>=◌, bind_assoc,
}
use rdma_comm_core.Prelude.Int.{pos, int_max}
use rdma_comm_core.Verbs.{Verbs, Wc, WcOpcode, post_send, post_recv}
use rdma_comm_core.Adapter.{Adapter, CommDescriptor}
use rdma_comm_core.Session.Defaults.Calls.{sends, receives}
use rdma_comm_core.Mesh.{
  Lane, Shared, Switch, num_block, request_buffer, on_send, on_lane, process_batch,
}
use rdma_comm_core.Mesh.Server.{on_recv}
use rdma_comm_core.Mesh.Lanes.{
  IsLane, IsWilling, decrease_sqe_lem, decrease_rqe_lem, last_send_lem, last_recv_lem,
  answer_request_lem, receive_again_lem, counted, called,
}

-- From one site to another: `r` receives and `k` sends were posted, and the channel is the same but for its
-- counts.
pub record Moved (r k : ℕ) (x x' : Lane) (s s' : Shared) : Type 0 where
  pub received : receives s'.world.trace ≡ receives s.world.trace + r
  pub sent : sends s'.world.trace ≡ sends s.world.trace + k
  pub same_qp : x'.channel.qp ≡ x.channel.qp
  pub same_this : x'.channel.this ≡ x.channel.this

pub Moved-trans :
    {r k r' k' r'' k'' : ℕ} {x x' x'' : Lane} {s s' s'' : Shared}
    → r + r' ≡ r''
    → k + k' ≡ k''
    → Moved r k x x' s s'
    → Moved r' k' x' x'' s' s''
    → Moved r'' k'' x x'' s s''
Moved-trans e f p q = record {
  received = (let a = p.received in let b = q.received in omega arith);
  sent = (let a = p.sent in let b = q.sent in omega arith);
  same_qp = q.same_qp ∙ p.same_qp;
  same_this = q.same_this ∙ p.same_this;
}

-- The completion of a send frees a block and is counted.
pub on_send-IsLane :
    (x : Lane) (s : Shared) (ls js lr jr jq : ℕ)
    → IsLane x ls (suc js) lr jr jq
    → ls ≤ int_max
    → (x' : Lane) × (on_send (x, s) ≡ ok (x', s))
      × IsLane x' (suc ls) js lr jr jq
      × Moved 0 0 x x' s s
unfolding on_send
on_send-IsLane x s ls js lr jr jq h room =
    let y : Lane = record x { channel = counted x.channel js } in
    let (r, took, h') = last_send_lem y ls js h.sending room in
    (
      record y { tensor_send = r },
      rw (decrease_sqe_lem x.channel js h.sq, took) refl,
      record { sending = h'; receiving = h.receiving; sq = refl; rq = h.rq },
      record { received = omega arith; sent = omega arith; same_qp = refl; same_this = refl },
    )

module _ (v : Verbs) (encode : CommDescriptor → List ℕ) where
  -- A request is answered, and its block is posted again: all the blocks are posted before and after.
  pub on_recv-IsLane :
      (wc : Wc) (x : Lane) (s : Shared) (ls js lr : ℕ)
      → IsLane x ls js lr num_block num_block
      → IsWilling v x.channel.qp
      → (wc.imm_data == request_buffer) ≡ true
      → js < num_block
      → ls + js ≤ int_max
      → lr + num_block ≤ int_max
      → (x' : Lane) × (s' : Shared) × (on_recv v encode wc (x, s) ≡ ok (x', s'))
        × IsLane x' ls (suc js) (suc lr) num_block num_block
        × Moved 1 1 x x' s s'
  unfolding on_recv
  on_recv-IsLane wc x s ls js lr h willing asked lt room₁ room₂ =
      let (r, took, h₁) = last_recv_lem x lr 127 h.receiving (omega arith) in
      let a : Adapter = record (x.channel) { rq_inflight = pos 127 } in
      let y : Lane = record x { tensor_recv = r; channel = a } in
      let (q, m, wr, answered, h₂) =
        answer_request_lem v y s ls js willing encode h.sending lt room₁ h.sq in
      let z : Lane = record y { tensor_send = q; channel = counted a (js + 1) } in
      let s₁ : Shared = called s m (post_send x.channel.qp wr ∷ s.world.trace) in
      let (r', wr', again, h₃) =
        receive_again_lem v z s₁ (suc lr) 127 willing 127 h₁ (omega arith) (omega arith) refl
          (omega arith) in
      (
        record z { tensor_recv = r'; channel = record (z.channel) { rq_inflight = pos 128 } },
        called s₁ m (post_recv x.channel.qp wr' ∷ s₁.world.trace),
        rw (took, decrease_rqe_lem x.channel 127 h.rq, asked, answered, again) refl,
        record { sending = h₂; receiving = h₃; sq = ap pos (omega arith); rq = refl },
        record { received = omega arith; sent = omega arith; same_qp = refl; same_this = refl },
      )

-- The completion of a lane's channel is processed on that lane; no lane before it is of the same channel.
pub on_lane_at :
    (switch : Switch) (wc : Wc) (before : List Lane) (x : Lane) (after : List Lane) (s : Shared)
    → All (λ y. (wc.wr_id == y.channel.this) ≡ false) before
    → (wc.wr_id == x.channel.this) ≡ true
    → on_lane switch wc (before ++ x ∷ after) s
      ≡ (switch wc (x, s) >>= λ r. ok (before ++ r.0 ∷ after, r.1))
unfolding on_lane
on_lane_at switch wc [] x after s other here = rw (here, on_lane) refl
on_lane_at switch wc (y ∷ before) x after s other here =
    rw (other.0, on_lane)
      (ap (λ m. m >>= λ r. ok (y ∷ r.0, r.1)) (on_lane_at switch wc before x after s other.1 here)
        ∙ bind_assoc (switch wc (x, s)) _ _)

-- A good completion of an operation, for the channel at `this` and for none of the lanes `before`.
pub record IsFor (op : WcOpcode) (this : ℕ) (before : List Lane) (wc : Wc) : Type 0 where
  pub good : wc.success ≡ true
  pub operation : wc.opcode ≡ op
  pub here : (wc.wr_id == this) ≡ true
  pub other : All (λ y. (wc.wr_id == y.channel.this) ≡ false) before

-- One round of the loop over a batch, where the switch returns.
pub process_batch_step :
    (v : Verbs) (switch : Switch) (each : Adapter) (op : WcOpcode) (this : ℕ) (wc : Wc)
    (wcs : List Wc) (before after : List Lane) (x x' : Lane) (s s' : Shared)
    → IsFor op this before wc
    → x.channel.this ≡ this
    → switch wc (x, s) ≡ ok (x', s')
    → process_batch v switch each (wc ∷ wcs) (before ++ x ∷ after) s
      ≡ process_batch v switch each wcs (before ++ x' ∷ after) s'
unfolding process_batch
process_batch_step v switch each op this wc wcs before after x x' s s' f t e =
    let here : (wc.wr_id == x.channel.this) ≡ true =
      subst (λ (p : ℕ). (wc.wr_id == p) ≡ true) (sym t) f.here in
    rw (f.good, process_batch) (rw (on_lane_at switch wc before x after s f.other here, e) refl)
