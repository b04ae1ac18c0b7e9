-- ===== src/Mesh/Ready.antt =====
-- The lanes of a tower when it starts to poll.
mod Tests
use mathlib.Core.Path.{subst}
use rdma_comm_core.Prelude.{
  ℕ, zero, suc, ◌+◌, ◌*◌, ◌≡◌, refl, String, Option, List, [], ◌∷◌, ◌==◌, leb, length, All, arith,
  Outcome, ok, ◌>>=◌, ◌>>◌, check,
}
use rdma_comm_core.Memory.{Memory}
use rdma_comm_core.Verbs.{Verbs}
use rdma_comm_core.Adapter.{Adapter, CommDescriptor}
use rdma_comm_core.Channel.{Channel}
use rdma_comm_core.Tcp.{Net, Wire}
use rdma_comm_core.Endpoint.{Frame, sync_with_peer}
use rdma_comm_core.Session.Defaults.Calls.{receives}
use rdma_comm_core.Mesh.{Lane, Shared, Site, num_block, prepare, post_receives, process_rounds}
use rdma_comm_core.Mesh.Server.{server}
use rdma_comm_core.Mesh.Client.{client, ask_for_buffer}
use rdma_comm_core.Mesh.Lanes.{IsLane, IsWilling}
use rdma_comm_core.Mesh.Posting.{post_receives-IsLane}
use rdma_comm_core.Prelude.{◌∙◌, some, ◌≤◌, ◌<◌, ◌≢◌, sym, ap, ok-injective, >>=-eq-ok}
use rdma_comm_core.Prelude.Int.{pos, size_mod}
use rdma_comm_core.Mesh.{block_size}
use rdma_comm_core.Mesh.Prepared.{prepare-IsLane}
use rdma_comm_core.Mesh.Start.{Equipment, prepare_each, post_each, sync_each, start}

-- Memory for both buffers, which are objects of their own, and a new channel whose queue pair takes every request.
pub record IsEquipped (v : Verbs) (q : Equipment) : Type 0 where
  pub send_at : ℕ
  pub recv_at : ℕ
  pub send_is : q.memory_send ≡ some send_at
  pub recv_is : q.memory_recv ≡ some recv_at
  pub send_fits : (0 < send_at) × (send_at + num_block * block_size ≤ size_mod)
  pub recv_fits : (0 < recv_at) × (recv_at + num_block * block_size ≤ size_mod)
  pub apart : q.place_send ≢ q.place_recv
  pub this : 0 < q.channel.this
  pub idle : (q.channel.sq_inflight ≡ pos 0) × (q.channel.rq_inflight ≡ pos 0)
  pub willing : IsWilling v q.channel.qp

module _ (v : Verbs) (names : String → ℕ → String) (frame : Frame) (fuel : ℕ) where
  -- Where the lanes are new and the library takes every request, all blocks to receive into of all lanes are posted.
  post_each-AllLanes :
      (xs : List Lane) (s : Shared)
      → All (λ (x : Lane). IsLane x 0 0 0 0 0 × IsWilling v x.channel.qp) xs
      → (xs' : List Lane) × (s' : Shared) × (post_each v names frame fuel xs s ≡ ok (xs', s'))
        × All (λ (x : Lane). IsLane x 0 0 0 num_block num_block) xs'
        × (length xs' ≡ length xs)
        × (receives s'.world.trace ≡ receives s.world.trace + length xs * num_block)
  unfolding post_each
  post_each-AllLanes [] s h = ([], s, refl, tt, refl, omega arith)
  post_each-AllLanes (x ∷ xs) s h =
      let (x', s₁, posted, lane, moved, _) =
        post_receives-IsLane v num_block x s 0 0 0 0 h.0.0 h.0.1 (omega arith) (omega arith) in
      let (xs', s₂, rest, all, same, sum) = post_each-AllLanes xs s₁ h.1 in
      let first = moved.received in
      (x' ∷ xs', s₂, rw (posted, rest) refl, (lane, all), ap suc same, omega arith)

  prepare_each-AllLanes :
      (i : ℕ) (qs : List Equipment) (xs : List Lane) (s s' : Shared)
      → All (IsEquipped v) qs
      → prepare_each v names frame fuel i qs s ≡ ok (xs, s')
      → All (λ (x : Lane). IsLane x 0 0 0 0 0 × IsWilling v x.channel.qp) xs
        × (length xs ≡ length qs)
  unfolding prepare_each
  prepare_each-AllLanes i [] xs s s' h e =
      let none_made : [] ≡ xs = ap (λ (r : List Lane × Shared). r.0) (ok-injective e) in
      subst
        (λ ys.
          All (λ (x : Lane). IsLane x 0 0 0 0 0 × IsWilling v x.channel.qp) ys × (length ys ≡ 0))
        none_made (tt, refl)
  prepare_each-AllLanes i (q ∷ qs) xs s s' h e =
      let g = h.0 in
      let ((x, s₁), e₁, f₁) =
        >>=-eq-ok
          (prepare v names q.memory_send q.memory_recv q.place_send q.place_recv q.unset i q.channel
            s)
          _ e in
      let e₁' : prepare v names (some g.send_at) (some g.recv_at) q.place_send q.place_recv q.unset
            i q.channel s
          ≡ ok (x, s₁) =
        ap (λ m. prepare v names m (some g.recv_at) q.place_send q.place_recv q.unset i q.channel s)
          (sym g.send_is)
        ∙ ap (λ m. prepare v names q.memory_send m q.place_send q.place_recv q.unset i q.channel s)
            (sym g.recv_is)
        ∙ e₁ in
      let (lane, qp) =
        prepare-IsLane v names g.send_at g.recv_at q.place_send q.place_recv q.unset i q.channel s
          s₁ x g.send_fits.0 g.recv_fits.0 g.send_fits.1 g.recv_fits.1 g.apart g.this g.idle.0
          g.idle.1 e₁' in
      let ((ys, s₂), e₂, f₂) = >>=-eq-ok (prepare_each v names frame fuel (i + 1) qs s₁) _ f₁ in
      let (all, same) = prepare_each-AllLanes (i + 1) qs ys s₁ s₂ h.1 e₂ in
      subst
        (λ (r : List Lane × Shared).
          All (λ (y : Lane). IsLane y 0 0 0 0 0 × IsWilling v y.channel.qp) r.0
          × (length r.0 ≡ length (q ∷ qs)))
        (ok-injective f₂) (((lane, subst (IsWilling v) (sym qp) g.willing), all), ap suc same)

  -- When the preparation of a tower returns, for new channels that have memory for their buffers and whose queue
  -- pairs take every request, there is a lane for each channel: all its blocks to receive into are posted, and
  -- all its blocks to send from are free.
  pub start-AllLanes :
      (qs : List Equipment) (xs : List Lane) (s s' : Shared)
      → All (IsEquipped v) qs
      → start v names frame fuel qs s ≡ ok (xs, s')
      → All (λ (x : Lane). IsLane x 0 0 0 num_block num_block) xs × (length xs ≡ length qs)
  unfolding start
  start-AllLanes qs xs s s' h e =
      let ((ys, s₁), e₁, f₁) = >>=-eq-ok (prepare_each v names frame fuel 0 qs s) _ e in
      let (new, count) = prepare_each-AllLanes 0 qs ys s s₁ h e₁ in
      let (zs, s₂, posted, all, same, _) = post_each-AllLanes ys s₁ new in
      let (r, e₂, f₂) = >>=-eq-ok (post_each v names frame fuel ys s₁) _ f₁ in
      let r-eq : (zs, s₂) ≡ r = ok-injective (sym posted ∙ e₂) in
      let (m, e₃, f₃) = >>=-eq-ok (sync_each v names frame fuel qs r.1.memory) _ f₂ in
      let end : zs ≡ xs =
        ap (λ (p : List Lane × Shared). p.0) r-eq
        ∙ ap (λ (p : List Lane × Shared). p.0) (ok-injective f₃) in
      subst
        (λ ws. All (λ (x : Lane). IsLane x 0 0 0 num_block num_block) ws × (length ws ≡ length qs))
        end (all, same ∙ count)
