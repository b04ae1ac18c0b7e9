-- ===== src/Session/Defaults/Receives.antt =====
-- How many requests the default callbacks post.
use rdma_comm_core.Prelude.{
  ℕ, ◌≡◌, true, false, Bool-cases, inl, inr, ◌&&◌, Option, none, some, ◌==◌, if◌then◌else◌, ok,
  check, or_undefined, bind_ensures,
}
use rdma_comm_core.Verbs.{Verbs, Wc}
use rdma_comm_core.Buffer.{Block}
use rdma_comm_core.Device.Post.{key_of}
use rdma_comm_core.Adapter.{CommDescriptor}
use rdma_comm_core.Channel.{Channel, find_peer_buffer, insert_peer_buffer}
use rdma_comm_core.Tcp.{load}
use rdma_comm_core.Session.Defaults.{
  Runtime, Scene, active, query, present, deref, fill, call_recv, call_send, on_request, on_sync,
  on_other, default_process_recv_done, default_process_write_done, default_process_read_done,
  request_exchange_key, test_for_sync_data, descriptor_size,
}
use rdma_comm_core.Session.Defaults.Calls.{
  Posts, Posts-trans, call_recv-Posts, call_send-Posts, call_read-Posts, call_write-Posts,
  fill-Posts,
}

module _ (v : Verbs) (rt : Runtime) (c : Channel) (recv send : Block) (s s' : Scene) where
  on_request-Posts :
      (write : Option ℕ) → on_request v rt c recv send write s ≡ ok s' → Posts 1 2 s s'
  unfolding on_request
  on_request-Posts write e =
      (bind_ensures Q (call_recv v recv recv.buffer_size s₀) _ λ (s₁ : Scene) e₁.
          bind_ensures Q (call_send v send _ _ s₁) _ λ (s₂ : Scene) e₂.
            bind_ensures Q (deref write s₂) _ λ (w : Block) _.
              bind_ensures Q (fill rt w _ s₂) _ λ (s₃ : Scene) e₃ out e₄.
                let first : Posts 1 0 s s₁ =
                  (let p = call_recv-Posts v recv recv.buffer_size s₀ s₁ e₁ in
                    record { received = p.received; sent = p.sent }) in
                Posts-trans first (
                  Posts-trans (call_send-Posts v send _ s₁ s₂ _ e₂) (
                    Posts-trans (fill-Posts rt w _ s₂ s₃ e₃)
                      (call_write-Posts v w _ s₃ out _ _ _ e₄))))
        s' e
    where
      peer : CommDescriptor
      peer = record (rt.decode (load recv.data_ptr descriptor_size s.memory)) { fd = 0 }

      s₀ : Scene
      s₀ = record s {
        host = record (s.host) {
          channel = (insert_peer_buffer "rw_sink_buffer_for_test" peer c).1;
        };
      }

      Q : Scene → Type 0
      Q x = Posts 1 2 s x

  on_sync-Posts : on_sync v rt c recv send s ≡ ok s' → Posts 1 1 s s'
  unfolding on_sync
  on_sync-Posts e =
      (bind_ensures Q (call_recv v recv recv.buffer_size s) _ λ (s₁ : Scene) e₁.
          bind_ensures Q (deref (query "read_write_sink_buffer_for_test@" c) s₁) _
            λ (sink : Block) _. bind_ensures Q (key_of v.rkey sink.mr) _ λ (rkey : ℕ) _.
              bind_ensures Q
                (fill rt send
                  (rt.encode (record {
                    buffer_addr = sink.data_ptr;
                    buffer_length = sink.buffer_size;
                    rkey = rkey;
                    fd = 0;
                  }))
                  s₁)
                _
                λ (s₂ : Scene) e₂ out e₃.
                  Posts-trans (call_recv-Posts v recv recv.buffer_size s s₁ e₁) (
                    Posts-trans (fill-Posts rt send _ s₁ s₂ e₂)
                      (call_send-Posts v send descriptor_size s₂ out request_exchange_key e₃)))
        s' e
    where
      Q : Scene → Type 0
      Q x = Posts 1 1 s x

  on_other-Posts : on_other v rt c recv send s ≡ ok s' → Posts 1 1 s s'
  unfolding on_other
  on_other-Posts e =
      (bind_ensures Q (call_recv v recv recv.buffer_size s) _ λ (s₁ : Scene) e₁.
          bind_ensures Q (fill rt send _ s₁) _ λ (s₂ : Scene) e₂ out e₃.
            Posts-trans (call_recv-Posts v recv recv.buffer_size s s₁ e₁)
              (Posts-trans (fill-Posts rt send _ s₁ s₂ e₂) (call_send-Posts v send _ s₂ out _ e₃)))
        s' e
    where
      Q : Scene → Type 0
      Q x = Posts 1 1 s x

module _ (v : Verbs) (rt : Runtime) (wc : Wc) (s s' : Scene) where
  -- For a receive that has completed, the default callback posts exactly one new receive, so that the peer
  -- always finds as many as before, and one request of its own; for a request of the keys it posts two.
  pub default_process_recv_done-Posts :
      default_process_recv_done v rt wc s ≡ ok s'
      → Posts 1 (if wc.imm_data == request_exchange_key then 2 else 1) s s'
  unfolding default_process_recv_done
  default_process_recv_done-Posts e =
      (bind_ensures Q (active wc s) _ λ (c : Channel) _.
          bind_ensures Q
            (check (
              present (query "recv_buffer_for_test@" c)
              && present (query "send_buffer_for_test@" c)))
            _
            λ _ _. bind_ensures Q (deref (query "recv_buffer_for_test@" c) s) _ λ (recv : Block) _.
              bind_ensures Q (deref (query "send_buffer_for_test@" c) s) _ λ (send : Block) _.
                bind_ensures Q (check wc.with_imm) _ λ _ _ out f.
                  elim (Bool-cases (wc.imm_data == request_exchange_key)) [
                    | inl q ↦ rw q (
                        on_request-Posts v rt c recv send s out (query "write_buffer_for_test@" c)
                          (rw q at f))
                    | inr q ↦ elim (Bool-cases (wc.imm_data == test_for_sync_data)) [
                      | inl y ↦ rw q (on_sync-Posts v rt c recv send s out (rw (q, y) at f))
                      | inr y ↦ rw q (on_other-Posts v rt c recv send s out (rw (q, y) at f))
                    ]
                  ])
        s' e
    where
      Q : Scene → Type 0
      Q x = Posts 1 (if wc.imm_data == request_exchange_key then 2 else 1) s x

  -- For a write that has completed, the default callback posts one read.
  pub default_process_write_done-Posts :
      default_process_write_done v rt wc s ≡ ok s' → Posts 0 1 s s'
  unfolding default_process_write_done
  default_process_write_done-Posts e =
      (bind_ensures Q (active wc s) _ λ (c : Channel) _.
          bind_ensures Q
            (check (elim (find_peer_buffer "rw_sink_buffer_for_test" c) [
              | none ↦ false
              | some d ↦ true
            ]))
            _
            λ _ _.
              bind_ensures Q (or_undefined (find_peer_buffer "rw_sink_buffer_for_test" c)) _
                λ (peer : CommDescriptor) _.
                  bind_ensures Q
                    (check (
                      present (query "recv_buffer_for_test@" c)
                      && present (query "read_buffer_for_test@" c)))
                    _
                    λ _ _.
                      bind_ensures Q (deref (query "read_buffer_for_test@" c) s) _
                        λ (read : Block) _ out f.
                          let p = call_read-Posts v read read.buffer_size _ out peer f in
                          record { received = p.received; sent = p.sent })
        s' e
    where
      Q : Scene → Type 0
      Q x = Posts 0 1 s x

  -- For a read that has completed, the default callback posts one write.
  pub default_process_read_done-Posts : default_process_read_done v rt wc s ≡ ok s' → Posts 0 1 s s'
  unfolding default_process_read_done
  default_process_read_done-Posts e =
      (bind_ensures Q (active wc s) _ λ (c : Channel) _.
          bind_ensures Q
            (check (
              present (query "write_buffer_for_test@" c)
              && present (query "read_buffer_for_test@" c)))
            _
            λ _ _.
              bind_ensures Q (deref (query "write_buffer_for_test@" c) s) _ λ (write : Block) _.
                bind_ensures Q
                  (check (elim (find_peer_buffer "rw_sink_buffer_for_test" c) [
                    | none ↦ false
                    | some d ↦ true
                  ]))
                  _
                  λ _ _.
                    bind_ensures Q (or_undefined (find_peer_buffer "rw_sink_buffer_for_test" c)) _
                      λ (peer : CommDescriptor) _.
                        bind_ensures Q (fill rt write _ s) _ λ (s₁ : Scene) e₁ out f.
                          Posts-trans (fill-Posts rt write _ s s₁ e₁)
                            (call_write-Posts v write _ s₁ out peer _ _ f))
        s' e
    where
      Q : Scene → Type 0
      Q x = Posts 0 1 s x
