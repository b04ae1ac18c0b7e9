-- ===== src/Adapter/Loading/Result.antt =====
-- What an adapter has after loading.
use rdma_comm_core.Prelude.{
  ℕ, ◌≤◌, ◌≡◌, ◌≢◌, sym, ap, ◌∙◌, String, true, false, Bool-cases, inl, inr, some, arith, ok,
  ok-injective, bind_ensures,
}
use rdma_comm_core.Verbs.{Verbs}
use rdma_comm_core.Device.{
  World, get_device, create_protected_domain, create_event_channel, create_completion_queue,
  create_queue_pair,
}
use rdma_comm_core.Adapter.{Adapter, AdapterInfo, resource_allocated, info, get_id}
use rdma_comm_core.Adapter.Loading.{
  choose_cq, create_pd, create_compt_channel, create_cq, create_qp, update_my_adapter_info,
  allocate, loading,
}

-- What every step of loading leaves alone.
record Keeps (a a' : Adapter) : Type 0 where
  mtu : a'.config.used_mtu ≡ a.config.used_mtu
  address : a'.this ≡ a.this
  name : a'.id ≡ a.id
  endpoint : a'.endpoint_id ≡ a.endpoint_id

Keeps-trans : {a b c : Adapter} → Keeps a b → Keeps b c → Keeps a c
Keeps-trans p q = record {
  mtu = q.mtu ∙ p.mtu;
  address = q.address ∙ p.address;
  name = q.name ∙ p.name;
  endpoint = q.endpoint ∙ p.endpoint;
}

choose_cq-Keeps : (a a' : Adapter) → choose_cq a ≡ ok a' → Keeps a a'
unfolding choose_cq
choose_cq-Keeps a a' e = ground arith

module _ (v : Verbs) (a : Adapter) (w : World) (r : Adapter × World) where
  create_pd-Keeps : create_pd v a w ≡ ok r → Keeps a r.0
  unfolding create_pd create_protected_domain
  create_pd-Keeps e = ground arith

  create_compt_channel-Keeps : create_compt_channel v a w ≡ ok r → Keeps a r.0
  unfolding create_compt_channel create_event_channel
  create_compt_channel-Keeps e = ground arith

  create_cq-Keeps : create_cq v a w ≡ ok r → Keeps a r.0
  unfolding create_cq create_completion_queue
  create_cq-Keeps e = ground arith

  create_qp-Keeps : create_qp v a w ≡ ok r → Keeps a r.0
  unfolding create_qp create_queue_pair
  create_qp-Keeps e = ground arith

  -- The last step: what it publishes of the adapter, and the path MTU that it settles on.
  record Published (a' : Adapter) : Type 0 where
    has_qp : a'.qp ≢ 0
    number : a'.self.qp_num ≡ v.qp_num a'.qp
    identity : a'.self.unique_id ≡ info a
    name : a'.id ≡ a.id
    endpoint : a'.endpoint_id ≡ a.endpoint_id
    agreed : a'.self.active_mtu ≡ a'.config.used_mtu
    within : a'.config.used_mtu ≤ a.config.used_mtu

  update_my_adapter_info-Published : update_my_adapter_info v a w ≡ ok r → Published r.0
  unfolding update_my_adapter_info
  update_my_adapter_info-Published e = ground arith

-- An adapter whose resources are allocated: it has a queue pair and publishes its number and its own
-- name, with the MTU that it uses, at most `limit`.
pub record IsLoaded (v : Verbs) (limit : ℕ) (a : Adapter) : Type 0 where
  pub allocated : a.resource_is_allocated ≡ true
  pub state : a.status ≡ resource_allocated
  pub has_qp : a.qp ≢ 0
  pub number : a.self.qp_num ≡ v.qp_num a.qp
  pub identity : a.self.unique_id ≡ info a
  pub agreed : a.self.active_mtu ≡ a.config.used_mtu
  pub within : a.config.used_mtu ≤ limit

-- The last step of a loading is update_my_adapter_info, on an adapter that differs from the first in
-- what the steps before have allocated.
abbrev Ends : Verbs → Adapter → AdapterInfo × Adapter × World → Type 0
Ends v a r =
    (b : Adapter) × (u : World) × (s : Adapter × World) × Keeps a b
    × (update_my_adapter_info v b u ≡ ok s)
    × (r.1 ≡ record (s.0) { status = resource_allocated; resource_is_allocated = true })
    × (r.0 ≡ s.0.self)

allocate-Ends :
    (v : Verbs) (fuel : ℕ) (a : Adapter) (w : World) (r : AdapterInfo × Adapter × World)
    → allocate v fuel a w ≡ ok r
    → Ends v a r
unfolding allocate
allocate-Ends v fuel a w = bind_ensures (Ends v a) (choose_cq a) _ λ a₁ e₁.
    bind_ensures (Ends v a) (get_device v fuel a₁.config.dev_name a₁.this w) _
      λ (g : String × World) e₂.
        bind_ensures (Ends v a) (create_pd v (record a₁ { rdma_device = some g.0 }) g.1) _
          λ (r₃ : Adapter × World) e₃.
            bind_ensures (Ends v a) (create_compt_channel v r₃.0 r₃.1) _
              λ (r₄ : Adapter × World) e₄.
                bind_ensures (Ends v a) (create_cq v r₄.0 r₄.1) _ λ (r₅ : Adapter × World) e₅.
                  bind_ensures (Ends v a) (create_qp v r₅.0 r₅.1) _ λ (r₆ : Adapter × World) e₆.
                    bind_ensures (Ends v a) (update_my_adapter_info v r₆.0 r₆.1) _
                      λ (r₇ : Adapter × World) e₇ r f.
                        let k₁ = choose_cq-Keeps a a₁ e₁ in
                        let k₂ : Keeps a (record a₁ { rdma_device = some g.0 }) = record {
                          mtu = k₁.mtu;
                          address = k₁.address;
                          name = k₁.name;
                          endpoint = k₁.endpoint;
                        } in
                        (
                          r₆.0,
                          r₆.1,
                          r₇,
                          Keeps-trans k₂ (
                              Keeps-trans
                                (create_pd-Keeps v (record a₁ { rdma_device = some g.0 }) g.1 r₃ e₃)
                                (Keeps-trans (create_compt_channel-Keeps v r₃.0 r₃.1 r₄ e₄) (
                                  Keeps-trans (create_cq-Keeps v r₄.0 r₄.1 r₅ e₅)
                                    (create_qp-Keeps v r₅.0 r₅.1 r₆ e₆)))),
                          e₇,
                          ap (λ (q : AdapterInfo × Adapter × World). q.1) (sym (ok-injective f)),
                          ap (λ (q : AdapterInfo × Adapter × World). q.0) (sym (ok-injective f)),
                        )

module _ (v : Verbs) (fuel : ℕ) (a : Adapter) (w : World) (i : AdapterInfo) (a' : Adapter)
    (w' : World) where
  -- A first loading that returns leaves the adapter loaded, under at most the MTU that it was configured
  -- for, and returns what the adapter publishes.
  pub loading-IsLoaded :
      loading v fuel a w ≡ ok (i, a', w')
      → a.resource_is_allocated ≡ false
      → IsLoaded v a.config.used_mtu a' × (i ≡ a'.self) × (a'.self.unique_id ≡ info a)
  unfolding loading info get_id
  loading-IsLoaded e first =
      let (b, u, r, k, e', o, s) = allocate-Ends v fuel a w (i, a', w') (ground arith) in
      let p = update_my_adapter_info-Published v b u r e' in
      ground (arith, k.mtu, k.name, k.endpoint, p, o, s)

-- A loading that has returned is done for good: any later one, in any world, makes no call, changes
-- nothing and returns the same.
pub loading_idempotent :
    (v : Verbs) (fuel fuel' : ℕ) (a : Adapter) (w : World) (i : AdapterInfo) (a' : Adapter)
    (w' u : World)
    → loading v fuel a w ≡ ok (i, a', w')
    → loading v fuel' a' u ≡ ok (i, a', u)
unfolding loading
loading_idempotent v fuel fuel' a w i a' w' u e = elim (Bool-cases a.resource_is_allocated) [
  | inl done ↦ ground arith
  | inr first ↦
      let (b, s, r, k, e', o, q) = allocate-Ends v fuel a w (i, a', w') (ground arith) in
      ground arith
]
