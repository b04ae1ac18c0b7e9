-- ===== src/Adapter/Loading/Total.antt =====
-- An adapter that a willing library loads.
use mathlib.Core.Path.{subst}
use Prim.Native.String.{len}
use rdma_comm_core.Prelude.{
  ℕ, ◌^◌, ◌≤◌, ◌<◌, ◌≡◌, ◌≢◌, refl, sym, ap, ◌∙◌, String, true, false, Bool-cases, inl, inr, none,
  some, ◌∷◌, length, arith, bind_returns, ok, find,
}
use rdma_comm_core.Prelude.Int.{pos}
use rdma_comm_core.Verbs.{Verbs, Trace, alloc_pd}
use rdma_comm_core.Device.{Device, World, get_device, register_adapter}
use rdma_comm_core.Device.Queues.{get_device_shared}
use rdma_comm_core.Adapter.{Adapter, AdapterInfo, info, get_id}
use rdma_comm_core.Adapter.Loading.{
  choose_cq, init_attr_of, create_pd, create_compt_channel, update_my_adapter_info, allocate,
  loading,
}
use rdma_comm_core.Adapter.Loading
use rdma_comm_core.Adapter.Loading.Steps.{
  Serves, Gives, create_pd_total, create_compt_channel_total, create_cq_total, create_qp_total,
  update_my_adapter_info_total, register_adapter_keeps,
}

-- What a loading asks of an adapter and of the device it names: nothing is allocated yet, the library gives
-- what is asked for, the port is one of the device's, and the completion queue has a key, which is new if
-- the queue is not to be shared.
pub record IsLoadable (v : Verbs) (a : Adapter) (w : World) (d : Device) (p : ℕ) : Type 0 where
  pub first : a.resource_is_allocated ≡ false
  pub here : a.this ≢ 0
  pub no_pd : a.pd ≡ 0
  pub no_qp : a.qp ≡ 0
  pub found : find a.config.dev_name w.device_map ≡ some d
  pub gives : Gives v d.ib_ctx
  pub counted : d.phys_port_cnt ≡ length d.ports_attrs
  pub port : a.config.ib_port ≡ pos p
  pub in_range : (0 < p) × (p ≤ length d.ports_attrs) × (p < 2 ^ 8)
  pub name : (0 < len (info a)) × (len (info a) < 108)
  pub shared : a.config.using_shared_cq ≡ true → len a.config.cq_key ≢ 0
  pub own : a.config.using_shared_cq ≡ false → find (info a) d.reg_cqs ≡ none

module _ (v : Verbs) (fuel : ℕ) (a : Adapter) (w : World) (d : Device) (p : ℕ)
    (c : IsLoadable v a w d p) where
  -- The adapter after the choice of its queue's key, which `chosen` says has been made.
  allocate_total :
      (b : Adapter)
      → choose_cq a ≡ ok b
      → (b.this ≡ a.this) × (b.pd ≡ a.pd) × (b.qp ≡ a.qp) × (info b ≡ info a)
      → (b.config.dev_name ≡ a.config.dev_name) × (b.config.ib_port ≡ a.config.ib_port)
      → len b.config.cq_key ≢ 0
      → (b.config.using_shared_cq ≡ false → find b.config.cq_key d.reg_cqs ≡ none)
      → (r : AdapterInfo × Adapter × World) × (allocate v fuel a w ≡ ok r)
  unfolding allocate info get_id
  allocate_total b chosen same names named own =
      let name : String = b.config.dev_name in
      let found : find name w.device_map ≡ some d =
        ap (λ n. find n w.device_map) names.0 ∙ c.found in
      let here : b.this ≢ 0 = (let x = c.here in let y = same.0 in omega arith) in
      let d' : Device = (register_adapter b.this d).1 in
      let keep = register_adapter_keeps b.this d in
      let (w₁, e₁, _, f₁, _) = get_device_shared v name fuel b.this d w found here in
      let serves₁ : Serves d.ib_ctx d.ports_attrs name w₁ = record {
        device = d';
        found = f₁;
        handle = keep.0;
        known = keep.1;
        counted = keep.2 ∙ c.counted;
      } in
      let b₁ : Adapter = record b { rdma_device = some name } in
      let (pd, e₂) =
        create_pd_total v d.ib_ctx d.ports_attrs name c.gives b₁ w₁ (same.1 ∙ c.no_pd) refl
          serves₁ in
      let w₂ : World = record w₁ { trace = alloc_pd d.ib_ctx ∷ w₁.trace } in
      let b₂ : Adapter = record b₁ { pd = pd } in
      let (chan, t₃, e₃) =
        create_compt_channel_total v d.ib_ctx d.ports_attrs name c.gives b₂ w₂ refl
          (elsewhere d' w₁ w₂.trace serves₁.found keep.0 keep.1 (keep.2 ∙ c.counted)) in
      let w₃ : World = record w₂ { trace = t₃ } in
      let b₃ : Adapter = record b₂ { event_channel = chan } in
      let (cq, w₄, e₄, serves₄) =
        create_cq_total v d.ib_ctx d.ports_attrs name c.gives b₃ w₃ refl
          (elsewhere d' w₁ t₃ serves₁.found keep.0 keep.1 (keep.2 ∙ c.counted)) named
          (λ off. ap (find b.config.cq_key) keep.3 ∙ own off) in
      let b₄ : Adapter = record b₃ { used_cq = cq } in
      let (qp, t₅, ne, e₅) =
        create_qp_total v d.ib_ctx d.ports_attrs name c.gives b₄ w₄ (same.2 ∙ c.no_qp) refl
          serves₄ in
      let b₅ : Adapter = record b₄ { qp = qp } in
      let w₅ : World = record w₄ { trace = t₅ } in
      let (r, e₆) =
        update_my_adapter_info_total v d.ib_ctx d.ports_attrs name c.gives b₅ w₅ p ne refl
          (elsewhere serves₄.device w₄ t₅ serves₄.found serves₄.handle serves₄.known
            serves₄.counted)
          (names.1 ∙ c.port) c.in_range.0 c.in_range.1 c.in_range.2
          (subst (λ n. len n < 108) (sym same.3) c.name.1) in
      bind_returns (choose_cq a) _ chosen (
        bind_returns (get_device v fuel name b.this w) _ e₁ (
          bind_returns (create_pd v b₁ w₁) _ e₂ (
            bind_returns (create_compt_channel v b₂ w₂) _ e₃ (
              bind_returns (Loading.create_cq v b₃ w₃) _ e₄ (
                bind_returns (Loading.create_qp v b₄ w₄) _ e₅
                  (bind_returns (update_my_adapter_info v b₅ w₅) _ e₆ (_, refl)))))))
    where
      elsewhere :
          (k : Device) (u : World) (t : Trace)
          → find b.config.dev_name u.device_map ≡ some k
          → k.ib_ctx ≡ d.ib_ctx
          → k.ports_attrs ≡ d.ports_attrs
          → k.phys_port_cnt ≡ length d.ports_attrs
          → Serves d.ib_ctx d.ports_attrs b.config.dev_name (record u { trace = t })
      elsewhere k u t f e g h = record { device = k; found = f; handle = e; known = g; counted = h }

  -- A loading of an adapter that is loadable returns.
  pub loading_total : (r : AdapterInfo × Adapter × World) × (loading v fuel a w ≡ ok r)
  unfolding loading choose_cq info get_id
  loading_total = elim (Bool-cases a.config.using_shared_cq) [
    | inl on ↦
        let (r, e) =
          allocate_total a (let x = c.shared on in ground arith) (refl, refl, refl, refl)
            (refl, refl) (c.shared on) (λ off. absurd (ground arith)) in
        (r, let f = c.first in ground arith)
    | inr off ↦
        let b : Adapter = record a { config = record (a.config) { cq_key = info a } } in
        let (r, e) =
          allocate_total b (ground arith) (refl, refl, refl, refl) (refl, refl)
            (let x = c.name.0 in omega arith) (λ z. c.own off) in
        (r, let f = c.first in ground arith)
  ]
