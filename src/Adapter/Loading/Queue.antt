-- ===== src/Adapter/Loading/Queue.antt =====
-- What the steps of RDMAAdapter::loading do to the completion queues of the devices.
use rdma_comm_core.Prelude.{
  ℕ, ◌≡◌, refl, sym, ap, ◌∙◌, String, inl, inr, some, Option-cases, arith, Outcome-cases, ok,
  same_self, find, assign, find-assign,
}
use rdma_comm_core.Verbs.{Verbs}
use rdma_comm_core.Device.{
  Device, World, get_device, find_or_create, register_adapter, create_protected_domain,
  create_event_channel, create_completion_queue, create_queue_pair,
}
use rdma_comm_core.Device.Queues.{create_completion_queue-CqCreated}
use rdma_comm_core.Adapter.Loading.Steps.{register_adapter_keeps}
use rdma_comm_core.Adapter.{Adapter}
use rdma_comm_core.Adapter.Loading.{
  create_pd, create_compt_channel, create_cq, create_qp, update_my_adapter_info,
}

-- The device `name` has the queue `cq` under the key.
pub record HasCq (name key : String) (cq : ℕ) (w : World) : Type 0 where
  pub device : Device
  pub found : find name w.device_map ≡ some device
  pub queue : find key device.reg_cqs ≡ some cq

-- A step that leaves the devices alone, and of the adapter what the choice of its queue rests on.
pub record Quiet (a : Adapter) (w : World) (r : Adapter × World) : Type 0 where
  pub map : r.1.device_map ≡ w.device_map
  pub dev : r.0.rdma_device ≡ a.rdma_device
  pub key : r.0.config.cq_key ≡ a.config.cq_key
  pub used : r.0.used_cq ≡ a.used_cq

module _ (v : Verbs) (a : Adapter) (w : World) (r : Adapter × World) where
  pub create_pd-Quiet : create_pd v a w ≡ ok r → Quiet a w r
  unfolding create_pd create_protected_domain
  create_pd-Quiet e = ground arith

  pub create_compt_channel-Quiet : create_compt_channel v a w ≡ ok r → Quiet a w r
  unfolding create_compt_channel create_event_channel
  create_compt_channel-Quiet e = ground arith

  pub create_qp-Quiet : create_qp v a w ≡ ok r → Quiet a w r
  unfolding create_qp create_queue_pair
  create_qp-Quiet e = ground arith

  pub update_my_adapter_info-Quiet : update_my_adapter_info v a w ≡ ok r → Quiet a w r
  unfolding update_my_adapter_info
  update_my_adapter_info-Quiet e = ground arith

  pub create_cq-HasCq :
      (name : String)
      → a.rdma_device ≡ some name
      → create_cq v a w ≡ ok r
      → HasCq name a.config.cq_key r.0.used_cq r.1
        × ((cq : ℕ) → HasCq name a.config.cq_key cq w → r.0.used_cq ≡ cq)
  unfolding create_cq
  create_cq-HasCq name dev e = elim (Option-cases (find name w.device_map)) [
    | inl gone ↦ absurd (ground arith)
    | inr (d, at) ↦
        elim (Outcome-cases (
          create_completion_queue v a.config.cq_key a.config.cq_size a.this a.event_channel 0 d
            w.trace)) [
              | inr (f, bad) ↦ absurd (ground arith)
              | inl (m, eq) ↦
                  let c =
                    create_completion_queue-CqCreated v a.config.cq_key a.config.cq_size a.this
                      a.event_channel 0 d w.trace m.0 m.1 m.2 eq in
                  let cq-eq : r.0.used_cq ≡ m.0 = ground arith in
                  let map-eq : r.1.device_map ≡ assign name m.1 w.device_map = ground arith in
                  (
                    record {
                      device = m.1;
                      found =
                          ap (find name) map-eq
                          ∙ find-assign name name m.1 w.device_map
                          ∙ rw (same_self name) refl;
                      queue = c.found ∙ ap some (sym cq-eq);
                    },
                    λ cq h.
                        let d-eq : h.device ≡ d =
                          (let f : find name w.device_map ≡ some h.device = h.found in cc) in
                        cq-eq
                        ∙ (c.reused cq (
                            ap (λ (x : Device). find a.config.cq_key x.reg_cqs) (sym d-eq)
                            ∙ h.queue)).0,
                  )
            ]
  ]

pub get_device-HasCq :
    (v : Verbs) (fuel adapter cq : ℕ) (name key : String) (w : World) (r : String × World)
    → get_device v fuel name adapter w ≡ ok r
    → (r.0 ≡ name) × (HasCq name key cq w → HasCq name key cq r.1)
unfolding get_device find_or_create
get_device-HasCq v fuel adapter cq name key w r e = elim (Option-cases (find name w.device_map)) [
  | inl none_yet ↦
      (ground arith, λ h. absurd (let f : find name w.device_map ≡ some h.device = h.found in cc))
  | inr (d, at) ↦ (
    ground arith,
    λ h.
        let d-eq : h.device ≡ d =
          (let f : find name w.device_map ≡ some h.device = h.found in cc) in
        let k = (register_adapter adapter d).1 in
        let map-eq : r.1.device_map ≡ assign name k w.device_map = ground arith in
        record {
          device = k;
          found =
              ap (find name) map-eq
              ∙ find-assign name name k w.device_map
              ∙ rw (same_self name) refl;
          queue =
              ap (find key) (register_adapter_keeps adapter d).3
              ∙ ap (λ (x : Device). find key x.reg_cqs) (sym d-eq)
              ∙ h.queue;
        },
  )
]

pub moved :
    (name key : String) (cq : ℕ) (w u : World)
    → u.device_map ≡ w.device_map
    → HasCq name key cq w
    → HasCq name key cq u
moved name key cq w u e h = record {
  device = h.device;
  found = ap (find name) e ∙ h.found;
  queue = h.queue;
}
