-- ===== src/Adapter/Loading/Steps.antt =====
-- The steps of RDMAAdapter::loading on a device of the table and a library that gives what is asked for.
use Prim.Native.String.{len}
use rdma_comm_core.Prelude.{
  ℕ, ◌-◌, ◌^◌, ◌≤◌, ◌<◌, ◌≡◌, ◌≢◌, refl, ap, ◌∙◌, String, true, false, Bool-cases, inl, inr, none,
  some, Option-cases, List, ◌∷◌, length, get_elem?, get_elem?-lt, arith, Outcome-cases, ok,
  same_self, find, assign, find-assign,
}
use rdma_comm_core.Prelude.Int.{pos, to_u8}
use rdma_comm_core.Verbs.{
  Verbs, Trace, Call, PortAttr, QpInitAttr, query_gid, create_comp_channel, alloc_pd, create_cq,
  create_qp,
}
use rdma_comm_core.Device.{
  Device, World, get_device, find_or_create, register_adapter, create_protected_domain,
  create_event_channel, create_completion_queue, create_queue_pair, has_created_cq, get_port_attr,
}
use rdma_comm_core.Device
use rdma_comm_core.Adapter.{Adapter, info}
use rdma_comm_core.Adapter.Loading.{
  choose_cq, init_attr_of, create_pd, create_compt_channel, update_my_adapter_info, allocate,
  loading,
}
use rdma_comm_core.Adapter.Loading

-- The table has a device under the key, with that handle and those ports.
pub record Serves (ctx : ℕ) (ports : List PortAttr) (key : String) (w : World) : Type 0 where
  pub device : Device
  pub found : find key w.device_map ≡ some device
  pub handle : device.ib_ctx ≡ ctx
  pub known : device.ports_attrs ≡ ports
  pub counted : device.phys_port_cnt ≡ length ports

-- A library that gives the resources of the device `ctx`.
pub record Gives (v : Verbs) (ctx : ℕ) : Type 0 where
  pub pds : (t : Trace) → v.answer t (alloc_pd ctx) ≢ 0
  pub channels : (t : Trace) → v.answer t (create_comp_channel ctx) ≢ 0
  pub cqs : (t : Trace) (n x chan : ℕ) → v.answer t (create_cq ctx n x chan 0) ≢ 0
  pub qps : (t : Trace) (pd : ℕ) (attr : QpInitAttr) → v.answer t (create_qp pd attr) ≢ 0
  pub gids : (t : Trace) (p i : ℕ) → v.answer t (query_gid ctx p i) ≡ 0

module _ (v : Verbs) (ctx : ℕ) (ports : List PortAttr) (key : String) (gives : Gives v ctx) where
  pub create_pd_total :
      (a : Adapter) (w : World)
      → a.pd ≡ 0
      → a.rdma_device ≡ some key
      → Serves ctx ports key w
      → (pd : ℕ) × (create_pd v a w
          ≡ ok (record a { pd = pd }, record w { trace = alloc_pd ctx ∷ w.trace }))
  unfolding create_pd create_protected_domain
  create_pd_total a w none_yet dev s =
      (v.answer w.trace (alloc_pd ctx), ground (arith, gives.pds w.trace, s.found, s.handle))

  pub create_compt_channel_total :
      (a : Adapter) (w : World)
      → a.rdma_device ≡ some key
      → Serves ctx ports key w
      → (chan : ℕ) × (t : Trace) × (create_compt_channel v a w
          ≡ ok (record a { event_channel = chan }, record w { trace = t }))
  unfolding create_compt_channel create_event_channel
  create_compt_channel_total a w dev s = elim (Bool-cases a.config.use_event_channel) [
    | inl on ↦ (
      v.answer w.trace (create_comp_channel ctx),
      create_comp_channel ctx ∷ w.trace,
      ground (arith, gives.channels w.trace, s.found, s.handle),
    )
    | inr off ↦ (a.event_channel, w.trace, ground arith)
  ]

  pub create_cq_total :
      (a : Adapter) (w : World)
      → a.rdma_device ≡ some key
      → (s : Serves ctx ports key w) → len a.config.cq_key ≢ 0
      → (a.config.using_shared_cq ≡ false → find a.config.cq_key s.device.reg_cqs ≡ none)
      → (cq : ℕ) × (w' : World) × (Loading.create_cq v a w ≡ ok (record a { used_cq = cq }, w'))
        × Serves ctx ports key w'
  unfolding Loading.create_cq create_completion_queue has_created_cq
  create_cq_total a w dev s named own =
      elim (Option-cases (find a.config.cq_key s.device.reg_cqs)) [
        | inr (cq, old) ↦
            let shared : a.config.using_shared_cq ≡ true =
              elim (Bool-cases a.config.using_shared_cq) [
                | inl on ↦ on
                | inr off ↦ absurd (let e = own off in cc)
              ] in
            (
              cq,
              record w { device_map = assign key s.device w.device_map },
              ground (arith, s.found),
              served s.device s.handle s.known s.counted w.trace,
            )
        | inl fresh ↦
            let call : Call = create_cq ctx a.config.cq_size a.this a.event_channel 0 in
            let d : Device = record (s.device) {
              reg_cqs = assign a.config.cq_key (v.answer w.trace call) s.device.reg_cqs;
            } in
            (
              v.answer w.trace call,
              record { device_map = assign key d w.device_map; trace = call ∷ w.trace },
              ground (
                arith,
                s.found,
                s.handle,
                gives.cqs w.trace a.config.cq_size a.this a.event_channel,
              ),
              served d s.handle s.known s.counted (call ∷ w.trace),
            )
      ]
    where
      served :
          (d : Device)
          → d.ib_ctx ≡ ctx
          → d.ports_attrs ≡ ports
          → d.phys_port_cnt ≡ length ports
          → (t : Trace)
          → Serves ctx ports key (record { device_map = assign key d w.device_map; trace = t })
      served d e f g t = record {
        device = d;
        found = find-assign key key d w.device_map ∙ rw (same_self key) refl;
        handle = e;
        known = f;
        counted = g;
      }

  pub create_qp_total :
      (a : Adapter) (w : World)
      → a.qp ≡ 0
      → a.rdma_device ≡ some key
      → Serves ctx ports key w
      → (qp : ℕ) × (t : Trace) × (qp ≢ 0)
        × (Loading.create_qp v a w ≡ ok (record a { qp = qp }, record w { trace = t }))
  unfolding Loading.create_qp create_queue_pair
  create_qp_total a w none_yet dev s = (
    v.answer w.trace (create_qp a.pd (init_attr_of a)),
    create_qp a.pd (init_attr_of a) ∷ w.trace,
    gives.qps w.trace a.pd (init_attr_of a),
    ground (arith, gives.qps w.trace a.pd (init_attr_of a), s.found),
  )

  pub update_my_adapter_info_total :
      (a : Adapter) (w : World) (p : ℕ)
      → a.qp ≢ 0
      → a.rdma_device ≡ some key
      → Serves ctx ports key w
      → a.config.ib_port ≡ pos p
      → 0 < p
      → p ≤ length ports
      → p < 2 ^ 8
      → len (info a) < 108
      → (r : Adapter × World) × (update_my_adapter_info v a w ≡ ok r)
  unfolding update_my_adapter_info Device.query_gid get_port_attr
  update_my_adapter_info_total a w p has_qp dev s at lo hi byte short =
      let (attr, e) = get_elem?-lt ports (p - 1) (omega arith) in
      let e' : get_elem? s.device.ports_attrs (p - 1) ≡ some attr =
        ap (λ ps. get_elem? ps (p - 1)) s.known ∙ e in
      let n : length s.device.ports_attrs ≡ length ports = ap length s.known in
      elim (Outcome-cases (update_my_adapter_info v a w)) [
        | inl r ↦ r
        | inr (f, bad) ↦ absurd (
            ground (
              arith,
              gives.gids w.trace (to_u8 a.config.ib_port) (to_u8 a.config.gid_index),
              s.found,
              s.handle,
              s.counted,
            ))
      ]

pub register_adapter_keeps :
    (x : ℕ) (d : Device)
    → ((register_adapter x d).1.ib_ctx ≡ d.ib_ctx)
      × ((register_adapter x d).1.ports_attrs ≡ d.ports_attrs)
      × ((register_adapter x d).1.phys_port_cnt ≡ d.phys_port_cnt)
      × ((register_adapter x d).1.reg_cqs ≡ d.reg_cqs)
unfolding register_adapter
register_adapter_keeps x d = ground arith
