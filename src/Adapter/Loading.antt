-- ===== src/Adapter/Loading.antt =====
-- RDMAAdapter::loading and the methods that it calls, src/rdma_adapter.cc: an adapter takes a device
-- and allocates its protection domain, completion queue and queue pair, once.
pub mod Result
pub mod Steps
pub mod Queue
pub mod Shared
pub mod Total
use Prim.Native.String.{len}
use rdma_comm_core.Prelude.{
  ℕ, ◌-◌, ◌≡◌, String, Bool, true, false, not, ◌||◌, Option, none, some, ◌==◌, ltb, if◌then◌else◌,
  Outcome, ok, ◌>>=◌, ◌>>◌, check,
}
use rdma_comm_core.Prelude.Int.{ℤ, to_u8, to_u32}
use rdma_comm_core.Verbs.{Verbs, QpInitAttr}
use rdma_comm_core.Device.{
  World, get_device, create_event_channel, create_protected_domain, create_completion_queue,
  create_queue_pair, query_gid, get_port_attr, has_created_cq,
}
use rdma_comm_core.Adapter.{
  Adapter, AdapterConfig, AdapterInfo, resource_allocated, info, device_of, put_device,
}

-- The choice of the completion queue's key.
unfoldable pub choose_cq : Adapter → Outcome Adapter
choose_cq a =
    if a.config.using_shared_cq
    then (check (not (len a.config.cq_key == 0)) >> ok a)
    else ok (record a { config = record (a.config) { cq_key = info a } })

unfoldable pub init_attr_of : Adapter → QpInitAttr
init_attr_of a = record {
  sq_sig_all = a.config.signal_all_wqe;
  send_cq = a.used_cq;
  recv_cq = a.used_cq;
  max_send_wr = a.config.max_send_wr;
  max_recv_wr = a.config.max_recv_wr;
  max_send_sge = a.config.max_send_sge;
  max_recv_sge = a.config.max_recv_sge;
  max_inline_data = 0;
}

module _ (v : Verbs) where
  unfoldable pub create_pd : Adapter → World → Outcome (Adapter × World)
  create_pd a w = do
    check (a.pd == 0)
    d ← device_of a w
    (pd, t) ← create_protected_domain v d w.trace
    ok (record a { pd = pd }, record w { trace = t })

  unfoldable pub create_compt_channel : Adapter → World → Outcome (Adapter × World)
  create_compt_channel a w =
      if a.config.use_event_channel
      then (do
        d ← device_of a w
        (chan, t) ← create_event_channel v d w.trace
        ok (record a { event_channel = chan }, record w { trace = t }))
      else ok (a, w)

  -- cq_size is below 2^31, so it is the same as an `int`.
  unfoldable pub create_cq : Adapter → World → Outcome (Adapter × World)
  create_cq a w = do
    check (not (len a.config.cq_key == 0))
    d ← device_of a w
    check (a.config.using_shared_cq || not (has_created_cq a.config.cq_key d))
    (cq, d', t) ←
        create_completion_queue v a.config.cq_key a.config.cq_size a.this a.event_channel 0 d
          w.trace
    ok (record a { used_cq = cq }, put_device a d' t w)

  unfoldable pub create_qp : Adapter → World → Outcome (Adapter × World)
  create_qp a w = do
    check (a.qp == 0)
    d ← device_of a w
    (qp, t) ← create_queue_pair v a.pd (init_attr_of a) w.trace
    ok (record a { qp = qp }, record w { trace = t })

  unfoldable pub update_my_adapter_info : Adapter → World → Outcome (Adapter × World)
  update_my_adapter_info a w = do
    d ← device_of a w
    (gid, t) ← query_gid v (to_u8 a.config.ib_port) (to_u8 a.config.gid_index) d w.trace
    check (not (a.qp == 0))
    attr ← get_port_attr (to_u32 a.config.ib_port) d
    let mtu = if ltb attr.active_mtu a.config.used_mtu then attr.active_mtu else a.config.used_mtu
    check (ltb (len (info a)) (128 - 20))
    let me : AdapterInfo = record {
      gid = gid;
      qp_num = v.qp_num a.qp;
      lid = attr.lid;
      link_layer = attr.link_layer;
      active_mtu = mtu;
      unique_id = info a;
    }
    ok (
      record a { self = me; config = record (a.config) { used_mtu = mtu } },
      record w { trace = t },
    )

  -- loading past its first test. `fuel` is for the loop over the ports of a device that is opened.
  unfoldable pub allocate : ℕ → Adapter → World → Outcome (AdapterInfo × Adapter × World)
  allocate fuel a w = do
    a₁ ← choose_cq a
    (key, w₁) ← get_device v fuel a₁.config.dev_name a₁.this w
    (a₂, w₂) ← create_pd (record a₁ { rdma_device = some key }) w₁
    (a₃, w₃) ← create_compt_channel a₂ w₂
    (a₄, w₄) ← create_cq a₃ w₃
    (a₅, w₅) ← create_qp a₄ w₄
    (a₆, w₆) ← update_my_adapter_info a₅ w₅
    let a₇ = record a₆ { status = resource_allocated; resource_is_allocated = true }
    ok (a₇.self, a₇, w₆)

  unfoldable pub loading : ℕ → Adapter → World → Outcome (AdapterInfo × Adapter × World)
  loading fuel a w = if a.resource_is_allocated then ok (a.self, a, w) else allocate fuel a w
