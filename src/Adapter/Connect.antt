-- ===== src/Adapter/Connect.antt =====
-- RDMAAdapter::connecting and the moves of the queue pair, src/rdma_adapter.cc.
pub mod Moves
use rdma_comm_core.Prelude.{
  ℕ, ◌%◌, ◌^◌, ◌≡◌, String, Bool, true, false, not, ◌||◌, Option, none, some, List, [], ◌∷◌, ◌==◌,
  same, if◌then◌else◌, Outcome, ok, ◌>>=◌, ◌>>◌, check,
}
use rdma_comm_core.Prelude.Int.{ℤ, to_u8, is_nonneg}
use rdma_comm_core.Verbs.{
  Verbs, Trace, Access, local_write, remote_read, remote_write, QpMove, to_reset, to_init, to_rtr,
  to_rts, RtrAttr, RtsAttr, Route, modify_qp, ask,
}
use rdma_comm_core.Device.{World, get_qp_attr}
use rdma_comm_core.Adapter.{Adapter, AdapterState, AdapterInfo, device_of}

-- The attributes of the move to RTR. The route is set on Ethernet only, where the port is 1.
unfoldable pub rtr_attr : Verbs → Adapter → RtrAttr
rtr_attr v a =
    let attr : RtrAttr = record {
      path_mtu = a.config.used_mtu;
      dest_qp_num = a.remote.qp_num;
      rq_psn = 0;
      max_dest_rd_atomic = 1;
      min_rnr_timer = 12;
      dlid = a.remote.lid;
      sl = 0;
      src_path_bits = 0;
      port_num = to_u8 a.config.ib_port;
      grh = none;
    } in
    if a.self.link_layer == v.ethernet
    then record attr {
      port_num = 1;
      grh = some (record {
        dgid = a.remote.gid;
        flow_label = 0;
        hop_limit = 0xff;
        sgid_index = to_u8 a.config.gid_index;
        traffic_class = a.config.traffic_class % 2 ^ 8;
      });
    }
    else attr

abbrev pub rts_attr : RtsAttr
rts_attr = record { timeout = 14; retry_cnt = 7; rnr_retry = 7; sq_psn = 0; max_rd_atomic = 1 }

module _ (v : Verbs) where
  -- ibv_modify_qp on the adapter's queue pair. A failure is logged and returned.
  unfoldable pub modify_qp_to : QpMove → Adapter → World → Outcome (ℕ × World)
  modify_qp_to move a w = do
    check (not (a.qp == 0))
    let (rc, t) = ask v (modify_qp a.qp move) w.trace
    ok (rc, record w { trace = t })

  unfoldable pub modify_qp_to_reset : Adapter → World → Outcome (ℕ × World)
  unfolding modify_qp_to
  modify_qp_to_reset = modify_qp_to to_reset

  unfoldable pub modify_qp_to_init : Adapter → World → Outcome (ℕ × World)
  unfolding modify_qp_to
  modify_qp_to_init a =
      modify_qp_to
        (to_init (to_u8 a.config.ib_port) 0 (local_write ∷ remote_read ∷ remote_write ∷ [])) a

  unfoldable pub modify_qp_to_rtr : Adapter → World → Outcome (ℕ × World)
  unfolding modify_qp_to
  modify_qp_to_rtr a w = do
    check (not (a.qp == 0))
    check (not (a.self.link_layer == v.ethernet) || a.self.link_layer == a.remote.link_layer)
    check (not (a.self.link_layer == v.ethernet) || is_nonneg a.config.gid_index)
    modify_qp_to (to_rtr (rtr_attr v a)) a w

  unfoldable pub modify_qp_to_rts : Adapter → World → Outcome (ℕ × World)
  unfolding modify_qp_to
  modify_qp_to_rts = modify_qp_to (to_rts rts_attr)

  unfoldable pub show_qp_info : Adapter → World → Outcome World
  show_qp_info a w = do
    d ← device_of a w
    t ← get_qp_attr v a.qp w.trace
    ok (record w { trace = t })

  unfoldable pub reset_hca : Adapter → World → Outcome (Bool × World)
  reset_hca a w = modify_qp_to_reset a w >>= λ r. ok (false, r.1)

-- `CHECK(params.link_layer = self_.link_layer)` assigns, so it tests the adapter's own link layer. The
-- argument, which is a reference, is returned as it is left.
unfoldable pub update_peer_adapter_info : AdapterInfo → Adapter → Outcome (AdapterInfo × Adapter)
update_peer_adapter_info params a = do
  let a' = record a { remote = params }
  check (not (a.self.link_layer == 0))
  ok (record params { link_layer = a.self.link_layer }, a')

module _ (v : Verbs) where
  -- The results of the moves are not looked at.
  unfoldable pub connecting :
      AdapterInfo → Adapter → World → Outcome (AdapterInfo × Adapter × World)
  connecting peer a w = do
    check (not (same peer.unique_id ""))
    (peer', a') ← update_peer_adapter_info peer a
    (rc₁, w₁) ← modify_qp_to_init v a' w
    w₂ ← show_qp_info v a' w₁
    (rc₂, w₃) ← modify_qp_to_rtr v a' w₂
    w₄ ← show_qp_info v a' w₃
    (rc₃, w₅) ← modify_qp_to_rts v a' w₄
    w₆ ← show_qp_info v a' w₅
    ok (peer', record a' { status = AdapterState.connecting }, w₆)

-- get_adapter_info(self)
unfoldable pub get_adapter_info : Bool → Adapter → AdapterInfo
get_adapter_info true a = a.self
get_adapter_info false a = a.remote
