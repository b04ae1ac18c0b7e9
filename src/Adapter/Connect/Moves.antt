-- ===== src/Adapter/Connect/Moves.antt =====
-- What connecting does to the queue pair, and what it does not look at.
use rdma_comm_core.Prelude.{
  ◌≡◌, ◌≢◌, String, Option-cases, inl, inr, true, false, some, ◌∷◌, [], same, find, arith, ok,
}
use rdma_comm_core.Prelude.Int.{to_u8, is_nonneg}
use rdma_comm_core.Verbs.{
  Verbs, Trace, local_write, remote_read, remote_write, to_init, to_rtr, to_rts, modify_qp,
  query_qp,
}
use rdma_comm_core.Device.{Device, World, get_qp_attr}
use rdma_comm_core.Adapter.{Adapter, AdapterState, AdapterInfo}
use rdma_comm_core.Adapter.Connect.{
  rtr_attr, rts_attr, modify_qp_to_init, modify_qp_to_rtr, modify_qp_to_rts, show_qp_info,
  update_peer_adapter_info, connecting,
}

-- The calls of a connection, the latest first: INIT, RTR and RTS, each followed by a query.
abbrev pub handshake : Verbs → Adapter → Trace → Trace
handshake v a t =
    query_qp a.qp
    ∷ modify_qp a.qp (to_rts rts_attr)
    ∷ query_qp a.qp
    ∷ modify_qp a.qp (to_rtr (rtr_attr v a))
    ∷ query_qp a.qp
    ∷ modify_qp a.qp
        (to_init (to_u8 a.config.ib_port) 0 (local_write ∷ remote_read ∷ remote_write ∷ []))
    ∷ t

-- What the checks of connecting ask for.
pub record IsConnectable (v : Verbs) (peer : AdapterInfo) (a : Adapter) (w : World) : Type 0 where
  pub named : same peer.unique_id "" ≡ false
  pub has_layer : a.self.link_layer ≢ 0
  pub has_qp : a.qp ≢ 0
  pub device : Device
  pub key : String
  pub has_device : (a.rdma_device ≡ some key) × (find key w.device_map ≡ some device)
  pub same_layer : a.self.link_layer ≡ v.ethernet → a.self.link_layer ≡ peer.link_layer
  pub has_gid : a.self.link_layer ≡ v.ethernet → is_nonneg a.config.gid_index ≡ true

module _ (v : Verbs) (peer : AdapterInfo) (a : Adapter) (w : World) where
  -- An adapter that passes the checks is connected, whatever the library answers: the queue pair is
  -- asked to go to INIT, to RTR towards the peer's queue pair, and to RTS, and the status is set. So it
  -- is when each of the three moves has failed.
  pub connecting_total :
      IsConnectable v peer a w
      → connecting v peer a w
        ≡ ok (
          record peer { link_layer = a.self.link_layer },
          record a { remote = peer; status = AdapterState.connecting },
          record w { trace = handshake v (record a { remote = peer }) w.trace },
        )
  unfolding connecting update_peer_adapter_info modify_qp_to_init modify_qp_to_rtr modify_qp_to_rts
      show_qp_info get_qp_attr
  connecting_total c = ground arith

  -- And only such an adapter is: a call of connecting that returns has passed every check.
  pub connecting_checked :
      (r : AdapterInfo × Adapter × World) → connecting v peer a w ≡ ok r → IsConnectable v peer a w
  unfolding connecting update_peer_adapter_info modify_qp_to_init modify_qp_to_rtr modify_qp_to_rts
      show_qp_info get_qp_attr
  connecting_checked r e = elim (Option-cases a.rdma_device) [
    | inl n ↦ absurd (ground arith)
    | inr (key, k) ↦ elim (Option-cases (find key w.device_map)) [
      | inl n ↦ absurd (ground arith)
      | inr (d, f) ↦ record {
        named = ground arith;
        has_layer = λ z. ground arith;
        has_qp = λ z. ground arith;
        device = d;
        key = key;
        has_device = (k, f);
        same_layer = λ z. ground arith;
        has_gid = λ z. ground arith;
      }
    ]
  ]
