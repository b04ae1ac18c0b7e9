-- ===== src/Device.antt =====
-- src/rdma_device.cc and include/rdma_device.h: a device with its ports, its completion queues and
-- the adapters that use it; the table of devices. The mutexes are not modelled: a call is one step.
pub mod Post
pub mod MemoryRegion
pub mod Ports
pub mod Queues
mod Tests
use rdma_comm_core.Prelude.{
  ℕ, zero, suc, ◌+◌, ◌-◌, ◌%◌, ◌^◌, ◌≡◌, String, Bool, true, false, not, ◌&&◌, ◌||◌, Option, none,
  some, List, [], ◌∷◌, ◌++◌, ◌==◌, leb, ltb, if◌then◌else◌, length, get_elem?, Outcome, ok, fault,
  undefined, log_fatal, no_fuel, ◌>>=◌, ◌>>◌, check, fatal_if, or_undefined, same, find, insert,
  assign,
}
use rdma_comm_core.Verbs.{
  Verbs, Trace, Call, ask, open_device, query_device, query_port, create_comp_channel, alloc_pd,
  create_cq, create_qp, query_qp, PortAttr, QpInitAttr,
}
use rdma_comm_core.Verbs

pub record Device : Type 0 where
  pub dev_name : String
  pub ib_ctx : ℕ
  pub phys_port_cnt : ℕ
  pub ports_attrs : List PortAttr
  pub reg_cqs : List (String × ℕ)
  pub adapter_set : List ℕ

-- device_map_, a static member, and the calls of libibverbs so far
pub record World : Type 0 where
  pub device_map : List (String × Device)
  pub trace : Trace

abbrev pub blank : String → Device
blank name = record {
  dev_name = name;
  ib_ctx = 0;
  phys_port_cnt = 0;
  ports_attrs = [];
  reg_cqs = [];
  adapter_set = [];
}

-- The search loop of open_device: an empty name takes the first device's. The name after the loop,
-- and whether a device of that name was found.
unfoldable pub choose_device : List String → String → String × Bool
choose_device [] name = (name, false)
choose_device (d ∷ ds) name =
    let wanted = if same name "" then d else name in
    let rest = choose_device ds wanted in if same d wanted then (wanted, true) else rest

module _ (v : Verbs) where
  unfoldable pub open_device_of : Device → Trace → Outcome (Device × Trace)
  open_device_of d t = do
    names ← elim v.device_list [ none ↦ fault log_fatal | some names ↦ ok names ]
    fatal_if (length names == 0)
    let chosen = choose_device names d.dev_name
    fatal_if (not chosen.1)
    let (ctx, t') = ask v (open_device chosen.0) t
    fatal_if (ctx == 0)
    ok (record d { dev_name = chosen.0; ib_ctx = ctx }, t')

  unfoldable pub query_port_attr : ℕ → Device → Trace → Outcome (Device × Trace)
  query_port_attr ib_port d t = do
    let (rc, t') = ask v (query_port d.ib_ctx ib_port) t
    fatal_if (not (rc == 0))
    let attr = v.port_attr t d.ib_ctx ib_port
    check (attr.state == v.port_active)
    ok (record d { ports_attrs = d.ports_attrs ++ attr ∷ [] }, t')

  -- The loop of query_hardware_info, whose counter is a uint8_t, on `fuel` rounds.
  unfoldable pub query_ports : ℕ → ℕ → Device → Trace → Outcome (Device × Trace)
  query_ports zero port_index d t = fault no_fuel
  query_ports (suc fuel) port_index d t = elim (leb port_index d.phys_port_cnt) [
    | true ↦
        query_port_attr port_index d t >>= λ r. query_ports fuel ((port_index + 1) % 2 ^ 8) r.0 r.1
    | false ↦ ok (d, t)
  ]

  unfoldable pub query_hardware_info : ℕ → Device → Trace → Outcome (Device × Trace)
  query_hardware_info fuel d t = do
    let (rc, t') = ask v (query_device d.ib_ctx) t
    fatal_if (not (rc == 0))
    query_ports fuel 1 (record d { phys_port_cnt = v.phys_port_cnt t d.ib_ctx }) t'

  -- init_resources, called by the constructor. load_sys_params sets numbers that are only logged.
  unfoldable pub init_resources : ℕ → Device → Trace → Outcome (Device × Trace)
  init_resources fuel d t = open_device_of d t >>= λ r. query_hardware_info fuel r.0 r.1

  unfoldable pub create_event_channel : Device → Trace → Outcome (ℕ × Trace)
  create_event_channel d t = do
    let (chan, t') = ask v (create_comp_channel d.ib_ctx) t
    fatal_if (chan == 0)
    ok (chan, t')

  unfoldable pub create_protected_domain : Device → Trace → Outcome (ℕ × Trace)
  create_protected_domain d t = do
    let (pd, t') = ask v (alloc_pd d.ib_ctx) t
    fatal_if (pd == 0)
    ok (pd, t')

  unfoldable pub create_completion_queue :
      String → ℕ → ℕ → ℕ → ℕ → Device → Trace → Outcome (ℕ × Device × Trace)
  create_completion_queue cq_key max_cqe cb_ctx channel comp_vector d t =
      elim (find cq_key d.reg_cqs) [
        | some cq ↦ ok (cq, d, t)
        | none ↦ do
          let (cq, t') = ask v (create_cq d.ib_ctx max_cqe cb_ctx channel comp_vector) t
          let d' = record d { reg_cqs = assign cq_key cq d.reg_cqs }
          fatal_if (cq == 0)
          ok (cq, d', t')
      ]

  unfoldable pub create_queue_pair : ℕ → QpInitAttr → Trace → Outcome (ℕ × Trace)
  create_queue_pair pd init_attr t = do
    let (qp, t') = ask v (create_qp pd init_attr) t
    fatal_if (qp == 0)
    ok (qp, t')

  -- A failing query is only logged, and what it returns is only printed.
  unfoldable pub get_qp_attr : ℕ → Trace → Outcome Trace
  get_qp_attr qp t = do check (not (qp == 0)); ok (query_qp qp ∷ t)

  unfoldable pub query_gid : ℕ → ℕ → Device → Trace → Outcome (ℕ × Trace)
  query_gid ib_port gid_index d t = do
    check (leb 1 ib_port && leb ib_port (length d.ports_attrs))
    let (rc, t') = ask v (Verbs.query_gid d.ib_ctx ib_port gid_index) t
    fatal_if (not (rc == 0))
    ok (v.gid t d.ib_ctx ib_port gid_index, t')

unfoldable pub has_created_cq : String → Device → Bool
has_created_cq key d = elim (find key d.reg_cqs) [ none ↦ false | some cq ↦ true ]

unfoldable pub get_port_attr : ℕ → Device → Outcome PortAttr
get_port_attr ib_port d = do
  check (leb 1 ib_port && leb ib_port d.phys_port_cnt)
  or_undefined (get_elem? d.ports_attrs (ib_port - 1))

unfoldable pub is_registered : ℕ → List ℕ → Bool
is_registered a [] = false
is_registered a (x ∷ xs) = x == a || is_registered a xs

unfoldable pub register_adapter : ℕ → Device → Bool × Device
register_adapter adapter d =
    if adapter == 0
    then (false, d)
    else if is_registered adapter d.adapter_set
    then (false, d)
    else (true, record d { adapter_set = adapter ∷ d.adapter_set })

module _ (v : Verbs) where
  -- The device that dev_name finds in device_map_, made and put there if it is not there yet.
  unfoldable pub find_or_create : ℕ → String → World → Outcome (Device × World)
  find_or_create fuel dev_name w = elim (find dev_name w.device_map) [
    | some d ↦ ok (d, w)
    | none ↦ init_resources v fuel (blank dev_name) w.trace >>= λ r.
        ok (r.0, record { device_map = insert dev_name r.0 w.device_map; trace = r.1 })
  ]

  -- The shared pointer that get_device returns is the key of the device in the table.
  unfoldable pub get_device : ℕ → String → ℕ → World → Outcome (String × World)
  get_device fuel dev_name adapter w = do
    check (not (adapter == 0))
    r ← find_or_create fuel dev_name w
    let d = (register_adapter adapter r.0).1
    let w' = r.1
    ok (dev_name, record w' { device_map = assign dev_name d w'.device_map })
