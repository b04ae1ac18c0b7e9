-- ===== src/Device/Tests.antt =====
-- The theorems on devices at concrete inputs.
use rdma_comm_core.Prelude.{◌≡◌, refl, [], ◌∷◌, find, arith, ok}
use rdma_comm_core.Verbs.{PortAttr, query_device, query_port}
use rdma_comm_core.Samples.{verbs, device, port}
use rdma_comm_core.Device.{
  Device, blank, query_port_attr, query_ports, query_hardware_info, get_port_attr,
  create_completion_queue,
}
use rdma_comm_core.Device.Ports.{get_port_attr_known}
use rdma_comm_core.Device.Queues.{CqCreated, create_completion_queue-CqCreated}

abbrev opened : Device
opened = record (blank "mlx5_0") { ib_ctx = 7 }

abbrev known : Device
known = record opened { phys_port_cnt = 1; ports_attrs = port ∷ [] }

get_port_attr_known_example : (p : PortAttr) × (get_port_attr 1 known ≡ ok p) × (p.state ≡ 4)
unfolding query_hardware_info query_ports query_port_attr
get_port_attr_known_example =
    get_port_attr_known verbs 3 1 "mlx5_0" 7 [] (known, query_port 7 1 ∷ query_device 7 ∷ []) refl
      (omega arith) (omega arith) (omega arith)

create_completion_queue-CqCreated_example : CqCreated verbs "a" 500 1 0 0 device [] 31 device []
unfolding create_completion_queue find
create_completion_queue-CqCreated_example =
    create_completion_queue-CqCreated verbs "a" 500 1 0 0 device [] 31 device [] refl
