-- ===== src/Session/Setup/Tests.antt =====
-- The theorem on the endpoints of a server at a concrete input.
use rdma_comm_core.Prelude.{ℕ, ◌+◌, ◌≡◌, refl, ap, true, List, [], ◌∷◌, arith, ok}
use rdma_comm_core.Prelude.Int.{pos}
use rdma_comm_core.Memory.{Memory}
use rdma_comm_core.Samples.{memory}
use rdma_comm_core.Samples.Sockets.{net, stream, net-IsStream}
use rdma_comm_core.Endpoint.{Frame}
use rdma_comm_core.Endpoint.Create.{Naming, Endpoint}
use rdma_comm_core.Session.Setup.{Kernel}
use rdma_comm_core.Session.Setup.Accept.{Arrival, serve_session}
use rdma_comm_core.Session.Setup.Endpoints.{IsOpen, AllBuilt, serve_session-AllBuilt}

abbrev naming : Naming
naming = record { own_name = λ fd. ("10.0.0.1", 58375); to_string = λ n. "7"; unset_gid = 9 }

abbrev frame : Frame
frame = record { adapt_info = 100; peer_info = 200; literal = 300; temp_char = 400 }

abbrev arrivals : ℕ → Arrival
arrivals i = record { net = net; cin = ("10.0.0.2", 17439); place = 500 + i }

arrivals-IsOpen : (i : ℕ) → IsOpen (arrivals i).net
arrivals-IsOpen i = record { stream = stream; reads = net-IsStream; takes = λ before bytes. refl }

abbrev kernel : Kernel
kernel = record {
  socket = pos 5;
  bind = pos 0;
  listen = pos 0;
  accept = λ i. pos (i + 6);
  connect = λ i. pos 0;
}

serve_session-AllBuilt_example :
    (es : List Endpoint) × (m' : Memory) × (serve_session naming frame 2 "server@1" arrivals 9
        kernel 3
        (record { end_point_mgr = []; memory = memory })
      ≡ ok (record { end_point_mgr = es; memory = m' }, true))
    × AllBuilt naming "server@1" arrivals 0 (pos 6 ∷ pos 7 ∷ pos 8 ∷ []) es
serve_session-AllBuilt_example =
    serve_session-AllBuilt naming frame 2 "server@1" arrivals arrivals-IsOpen (omega arith) kernel 3
      9 4 memory (λ i. (i + 5, ap pos (omega arith))) (omega arith) refl refl refl (omega arith)
      (omega arith)
