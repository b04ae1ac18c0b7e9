-- ===== src/Session/Tests.antt =====
-- The theorems on sessions at concrete inputs.
use rdma_comm_core.Buffer.{Buffer, security_check, clear, fill_in}
use rdma_comm_core.Samples.{idle, host, memory, descriptor}
use rdma_comm_core.Prelude.Int.{incr_int64}
use rdma_comm_core.Channel.{find_buffer}
use rdma_comm_core.Device.Post.{post, real_send, real_recv}
use rdma_comm_core.Adapter.Transfer.{increase_sqe, increase_rqe, send_remote, recv_remote}
use rdma_comm_core.Session.Defaults.{Runtime, Scene, on_other, default_process_recv_done}
use rdma_comm_core.Session.Defaults.Calls.{Posts}
use rdma_comm_core.Session.Defaults.Receives.{default_process_recv_done-Posts}
use rdma_comm_core.Prelude.{
  some, Outcome, List, assign, ℕ, ◌+◌, ◌<◌, ◌≡◌, refl, true, false, find, zero, suc, [], ◌∷◌, arith,
  ok, fault,
}
use rdma_comm_core.Prelude.Int.{ℤ, pos, negsuc}
use rdma_comm_core.Verbs.{Wc, wc_send, wc_recv}
use rdma_comm_core.Device.{World}
use rdma_comm_core.Adapter.{Adapter}
use rdma_comm_core.Samples.{verbs, world, ready}
use rdma_comm_core.Session.{Callbacks, Handler, process_batch, running}
use rdma_comm_core.Session.Dispatch.{Ran, done, step, sent, process_batch_runs}
use rdma_comm_core.Session.Groups.{members, entries, running_groups}
use rdma_comm_core.Session.Setup.{Kernel, init_client}
use rdma_comm_core.Samples.{adapter}
use rdma_comm_core.Device.{
  create_event_channel, create_protected_domain, create_completion_queue, create_queue_pair,
  query_gid, has_created_cq, get_port_attr, is_registered, register_adapter, find_or_create,
  get_device,
}
use rdma_comm_core.Adapter.{info, get_id}
use rdma_comm_core.Adapter.Loading.{
  choose_cq, init_attr_of, create_pd, create_compt_channel, create_cq, create_qp,
  update_my_adapter_info, allocate, loading,
}
use rdma_comm_core.Adapter.Loading.Shared.{load_each}
use rdma_comm_core.Session.Setup.{lazy_config_server}
use rdma_comm_core.Session.Setup.Sharing.{running_shared}
use rdma_comm_core.Session.Setup.Connections.{init_client_unconnected}

-- Callbacks that add a number each.
abbrev adds : ℕ → Handler ℕ
adds n wc s = ok (s.0 + n, s.1)

abbrev callbacks : Callbacks ℕ
callbacks = record {
  established_done = λ channels s. ok s;
  process_send_done = adds 1;
  process_recv_done = adds 10;
  process_recv_write_with_imm_done = adds 100;
  process_write_done = adds 1000;
  process_read_done = adds 10000;
}

abbrev good : Wc
good = record {
  wr_id = 500;
  success = true;
  opcode = wc_send;
  byte_len = 0;
  imm_data = 0;
  with_imm = false;
}

abbrev arrived : Wc
arrived = record good { opcode = wc_recv }

abbrev bad : Wc
bad = record good { success = false }

process_batch_runs_example :
    (process_batch verbs callbacks ready (good ∷ arrived ∷ []) (0, world) ≡ ok (11, world)
      → Ran callbacks (good ∷ arrived ∷ []) (0, world) (11, world))
    × (Ran callbacks (good ∷ arrived ∷ []) (0, world) (11, world)
        → process_batch verbs callbacks ready (good ∷ arrived ∷ []) (0, world) ≡ ok (11, world))
process_batch_runs_example =
    process_batch_runs verbs callbacks ready (good ∷ arrived ∷ []) (0, world) (11, world)

one_sent : Ran callbacks (good ∷ []) (0, world) (1, world)
one_sent = step refl sent refl done

abbrev other : Adapter
other = record ready { used_cq = 32 }

running_groups_example :
    (members 31 (running (ready ∷ other ∷ ready ∷ [])) ≡ ready ∷ ready ∷ [])
    × (entries 31 (running (ready ∷ other ∷ ready ∷ [])) ≡ 1)
running_groups_example = running_groups (ready ∷ other ∷ ready ∷ []) 31

abbrev late : ℕ → ℤ
late zero = negsuc 0
late (suc zero) = negsuc 0
late (suc (suc n)) = pos 0

-- A kernel where the third attempt to connect is the first that is answered.
abbrev kernel : Kernel
kernel = record {
  socket = pos 5;
  bind = pos 0;
  listen = pos 0;
  accept = λ i. pos (i + 6);
  connect = late;
}

abbrev unreachable : Kernel
unreachable = record kernel { connect = λ i. negsuc 0 }

init_client_unconnected_example : init_client unreachable ≡ ok (pos 5 ∷ [], false, 3001)
init_client_unconnected_example = init_client_unconnected unreachable 4 refl (λ j. (0, refl))

late_fails : (j : ℕ) → j < 2 → (n : ℕ) × (kernel.connect j ≡ negsuc n)
late_fails zero h = (0, refl)
late_fails (suc zero) h = (0, refl)
late_fails (suc (suc j)) h = absurd (omega arith)

abbrev second : Adapter
second = record adapter { this = 501; endpoint_id = "[a-->c]" }

abbrev or_nothing : Outcome (List Adapter × World) → List Adapter × World
or_nothing (ok r) = r
or_nothing (fault f) = ([], world)

abbrev first : List Adapter → Adapter
first [] = adapter
first (a ∷ xs) = a

abbrev others : List Adapter → List Adapter
others [] = []
others (a ∷ xs) = xs

served : List Adapter × World
served =
    or_nothing (load_each verbs 3 (lazy_config_server "server@1" (adapter ∷ second ∷ [])) world)

served_returns :
    load_each verbs 3 (lazy_config_server "server@1" (adapter ∷ second ∷ [])) world
    ≡ ok (first served.0 ∷ others served.0, served.1)
unfolding served load_each lazy_config_server loading allocate choose_cq info get_id init_attr_of
    create_pd create_compt_channel create_cq create_qp update_my_adapter_info create_event_channel
    create_protected_domain create_completion_queue create_queue_pair query_gid has_created_cq
    get_port_attr is_registered register_adapter find_or_create get_device find assign
served_returns = refl

running_shared_example :
    running (first served.0 ∷ others served.0)
    ≡ ((first served.0).used_cq, first served.0 ∷ others served.0) ∷ []
running_shared_example =
    running_shared verbs 3 "mlx5_0" "server@1" (adapter ∷ second ∷ []) (others served.0)
      (first served.0) world served.1 ((refl, refl), ((refl, refl), tt)) served_returns

abbrev owned_buffer : Buffer
owned_buffer = record idle { head = record (idle.head) { owned_by_channel = 500; mr = 51 } }

abbrev scene : Scene
scene = record {
  host = record host {
    channel = record (host.channel) {
      owning_buffers =
          ("recv_buffer_for_test@(DataChannel)[a-->b]", 60)
          ∷ ("send_buffer_for_test@(DataChannel)[a-->b]", 61)
          ∷ [];
    };
    buffers = λ p. some owned_buffer;
  };
  memory = memory;
}

abbrev runtime : Runtime
runtime = record {
  scratch = 5000;
  bytes = λ s. 1 ∷ 2 ∷ [];
  encode = λ d. [];
  decode = λ xs. descriptor;
}

abbrev message : Wc
message = record good { opcode = wc_recv; with_imm = true }

abbrev or_scene : Outcome Scene → Scene
or_scene (ok s) = s
or_scene (fault f) = scene

answered : Scene
answered = or_scene (default_process_recv_done verbs runtime message scene)

answered_returns : default_process_recv_done verbs runtime message scene ≡ ok answered
unfolding answered default_process_recv_done on_other find_buffer find get_id recv_remote
    send_remote fill_in clear security_check real_recv real_send post increase_rqe increase_sqe
    incr_int64
answered_returns = refl

default_process_recv_done-Posts_example : Posts 1 1 scene answered
default_process_recv_done-Posts_example =
    default_process_recv_done-Posts verbs runtime message scene answered answered_returns
