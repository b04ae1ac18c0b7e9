-- ===== src/Mesh/Start.antt =====
-- process_CQ of both towers of example/mesh_comm_service.cc: what is prepared for each channel, the exchange of a
-- byte with each peer over its socket, and then the endless loop.
use rdma_comm_core.Prelude.{
  ℕ, ◌+◌, String, Option, List, [], ◌∷◌, ◌==◌, leb, length, Outcome, ok, ◌>>=◌, ◌>>◌, check,
}
use rdma_comm_core.Memory.{Memory}
use rdma_comm_core.Verbs.{Verbs}
use rdma_comm_core.Adapter.{Adapter, CommDescriptor}
use rdma_comm_core.Channel.{Channel}
use rdma_comm_core.Tcp.{Net, Wire}
use rdma_comm_core.Endpoint.{Frame, sync_with_peer}
use rdma_comm_core.Mesh.{Lane, Shared, num_block, prepare, post_receives, process_rounds}
use rdma_comm_core.Mesh.Server.{server}
use rdma_comm_core.Mesh.Client.{client, ask_for_buffer}

-- What the process has for a channel: the places of its two buffers, what posix_memalign gives for them, its
-- element of peer_comm_fd_mgr, and the socket of its endpoint.
pub record Equipment : Type 0 where
  pub channel : Channel
  pub place_send : ℕ
  pub place_recv : ℕ
  pub memory_send : Option ℕ
  pub memory_recv : Option ℕ
  pub unset : CommDescriptor
  pub net : Net
  pub wire : Wire

module _ (v : Verbs) (names : String → ℕ → String) (frame : Frame) (fuel : ℕ) where
  unfoldable pub prepare_each : ℕ → List Equipment → Shared → Outcome (List Lane × Shared)
  prepare_each i [] s = ok ([], s)
  prepare_each i (q ∷ qs) s = do
    (x, s₁) ←
        prepare v names q.memory_send q.memory_recv q.place_send q.place_recv q.unset i q.channel s
    (xs, s₂) ← prepare_each (i + 1) qs s₁
    ok (x ∷ xs, s₂)

  unfoldable pub post_each : List Lane → Shared → Outcome (List Lane × Shared)
  post_each [] s = ok ([], s)
  post_each (x ∷ xs) s = do
    (x', s₁) ← post_receives v num_block (x, s)
    (xs', s₂) ← post_each xs s₁
    ok (x' ∷ xs', s₂)

  unfoldable pub sync_each : List Equipment → Memory → Outcome Memory
  sync_each [] m = ok m
  sync_each (q ∷ qs) m = do
    w ← sync_with_peer q.net frame fuel (record (q.wire) { memory = m })
    sync_each qs w.memory

  unfoldable pub ask_each : List Lane → Shared → Outcome (List Lane × Shared)
  ask_each [] s = ok ([], s)
  ask_each (x ∷ xs) s = do
    (x', s₁) ← ask_for_buffer v (x, s)
    (xs', s₂) ← ask_each xs s₁
    ok (x' ∷ xs', s₂)

  unfoldable pub start : List Equipment → Shared → Outcome (List Lane × Shared)
  start qs s = do
    (xs, s₁) ← prepare_each 0 qs s
    (xs', s₂) ← post_each xs s₁
    m ← sync_each qs s₂.memory
    ok (xs', record s₂ { memory = m })

  abbrev channels_of : List Lane → List Adapter
  channels_of [] = []
  channels_of (x ∷ xs) = x.channel ∷ channels_of xs

  -- `rounds` is the fuel of the endless loop.
  unfoldable pub server_process_cq :
      (CommDescriptor → List ℕ) → ℕ → List Equipment → Shared → Outcome (List Lane × Shared)
  server_process_cq encode rounds qs s = do
    check (leb (length qs) 64)
    (xs, s₁) ← start qs s
    process_rounds v rounds (server v encode) (channels_of xs) xs s₁

  unfoldable pub client_process_cq :
      (List ℕ → CommDescriptor) → ℕ → List Equipment → Shared → Outcome (List Lane × Shared)
  client_process_cq decode rounds qs s = do
    check (length qs == 1)
    (xs, s₁) ← start qs s
    (xs', s₂) ← ask_each xs s₁
    process_rounds v rounds (client v decode) (channels_of xs') xs' s₂
