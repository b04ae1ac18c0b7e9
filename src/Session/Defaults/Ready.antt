-- ===== src/Session/Defaults/Ready.antt =====
-- What default_established_fn leaves for the callbacks.
use mathlib.Core.Path.{subst}
use rdma_comm_core.Prelude.{ℕ, ◌≡◌, sym, ok, >>=-eq-ok}
use rdma_comm_core.Verbs.{Verbs}
use rdma_comm_core.Channel.{Host}
use rdma_comm_core.Tcp.{Net, Wire}
use rdma_comm_core.Endpoint.{Frame}
use rdma_comm_core.Session.Defaults.{Runtime, Scene}
use rdma_comm_core.Session.Defaults.Calls.{Posts, Posts-trans}
use rdma_comm_core.Session.Defaults.Established.{
  Supply, allocate_each, register_each, establish, test_buffers,
}
use rdma_comm_core.Session.Defaults.Found.{
  AreApart, AllFound, allocate_each-AllNamed, register_each-AllFound,
}
use rdma_comm_core.Session.Defaults.First.{register_each-Posts, first_requests-Posts}

module _ (supply : Supply) where
  -- Where default_established_fn returns for a channel, each of the five buffers that the callbacks look for is
  -- found in the channel under its name, and two receives and one send were posted. Different buffers are to
  -- have different places.
  pub establish-AllFound :
      (v : Verbs) (rt : Runtime) (net : Net) (frame : Frame) (fuel : ℕ) (wire wire' : Wire)
      (s s' : Scene)
      → AreApart supply
      → establish supply v rt net frame fuel wire s ≡ ok (s', wire')
      → AllFound supply 0 (test_buffers s.host.channel) s'.host.channel.owning_buffers
        × Posts 2 1 s s'
  unfolding establish
  establish-AllFound v rt net frame fuel wire wire' s s' apart e =
      let ((heap, m), e₁, e₂) =
        >>=-eq-ok (allocate_each supply 0 (test_buffers s.host.channel) s.host.buffers s.memory) _
          e in
      let h₀ : Host = record (s.host) { buffers = heap } in
      let (h, e₃, e₄) =
        >>=-eq-ok (register_each supply v 0 (test_buffers s.host.channel) h₀) _ e₂ in
      let s₁ : Scene = record { host = h; memory = m } in
      let named =
        allocate_each-AllNamed supply apart 0 (test_buffers s.host.channel) s.host.buffers heap
          s.memory m e₁ in
      let (found, _, _) =
        register_each-AllFound supply v apart 0 (test_buffers s.host.channel) h₀ h named.0 e₃ in
      let (posts, same) = first_requests-Posts supply v rt net frame fuel wire wire' s₁ s' e₄ in
      let before =
        register_each-Posts supply v 0 (test_buffers s.host.channel) h₀ h s.memory m e₃ in
      let all = Posts-trans before posts in
      (
        subst (AllFound supply 0 (test_buffers s.host.channel)) (sym same) found,
        record { received = all.received; sent = all.sent },
      )
