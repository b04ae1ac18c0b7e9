-- ===== src/Session/Defaults/First.antt =====
-- How many requests default_established_fn posts.
use mathlib.Core.Path.{subst}
use rdma_comm_core.Prelude.{
  ℕ, ◌+◌, ◌≡◌, sym, ap, ◌∙◌, String, none, some, List, [], ◌∷◌, length, arith, find, check,
  or_undefined, ◌>>=◌, not, ◌==◌, true, false, Outcome, ok, ok-injective, bind_ensures, >>=-eq-ok,
}
use rdma_comm_core.Memory.{Memory}
use rdma_comm_core.Verbs.{Verbs, Trace}
use rdma_comm_core.Buffer.{Block, Buffer}
use rdma_comm_core.Channel.{Host, register_buffer}
use rdma_comm_core.Buffer.{clear, fill_in}
use rdma_comm_core.Device.MemoryRegion.{real_register_mem, real_register_mem_lem}
use rdma_comm_core.Device.{World}
use rdma_comm_core.Adapter.{Adapter, device_of}
use rdma_comm_core.Channel.{register_in_channel, register_mem}
use rdma_comm_core.Tcp.{Net, Wire, put}
use rdma_comm_core.Endpoint.{Frame, sync_with_peer}
use rdma_comm_core.Session.Defaults.{
  Runtime, Scene, posted, deref, fill, call_recv, call_send, test_for_sync_data,
}
use rdma_comm_core.Session.Defaults.Calls.{
  receives, sends, Posts, Posts-trans, call_recv-Posts, call_send-Posts, fill-Posts,
}
use rdma_comm_core.Session.Defaults.Established.{Supply, register_each, first_requests}

module _ (supply : Supply) where
  register_mem-quiet :
      (v : Verbs) (a : Adapter) (data_ptr size flags mr : ℕ) (w w' : World)
      → register_mem v a data_ptr size flags w ≡ ok (mr, w')
      → (receives w'.trace ≡ receives w.trace) × (sends w'.trace ≡ sends w.trace)
  unfolding register_mem
  register_mem-quiet v a data_ptr size flags mr w w' e =
      (bind_ensures Q (device_of a w) _ λ d _.
          bind_ensures Q (real_register_mem v a.pd data_ptr size flags w.trace) _
            λ (r : ℕ × Trace) e₁ out f.
              let made = (real_register_mem_lem v a.pd data_ptr size flags r.0 w.trace r.1 e₁).0 in
              subst Q (ok-injective f) (ap receives made, ap sends made))
        (mr, w') e
    where
      Q : ℕ × World → Type 0
      Q r = (receives r.1.trace ≡ receives w.trace) × (sends r.1.trace ≡ sends w.trace)

  -- A registration posts nothing.
  register_buffer-Posts :
      (v : Verbs) (p : ℕ) (h h' : Host) (m m' : Memory)
      → register_buffer v p h ≡ ok h'
      → Posts 0 0 (record { host = h; memory = m }) (record { host = h'; memory = m' })
  unfolding register_buffer register_in_channel
  register_buffer-Posts v p h h' m m' e =
      (bind_ensures Q (check (not (p == 0))) _ λ _ _.
          bind_ensures Q (or_undefined (h.buffers p)) _ λ (b : Buffer) _.
            bind_ensures Q
              (check (elim (find b.buffer_name h.channel.owning_buffers) [
                | none ↦ true
                | some q ↦ false
              ]))
              _
              λ _ _.
                bind_ensures Q (register_in_channel v h.channel.adapter b h.world) _
                  λ (r : Buffer × World) e₁ out f.
                    let (_, e₂, e₃) = >>=-eq-ok (check (not b.is_sub_buffer)) _ e₁ in
                    let (q, e₄, e₅) =
                      >>=-eq-ok
                        (register_mem v h.channel.adapter b.data_ptr b.buffer_size 0 h.world) _
                        e₃ in
                    let quiet =
                      register_mem-quiet v h.channel.adapter b.data_ptr b.buffer_size 0 q.0 h.world
                        q.1 e₄ in
                    let same : q.1 ≡ r.1 = ap (λ (x : Buffer × World). x.1) (ok-injective e₅) in
                    subst Q (ok-injective f) (record {
                      received =
                          ap (λ (w : World). receives w.trace) (sym same) ∙ quiet.0 ∙ omega arith;
                      sent = ap (λ (w : World). sends w.trace) (sym same) ∙ quiet.1 ∙ omega arith;
                    }))
        h' e
    where
      Q : Host → Type 0
      Q x = Posts 0 0 (record { host = h; memory = m }) (record { host = x; memory = m' })

  pub register_each-Posts :
      (v : Verbs) (i : ℕ) (xs : List (String × ℕ)) (h h' : Host) (m m' : Memory)
      → register_each supply v i xs h ≡ ok h'
      → Posts 0 0 (record { host = h; memory = m }) (record { host = h'; memory = m' })
  unfolding register_each
  register_each-Posts v i [] h h' m m' e =
      let same : h ≡ h' = ok-injective e in
      subst
        (λ (x : Host).
          Posts 0 0 (record { host = h; memory = m }) (record { host = x; memory = m' }))
        same (record { received = omega arith; sent = omega arith })
  register_each-Posts v i (x ∷ rest) h h' m m' e =
      let (h₁, e₁, e₂) = >>=-eq-ok (register_buffer v (supply.place i) h) _ e in
      Posts-trans (register_buffer-Posts v (supply.place i) h h₁ m m' e₁)
        (register_each-Posts v (i + 1) rest h₁ h' m' m' e₂)

  abbrev pub table : Scene → List (String × ℕ)
  table s = s.host.channel.owning_buffers

  -- Neither a request nor a change of the memory changes the table.
  call-table :
      (o : Outcome (Adapter × Trace)) (s s' : Scene)
      → (o >>= λ r. ok (posted r s)) ≡ ok s'
      → table s' ≡ table s
  call-table o s s' e = let (r, e₁, e₂) = >>=-eq-ok o _ e in ap table (sym (ok-injective e₂))

  fill-table :
      (rt : Runtime) (b : Block) (xs : List ℕ) (s s' : Scene)
      → fill rt b xs s ≡ ok s'
      → table s' ≡ table s
  fill-table rt b xs s s' e =
      let (m, e₁, e₂) =
        >>=-eq-ok (fill_in b rt.scratch (length xs) (put rt.scratch xs s.memory)) _ e in
      ap table (sym (ok-injective e₂))

  -- The first requests are two receives and a send.
  pub first_requests-Posts :
      (v : Verbs) (rt : Runtime) (net : Net) (frame : Frame) (fuel : ℕ) (wire wire' : Wire)
      (s s' : Scene)
      → first_requests supply v rt net frame fuel wire s ≡ ok (s', wire')
      → Posts 2 1 s s' × (table s' ≡ table s)
  unfolding first_requests
  first_requests-Posts v rt net frame fuel wire wire' s s' e =
      (bind_ensures Q (deref (some (supply.place 0)) s) _ λ (recv : Block) _.
          bind_ensures Q (deref (some (supply.place 1)) s) _ λ (send : Block) _.
            bind_ensures Q (call_recv v recv recv.buffer_size (cleared recv)) _ λ (s₂ : Scene) e₂.
              bind_ensures Q (call_recv v recv recv.buffer_size s₂) _ λ (s₃ : Scene) e₃.
                bind_ensures Q (sync_with_peer net frame fuel (record wire { memory = s₃.memory }))
                  _
                  λ (w : Wire) _.
                    bind_ensures Q (fill rt send _ (record s₃ { memory = w.memory })) _
                      λ (s₄ : Scene) e₄.
                        bind_ensures Q (call_send v send _ test_for_sync_data s₄) _
                          λ (s₅ : Scene) e₅ out f. subst Q (ok-injective f) (
                            let p₂ = call_recv-Posts v recv recv.buffer_size (cleared recv) s₂ e₂ in
                            let p₃ = call_recv-Posts v recv recv.buffer_size s₂ s₃ e₃ in
                            let p₄ = fill-Posts rt send _ (record s₃ { memory = w.memory }) s₄ e₄ in
                            let p₅ = call_send-Posts v send _ s₄ s₅ test_for_sync_data e₅ in
                            (
                              record {
                                received =
                                    (let a = p₂.received in
                                      let b = p₃.received in
                                      let c = p₄.received in let d = p₅.received in omega arith);
                                sent =
                                    (let a = p₂.sent in
                                      let b = p₃.sent in
                                      let c = p₄.sent in let d = p₅.sent in omega arith);
                              },
                              call-table _ s₄ s₅ e₅
                                  ∙ fill-table rt send _ (record s₃ { memory = w.memory }) s₄ e₄
                                  ∙ call-table _ s₂ s₃ e₃
                                  ∙ call-table _ (cleared recv) s₂ e₂,
                            )))
        (s', wire') e
    where
      cleared : Block → Scene
      cleared recv = record s { memory = clear recv s.memory }

      Q : Scene × Wire → Type 0
      Q r = Posts 2 1 s r.0 × (table r.0 ≡ table s)
