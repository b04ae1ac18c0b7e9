-- ===== src/Device/Queues.antt =====
-- Completion queues and the table of devices: each is made once and shared by its key.
use rdma_comm_core.Prelude.{
  ℕ, ◌≡◌, ◌≢◌, refl, String, true, none, some, inl, inr, ◌∷◌, arith, ok, Outcome-cases, same_self,
  same_ne, find, assign, find-assign,
}
use rdma_comm_core.Verbs.{Verbs, Trace, create_cq}
use rdma_comm_core.Device.{
  Device, World, create_completion_queue, is_registered, register_adapter, find_or_create,
  get_device,
}

module _ (v : Verbs) (key : String) (size ctx chan vec : ℕ) (d : Device) (t : Trace) where
  -- What a call of create_completion_queue that returns has done: the queue is the one of its key from
  -- now on and no other key's has changed; a key that had a queue keeps it, with no call of the library.
  pub record CqCreated (cq : ℕ) (d' : Device) (t' : Trace) : Type 0 where
    pub found : find key d'.reg_cqs ≡ some cq
    pub others : (k : String) → key ≢ k → find k d'.reg_cqs ≡ find k d.reg_cqs
    pub reused : (old : ℕ) → find key d.reg_cqs ≡ some old → (cq ≡ old) × (d' ≡ d) × (t' ≡ t)
    pub made : find key d.reg_cqs ≡ none → t' ≡ create_cq d.ib_ctx size ctx chan vec ∷ t

  pub create_completion_queue-CqCreated :
      (cq : ℕ) (d' : Device) (t' : Trace)
      → create_completion_queue v key size ctx chan vec d t ≡ ok (cq, d', t')
      → CqCreated cq d' t'
  unfolding create_completion_queue
  create_completion_queue-CqCreated cq d' t' e = record {
    found = ground (arith, find-assign key key cq d.reg_cqs, same_self key);
    others = λ k ne. ground (arith, find-assign key k cq d.reg_cqs, same_ne key k ne);
    reused = λ old h. ground arith;
    made = λ h. ground arith;
  }

register_adapter_lem :
    (adapter : ℕ) (d : Device)
    → adapter ≢ 0
    → is_registered adapter (register_adapter adapter d).1.adapter_set ≡ true
unfolding is_registered register_adapter
register_adapter_lem adapter d h = ground arith

module _ (v : Verbs) (name : String) where
  -- get_device returns the name as the key, and leaves a device in the table under it in which the
  -- adapter is registered.
  pub get_device_registers :
      (fuel adapter : ℕ) (w w' : World) (key : String)
      → get_device v fuel name adapter w ≡ ok (key, w')
      → (key ≡ name)
        × (d : Device) × (find name w'.device_map ≡ some d)
        × (is_registered adapter d.adapter_set ≡ true)
  unfolding get_device
  get_device_registers fuel adapter w w' key e =
      elim (Outcome-cases (find_or_create v fuel name w)) [
        | inr (f, eq) ↦ absurd (ground arith)
        | inl (r, eq) ↦
            let d = (register_adapter adapter r.0).1 in
            (
              ground arith,
              d,
              ground (arith, find-assign name name d r.1.device_map, same_self name),
              ground (arith, register_adapter_lem adapter r.0),
            )
      ]

  -- A name is opened once: whatever adapter asks for it when it is in the table gets its key with no call
  -- of the library; the adapter is registered in that device, and no other device changes.
  pub get_device_shared :
      (fuel other : ℕ) (d : Device) (w : World)
      → find name w.device_map ≡ some d
      → other ≢ 0
      → (w' : World) × (get_device v fuel name other w ≡ ok (name, w'))
        × (w'.trace ≡ w.trace)
        × (find name w'.device_map ≡ some (register_adapter other d).1)
        × ((k : String) → name ≢ k → find k w'.device_map ≡ find k w.device_map)
  unfolding get_device find_or_create
  get_device_shared fuel other d w h ne = (
    record w { device_map = assign name (register_adapter other d).1 w.device_map },
    ground arith,
    refl,
    ground (arith, find-assign name name (register_adapter other d).1 w.device_map, same_self name),
    λ k ne.
        ground
          (arith, find-assign name k (register_adapter other d).1 w.device_map, same_ne name k ne),
  )
