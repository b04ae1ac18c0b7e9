-- ===== src/Device/Ports.antt =====
-- The ports that a device knows after query_hardware_info, and the end of its loop. The loop counts in a
-- uint8_t up to phys_port_cnt, which is a uint8_t too.
use rdma_comm_core.Prelude.{
  ℕ, zero, suc, ◌+◌, ◌-◌, ◌%◌, ◌^◌, ◌≤◌, ◌<◌, ◌≡◌, ◌≢◌, refl, ◌∙◌, Bool-cases, inl, inr, some, ◌∷◌,
  [], ◌++◌, leb, length, length-append, get_elem?, get_elem?-append_left, get_elem?-append_end,
  arith, ok, fault, no_fuel, fatal_if, not, ◌==◌, String, Outcome-cases, >>=-eq-ok,
}
use mathlib.Core.Path.{subst}
use native.Mathlib.Decide.{dec_lt}
use rdma_comm_core.Verbs.{Verbs, Trace, PortAttr, query_port, query_device}
use rdma_comm_core.Device.{
  Device, blank, query_port_attr, query_ports, query_hardware_info, get_port_attr,
}

module _ (v : Verbs) where
  -- The first `n` ports have been queried, and all of them are active.
  pub record KnowsPorts (n : ℕ) (d : Device) : Type 0 where
    pub counted : length d.ports_attrs ≡ n
    pub active :
        (i : ℕ)
        → i < n
        → (p : PortAttr) × (get_elem? d.ports_attrs i ≡ some p) × (p.state ≡ v.port_active)

  record Queried (n : ℕ) (d d' : Device) : Type 0 where
    knows : KnowsPorts (suc n) d'
    same_count : d'.phys_port_cnt ≡ d.phys_port_cnt

  push-KnowsPorts :
      (n : ℕ) (d : Device) (p : PortAttr)
      → KnowsPorts n d
      → p.state ≡ v.port_active
      → KnowsPorts (suc n) (record d { ports_attrs = d.ports_attrs ++ p ∷ [] })
  push-KnowsPorts n d p k e = record {
    counted = omega (arith, length-append d.ports_attrs (p ∷ []), k.counted);
    active = λ i h. elim (dec_lt i n) [
      | yes lt ↦
          let (q, g, s) = k.active i lt in
          let c = k.counted in
          (q, get_elem?-append_left d.ports_attrs (p ∷ []) i (omega arith) ∙ g, s)
      | no ge ↦ let c = k.counted in (p, get_elem?-append_end d.ports_attrs p i (omega arith), e)
    ];
  }

  query_port_attr-Queried :
      (port n : ℕ) (d : Device) (t : Trace) (r : Device × Trace)
      → query_port_attr v port d t ≡ ok r
      → KnowsPorts n d
      → Queried n d r.0
  unfolding query_port_attr
  query_port_attr-Queried port n d t r e k =
      rw result (record { knows = push-KnowsPorts n d attr k up; same_count = refl })
    where
      attr : PortAttr
      attr = v.port_attr t d.ib_ctx port

      up : attr.state ≡ v.port_active
      up = ground arith

      result :
          r ≡ (record d { ports_attrs = d.ports_attrs ++ attr ∷ [] }, query_port d.ib_ctx port ∷ t)
      result = ground arith

  -- `n` ports are known and the next one is n + 1; the loop goes on to the last one.
  query_ports-KnowsPorts :
      (fuel port n : ℕ) (d : Device) (t : Trace) (r : Device × Trace)
      → port ≡ n + 1
      → n ≤ d.phys_port_cnt
      → d.phys_port_cnt < 255
      → KnowsPorts n d
      → query_ports v fuel port d t ≡ ok r
      → KnowsPorts d.phys_port_cnt r.0 × (r.0.phys_port_cnt ≡ d.phys_port_cnt)
  unfolding query_ports
  query_ports-KnowsPorts zero port n d t r p h g k e = cc
  query_ports-KnowsPorts (suc fuel) port n d t r p h g k e =
      elim (Bool-cases (leb port d.phys_port_cnt)) [
        | inl more ↦
            let (q, eq, e') =
              >>=-eq-ok (query_port_attr v port d t) _ (rw (more, query_ports) at e) in
            let s = query_port_attr-Queried port n d t q eq k in
            let c = s.same_count in
            let (k', c') =
              query_ports-KnowsPorts fuel ((port + 1) % 2 ^ 8) (suc n) q.0 q.1 r (ground arith)
                (ground arith) (omega arith) s.knows e' in
            (rw c at k', c' ∙ c)
        | inr done ↦
            let same : r ≡ (d, t) = ground arith in
            let last : n ≡ d.phys_port_cnt = ground arith in
            rw same (subst (λ c. KnowsPorts c d) last k, refl)
      ]

  -- After query_hardware_info on a new device with fewer than 255 ports, get_port_attr of every port
  -- number from 1 to phys_port_cnt returns the attributes of an active port.
  pub get_port_attr_known :
      (fuel port : ℕ) (name : String) (ctx : ℕ) (t : Trace) (r : Device × Trace)
      → query_hardware_info v fuel (record (blank name) { ib_ctx = ctx }) t ≡ ok r
      → v.phys_port_cnt t ctx < 255
      → 0 < port
      → port ≤ v.phys_port_cnt t ctx
      → (p : PortAttr) × (get_port_attr port r.0 ≡ ok p) × (p.state ≡ v.port_active)
  unfolding get_port_attr query_hardware_info
  get_port_attr_known fuel port name ctx t r e small lo hi =
      let e' = >>=-eq-ok (fatal_if (not (v.answer t (query_device ctx) == 0))) _ e in
      let (k, c) =
        query_ports-KnowsPorts fuel 1 0 start _ r (omega arith) (omega arith) small none_yet e'.2 in
      let (p, g, s) = k.active (port - 1) (omega arith) in (p, ground arith, s)
    where
      start : Device
      start = record (blank name) { ib_ctx = ctx; phys_port_cnt = v.phys_port_cnt t ctx }

      none_yet : KnowsPorts 0 start
      none_yet = record { counted = refl; active = λ i h. elim h [ ] }

  query_port_attr-ne-no_fuel :
      (port : ℕ) (d : Device) (t : Trace) → query_port_attr v port d t ≢ fault no_fuel
  unfolding query_port_attr
  query_port_attr-ne-no_fuel port d t = ground arith

  same_count :
      (port : ℕ) (d : Device) (t : Trace) (r : Device × Trace)
      → query_port_attr v port d t ≡ ok r
      → r.0.phys_port_cnt ≡ d.phys_port_cnt
  unfolding query_port_attr
  same_count port d t r e = ground arith

  query_ports-ne-no_fuel :
      (fuel port : ℕ) (d : Device) (t : Trace)
      → d.phys_port_cnt < 255
      → port ≤ d.phys_port_cnt + 1
      → d.phys_port_cnt + 1 < fuel + port
      → query_ports v fuel port d t ≢ fault no_fuel
  unfolding query_ports
  query_ports-ne-no_fuel zero port d t small le lt e = absurd (omega arith)
  query_ports-ne-no_fuel (suc fuel) port d t small le lt e =
      elim (Bool-cases (leb port d.phys_port_cnt)) [
        | inl more ↦ elim (Outcome-cases (query_port_attr v port d t)) [
          | inl (r, eq) ↦
              let c = same_count port d t r eq in
              query_ports-ne-no_fuel fuel ((port + 1) % 2 ^ 8) r.0 r.1 (ground arith) (ground arith)
                (ground arith) (rw (more, eq, query_ports) at e)
          | inr (f, eq) ↦ query_port_attr-ne-no_fuel port d t (ground arith)
        ]
        | inr done ↦ ground arith
      ]

  -- The loop over the ports ends: on a device with fewer than 255 ports, more rounds than ports + 1
  -- are enough.
  pub query_hardware_info_ends :
      (fuel : ℕ) (d : Device) (t : Trace)
      → v.phys_port_cnt t d.ib_ctx < 255
      → v.phys_port_cnt t d.ib_ctx + 1 ≤ fuel
      → query_hardware_info v fuel d t ≢ fault no_fuel
  unfolding query_hardware_info
  query_hardware_info_ends fuel d t small enough = ground (
    arith,
    query_ports-ne-no_fuel fuel 1 (record d { phys_port_cnt = v.phys_port_cnt t d.ib_ctx })
        (query_device d.ib_ctx ∷ t),
  )
