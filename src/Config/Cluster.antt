-- ===== src/Config/Cluster.antt =====
-- What the command line can make of a configuration before the check.
use mathlib.Core.Path.{subst}
use rdma_comm_core.Prelude.{
  ◌≡◌, refl, sym, ap, String, true, false, List, [], ◌∷◌, ◌++◌, All, Bool-cases, inl, inr, arith,
  drop, ◌⊎◌, if◌then◌else◌, same,
}
use rdma_comm_core.Config.{
  Config, Platform, Case, help, cluster, ib_port, gid_idx, server, is_negative, is_operand, to_int,
  Ending, get_local_ip, set_server_name, add_to_cluster, add_operands, take_option,
}
use rdma_comm_core.Config.Order.{IsSorted, sort-IsSorted, All-sort}

All-snoc {κ} :
    (P : String → Type κ) (xs : List String) (x : String) → All P xs → P x → All P (xs ++ x ∷ [])
All-snoc P [] x h q = (q, tt)
All-snoc P (y ∷ ys) x h q = (h.0, All-snoc P ys x h.1 q)

inr-injective : (x y : Config) (e e' : Ending) → e ≡ inr x → e' ≡ inr y → e ≡ e' → x ≡ y
inr-injective x y e e' p q r = cc

module _ (p : Platform) where
  -- The address of the machine, found or kept.
  abbrev pub my_ip : Config → String
  my_ip c = if same c.local_ip "" then p.found_ip else c.local_ip

  -- The cluster is in order and does not hold the machine itself; the port and the index of the GID are not
  -- negative.
  pub record IsValid (c : Config) : Type 0 where
    pub ordered : IsSorted c.cluster
    pub others : All (λ ip. same (my_ip c) ip ≡ false) c.cluster
    pub port_valid : is_negative c.ib_port ≡ false
    pub gid_valid : is_negative c.gid_idx ≡ false

  abbrev pub known : Config → Config
  known c = record c { local_ip = my_ip c }

  pub get_local_ip_lem : (c : Config) → get_local_ip p c ≡ (my_ip c, known c)
  unfolding get_local_ip
  get_local_ip_lem c = elim (Bool-cases (same c.local_ip "")) [
    | inl e ↦ rw e refl
    | inr e ↦ rw e refl
  ]

  pub my_ip_known : (c : Config) → my_ip (known c) ≡ my_ip c
  my_ip_known c = elim (Bool-cases (same c.local_ip "")) [
    | inl e ↦ ground arith
    | inr e ↦ ground arith
  ]

  -- An address is added unless it is the machine's own.
  pub add_to_cluster-IsValid :
      (ip : String) (c : Config) → IsValid c → IsValid (add_to_cluster p ip c)
  unfolding add_to_cluster
  add_to_cluster-IsValid ip c h = rw (get_local_ip_lem c) (record {
    ordered = sort-IsSorted _;
    others =
        rw (my_ip_known c)
          (All-sort (λ i. same (my_ip c) i ≡ false) _ (added (Bool-cases (same (my_ip c) ip))));
    port_valid = h.port_valid;
    gid_valid = h.gid_valid;
  })
    where
      added :
          (same (my_ip c) ip ≡ true) ⊎ (same (my_ip c) ip ≡ false)
          → All
              (λ i. same (my_ip c) i ≡ false)
              (if same (my_ip c) ip then c.cluster else c.cluster ++ ip ∷ [])
      added (inl e) = rw e h.others
      added (inr e) = rw e (All-snoc (λ i. same (my_ip c) i ≡ false) c.cluster ip h.others e)

  add_operands-IsValid :
      (args : List String) (k : p.Cursor) (c : Config)
      → IsValid c
      → IsValid (add_operands p args k c).1
  unfolding add_operands
  add_operands-IsValid [] k c h = h
  add_operands-IsValid (arg ∷ args) k c h = elim (Bool-cases (is_operand arg)) [
    | inl e ↦
        rw (e, add_operands)
          (add_operands-IsValid args (p.bump k) (add_to_cluster p arg c)
            (add_to_cluster-IsValid arg c h))
    | inr e ↦ rw (e, add_operands) h
  ]

  -- A change of other fields.
  pub IsValid-same :
      (c c' : Config)
      → c'.cluster ≡ c.cluster
      → my_ip c' ≡ my_ip c
      → is_negative c'.ib_port ≡ false
      → is_negative c'.gid_idx ≡ false
      → IsValid c
      → IsValid c'
  IsValid-same c c' e i q r h = record {
    ordered = subst IsSorted (sym e) h.ordered;
    others =
        subst (λ ips. All (λ ip. same (my_ip c') ip ≡ false) ips) (sym e)
          (subst (λ m. All (λ ip. same m ip ≡ false) c.cluster) (sym i) h.others);
    port_valid = q;
    gid_valid = r;
  }

  set_server_name-IsValid :
      (ip : String) (c : Config) → IsValid c → IsValid (set_server_name p ip c)
  unfolding set_server_name
  set_server_name-IsValid ip c h = rw (get_local_ip_lem c) (elim (Bool-cases (same (my_ip c) ip)) [
    | inl e ↦ rw e (IsValid-same c _ refl (my_ip_known c) h.port_valid h.gid_valid h)
    | inr e ↦ rw e (IsValid-same c _ refl (my_ip_known c) h.port_valid h.gid_valid h)
  ])

  -- An option that does not end the process keeps the configuration valid.
  pub take_option-IsValid :
      (o : Case) (optarg : String) (k k' : p.Cursor) (c c' : Config)
      → IsValid c
      → take_option p o optarg k c ≡ (inr c', k')
      → IsValid c'
  unfolding take_option
  take_option-IsValid help optarg k k' c c' h e = cc
  take_option-IsValid cluster optarg k k' c c' h e =
      let args = drop (p.optind k) p.argv in
      subst IsValid (inr-injective _ c' _ _ refl refl (ap (λ r. r.0) e)) (
        add_operands-IsValid args k (add_to_cluster p optarg c) (add_to_cluster-IsValid optarg c h))
  take_option-IsValid ib_port optarg k k' c c' h e =
      elim (Bool-cases (is_negative (to_int (p.strtoul optarg)))) [
        | inl bad ↦ absurd (ground arith)
        | inr good ↦ IsValid-same c c' (ground arith) (ground arith) (ground arith) (ground arith) h
      ]
  take_option-IsValid gid_idx optarg k k' c c' h e =
      elim (Bool-cases (is_negative (to_int (p.strtoul optarg)))) [
        | inl bad ↦ absurd (ground arith)
        | inr good ↦ IsValid-same c c' (ground arith) (ground arith) (ground arith) (ground arith) h
      ]
  take_option-IsValid server optarg k k' c c' h e =
      subst IsValid (inr-injective _ c' _ _ refl refl (ap (λ r. r.0) e))
        (set_server_name-IsValid optarg c h)
  take_option-IsValid o optarg k k' c c' h e =
      subst IsValid (inr-injective _ c' _ _ refl refl (ap (λ r. r.0) e))
        (IsValid-same c _ refl refl h.port_valid h.gid_valid h)
