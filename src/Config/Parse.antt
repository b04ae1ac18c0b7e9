-- ===== src/Config/Parse.antt =====
-- What parse_args returns, and that it returns.
use mathlib.Core.Path.{subst}
use rdma_comm_core.Prelude.{
  ℕ, zero, suc, ◌≤◌, ◌<◌, ◌≡◌, refl, sym, ap, ◌∙◌, String, true, false, not, ◌&&◌, ◌⊎◌, inl, inr,
  some, ◌==◌, length, Bool-cases, Option-cases, arith, Outcome, ok, same,
}
use rdma_comm_core.Prelude.Int.{ℤ}
use rdma_comm_core.Config.{check_wide, choose_side}
use rdma_comm_core.Config.{
  Config, Platform, case_of, is_zero, is_positive, is_tree, is_server_client, Ending, widen,
  get_local_ip, take_option, conflict_check, parse_options,
}
use rdma_comm_core.Config.Cluster.{
  IsValid, my_ip, IsValid-same, get_local_ip_lem, my_ip_known, take_option-IsValid,
}

widen_senders :
    (c : Config) → (length (widen c).cluster == 0) ≡ false → is_zero (widen c).num_senders ≡ false
widen_senders c e = elim (Bool-cases (is_zero c.num_senders && not (length c.cluster == 0))) [
  | inl few ↦ ground arith
  | inr enough ↦ ground arith
]

Ending-cases : (e : Ending) → ((exit : ℤ) × (e ≡ inl exit)) ⊎ ((c : Config) × (e ≡ inr c))
Ending-cases (inl exit) = inl (exit, refl)
Ending-cases (inr c) = inr (c, refl)

ends_early : {r : Outcome Ending} {c : Config} (exit : ℤ) → r ≡ ok (inl exit) → r ≡ ok (inr c) → ⊥
ends_early exit e e' = ground arith

module _ (p : Platform) where
  -- A configuration that the check lets through.
  pub record IsChecked (c : Config) : Type 0 where
    pub valid : IsValid p c
    -- A cluster that is not empty has a number of senders.
    pub senders : (length c.cluster == 0) ≡ false → is_zero c.num_senders ≡ false
    pub receiver : c.single_recv ≡ true → is_zero c.num_senders ≡ false
    pub width : is_tree c.all_reduce ≡ true → is_positive c.tree_width ≡ true
    -- In the server-client topology the machine is the client just if the server has another address.
    pub side :
        is_server_client c.all_reduce ≡ true
        → c.serve_as_client ≡ not (same (my_ip p c) c.server_name)

  -- Why the check returns a configuration: its two conditions do not hold, and it is the one given or, in the
  -- server-client topology, that with its side chosen.
  check_wide_eq :
      (c c' : Config)
      → check_wide p c ≡ ok (inr c')
      → ((c.single_recv && is_zero c.num_senders) ≡ false)
        × ((is_tree c.all_reduce && not (is_positive c.tree_width)) ≡ false)
        × (((is_server_client c.all_reduce ≡ false) × (c ≡ c'))
            ⊎ ((is_server_client c.all_reduce ≡ true) × (choose_side (get_local_ip p c) ≡ c')))
  unfolding check_wide
  check_wide_eq c c' e = elim (Bool-cases (c.single_recv && is_zero c.num_senders)) [
    | inl bad ↦ absurd (ground arith)
    | inr received ↦ elim (Bool-cases (is_tree c.all_reduce && not (is_positive c.tree_width))) [
      | inl bad ↦ absurd (ground arith)
      | inr wide ↦ elim (Bool-cases (is_server_client c.all_reduce)) [
        | inl sided ↦ (received, wide, inr (sided, ground arith))
        | inr free ↦ (received, wide, inl (free, ground arith))
      ]
    ]
  ]

  check_wide-IsChecked :
      (c c' : Config)
      → IsValid p c
      → ((length c.cluster == 0) ≡ false → is_zero c.num_senders ≡ false)
      → check_wide p c ≡ ok (inr c')
      → IsChecked c'
  check_wide-IsChecked c c' h senders e =
      let (received, wide, ends) = check_wide_eq c c' e in
      elim ends [
        | inl (free, same_config) ↦ subst IsChecked same_config (record {
          valid = h;
          senders = senders;
          receiver = λ s. ground arith;
          width = λ t. ground arith;
          side = λ s. absurd (ground arith);
        })
        | inr (sided, chosen) ↦
            subst IsChecked (sym (ap choose_side (get_local_ip_lem p c)) ∙ chosen) (record {
              valid = IsValid-same p c _ refl (my_ip_known p c) h.port_valid h.gid_valid h;
              senders = senders;
              receiver = λ s. ground arith;
              width = λ t. ground arith;
              side = λ s. ap (λ m. not (same m c.server_name)) (sym (my_ip_known p c));
            })
      ]

  conflict_check-IsChecked :
      (c c' : Config) → IsValid p c → conflict_check p c ≡ ok (inr c') → IsChecked c'
  unfolding conflict_check
  conflict_check-IsChecked c c' h e =
      check_wide-IsChecked (widen c) c'
        (IsValid-same p c (widen c) (ground arith) (ground arith) (ground arith) (ground arith) h)
        (λ some_ips. widen_senders c some_ips) e

  step_exit :
      (fuel : ℕ) (k : p.Cursor) (c : Config) (o : ℕ × String) (exit : ℤ)
      → (p.next k).0 ≡ some o
      → (take_option p (case_of o.0) o.1 (p.next k).1 c).0 ≡ inl exit
      → parse_options p (suc fuel) k c ≡ ok (inl exit)
  unfolding parse_options
  step_exit fuel k c o exit read e = rw (read, parse_options) (rw e refl)

  step_on :
      (fuel : ℕ) (k : p.Cursor) (c : Config) (o : ℕ × String) (c₁ : Config)
      → (p.next k).0 ≡ some o
      → (take_option p (case_of o.0) o.1 (p.next k).1 c).0 ≡ inr c₁
      → parse_options p (suc fuel) k c
        ≡ parse_options p fuel (take_option p (case_of o.0) o.1 (p.next k).1 c).1 c₁
  unfolding parse_options
  step_on fuel k c o c₁ read e = rw (read, parse_options) (rw e refl)

  -- From a valid configuration, whatever the command line holds, one that the options come to and that passes
  -- the check is valid and without conflicts.
  pub parse_options-IsChecked :
      (fuel : ℕ) (k : p.Cursor) (c c' : Config)
      → IsValid p c
      → parse_options p fuel k c ≡ ok (inr c')
      → IsChecked c'
  unfolding parse_options
  parse_options-IsChecked zero k c c' h e = absurd (ground arith)
  parse_options-IsChecked (suc fuel) k c c' h e = elim (Option-cases (p.next k).0) [
    | inl ended ↦ conflict_check-IsChecked c c' h (rw (ended, parse_options) at e)
    | inr (o, read) ↦
        let r = take_option p (case_of o.0) o.1 (p.next k).1 c in
        elim (Ending-cases r.0) [
          | inl (exit, e') ↦ absurd (ends_early exit (step_exit fuel k c o exit read e') e)
          | inr (c₁, e') ↦
              parse_options-IsChecked fuel r.1 c₁ c'
                (take_option-IsValid p (case_of o.0) o.1 (p.next k).1 r.1 c c₁ h
                  (ap (λ x. (x, r.1)) e'))
                (sym (step_on fuel k c o c₁ read e') ∙ e)
        ]
  ]

  -- A measure of the arguments that are left: getopt_long moves on, and optind++ does not move back.
  pub record IsAdvancing (left : p.Cursor → ℕ) : Type 0 where
    pub moves : (k : p.Cursor) (o : ℕ × String) → (p.next k).0 ≡ some o → left (p.next k).1 < left k
    pub keeps : (k : p.Cursor) → left (p.bump k) ≤ left k
