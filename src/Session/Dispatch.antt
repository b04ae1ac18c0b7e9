-- ===== src/Session/Dispatch.antt =====
-- What process_CQ does with the completions of a poll.
use mathlib.Core.Path.{subst}
use rdma_comm_core.Prelude.{
  Outcome-cases, ℕ, zero, suc, ◌≡◌, refl, sym, ap, ◌∙◌, true, false, Bool-cases, inl, inr, List, [],
  ◌∷◌, ◌++◌, arith, ok, fault, log_fatal, ok-injective, ◌>>=◌, >>=-eq-ok,
}
use rdma_comm_core.Verbs.{
  Verbs, Wc, WcOpcode, wc_send, wc_recv, wc_rdma_write, wc_rdma_read, wc_recv_rdma_with_imm,
  wc_other,
}
use rdma_comm_core.Device.{World}
use rdma_comm_core.Adapter.{Adapter}
use rdma_comm_core.Adapter.Connect.{show_qp_info}
use rdma_comm_core.Session.{
  Callbacks, Handler, dispatch, process_batch, process_channels, process_rounds, process_cq,
}

-- The callback that a completion belongs to; no other opcode has one.
pub data Handles {ℓ} {S : Type ℓ} (c : Callbacks S) : WcOpcode → Handler S → Type ℓ where
  sent : Handles c wc_send c.process_send_done
  received : Handles c wc_recv c.process_recv_done
  written : Handles c wc_rdma_write c.process_write_done
  read : Handles c wc_rdma_read c.process_read_done
  notified : Handles c wc_recv_rdma_with_imm c.process_recv_write_with_imm_done

-- The callbacks of a batch have run, each completion's once and in order, and have led from `s` to `s'`.
pub data Ran {ℓ} {S : Type ℓ} (c : Callbacks S) : List Wc → S × World → S × World → Type ℓ where
  done : {s : S × World} → Ran c [] s s
  step :
      {wc : Wc} {wcs : List Wc} {h : Handler S} {s s' s'' : S × World}
      → wc.success ≡ true
      → Handles c wc.opcode h
      → h wc s ≡ ok s'
      → Ran c wcs s' s''
      → Ran c (wc ∷ wcs) s s''

module _ {ℓ} {S : Type ℓ} (v : Verbs) (c : Callbacks S) (channel : Adapter) where
  handled :
      (op : WcOpcode) (wc : Wc) (s s' : S × World)
      → dispatch c op wc s ≡ ok s'
      → (h : Handler S) × Handles c op h × (h wc s ≡ ok s')
  unfolding dispatch
  handled wc_send wc s s' e = (_, sent, e)
  handled wc_recv wc s s' e = (_, received, e)
  handled wc_rdma_write wc s s' e = (_, written, e)
  handled wc_rdma_read wc s s' e = (_, read, e)
  handled wc_recv_rdma_with_imm wc s s' e = (_, notified, e)
  handled wc_other wc s s' e = absurd (ground arith)

  dispatched :
      (op : WcOpcode) (h : Handler S) (wc : Wc) (s : S × World)
      → Handles c op h
      → dispatch c op wc s ≡ h wc s
  unfolding dispatch
  dispatched wc_send h wc s sent = refl
  dispatched wc_recv h wc s received = refl
  dispatched wc_rdma_write h wc s written = refl
  dispatched wc_rdma_read h wc s read = refl
  dispatched wc_recv_rdma_with_imm h wc s notified = refl
  dispatched wc_other h wc s none_fits = elim none_fits [ ]

  batch_good :
      (wc : Wc) (wcs : List Wc) (s : S × World)
      → wc.success ≡ true
      → process_batch v c channel (wc ∷ wcs) s
        ≡ (dispatch c wc.opcode wc s >>= process_batch v c channel wcs)
  unfolding process_batch
  batch_good wc wcs s t = ground arith

  batch_bad :
      (wc : Wc) (wcs : List Wc) (s s' : S × World)
      → wc.success ≡ false
      → process_batch v c channel (wc ∷ wcs) s ≡ ok s'
      → ⊥
  unfolding process_batch
  batch_bad wc wcs s s' t e = elim (Outcome-cases (show_qp_info v channel s.1)) [
    | inl (w, x) ↦ ground arith
    | inr (f, x) ↦ ground arith
  ]

  batch-Ran :
      (wcs : List Wc) (s s' : S × World) → process_batch v c channel wcs s ≡ ok s' → Ran c wcs s s'
  unfolding process_batch
  batch-Ran [] s s' e = subst (λ x. Ran c [] s x) (ok-injective e) done
  batch-Ran (wc ∷ wcs) s s' e = elim (Bool-cases wc.success) [
    | inr bad ↦ absurd (batch_bad wc wcs s s' bad e)
    | inl good ↦
        let (s1, e1, e2) =
          >>=-eq-ok (dispatch c wc.opcode wc s) (process_batch v c channel wcs)
            (sym (batch_good wc wcs s good) ∙ e) in
        let (h, k, e3) = handled wc.opcode wc s s1 e1 in step good k e3 (batch-Ran wcs s1 s' e2)
  ]

  Ran-batch :
      (wcs : List Wc) (s s' : S × World) → Ran c wcs s s' → process_batch v c channel wcs s ≡ ok s'
  unfolding process_batch
  Ran-batch [] s s' done = refl
  Ran-batch (wc ∷ wcs) s s'' (step {h = h} {s' = s'} good k e r) =
      batch_good wc wcs s good
      ∙ ap (λ m. m >>= process_batch v c channel wcs) (dispatched wc.opcode h wc s k ∙ e)
      ∙ Ran-batch wcs s' s'' r

  -- A batch is processed without a fault just if the completions have all succeeded and have a callback
  -- each, and these have run in order, none left out and none twice.
  pub process_batch_runs :
      (wcs : List Wc) (s s' : S × World)
      → (process_batch v c channel wcs s ≡ ok s' → Ran c wcs s s')
        × (Ran c wcs s s' → process_batch v c channel wcs s ≡ ok s')
  process_batch_runs wcs s s' = (batch-Ran wcs s s', Ran-batch wcs s s')

  -- A completion that has failed takes the process down, after the callbacks of those before it: the
  -- callbacks of that one and of the later ones do not run.
  pub process_batch_fails :
      (wcs later : List Wc) (wc : Wc) (s s' : S × World)
      → Ran c wcs s s'
      → wc.success ≡ false
      → (w : World) → show_qp_info v channel s'.1 ≡ ok w
      → process_batch v c channel (wcs ++ wc ∷ later) s ≡ fault log_fatal
  unfolding process_batch
  process_batch_fails [] later wc s s' done bad w shown = ground arith
  process_batch_fails (wc' ∷ wcs) later wc s s'' (step {h = h} {s' = s'} good k e r) bad w shown =
      batch_good wc' (wcs ++ wc ∷ later) s good
      ∙ ap (λ m. m >>= process_batch v c channel (wcs ++ wc ∷ later))
          (dispatched wc'.opcode h wc' s k ∙ e)
      ∙ process_batch_fails wcs later wc s' s'' r bad w shown

module _ {ℓ} {S : Type ℓ} (v : Verbs) (c : Callbacks S) (channels : List Adapter) where
  rounds_endless : (fuel : ℕ) (s s' : S × World) → process_rounds v fuel c channels s ≡ ok s' → ⊥
  unfolding process_rounds
  rounds_endless zero s s' e = cc
  rounds_endless (suc fuel) s s' e =
      let (t, _, e') =
        >>=-eq-ok (process_channels v c channels s) (process_rounds v fuel c channels) e in
      rounds_endless fuel t s' e'

  -- The thread of a group never returns: in whatever number of rounds, it ends only by taking the process
  -- down.
  pub process_cq_endless :
      (fuel : ℕ) (s s' : S × World) → process_cq v fuel c channels s ≡ ok s' → ⊥
  unfolding process_cq
  process_cq_endless fuel s s' e =
      let (t, _, e') =
        >>=-eq-ok (c.established_done channels s) (process_rounds v fuel c channels) e in
      rounds_endless fuel t s' e'
