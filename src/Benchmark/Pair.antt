-- ===== src/Benchmark/Pair.antt =====
-- The wait for a send completion and for the peer's response.
use rdma_comm_core.Prelude.{
  ℕ, suc, ◌≡◌, ◌≢◌, refl, ◌∙◌, Bool, true, false, ◌&&◌, ◌⊎◌, inl, inr, [], ◌∷◌, ◌==◌, drop, arith,
  ok, fault, check_failed,
}
use rdma_comm_core.Verbs.{Verbs, Trace, Wc, wc_send, wc_recv}
use rdma_comm_core.Benchmark.{Bench}
use rdma_comm_core.Benchmark.Waits.{Answers, IsGood, wait_answered}
use rdma_comm_core.Benchmark.Client.{await_both}

-- A good completion of a receive with the response as immediate data.
abbrev pub IsResponse : ℕ → Wc → Type 0
IsResponse response wc = IsGood wc_recv wc × (wc.imm_data == response ≡ true)

module _ (v : Verbs) (polls response : ℕ) where
  -- The two flags after a completion; none where it is not expected.
  pub data Takes (sent received : Bool) (wc : Wc) : Bool → Bool → Type 0 where
    takes_send : sent ≡ false → IsGood wc_send wc → Takes sent received wc true received
    takes_response : received ≡ false → IsResponse response wc → Takes sent received wc sent true

  abbrev after : Wc → Trace → Bench → Bench
  after wc t s = record s { global_wc = wc ∷ drop 1 s.global_wc; trace = t }

  -- A round with a completion that is expected.
  await_both-Takes :
      (fuel : ℕ) (sent received sent' received' : Bool) (wc : Wc) (s : Bench) (t : Trace)
      → (sent && received) ≡ false
      → s.adapter.used_cq ≢ 0
      → Answers v s.adapter.used_cq 1 polls (wc ∷ []) s.trace t
      → Takes sent received wc sent' received'
      → await_both v (suc fuel) polls response sent received s
        ≡ await_both v fuel polls response sent' received' (after wc t s)
  unfolding await_both
  await_both-Takes fuel sent received sent' received' wc s t more q a (takes_send e g) =
      let (waited, _) = wait_answered v 1 polls wc [] s t q (omega arith) a in
      rw (more, await_both) (rw waited (ground arith))
  await_both-Takes fuel sent received sent' received' wc s t more q a (takes_response e g) =
      let (waited, _) = wait_answered v 1 polls wc [] s t q (omega arith) a in
      rw (more, await_both) (rw waited (ground arith))

  -- Where the two completions come, each within `polls` polls and in either order, the loop ends after them,
  -- three rounds being enough.
  pub await_both_ends :
      (wc₁ wc₂ : Wc) (s : Bench) (t₁ t₂ : Trace)
      → s.adapter.used_cq ≢ 0
      → Answers v s.adapter.used_cq 1 polls (wc₁ ∷ []) s.trace t₁
      → Answers v s.adapter.used_cq 1 polls (wc₂ ∷ []) t₁ t₂
      → (IsGood wc_send wc₁ × IsResponse response wc₂)
        ⊎ (IsResponse response wc₁ × IsGood wc_send wc₂)
      → await_both v 3 polls response false false s
        ≡ ok (record s { global_wc = wc₂ ∷ drop 1 s.global_wc; trace = t₂ })
  unfolding await_both
  await_both_ends wc₁ wc₂ s t₁ t₂ q a₁ a₂ (inl (g₁, g₂)) =
      await_both-Takes 2 false false true false wc₁ s t₁ refl q a₁ (takes_send refl g₁)
      ∙ await_both-Takes 1 true false true true wc₂ (after wc₁ t₁ s) t₂ refl q a₂
          (takes_response refl g₂)
  await_both_ends wc₁ wc₂ s t₁ t₂ q a₁ a₂ (inr (g₁, g₂)) =
      await_both-Takes 2 false false false true wc₁ s t₁ refl q a₁ (takes_response refl g₁)
      ∙ await_both-Takes 1 false true true true wc₂ (after wc₁ t₁ s) t₂ refl q a₂
          (takes_send refl g₂)

  -- A second completion of the same kind takes the process down.
  pub await_both_twice :
      (fuel : ℕ) (wc₁ wc₂ : Wc) (s : Bench) (t₁ t₂ : Trace)
      → s.adapter.used_cq ≢ 0
      → Answers v s.adapter.used_cq 1 polls (wc₁ ∷ []) s.trace t₁
      → Answers v s.adapter.used_cq 1 polls (wc₂ ∷ []) t₁ t₂
      → (IsGood wc_send wc₁ × IsGood wc_send wc₂)
        ⊎ (IsResponse response wc₁ × IsResponse response wc₂)
      → await_both v (suc (suc fuel)) polls response false false s ≡ fault check_failed
  unfolding await_both
  await_both_twice fuel wc₁ wc₂ s t₁ t₂ q a₁ a₂ (inl (g₁, g₂)) =
      let (waited, _) = wait_answered v 1 polls wc₂ [] (after wc₁ t₁ s) t₂ q (omega arith) a₂ in
      await_both-Takes (suc fuel) false false true false wc₁ s t₁ refl q a₁ (takes_send refl g₁)
      ∙ rw waited (ground arith)
  await_both_twice fuel wc₁ wc₂ s t₁ t₂ q a₁ a₂ (inr (g₁, g₂)) =
      let (waited, _) = wait_answered v 1 polls wc₂ [] (after wc₁ t₁ s) t₂ q (omega arith) a₂ in
      await_both-Takes (suc fuel) false false false true wc₁ s t₁ refl q a₁ (takes_response refl g₁)
      ∙ rw waited (ground arith)
