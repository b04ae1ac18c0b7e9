-- ===== src/Adapter/Loading/Shared.antt =====
-- Adapters that name the same device and the same key share a completion queue.
use mathlib.Core.Path.{subst}
use rdma_comm_core.Prelude.{
  ℕ, ◌≡◌, refl, sym, ap, ◌∙◌, String, true, false, some, List, [], ◌∷◌, All, arith, Outcome, ok,
  ok-injective, ◌>>=◌, bind_ensures,
}
use rdma_comm_core.Verbs.{Verbs}
use rdma_comm_core.Device.{World, get_device}
use rdma_comm_core.Adapter.{Adapter, AdapterInfo}
use rdma_comm_core.Adapter.Loading.{
  choose_cq, create_pd, create_compt_channel, create_cq, create_qp, update_my_adapter_info,
  allocate, loading,
}
use rdma_comm_core.Adapter.Loading.Queue.{
  HasCq, create_pd-Quiet, create_compt_channel-Quiet, create_qp-Quiet, update_my_adapter_info-Quiet,
  create_cq-HasCq, get_device-HasCq, moved,
}

choose_shared : (a b : Adapter) → a.config.using_shared_cq ≡ true → choose_cq a ≡ ok b → a ≡ b
unfolding choose_cq
choose_shared a b on e = ground arith

-- The queue that a loading of `a` in `w` has come to.
abbrev Ends : Adapter → World → AdapterInfo × Adapter × World → Type 0
Ends a w r =
    HasCq a.config.dev_name a.config.cq_key r.1.used_cq r.2
    × ((cq : ℕ) → HasCq a.config.dev_name a.config.cq_key cq w → r.1.used_cq ≡ cq)

allocate-HasCq :
    (v : Verbs) (fuel : ℕ) (a : Adapter) (w : World) (r : AdapterInfo × Adapter × World)
    → a.config.using_shared_cq ≡ true
    → allocate v fuel a w ≡ ok r
    → Ends a w r
unfolding allocate
allocate-HasCq v fuel a w r on e =
    (bind_ensures Q (choose_cq a) _ λ a₁ e₁.
        bind_ensures Q (get_device v fuel a₁.config.dev_name a₁.this w) _ λ (g : String × World) e₂.
          bind_ensures Q (create_pd v (record a₁ { rdma_device = some g.0 }) g.1) _
            λ (r₃ : Adapter × World) e₃.
              bind_ensures Q (create_compt_channel v r₃.0 r₃.1) _ λ (r₄ : Adapter × World) e₄.
                bind_ensures Q (create_cq v r₄.0 r₄.1) _ λ (r₅ : Adapter × World) e₅.
                  bind_ensures Q (create_qp v r₅.0 r₅.1) _ λ (r₆ : Adapter × World) e₆.
                    bind_ensures Q (update_my_adapter_info v r₆.0 r₆.1) _
                      λ (r₇ : Adapter × World) e₇ out f.
                        let same_a : a ≡ a₁ = choose_shared a a₁ on e₁ in
                        let q₃ =
                          create_pd-Quiet v (record a₁ { rdma_device = some g.0 }) g.1 r₃ e₃ in
                        let q₄ = create_compt_channel-Quiet v r₃.0 r₃.1 r₄ e₄ in
                        let q₆ = create_qp-Quiet v r₅.0 r₅.1 r₆ e₆ in
                        let q₇ = update_my_adapter_info-Quiet v r₆.0 r₆.1 r₇ e₇ in
                        let name : String = a₁.config.dev_name in
                        let key : String = a₁.config.cq_key in
                        let (g-eq, _) = get_device-HasCq v fuel a₁.this 0 name key w g e₂ in
                        let key₄ : r₄.0.config.cq_key ≡ key = q₄.key ∙ q₃.key in
                        let c =
                          create_cq-HasCq v r₄.0 r₄.1 r₅ name (q₄.dev ∙ q₃.dev ∙ ap some g-eq) e₅ in
                        let inj = sym (ok-injective f) in
                        let used : out.1.used_cq ≡ r₅.0.used_cq =
                          ap (λ (q : AdapterInfo × Adapter × World). q.1.used_cq) inj
                          ∙ q₇.used
                          ∙ q₆.used in
                        let map : out.2.device_map ≡ r₅.1.device_map =
                          ap (λ (q : AdapterInfo × Adapter × World). q.2.device_map) inj
                          ∙ q₇.map
                          ∙ q₆.map in
                        subst (λ x. Ends x w out) (sym same_a)
                          (
                            moved name key out.1.used_cq r₅.1 out.2 map (
                                subst (λ k. HasCq name k out.1.used_cq r₅.1) key₄
                                  (subst (λ n. HasCq name r₄.0.config.cq_key n r₅.1) (sym used)
                                    c.0)),
                            λ cq h.
                                let there : HasCq name key cq r₄.1 =
                                  moved name key cq g.1 r₄.1 (q₄.map ∙ q₃.map)
                                    ((get_device-HasCq v fuel a₁.this cq name key w g e₂).1 h) in
                                used ∙ c.1 cq (subst (λ k. HasCq name k cq r₄.1) (sym key₄) there),
                          ))
      r e
  where
    Q : AdapterInfo × Adapter × World → Type 0
    Q = Ends a w

-- The loadings of several adapters, one after the other.
unfoldable pub load_each : Verbs → ℕ → List Adapter → World → Outcome (List Adapter × World)
load_each v fuel [] w = ok ([], w)
load_each v fuel (a ∷ xs) w = do
  (_, a', u) ← loading v fuel a w
  (ys, u') ← load_each v fuel xs u
  ok (a' ∷ ys, u')

-- An adapter that is to share the queue `key` of the device `name`, and has no resources yet.
pub record Wants (name key : String) (a : Adapter) : Type 0 where
  pub fresh : a.resource_is_allocated ≡ false
  pub shared : a.config.using_shared_cq ≡ true
  pub device : a.config.dev_name ≡ name
  pub queue : a.config.cq_key ≡ key

module _ (v : Verbs) (fuel : ℕ) (name key : String) where
  one_loaded :
      (a : Adapter) (w : World) (r : AdapterInfo × Adapter × World)
      → Wants name key a
      → loading v fuel a w ≡ ok r
      → HasCq name key r.1.used_cq r.2 × ((cq : ℕ) → HasCq name key cq w → r.1.used_cq ≡ cq)
  unfolding loading
  one_loaded a w r wants e =
      subst (λ n. HasCq n key r.1.used_cq r.2 × ((cq : ℕ) → HasCq n key cq w → r.1.used_cq ≡ cq))
        wants.device
        (subst
          (λ k.
            HasCq a.config.dev_name k r.1.used_cq r.2
            × ((cq : ℕ) → HasCq a.config.dev_name k cq w → r.1.used_cq ≡ cq))
          wants.queue
          (allocate-HasCq v fuel a w r wants.shared (let f = wants.fresh in ground arith)))

  loaded_alike :
      (xs ys : List Adapter) (w w' : World) (cq : ℕ)
      → All (Wants name key) xs
      → HasCq name key cq w
      → load_each v fuel xs w ≡ ok (ys, w')
      → All (λ (a : Adapter). a.used_cq ≡ cq) ys
  unfolding load_each
  loaded_alike [] ys w w' cq wants h e =
      subst (λ r. All (λ (a : Adapter). a.used_cq ≡ cq) r.0) (ok-injective e) tt
  loaded_alike (a ∷ xs) ys w w' cq wants h e =
      (bind_ensures Q (loading v fuel a w) _ λ (r : AdapterInfo × Adapter × World) e₁.
          bind_ensures Q (load_each v fuel xs r.2) _ λ (s : List Adapter × World) e₂ out f.
            let (h₁, k) = one_loaded a w r wants.0 e₁ in
            let used : r.1.used_cq ≡ cq = k cq h in
            subst Q (ok-injective f) (
              used,
              loaded_alike xs s.0 r.2 s.1 cq wants.1 (subst (λ n. HasCq name key n r.2) used h₁) e₂,
            ))
        (ys, w') e
    where
      Q : List Adapter × World → Type 0
      Q x = All (λ (b : Adapter). b.used_cq ≡ cq) x.0

  -- Adapters that are to share one queue of one device have come to the same queue, when their loadings have
  -- returned.
  pub load_each-All :
      (xs ys : List Adapter) (w w' : World)
      → All (Wants name key) xs
      → load_each v fuel xs w ≡ ok (ys, w')
      → (cq : ℕ) × All (λ (a : Adapter). a.used_cq ≡ cq) ys
  unfolding load_each
  load_each-All [] ys w w' wants e =
      (0, subst (λ r. All (λ (a : Adapter). a.used_cq ≡ 0) r.0) (ok-injective e) tt)
  load_each-All (a ∷ xs) ys w w' wants e =
      (bind_ensures Q (loading v fuel a w) _ λ (r : AdapterInfo × Adapter × World) e₁.
          bind_ensures Q (load_each v fuel xs r.2) _ λ (s : List Adapter × World) e₂ out f.
            let (h, _) = one_loaded a w r wants.0 e₁ in
            let alike : Q (r.1 ∷ s.0, s.1) =
              (r.1.used_cq, (refl, loaded_alike xs s.0 r.2 s.1 r.1.used_cq wants.1 h e₂)) in
            subst Q (ok-injective f) alike)
        (ys, w') e
    where
      Q : List Adapter × World → Type 0
      Q x = (cq : ℕ) × All (λ (b : Adapter). b.used_cq ≡ cq) x.0
