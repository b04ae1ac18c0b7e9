-- ===== src/Session/Defaults/Found.antt =====
-- The five buffers of the test in the table of their channel.
use mathlib.Core.Path.{subst}
use rdma_comm_core.Prelude.{
  some-injective, ℕ, suc, ◌+◌, ◌≡◌, ◌≢◌, sym, ap, ◌∙◌, String, Option, none, some, List, [], ◌∷◌,
  arith, find, ok, ok-injective, >>=-eq-ok,
}
use rdma_comm_core.Memory.{Memory}
use rdma_comm_core.Verbs.{Verbs}
use rdma_comm_core.Buffer.{Buffer, allocate_buffer}
use rdma_comm_core.Buffer.Layout.{allocate_buffer_name}
use rdma_comm_core.Channel.{Host, store, register_buffer}
use rdma_comm_core.Channel.Registry.{store_here, store_there}
use rdma_comm_core.Channel.Register.{register_buffer-Registered}
use rdma_comm_core.Session.Defaults.Established.{Supply, allocate_each, register_each}

-- Different buffers have different places.
abbrev pub AreApart : Supply → Type 0
AreApart supply = (i j : ℕ) → supply.place i ≡ supply.place j → i ≡ j

module _ (supply : Supply) where
  -- From number `i` on, the buffers at their places have the names of the list.
  abbrev pub AllNamed : ℕ → List (String × ℕ) → (ℕ → Option Buffer) → Type 0
  AllNamed i [] heap = Unit
  AllNamed i (x ∷ xs) heap =
      ((b : Buffer) × (heap (supply.place i) ≡ some b) × (b.buffer_name ≡ x.0))
      × AllNamed (i + 1) xs heap

  -- The table of the channel has the place of each under its name.
  abbrev pub AllFound : ℕ → List (String × ℕ) → List (String × ℕ) → Type 0
  AllFound i [] table = Unit
  AllFound i (x ∷ xs) table = (find x.0 table ≡ some (supply.place i)) × AllFound (i + 1) xs table

  AllNamed-kept :
      (i : ℕ) (xs : List (String × ℕ)) (heap heap' : ℕ → Option Buffer)
      → ((j : ℕ) → heap' (supply.place (i + j)) ≡ heap (supply.place (i + j)))
      → AllNamed i xs heap
      → AllNamed i xs heap'
  AllNamed-kept i [] heap heap' same h = tt
  AllNamed-kept i (x ∷ xs) heap heap' same ((b, there, named), h) =
      let here : i + 0 ≡ i = omega arith in
      (
        (
          b,
          subst (λ (k : ℕ). heap' (supply.place k) ≡ heap (supply.place k)) here (same 0) ∙ there,
          named,
        ),
        AllNamed-kept (i + 1) xs heap heap'
            (λ j.
              let shift : i + suc j ≡ i + 1 + j = omega arith in
              subst (λ (k : ℕ). heap' (supply.place k) ≡ heap (supply.place k)) shift
                (same (suc j)))
            h,
      )

  -- Allocation puts a buffer of each name at its place, and leaves the other places alone.
  pub allocate_each-AllNamed :
      (apart : AreApart supply) (i : ℕ) (xs : List (String × ℕ)) (heap heap' : ℕ → Option Buffer)
      (m m' : Memory)
      → allocate_each supply i xs heap m ≡ ok (heap', m')
      → AllNamed i xs heap' × ((q : ℕ) → ((j : ℕ) → supply.place (i + j) ≢ q) → heap' q ≡ heap q)
  unfolding allocate_each
  allocate_each-AllNamed apart i [] heap heap' m m' e =
      let same : heap ≡ heap' = ap (λ (r : (ℕ → Option Buffer) × Memory). r.0) (ok-injective e) in
      (tt, λ q _. ap (λ (f : ℕ → Option Buffer). f q) (sym same))
  allocate_each-AllNamed apart i ((name, size) ∷ rest) heap heap' m m' e =
      let ((b, m₁), e₁, e₂) =
        >>=-eq-ok (allocate_buffer (supply.sub_names name) (supply.memory i) size 10 name m) _ e in
      let (all, kept) =
        allocate_each-AllNamed apart (i + 1) rest (store (supply.place i) (some b) heap) heap' m₁ m'
          e₂ in
      (
        (
          (
            b,
            kept (supply.place i) (λ j p. absurd (let q = apart (i + 1 + j) i p in omega arith))
                ∙ store_here (supply.place i) (some b) heap,
            allocate_buffer_name (supply.sub_names name) (supply.memory i) size 10 name m m₁ b e₁,
          ),
          all,
        ),
        λ q other.
            kept q (λ j.
              let shift : i + suc j ≡ i + 1 + j = omega arith in
              subst (λ (k : ℕ). supply.place k ≢ q) shift (other (suc j)))
            ∙ store_there (supply.place i) q (some b) heap
                (λ p. let here : i + 0 ≡ i = omega arith in other 0 (ap supply.place here ∙ p)),
      )

  -- Registration enters each under its name, and removes no entry.
  pub register_each-AllFound :
      (v : Verbs) (apart : AreApart supply) (i : ℕ) (xs : List (String × ℕ)) (h h' : Host)
      → AllNamed i xs h.buffers
      → register_each supply v i xs h ≡ ok h'
      → AllFound i xs h'.channel.owning_buffers
        × ((key : String) (q : ℕ)
            → find key h.channel.owning_buffers ≡ some q
            → find key h'.channel.owning_buffers ≡ some q)
        × (h'.channel.adapter ≡ h.channel.adapter)
  unfolding register_each
  register_each-AllFound v apart i [] h h' named e =
      let same : h ≡ h' = ok-injective e in
      (
        tt,
        λ key q f. subst (λ (x : Host). find key x.channel.owning_buffers ≡ some q) same f,
        ap (λ (x : Host). x.channel.adapter) (sym same),
      )
  register_each-AllFound v apart i (x ∷ rest) h h' ((b, there, name), named) e =
      let (h₁, e₁, e₂) = >>=-eq-ok (register_buffer v (supply.place i) h) _ e in
      let (b₀, b', r) = register_buffer-Registered v (supply.place i) h h₁ e₁ in
      let (all, kept, same) =
        register_each-AllFound v apart (i + 1) rest h₁ h'
          (AllNamed-kept (i + 1) rest h.buffers h₁.buffers
            (λ j.
              r.elsewhere (supply.place (i + 1 + j))
                (λ p. absurd (let q = apart i (i + 1 + j) p in omega arith)))
            named)
          e₂ in
      let b-eq : b₀ ≡ b = some-injective (sym r.was ∙ there) in
      (
        (
          kept x.0 (supply.place i) (
              subst (λ n. find n h₁.channel.owning_buffers ≡ some (supply.place i))
                (ap (λ (y : Buffer). y.buffer_name) b-eq ∙ name) r.entered),
          all,
        ),
        λ key q f. kept key q (
            r.others key (λ p.
              let free : find key h.channel.owning_buffers ≡ none =
                subst (λ n. find n h.channel.owning_buffers ≡ none) p r.free in
              absurd (cc))
            ∙ f),
        same ∙ r.adapter,
      )
