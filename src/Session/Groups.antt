-- ===== src/Session/Groups.antt =====
-- The groups of the channels.
use rdma_comm_core.Prelude.{
  append_nil, append_assoc, ℕ, suc, ◌≡◌, refl, sym, ◌∙◌, Bool-cases, inl, inr, List, [], ◌∷◌, ◌++◌,
  ◌==◌, if◌then◌else◌, arith,
}
use rdma_comm_core.Adapter.{Adapter}
use rdma_comm_core.Session.{Groups, push_channel, group_channels, running}

-- The channels that share the queue `cq`, in their order.
abbrev pub sharing : ℕ → List Adapter → List Adapter
sharing cq [] = []
sharing cq (a ∷ channels) = if a.used_cq == cq then a ∷ sharing cq channels else sharing cq channels

-- The members of a queue's group, and how many groups a queue has.
abbrev pub members : ℕ → Groups → List Adapter
members cq [] = []
members cq ((k, ms) ∷ groups) = if k == cq then ms else members cq groups

abbrev pub entries : ℕ → Groups → ℕ
entries cq [] = 0
entries cq ((k, ms) ∷ groups) = if k == cq then suc (entries cq groups) else entries cq groups

members-push :
    (cq : ℕ) (a : Adapter) (groups : Groups)
    → members cq (push_channel a groups)
      ≡ (if a.used_cq == cq then members cq groups ++ a ∷ [] else members cq groups)
unfolding push_channel
members-push cq a [] = ground arith
members-push cq a ((k, ms) ∷ groups) = ground (arith, members-push cq a groups)

entries-push :
    (cq : ℕ) (a : Adapter) (groups : Groups)
    → entries cq (push_channel a groups) ≡ (
        if a.used_cq == cq
        then (if entries cq groups == 0 then 1 else entries cq groups)
        else entries cq groups)
unfolding push_channel
entries-push cq a [] = ground arith
entries-push cq a ((k, ms) ∷ groups) = ground (arith, entries-push cq a groups)

members-group :
    (cq : ℕ) (channels : List Adapter) (groups : Groups)
    → members cq (group_channels channels groups) ≡ members cq groups ++ sharing cq channels
unfolding group_channels
members-group cq [] groups = sym (append_nil (members cq groups))
members-group cq (a ∷ channels) groups =
    members-group cq channels (push_channel a groups) ∙ elim (Bool-cases (a.used_cq == cq)) [
      | inl e ↦
          rw (members-push cq a groups, e)
            (append_assoc (members cq groups) (a ∷ []) (sharing cq channels))
      | inr e ↦ rw (members-push cq a groups, e) refl
    ]

abbrev count_groups : List Adapter → ℕ
count_groups [] = 0
count_groups (a ∷ channels) = 1

entries-group :
    (cq : ℕ) (channels : List Adapter) (groups : Groups)
    → entries cq (group_channels channels groups)
      ≡ (if entries cq groups == 0 then count_groups (sharing cq channels) else entries cq groups)
unfolding group_channels
entries-group cq [] groups = ground arith
entries-group cq (a ∷ channels) groups =
    ground (arith, entries-group cq channels (push_channel a groups), entries-push cq a groups)

-- Every queue that a channel uses has one group, and no other queue has any; the group has just the
-- channels of the queue, each once, in the order of the endpoints.
pub running_groups :
    (channels : List Adapter) (cq : ℕ)
    → (members cq (running channels) ≡ sharing cq channels)
      × (entries cq (running channels) ≡ count_groups (sharing cq channels))
unfolding running
running_groups channels cq = (members-group cq channels [], entries-group cq channels [])
