-- ===== src/Channel/Peers.antt =====
-- The descriptors of the peers' buffers.
use rdma_comm_core.Prelude.{
  ◌≡◌, sym, ap, String, Bool, true, false, Option, none, some, Option-cases, inl, inr,
  if◌then◌else◌, arith, same, same_self, same-cases, same_ne, find, find-insert,
}
use rdma_comm_core.Adapter.{CommDescriptor}
use rdma_comm_core.Channel.{Channel, insert_peer_buffer, find_peer_buffer}

abbrev pub is_none : Option CommDescriptor → Bool
is_none none = true
is_none (some d) = false

abbrev pub or_else : Option CommDescriptor → CommDescriptor → CommDescriptor
or_else none e = e
or_else (some d) e = d

-- The first descriptor under a name stays: an insertion says whether the name was free, the descriptor
-- found under it afterwards is the old one or, where there was none, the new; other names do not change.
pub insert_peer_buffer_find :
    (key other : String) (peer : CommDescriptor) (c : Channel)
    → ((insert_peer_buffer key peer c).0 ≡ is_none (find_peer_buffer key c))
      × (find_peer_buffer other (insert_peer_buffer key peer c).1 ≡ (
          if same key other
          then some (or_else (find_peer_buffer key c) peer)
          else find_peer_buffer other c))
unfolding insert_peer_buffer find_peer_buffer
insert_peer_buffer_find key other peer c = elim (Option-cases (find key c.peer_buffer_mgr)) [
  | inl e ↦ (ground arith, ground (arith, find-insert key other peer c.peer_buffer_mgr e))
  | inr (old, e) ↦ (
    ground arith,
    elim (same-cases key other) [
      | inl eq ↦
          let there = ap (λ k. find k c.peer_buffer_mgr) (sym eq) in
          ground (arith, same_self key, there)
      | inr ne ↦ ground (arith, same_ne key other ne)
    ],
  )
]
