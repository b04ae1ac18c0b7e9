-- ===== src/Channel.antt =====
-- src/rdma_channel.cc, and the registration methods of src/rdma_buffer.cc that it calls and that call it
-- back: a channel keeps pointers to its buffers by name, and a buffer the address of its channel.
pub mod Registry
pub mod Register
pub mod Deregister
pub mod Lifetime
pub mod Peers
pub mod Stock
mod Tests
use rdma_comm_core.Prelude.{
  ℕ, zero, suc, ◌≡◌, String, Bool, true, false, not, Option, none, some, List, [], ◌∷◌, ◌==◌,
  if◌then◌else◌, length, Outcome, ok, fault, check_failed, no_fuel, ◌>>=◌, ◌>>◌, check,
  or_undefined, same, find, insert, erase,
}
use rdma_comm_core.Verbs.{Verbs, Trace}
use rdma_comm_core.Buffer.{Block, Buffer, clean_sub_buffers}
use rdma_comm_core.Device.{World}
use rdma_comm_core.Device.MemoryRegion.{real_register_mem, real_deregister_mem}
use rdma_comm_core.Adapter.{Adapter, CommDescriptor, device_of}

pub record Channel : Type 0 where
  pub adapter : Adapter
  pub open adapter use *
  pub owning_buffers : List (String × ℕ)
  pub peer_buffer_mgr : List (String × CommDescriptor)

-- A channel with the buffers of the process, by address, and the devices.
pub record Host : Type 0 where
  pub channel : Channel
  pub buffers : ℕ → Option Buffer
  pub world : World

abbrev pub store : ℕ → Option Buffer → (ℕ → Option Buffer) → ℕ → Option Buffer
store p b heap q = if p == q then b else heap q

-- The owner and the memory region of every sub-buffer.
unfoldable pub share : ℕ → ℕ → List Block → List Block
share owner mr [] = []
share owner mr (s ∷ ss) = record s { owned_by_channel = owner; mr = mr } ∷ share owner mr ss

module _ (v : Verbs) where
  -- RDMAAdapter::register_mem and deregister_mem
  unfoldable pub register_mem : Adapter → ℕ → ℕ → ℕ → World → Outcome (ℕ × World)
  register_mem a data_ptr size access_flags w = do
    d ← device_of a w
    (mr, t) ← real_register_mem v a.pd data_ptr size access_flags w.trace
    ok (mr, record w { trace = t })

  unfoldable pub deregister_mem : Adapter → ℕ → World → Outcome World
  deregister_mem a mr w = do
    d ← device_of a w
    t ← real_deregister_mem v mr w.trace
    ok (record w { trace = t })

  -- RDMABuffer::register_in_channel on the buffer `b`
  unfoldable pub register_in_channel : Adapter → Buffer → World → Outcome (Buffer × World)
  register_in_channel a b w = do
    check (not b.is_sub_buffer)
    (mr, w') ← register_mem a b.data_ptr b.buffer_size 0 w
    ok (
      record b {
        head = record (b.head) { owned_by_channel = a.this; mr = mr };
        buffer_mgr = share a.this mr b.buffer_mgr;
      },
      w',
    )

  unfoldable pub register_buffer : ℕ → Host → Outcome Host
  register_buffer p h = do
    check (not (p == 0))
    b ← or_undefined (h.buffers p)
    check (elim (find b.buffer_name h.channel.owning_buffers) [ none ↦ true | some q ↦ false ])
    (b', w) ← register_in_channel h.channel.adapter b h.world
    ok (record {
      channel = record (h.channel) {
        owning_buffers = insert b.buffer_name p h.channel.owning_buffers;
      };
      buffers = store p (some b') h.buffers;
      world = w;
    })

unfoldable pub remove_buffer : ℕ → Host → Outcome (Bool × Host)
remove_buffer p h = do
  check (not (p == 0))
  b ← or_undefined (h.buffers p)
  ok (
    false,
    record h {
      channel = record (h.channel) {
        owning_buffers = erase b.buffer_name h.channel.owning_buffers;
      };
    },
  )

unfoldable pub find_buffer : String → Channel → Option ℕ
find_buffer key c = find key c.owning_buffers

-- The reference to the descriptor is a copy that the map keeps.
unfoldable pub insert_peer_buffer : String → CommDescriptor → Channel → Bool × Channel
insert_peer_buffer key peer c = elim (find key c.peer_buffer_mgr) [
  | some old ↦ (false, c)
  | none ↦ (true, record c { peer_buffer_mgr = insert key peer c.peer_buffer_mgr })
]

unfoldable pub find_peer_buffer : String → Channel → Option CommDescriptor
find_peer_buffer key c = find key c.peer_buffer_mgr

module _ (v : Verbs) where
  -- RDMABuffer::deregister_from_channel on the buffer at `p`, with the host's channel as its argument
  unfoldable pub deregister_from_channel : ℕ → Host → Outcome (Bool × Host)
  deregister_from_channel p h = do
    b ← or_undefined (h.buffers p)
    check (not b.is_sub_buffer)
    check (not (b.mr == 0))
    w ← deregister_mem v h.channel.adapter b.mr h.world
    (removed, h') ← remove_buffer p (record h { world = w })
    let b' = record b { head = record (b.head) { owned_by_channel = 0; mr = 0 } }
    ok (false, record h' { buffers = store p (some b') h'.buffers })

-- The entries behind the one of `key` in the map as it is then; none if that entry is gone.
unfoldable pub behind : String → List (String × ℕ) → Option (List (String × ℕ))
behind key [] = none
behind key ((k, p) ∷ m) = if same k key then some m else behind key m

module _ (v : Verbs) where
  -- The loop of ~RDMAChannel over its buffers, from the entry that its iterator stands at. To move an
  -- iterator on from an entry that has been erased is undefined.
  unfoldable pub destroy_from : ℕ → List (String × ℕ) → Host → Outcome Host
  destroy_from fuel [] h = ok h
  destroy_from zero (entry ∷ rest) h = fault no_fuel
  destroy_from (suc fuel) ((key, p) ∷ rest) h = deregister_from_channel v p h >>= λ r.
      or_undefined (behind key r.1.channel.owning_buffers) >>= λ next. destroy_from fuel next r.1

  unfoldable pub destroy_channel : Host → Outcome Host
  destroy_channel h = destroy_from (length h.channel.owning_buffers) h.channel.owning_buffers h

  -- ~RDMABuffer of a base buffer at `p` that the host's channel owns or none; the object is gone.
  unfoldable pub destroy_buffer : ℕ → Host → Outcome Host
  destroy_buffer p h = do
    b ← or_undefined (h.buffers p)
    r ← (if b.owned_by_channel == 0 then ok (false, h) else deregister_from_channel v p h)
    ok (record (r.1) { buffers = store p none r.1.buffers })
