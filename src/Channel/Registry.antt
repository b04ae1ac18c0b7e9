-- ===== src/Channel/Registry.antt =====
-- What the table of a channel's buffers and the buffers say of each other.
use rdma_comm_core.Prelude.{ℕ, ◌≡◌, ◌≢◌, String, false, Option, some, arith, find}
use rdma_comm_core.Buffer.{Buffer}
use rdma_comm_core.Channel.{Host, store}

-- The buffer under `key`: a base buffer of that name, which the channel owns and has registered.
pub record IsOwned (this : ℕ) (key : String) (b : Buffer) : Type 0 where
  pub named : b.buffer_name ≡ key
  pub owned : b.owned_by_channel ≡ this
  pub registered : b.mr ≢ 0
  pub base : b.is_sub_buffer ≡ false

abbrev pub IsRegistry : Host → Type 0
IsRegistry h =
    (key : String) (p : ℕ)
    → find key h.channel.owning_buffers ≡ some p
    → (b : Buffer) × (h.buffers p ≡ some b) × IsOwned h.channel.this key b

pub store_here : (p : ℕ) (b : Option Buffer) (heap : ℕ → Option Buffer) → store p b heap p ≡ b
store_here p b heap = ground arith

pub store_there :
    (p q : ℕ) (b : Option Buffer) (heap : ℕ → Option Buffer) → p ≢ q → store p b heap q ≡ heap q
store_there p q b heap ne = ground arith
